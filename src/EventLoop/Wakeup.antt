-- ===== src/EventLoop/Wakeup.antt =====
-- No functor of networker/net/EventLoop.cpp is lost, and the loop does not sleep on one.
use network_program_base_fra.Prelude.{
  ℕ, ◌+◌, ◌<◌, ◌≡◌, ◌⊎◌, refl, sym, ap, ◌∙◌, Bool, true, false, List, [], ◌∷◌, ◌++◌, arith, inl,
  inr, append-nil, append_assoc, if◌then◌else◌,
}
use network_program_base_fra.EventLoop.{
  EventLoop, polling, handling, calling, calling_pending_functors, queue_in_loop, wakeup, wake,
  poll_returns, handle_read, take_functors, call_functor, call_next,
}

true-false : true ≡ false → ⊥
true-false e = ground arith

pub data Event : Type 0 where
  queues : Bool → ℕ → Event
  wakes polls reads takes calls : Event

abbrev pub step : Event → EventLoop → EventLoop
step (queues in_loop f) l = queue_in_loop in_loop f l
step wakes l = wake l
step polls l = poll_returns l
step reads l = handle_read l
step takes l = take_functors l
step calls l = call_functor l

-- The loop's thread does one thing after the other, and does not queue while it polls; only who
-- queued a functor wakes the loop.
abbrev pub Possible : Event → EventLoop → Type 0
Possible (queues true f) l = (l.phase ≡ handling) ⊎ (l.phase ≡ calling)
Possible (queues false f) l = Unit {0}
Possible wakes l = 0 < l.waking
Possible polls l = l.phase ≡ polling
Possible reads l = l.phase ≡ handling
Possible takes l = (l.phase ≡ handling) × (l.functors ≡ [])
Possible calls l = l.phase ≡ calling

-- A functor that waits while the loop polls, or will poll without taking functors before, keeps
-- the loop awake: the descriptor is readable, or will be by who queued it.
pub record IsAwake (l : EventLoop) : Type 0 where
  pub awake : (l.phase ≡ handling) ⊎ ((l.pending_functors ≡ []) ⊎ (0 < l.eventfd + l.waking))
  pub empty : (l.phase ≡ calling) ⊎ (l.functors ≡ [])

-- The functors in the order in which they are called.
unfoldable pub order : EventLoop → List ℕ
order l = l.called ++ (l.functors ++ l.pending_functors)

abbrev pub added : Event → List ℕ
added (queues in_loop f) = f ∷ []
added e = []

pub record Stepped (xs : List ℕ) (l l' : EventLoop) : Type 0 where
  pub valid : IsAwake l'
  pub order : order l' ≡ order l ++ xs

queued_last : (a b c : List ℕ) (f : ℕ) → a ++ (b ++ (c ++ f ∷ [])) ≡ (a ++ (b ++ c)) ++ f ∷ []
queued_last a b c f =
    ap (λ t. a ++ t) (sym (append_assoc b c (f ∷ []))) ∙ sym (append_assoc a (b ++ c) (f ∷ []))

queue_lem :
    (in_loop : Bool) (f : ℕ) (l : EventLoop)
    → IsAwake l
    → Possible (queues in_loop f) l
    → Stepped (f ∷ []) l (queue_in_loop in_loop f l)
unfolding queue_in_loop wakeup order
queue_lem false f l v can = record {
  valid = record { awake = inr (inr (omega arith)); empty = v.empty };
  order = queued_last l.called l.functors l.pending_functors f;
}
queue_lem true f l v can = go (calling_pending_functors l.phase) refl
  where
    go :
        (b : Bool)
        → calling_pending_functors l.phase ≡ b
        → Stepped (f ∷ []) l (
            if b
            then wakeup (record l { pending_functors = l.pending_functors ++ f ∷ [] })
            else record l { pending_functors = l.pending_functors ++ f ∷ [] })
    go true e = record {
      valid = record { awake = inr (inr (omega arith)); empty = v.empty };
      order = queued_last l.called l.functors l.pending_functors f;
    }
    go false e = record {
      valid = record {
        awake = inl (elim can [
          | inl h ↦ h
          | inr h ↦ absurd (true-false (sym (ap calling_pending_functors h) ∙ e))
        ]);
        empty = v.empty;
      };
      order = queued_last l.called l.functors l.pending_functors f;
    }

same_order : (l : EventLoop) → order l ≡ order l ++ []
same_order l = sym (append-nil (order l))

take_lem : (l : EventLoop) → IsAwake l → l.functors ≡ [] → Stepped [] l (take_functors l)
unfolding take_functors order
take_lem l v e = record {
  valid = record { awake = inr (inl refl); empty = inl refl };
  order =
      ap (λ t. l.called ++ t) (append-nil l.pending_functors)
      ∙ ap (λ t. l.called ++ (t ++ l.pending_functors)) (sym e)
      ∙ same_order l;
}

-- What the phase says of a loop that calls functors.
still_awake :
    (l : EventLoop)
    → IsAwake l
    → l.phase ≡ calling
    → (l.pending_functors ≡ []) ⊎ (0 < l.eventfd + l.waking)
still_awake l v h = elim v.awake [
  | inl g ↦
      absurd (true-false (sym (ap calling_pending_functors h) ∙ ap calling_pending_functors g))
  | inr g ↦ g
]

call_lem : (l : EventLoop) → IsAwake l → l.phase ≡ calling → Stepped [] l (call_functor l)
unfolding call_functor order
call_lem l v h = go l.functors refl
  where
    go : (fs : List ℕ) → l.functors ≡ fs → Stepped [] l (call_next fs l)
    go [] e = record {
      valid = record { awake = inr (still_awake l v h); empty = inr e };
      order = same_order l;
    }
    go (f ∷ fs) e = record {
      valid = record { awake = inr (still_awake l v h); empty = inl h };
      order =
          append_assoc l.called (f ∷ []) (fs ++ l.pending_functors)
          ∙ ap (λ t. l.called ++ (t ++ l.pending_functors)) (sym e)
          ∙ same_order l;
    }

none_taken : (l : EventLoop) → IsAwake l → l.phase ≡ polling → l.functors ≡ []
none_taken l v h = elim v.empty [
  | inl g ↦
      absurd (true-false (sym (ap calling_pending_functors g) ∙ ap calling_pending_functors h))
  | inr g ↦ g
]

-- Every possible step of the loop's thread and of the threads that queue functors keeps this: the
-- functors are called in the order in which they were queued, none lost or called twice, and a
-- functor that waits while the loop polls, or goes back to polling, has the wakeup descriptor
-- readable or a thread about to write to it.
pub loop_lem :
    (e : Event) (l : EventLoop) → IsAwake l → Possible e l → Stepped (added e) l (step e l)
unfolding wake wakeup poll_returns handle_read order
loop_lem (queues in_loop f) l v can = queue_lem in_loop f l v can
loop_lem wakes l v can = record {
  valid = record {
    awake = elim v.awake [ inl h ↦ inl h | inr g ↦ inr (inr (omega arith)) ];
    empty = v.empty;
  };
  order = same_order l;
}
loop_lem polls l v can = record {
  valid = record { awake = inl refl; empty = inr (none_taken l v can) };
  order = same_order l;
}
loop_lem reads l v can = record {
  valid = record { awake = inl can; empty = v.empty };
  order = same_order l;
}
loop_lem takes l v can = take_lem l v can.1
loop_lem calls l v can = call_lem l v can
