-- ===== src/Poller/EpollLaws.antt =====
-- What updating and removing a channel do to the interest list
-- (networker/net/poller/EPollPoller.cpp).
use mathlib.Core.Path.{fun_ext}
use network_program_base_fra.Prelude.{
  ℕ, ◌≡◌, refl, sym, ap, ◌∙◌, Bool, true, false, not, ◌&&◌, ◌||◌, Option, none, some, some_inj, ◌∷◌,
  ◌==◌, ==_iff, if◌then◌else◌, update, arith, inl, inr, Bool-cases, subst,
}
use network_program_base_fra.Prelude.Int.{ℤ, pos, negsuc}
use network_program_base_fra.Poller.{Store, ChannelMap, is_end, set_index, is_index}
use network_program_base_fra.Poller.Epoll.{
  Operation, adds, modifies, deletes, EPollPoller, new, added, deleted, is_new, control,
  update_channel,
}
use network_program_base_fra.Poller.EpollValid.{
  outcome, interest, allowed, all_allowed, watches, is_known, IsValid, set_index_away, same_self,
  moved, moved-IsValid,
}

set_index_same : (a : ℕ) (i : ℤ) (store : Store) → (store a).index ≡ i → set_index a i store ≡ store
set_index_same a i store e = fun_ext (λ b. elim (Bool-cases (b == a)) [
  | inl h ↦ rw (h, (==_iff b a).0 h) (ap (λ j. record (store a) { index = j }) (sym e))
  | inr h ↦ set_index_away a b i store h
])

is_added : (i : ℤ) → is_index i added ≡ true → i ≡ pos added
is_added (pos n) e = ap pos ((==_iff n added).0 e)
is_added (negsuc n) e = absurd (ground arith)

-- What a channel asks for after an update.
abbrev pub asked : ℤ → ℕ → Option ℕ
asked index events = if is_index index added && (events == 0) then none else some events

registers_new :
    (a : ℕ) (p : EPollPoller)
    → is_new (p.store a).index ≡ true
    → is_end (p.channels (p.store a).fd) ≡ true
    → update_channel true a p
      ≡ some (moved a (pos added) adds p (update p.channels (p.store a).fd (some a)))
unfolding update_channel control
registers_new a p e h = rw (e, h, same_self a) refl

registers_deleted :
    (a : ℕ) (p : EPollPoller)
    → is_new (p.store a).index ≡ false
    → is_index (p.store a).index deleted ≡ true
    → p.channels (p.store a).fd ≡ some a
    → update_channel true a p ≡ some (moved a (pos added) adds p p.channels)
unfolding update_channel control
registers_deleted a p e h c = rw (e, h, c, same_self a) refl

disables :
    (a : ℕ) (p : EPollPoller)
    → is_new (p.store a).index ≡ false
    → is_index (p.store a).index added ≡ true
    → is_index (p.store a).index deleted ≡ false
    → p.channels (p.store a).fd ≡ some a
    → ((p.store a).events == 0) ≡ true
    → update_channel true a p ≡ some (moved a (pos deleted) deletes p p.channels)
unfolding update_channel control
disables a p e h d c z = rw (e, h, d, c, z, same_self a) refl

changes :
    (a : ℕ) (p : EPollPoller)
    → is_new (p.store a).index ≡ false
    → is_index (p.store a).index added ≡ true
    → is_index (p.store a).index deleted ≡ false
    → p.channels (p.store a).fd ≡ some a
    → ((p.store a).events == 0) ≡ false
    → update_channel true a p ≡ some (moved a (pos added) modifies p p.channels)
unfolding update_channel control
changes a p e h d c z =
    rw (e, h, d, c, z, same_self a)
      (ap
        (λ s. some (record p {
          store = s;
          calls =
              record { operation = modifies; fd = (p.store a).fd; events = (p.store a).events }
              ∷ p.calls;
        }))
        (sym (set_index_same a (pos added) p.store (is_added (p.store a).index h))))

-- The interest list after one call for `a`.
interest-moved :
    (a : ℕ) (i : ℤ) (op : Operation) (p : EPollPoller) (ch : ChannelMap)
    → interest (moved a i op p ch).calls (p.store a).fd ≡ outcome op (p.store a).events
unfolding interest
interest-moved a i op p ch = rw (same_self (p.store a).fd) refl

interest-moved_away :
    (a : ℕ) (i : ℤ) (op : Operation) (p : EPollPoller) (ch : ChannelMap) (fd : ℕ)
    → ((p.store a).fd == fd) ≡ false
    → interest (moved a i op p ch).calls fd ≡ interest p.calls fd
unfolding interest
interest-moved_away a i op p ch fd e = rw e refl

-- What an update reaches: a valid poller whose interest list has changed at one descriptor.
abbrev pub Reaches : ℕ → EPollPoller → Option EPollPoller → Option ℕ → Type 0
Reaches a p result events =
    (p' : EPollPoller) × (result ≡ some p')
    × IsValid p'
    × (interest p'.calls (p.store a).fd ≡ events)
    × ((fd : ℕ) → ((p.store a).fd == fd) ≡ false → interest p'.calls fd ≡ interest p.calls fd)

reaches :
    (a : ℕ) (i : ℤ) (op : Operation) (p : EPollPoller) (ch : ChannelMap)
    (result : Option EPollPoller)
    → result ≡ some (moved a i op p ch)
    → IsValid (moved a i op p ch)
    → Reaches a p result (outcome op (p.store a).events)
reaches a i op p ch result e v =
    (moved a i op p ch, e, v, interest-moved a i op p ch, interest-moved_away a i op p ch)

-- Whether the descriptor of a channel is watched.
pub watched-entered :
    (a : ℕ) (p : EPollPoller)
    → IsValid p
    → p.channels (p.store a).fd ≡ some a
    → is_end (interest p.calls (p.store a).fd) ≡ not (is_index (p.store a).index added)
watched-entered a p v c = v.watched (p.store a).fd ∙ ap (λ o. not (watches o p.store)) c

new_is_not_added : (i : ℤ) → is_new i ≡ true → is_index i added ≡ false
new_is_not_added (pos n) e = absurd (ground arith)
new_is_not_added (negsuc n) e = refl

added_is_not_deleted : (i : ℤ) → is_index i added ≡ true → is_index i deleted ≡ false
added_is_not_deleted i e = rw (is_added i e) refl

pub differs_sym : (m n : ℕ) → (m == n) ≡ false → (n == m) ≡ false
differs_sym m n e = ground arith

pub end_not_some : (o : Option ℕ) (b : ℕ) → is_end o ≡ true → o ≡ some b → ⊥
end_not_some none b h e = ground arith
end_not_some (some c) b h e = ground arith

end_not_watched : (o : Option ℕ) (store : Store) → is_end o ≡ true → watches o store ≡ false
end_not_watched none store h = refl
end_not_watched (some c) store h = absurd (ground arith)

module _ (a : ℕ) (p : EPollPoller) (v : IsValid p) where
  abbrev Updates : Type 0
  Updates = Reaches a p (update_channel true a p) (asked (p.store a).index (p.store a).events)

  free : is_end (p.channels (p.store a).fd) ≡ true → is_end (interest p.calls (p.store a).fd) ≡ true
  free h = v.watched (p.store a).fd ∙ ap not (end_not_watched (p.channels (p.store a).fd) p.store h)

  update_new : is_new (p.store a).index ≡ true → is_end (p.channels (p.store a).fd) ≡ true → Updates
  update_new n h =
      let ch : ChannelMap = update p.channels (p.store a).fd (some a) in
      subst (λ o. Reaches a p (update_channel true a p) o)
        (sym (
          ap (λ t. if t && ((p.store a).events == 0) then none else some (p.store a).events)
            (new_is_not_added (p.store a).index n)))
        (reaches a (pos added) adds p ch (update_channel true a p) (registers_new a p n h) (
          moved-IsValid a (pos added) adds p ch v (rw (same_self (p.store a).fd) refl)
            (λ fd e. rw (differs_sym (p.store a).fd fd e) refl)
            (λ b e. absurd (end_not_some (p.channels (p.store a).fd) b h e)) refl (free h) refl))

  retarget :
      (o : Option ℕ)
      → o ≡ asked (p.store a).index (p.store a).events
      → Reaches a p (update_channel true a p) o
      → Updates
  retarget o e r = subst (λ o'. Reaches a p (update_channel true a p) o') e r

  -- A channel that is in the map stays there.
  stays :
      (i : ℤ) (op : Operation)
      → p.channels (p.store a).fd ≡ some a
      → is_known i ≡ true
      → allowed op (interest p.calls (p.store a).fd) ≡ true
      → is_end (outcome op (p.store a).events) ≡ not (is_index i added)
      → IsValid (moved a i op p p.channels)
  stays i op c = moved-IsValid a i op p p.channels v c (λ fd e. refl) (λ b e. some_inj (sym e ∙ c))

  update_entered : is_new (p.store a).index ≡ false → p.channels (p.store a).fd ≡ some a → Updates
  update_entered n c = elim (Bool-cases (is_index (p.store a).index added)) [
    | inl d ↦
        let deleted_not : is_index (p.store a).index deleted ≡ false =
          added_is_not_deleted (p.store a).index d in
        let may : not (is_end (interest p.calls (p.store a).fd)) ≡ true =
          ap not (watched-entered a p v c) ∙ rw d refl in
        elim (Bool-cases ((p.store a).events == 0)) [
          | inl z ↦ retarget none (rw (d, z) refl) (
              reaches a (pos deleted) deletes p p.channels (update_channel true a p)
                (disables a p n d deleted_not c z) (stays (pos deleted) deletes c refl may refl))
          | inr z ↦ retarget (some (p.store a).events) (rw (d, z) refl) (
              reaches a (pos added) modifies p p.channels (update_channel true a p)
                (changes a p n d deleted_not c z) (stays (pos added) modifies c refl may refl))
        ]
    | inr d ↦ retarget (some (p.store a).events) (rw d refl) (
        reaches a (pos added) adds p p.channels (update_channel true a p)
          (registers_deleted a p n
            (sym (ap (λ t. t || is_index (p.store a).index deleted) d) ∙ v.known (p.store a).fd a c)
            c)
          (stays (pos added) adds c refl (watched-entered a p v c ∙ ap not d) refl))
  ]

-- On a valid poller, updating a channel that the poller knows, or a new one whose descriptor is
-- free, passes every assertion, keeps the poller valid, makes a call that epoll_ctl allows, and
-- leaves the kernel watching the descriptor for the channel's events: nothing when the channel was
-- added and asks for no events. The other descriptors are watched as before.
pub update_channel_lem :
    (a : ℕ) (p : EPollPoller)
    → IsValid p
    → (not (is_new (p.store a).index) || is_end (p.channels (p.store a).fd)) ≡ true
    → Reaches a p (update_channel true a p) (asked (p.store a).index (p.store a).events)
update_channel_lem a p v h = elim (Bool-cases (is_new (p.store a).index)) [
  | inl n ↦ update_new a p v n (sym (ap (λ t. not t || is_end (p.channels (p.store a).fd)) n) ∙ h)
  | inr n ↦ update_entered a p v n (v.entered a n)
]

pub new-IsValid : (store : Store) → ((a : ℕ) → is_new (store a).index ≡ true) → IsValid (new store)
unfolding new interest all_allowed
new-IsValid store h = record {
  named = λ fd a e. absurd (ground arith);
  known = λ fd a e. absurd (ground arith);
  entered = λ a e. absurd (no_two (is_new (store a).index) (h a) e);
  legal = refl;
  watched = λ fd. refl;
}
  where
    no_two : (b : Bool) → b ≡ true → b ≡ false → ⊥
    no_two b s t = ground arith
