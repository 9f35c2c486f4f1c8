-- ===== src/TimerQueue/Cycle.antt =====
-- `reset` of networker/net/TimerQueue.cpp: what becomes of the timers that were due.
use network_program_base_fra.Prelude.{
  ℕ, ◌≡◌, ◌≢◌, refl, sym, ap, ◌∙◌, inl, inr, Bool, true, false, not, ◌&&◌, Option, some, none, List,
  [], ◌∷◌, arith, Bool-cases, update, ltb,
}
use network_program_base_fra.TimerQueue.{
  Timer, TimerQueue, restart, insert_timer, reset_each, rearm, reset, reset_timerfd,
}
use network_program_base_fra.TimerQueue.PairSet.{Pair, member, member-insert}
use network_program_base_fra.TimerQueue.Valid.{IsValid, inserted, insert_timer_lem, others-IsValid}
use network_program_base_fra.TimerQueue.Cancel.{IsDetached, update-IsValid}
use network_program_base_fra.TimerQueue.Expiry.{Pending, Apart, member-head}

-- Nothing changes at the address.
abbrev pub SameAt : ℕ → TimerQueue → TimerQueue → Type 0
SameAt a q q' =
    (q'.store a ≡ q.store a) × ((s : ℕ) → member (a, s) q'.active ≡ member (a, s) q.active)

-- Timers that wait go on waiting if nothing changes at other addresses than one that is apart.
Pending-Apart :
    (es : List Pair) (addr : ℕ) (q q' : TimerQueue)
    → ((a : ℕ) → addr ≢ a → SameAt a q q')
    → Apart addr es
    → Pending es q
    → Pending es q'
Pending-Apart [] addr q q' same ap p = tt
Pending-Apart ((t, a) ∷ es) addr q q' same apart ((timer, e, at), out, rest, p) = (
  (timer, (same a apart.0).0 ∙ e, at),
  (λ s. (same a apart.0).1 s ∙ out s),
  rest,
  Pending-Apart es addr q q' same apart.1 p,
)

-- The test of `reset`.
abbrev pub again : Timer → ℕ → TimerQueue → Bool
again timer addr q = timer.repeat && not (member (addr, timer.sequence) q.canceling)

-- A repeating timer that was not canceled is active again from `now` on; any other is deleted.
abbrev pub Settled : ℕ → List Pair → TimerQueue → TimerQueue → Type 0
Settled now [] q q' = Unit {0}
Settled now ((t, addr) ∷ es) q q' =
    ((timer : Timer) × (q.store addr ≡ some timer)
      × (again timer addr q ≡ true
          → (q'.store addr ≡ some (restart now timer))
            × (member (addr, timer.sequence) q'.active ≡ true))
      × (again timer addr q ≡ false → q'.store addr ≡ none))
    × Settled now es q q'

record Reset (now : ℕ) (es : List Pair) (q q' : TimerQueue) : Type 0 where
  pub returns : reset_each now es q ≡ some q'
  pub valid : IsValid q'
  pub settled : Settled now es q q'
  pub elsewhere : (a : ℕ) → Apart a es → SameAt a q q'
  pub calling : q'.calling ≡ q.calling
  pub canceling : q'.canceling ≡ q.canceling

Settled-head :
    (now : ℕ) (es : List Pair) (addr : ℕ) (q p q' : TimerQueue)
    → p.canceling ≡ q.canceling
    → ((a : ℕ) → addr ≢ a → SameAt a q p)
    → Apart addr es
    → Settled now es p q'
    → Settled now es q q'
Settled-head now [] addr q p q' c same ap s = tt
Settled-head now ((t, a) ∷ es) addr q p q' c same apart ((timer, e, yes', no'), s) = (
  (
    timer,
    sym (same a apart.0).0 ∙ e,
    (λ h. yes' (ap (λ k. timer.repeat && not (member (a, timer.sequence) k)) c ∙ h)),
    (λ h. no' (ap (λ k. timer.repeat && not (member (a, timer.sequence) k)) c ∙ h)),
  ),
  Settled-head now es addr q p q' c same apart.1 s,
)

restart_sequence : (now : ℕ) (timer : Timer) → (restart now timer).sequence ≡ timer.sequence
unfolding restart
restart_sequence now timer = ground arith

-- The queue after one round of the loop.
abbrev restarted : ℕ → ℕ → Timer → TimerQueue → TimerQueue
restarted now addr timer q =
    inserted addr (restart now timer)
      (record q { store = update q.store addr (some (restart now timer)) })

abbrev deleted : ℕ → TimerQueue → TimerQueue
deleted addr q = record q { store = update q.store addr none }

restarted-SameAt :
    (now addr : ℕ) (timer : Timer) (q : TimerQueue) (a : ℕ)
    → addr ≢ a
    → SameAt a q (restarted now addr timer q)
restarted-SameAt now addr timer q a apart = (
  ground arith,
  λ s. ground (arith, member-insert (a, s) (addr, (restart now timer).sequence) q.active),
)

deleted-SameAt : (addr : ℕ) (q : TimerQueue) (a : ℕ) → addr ≢ a → SameAt a q (deleted addr q)
deleted-SameAt addr q a apart = (ground arith, λ s. refl)

SameAt-trans : (a : ℕ) (q p r : TimerQueue) → SameAt a q p → SameAt a p r → SameAt a q r
SameAt-trans a q p r h k = (k.0 ∙ h.0, λ s. k.1 s ∙ h.1 s)

-- A round keeps the invariant, whether the timer is inserted again or deleted.
restarted_lem :
    (now addr : ℕ) (timer : Timer) (q : TimerQueue)
    → IsValid q
    → IsDetached addr q
    → (changed : Bool) × (insert_timer addr
          (record q { store = update q.store addr (some (restart now timer)) })
        ≡ some (changed, restarted now addr timer q))
      × IsValid (restarted now addr timer q)
      × (member (addr, timer.sequence) (restarted now addr timer q).active ≡ true)
restarted_lem now addr timer q v out =
    let r : Timer = restart now timer in
    let p : TimerQueue = record q { store = update q.store addr (some r) } in
    let (e, w) =
      insert_timer_lem p addr r (update-IsValid q addr (some r) v out) (ground arith)
        (out r.sequence) in
    (
      _,
      e,
      w,
      ground (
        arith,
        restart_sequence now timer,
        member-insert (addr, timer.sequence) (addr, r.sequence) q.active,
      ),
    )

-- The loop of `reset` passes its assertions.
reset_each_lem :
    (now : ℕ) (es : List Pair) (q : TimerQueue)
    → IsValid q
    → Pending es q
    → (q' : TimerQueue) × Reset now es q q'
unfolding reset_each
reset_each_lem now [] q v p = (
  q,
  record {
    returns = refl;
    valid = v;
    settled = tt;
    elsewhere = λ a h. (refl, λ s. refl);
    calling = refl;
    canceling = refl;
  },
)
reset_each_lem now ((t, addr) ∷ es) q v ((timer, e, at), out, apart, p) =
    elim (Bool-cases (again timer addr q)) [
      | inl on ↦
          let (changed, f, w, in_set) = restarted_lem now addr timer q v out in
          let r : TimerQueue = restarted now addr timer q in
          let same = restarted-SameAt now addr timer q in
          let (q', h) = reset_each_lem now es r w (Pending-Apart es addr q r same apart p) in
          (
            q',
            record {
              returns = rw (e, on, f) h.returns;
              valid = h.valid;
              settled = (
                (
                  timer,
                  e,
                  (λ _. (
                    (h.elsewhere addr apart).0 ∙ ground arith,
                    (h.elsewhere addr apart).1 timer.sequence ∙ in_set,
                  )),
                  (λ off. ground arith),
                ),
                Settled-head now es addr q r q' refl same apart h.settled,
              );
              elsewhere =
                  λ a z. SameAt-trans a q r q' (same a (λ s. z.0 (sym s))) (h.elsewhere a z.1);
              calling = h.calling;
              canceling = h.canceling;
            },
          )
      | inr off ↦
          let r : TimerQueue = deleted addr q in
          let same = deleted-SameAt addr q in
          let (q', h) =
            reset_each_lem now es r (update-IsValid q addr none v out)
              (Pending-Apart es addr q r same apart p) in
          (
            q',
            record {
              returns = rw (e, off) h.returns;
              valid = h.valid;
              settled = (
                (timer, e, (λ on. ground arith), (λ _. (h.elsewhere addr apart).0 ∙ ground arith)),
                Settled-head now es addr q r q' refl same apart h.settled,
              );
              elsewhere =
                  λ a z. SameAt-trans a q r q' (same a (λ s. z.0 (sym s))) (h.elsewhere a z.1);
              calling = h.calling;
              canceling = h.canceling;
            },
          )
    ]

Settled-others :
    (now : ℕ) (es : List Pair) (q q' : TimerQueue) (x : Option ℕ)
    → Settled now es q q'
    → Settled now es q (record q' { expires_at = x })
Settled-others now [] q q' x s = tt
Settled-others now (e ∷ es) q q' x s = (s.0, Settled-others now es q q' x s.1)

-- The end of `reset` changes the descriptor alone.
rearm_lem :
    (clock : ℕ) (es : List Pair) (q : TimerQueue)
    → IsValid q
    → q.timers ≡ es
    → (x : Option ℕ) × (rearm clock es q ≡ some (record q { expires_at = x }))
unfolding rearm
rearm_lem clock [] q v e = (q.expires_at, refl)
rearm_lem clock ((t, addr) ∷ rest) q v e =
    let (timer, f, _, _) = v.timer_of t addr (rw e (member-head (t, addr) rest)) in
    elim (Bool-cases (ltb 0 timer.expiration)) [
      | inl valid ↦ (
        (reset_timerfd clock timer.expiration q).expires_at,
        rw (f, valid) (unfold reset_timerfd in refl),
      )
      | inr unset ↦ (q.expires_at, rw (f, unset) refl)
    ]

-- On a valid queue with the given timers waiting in the store, reset fails no assertion and leaves
-- a valid queue: of these timers those that repeat and were not canceled are active again, with
-- the restarted expiration, and the others are deleted. Whether a pass is under way is unchanged.
pub reset_lem :
    (clock now : ℕ) (es : List Pair) (q : TimerQueue)
    → IsValid q
    → Pending es q
    → (q' : TimerQueue) × (reset clock now es q ≡ some q')
      × IsValid q'
      × Settled now es q q'
      × (q'.calling ≡ q.calling)
unfolding reset
reset_lem clock now es q v p =
    let (q', h) = reset_each_lem now es q v p in
    let (x, e) = rearm_lem clock q'.timers q' h.valid refl in
    (
      record q' { expires_at = x },
      rw (h.returns, e) refl,
      others-IsValid q' q'.canceling q'.calling x q'.num_created h.valid,
      Settled-others now es q q' x h.settled,
      h.calling,
    )
