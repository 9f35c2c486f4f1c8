-- ===== src/TimerQueue/Valid.antt =====
-- The invariant that networker/net/TimerQueue.h states: `timers_` and `activeTimers_` hold the same
-- timers, one in the order of their expiration, the other by address. `insert` keeps it.
use network_program_base_fra.Prelude.{
  ℕ, ◌≡◌, refl, sym, ap, ◌∙◌, inl, inr, Bool, true, false, ◌||◌, Option, some, List, arith, length,
  ==_iff, Bool-cases,
}
use network_program_base_fra.TimerQueue.{Timer, TimerQueue, is_earliest, insert_timer}
use network_program_base_fra.TimerQueue.PairSet.{
  Pair, eq_pair, member, insert, IsSorted, member-insert, insert-IsSorted, length-insert,
}

pub record IsValid (q : TimerQueue) : Type 0 where
  pub sorted_timers : IsSorted q.timers
  pub sorted_active : IsSorted q.active
  pub same_size : length q.timers ≡ length q.active
  pub timer_of :
      (t addr : ℕ)
      → member (t, addr) q.timers ≡ true
      → (timer : Timer) × (q.store addr ≡ some timer)
        × (timer.expiration ≡ t)
        × (member (addr, timer.sequence) q.active ≡ true)
  pub active_of :
      (addr s : ℕ)
      → member (addr, s) q.active ≡ true
      → (timer : Timer) × (q.store addr ≡ some timer)
        × (timer.sequence ≡ s)
        × (member (timer.expiration, addr) q.timers ≡ true)

-- The other members are free.
pub others-IsValid :
    (q : TimerQueue) (c : List Pair) (k : Bool) (x : Option ℕ) (n : ℕ)
    → IsValid q
    → IsValid (record q { canceling = c; calling = k; expires_at = x; num_created = n })
others-IsValid q c k x n v = record {
  sorted_timers = v.sorted_timers;
  sorted_active = v.sorted_active;
  same_size = v.same_size;
  timer_of = v.timer_of;
  active_of = v.active_of;
}

-- A timer that is not active is not among the timers either.
pub not_in_timers :
    (q : TimerQueue) (addr : ℕ) (timer : Timer)
    → IsValid q
    → q.store addr ≡ some timer
    → member (addr, timer.sequence) q.active ≡ false
    → (t : ℕ) → member (t, addr) q.timers ≡ false
not_in_timers q addr timer v e out t = elim (Bool-cases (member (t, addr) q.timers)) [
  | inl there ↦
      let (other, f, g, h) = v.timer_of t addr there in
      let same : other ≡ timer = cc in
      let again : member (addr, timer.sequence) q.active ≡ true = cc in absurd (ground arith)
  | inr away ↦ away
]

abbrev pub inserted : ℕ → Timer → TimerQueue → TimerQueue
inserted addr timer q = record q {
  timers = insert (timer.expiration, addr) q.timers;
  active = insert (addr, timer.sequence) q.active;
}

module _ (q : TimerQueue) (addr : ℕ) (timer : Timer) (v : IsValid q) (e : q.store addr ≡ some timer)
    (out : member (addr, timer.sequence) q.active ≡ false) where
  timer_of_inserted :
      (t a : ℕ)
      → (eq_pair (t, a) (timer.expiration, addr) || member (t, a) q.timers) ≡ true
      → (other : Timer) × (q.store a ≡ some other)
        × (other.expiration ≡ t)
        × (member (a, other.sequence) (insert (addr, timer.sequence) q.active) ≡ true)
  timer_of_inserted t a h = elim (Bool-cases (eq_pair (t, a) (timer.expiration, addr))) [
    | inl new ↦
        let at : a ≡ addr = ground arith in
        (
          timer,
          ap q.store at ∙ e,
          ground arith,
          ground (arith, member-insert (a, timer.sequence) (addr, timer.sequence) q.active),
        )
    | inr old ↦
        let (other, f, g, k) = v.timer_of t a (ground arith) in
        (
          other,
          f,
          g,
          ground (arith, member-insert (a, other.sequence) (addr, timer.sequence) q.active),
        )
  ]

  active_of_inserted :
      (a s : ℕ)
      → (eq_pair (a, s) (addr, timer.sequence) || member (a, s) q.active) ≡ true
      → (other : Timer) × (q.store a ≡ some other)
        × (other.sequence ≡ s)
        × (member (other.expiration, a) (insert (timer.expiration, addr) q.timers) ≡ true)
  active_of_inserted a s h = elim (Bool-cases (eq_pair (a, s) (addr, timer.sequence))) [
    | inl new ↦
        let at : a ≡ addr = ground arith in
        (
          timer,
          ap q.store at ∙ e,
          ground arith,
          ground (arith, member-insert (timer.expiration, a) (timer.expiration, addr) q.timers),
        )
    | inr old ↦
        let (other, f, g, k) = v.active_of a s (ground arith) in
        (
          other,
          f,
          g,
          ground (arith, member-insert (other.expiration, a) (timer.expiration, addr) q.timers),
        )
  ]

  inserted-IsValid : IsValid (inserted addr timer q)
  inserted-IsValid = record {
    sorted_timers = insert-IsSorted (timer.expiration, addr) q.timers v.sorted_timers;
    sorted_active = insert-IsSorted (addr, timer.sequence) q.active v.sorted_active;
    same_size = omega (
      arith,
      v.same_size,
      length-insert (timer.expiration, addr) q.timers
          (not_in_timers q addr timer v e out timer.expiration),
      length-insert (addr, timer.sequence) q.active out,
    );
    timer_of = λ t a h. timer_of_inserted t a (sym (member-insert _ _ q.timers) ∙ h);
    active_of = λ a s h. active_of_inserted a s (sym (member-insert _ _ q.active) ∙ h);
  }

  -- `insert` passes its assertions and keeps the invariant.
  pub insert_timer_lem :
      (insert_timer addr q ≡ some (is_earliest timer.expiration q.timers, inserted addr timer q))
      × IsValid (inserted addr timer q)
  unfolding insert_timer
  insert_timer_lem = (
    rw
        (
          (==_iff (length q.timers) (length q.active)).1 v.same_size,
          e,
          not_in_timers q addr timer v e out timer.expiration,
          out,
          (==_iff (length (inserted addr timer q).timers) (length (inserted addr timer q).active)).1
              inserted-IsValid.same_size,
        )
        refl,
    inserted-IsValid,
  )
