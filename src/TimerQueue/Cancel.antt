-- ===== src/TimerQueue/Cancel.antt =====
-- `cancelInLoop` of networker/net/TimerQueue.cpp, and the two moves that every operation on the
-- queue is made of: a timer leaves both sets, and a timer in neither set changes in the store.
use network_program_base_fra.Prelude.{
  ℕ, ◌≡◌, ◌≢◌, refl, sym, ap, ◌∙◌, subst, inl, inr, true, false, not, ◌&&◌, Option, some, none,
  List, arith, length, ==_iff, Bool-cases, update, some_inj,
}
use network_program_base_fra.TimerQueue.{Timer, TimerQueue, cancel_in_loop}
use network_program_base_fra.TimerQueue.PairSet.{
  Pair, eq_pair, member, insert, erase, member-insert, member-erase, erase-IsSorted, length-erase,
}
use network_program_base_fra.TimerQueue.Valid.{IsValid, others-IsValid}

-- No active timer stands at the address.
abbrev pub IsDetached : ℕ → TimerQueue → Type 0
IsDetached addr q = (s : ℕ) → member (addr, s) q.active ≡ false

pub detached :
    (q : TimerQueue) (addr : ℕ) (timer : Timer)
    → IsValid q
    → q.store addr ≡ some timer
    → member (addr, timer.sequence) q.active ≡ false
    → IsDetached addr q
detached q addr timer v e out s = elim (Bool-cases (member (addr, s) q.active)) [
  | inl there ↦
      let (other, f, g, h) = v.active_of addr s there in
      let same : other ≡ timer = cc in
      let again : member (addr, timer.sequence) q.active ≡ true = cc in absurd (ground arith)
  | inr away ↦ away
]

-- What stands at such an address may change.
pub update-IsValid :
    (q : TimerQueue) (addr : ℕ) (o : Option Timer)
    → IsValid q
    → IsDetached addr q
    → IsValid (record q { store = update q.store addr o })
update-IsValid q addr o v away = record {
  sorted_timers = v.sorted_timers;
  sorted_active = v.sorted_active;
  same_size = v.same_size;
  timer_of = λ t a h.
      let (timer, e, f, g) = v.timer_of t a h in (timer, ground (arith, away timer.sequence), f, g);
  active_of =
      λ a s h. let (timer, e, f, g) = v.active_of a s h in (timer, ground (arith, away s), f, g);
}

abbrev pub dropped : ℕ → Timer → TimerQueue → TimerQueue
dropped addr timer q = record q {
  timers = erase (timer.expiration, addr) q.timers;
  active = erase (addr, timer.sequence) q.active;
}

module _ (q : TimerQueue) (addr : ℕ) (timer : Timer) (v : IsValid q) (e : q.store addr ≡ some timer)
    (there : member (addr, timer.sequence) q.active ≡ true) where
  pub in_timers : member (timer.expiration, addr) q.timers ≡ true
  in_timers =
      let (other, f, g, h) = v.active_of addr timer.sequence there in
      let same : other ≡ timer = cc in cc

  timer_of_dropped :
      (t a : ℕ)
      → (not (eq_pair (t, a) (timer.expiration, addr)) && member (t, a) q.timers) ≡ true
      → (other : Timer) × (q.store a ≡ some other)
        × (other.expiration ≡ t)
        × (member (a, other.sequence) (erase (addr, timer.sequence) q.active) ≡ true)
  timer_of_dropped t a h =
      let (other, f, g, k) = v.timer_of t a (ground arith) in
      let apart : a ≢ addr =
        λ same. let one : other ≡ timer = some_inj (sym f ∙ ap q.store same ∙ e) in ground arith in
      (
        other,
        f,
        g,
        ground (
          arith,
          member-erase (a, other.sequence) (addr, timer.sequence) q.active v.sorted_active,
        ),
      )

  active_of_dropped :
      (a s : ℕ)
      → (not (eq_pair (a, s) (addr, timer.sequence)) && member (a, s) q.active) ≡ true
      → (other : Timer) × (q.store a ≡ some other)
        × (other.sequence ≡ s)
        × (member (other.expiration, a) (erase (timer.expiration, addr) q.timers) ≡ true)
  active_of_dropped a s h =
      let (other, f, g, k) = v.active_of a s (ground arith) in
      let apart : a ≢ addr =
        λ same. let one : other ≡ timer = some_inj (sym f ∙ ap q.store same ∙ e) in ground arith in
      (
        other,
        f,
        g,
        ground (
          arith,
          member-erase (other.expiration, a) (timer.expiration, addr) q.timers v.sorted_timers,
        ),
      )

  -- A timer that leaves both sets is detached.
  pub dropped-IsValid : IsValid (dropped addr timer q)
  dropped-IsValid = record {
    sorted_timers = erase-IsSorted (timer.expiration, addr) q.timers v.sorted_timers;
    sorted_active = erase-IsSorted (addr, timer.sequence) q.active v.sorted_active;
    same_size = omega (
      arith,
      v.same_size,
      length-erase (timer.expiration, addr) q.timers in_timers,
      length-erase (addr, timer.sequence) q.active there,
    );
    timer_of = λ t a h. timer_of_dropped t a (sym (member-erase _ _ q.timers v.sorted_timers) ∙ h);
    active_of =
        λ a s h. active_of_dropped a s (sym (member-erase _ _ q.active v.sorted_active) ∙ h);
  }

  pub dropped-IsDetached : IsDetached addr (dropped addr timer q)
  dropped-IsDetached = detached (dropped addr timer q) addr timer dropped-IsValid e (
      ground (
        arith,
        member-erase (addr, timer.sequence) (addr, timer.sequence) q.active v.sorted_active,
      ))

-- What a cancellation leaves behind: the invariant holds, the timer of the `TimerId` is not active
-- any more and deleted if it was, every other timer is active as before, no timer that waits in the
-- store is touched, and a pass that is under way is told of a timer that is not active.
abbrev pub Cancels : Pair → TimerQueue → Type 0
Cancels id q =
    (q' : TimerQueue) × (cancel_in_loop id q ≡ some q')
    × IsValid q'
    × ((other : Pair) → member other q'.active ≡ (not (eq_pair other id) && member other q.active))
    × (member id q.active ≡ true → q'.store id.0 ≡ none)
    × ((addr : ℕ) → IsDetached addr q → q'.store addr ≡ q.store addr)
    × (member id q.active ≡ false → q.calling ≡ true → member id q'.canceling ≡ true)

cancel_active :
    (q : TimerQueue) (addr : ℕ) (timer : Timer)
    → IsValid q
    → q.store addr ≡ some timer
    → member (addr, timer.sequence) q.active ≡ true
    → Cancels (addr, timer.sequence) q
unfolding cancel_in_loop
cancel_active q addr timer v e there =
    let w =
      update-IsValid (dropped addr timer q) addr none (dropped-IsValid q addr timer v e there)
        (dropped-IsDetached q addr timer v e there) in
    (
      record (dropped addr timer q) { store = update q.store addr none },
      rw
          (
            (==_iff (length q.timers) (length q.active)).1 v.same_size,
            there,
            e,
            in_timers q addr timer v e there,
            (==_iff (length (dropped addr timer q).timers) (length (dropped addr timer q).active)).1
                w.same_size,
          )
          refl,
      w,
      λ other. member-erase other (addr, timer.sequence) q.active v.sorted_active,
      λ _. ground arith,
      λ a out. ground (arith, out timer.sequence),
      λ away. ground arith,
    )

-- Erasing what is not there changes no membership.
absent :
    (id other : Pair) (ys : List Pair)
    → member id ys ≡ false
    → member other ys ≡ (not (eq_pair other id) && member other ys)
absent (a, s) (b, t) ys away = elim (Bool-cases (eq_pair (b, t) (a, s))) [
  | inl same ↦ let e : b ≡ a = ground arith in let f : t ≡ s = ground arith in rw (same, e, f) away
  | inr other ↦ rw other refl
]

cancel_other : (q : TimerQueue) (id : Pair) → IsValid q → member id q.active ≡ false → Cancels id q
unfolding cancel_in_loop
cancel_other q id v away =
    let size = (==_iff (length q.timers) (length q.active)).1 v.same_size in
    elim (Bool-cases q.calling) [
      | inl calling ↦ (
        record q { canceling = insert id q.canceling },
        rw (size, away, calling, size) refl,
        others-IsValid q (insert id q.canceling) q.calling q.expires_at q.num_created v,
        λ other. absent id other q.active away,
        λ there. ground arith,
        λ a out. refl,
        λ _ _. ground (arith, member-insert id id q.canceling),
      )
      | inr idle ↦ (
        q,
        rw (size, away, idle, size) refl,
        v,
        λ other. absent id other q.active away,
        λ there. ground arith,
        λ a out. refl,
        λ _ calling. ground arith,
      )
    ]

-- On a valid queue cancelInLoop fails no assertion, whatever the TimerId, and leaves a valid
-- queue. Exactly the timer of the TimerId is taken from the active ones, and deleted if it was
-- there; objects that are not active are untouched; and during a pass a timer that was not active
-- is entered in the canceled set.
pub cancel_lem : (id : Pair) (q : TimerQueue) → IsValid q → Cancels id q
cancel_lem (addr, s) q v = elim (Bool-cases (member (addr, s) q.active)) [
  | inl there ↦
      let (timer, e, f, g) = v.active_of addr s there in
      subst (λ k. Cancels (addr, k) q) f (cancel_active q addr timer v e (rw f there))
  | inr away ↦ cancel_other q (addr, s) v away
]
