-- ===== src/TimerQueue/Expiry.antt =====
-- `getExpired` of networker/net/TimerQueue.cpp takes out exactly the timers that are due.
use network_program_base_fra.Prelude.{
  ℕ, ◌≡◌, ◌≢◌, ◌≤◌, ◌<◌, refl, sym, ap, ◌∙◌, subst, inl, inr, true, false, some, List, [], ◌∷◌,
  ◌++◌, arith, length, ==_iff, Bool-cases, some_inj,
}
use network_program_base_fra.TimerQueue.{
  Timer, TimerQueue, before, from, max_address, starts_after, erase_active, get_expired,
}
use network_program_base_fra.TimerQueue.PairSet.{
  Pair, lt_pair, member, erase, IsSorted, Above, member-erase,
}
use network_program_base_fra.TimerQueue.Valid.{IsValid}
use network_program_base_fra.TimerQueue.Cancel.{IsDetached, dropped-IsValid, dropped-IsDetached}

abbrev pub with_sets : TimerQueue → List Pair → List Pair → TimerQueue
with_sets q timers active = record q { timers = timers; active = active }

-- The address is that of none of the entries.
abbrev pub Apart : ℕ → List Pair → Type 0
Apart addr [] = Unit {0}
Apart addr ((t, a) ∷ es) = (addr ≢ a) × Apart addr es

-- Timers that were taken out of both sets and wait in the store to be run or deleted.
abbrev pub Pending : List Pair → TimerQueue → Type 0
Pending [] q = Unit {0}
Pending ((t, addr) ∷ es) q =
    ((timer : Timer) × (q.store addr ≡ some timer) × (timer.expiration ≡ t))
    × IsDetached addr q
    × Apart addr es
    × Pending es q

abbrev pub Due : ℕ → List Pair → Type 0
Due now [] = Unit {0}
Due now ((t, addr) ∷ es) = (t ≤ now) × Due now es

abbrev pub Later : ℕ → List Pair → Type 0
Later now [] = Unit {0}
Later now ((t, addr) ∷ es) = (now < t) × Later now es

-- No object lies at the last address.
abbrev pub AddressesFit : List Pair → Type 0
AddressesFit [] = Unit {0}
AddressesFit ((t, addr) ∷ es) = (addr < max_address) × AddressesFit es

before-append-from : (s : Pair) (es : List Pair) → before s es ++ from s es ≡ es
before-append-from s [] = refl
before-append-from s (e ∷ es) = elim (Bool-cases (lt_pair e s)) [
  | inl due ↦ rw due (ap (◌∷◌ e) (before-append-from s es))
  | inr later ↦ rw later refl
]

before-Due : (now : ℕ) (es : List Pair) → Due now (before (now, max_address) es)
before-Due now [] = tt
before-Due now ((t, a) ∷ es) = ground (arith, before-Due now es)

Above-Later : (now t a : ℕ) (es : List Pair) → now < t → Above (t, a) es → Later now es
Above-Later now t a [] h s = tt
Above-Later now t a ((u, b) ∷ es) h s = (ground arith, Above-Later now t a es h s.1)

from-Later :
    (now : ℕ) (es : List Pair)
    → IsSorted es
    → AddressesFit es
    → Later now (from (now, max_address) es)
from-Later now [] s f = tt
from-Later now ((t, a) ∷ es) s f = ground (arith, from-Later now es s.1 f.1, Above-Later now t a es)

erase-head : (x : Pair) (xs : List Pair) → erase x (x ∷ xs) ≡ xs
unfolding erase
erase-head (a, b) xs = ground arith

pub member-head : (x : Pair) (xs : List Pair) → member x (x ∷ xs) ≡ true
unfolding member
member-head (a, b) xs = ground arith

erase-Away :
    (addr : ℕ) (y : Pair) (ys : List Pair)
    → IsSorted ys
    → ((s : ℕ) → member (addr, s) ys ≡ false)
    → (s : ℕ) → member (addr, s) (erase y ys) ≡ false
erase-Away addr y ys o away s = ground (arith, member-erase (addr, s) y ys o, away s)

one_time :
    (q : TimerQueue) (addr : ℕ) (timer : Timer)
    → IsValid q
    → q.store addr ≡ some timer
    → (u a : ℕ) → member (u, a) q.timers ≡ true
    → a ≡ addr
    → u ≡ timer.expiration
one_time q addr timer v e u a m same =
    let (other, f, g, h) = v.timer_of u a m in
    let one : other ≡ timer = some_inj (sym f ∙ ap q.store same ∙ e) in
    sym g ∙ ap (λ (x : Timer). x.expiration) one

-- A timer stands in the list of timers once only.
head-Apart :
    (q : TimerQueue) (t addr : ℕ) (es rest : List Pair)
    → ((u a : ℕ) → member (u, a) (es ++ rest) ≡ true → a ≡ addr → u ≡ t)
    → Above (t, addr) (es ++ rest)
    → Apart addr es
unfolding member
head-Apart q t addr [] rest same up = tt
head-Apart q t addr ((u, a) ∷ es) rest same up = (
  λ e. let at : u ≡ t = same u a (member-head (u, a) (es ++ rest)) (sym e) in ground arith,
  head-Apart q t addr es rest (λ u' a' h. same u' a' (ground arith)) up.1,
)

-- What the loop of `getExpired` leaves of the active timers.
record Erased (expired rest : List Pair) (q : TimerQueue) (before after : List Pair) : Type 0 where
  returns : erase_active expired (with_sets q rest before) ≡ some (with_sets q rest after)
  valid : IsValid (with_sets q rest after)
  pending : Pending expired (with_sets q rest after)
  away :
      (addr : ℕ)
      → ((s : ℕ) → member (addr, s) before ≡ false)
      → (s : ℕ) → member (addr, s) after ≡ false

erase_active_lem :
    (expired rest : List Pair) (q : TimerQueue) (active : List Pair)
    → IsValid (with_sets q (expired ++ rest) active)
    → (after : List Pair) × Erased expired rest q active after
unfolding erase_active
erase_active_lem [] rest q active v =
    (active, record { returns = refl; valid = v; pending = tt; away = λ addr h. h })
erase_active_lem ((t, addr) ∷ es) rest q active v =
    let whole : TimerQueue = with_sets q ((t, addr) ∷ (es ++ rest)) active in
    let (timer, e, at, there) = v.timer_of t addr (member-head (t, addr) (es ++ rest)) in
    let gone : erase (timer.expiration, addr) ((t, addr) ∷ (es ++ rest)) ≡ es ++ rest =
      rw at (erase-head (t, addr) (es ++ rest)) in
    let less : List Pair = erase (addr, timer.sequence) active in
    let w : IsValid (with_sets q (es ++ rest) less) =
      subst (λ ts. IsValid (with_sets q ts less)) gone
        (dropped-IsValid whole addr timer v e there) in
    let out = dropped-IsDetached whole addr timer v e there in
    let (after, h) = erase_active_lem es rest q less w in
    (
      after,
      record {
        returns = rw (e, there) h.returns;
        valid = h.valid;
        pending = (
          (timer, e, at),
          h.away addr out,
          head-Apart q t addr es rest
              (λ u a m same.
                one_time (with_sets q (es ++ rest) less) addr timer w e u a m same ∙ at)
              v.sorted_timers.0,
          h.pending,
        );
        away = λ a z. h.away a (erase-Away a (addr, timer.sequence) active v.sorted_active z);
      },
    )

starts_after-Later : (now : ℕ) (es : List Pair) → Later now es → starts_after now es ≡ true
starts_after-Later now [] h = refl
starts_after-Later now ((t, a) ∷ es) h = ground arith

-- On a valid queue with no timer at the last address getExpired fails no assertion. It splits the
-- list of timers in two: those up to now, which it returns in their order, and those after now,
-- which stay. The queue is valid afterwards, and the timers returned are in the store, at
-- different addresses and not active.
pub get_expired_lem :
    (now : ℕ) (q : TimerQueue)
    → IsValid q
    → AddressesFit q.timers
    → (expired rest after : List Pair) × (get_expired now q
        ≡ some (expired, with_sets q rest after))
      × (q.timers ≡ expired ++ rest)
      × Due now expired
      × Later now rest
      × IsValid (with_sets q rest after)
      × Pending expired (with_sets q rest after)
unfolding get_expired
get_expired_lem now q v fit =
    let sentry : Pair = (now, max_address) in
    let expired : List Pair = before sentry q.timers in
    let rest : List Pair = from sentry q.timers in
    let later : Later now rest = from-Later now q.timers v.sorted_timers fit in
    let parts : expired ++ rest ≡ q.timers = before-append-from sentry q.timers in
    let (after, h) =
      erase_active_lem expired rest q q.active
        (subst (λ ts. IsValid (with_sets q ts q.active)) (sym parts) v) in
    (
      expired,
      rest,
      after,
      rw
          (
            (==_iff (length q.timers) (length q.active)).1 v.same_size,
            starts_after-Later now rest later,
            h.returns,
            (==_iff (length rest) (length after)).1 h.valid.same_size,
          )
          refl,
      sym parts,
      before-Due now q.timers,
      later,
      h.valid,
      h.pending,
    )
