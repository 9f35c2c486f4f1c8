-- ===== src/TimeZone/Search.antt =====
-- `findLocaltime` of networker/base/TimeZone.cpp finds the last transition that is not later.
use network_program_base_fra.Prelude.{
  ◌≡◌, refl, sym, ◌∙◌, Bool, true, false, Option, none, some, List, [], ◌∷◌, if◌then◌else◌, arith,
  get_elem?, inl, inr, Bool-cases,
}
use network_program_base_fra.Prelude.Int.{ℤ}
use network_program_base_fra.TimeZone.{
  Transition, Localtime, Data, key, earlier, same, before, from, back, at_bound, in_force,
  find_localtime,
}

module _ (k : Transition → ℤ) (s : ℤ) where
  -- The times of the transitions increase.
  abbrev pub Increases : List Transition → Type 0
  Increases [] = Unit {0}
  Increases (t ∷ []) = Unit {0}
  Increases (t ∷ u ∷ ts) = (earlier (k t) (k u) ≡ true) × Increases (u ∷ ts)

  later : (t : Transition) (ts : List Transition) → Increases (t ∷ ts) → Increases ts
  later t [] up = tt
  later t (u ∷ ts) up = up.1

  -- The last transition that is not after the time, seen after `prev`.
  unfoldable pub latest : Option Transition → List Transition → Option Transition
  latest prev [] = prev
  latest prev (t ∷ ts) = if earlier s (k t) then latest prev ts else latest (some t) ts

  latest-after :
      (prev : Option Transition) (t : Transition) (ts : List Transition)
      → Increases (t ∷ ts)
      → (earlier s (k t) ≡ true)
      → latest prev ts ≡ prev
  unfolding latest
  latest-after prev t [] up h = refl
  latest-after prev t (u ∷ ts) up h =
      let e : earlier s (k u) ≡ true = ground (arith, up.0) in rw e (latest-after prev u ts up.1 e)

  latest-at :
      (t : Transition) (ts : List Transition)
      → Increases (t ∷ ts)
      → earlier (k t) s ≡ false
      → earlier s (k t) ≡ false
      → latest (some t) ts ≡ some t
  unfolding latest
  latest-at t [] up h g = refl
  latest-at t (u ∷ ts) up h g =
      let e : earlier s (k u) ≡ true = ground (arith, up.0) in
      rw e (latest-after (some t) u ts up.1 e)

  latest-some :
      (t : Transition) (ts : List Transition) → (x : Transition) × (latest (some t) ts ≡ some x)
  unfolding latest
  latest-some t [] = (t, refl)
  latest-some t (u ∷ ts) = elim (Bool-cases (earlier s (k u))) [
    | inl e ↦ rw e (latest-some t ts)
    | inr e ↦ rw e (latest-some u ts)
  ]

  shift :
      (p t : Transition) (ts bs fs : List Transition)
      → at_bound k s (p ∷ t ∷ ts) (p ∷ t ∷ bs) fs ≡ at_bound k s (t ∷ ts) (t ∷ bs) fs
  unfolding back
  shift p t ts bs [] = refl
  shift p t ts bs (f ∷ fs) = refl

  not_later : (t : Transition) → earlier (k t) s ≡ true → earlier s (k t) ≡ false
  not_later t e = ground arith

  -- The code's choice, with the transition before the list.
  bound_lem :
      (p : Transition) (ts : List Transition)
      → Increases ts
      → at_bound k s (p ∷ ts) (p ∷ before k s ts) (from k s ts) ≡ latest (some p) ts
  unfolding latest before from back
  bound_lem p [] up = refl
  bound_lem p (t ∷ ts) up = elim (Bool-cases (earlier (k t) s)) [
    | inl e ↦
        rw (e, not_later t e)
          (shift p t ts (before k s ts) (from k s ts) ∙ bound_lem t ts (later t ts up))
    | inr e ↦ elim (Bool-cases (same s (k t))) [
      | inl g ↦
          let h : earlier s (k t) ≡ false = ground arith in
          rw (e, g, h) (sym (latest-at t ts up e h))
      | inr g ↦
          let h : earlier s (k t) ≡ true = ground arith in
          rw (e, g, h) (sym (latest-after (some p) t ts up h))
    ]
  ]

  -- The local time that belongs to it: the first one if there is none.
  abbrev pub chosen : Option Transition → List Localtime → Option Localtime
  chosen none localtimes = get_elem? localtimes 0
  chosen (some t) localtimes = get_elem? localtimes t.localtime_idx

  in_force_lem :
      (ts : List Transition) (localtimes : List Localtime)
      → Increases ts
      → in_force k s ts localtimes ≡ chosen (latest none ts) localtimes
  unfolding latest before from
  in_force_lem [] localtimes up = refl
  in_force_lem (t ∷ ts) localtimes up = elim (Bool-cases (earlier s (k t))) [
    | inl g ↦ rw (g, latest-after none t ts up g) refl
    | inr g ↦ elim (Bool-cases (earlier (k t) s)) [
      | inl e ↦ let (x, f) = latest-some t ts in rw (g, e, bound_lem t ts (later t ts up), f) refl
      | inr e ↦
          let h : same s (k t) ≡ true = ground arith in rw (g, e, h, latest-at t ts up e g) refl
    ]
  ]

-- For transitions whose times increase, findLocaltime gives the local time of the last one that is
-- not after the sought time, and the first local time if all are after it or there is none.
pub find_localtime_lem :
    (data_ : Data) (sentry : ℤ) (compare_gmt : Bool)
    → Increases (key compare_gmt) sentry data_.transitions
    → find_localtime data_ sentry compare_gmt
      ≡ chosen
          (key compare_gmt)
          sentry
          (latest (key compare_gmt) sentry none data_.transitions)
          data_.localtimes
unfolding find_localtime
find_localtime_lem data_ sentry compare_gmt up =
    in_force_lem (key compare_gmt) sentry data_.transitions data_.localtimes up
