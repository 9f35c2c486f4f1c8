-- ===== src/TimerQueue/PairSet.antt =====
-- `std::set` of pairs, as the sorted list of its elements: `TimerList` and `ActiveTimerSet` of
-- networker/net/TimerQueue.h. A pair is compared by its first component, then by its second.
use network_program_base_fra.Prelude.{
  ℕ, suc, ◌≡◌, refl, Bool, true, false, ◌&&◌, ◌||◌, List, [], ◌∷◌, arith, length, ltb, ◌==◌,
  if◌then◌else◌, not,
}

abbrev pub Pair : Type 0
Pair = ℕ × ℕ

abbrev pub lt_pair : Pair → Pair → Bool
lt_pair (a, b) (c, d) = ltb a c || ((a == c) && ltb b d)

abbrev pub eq_pair : Pair → Pair → Bool
eq_pair (a, b) (c, d) = (a == c) && (b == d)

-- `find(x) != end()`
unfoldable pub member : Pair → List Pair → Bool
member x [] = false
member x (y ∷ ys) = eq_pair x y || member x ys

unfoldable pub insert : Pair → List Pair → List Pair
insert x [] = x ∷ []
insert x (y ∷ ys) =
    let rest = insert x ys in
    if lt_pair x y then x ∷ y ∷ ys else if eq_pair x y then y ∷ ys else y ∷ rest

unfoldable pub erase : Pair → List Pair → List Pair
erase x [] = []
erase x (y ∷ ys) = if eq_pair x y then ys else y ∷ erase x ys

-- Every element comes after `x`.
abbrev pub Above : Pair → List Pair → Type 0
Above x [] = Unit {0}
Above x (y ∷ ys) = (lt_pair x y ≡ true) × Above x ys

abbrev pub IsSorted : List Pair → Type 0
IsSorted [] = Unit {0}
IsSorted (x ∷ xs) = Above x xs × IsSorted xs

pub lt_pair_trans : (x y z : Pair) → lt_pair x y ≡ true → lt_pair y z ≡ true → lt_pair x z ≡ true
lt_pair_trans (a, b) (c, d) (e, f) h k = ground arith

pub Above-trans : (x y : Pair) (ys : List Pair) → lt_pair x y ≡ true → Above y ys → Above x ys
Above-trans x y [] h a = tt
Above-trans x y (z ∷ ys) h a = (lt_pair_trans x y z h a.0, Above-trans x y ys h a.1)

pub member-Above :
    (x y : Pair) (ys : List Pair) → Above x ys → member y ys ≡ true → lt_pair x y ≡ true
unfolding member
member-Above x y [] a h = cc
member-Above (x, x') (y, y') ((z, z') ∷ ys) a h =
    ground (arith, member-Above (x, x') (y, y') ys a.1)

pub member-insert :
    (x y : Pair) (ys : List Pair) → member x (insert y ys) ≡ (eq_pair x y || member x ys)
unfolding member insert
member-insert x y [] = refl
member-insert (x, x') (y, y') ((z, z') ∷ ys) = ground (arith, member-insert (x, x') (y, y') ys)

Above-insert :
    (x y : Pair) (ys : List Pair) → lt_pair x y ≡ true → Above x ys → Above x (insert y ys)
unfolding insert
Above-insert x y [] h a = (h, tt)
Above-insert x y (z ∷ ys) h a = ground (arith, Above-insert x y ys h a.1)

pub insert-IsSorted : (y : Pair) (ys : List Pair) → IsSorted ys → IsSorted (insert y ys)
unfolding insert
insert-IsSorted y [] s = (tt, tt)
insert-IsSorted (y, y') ((z, z') ∷ ys) s = ground (
  arith,
  insert-IsSorted (y, y') ys s.1,
  Above-insert (z, z') (y, y') ys,
  Above-trans (y, y') (z, z') ys,
)

pub length-insert :
    (x : Pair) (ys : List Pair) → member x ys ≡ false → length (insert x ys) ≡ suc (length ys)
unfolding member insert
length-insert x [] h = refl
length-insert (x, x') ((y, y') ∷ ys) h = ground (arith, length-insert (x, x') ys)

Above-erase : (x y : Pair) (ys : List Pair) → Above x ys → Above x (erase y ys)
unfolding erase
Above-erase x y [] a = tt
Above-erase x y (z ∷ ys) a = ground (arith, Above-erase x y ys a.1)

pub erase-IsSorted : (x : Pair) (ys : List Pair) → IsSorted ys → IsSorted (erase x ys)
unfolding erase
erase-IsSorted x [] s = tt
erase-IsSorted x (y ∷ ys) s = ground (arith, erase-IsSorted x ys s.1, Above-erase y x ys s.0)

-- An element does not occur among those that come after it.
pub Above-fresh : (x : Pair) (ys : List Pair) → Above x ys → member x ys ≡ false
unfolding member
Above-fresh x [] a = refl
Above-fresh (x, x') ((y, y') ∷ ys) a = ground (arith, Above-fresh (x, x') ys a.1)

pub member-erase :
    (x y : Pair) (ys : List Pair)
    → IsSorted ys
    → member x (erase y ys) ≡ (not (eq_pair x y) && member x ys)
unfolding member erase
member-erase (x, x') (y, y') [] s = ground arith
member-erase (x, x') (y, y') ((z, z') ∷ ys) s =
    ground (arith, member-erase (x, x') (y, y') ys s.1, Above-fresh (z, z') ys s.0)

pub length-erase :
    (x : Pair) (ys : List Pair) → member x ys ≡ true → suc (length (erase x ys)) ≡ length ys
unfolding member erase
length-erase x [] h = cc
length-erase (x, x') ((y, y') ∷ ys) h = ground (arith, length-erase (x, x') ys)
