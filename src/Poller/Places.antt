-- ===== src/Poller/Places.antt =====
-- The places of an array when one is written and when the end is taken off.
use network_program_base_fra.Prelude.{
  ℕ, zero, suc, ◌<◌, ◌≡◌, refl, false, some, List, [], ◌∷◌, length, get_elem?, set, take, ◌==◌,
  arith,
}

module _ {A : Type 0} where
  pub get_elem?-bound : (xs : List A) (i : ℕ) (x : A) → get_elem? xs i ≡ some x → i < length xs
  get_elem?-bound [] i x e = absurd (ground arith)
  get_elem?-bound (y ∷ xs) zero x e = omega arith
  get_elem?-bound (y ∷ xs) (suc i) x e = omega (arith, get_elem?-bound xs i x e)

  pub get_elem?-set_here :
      (xs : List A) (i : ℕ) (v : A) → i < length xs → get_elem? (set xs i v) i ≡ some v
  get_elem?-set_here [] i v h = absurd (omega arith)
  get_elem?-set_here (x ∷ xs) zero v h = refl
  get_elem?-set_here (x ∷ xs) (suc i) v h = get_elem?-set_here xs i v (omega arith)

  pub get_elem?-set_away :
      (xs : List A) (i j : ℕ) (v : A) → (j == i) ≡ false → get_elem? (set xs i v) j ≡ get_elem? xs j
  get_elem?-set_away [] i j v h = refl
  get_elem?-set_away (x ∷ xs) zero zero v h = absurd (ground arith)
  get_elem?-set_away (x ∷ xs) zero (suc j) v h = refl
  get_elem?-set_away (x ∷ xs) (suc i) zero v h = refl
  get_elem?-set_away (x ∷ xs) (suc i) (suc j) v h = get_elem?-set_away xs i j v (ground arith)

  pub get_elem?-take : (xs : List A) (n j : ℕ) → j < n → get_elem? (take n xs) j ≡ get_elem? xs j
  get_elem?-take xs zero j h = absurd (omega arith)
  get_elem?-take [] (suc n) j h = refl
  get_elem?-take (x ∷ xs) (suc n) zero h = refl
  get_elem?-take (x ∷ xs) (suc n) (suc j) h = get_elem?-take xs n j (omega arith)
