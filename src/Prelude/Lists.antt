-- ===== src/Prelude/Lists.antt =====
-- Lists measured and indexed by native numbers, under the library's names, and the two moves of
-- memory that the program makes: `slice` reads a range and `write_at` overwrites one.
use Prim.Native.Nat.{ℕ, zero, suc, ◌+◌, ◌-◌, ◌≤◌, min}
use mathlib.Core.Path.{◌≡◌, refl, ap}
use mathlib.Core.List.{List, [], ◌∷◌, ◌++◌, reverse, reverse-cons}
use mathlib.Core.Option.{Option, none, some}
use native.Mathlib.Omega.{arith}

module _ {ℓ} {A : Type ℓ} where
  abbrev pub length : List A → ℕ
  length [] = 0
  length (x ∷ xs) = suc (length xs)

  abbrev pub get_elem? : List A → ℕ → Option A
  get_elem? [] i = none
  get_elem? (x ∷ xs) zero = some x
  get_elem? (x ∷ xs) (suc i) = get_elem? xs i

  abbrev pub take : ℕ → List A → List A
  take zero xs = []
  take (suc n) [] = []
  take (suc n) (x ∷ xs) = x ∷ take n xs

  abbrev pub drop : ℕ → List A → List A
  drop zero xs = xs
  drop (suc n) [] = []
  drop (suc n) (x ∷ xs) = drop n xs

  abbrev pub replicate : ℕ → A → List A
  replicate zero a = []
  replicate (suc n) a = a ∷ replicate n a

  -- A write out of bounds changes nothing.
  abbrev pub set : List A → ℕ → A → List A
  set [] i v = []
  set (x ∷ xs) zero v = v ∷ xs
  set (x ∷ xs) (suc i) v = x ∷ set xs i v

  -- `std::copy` of `ys` to index `i` on; what would fall out of range is not written.
  abbrev pub overwrite : List A → List A → List A
  overwrite [] ys = []
  overwrite (x ∷ xs) [] = x ∷ xs
  overwrite (x ∷ xs) (y ∷ ys) = y ∷ overwrite xs ys

  abbrev pub write_at : List A → ℕ → List A → List A
  write_at xs zero ys = overwrite xs ys
  write_at [] (suc i) ys = []
  write_at (x ∷ xs) (suc i) ys = x ∷ write_at xs i ys

  -- The `n` elements from index `i` on.
  abbrev pub slice : List A → ℕ → ℕ → List A
  slice xs i n = take n (drop i xs)

  -- `std::vector::resize`.
  abbrev pub resize : List A → ℕ → A → List A
  resize xs n a = take n xs ++ replicate (n - length xs) a

module _ {ℓ} {A : Type ℓ} where
  pub length-append : (xs ys : List A) → length (xs ++ ys) ≡ length xs + length ys
  length-append [] ys = omega arith
  length-append (x ∷ xs) ys = omega (arith, length-append xs ys)

  pub length-reverse : (xs : List A) → length (reverse xs) ≡ length xs
  length-reverse [] = refl
  length-reverse (x ∷ xs) =
      omega (
        arith,
        ap length (reverse-cons x xs),
        length-append (reverse xs) (x ∷ []),
        length-reverse xs,
      )

  pub length-take : (n : ℕ) (xs : List A) → length (take n xs) ≡ min n (length xs)
  length-take zero xs = omega arith
  length-take (suc n) [] = omega arith
  length-take (suc n) (x ∷ xs) = omega (arith, length-take n xs)

  pub length-drop : (n : ℕ) (xs : List A) → length (drop n xs) ≡ length xs - n
  length-drop zero xs = omega arith
  length-drop (suc n) [] = omega arith
  length-drop (suc n) (x ∷ xs) = omega (arith, length-drop n xs)

  pub length-replicate : (n : ℕ) (a : A) → length (replicate n a) ≡ n
  length-replicate zero a = refl
  length-replicate (suc n) a = ap suc (length-replicate n a)

  pub length-set : (xs : List A) (i : ℕ) (v : A) → length (set xs i v) ≡ length xs
  length-set [] i v = refl
  length-set (x ∷ xs) zero v = refl
  length-set (x ∷ xs) (suc i) v = ap suc (length-set xs i v)

  pub length-overwrite : (xs ys : List A) → length (overwrite xs ys) ≡ length xs
  length-overwrite [] ys = refl
  length-overwrite (x ∷ xs) [] = refl
  length-overwrite (x ∷ xs) (y ∷ ys) = ap suc (length-overwrite xs ys)

  pub length-write_at : (xs : List A) (i : ℕ) (ys : List A) → length (write_at xs i ys) ≡ length xs
  length-write_at xs zero ys = length-overwrite xs ys
  length-write_at [] (suc i) ys = refl
  length-write_at (x ∷ xs) (suc i) ys = ap suc (length-write_at xs i ys)

  pub length-slice : (xs : List A) (i n : ℕ) → i + n ≤ length xs → length (slice xs i n) ≡ n
  length-slice xs i n h = omega (arith, length-take n (drop i xs), length-drop i xs)

  pub length-resize : (xs : List A) (n : ℕ) (a : A) → length (resize xs n a) ≡ n
  length-resize xs n a = omega (
    arith,
    length-append (take n xs) (replicate (n - length xs) a),
    length-take n xs,
    length-replicate (n - length xs) a,
  )

pub take-nil {ℓ} : (A : Type ℓ) (n : ℕ) → take {A = A} n [] ≡ []
take-nil A zero = refl
take-nil A (suc n) = refl

pub drop-nil {ℓ} : (A : Type ℓ) (n : ℕ) → drop {A = A} n [] ≡ []
drop-nil A zero = refl
drop-nil A (suc n) = refl

module _ {ℓ} {A : Type ℓ} where
  pub take-all : (n : ℕ) (xs : List A) → length xs ≤ n → take n xs ≡ xs
  take-all zero [] h = refl
  take-all zero (x ∷ xs) h = absurd (omega arith)
  take-all (suc n) [] h = refl
  take-all (suc n) (x ∷ xs) h = ap (◌∷◌ x) (take-all n xs (omega arith))

  pub drop-all : (n : ℕ) (xs : List A) → length xs ≤ n → drop n xs ≡ []
  drop-all zero [] h = refl
  drop-all zero (x ∷ xs) h = absurd (omega arith)
  drop-all (suc n) [] h = refl
  drop-all (suc n) (x ∷ xs) h = drop-all n xs (omega arith)

  pub take-append_le : (n : ℕ) (xs ys : List A) → n ≤ length xs → take n (xs ++ ys) ≡ take n xs
  take-append_le zero xs ys h = refl
  take-append_le (suc n) [] ys h = absurd (omega arith)
  take-append_le (suc n) (x ∷ xs) ys h = ap (◌∷◌ x) (take-append_le n xs ys (omega arith))

  pub drop-append_le :
      (n : ℕ) (xs ys : List A) → n ≤ length xs → drop n (xs ++ ys) ≡ drop n xs ++ ys
  drop-append_le zero xs ys h = refl
  drop-append_le (suc n) [] ys h = absurd (omega arith)
  drop-append_le (suc n) (x ∷ xs) ys h = drop-append_le n xs ys (omega arith)

  pub drop-take :
      (i n : ℕ) (xs : List A) {m : ℕ} → m ≡ i + n → drop i (take m xs) ≡ take n (drop i xs)
  drop-take zero n xs e = rw e (ap (λ k. take k xs) (omega arith))
  drop-take (suc i) n [] e = rw (take-nil, take-nil)
  drop-take (suc i) n (x ∷ xs) {m = zero} e = absurd (omega arith)
  drop-take (suc i) n (x ∷ xs) {m = suc m} e = drop-take i n xs (omega arith)

  pub drop-drop : (i j : ℕ) (xs : List A) {k : ℕ} → k ≡ i + j → drop j (drop i xs) ≡ drop k xs
  drop-drop zero j xs e = rw e (ap (λ k. drop k xs) (omega arith))
  drop-drop (suc i) j [] e = rw (drop-nil, drop-nil)
  drop-drop (suc i) j (x ∷ xs) {k = zero} e = absurd (omega arith)
  drop-drop (suc i) j (x ∷ xs) {k = suc k} e = drop-drop i j xs (omega arith)

  pub take-append-drop : (n : ℕ) (xs : List A) → take n xs ++ drop n xs ≡ xs
  take-append-drop zero xs = refl
  take-append-drop (suc n) [] = refl
  take-append-drop (suc n) (x ∷ xs) = ap (◌∷◌ x) (take-append-drop n xs)

  pub take-overwrite :
      (xs ys : List A) → length ys ≤ length xs → take (length ys) (overwrite xs ys) ≡ ys
  take-overwrite [] [] h = refl
  take-overwrite [] (y ∷ ys) h = absurd (omega arith)
  take-overwrite (x ∷ xs) [] h = refl
  take-overwrite (x ∷ xs) (y ∷ ys) h = ap (◌∷◌ y) (take-overwrite xs ys (omega arith))

  pub drop-overwrite : (xs ys : List A) → drop (length ys) (overwrite xs ys) ≡ drop (length ys) xs
  drop-overwrite [] [] = refl
  drop-overwrite [] (y ∷ ys) = refl
  drop-overwrite (x ∷ xs) [] = refl
  drop-overwrite (x ∷ xs) (y ∷ ys) = drop-overwrite xs ys

  pub take-write_at :
      (xs ys : List A) (w : ℕ) {k : ℕ}
      → k ≡ w + length ys
      → k ≤ length xs
      → take k (write_at xs w ys) ≡ take w xs ++ ys
  take-write_at xs ys zero {k} e h =
      let e' : k ≡ length ys = omega arith in rw e' (take-overwrite xs ys (omega arith))
  take-write_at [] ys (suc w) e h = absurd (omega arith)
  take-write_at (x ∷ xs) ys (suc w) {k = zero} e h = absurd (omega arith)
  take-write_at (x ∷ xs) ys (suc w) {k = suc k} e h =
      ap (◌∷◌ x) (take-write_at xs ys w (omega arith) (omega arith))

  -- Writing just past a range extends it.
  pub slice-write_at_end :
      (xs ys : List A) (r w n : ℕ) {k : ℕ}
      → w ≡ r + n
      → k ≡ n + length ys
      → w + length ys ≤ length xs
      → slice (write_at xs w ys) r k ≡ slice xs r n ++ ys
  slice-write_at_end xs ys zero w n e f h =
      let e' : n ≡ w = omega arith in rw e' (take-write_at xs ys w (omega arith) (omega arith))
  slice-write_at_end xs ys (suc r) zero n e f h = absurd (omega arith)
  slice-write_at_end [] ys (suc r) (suc w) n e f h = absurd (omega arith)
  slice-write_at_end (x ∷ xs) ys (suc r) (suc w) n e f h =
      slice-write_at_end xs ys r w n (omega arith) f (omega arith)

  -- Writing just before a range extends it.
  pub slice-write_at_front :
      (xs ys : List A) (r w n : ℕ) {k : ℕ}
      → r ≡ w + length ys
      → k ≡ length ys + n
      → r + n ≤ length xs
      → slice (write_at xs w ys) w k ≡ ys ++ slice xs r n
  slice-write_at_front [] [] zero zero n e f h = rw (take-nil, take-nil)
  slice-write_at_front [] [] (suc r) zero n e f h = absurd (omega arith)
  slice-write_at_front [] (y ∷ ys) r zero n e f h = absurd (omega arith)
  slice-write_at_front (x ∷ xs) [] zero zero n {k} e f h = let e' : k ≡ n = omega arith in rw e'
  slice-write_at_front (x ∷ xs) [] (suc r) zero n e f h = absurd (omega arith)
  slice-write_at_front (x ∷ xs) (y ∷ ys) zero zero n e f h = absurd (omega arith)
  slice-write_at_front (x ∷ xs) (y ∷ ys) (suc r) zero n {k = zero} e f h = absurd (omega arith)
  slice-write_at_front (x ∷ xs) (y ∷ ys) (suc r) zero n {k = suc k} e f h =
      ap (◌∷◌ y) (slice-write_at_front xs ys r zero n (omega arith) (omega arith) (omega arith))
  slice-write_at_front [] ys r (suc w) n e f h = absurd (omega arith)
  slice-write_at_front (x ∷ xs) ys zero (suc w) n e f h = absurd (omega arith)
  slice-write_at_front (x ∷ xs) ys (suc r) (suc w) n e f h =
      slice-write_at_front xs ys r w n (omega arith) f (omega arith)

  pub slice-append_le :
      (xs ys : List A) (i n : ℕ) → i + n ≤ length xs → slice (xs ++ ys) i n ≡ slice xs i n
  slice-append_le xs ys i n h =
      rw (drop-append_le i xs ys (omega arith))
        (take-append_le n (drop i xs) ys (omega (arith, length-drop i xs)))

  pub slice-resize :
      (xs : List A) (m : ℕ) (a : A) (i n : ℕ)
      → length xs ≤ m
      → i + n ≤ length xs
      → slice (resize xs m a) i n ≡ slice xs i n
  slice-resize xs m a i n h g = rw (take-all m xs h) (slice-append_le xs _ i n g)

  -- The end of a range, and the range without its start.
  pub drop-slice :
      (xs : List A) (i n j l : ℕ) {k : ℕ}
      → k ≡ i + j
      → n ≡ j + l
      → drop j (slice xs i n) ≡ slice xs k l
  drop-slice xs i n j l e f = rw (drop-take j l (drop i xs) f) (ap (take l) (drop-drop i j xs e))

  pub take-take : (i n : ℕ) (xs : List A) → i ≤ n → take i (take n xs) ≡ take i xs
  take-take zero n xs h = refl
  take-take (suc i) zero xs h = absurd (omega arith)
  take-take (suc i) (suc n) [] h = refl
  take-take (suc i) (suc n) (x ∷ xs) h = ap (◌∷◌ x) (take-take i n xs (omega arith))
