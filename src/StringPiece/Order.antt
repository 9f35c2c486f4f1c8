-- ===== src/StringPiece/Order.antt =====
-- The comparisons of networker/base/StringPiece.h and the order of strings.
use network_program_base_fra.Prelude.{
  ℕ, zero, suc, ◌≤◌, ◌≡◌, ◌⊎◌, inl, inr, refl, sym, ap, ◌∙◌, subst, true, false, not, ◌&&◌, ◌||◌,
  some, List, [], ◌∷◌, length, take, leb, ltb, lt→ltb, ◌==◌, Bool-cases, if◌then◌else◌, arith,
}
use network_program_base_fra.Prelude.Int.{ℤ, pos, negsuc}
use network_program_base_fra.StringPiece.{
  StringPiece, sign, memcmp, is_zero, is_below, is_above, shorter, equal, less, less_or_equal,
  greater_or_equal, greater, by_size, compare, as_string,
}

-- The order of strings: the first bytes that differ decide, and a proper prefix comes first.
unfoldable pub order : List ℕ → List ℕ → ℤ
order [] [] = pos 0
order [] (d ∷ ds) = negsuc 0
order (c ∷ cs) [] = pos 1
order (c ∷ cs) (d ∷ ds) = if c == d then order cs ds else sign c d

abbrev pub IsValid : StringPiece → Type 0
IsValid p = p.size ≤ length p.memory

abbrev settle : ℕ → ℕ → ℤ → ℤ
settle m n r = if is_zero r then by_size m n else r

settle-sign : (m n c d : ℕ) → settle m n (sign c d) ≡ sign c d
settle-sign m n c d = elim (Bool-cases (ltb c d)) [ inl e ↦ rw e refl | inr e ↦ rw e refl ]

ltb-suc : (m n : ℕ) → ltb (suc m) (suc n) ≡ ltb m n
ltb-suc m n = ground arith

ltb-false : (m n : ℕ) → n ≤ m → ltb m n ≡ false
ltb-false m n h = ground arith

by_size_suc : (m n : ℕ) (r : ℤ) → settle (suc m) (suc n) r ≡ settle m n r
by_size_suc m n r = rw (ltb-suc m n, ltb-suc n m) refl

-- `memcmp` of as many bytes as the shorter string has, with the lengths, gives the order.
memcmp_lem :
    (k m n : ℕ) (cs ds : List ℕ)
    → k ≤ m
    → k ≤ n
    → (k ≡ m) ⊎ (k ≡ n)
    → m ≤ length cs
    → n ≤ length ds
    → (r : ℤ) × (memcmp k cs ds ≡ some r) × (order (take m cs) (take n ds) ≡ settle m n r)
unfolding memcmp order
memcmp_lem zero zero zero cs ds a b e h j = (pos 0, refl, refl)
memcmp_lem zero zero (suc n) cs [] a b e h j = absurd (omega arith)
memcmp_lem zero zero (suc n) cs (d ∷ ds) a b e h j =
    (pos 0, refl, rw (lt→ltb 0 (suc n) (omega arith)) refl)
memcmp_lem zero (suc m) zero [] ds a b e h j = absurd (omega arith)
memcmp_lem zero (suc m) zero (c ∷ cs) ds a b e h j =
    (pos 0, refl, rw (ltb-false (suc m) 0 (omega arith), lt→ltb 0 (suc m) (omega arith)) refl)
memcmp_lem zero (suc m) (suc n) cs ds a b e h j = absurd (ground arith)
memcmp_lem (suc k) zero n cs ds a b e h j = absurd (omega arith)
memcmp_lem (suc k) (suc m) zero cs ds a b e h j = absurd (omega arith)
memcmp_lem (suc k) (suc m) (suc n) [] ds a b e h j = absurd (omega arith)
memcmp_lem (suc k) (suc m) (suc n) (c ∷ cs) [] a b e h j = absurd (omega arith)
memcmp_lem (suc k) (suc m) (suc n) (c ∷ cs) (d ∷ ds) a b e h j = elim (Bool-cases (c == d)) [
  | inl f ↦
      let (r, g, o) =
        memcmp_lem k m n cs ds (omega arith) (omega arith) (ground arith) (omega arith)
          (omega arith) in
      (r, rw f g, rw f (o ∙ sym (by_size_suc m n r)))
  | inr f ↦ (sign c d, rw f refl, rw f (sym (settle-sign (suc m) (suc n) c d)))
]

shorter_lem :
    (p q : StringPiece)
    → IsValid p
    → IsValid q
    → (r : ℤ) × (memcmp (shorter p q) p.memory q.memory ≡ some r)
      × (order (as_string p) (as_string q) ≡ settle p.size q.size r)
unfolding as_string
shorter_lem p q v w =
    memcmp_lem (shorter p q) p.size q.size p.memory q.memory (ground arith) (ground arith)
      (ground arith) v w

-- The six comparisons, as the order of the two strings has them.
abbrev pub Compares : StringPiece → StringPiece → ℤ → Type 0
Compares p q o =
    (compare p q ≡ some o)
    × (less p q ≡ some (is_below o))
    × (less_or_equal p q ≡ some (not (is_above o)))
    × (greater_or_equal p q ≡ some (not (is_below o)))
    × (greater p q ≡ some (is_above o))
    × (equal p q ≡ some (is_zero o))

-- What each predicate tests is what it says of the result.
tests_lem :
    (m n : ℕ) (r : ℤ)
    → ((is_below r || is_zero r && ltb m n) ≡ is_below (settle m n r))
      × ((is_below r || is_zero r && leb m n) ≡ not (is_above (settle m n r)))
      × ((is_above r || is_zero r && leb n m) ≡ not (is_below (settle m n r)))
      × ((is_above r || is_zero r && ltb n m) ≡ is_above (settle m n r))
tests_lem m n (pos zero) = (ground arith, ground arith, ground arith, ground arith)
tests_lem m n (pos (suc k)) = (refl, refl, refl, refl)
tests_lem m n (negsuc k) = (refl, refl, refl, refl)

equal_sizes : (m n : ℕ) (r : ℤ) → (m == n) ≡ true → settle m n r ≡ r
equal_sizes m n (pos zero) e = rw (ltb-false m n (ground arith), ltb-false n m (ground arith)) refl
equal_sizes m n (pos (suc k)) e = refl
equal_sizes m n (negsuc k) e = refl

other_sizes : (m n : ℕ) (r : ℤ) → (m == n) ≡ false → is_zero (settle m n r) ≡ false
other_sizes m n (pos zero) e = ground arith
other_sizes m n (pos (suc k)) e = refl
other_sizes m n (negsuc k) e = refl

shorter_equal : (p q : StringPiece) → (p.size == q.size) ≡ true → shorter p q ≡ p.size
shorter_equal p q e = ground arith

compares :
    (p q : StringPiece) (r : ℤ)
    → memcmp (shorter p q) p.memory q.memory ≡ some r
    → Compares p q (settle p.size q.size r)
unfolding compare less less_or_equal greater_or_equal greater equal
compares p q r e =
    let (b, le, ge, a) = tests_lem p.size q.size r in
    (
      rw e refl,
      rw e (ap some b),
      rw e (ap some le),
      rw e (ap some ge),
      rw e (ap some a),
      elim (Bool-cases (p.size == q.size)) [
        | inl h ↦
            let f : memcmp p.size p.memory q.memory ≡ some r =
              ap (λ k. memcmp k p.memory q.memory) (sym (shorter_equal p q h)) ∙ e in
            rw (h, f) (ap (λ o. some (is_zero o)) (sym (equal_sizes p.size q.size r h)))
        | inr h ↦ rw h (ap some (sym (other_sizes p.size q.size r h)))
      ],
    )

-- For pieces that lie within their memory, compare gives the order of the two strings, and each of
-- the operators <, <=, >=, > and == is true in the cases of that order that its name says.
pub compare_lem :
    (p q : StringPiece) → IsValid p → IsValid q → Compares p q (order (as_string p) (as_string q))
compare_lem p q v w =
    let (r, e, o) = shorter_lem p q v w in subst (Compares p q) (sym o) (compares p q r e)
