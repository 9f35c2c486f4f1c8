-- ===== src/LogStream/Hex.antt =====
-- The text that `convertHex` of networker/base/LogStream.cpp makes of an address.
use mathlib.Core.List.{reverse-append}
use network_program_base_fra.Prelude.{
  ℕ, zero, suc, ◌+◌, ◌-◌, ◌*◌, ◌/◌, ◌%◌, ◌^◌, ◌≤◌, ◌<◌, ◌≡◌, refl, ap, ◌∙◌, Bool, true, false,
  Option, none, some, List, [], ◌∷◌, ◌++◌, reverse, length, leb, ◌==◌, ==_iff, if◌then◌else◌,
  get_elem?, arith, inl, inr, Bool-cases, length-reverse,
}
use network_program_base_fra.LogStream.{digits_hex, convert_hex_digits, convert_hex}
use network_program_base_fra.LogStream.Decimal.{checks, checks_at}

-- The value of a character.
abbrev pub hex_value : ℕ → ℕ
hex_value c = if leb c 57 then c - 48 else c - 55

abbrev stands_for : Option ℕ → ℕ → Bool
stands_for none k = false
stands_for (some c) k = hex_value c == k

hex_table : checks 16 (λ k. stands_for (get_elem? digits_hex k) k) ≡ true
unfolding checks
hex_table = refl

stands_for-some :
    (o : Option ℕ) (k : ℕ) → stands_for o k ≡ true → (c : ℕ) × (o ≡ some c) × (hex_value c ≡ k)
stands_for-some none k h = cc
stands_for-some (some c) k h = (c, refl, (==_iff (hex_value c) k).0 h)

hex_digit : (k : ℕ) → k < 16 → (c : ℕ) × (get_elem? digits_hex k ≡ some c) × (hex_value c ≡ k)
hex_digit k h =
    stands_for-some (get_elem? digits_hex k) k
      (checks_at 16 (λ j. stands_for (get_elem? digits_hex j) j) k hex_table h)

unfoldable pub read_hex : List ℕ → ℕ → ℕ
read_hex [] n = n
read_hex (c ∷ cs) n = read_hex cs (n * 16 + hex_value c)

unfoldable pub backwards : List ℕ → ℕ
backwards [] = 0
backwards (c ∷ cs) = hex_value c + 16 * backwards cs

read_hex-append : (xs ys : List ℕ) (n : ℕ) → read_hex (xs ++ ys) n ≡ read_hex ys (read_hex xs n)
unfolding read_hex
read_hex-append [] ys n = refl
read_hex-append (x ∷ xs) ys n = read_hex-append xs ys (n * 16 + hex_value x)

read_hex-reverse : (cs : List ℕ) → read_hex (reverse cs) 0 ≡ backwards cs
unfolding read_hex backwards
read_hex-reverse [] = refl
read_hex-reverse (c ∷ cs) =
    ap (λ xs. read_hex xs 0) (reverse-append (c ∷ []) cs)
    ∙ read_hex-append (reverse cs) (c ∷ []) 0
    ∙ ap (λ n. n * 16 + hex_value c) (read_hex-reverse cs)
    ∙ omega arith

step_last :
    (fuel i c : ℕ)
    → get_elem? digits_hex (i % 16) ≡ some c
    → (i / 16 == 0) ≡ true
    → convert_hex_digits (suc fuel) i ≡ some (c ∷ [])
unfolding convert_hex_digits
step_last fuel i c e last = rw (e, last) refl

step_more :
    (fuel i c : ℕ) (cs : List ℕ)
    → get_elem? digits_hex (i % 16) ≡ some c
    → (i / 16 == 0) ≡ false
    → convert_hex_digits fuel (i / 16) ≡ some cs
    → convert_hex_digits (suc fuel) i ≡ some (c ∷ cs)
unfolding convert_hex_digits
step_more fuel i c cs e more f = rw (e, more, f) refl

one_digit :
    (fuel i : ℕ)
    → (i / 16 == 0) ≡ true
    → (cs : List ℕ) × (convert_hex_digits (suc fuel) i ≡ some cs)
      × (backwards cs ≡ i)
      × (length cs ≤ suc fuel)
unfolding backwards
one_digit fuel i last =
    let (c, e, v) = hex_digit (i % 16) (omega arith) in
    let z : i / 16 ≡ 0 = (==_iff (i / 16) 0).0 last in
    (c ∷ [], step_last fuel i c e last, omega (arith, v, z), omega arith)

digits_lem :
    (fuel i : ℕ)
    → i < 16 ^ suc fuel
    → (cs : List ℕ) × (convert_hex_digits (suc fuel) i ≡ some cs)
      × (backwards cs ≡ i)
      × (length cs ≤ suc fuel)
unfolding backwards
digits_lem zero i h = one_digit 0 i ((==_iff (i / 16) 0).1 (omega arith))
digits_lem (suc fuel) i h = elim (Bool-cases (i / 16 == 0)) [
  | inl last ↦ one_digit (suc fuel) i last
  | inr more ↦
      let (c, e, v) = hex_digit (i % 16) (omega arith) in
      let (cs, f, w, l) = digits_lem fuel (i / 16) (omega arith) in
      (c ∷ cs, step_more (suc fuel) i c cs e more f, omega (arith, v, w), omega (arith, l))
]

-- convertHex ends within its rounds for every 64-bit address: its text is at most 16 characters
-- long, and read as a hexadecimal number it is the address.
pub read-convert_hex :
    (p : ℕ)
    → p < 2 ^ 64
    → (text : List ℕ) × (convert_hex p ≡ some text) × (read_hex text 0 ≡ p) × (length text ≤ 16)
unfolding convert_hex
read-convert_hex p h =
    let (cs, e, w, l) = digits_lem 15 p (omega arith) in
    (reverse cs, rw e refl, read_hex-reverse cs ∙ w, omega (arith, length-reverse cs, l))
