-- ===== src/LogStream/Decimal.antt =====
-- The text that `convert` and `convertHex` of networker/base/LogStream.cpp make of a number reads
-- as that number.
use network_program_base_fra.Prelude.{
  ℕ, zero, suc, ◌+◌, ◌-◌, ◌*◌, ◌/◌, ◌%◌, ◌^◌, ◌≤◌, ◌<◌, ◌≡◌, refl, sym, ap, ◌∙◌, Bool, true, false,
  ◌&&◌, Option, none, some, List, [], ◌∷◌, ◌++◌, reverse, length, leb, ◌==◌, ==_iff, if◌then◌else◌,
  arith, inl, inr, Bool-cases, length-append, length-reverse,
}
use mathlib.Core.List.{reverse-append}
use network_program_base_fra.Prelude.Int.{ℤ, pos, negsuc}
use network_program_base_fra.LogStream.{
  neg, rem10, quot10, zero_at, is_zero, convert_digits, signed, convert,
}

-- A table that is checked entry by entry.
unfoldable pub checks : ℕ → (ℕ → Bool) → Bool
checks zero p = true
checks (suc n) p = p n && checks n p

pub checks_at : (n : ℕ) (p : ℕ → Bool) (k : ℕ) → checks n p ≡ true → k < n → p k ≡ true
unfolding checks
checks_at zero p k h lt = absurd (omega arith)
checks_at (suc n) p k h lt = ground (arith, checks_at n p k)

abbrev holds : Option ℕ → ℕ → Bool
holds none c = false
holds (some d) c = d == c

holds-some : (o : Option ℕ) (c : ℕ) → holds o c ≡ true → o ≡ some c
holds-some none c h = cc
holds-some (some d) c h = ap some ((==_iff d c).0 h)

up_table : checks 10 (λ k. holds (zero_at (pos k)) (48 + k)) ≡ true
unfolding checks
up_table = refl

down_table : checks 10 (λ k. holds (zero_at (neg k)) (48 + k)) ≡ true
unfolding checks
down_table = refl

abbrev pub size_of : ℤ → ℕ
size_of (pos n) = n
size_of (negsuc n) = suc n

zero_at-rem10 : (i : ℤ) → zero_at (rem10 i) ≡ some (48 + size_of i % 10)
zero_at-rem10 (pos n) =
    holds-some (zero_at (pos (n % 10))) (48 + n % 10)
      (checks_at 10 (λ k. holds (zero_at (pos k)) (48 + k)) (n % 10) up_table (omega arith))
zero_at-rem10 (negsuc n) =
    let k : ℕ = (n + 1) % 10 in
    holds-some (zero_at (neg k)) (48 + k)
      (checks_at 10 (λ j. holds (zero_at (neg j)) (48 + j)) k down_table (omega arith))
    ∙ ap (λ m. some (48 + m % 10)) (omega arith)

size_of-neg : (k : ℕ) → size_of (neg k) ≡ k
size_of-neg zero = refl
size_of-neg (suc k) = refl

size_of-quot10 : (i : ℤ) → size_of (quot10 i) ≡ size_of i / 10
size_of-quot10 (pos n) = refl
size_of-quot10 (negsuc n) = size_of-neg ((n + 1) / 10) ∙ omega arith

is_zero_lem : (i : ℤ) → is_zero i ≡ (size_of i == 0)
is_zero_lem (pos n) = refl
is_zero_lem (negsuc n) = ground arith

-- A digit, and the number that digits stand for, the last of them first.
abbrev is_digit : ℕ → Bool
is_digit c = leb 48 c && leb c 57

abbrev pub all_digits : List ℕ → Bool
all_digits [] = true
all_digits (c ∷ cs) = is_digit c && all_digits cs

unfoldable pub backwards : List ℕ → ℕ
backwards [] = 0
backwards (c ∷ cs) = c - 48 + 10 * backwards cs

record Writes (n fuel : ℕ) (cs : List ℕ) : Type 0 where
  pub value : backwards cs ≡ n
  pub short : length cs ≤ fuel
  pub some_digit : 0 < length cs
  pub all : all_digits cs ≡ true

convert_digits-last :
    (fuel : ℕ) (i : ℤ)
    → is_zero (quot10 i) ≡ true
    → convert_digits (suc fuel) i ≡ some ((48 + size_of i % 10) ∷ [])
unfolding convert_digits
convert_digits-last fuel i last = rw (zero_at-rem10 i, last) refl

convert_digits-more :
    (fuel : ℕ) (i : ℤ) (cs : List ℕ)
    → is_zero (quot10 i) ≡ false
    → convert_digits fuel (quot10 i) ≡ some cs
    → convert_digits (suc fuel) i ≡ some ((48 + size_of i % 10) ∷ cs)
unfolding convert_digits
convert_digits-more fuel i cs more e = rw (zero_at-rem10 i, more, e) refl

quot10-zero : (i : ℤ) → is_zero (quot10 i) ≡ true → size_of i / 10 ≡ 0
quot10-zero i last =
    (==_iff (size_of i / 10) 0).0
      (ap (λ n. n == 0) (sym (size_of-quot10 i)) ∙ sym (is_zero_lem (quot10 i)) ∙ last)

-- The last digit.
last_lem :
    (fuel : ℕ) (i : ℤ)
    → is_zero (quot10 i) ≡ true
    → (cs : List ℕ) × (convert_digits (suc fuel) i ≡ some cs) × Writes (size_of i) (suc fuel) cs
unfolding backwards
last_lem fuel i last =
    let z = quot10-zero i last in
    (
      (48 + size_of i % 10) ∷ [],
      convert_digits-last fuel i last,
      record {
        value = omega arith;
        short = omega arith;
        some_digit = omega arith;
        all = ground arith;
      },
    )

one_round : (i : ℤ) → size_of i < 10 → is_zero (quot10 i) ≡ true
one_round i h =
    is_zero_lem (quot10 i) ∙ (==_iff (size_of (quot10 i)) 0).1 (size_of-quot10 i ∙ omega arith)

convert_digits_lem :
    (fuel : ℕ) (i : ℤ)
    → size_of i < 10 ^ suc fuel
    → (cs : List ℕ) × (convert_digits (suc fuel) i ≡ some cs) × Writes (size_of i) (suc fuel) cs
unfolding backwards
convert_digits_lem zero i h = last_lem 0 i (one_round i (omega arith))
convert_digits_lem (suc fuel) i h = elim (Bool-cases (is_zero (quot10 i))) [
  | inl last ↦ last_lem (suc fuel) i last
  | inr more ↦
      let q = size_of-quot10 i in
      let (cs, e, w) = convert_digits_lem fuel (quot10 i) (omega arith) in
      (
        (48 + size_of i % 10) ∷ cs,
        convert_digits-more (suc fuel) i cs more e,
        record {
          value = omega (arith, w.value);
          short = omega (arith, w.short);
          some_digit = omega arith;
          all = ground (arith, w.all);
        },
      )
]

-- Reading: a sign, and digits from the first on.
unfoldable pub read_digits : List ℕ → ℕ → ℕ
read_digits [] n = n
read_digits (c ∷ cs) n = read_digits cs (n * 10 + (c - 48))

unfoldable pub read : List ℕ → ℤ
read [] = pos 0
read (c ∷ cs) = if c == 45 then neg (read_digits cs 0) else pos (read_digits (c ∷ cs) 0)

read_digits-append :
    (xs ys : List ℕ) (n : ℕ) → read_digits (xs ++ ys) n ≡ read_digits ys (read_digits xs n)
unfolding read_digits
read_digits-append [] ys n = refl
read_digits-append (x ∷ xs) ys n = read_digits-append xs ys (n * 10 + (x - 48))

read_digits-reverse : (cs : List ℕ) → read_digits (reverse cs) 0 ≡ backwards cs
unfolding read_digits backwards
read_digits-reverse [] = refl
read_digits-reverse (c ∷ cs) =
    ap (λ xs. read_digits xs 0) (reverse-append (c ∷ []) cs)
    ∙ read_digits-append (reverse cs) (c ∷ []) 0
    ∙ omega (arith, read_digits-reverse cs)

all_digits-append :
    (xs ys : List ℕ) → all_digits xs ≡ true → all_digits ys ≡ true → all_digits (xs ++ ys) ≡ true
all_digits-append [] ys h k = k
all_digits-append (x ∷ xs) ys h k = ground (arith, all_digits-append xs ys)

all_digits-reverse : (xs : List ℕ) → all_digits xs ≡ true → all_digits (reverse xs) ≡ true
all_digits-reverse [] h = refl
all_digits-reverse (x ∷ xs) h =
    ap all_digits (reverse-append (x ∷ []) xs)
    ∙ all_digits-append (reverse xs) (x ∷ []) (all_digits-reverse xs (ground arith)) (ground arith)

read-digits :
    (xs : List ℕ) → all_digits xs ≡ true → 0 < length xs → read xs ≡ pos (read_digits xs 0)
unfolding read
read-digits [] h k = absurd (omega arith)
read-digits (x ∷ xs) h k = let e : (x == 45) ≡ false = ground arith in rw e refl

read-signed :
    (v : ℤ) (cs : List ℕ)
    → backwards cs ≡ size_of v
    → 0 < length cs
    → all_digits cs ≡ true
    → read (reverse (signed v cs)) ≡ v
read-signed (pos n) cs e k h =
    read-digits (reverse cs) (all_digits-reverse cs h) (omega (arith, length-reverse cs))
    ∙ ap pos (read_digits-reverse cs ∙ e)
read-signed (negsuc n) cs e k h =
    ap read (reverse-append cs (45 ∷ [])) ∙ negative cs ∙ ap neg (read_digits-reverse cs ∙ e)
  where
    negative : (cs : List ℕ) → read (45 ∷ reverse cs) ≡ neg (read_digits (reverse cs) 0)
    negative cs = unfold read in refl

length-signed : (v : ℤ) (cs : List ℕ) → length (signed v cs) ≤ length cs + 1
length-signed (pos n) cs = omega arith
length-signed (negsuc n) cs = omega (arith, length-append cs (45 ∷ []))

-- convert ends within its rounds for every integer of up to 64 bits, with or without a sign: its
-- text is at most 21 characters long, and read as a decimal number it is the integer.
pub read-convert :
    (v : ℤ)
    → size_of v < 2 ^ 64
    → (text : List ℕ) × (convert v ≡ some text) × (read text ≡ v) × (length text ≤ 21)
unfolding convert
read-convert v h =
    let (cs, e, w) = convert_digits_lem 19 v (omega arith) in
    (
      reverse (signed v cs),
      rw e refl,
      read-signed v cs w.value w.some_digit w.all,
      omega (arith, length-reverse (signed v cs), length-signed v cs, w.short),
    )
