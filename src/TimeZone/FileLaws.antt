-- ===== src/TimeZone/FileLaws.antt =====
-- Writing a zone file as tzfile(5) has it, and reading it with networker/base/TimeZone.cpp.
use network_program_base_fra.Prelude.{
  ℕ, zero, suc, ◌-◌, ◌/◌, ◌%◌, ◌^◌, ◌<◌, ◌≡◌, refl, ap, ◌∙◌, Bool, true, false, not, ◌&&◌, &&_split,
  Option, some, List, [], ◌∷◌, ◌++◌, append_assoc, length, length-append, get_elem?, take-append_le,
  drop-append_le, take-all, drop-all, ltb, ltb→lt, le→leb, ◌==◌, if◌then◌else◌, arith,
}
use network_program_base_fra.Prelude.Int.{ℤ, pos, negsuc, ◌+ℤ◌}
use network_program_base_fra.TimeZone.{Transition, Localtime}
use network_program_base_fra.TimeZone.File.{
  File, read_bytes, read_uint8, int32, from_big_endian, read_int32, read_many, read_localtime,
  make_transitions,
}

-- Integers of 32 bits, and their four bytes.
abbrev pub fits : ℤ → Bool
fits (pos n) = ltb n (2 ^ 31)
fits (negsuc n) = ltb n (2 ^ 31)

abbrev pub word : ℤ → ℕ
word (pos n) = n
word (negsuc n) = 2 ^ 32 - 1 - n

abbrev pub big_endian : ℕ → List ℕ
big_endian n = n / 2 ^ 24 ∷ n / 2 ^ 16 % 256 ∷ n / 2 ^ 8 % 256 ∷ n % 256 ∷ []

pub int32-word : (v : ℤ) → fits v ≡ true → int32 (word v) ≡ v
int32-word (pos n) h = rw h refl
int32-word (negsuc n) h =
    let k : n < 2 ^ 31 = ltb→lt n (2 ^ 31) h in rw (high n k) (ap negsuc (omega arith))
  where
    high : (n : ℕ) → n < 2 ^ 31 → ltb (2 ^ 32 - 1 - n) (2 ^ 31) ≡ false
    high n k = ground arith

from-big_endian :
    (n : ℕ) → from_big_endian (n / 2 ^ 24) (n / 2 ^ 16 % 256) (n / 2 ^ 8 % 256) (n % 256) ≡ n
from-big_endian n = omega arith

pub read_int32_lem :
    (v : ℤ) (f : File) → fits v ≡ true → read_int32 (big_endian (word v) ++ f) ≡ some (v, f)
unfolding read_int32
read_int32_lem v f h = ap (λ x. some (x, f)) (ap int32 (from-big_endian (word v)) ∙ int32-word v h)

pub read_bytes_lem : (cs f : List ℕ) → read_bytes (length cs) (cs ++ f) ≡ some (cs, f)
unfolding read_bytes
read_bytes_lem cs f =
    rw
      (
        le→leb (length cs) (length (cs ++ f)) (omega (arith, length-append cs f)),
        take-append_le (length cs) cs f (omega arith),
        take-all (length cs) cs (omega arith),
        drop-append_le (length cs) cs f (omega arith),
        drop-all (length cs) cs (omega arith),
      )
      refl

-- What a loop reads back, item by item.
abbrev pub written {ℓ} : {A : Type ℓ} → (A → List ℕ) → List A → List ℕ
written enc [] = []
written enc (x ∷ xs) = enc x ++ written enc xs

abbrev pub all {ℓ} : {A : Type ℓ} → (A → Bool) → List A → Bool
all ok [] = true
all ok (x ∷ xs) = ok x && all ok xs

pub read_many_lem {ℓ} :
    {A : Type ℓ} (enc : A → List ℕ) (read : File → Option (A × File)) (ok : A → Bool)
    → ((x : A) (f : File) → ok x ≡ true → read (enc x ++ f) ≡ some (x, f))
    → (xs : List A) (f : File) → all ok xs ≡ true
    → read_many read (length xs) (written enc xs ++ f) ≡ some (xs, f)
unfolding read_many
read_many_lem enc read ok each [] f h = refl
read_many_lem enc read ok each (x ∷ xs) f h =
    let (first, rest) = &&_split (ok x) (all ok xs) h in
    rw
      (
        append_assoc (enc x) (written enc xs) f,
        each x (written enc xs ++ f) first,
        read_many_lem enc read ok each xs f rest,
      )
      refl

abbrev pub encode_localtime : Localtime → List ℕ
encode_localtime t = big_endian (word t.gmt_offset) ++ (if t.is_dst then 1 else 0) ∷ t.arrb_idx ∷ []

pub read_localtime_lem :
    (t : Localtime) (f : File)
    → fits t.gmt_offset ≡ true
    → read_localtime (encode_localtime t ++ f) ≡ some (t, f)
unfolding read_localtime read_uint8
read_localtime_lem t f h =
    rw (read_int32_lem t.gmt_offset ((if t.is_dst then 1 else 0) ∷ t.arrb_idx ∷ f) h) (
      ap (λ b. some (record { gmt_offset = t.gmt_offset; is_dst = b; arrb_idx = t.arrb_idx }, f))
        (flag t.is_dst))
  where
    flag : (b : Bool) → not ((if b then 1 else 0) == 0) ≡ b
    flag true = refl
    flag false = refl

get_elem?-inside {ℓ} :
    {A : Type ℓ} (xs : List A) (i : ℕ) → i < length xs → (x : A) × (get_elem? xs i ≡ some x)
get_elem?-inside [] i h = absurd (omega arith)
get_elem?-inside (x ∷ xs) zero h = (x, refl)
get_elem?-inside (x ∷ xs) (suc i) h = get_elem?-inside xs i (omega arith)

-- What the transitions say: each has its time, its index, and as local time the time with the
-- offset of the type at the index.
abbrev pub Describes : List Localtime → List ℤ → List ℕ → List Transition → Type 0
Describes types [] is [] = Unit {0}
Describes types [] is (u ∷ us) = ⊥
Describes types (t ∷ ts) is [] = ⊥
Describes types (t ∷ ts) [] (u ∷ us) = ⊥
Describes types (t ∷ ts) (i ∷ is) (u ∷ us) =
    (u.gmttime ≡ t)
    × (u.localtime_idx ≡ i)
    × ((local : Localtime) × (get_elem? types i ≡ some local)
        × (u.localtime ≡ t +ℤ local.gmt_offset))
    × Describes types ts is us

pub make_transitions_lem :
    (ts : List ℤ) (is : List ℕ) (types : List Localtime)
    → length ts ≡ length is
    → all (λ i. ltb i (length types)) is ≡ true
    → (out : List Transition) × (make_transitions ts is types ≡ some out)
      × Describes types ts is out
unfolding make_transitions
make_transitions_lem [] is types e h = ([], refl, tt)
make_transitions_lem (t ∷ ts) [] types e h = absurd (omega arith)
make_transitions_lem (t ∷ ts) (i ∷ is) types e h =
    let (first, rest) = &&_split (ltb i (length types)) (all (λ j. ltb j (length types)) is) h in
    let (local, g) = get_elem?-inside types i (ltb→lt i (length types) first) in
    let (out, k, d) = make_transitions_lem ts is types (omega arith) rest in
    (
      record { gmttime = t; localtime = t +ℤ local.gmt_offset; localtime_idx = i } ∷ out,
      rw (g, k) refl,
      (refl, refl, (local, g, refl), d),
    )
