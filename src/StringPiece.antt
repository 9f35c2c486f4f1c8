-- ===== src/StringPiece.antt =====
-- networker/base/StringPiece.h. A piece is the memory from its pointer on and a length. Reading
-- past the memory, or a length below zero, is `none`.
pub mod Order
mod Samples
use network_program_base_fra.Prelude.{
  ℕ, zero, suc, ◌-◌, Bool, true, false, not, ◌&&◌, ◌||◌, Option, none, some, List, [], ◌∷◌, length,
  take, drop, leb, ltb, ◌==◌, if◌then◌else◌, ◌>>=◌, ◌>>◌, assert,
}
use network_program_base_fra.Prelude.Int.{ℤ, pos, negsuc}
use network_program_base_fra.Connection.{c_string}

pub record StringPiece : Type 0 where
  pub memory : List ℕ
  pub size : ℕ

-- `memcmp`, of whose result only the sign is used.
abbrev pub sign : ℕ → ℕ → ℤ
sign c d = if ltb c d then negsuc 0 else pos 1

unfoldable pub memcmp : ℕ → List ℕ → List ℕ → Option ℤ
memcmp zero cs ds = some (pos 0)
memcmp (suc n) [] ds = none
memcmp (suc n) (c ∷ cs) [] = none
memcmp (suc n) (c ∷ cs) (d ∷ ds) =
    let rest = memcmp n cs ds in if c == d then rest else some (sign c d)

-- From a `char*`, and from a string, whose length is measured as that of a `char*`.
unfoldable pub from_c_str : List ℕ → StringPiece
from_c_str memory = record { memory = memory; size = length (c_string memory) }

unfoldable pub set : List ℕ → ℕ → StringPiece → StringPiece
set memory size p = record { memory = memory; size = size }

unfoldable pub clear : StringPiece → StringPiece
clear p = record { memory = []; size = 0 }

unfoldable pub remove_prefix : ℕ → StringPiece → Option StringPiece
remove_prefix n p = do
  assert (leb n p.size)
  some (record { memory = drop n p.memory; size = p.size - n })

unfoldable pub remove_suffix : ℕ → StringPiece → Option StringPiece
remove_suffix n p = do assert (leb n p.size); some (record p { size = p.size - n })

abbrev pub is_zero : ℤ → Bool
is_zero (pos zero) = true
is_zero (pos (suc n)) = false
is_zero (negsuc n) = false

abbrev pub is_below : ℤ → Bool
is_below (pos n) = false
is_below (negsuc n) = true

abbrev pub is_above : ℤ → Bool
is_above (pos zero) = false
is_above (pos (suc n)) = true
is_above (negsuc n) = false

abbrev pub shorter : StringPiece → StringPiece → ℕ
shorter x y = if ltb x.size y.size then x.size else y.size

unfoldable pub equal : StringPiece → StringPiece → Option Bool
equal x y =
    if x.size == y.size
    then (do r ← memcmp x.size x.memory y.memory; some (is_zero r))
    else some false

-- What STRINGPIECE_BINARY_PREDICATE makes of two comparisons.
abbrev pub binary_predicate : (ℤ → Bool) → (ℕ → ℕ → Bool) → StringPiece → StringPiece → Option Bool
binary_predicate auxcmp cmp x y = do
  r ← memcmp (shorter x y) x.memory y.memory
  some (auxcmp r || is_zero r && cmp x.size y.size)

unfoldable pub less : StringPiece → StringPiece → Option Bool
less x y = binary_predicate is_below ltb x y

unfoldable pub less_or_equal : StringPiece → StringPiece → Option Bool
less_or_equal x y = binary_predicate is_below leb x y

unfoldable pub greater_or_equal : StringPiece → StringPiece → Option Bool
greater_or_equal x y = binary_predicate is_above (λ m n. leb n m) x y

unfoldable pub greater : StringPiece → StringPiece → Option Bool
greater x y = binary_predicate is_above (λ m n. ltb n m) x y

-- The lengths decide when the bytes are equal.
abbrev pub by_size : ℕ → ℕ → ℤ
by_size m n = if ltb m n then negsuc 0 else if ltb n m then pos 1 else pos 0

unfoldable pub compare : StringPiece → StringPiece → Option ℤ
compare x y = do
  r ← memcmp (shorter x y) x.memory y.memory
  some (if is_zero r then by_size x.size y.size else r)

unfoldable pub as_string : StringPiece → List ℕ
as_string p = take p.size p.memory

unfoldable pub starts_with : StringPiece → StringPiece → Option Bool
starts_with p x =
    if leb x.size p.size
    then (do r ← memcmp x.size p.memory x.memory; some (is_zero r))
    else some false
