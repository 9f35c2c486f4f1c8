-- ===== src/LogStream.antt =====
-- networker/base/LogStream.h and LogStream.cpp. A buffer is the bytes before `cur_`; what a
-- conversion writes at `cur_` counts once it is added. The terminating zero is written past it.
pub mod Decimal
pub mod Hex
pub mod Bounds
mod Samples
use network_program_base_fra.Prelude.{
  ℕ, zero, suc, ◌+◌, ◌-◌, ◌*◌, ◌/◌, ◌%◌, Bool, true, false, Option, none, some, List, [], ◌∷◌, ◌++◌,
  reverse, length, leb, ltb, ◌==◌, if◌then◌else◌, ◌>>=◌, get_elem?,
}
use network_program_base_fra.Prelude.Int.{ℤ, pos, negsuc}

abbrev pub small_buffer : ℕ
small_buffer = 4000

abbrev pub max_numeric_size : ℕ
max_numeric_size = 32

-- "9876543210123456789", of which `zero` is the character in the middle.
abbrev pub digits : List ℕ
digits =
    57 ∷ 56 ∷ 55 ∷ 54 ∷ 53 ∷ 52 ∷ 51 ∷ 50 ∷ 49 ∷ 48 ∷ 49 ∷ 50 ∷ 51 ∷ 52 ∷ 53 ∷ 54 ∷ 55 ∷ 56 ∷ 57
    ∷ []

-- "0123456789ABCDEF"
abbrev pub digits_hex : List ℕ
digits_hex = 48 ∷ 49 ∷ 50 ∷ 51 ∷ 52 ∷ 53 ∷ 54 ∷ 55 ∷ 56 ∷ 57 ∷ 65 ∷ 66 ∷ 67 ∷ 68 ∷ 69 ∷ 70 ∷ []

-- Minus a number.
abbrev pub neg : ℕ → ℤ
neg zero = pos 0
neg (suc n) = negsuc n

-- `i % 10` and `i / 10`, which round to zero.
abbrev pub rem10 : ℤ → ℤ
rem10 (pos n) = pos (n % 10)
rem10 (negsuc n) = neg ((n + 1) % 10)

abbrev pub quot10 : ℤ → ℤ
quot10 (pos n) = pos (n / 10)
quot10 (negsuc n) = neg ((n + 1) / 10)

-- `zero[lsd]`
abbrev pub zero_at : ℤ → Option ℕ
zero_at (pos n) = get_elem? digits (9 + n)
zero_at (negsuc n) = get_elem? digits (8 - n)

abbrev pub is_zero : ℤ → Bool
is_zero (pos n) = n == 0
is_zero (negsuc n) = false

-- The loop of `convert`: the characters in the order in which they are written. Out of fuel, or
-- with an index that is not in the table, it is `none`.
unfoldable pub convert_digits : ℕ → ℤ → Option (List ℕ)
convert_digits zero i = none
convert_digits (suc fuel) i =
    let rest = convert_digits fuel (quot10 i) in
    do c ← zero_at (rem10 i); cs ← if is_zero (quot10 i) then some [] else rest; some (c ∷ cs)

abbrev pub signed : ℤ → List ℕ → List ℕ
signed (pos n) cs = cs
signed (negsuc n) cs = cs ++ 45 ∷ []

-- Twenty rounds are enough for 64 bits.
unfoldable pub convert : ℤ → Option (List ℕ)
convert value = do cs ← convert_digits 20 value; some (reverse (signed value cs))

unfoldable pub convert_hex_digits : ℕ → ℕ → Option (List ℕ)
convert_hex_digits zero i = none
convert_hex_digits (suc fuel) i =
    let rest = convert_hex_digits fuel (i / 16) in
    do c ← get_elem? digits_hex (i % 16); cs ← if i / 16 == 0 then some [] else rest; some (c ∷ cs)

unfoldable pub convert_hex : ℕ → Option (List ℕ)
convert_hex value = do cs ← convert_hex_digits 16 value; some (reverse cs)

abbrev pub avail : List ℕ → ℕ
avail data_ = small_buffer - length data_

-- `FixedBuffer::append`
unfoldable pub buffer_append : List ℕ → List ℕ → List ℕ
buffer_append text data_ = if ltb (length text) (avail data_) then data_ ++ text else data_

-- Text is put at `cur_` and added only if there is room for any number.
abbrev pub add_if_room : Option (List ℕ) → List ℕ → Option (List ℕ)
add_if_room text data_ =
    if leb max_numeric_size (avail data_) then (do cs ← text; some (data_ ++ cs)) else some data_

unfoldable pub format_integer : ℤ → List ℕ → Option (List ℕ)
format_integer v data_ = add_if_room (convert v) data_

-- "0x" stands before the digits.
unfoldable pub put_pointer : ℕ → List ℕ → Option (List ℕ)
put_pointer p data_ = add_if_room (do cs ← convert_hex p; some (48 ∷ 120 ∷ cs)) data_

-- What is streamed: the integers of each width are one kind, and the text of a `double` is what
-- `snprintf` made of it.
pub data Item : Type 0 where
  boolean : Bool → Item
  integer : ℤ → Item
  pointer : ℕ → Item
  real : List ℕ → Item
  character : ℕ → Item
  c_str : Option (List ℕ) → Item
  text : List ℕ → Item

-- "(null)"
abbrev pub null_text : List ℕ
null_text = 40 ∷ 110 ∷ 117 ∷ 108 ∷ 108 ∷ 41 ∷ []

abbrev pub or_null : Option (List ℕ) → List ℕ
or_null none = null_text
or_null (some s) = s

unfoldable pub put : Item → List ℕ → Option (List ℕ)
put (boolean b) data_ = some (buffer_append (if b then 49 ∷ [] else 48 ∷ []) data_)
put (integer v) data_ = format_integer v data_
put (pointer p) data_ = put_pointer p data_
put (real s) data_ = add_if_room (some s) data_
put (character c) data_ = some (buffer_append (c ∷ []) data_)
put (c_str s) data_ = some (buffer_append (or_null s) data_)
put (text s) data_ = some (buffer_append s data_)

unfoldable pub put_all : List Item → List ℕ → Option (List ℕ)
put_all [] data_ = some data_
put_all (i ∷ is) data_ = put i data_ >>= put_all is
