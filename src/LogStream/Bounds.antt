-- ===== src/LogStream/Bounds.antt =====
-- Streaming in networker/base/LogStream.cpp stays inside the buffer.
use network_program_base_fra.Prelude.{
  ℕ, ◌+◌, ◌^◌, ◌<◌, ◌≡◌, ◌⊎◌, List, [], ◌∷◌, ◌++◌, length, if◌then◌else◌,
}
use network_program_base_fra.LogStream.{
  small_buffer, max_numeric_size, Item, boolean, integer, pointer, real, character, c_str, text,
  or_null,
}
use network_program_base_fra.LogStream.Decimal.{size_of, read}
use network_program_base_fra.LogStream.Hex.{read_hex}

-- Integers have up to 64 bits, and `snprintf` was given `max_numeric_size` bytes.
abbrev pub Fits : Item → Type 0
Fits (integer v) = size_of v < 2 ^ 64
Fits (pointer p) = p < 2 ^ 64
Fits (real s) = length s < max_numeric_size
Fits i = Unit {0}

-- The text of an item.
abbrev pub Shows : Item → List ℕ → Type 0
Shows (boolean b) t = t ≡ (if b then 49 ∷ [] else 48 ∷ [])
Shows (integer v) t = read t ≡ v
Shows (pointer p) t = (digits : List ℕ) × (t ≡ 48 ∷ 120 ∷ digits) × (read_hex digits 0 ≡ p)
Shows (real s) t = t ≡ s
Shows (character c) t = t ≡ c ∷ []
Shows (c_str s) t = t ≡ or_null s
Shows (text s) t = t ≡ s

-- The item was dropped, or its text was added with room for one more byte, the zero at its end.
abbrev pub Adds : Item → List ℕ → List ℕ → Type 0
Adds i before after =
    (after ≡ before)
    ⊎ ((t : List ℕ) × (after ≡ before ++ t) × Shows i t × (length before + length t < small_buffer))
