-- ===== src/LogStream/Samples.antt =====
-- Numbers in the text of networker/base/LogStream.cpp.
use network_program_base_fra.Prelude.{
  ℕ, ◌-◌, ◌^◌, ◌≤◌, ◌≡◌, refl, some, Option, true, List, [], ◌∷◌, length, arith,
}
use network_program_base_fra.Prelude.Int.{pos, negsuc}
use network_program_base_fra.LogStream.{
  convert, convert_digits, convert_hex, convert_hex_digits, put, put_all, format_integer,
  put_pointer, buffer_append, integer, boolean, pointer, c_str,
}
use network_program_base_fra.LogStream.Decimal.{read, read-convert}

-- "-120"
minus : convert (negsuc 119) ≡ some (45 ∷ 49 ∷ 50 ∷ 48 ∷ [])
unfolding convert convert_digits
minus = refl

-- "1", "0xBEEF", "(null)" and "7", one after the other.
streamed :
    put_all (boolean true ∷ pointer 48879 ∷ c_str Option.none ∷ integer (pos 7) ∷ []) []
    ≡ some (49 ∷ 48 ∷ 120 ∷ 66 ∷ 69 ∷ 69 ∷ 70 ∷ 40 ∷ 110 ∷ 117 ∷ 108 ∷ 108 ∷ 41 ∷ 55 ∷ [])
unfolding put_all put format_integer put_pointer buffer_append convert convert_digits convert_hex
    convert_hex_digits
streamed = refl

-- The least 64-bit integer.
read-convert_example :
    (text : List ℕ) × (convert (negsuc (2 ^ 63 - 1)) ≡ some text)
    × (read text ≡ negsuc (2 ^ 63 - 1))
    × (length text ≤ 21)
read-convert_example = read-convert (negsuc (2 ^ 63 - 1)) (omega arith)
