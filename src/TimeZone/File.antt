-- ===== src/TimeZone/File.antt =====
-- The reader of zone files in networker/base/TimeZone.cpp. A file is its bytes, and a read takes
-- them from the front. An exception is `none`: what it leaves in the data is not modelled.
use network_program_base_fra.Prelude.{
  ℕ, zero, suc, ◌+◌, ◌-◌, ◌*◌, ◌^◌, Bool, true, false, not, ◌&&◌, Option, none, some, List, [], ◌∷◌,
  length, get_elem?, take, drop, ltb, leb, ◌==◌, if◌then◌else◌, ◌>>=◌, ◌>>◌, assert,
}
use network_program_base_fra.Prelude.Int.{ℤ, pos, negsuc, ◌+ℤ◌}
use network_program_base_fra.TimeZone.{Transition, Localtime, Data}

abbrev pub File : Type 0
File = List ℕ

unfoldable pub read_bytes : ℕ → File → Option (List ℕ × File)
read_bytes n f = do assert (leb n (length f)); some (take n f, drop n f)

unfoldable pub read_uint8 : File → Option (ℕ × File)
read_uint8 [] = none
read_uint8 (b ∷ f) = some (b, f)

-- The most significant byte comes first, and the sign is the highest bit.
abbrev pub int32 : ℕ → ℤ
int32 n = if ltb n (2 ^ 31) then pos n else negsuc (2 ^ 32 - 1 - n)

abbrev pub from_big_endian : ℕ → ℕ → ℕ → ℕ → ℕ
from_big_endian a b c d = ((a * 256 + b) * 256 + c) * 256 + d

unfoldable pub read_int32 : File → Option (ℤ × File)
read_int32 [] = none
read_int32 (a ∷ []) = none
read_int32 (a ∷ b ∷ []) = none
read_int32 (a ∷ b ∷ c ∷ []) = none
read_int32 (a ∷ b ∷ c ∷ d ∷ f) = some (int32 (from_big_endian a b c d), f)

-- A loop that reads one item in each round.
unfoldable pub read_many {ℓ} :
    {A : Type ℓ} → (File → Option (A × File)) → ℕ → File → Option (List A × File)
read_many read zero f = some ([], f)
read_many read (suc n) f = do (x, f1) ← read f; (xs, f2) ← read_many read n f1; some (x ∷ xs, f2)

-- The rounds of a loop up to a count; `reserve` refuses a negative count, and so does the reading
-- of a negative number of bytes.
abbrev pub rounds : ℤ → ℕ
rounds (pos n) = n
rounds (negsuc n) = 0

abbrev pub is_count : ℤ → Bool
is_count (pos n) = true
is_count (negsuc n) = false

unfoldable pub read_localtime : File → Option (Localtime × File)
read_localtime f = do
  (offset, f1) ← read_int32 f
  (dst, f2) ← read_uint8 f1
  (idx, f3) ← read_uint8 f2
  some (record { gmt_offset = offset; is_dst = not (dst == 0); arrb_idx = idx }, f3)

unfoldable pub make_transitions : List ℤ → List ℕ → List Localtime → Option (List Transition)
make_transitions [] is types = some []
make_transitions (t ∷ ts) [] types = none
make_transitions (t ∷ ts) (i ∷ is) types =
    let rest = make_transitions ts is types in
    do
      local ← get_elem? types i
      others ← rest
      some (record { gmttime = t; localtime = t +ℤ local.gmt_offset; localtime_idx = i } ∷ others)

-- The data with the abbreviations.
pub record ZoneData : Type 0 where
  pub zone : Data
  pub abbreviation : List ℕ

-- "TZif"
abbrev pub is_tzif : List ℕ → Bool
is_tzif [] = false
is_tzif (a ∷ []) = false
is_tzif (a ∷ b ∷ []) = false
is_tzif (a ∷ b ∷ c ∷ []) = false
is_tzif (a ∷ b ∷ c ∷ d ∷ cs) = a == 84 && (b == 90 && (c == 105 && d == 102))

-- The transitions, their local times and the abbreviations, for the counts of the header. Leap
-- seconds are not read.
unfoldable pub read_body : ℤ → ℤ → ℤ → File → Option ZoneData
read_body timecnt typecnt charcnt f = do
  assert (is_count timecnt)
  (trans, f1) ← read_many read_int32 (rounds timecnt) f
  (idx, f2) ← read_many read_uint8 (rounds timecnt) f1
  (types, f3) ← read_many read_localtime (rounds typecnt) f2
  transitions ← make_transitions trans idx types
  assert (is_count charcnt)
  (abbreviation, f4) ← read_bytes (rounds charcnt) f3
  some (record {
    zone = record { transitions = transitions; localtimes = types };
    abbreviation = abbreviation;
  })

-- The header: the mark, the version, 15 bytes, and six counts.
unfoldable pub read_time_zone_file : File → Option ZoneData
read_time_zone_file f = do
  (head, f1) ← read_bytes 4 f
  assert (is_tzif head)
  (version, f2) ← read_bytes 1 f1
  (reserved, f3) ← read_bytes 15 f2
  (isgmtcnt, f4) ← read_int32 f3
  (isstdcnt, f5) ← read_int32 f4
  (leapcnt, f6) ← read_int32 f5
  (timecnt, f7) ← read_int32 f6
  (typecnt, f8) ← read_int32 f7
  (charcnt, f9) ← read_int32 f8
  read_body timecnt typecnt charcnt f9
