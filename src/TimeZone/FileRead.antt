-- ===== src/TimeZone/FileRead.antt =====
-- A whole zone file, as tzfile(5) has it, and what networker/base/TimeZone.cpp reads of it.
use network_program_base_fra.Prelude.{
  ℕ, ◌^◌, ◌<◌, ◌≡◌, refl, sym, ap, ◌∙◌, true, some, List, [], ◌∷◌, ◌++◌, length, ltb, lt→ltb,
}
use network_program_base_fra.Prelude.Int.{ℤ, pos}
use network_program_base_fra.TimeZone.{Transition, Localtime}
use network_program_base_fra.TimeZone.File.{
  File, read_bytes, read_uint8, read_int32, read_localtime, make_transitions, read_body,
  read_time_zone_file,
}
use network_program_base_fra.TimeZone.FileLaws.{
  fits, word, big_endian, read_int32_lem, read_bytes_lem, written, all, read_many_lem,
  encode_localtime, read_localtime_lem, make_transitions_lem, Describes,
}

pub record Zone : Type 0 where
  pub version : ℕ
  pub reserved : List ℕ
  pub isgmtcnt : ℤ
  pub isstdcnt : ℤ
  pub leapcnt : ℤ
  pub times : List ℤ
  pub indices : List ℕ
  pub types : List Localtime
  pub abbreviation : List ℕ
  pub rest : List ℕ

abbrev pub byte : ℕ → List ℕ
byte b = b ∷ []

abbrev pub count_of : ℕ → List ℕ
count_of n = big_endian (word (pos n))

abbrev pub encode_body : Zone → List ℕ
encode_body z =
    written (λ t. big_endian (word t)) z.times
    ++ (written byte z.indices ++ (written encode_localtime z.types ++ (z.abbreviation ++ z.rest)))

abbrev pub encode : Zone → List ℕ
encode z =
    84 ∷ 90 ∷ 105 ∷ 102 ∷ z.version ∷ z.reserved
    ++ (big_endian (word z.isgmtcnt)
        ++ (big_endian (word z.isstdcnt)
            ++ (big_endian (word z.leapcnt)
                ++ (count_of (length z.times)
                    ++ (count_of (length z.types)
                        ++ (count_of (length z.abbreviation) ++ encode_body z))))))

-- What the format asks for: numbers of 32 bits, and an index for each time into the types.
pub record IsSound (z : Zone) : Type 0 where
  pub padding : length z.reserved ≡ 15
  pub gmt : fits z.isgmtcnt ≡ true
  pub std : fits z.isstdcnt ≡ true
  pub leap : fits z.leapcnt ≡ true
  pub many_times : length z.times < 2 ^ 31
  pub many_types : length z.types < 2 ^ 31
  pub many_letters : length z.abbreviation < 2 ^ 31
  pub each_time : all fits z.times ≡ true
  pub paired : length z.times ≡ length z.indices
  pub inside : all (λ i. ltb i (length z.types)) z.indices ≡ true
  pub offsets : all (λ t. fits t.gmt_offset) z.types ≡ true

always : (is : List ℕ) → all (λ i. true) is ≡ true
always [] = refl
always (i ∷ is) = always is

read_byte : (b : ℕ) (f : File) → true ≡ true → read_uint8 (byte b ++ f) ≡ some (b, f)
unfolding read_uint8
read_byte b f h = refl

read_body_lem :
    (z : Zone) (out : List Transition)
    → IsSound z
    → make_transitions z.times z.indices z.types ≡ some out
    → read_body
        (pos (length z.times))
        (pos (length z.types))
        (pos (length z.abbreviation))
        (encode_body z)
      ≡ some (record {
        zone = record { transitions = out; localtimes = z.types };
        abbreviation = z.abbreviation;
      })
unfolding read_body
read_body_lem z out s e =
    rw
      (
        read_many_lem (λ t. big_endian (word t)) read_int32 fits read_int32_lem z.times _
            s.each_time,
        s.paired,
        read_many_lem byte read_uint8 (λ b. true) read_byte z.indices _ (always z.indices),
        read_many_lem encode_localtime read_localtime (λ t. fits t.gmt_offset) read_localtime_lem
            z.types _ s.offsets,
        e,
        read_bytes_lem z.abbreviation z.rest,
      )
      refl

count_lem : (n : ℕ) (f : File) → n < 2 ^ 31 → read_int32 (count_of n ++ f) ≡ some (pos n, f)
count_lem n f h = read_int32_lem (pos n) f (lt→ltb n (2 ^ 31) h)

-- Reading a file of tzfile(5), with its first header, its first times, indices, types and
-- abbreviations, and any bytes after them (leap seconds, indicators, a second block): if the numbers
-- have 32 bits and the indices are those of types, it ends with the transitions, each with the
-- offset of its type added to give the local time, the types and the abbreviations.
pub read-encode :
    (z : Zone)
    → IsSound z
    → (out : List Transition) × Describes z.types z.times z.indices out
      × (read_time_zone_file (encode z)
          ≡ some (record {
            zone = record { transitions = out; localtimes = z.types };
            abbreviation = z.abbreviation;
          }))
unfolding read_time_zone_file
read-encode z s =
    let (out, e, d) = make_transitions_lem z.times z.indices z.types s.paired s.inside in
    let padding : (f : File) → read_bytes 15 (z.reserved ++ f) ≡ some (z.reserved, f) =
      λ f. ap (λ n. read_bytes n (z.reserved ++ f)) (sym s.padding) ∙ read_bytes_lem z.reserved f in
    (
      out,
      d,
      rw
          (
            read_bytes_lem (84 ∷ 90 ∷ 105 ∷ 102 ∷ []) _,
            read_bytes_lem (z.version ∷ []) _,
            padding _,
            read_int32_lem z.isgmtcnt _ s.gmt,
            read_int32_lem z.isstdcnt _ s.std,
            read_int32_lem z.leapcnt _ s.leap,
            count_lem (length z.times) _ s.many_times,
            count_lem (length z.types) _ s.many_types,
            count_lem (length z.abbreviation) _ s.many_letters,
          )
          (read_body_lem z out s e),
    )
