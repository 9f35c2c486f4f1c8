-- ===== src/Channel/Flags.antt =====
-- The events that a channel of networker/net/Channel.h asks for are two flags, reading and writing.
use Prim.Native.Nat.{bit_or}
use network_program_base_fra.Prelude.{
  ℕ, ◌+◌, ◌≡◌, refl, ap, ◌∙◌, Bool, true, false, List, [], ◌∷◌, if◌then◌else◌, not, ◌||◌, ◌==◌,
}
use network_program_base_fra.Channel.{
  Channel, enable_reading, disable_reading, enable_writing, disable_writing, disable_all,
  is_reading, is_writing, is_none_event, has, clear, read_event, write_event,
}

pub data Call : Type 0 where
  reads stops_reading writes stops_writing stops : Call

abbrev pub apply : Call → Channel → Channel
apply reads c = enable_reading c
apply stops_reading c = disable_reading c
apply writes c = enable_writing c
apply stops_writing c = disable_writing c
apply stops c = disable_all c

unfoldable pub apply_all : List Call → Channel → Channel
apply_all [] c = c
apply_all (k ∷ ks) c = apply_all ks (apply k c)

pub record Interest : Type 0 where
  pub reading : Bool
  pub writing : Bool

abbrev pub want : Call → Interest → Interest
want reads i = record i { reading = true }
want stops_reading i = record i { reading = false }
want writes i = record i { writing = true }
want stops_writing i = record i { writing = false }
want stops i = record { reading = false; writing = false }

unfoldable pub want_all : List Call → Interest → Interest
want_all [] i = i
want_all (k ∷ ks) i = want_all ks (want k i)

abbrev pub code : Interest → ℕ
code i = (if i.reading then 3 else 0) + (if i.writing then 4 else 0)

-- The bit operations on the four values that occur.
read_bit : (r w : Bool) → has (code (record { reading = r; writing = w })) read_event ≡ r
read_bit true true = refl
read_bit true false = refl
read_bit false true = refl
read_bit false false = refl

write_bit : (r w : Bool) → has (code (record { reading = r; writing = w })) write_event ≡ w
write_bit true true = refl
write_bit true false = refl
write_bit false true = refl
write_bit false false = refl

no_bits : (r w : Bool) → (code (record { reading = r; writing = w }) == 0) ≡ not (r || w)
no_bits true true = refl
no_bits true false = refl
no_bits false true = refl
no_bits false false = refl

set_bits :
    (r w : Bool)
    → let n : ℕ = code (record { reading = r; writing = w }) in
      (bit_or n read_event ≡ code (record { reading = true; writing = w }))
      × (clear n read_event ≡ code (record { reading = false; writing = w }))
      × (bit_or n write_event ≡ code (record { reading = r; writing = true }))
      × (clear n write_event ≡ code (record { reading = r; writing = false }))
set_bits true true = (refl, refl, refl, refl)
set_bits true false = (refl, refl, refl, refl)
set_bits false true = (refl, refl, refl, refl)
set_bits false false = (refl, refl, refl, refl)

pub apply-code :
    (k : Call) (c : Channel) (i : Interest)
    → c.events ≡ code i
    → (apply k c).events ≡ code (want k i)
unfolding enable_reading disable_reading enable_writing disable_writing disable_all
apply-code reads c i e = ap (λ x. bit_or x read_event) e ∙ (set_bits i.reading i.writing).0
apply-code stops_reading c i e = ap (λ x. clear x read_event) e ∙ (set_bits i.reading i.writing).1
apply-code writes c i e = ap (λ x. bit_or x write_event) e ∙ (set_bits i.reading i.writing).2
apply-code stops_writing c i e = ap (λ x. clear x write_event) e ∙ (set_bits i.reading i.writing).3
apply-code stops c i e = refl

-- What the tests of a channel say.
pub record Shows (i : Interest) (c : Channel) : Type 0 where
  pub reading : is_reading c ≡ i.reading
  pub writing : is_writing c ≡ i.writing
  pub nothing : is_none_event c ≡ not (i.reading || i.writing)

pub shows : (c : Channel) (i : Interest) → c.events ≡ code i → Shows i c
unfolding is_reading is_writing is_none_event
shows c i e = record {
  reading = ap (λ x. has x read_event) e ∙ read_bit i.reading i.writing;
  writing = ap (λ x. has x write_event) e ∙ write_bit i.reading i.writing;
  nothing = ap (λ x. x == 0) e ∙ no_bits i.reading i.writing;
}

-- After any sequence of calls on a channel that asks for no event, isReading, isWriting and
-- isNoneEvent say what two independent flags would say.
pub apply_all_refines :
    (ks : List Call) (c : Channel) (i : Interest)
    → c.events ≡ code i
    → Shows (want_all ks i) (apply_all ks c)
unfolding apply_all want_all
apply_all_refines [] c i e = shows c i e
apply_all_refines (k ∷ ks) c i e = apply_all_refines ks (apply k c) (want k i) (apply-code k c i e)

-- The same, call by call, for the components that hold a channel.
pub apply-Shows :
    (k : Call) (c : Channel) (i : Interest) → c.events ≡ code i → Shows (want k i) (apply k c)
apply-Shows k c i e = shows (apply k c) (want k i) (apply-code k c i e)
