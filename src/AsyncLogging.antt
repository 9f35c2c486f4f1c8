-- ===== src/AsyncLogging.antt =====
-- networker/base/AsyncLogging.cpp, with the buffer of networker/base/LogStream.h. A buffer is the
-- bytes in it, a pointer an `Option`. The writer's thread is cut at its critical section: `collect`
-- is the iteration of `threadFunc` up to the end of the section, `finish` what follows, so that
-- other threads may append in between. The wait on the condition only decides when that happens.
pub mod Laws
pub mod Steps
mod Samples
use network_program_base_fra.Prelude.{
  ℕ, ◌-◌, ◌*◌, Bool, true, false, not, Option, none, some, List, [], ◌∷◌, ◌++◌, length, take, ltb,
  if◌then◌else◌, ◌>>=◌, ◌>>◌, assert,
}

abbrev pub large_buffer : ℕ
large_buffer = 4000 * 1000

abbrev pub avail : List ℕ → ℕ
avail data_ = large_buffer - length data_

-- `FixedBuffer::append` drops what does not fit.
unfoldable pub buffer_append : List ℕ → List ℕ → List ℕ
buffer_append line data_ = if ltb (length line) (avail data_) then data_ ++ line else data_

pub record AsyncLogging : Type 0 where
  pub current_buffer : Option (List ℕ)
  pub next_buffer : Option (List ℕ)
  pub buffers : List (List ℕ)
  pub new_buffer1 : Option (List ℕ)
  pub new_buffer2 : Option (List ℕ)
  pub buffers_to_write : List (List ℕ)
  pub written : List ℕ

-- With the two buffers that `threadFunc` sets up before its loop.
unfoldable pub new : AsyncLogging
new = record {
  current_buffer = some [];
  next_buffer = some [];
  buffers = [];
  new_buffer1 = some [];
  new_buffer2 = some [];
  buffers_to_write = [];
  written = [];
}

abbrev pub or_new : Option (List ℕ) → List ℕ
or_new none = []
or_new (some b) = b

unfoldable pub append : List ℕ → AsyncLogging → Option AsyncLogging
append line c = do
  current ← c.current_buffer
  (if ltb (length line) (avail current)
      then some (record c { current_buffer = some (buffer_append line current) })
      else some (record c {
        buffers = c.buffers ++ current ∷ [];
        current_buffer = some (buffer_append line (or_new c.next_buffer));
        next_buffer = none;
      }))

-- There is a buffer, and nothing is in it.
abbrev pub is_blank : Option (List ℕ) → Bool
is_blank (some []) = true
is_blank b = false

abbrev pub is_empty : List (List ℕ) → Bool
is_empty [] = true
is_empty (b ∷ bs) = false

-- The two buffers for the front once the lock is held.
abbrev pub refill_next : Option (List ℕ) → Option (List ℕ) → Option (List ℕ) × Option (List ℕ)
refill_next none spare = (spare, none)
refill_next (some b) spare = (some b, spare)

unfoldable pub collect : AsyncLogging → Option AsyncLogging
collect c = do
  assert (is_blank c.new_buffer1)
  assert (is_blank c.new_buffer2)
  assert (is_empty c.buffers_to_write)
  current ← c.current_buffer
  let nexts = refill_next c.next_buffer c.new_buffer2
  some (record c {
    buffers_to_write = c.buffers ++ current ∷ [];
    buffers = [];
    current_buffer = c.new_buffer1;
    new_buffer1 = none;
    next_buffer = nexts.0;
    new_buffer2 = nexts.1;
  })

unfoldable pub concat : List (List ℕ) → List ℕ
concat [] = []
concat (b ∷ bs) = b ++ concat bs

-- `back` and `pop_back`, and the buffer is reset.
abbrev pub pop_back : List (List ℕ) → Option (List (List ℕ))
pop_back [] = none
pop_back (b ∷ []) = some []
pop_back (a ∷ b ∷ bs) = do rest ← pop_back (b ∷ bs); some (a ∷ rest)

abbrev pub refill : Option (List ℕ) → List (List ℕ) → Option (Option (List ℕ) × List (List ℕ))
refill (some b) bs = some (some b, bs)
refill none bs = do rest ← pop_back bs; some (some [], rest)

-- More than 25 buffers: all but two are dropped, and a note is written.
abbrev pub kept : List (List ℕ) → List (List ℕ)
kept bs = if ltb 25 (length bs) then take 2 bs else bs

abbrev pub noted : List ℕ → List (List ℕ) → List ℕ
noted note bs = if ltb 25 (length bs) then note else []

abbrev pub at_most_two : List (List ℕ) → List (List ℕ)
at_most_two bs = if ltb 2 (length bs) then take 2 bs else bs

unfoldable pub finish : List ℕ → AsyncLogging → Option AsyncLogging
finish note c = do
  assert (not (is_empty c.buffers_to_write))
  let bs = kept c.buffers_to_write
  (new_buffer1, rest) ← refill c.new_buffer1 (at_most_two bs)
  (new_buffer2, rest') ← refill c.new_buffer2 rest
  some (record c {
    written = c.written ++ (noted note c.buffers_to_write ++ concat bs);
    new_buffer1 = new_buffer1;
    new_buffer2 = new_buffer2;
    buffers_to_write = [];
  })
