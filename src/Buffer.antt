-- ===== src/Buffer.antt =====
-- networker/net/Buffer.h and Buffer.cpp. A pointer into the storage is its index, a `char` is a
-- number, and `none` is a failed `assert`.
pub mod Ints
pub mod Search
pub mod Receive
pub mod Valid
pub mod Contents
pub mod Whole
pub mod RoundTrip
pub mod ReceiveLaws
pub mod SearchLaws
pub mod Refine
mod Samples
use network_program_base_fra.Prelude.{
  ℕ, ◌-◌, ◌^◌, Option, some, List, [], ◌∷◌, ltb, leb, ◌==◌, if◌then◌else◌, length, replicate, slice,
  write_at, resize, ◌>>=◌, ◌>>◌, assert, add_size, sub_size,
}

pub record Buffer : Type 0 where
  pub storage : List ℕ
  pub reader_index : ℕ
  pub writer_index : ℕ

abbrev pub cheap_prepend : ℕ
cheap_prepend = 8

abbrev pub initial_size : ℕ
initial_size = 1024

unfoldable pub readable_bytes : Buffer → ℕ
readable_bytes b = sub_size b.writer_index b.reader_index

unfoldable pub writable_bytes : Buffer → ℕ
writable_bytes b = sub_size (length b.storage) b.writer_index

unfoldable pub prependable_bytes : Buffer → ℕ
prependable_bytes b = b.reader_index

unfoldable pub peek : Buffer → ℕ
peek b = b.reader_index

unfoldable pub begin_write : Buffer → ℕ
begin_write b = b.writer_index

-- The constructor; a vector of `char` starts out as zeros.
unfoldable pub new : ℕ → Option Buffer
new size = do
  let b : Buffer = record {
    storage = replicate (add_size cheap_prepend size) 0;
    reader_index = cheap_prepend;
    writer_index = cheap_prepend;
  }
  assert (readable_bytes b == 0)
  assert (writable_bytes b == size)
  assert (prependable_bytes b == cheap_prepend)
  some b

-- `std::swap` of the three members: the receiver and the argument after the call.
unfoldable pub swap : Buffer → Buffer → Buffer × Buffer
swap b rhs = (
  record {
    storage = rhs.storage;
    reader_index = rhs.reader_index;
    writer_index = rhs.writer_index;
  },
  record { storage = b.storage; reader_index = b.reader_index; writer_index = b.writer_index },
)

-- The bytes from `peek()` to `beginWrite()`.
abbrev pub readable : Buffer → List ℕ
readable b = slice b.storage b.reader_index (b.writer_index - b.reader_index)

unfoldable pub retrieve_all : Buffer → Buffer
retrieve_all b = record b { reader_index = cheap_prepend; writer_index = cheap_prepend }

unfoldable pub retrieve : ℕ → Buffer → Option Buffer
retrieve len b = do
  assert (leb len (readable_bytes b))
  if ltb len (readable_bytes b)
      then some (record b { reader_index = add_size b.reader_index len })
      else some (retrieve_all b)

unfoldable pub retrieve_until : ℕ → Buffer → Option Buffer
retrieve_until end b = do
  assert (leb (peek b) end)
  assert (leb end (begin_write b))
  retrieve (end - peek b) b

unfoldable pub retrieve_int64 : Buffer → Option Buffer
retrieve_int64 b = retrieve 8 b

unfoldable pub retrieve_int32 : Buffer → Option Buffer
retrieve_int32 b = retrieve 4 b

unfoldable pub retrieve_int16 : Buffer → Option Buffer
retrieve_int16 b = retrieve 2 b

unfoldable pub retrieve_int8 : Buffer → Option Buffer
retrieve_int8 b = retrieve 1 b

unfoldable pub retrieve_as_string : ℕ → Buffer → Option (List ℕ × Buffer)
retrieve_as_string len b = do
  assert (leb len (readable_bytes b))
  let result : List ℕ = slice b.storage (peek b) len
  b' ← retrieve len b
  some (result, b')

unfoldable pub retrieve_all_as_string : Buffer → Option (List ℕ × Buffer)
retrieve_all_as_string b = retrieve_as_string (readable_bytes b) b

-- `StringPiece` holds its length in an `int`: a longer range does not fit.
unfoldable pub to_string_piece : Buffer → Option (List ℕ)
to_string_piece b = do
  assert (ltb (readable_bytes b) (2 ^ 31))
  some (slice b.storage (peek b) (readable_bytes b))

-- `resize` of the storage, or a move of the readable bytes to its front.
unfoldable pub make_space : ℕ → Buffer → Option Buffer
make_space len b =
    if ltb (add_size (writable_bytes b) (prependable_bytes b)) (add_size len cheap_prepend)
    then some (record b { storage = resize b.storage (add_size b.writer_index len) 0 })
    else do
      assert (ltb cheap_prepend b.reader_index)
      let len_readable : ℕ = readable_bytes b
      let moved : Buffer = record {
        storage =
            write_at b.storage cheap_prepend
              (slice b.storage b.reader_index (b.writer_index - b.reader_index));
        reader_index = cheap_prepend;
        writer_index = add_size cheap_prepend len_readable;
      }
      assert (len_readable == readable_bytes moved)
      some moved

unfoldable pub ensure_writable_bytes : ℕ → Buffer → Option Buffer
ensure_writable_bytes len b = do
  b' ← if ltb (writable_bytes b) len then make_space len b else some b
  assert (leb len (writable_bytes b'))
  some b'

unfoldable pub has_written : ℕ → Buffer → Option Buffer
has_written len b = do
  assert (leb len (writable_bytes b))
  some (record b { writer_index = add_size b.writer_index len })

unfoldable pub unwrite : ℕ → Buffer → Option Buffer
unwrite len b = do
  assert (leb len (readable_bytes b))
  some (record b { writer_index = sub_size b.writer_index len })

unfoldable pub append : List ℕ → Buffer → Option Buffer
append bytes b = do
  b' ← ensure_writable_bytes (length bytes) b
  has_written (length bytes) (record b' { storage = write_at b'.storage (begin_write b') bytes })

unfoldable pub prepend : List ℕ → Buffer → Option Buffer
prepend bytes b = do
  assert (leb (length bytes) (prependable_bytes b))
  let start : ℕ = sub_size b.reader_index (length bytes)
  some (record b { storage = write_at b.storage start bytes; reader_index = start })

-- The buffer after the swap with `other`.
unfoldable pub shrink : ℕ → Buffer → Option Buffer
shrink reserve b = do
  other ← new initial_size
  other' ← ensure_writable_bytes (add_size (readable_bytes b) reserve) other
  str ← to_string_piece b
  other'' ← append str other'
  some (swap b other'').0
