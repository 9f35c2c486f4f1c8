-- ===== src/Buffer/Ints.antt =====
-- The integers of networker/net/Buffer.h, written and read in network order. An integer of `n`
-- bytes is its bit pattern.
use network_program_base_fra.Prelude.{ℕ, Option, some, leb, slice, ◌>>=◌, ◌>>◌, assert}
use network_program_base_fra.Endian.Memory.{to_memory, from_memory}
use network_program_base_fra.Endian.{
  host_to_network64, host_to_network32, host_to_network16, network_to_host64, network_to_host32,
  network_to_host16,
}
use network_program_base_fra.Buffer.{
  Buffer, readable_bytes, append, prepend, retrieve_int32, retrieve_int16, retrieve_int8,
}

unfoldable pub append_int64 : ℕ → Buffer → Option Buffer
append_int64 x b = let be64 : ℕ = host_to_network64 x in append (to_memory 8 be64) b

unfoldable pub append_int32 : ℕ → Buffer → Option Buffer
append_int32 x b = let be32 : ℕ = host_to_network32 x in append (to_memory 4 be32) b

unfoldable pub append_int16 : ℕ → Buffer → Option Buffer
append_int16 x b = let be16 : ℕ = host_to_network16 x in append (to_memory 2 be16) b

unfoldable pub append_int8 : ℕ → Buffer → Option Buffer
append_int8 x b = append (to_memory 1 x) b

-- `memcpy` of `n` bytes from `peek()`.
abbrev pub load : ℕ → Buffer → ℕ
load n b = from_memory (slice b.storage b.reader_index n)

unfoldable pub peek_int64 : Buffer → Option ℕ
peek_int64 b = do
  assert (leb 8 (readable_bytes b))
  let be64 : ℕ = load 8 b
  some (network_to_host64 be64)

unfoldable pub peek_int32 : Buffer → Option ℕ
peek_int32 b = do
  assert (leb 4 (readable_bytes b))
  let be32 : ℕ = load 4 b
  some (network_to_host32 be32)

unfoldable pub peek_int16 : Buffer → Option ℕ
peek_int16 b = do
  assert (leb 2 (readable_bytes b))
  let be16 : ℕ = load 2 b
  some (network_to_host16 be16)

unfoldable pub peek_int8 : Buffer → Option ℕ
peek_int8 b = do assert (leb 1 (readable_bytes b)); some (load 1 b)

unfoldable pub read_int32 : Buffer → Option (ℕ × Buffer)
read_int32 b = do result ← peek_int32 b; b' ← retrieve_int32 b; some (result, b')

unfoldable pub read_int16 : Buffer → Option (ℕ × Buffer)
read_int16 b = do result ← peek_int16 b; b' ← retrieve_int16 b; some (result, b')

unfoldable pub read_int8 : Buffer → Option (ℕ × Buffer)
read_int8 b = do result ← peek_int8 b; b' ← retrieve_int8 b; some (result, b')

unfoldable pub prepend_int64 : ℕ → Buffer → Option Buffer
prepend_int64 x b = let be64 : ℕ = host_to_network64 x in prepend (to_memory 8 be64) b

unfoldable pub prepend_int32 : ℕ → Buffer → Option Buffer
prepend_int32 x b = let be32 : ℕ = host_to_network32 x in prepend (to_memory 4 be32) b

unfoldable pub prepend_int16 : ℕ → Buffer → Option Buffer
prepend_int16 x b = let be16 : ℕ = host_to_network16 x in prepend (to_memory 2 be16) b

unfoldable pub prepend_int8 : ℕ → Buffer → Option Buffer
prepend_int8 x b = prepend (to_memory 1 x) b
