-- ===== src/Buffer/Receive.antt =====
-- `readFd` of networker/net/Buffer.cpp. The system call `readv` is its outcome, an argument.
use network_program_base_fra.Prelude.{
  ℕ, ◌+◌, ◌≤◌, Option, some, List, ltb, leb, if◌then◌else◌, length, drop, take, write_at, ◌>>=◌,
  ◌>>◌, assert, add_size,
}
use network_program_base_fra.Prelude.Int.{ℤ, pos, negsuc}
use network_program_base_fra.Buffer.{Buffer, writable_bytes, begin_write, append}

-- What `readv` returned: a negative result with `errno`, or the bytes that it stored.
pub data ReadResult : Type 0 where
  failed : ℕ → ReadResult
  got : List ℕ → ReadResult

-- `sizeof extrabuf`
abbrev pub extra_size : ℕ
extra_size = 65536

-- The bytes that the vectors of the call have room for.
unfoldable pub vector_room : Buffer → ℕ
vector_room b =
    let writable : ℕ = writable_bytes b in
    if ltb writable extra_size then writable + extra_size else writable

-- `readv` fills the vectors in order and no more than they hold.
abbrev pub Fits : ReadResult → Buffer → Type 0
Fits (failed errno) b = Unit {0}
Fits (got bytes) b = length bytes ≤ vector_room b

-- The bytes go to the writable range, and what does not fit there to `extrabuf`, from where it is
-- appended (past its end the read would be undefined). The result is `n`, the saved `errno` if the call failed, and the buffer.
unfoldable pub read_fd : ReadResult → Buffer → Option (ℤ × Option ℕ × Buffer)
read_fd (failed errno) b = some (negsuc 0, some errno, b)
read_fd (got bytes) b =
    let n : ℕ = length bytes in
    let writable : ℕ = writable_bytes b in
    let filled : List ℕ = write_at b.storage (begin_write b) (take writable bytes) in
    if leb n writable
    then some (
      pos n,
      Option.none,
      record b { storage = filled; writer_index = add_size b.writer_index n },
    )
    else do
      assert (leb (length (drop writable bytes)) extra_size)
      b' ←
          append (drop writable bytes)
            (record b { storage = filled; writer_index = length b.storage })
      some (pos n, Option.none, b')
