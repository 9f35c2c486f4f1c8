-- ===== src/Buffer/ReceiveLaws.antt =====
-- `readFd` of networker/net/Buffer.cpp loses nothing that the system call delivered.
use network_program_base_fra.Prelude.{
  ℕ, ◌+◌, ◌-◌, ◌^◌, ◌≤◌, ◌<◌, ◌≡◌, refl, ap, ◌∙◌, inl, inr, some, none, List, ◌++◌, arith, length,
  take, drop, add_size, leb, Bool-cases, write_at, take-all, take-append-drop, append_assoc,
  length-take, length-drop, le→leb, leb→le, length-write_at, slice-write_at_end,
}
use network_program_base_fra.Prelude.Int.{pos, negsuc}
use network_program_base_fra.Buffer.{Buffer, readable, writable_bytes, begin_write}
use network_program_base_fra.Buffer.Receive.{failed, got, Fits, extra_size, read_fd, vector_room}
use network_program_base_fra.Buffer.Valid.{IsValid, writable_bytes_lem}
use network_program_base_fra.Buffer.Contents.{Holds, append_lem}

-- A failed call saves `errno` and changes nothing.
pub read_fd_failed :
    (errno : ℕ) (b : Buffer) → read_fd (failed errno) b ≡ some (negsuc 0, some errno, b)
unfolding read_fd
read_fd_failed errno b = refl

module _ (bytes : List ℕ) (b : Buffer) (v : IsValid b) where
  -- Bytes that fill at most the writable range.
  filled-Holds :
      (ys : List ℕ) (w : ℕ)
      → w ≡ b.writer_index + length ys
      → w ≤ length b.storage
      → Holds
          (readable b ++ ys)
          (length b.storage)
          (record b { storage = write_at b.storage b.writer_index ys; writer_index = w })
  filled-Holds ys w e h =
      let n = length-write_at b.storage b.writer_index ys in
      record {
        valid = omega arith;
        bytes =
            slice-write_at_end b.storage ys b.reader_index b.writer_index
              (b.writer_index - b.reader_index) (omega arith) (omega arith) (omega arith);
        bound = omega arith;
      }

  -- What does not fit the writable range fits `extrabuf`.
  spill :
      Fits (got bytes) b
      → writable_bytes b < length bytes
      → length (drop (writable_bytes b) bytes) ≤ extra_size
  unfolding vector_room
  spill fit more = let n = length-drop (writable_bytes b) bytes in ground arith

  -- For a read on a valid buffer that delivers no more than the vectors of the call hold, while
  -- the storage with the new bytes stays below 2 ^ 63, readFd fails no assertion, reads nothing
  -- past its extra buffer, returns the number of bytes, and leaves a valid buffer with all of them
  -- in order behind the readable ones.
  pub read_fd_lem :
      Fits (got bytes) b
      → length b.storage + length bytes < 2 ^ 63
      → (b' : Buffer) × (read_fd (got bytes) b ≡ some (pos (length bytes), none, b'))
        × Holds (readable b ++ bytes) (length b.storage + length bytes) b'
  unfolding read_fd begin_write
  read_fd_lem fit fits =
      let w = writable_bytes_lem v in
      let st = write_at b.storage b.writer_index (take (writable_bytes b) bytes) in
      let lt = length-take (writable_bytes b) bytes in
      let ld = length-drop (writable_bytes b) bytes in
      elim (Bool-cases (leb (length bytes) (writable_bytes b))) [
        | inl all ↦
            let le : length bytes ≤ writable_bytes b = leb→le _ _ all in
            let t = take-all (writable_bytes b) bytes le in
            let k =
              filled-Holds (take (writable_bytes b) bytes) (add_size b.writer_index (length bytes))
                (omega arith) (omega arith) in
            (
              record b { storage = st; writer_index = add_size b.writer_index (length bytes) },
              rw all refl,
              record {
                valid = k.valid;
                bytes = k.bytes ∙ ap (◌++◌ (readable b)) t;
                bound = omega (arith, k.bound);
              },
            )
        | inr more ↦
            let gt : writable_bytes b < length bytes = ground arith in
            let extra = le→leb (length (drop (writable_bytes b) bytes)) extra_size (spill fit gt) in
            let k =
              filled-Holds (take (writable_bytes b) bytes) (length b.storage) (omega arith)
                (omega arith) in
            let nn : length st ≡ length b.storage =
              length-write_at b.storage b.writer_index (take (writable_bytes b) bytes) in
            let mid : Buffer = record b { storage = st; writer_index = length b.storage } in
            let (b', e, l) = append_lem (drop (writable_bytes b) bytes) mid k.valid (omega arith) in
            (
              b',
              rw (more, extra, e) refl,
              record {
                valid = l.valid;
                bytes =
                    l.bytes
                    ∙ ap (λ ys. ys ++ drop (writable_bytes b) bytes) k.bytes
                    ∙ append_assoc (readable b) (take (writable_bytes b) bytes)
                        (drop (writable_bytes b) bytes)
                    ∙ ap (◌++◌ (readable b)) (take-append-drop (writable_bytes b) bytes);
                bound = omega (arith, l.bound);
              },
            )
      ]
