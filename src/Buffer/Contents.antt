-- ===== src/Buffer/Contents.antt =====
-- What each operation of networker/net/Buffer.h does to the readable bytes, assertions included:
-- an operation that returns has passed all of its own.
use network_program_base_fra.Prelude.{
  ℕ, ◌+◌, ◌-◌, ◌^◌, ◌≤◌, ◌<◌, ◌≡◌, refl, sym, ap, ◌∙◌, inl, inr, some, none, List, [], ◌++◌, arith,
  length, take, drop, write_at, replicate, add_size, sub_size, Bool-cases, ltb, leb, ltb→lt, true,
  length-write_at, slice-write_at_end, slice-write_at_front, drop-slice, take-take, drop-all,
  length-replicate,
}
use network_program_base_fra.Buffer.{
  Buffer, cheap_prepend, readable_bytes, writable_bytes, prependable_bytes, readable, begin_write,
  ensure_writable_bytes, new, retrieve, retrieve_all, has_written, unwrite, append, prepend,
}
use network_program_base_fra.Buffer.Valid.{
  IsValid, HasRoom, readable_bytes_lem, writable_bytes_lem, length-readable, make_space_lem,
}

-- A valid buffer of at most `size` bytes of storage with the readable bytes `xs`.
pub record Holds (xs : List ℕ) (size : ℕ) (b : Buffer) : Type 0 where
  pub valid : IsValid b
  pub bytes : readable b ≡ xs
  pub bound : length b.storage ≤ size

-- The constructor passes its assertions and gives an empty buffer.
pub new_lem :
    (size : ℕ)
    → size + cheap_prepend < 2 ^ 63
    → (b : Buffer) × (new size ≡ some b) × Holds [] (size + cheap_prepend) b
unfolding new readable_bytes writable_bytes prependable_bytes
new_lem size h =
    let n = length-replicate {A = ℕ} (add_size cheap_prepend size) 0 in
    (
      record {
        storage = replicate (add_size cheap_prepend size) 0;
        reader_index = cheap_prepend;
        writer_index = cheap_prepend;
      },
      ground arith,
      record { valid = omega arith; bytes = refl; bound = omega arith },
    )

-- With room for `len` bytes the assertions of `ensureWritableBytes` and `hasWritten` pass.
writable_test :
    {len : ℕ} {b : Buffer}
    → IsValid b
    → len ≤ length b.storage - b.writer_index
    → leb len (writable_bytes b) ≡ true
writable_test v room = let w = writable_bytes_lem v in ground arith

pub readable_test :
    {len : ℕ} {b : Buffer}
    → IsValid b
    → len ≤ length (readable b)
    → leb len (readable_bytes b) ≡ true
readable_test v h = let n = length-readable v in ground arith

pub ensure_writable_bytes_lem :
    (len : ℕ) (b : Buffer)
    → IsValid b
    → length b.storage + len < 2 ^ 63
    → (b' : Buffer) × (ensure_writable_bytes len b ≡ some b') × HasRoom len b b'
unfolding ensure_writable_bytes
ensure_writable_bytes_lem len b v fits = elim (Bool-cases (ltb (writable_bytes b) len)) [
  | inl short ↦
      let (b', e, r) = make_space_lem len b v fits (ltb→lt _ _ short) in
      (b', rw (short, e, writable_test r.valid r.room) refl, r)
  | inr enough ↦
      let w = writable_bytes_lem v in
      let r : HasRoom len b b = record {
        valid = v;
        same = refl;
        room = ground arith;
        bound = omega arith;
      } in
      (b, rw (enough, writable_test v r.room) refl, r)
]

-- Bytes copied to `beginWrite()`, where there is room for them, and declared by `hasWritten`.
pub has_written_lem :
    (bytes : List ℕ) (b : Buffer)
    → IsValid b
    → length bytes ≤ length b.storage - b.writer_index
    → (b' : Buffer) × (has_written
          (length bytes)
          (record b { storage = write_at b.storage b.writer_index bytes })
        ≡ some b')
      × Holds (readable b ++ bytes) (length b.storage) b'
unfolding has_written
has_written_lem bytes b v room =
    let copied : Buffer = record b { storage = write_at b.storage b.writer_index bytes } in
    let n : length copied.storage ≡ length b.storage =
      length-write_at b.storage b.writer_index bytes in
    let valid : IsValid copied = omega arith in
    (
      record copied { writer_index = add_size b.writer_index (length bytes) },
      rw (writable_test {len = length bytes} {b = copied} valid (omega arith)) refl,
      record {
        valid = omega arith;
        bytes =
            slice-write_at_end b.storage bytes b.reader_index b.writer_index
              (b.writer_index - b.reader_index) (omega arith) (omega arith) (omega arith);
        bound = omega arith;
      },
    )

-- On a valid buffer, while the storage with the new bytes stays below 2 ^ 63, append fails no
-- assertion, leaves a valid buffer with the bytes behind the readable ones, and the storage grows
-- by no more than their number.
pub append_lem :
    (bytes : List ℕ) (b : Buffer)
    → IsValid b
    → length b.storage + length bytes < 2 ^ 63
    → (b' : Buffer) × (append bytes b ≡ some b')
      × Holds (readable b ++ bytes) (length b.storage + length bytes) b'
unfolding append begin_write
append_lem bytes b v fits =
    let (b', e, r) = ensure_writable_bytes_lem (length bytes) b v fits in
    let (b'', f, h) = has_written_lem bytes b' r.valid r.room in
    (
      b'',
      rw (e, f) refl,
      record {
        valid = h.valid;
        bytes = h.bytes ∙ ap (λ xs. xs ++ bytes) r.same;
        bound = omega (arith, h.bound, r.bound);
      },
    )

-- On a valid buffer with room for the bytes in front of the readable ones, prepend fails no
-- assertion and leaves a valid buffer with the bytes before the readable ones, in a storage that
-- does not grow.
pub prepend_lem :
    (bytes : List ℕ) (b : Buffer)
    → IsValid b
    → length bytes ≤ b.reader_index
    → (b' : Buffer) × (prepend bytes b ≡ some b')
      × Holds (bytes ++ readable b) (length b.storage) b'
unfolding prepend prependable_bytes
prepend_lem bytes b v room =
    let start : ℕ = sub_size b.reader_index (length bytes) in
    let n : length (write_at b.storage start bytes) ≡ length b.storage =
      length-write_at b.storage start bytes in
    (
      record b { storage = write_at b.storage start bytes; reader_index = start },
      ground arith,
      record {
        valid = omega arith;
        bytes =
            slice-write_at_front b.storage bytes b.reader_index start
              (b.writer_index - b.reader_index) (omega arith) (omega arith) (omega arith);
        bound = omega arith;
      },
    )

-- `retrieve` takes bytes off the front, and no more than there are.
pub retrieve_lem :
    (len : ℕ) (b : Buffer)
    → IsValid b
    → len ≤ length (readable b)
    → (b' : Buffer) × (retrieve len b ≡ some b')
      × Holds (drop len (readable b)) (length b.storage) b'
unfolding retrieve retrieve_all
retrieve_lem len b v h =
    let n = length-readable v in
    let r = readable_bytes_lem v in
    elim (Bool-cases (ltb len (readable_bytes b))) [
      | inl part ↦ (
        record b { reader_index = add_size b.reader_index len },
        rw (readable_test v h, part) refl,
        record {
          valid = ground arith;
          bytes = sym (
              drop-slice b.storage b.reader_index (b.writer_index - b.reader_index) len _
                (ground arith) (ground arith));
          bound = omega arith;
        },
      )
      | inr whole ↦ (
        record b { reader_index = cheap_prepend; writer_index = cheap_prepend },
        rw (readable_test v h, whole) refl,
        record {
          valid = omega arith;
          bytes = sym (drop-all len (readable b) (ground arith));
          bound = omega arith;
        },
      )
    ]

-- Taking more than there is fails an assertion.
pub retrieve_short :
    (len : ℕ) (b : Buffer) → IsValid b → length (readable b) < len → retrieve len b ≡ none
unfolding retrieve
retrieve_short len b v h = let n = length-readable v in ground arith

pub unwrite_lem :
    (len : ℕ) (b : Buffer)
    → IsValid b
    → len ≤ length (readable b)
    → (b' : Buffer) × (unwrite len b ≡ some b')
      × Holds (take (length (readable b) - len) (readable b)) (length b.storage) b'
unfolding unwrite
unwrite_lem len b v h =
    let n = length-readable v in
    let r = readable_bytes_lem v in
    let fewer : sub_size b.writer_index len - b.reader_index ≡ length (readable b) - len =
      omega arith in
    (
      record b { writer_index = sub_size b.writer_index len },
      rw (readable_test v h) refl,
      record {
        valid = omega arith;
        bytes =
            ap (λ k. take k (drop b.reader_index b.storage)) fewer
            ∙ sym (
                take-take (length (readable b) - len) (b.writer_index - b.reader_index)
                  (drop b.reader_index b.storage) (omega arith));
        bound = omega arith;
      },
    )

-- Nor can more be taken back than there is.
pub unwrite_short :
    (len : ℕ) (b : Buffer) → IsValid b → length (readable b) < len → unwrite len b ≡ none
unfolding unwrite
unwrite_short len b v h = let n = length-readable v in ground arith
