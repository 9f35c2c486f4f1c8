-- ===== src/Buffer/Valid.antt =====
-- The representation invariant of the buffer of networker/net/Buffer.h, and the space that
-- `ensureWritableBytes` makes.
use network_program_base_fra.Prelude.{
  ℕ, ◌+◌, ◌-◌, ◌^◌, ◌≤◌, ◌<◌, ◌≡◌, refl, inl, inr, some, arith, length, write_at, resize, add_size,
  Bool-cases, lt→ltb, false, ltb, length-resize, length-write_at, length-slice, slice-resize,
  slice-write_at_end, sym, ◌∙◌,
}
use network_program_base_fra.Buffer.{
  Buffer, cheap_prepend, readable_bytes, writable_bytes, prependable_bytes, readable, make_space,
}

-- The indices are ordered as the picture in Buffer.h has it, and the storage holds the reserve in
-- front. A vector of `char` never has more than 2 ^ 63 - 1 elements.
pub record IsValid (b : Buffer) : Type 0 where
  pub ordered : b.reader_index ≤ b.writer_index
  pub inside : b.writer_index ≤ length b.storage
  pub reserve : cheap_prepend ≤ length b.storage
  pub small : length b.storage < 2 ^ 63

pub readable_bytes_lem :
    {b : Buffer} → IsValid b → readable_bytes b ≡ b.writer_index - b.reader_index
unfolding readable_bytes
readable_bytes_lem v = omega arith

pub writable_bytes_lem :
    {b : Buffer} → IsValid b → writable_bytes b ≡ length b.storage - b.writer_index
unfolding writable_bytes
writable_bytes_lem v = omega arith

pub length-readable : {b : Buffer} → IsValid b → length (readable b) ≡ readable_bytes b
length-readable {b} v =
    length-slice b.storage b.reader_index (b.writer_index - b.reader_index) (omega arith)
    ∙ sym (readable_bytes_lem v)

-- What `makeSpace` is for: the readable bytes are the same, and there is room for `len` more.
pub record HasRoom (len : ℕ) (b b' : Buffer) : Type 0 where
  pub valid : IsValid b'
  pub same : readable b' ≡ readable b
  pub room : len ≤ length b'.storage - b'.writer_index
  pub bound : length b'.storage ≤ length b.storage + len

module _ (len : ℕ) (b : Buffer) (v : IsValid b) (fits : length b.storage + len < 2 ^ 63) where
  -- The storage is enlarged.
  grow-HasRoom :
      writable_bytes b < len
      → HasRoom len b (record b { storage = resize b.storage (add_size b.writer_index len) 0 })
  unfolding writable_bytes
  grow-HasRoom short =
      let size : ℕ = add_size b.writer_index len in
      let e : length (resize b.storage size 0) ≡ size = length-resize b.storage size 0 in
      record {
        valid = omega arith;
        same =
            slice-resize b.storage size 0 b.reader_index (b.writer_index - b.reader_index)
              (omega arith) (omega arith);
        room = omega arith;
        bound = omega arith;
      }

  abbrev moved : Buffer
  moved = record {
    storage = write_at b.storage cheap_prepend (readable b);
    reader_index = cheap_prepend;
    writer_index = add_size cheap_prepend (readable_bytes b);
  }

  -- The readable bytes are moved to the front.
  moved-HasRoom : len + cheap_prepend ≤ writable_bytes b + b.reader_index → HasRoom len b moved
  moved-HasRoom enough =
      let e = length-write_at b.storage cheap_prepend (readable b) in
      let n = length-readable v in
      let r = readable_bytes_lem v in
      let w = writable_bytes_lem v in
      record {
        valid = omega arith;
        same =
            slice-write_at_end b.storage (readable b) cheap_prepend cheap_prepend 0 (omega arith)
              (omega arith) (omega arith);
        room = omega arith;
        bound = omega arith;
      }

  make_space_moves :
      writable_bytes b < len
      → ltb (add_size (writable_bytes b) b.reader_index) (add_size len cheap_prepend) ≡ false
      → make_space len b ≡ some moved
  make_space_moves short move =
      let r = readable_bytes_lem v in
      let w = writable_bytes_lem v in
      let r' = readable_bytes_lem (moved-HasRoom (ground arith)).valid in
      let same : readable_bytes b ≡ readable_bytes moved = omega arith in
      unfold make_space prependable_bytes in
      rw (move, lt→ltb cheap_prepend b.reader_index (ground arith)) (ground arith)

  -- On a valid buffer with fewer than len writable bytes, while the storage with len more stays
  -- below 2 ^ 63, makeSpace fails no assertion, leaves a valid buffer with the same readable bytes
  -- and room for len more, and the storage grows by no more than len.
  pub make_space_lem :
      writable_bytes b < len → (b' : Buffer) × (make_space len b ≡ some b') × HasRoom len b b'
  make_space_lem short =
      let w = writable_bytes_lem v in
      elim (Bool-cases
        (ltb (add_size (writable_bytes b) b.reader_index) (add_size len cheap_prepend))) [
          | inl more ↦ (
            record b { storage = resize b.storage (add_size b.writer_index len) 0 },
            unfold make_space prependable_bytes in rw more refl,
            grow-HasRoom short,
          )
          | inr move ↦ (moved, make_space_moves short move, moved-HasRoom (ground arith))
        ]
