-- ===== src/Buffer/RoundTrip.antt =====
-- Integers written to the buffer of networker/net/Buffer.h are read back unchanged, and their
-- bytes stand in it most significant first.
use network_program_base_fra.Prelude.{
  ℕ, ◌+◌, ◌-◌, ◌^◌, ◌≤◌, ◌<◌, ◌≡◌, refl, sym, ap, ◌∙◌, some, List, [], ◌++◌, reverse, arith, length,
  take, drop, take-take, take-append_le, take-all, drop-append_le, drop-all, length-append,
  length-reverse, append-nil,
}
use network_program_base_fra.Endian.{
  swap_bytes, host_to_network32, network_to_host64, network_to_host32, network_to_host16,
}
use network_program_base_fra.Endian.Memory.{to_memory, from_memory, length-to_memory}
use network_program_base_fra.Endian.Laws.{
  swap_bytes_lem, to_memory-swap_bytes, swap_bytes-swap_bytes,
}
use network_program_base_fra.Buffer.{Buffer, readable, append, prepend, retrieve_int32}
use network_program_base_fra.Buffer.Ints.{
  load, append_int32, prepend_int32, peek_int64, peek_int32, peek_int16, read_int32,
}
use network_program_base_fra.Buffer.Valid.{IsValid, readable_bytes_lem, length-readable}
use network_program_base_fra.Buffer.Contents.{
  Holds, readable_test, append_lem, prepend_lem, retrieve_lem,
}

-- The bytes of an integer in network order.
abbrev pub network_bytes : ℕ → ℕ → List ℕ
network_bytes n x = reverse (to_memory n x)

length-network_bytes : (n x : ℕ) → length (network_bytes n x) ≡ n
length-network_bytes n x = length-reverse (to_memory n x) ∙ length-to_memory n x

-- A buffer whose readable bytes begin with those of an integer.
module _ (n x : ℕ) (rest : List ℕ) (b : Buffer) (v : IsValid b)
    (e : readable b ≡ network_bytes n x ++ rest) where
  enough : n ≤ length (readable b)
  enough =
      omega (arith, ap length e, length-append (network_bytes n x) rest, length-network_bytes n x)

  front : take n (readable b) ≡ network_bytes n x
  front =
      let k = length-network_bytes n x in
      ap (take n) e
      ∙ take-append_le n (network_bytes n x) rest (omega arith)
      ∙ take-all n (network_bytes n x) (omega arith)

  back : drop n (readable b) ≡ rest
  back =
      let k = length-network_bytes n x in
      ap (drop n) e
      ∙ drop-append_le n (network_bytes n x) rest (omega arith)
      ∙ ap (λ ys. ys ++ rest) (drop-all n (network_bytes n x) (omega arith))

  load_lem : load n b ≡ swap_bytes n x
  load_lem =
      let k = length-readable v in
      let r = readable_bytes_lem v in
      ap from_memory (
        sym (
          take-take n (b.writer_index - b.reader_index) (drop b.reader_index b.storage)
            (omega (arith, enough)))
        ∙ front)
      ∙ sym (swap_bytes_lem n x)

-- `peekInt64`, `peekInt32` and `peekInt16` read what stands first, in network order.
pub peek_int64_lem :
    (x : ℕ) (rest : List ℕ) (b : Buffer)
    → IsValid b
    → readable b ≡ network_bytes 8 x ++ rest
    → x < 2 ^ 64
    → peek_int64 b ≡ some x
unfolding peek_int64 network_to_host64
peek_int64_lem x rest b v e h =
    rw (readable_test v (enough 8 x rest b v e), load_lem 8 x rest b v e)
      (ap some (swap_bytes-swap_bytes 8 x h))

pub peek_int32_lem :
    (x : ℕ) (rest : List ℕ) (b : Buffer)
    → IsValid b
    → readable b ≡ network_bytes 4 x ++ rest
    → x < 2 ^ 32
    → peek_int32 b ≡ some x
unfolding peek_int32 network_to_host32
peek_int32_lem x rest b v e h =
    rw (readable_test v (enough 4 x rest b v e), load_lem 4 x rest b v e)
      (ap some (swap_bytes-swap_bytes 4 x h))

pub peek_int16_lem :
    (x : ℕ) (rest : List ℕ) (b : Buffer)
    → IsValid b
    → readable b ≡ network_bytes 2 x ++ rest
    → x < 2 ^ 16
    → peek_int16 b ≡ some x
unfolding peek_int16 network_to_host16
peek_int16_lem x rest b v e h =
    rw (readable_test v (enough 2 x rest b v e), load_lem 2 x rest b v e)
      (ap some (swap_bytes-swap_bytes 2 x h))

-- `readInt32` returns the integer that stands first and takes its four bytes off.
pub read_int32_lem :
    (x : ℕ) (rest : List ℕ) (b : Buffer)
    → IsValid b
    → readable b ≡ network_bytes 4 x ++ rest
    → x < 2 ^ 32
    → (b' : Buffer) × (read_int32 b ≡ some (x, b')) × Holds rest (length b.storage) b'
unfolding read_int32 retrieve_int32
read_int32_lem x rest b v e h =
    let (b', f, k) = retrieve_lem 4 b v (enough 4 x rest b v e) in
    (
      b',
      rw (peek_int32_lem x rest b v e h, f) refl,
      record { valid = k.valid; bytes = k.bytes ∙ back 4 x rest b v e; bound = k.bound },
    )

-- `appendInt32` writes the integer behind the readable bytes in network order.
pub append_int32_lem :
    (x : ℕ) (b : Buffer)
    → IsValid b
    → length b.storage + 4 < 2 ^ 63
    → (b' : Buffer) × (append_int32 x b ≡ some b')
      × Holds (readable b ++ network_bytes 4 x) (length b.storage + 4) b'
unfolding append_int32 host_to_network32
append_int32_lem x b v fits =
    let m = to_memory-swap_bytes 4 x in
    let n = length-network_bytes 4 x in
    let (b', e, k) = append_lem (network_bytes 4 x) b v (omega arith) in
    (
      b',
      ap (λ bytes. append bytes b) m ∙ e,
      record { valid = k.valid; bytes = k.bytes; bound = omega (arith, k.bound) },
    )

-- `prependInt32` writes it before them.
pub prepend_int32_lem :
    (x : ℕ) (b : Buffer)
    → IsValid b
    → 4 ≤ b.reader_index
    → (b' : Buffer) × (prepend_int32 x b ≡ some b')
      × Holds (network_bytes 4 x ++ readable b) (length b.storage) b'
unfolding prepend_int32 host_to_network32
prepend_int32_lem x b v room =
    let m = to_memory-swap_bytes 4 x in
    let n = length-network_bytes 4 x in
    let (b', e, k) = prepend_lem (network_bytes 4 x) b v (omega arith) in
    (b', ap (λ bytes. prepend bytes b) m ∙ e, k)

-- For a valid buffer with no readable bytes and storage that may grow by four, and x below 2 ^ 32,
-- appendInt32 of x followed by readInt32 gives x back, fails no assertion, and leaves no readable
-- bytes.
pub read-append_int32 :
    (x : ℕ) (b : Buffer)
    → IsValid b
    → readable b ≡ []
    → length b.storage + 4 < 2 ^ 63
    → x < 2 ^ 32
    → (b' b'' : Buffer) × (append_int32 x b ≡ some b')
      × (read_int32 b' ≡ some (x, b''))
      × (readable b'' ≡ [])
read-append_int32 x b v e fits h =
    let (b', f, k) = append_int32_lem x b v fits in
    let start : readable b' ≡ network_bytes 4 x ++ [] =
      k.bytes ∙ ap (λ ys. ys ++ network_bytes 4 x) e ∙ sym (append-nil (network_bytes 4 x)) in
    let (b'', g, l) = read_int32_lem x [] b' k.valid start h in (b', b'', f, g, l.bytes)

-- For a valid buffer with four bytes free in front of the readable ones, and x below 2 ^ 32,
-- prependInt32 of x followed by readInt32 gives x back, fails no assertion, and leaves the same
-- readable bytes as before.
pub read-prepend_int32 :
    (x : ℕ) (b : Buffer)
    → IsValid b
    → 4 ≤ b.reader_index
    → x < 2 ^ 32
    → (b' b'' : Buffer) × (prepend_int32 x b ≡ some b')
      × (read_int32 b' ≡ some (x, b''))
      × (readable b'' ≡ readable b)
read-prepend_int32 x b v room h =
    let (b', f, k) = prepend_int32_lem x b v room in
    let (b'', g, l) = read_int32_lem x (readable b) b' k.valid k.bytes h in (b', b'', f, g, l.bytes)
