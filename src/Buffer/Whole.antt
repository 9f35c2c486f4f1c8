-- ===== src/Buffer/Whole.antt =====
-- The operations of networker/net/Buffer.h that hand out or move the readable bytes as a whole.
use network_program_base_fra.Prelude.{
  ℕ, ◌+◌, ◌-◌, ◌*◌, ◌^◌, ◌≤◌, ◌<◌, ◌≡◌, refl, sym, ap, ◌∙◌, some, [], ◌++◌, arith, length, take,
  drop, add_size, take-take, take-all, drop-all, lt→ltb,
}
use network_program_base_fra.Buffer.{
  Buffer, initial_size, readable_bytes, readable, peek, retrieve_as_string, retrieve_all_as_string,
  to_string_piece, shrink, swap,
}
use network_program_base_fra.Buffer.Valid.{IsValid, readable_bytes_lem, length-readable}
use network_program_base_fra.Buffer.Contents.{
  Holds, readable_test, new_lem, ensure_writable_bytes_lem, append_lem, retrieve_lem,
}

-- `retrieveAsString` returns the bytes that it takes off.
pub retrieve_as_string_lem :
    (len : ℕ) (b : Buffer)
    → IsValid b
    → len ≤ length (readable b)
    → (b' : Buffer) × (retrieve_as_string len b ≡ some (take len (readable b), b'))
      × Holds (drop len (readable b)) (length b.storage) b'
unfolding retrieve_as_string peek
retrieve_as_string_lem len b v h =
    let (b', e, k) = retrieve_lem len b v h in
    let n = length-readable v in
    let r = readable_bytes_lem v in
    (
      b',
      rw (readable_test v h, e)
          (ap (λ xs. some (xs, b'))
            (sym (
              take-take len (b.writer_index - b.reader_index) (drop b.reader_index b.storage)
                (omega arith)))),
      k,
    )

pub retrieve_all_as_string_lem :
    (b : Buffer)
    → IsValid b
    → (b' : Buffer) × (retrieve_all_as_string b ≡ some (readable b, b'))
      × Holds [] (length b.storage) b'
unfolding retrieve_all_as_string
retrieve_all_as_string_lem b v =
    let n : length (readable b) ≡ readable_bytes b = length-readable v in
    let (b', e, k) = retrieve_as_string_lem (length (readable b)) b v (omega arith) in
    (
      b',
      ap (λ k. retrieve_as_string k b) (sym n)
          ∙ e
          ∙ ap (λ xs. some (xs, b')) (take-all (length (readable b)) (readable b) (omega arith)),
      record {
        valid = k.valid;
        bytes = k.bytes ∙ drop-all (length (readable b)) (readable b) (omega arith);
        bound = k.bound;
      },
    )

pub to_string_piece_lem :
    (b : Buffer) → IsValid b → length (readable b) < 2 ^ 31 → to_string_piece b ≡ some (readable b)
unfolding to_string_piece peek
to_string_piece_lem b v h =
    let n = length-readable v in
    rw (lt→ltb (readable_bytes b) (2 ^ 31) (omega arith), readable_bytes_lem v) refl

-- On a valid buffer with less than 2 ^ 31 readable bytes and a reserve below 2 ^ 62, shrink fails
-- no assertion and leaves a valid buffer with the same readable bytes, in a storage of at most the
-- initial one, twice the readable bytes and the reserve.
pub shrink_lem :
    (reserve : ℕ) (b : Buffer)
    → IsValid b
    → length (readable b) < 2 ^ 31
    → reserve < 2 ^ 62
    → (b' : Buffer) × (shrink reserve b ≡ some b')
      × Holds (readable b) (initial_size + 8 + 2 * length (readable b) + reserve) b'
unfolding shrink swap
shrink_lem reserve b v h g =
    let n : length (readable b) ≡ readable_bytes b = length-readable v in
    let r : readable_bytes b ≡ b.writer_index - b.reader_index = readable_bytes_lem v in
    let (o, e, k) = new_lem initial_size (omega arith) in
    let (o', e', k') =
      ensure_writable_bytes_lem (add_size (readable_bytes b) reserve) o k.valid
        (omega (arith, k.bound)) in
    let (o'', e'', k'') = append_lem (readable b) o' k'.valid (omega (arith, k.bound, k'.bound)) in
    (
      o'',
      rw (e, e', to_string_piece_lem b v h, e'') refl,
      record {
        valid = k''.valid;
        bytes = k''.bytes ∙ ap (λ xs. xs ++ readable b) (k'.same ∙ k.bytes);
        bound = omega (arith, k.bound, k'.bound, k''.bound);
      },
    )
