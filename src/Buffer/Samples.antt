-- ===== src/Buffer/Samples.antt =====
-- The buffer of networker/net/Buffer.h on small inputs.
use mathlib.Core.Option
use network_program_base_fra.Prelude.{
  ℕ, ◌≤◌, ◌≡◌, refl, some, none, List, [], ◌∷◌, ◌++◌, arith, length, replicate,
}
use network_program_base_fra.Prelude.Int.{pos}
use network_program_base_fra.Buffer.{
  Buffer, readable, append, retrieve, make_space, writable_bytes, readable_bytes, prependable_bytes,
  ensure_writable_bytes, has_written, begin_write, peek, unwrite,
}
use network_program_base_fra.Buffer.Ints.{append_int32, read_int32, peek_int64}
use network_program_base_fra.Buffer.Search.{crlf, find_crlf, search_range, starts_with}
use network_program_base_fra.Buffer.Receive.{read_fd, got, vector_room}
use network_program_base_fra.Buffer.Valid.{IsValid}
use network_program_base_fra.Buffer.Contents.{Holds, append_lem, retrieve_lem, unwrite_lem}
use network_program_base_fra.Buffer.RoundTrip.{network_bytes, peek_int64_lem, read-append_int32}
use network_program_base_fra.Buffer.ReceiveLaws.{read_fd_lem}
use network_program_base_fra.Buffer.SearchLaws.{find_crlf-some}
use network_program_base_fra.Buffer.Refine.{Op, put, get, undo, run, run_spec, volume, run_refines}
use network_program_base_fra.Endian.Memory.{to_memory}

-- Twelve bytes of storage, with "a\r\n" behind the reserve.
abbrev line : Buffer
line = record {
  storage = 0 ∷ 0 ∷ 0 ∷ 0 ∷ 0 ∷ 0 ∷ 0 ∷ 0 ∷ 97 ∷ 13 ∷ 10 ∷ 0 ∷ [];
  reader_index = 8;
  writer_index = 11;
}

line-IsValid : IsValid line
line-IsValid = omega arith

-- The same storage with "\n" left of it, where a move makes more room than there is at the end.
abbrev spent : Buffer
spent = record line { reader_index = 10; writer_index = 11 }

abbrev blank : Buffer
blank = record line { reader_index = 8; writer_index = 8 }

-- The bytes are moved to the front.
moves :
    make_space 2 spent
    ≡ some (record {
      storage = 0 ∷ 0 ∷ 0 ∷ 0 ∷ 0 ∷ 0 ∷ 0 ∷ 0 ∷ 10 ∷ 13 ∷ 10 ∷ 0 ∷ [];
      reader_index = 8;
      writer_index = 9;
    })
unfolding make_space writable_bytes readable_bytes prependable_bytes
moves = refl

-- The storage grows.
grows : Option.map (λ b. length b.storage) (append (1 ∷ 2 ∷ 3 ∷ []) line) ≡ some 14
unfolding append make_space writable_bytes readable_bytes prependable_bytes ensure_writable_bytes
    has_written begin_write
grows = refl

finds : find_crlf line ≡ some 9
unfolding find_crlf search_range starts_with peek begin_write
finds = refl

append_lem_example :
    (b' : Buffer) × (append (1 ∷ 2 ∷ 3 ∷ []) line ≡ some b')
    × Holds (97 ∷ 13 ∷ 10 ∷ 1 ∷ 2 ∷ 3 ∷ []) 15 b'
append_lem_example = append_lem (1 ∷ 2 ∷ 3 ∷ []) line line-IsValid (omega arith)

retrieve_lem_example : (b' : Buffer) × (retrieve 1 line ≡ some b') × Holds (13 ∷ 10 ∷ []) 12 b'
retrieve_lem_example = retrieve_lem 1 line line-IsValid (omega arith)

unwrite_lem_example : (b' : Buffer) × (unwrite 2 line ≡ some b') × Holds (97 ∷ []) 12 b'
unwrite_lem_example = unwrite_lem 2 line line-IsValid (omega arith)

peek_int64_lem_example :
    peek_int64 (record {
      storage = replicate 8 0 ++ network_bytes 8 258;
      reader_index = 8;
      writer_index = 16;
    })
    ≡ some 258
unfolding to_memory
peek_int64_lem_example = peek_int64_lem 258 [] _ (omega arith) refl (omega arith)

read-append_int32_example :
    (b' b'' : Buffer) × (append_int32 258 blank ≡ some b')
    × (read_int32 b' ≡ some (258, b''))
    × (readable b'' ≡ [])
read-append_int32_example =
    read-append_int32 258 blank (omega arith) refl (omega arith) (omega arith)

-- Three bytes arrive, and one of them fits behind the line.
read_fd_lem_example :
    (b' : Buffer) × (read_fd (got (1 ∷ 2 ∷ 3 ∷ [])) line ≡ some (pos 3, none, b'))
    × Holds (97 ∷ 13 ∷ 10 ∷ 1 ∷ 2 ∷ 3 ∷ []) 15 b'
unfolding vector_room
read_fd_lem_example =
    read_fd_lem (1 ∷ 2 ∷ 3 ∷ []) line line-IsValid
      (unfold vector_room writable_bytes in omega arith) (omega arith)

find_crlf-some_example :
    (8 ≤ 9)
    × ((post : List ℕ) × (97 ∷ 13 ∷ 10 ∷ [] ≡ (97 ∷ []) ++ (crlf ++ post)))
    × ((pre post : List ℕ) → 97 ∷ 13 ∷ 10 ∷ [] ≡ pre ++ (crlf ++ post) → 1 ≤ length pre)
find_crlf-some_example = find_crlf-some line 9 line-IsValid finds

abbrev script : List Op
script = put (1 ∷ 2 ∷ 3 ∷ []) ∷ get 4 ∷ undo 1 ∷ []

run_refines_example :
    Option.map (λ b'. readable b') (run script line) ≡ run_spec script (97 ∷ 13 ∷ 10 ∷ [])
unfolding volume
run_refines_example = run_refines script line line-IsValid (omega arith)

-- A client that takes more than there is fails.
overdraws : run_spec (get 4 ∷ []) (97 ∷ 13 ∷ 10 ∷ []) ≡ none
unfolding run_spec
overdraws = refl
