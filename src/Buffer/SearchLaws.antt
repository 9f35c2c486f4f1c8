-- ===== src/Buffer/SearchLaws.antt =====
-- `findCRLF` of networker/net/Buffer.h finds the first line end among the readable bytes.
use network_program_base_fra.Prelude.{
  ℕ, ◌+◌, ◌-◌, ◌≤◌, ◌<◌, ◌≡◌, refl, sym, ap, ◌∙◌, inl, inr, some, none, List, [], ◌∷◌, ◌++◌, true,
  arith, length, take, drop, Bool-cases, ==_iff, length-append,
}
use network_program_base_fra.Buffer.{Buffer, readable, peek, begin_write}
use network_program_base_fra.Buffer.Search.{crlf, starts_with, search_range, find_crlf}
use network_program_base_fra.Buffer.Valid.{IsValid, readable_bytes_lem, length-readable}

starts_with-append : (ps ys : List ℕ) → starts_with ps (ps ++ ys) ≡ true
unfolding starts_with
starts_with-append [] ys = refl
starts_with-append (p ∷ ps) ys = rw ((==_iff p p).1 refl) (starts_with-append ps ys)

starts_with_sound : (ps xs : List ℕ) → starts_with ps xs ≡ true → xs ≡ ps ++ drop (length ps) xs
unfolding starts_with
starts_with_sound [] xs h = refl
starts_with_sound (p ∷ ps) [] h = cc
starts_with_sound (p ∷ ps) (x ∷ xs) h = ground (arith, starts_with_sound ps xs)

-- A match at the end of `pre` is no earlier than the position that is returned.
search_range-le : (pat pre post : List ℕ) → search_range pat (pre ++ (pat ++ post)) ≤ length pre
unfolding search_range starts_with
search_range-le [] [] [] = omega arith
search_range-le [] [] (x ∷ post) = omega arith
search_range-le (p ∷ ps) [] post = rw (starts_with-append (p ∷ ps) post) (omega arith)
search_range-le pat (x ∷ pre) post = ground (arith, search_range-le pat pre post)

search_range_bound : (pat xs : List ℕ) → search_range pat xs ≤ length xs
unfolding search_range
search_range_bound pat [] = omega arith
search_range_bound pat (x ∷ xs) = ground (arith, search_range_bound pat xs)

-- The range matches at the position that is returned, unless that is its end.
search_range_sound :
    (pat xs : List ℕ)
    → search_range pat xs < length xs
    → (post : List ℕ) × (xs ≡ take (search_range pat xs) xs ++ (pat ++ post))
unfolding search_range
search_range_sound pat [] h = absurd (omega arith)
search_range_sound pat (x ∷ xs) h = elim (Bool-cases (starts_with pat (x ∷ xs))) [
  | inl hit ↦ (drop (length pat) (x ∷ xs), rw (hit) (starts_with_sound pat (x ∷ xs) hit))
  | inr miss ↦
      let (post, e) = search_range_sound pat xs (ground arith) in (post, rw (miss) (ap (◌∷◌ x) e))
]

-- If findCRLF on a valid buffer returns a pointer, it is not before the readable bytes, a carriage
-- return and a line feed stand there among the readable bytes, and no such pair stands before it.
pub find_crlf-some :
    (b : Buffer) (p : ℕ)
    → IsValid b
    → find_crlf b ≡ some p
    → (b.reader_index ≤ p)
      × ((post : List ℕ) × (readable b ≡ take (p - b.reader_index) (readable b) ++ (crlf ++ post)))
      × ((pre post : List ℕ) → readable b ≡ pre ++ (crlf ++ post) → p - b.reader_index ≤ length pre)
unfolding find_crlf peek begin_write
find_crlf-some b p v h =
    let n = length-readable v in
    let r = readable_bytes_lem v in
    let k = search_range_bound crlf (readable b) in
    let at : p ≡ b.reader_index + search_range crlf (readable b) = ground arith in
    let inside : search_range crlf (readable b) < length (readable b) = ground arith in
    let i : p - b.reader_index ≡ search_range crlf (readable b) = omega arith in
    let (post, e) = search_range_sound crlf (readable b) inside in
    (
      omega arith,
      (post, e ∙ ap (λ m. take m (readable b) ++ (crlf ++ post)) (sym i)),
      λ pre post' f. omega (arith, ap (search_range crlf) f, search_range-le crlf pre post'),
    )

-- If findCRLF on a valid buffer returns NULL, a carriage return followed by a line feed occurs
-- nowhere among the readable bytes.
pub find_crlf-none :
    (b : Buffer)
    → IsValid b
    → find_crlf b ≡ none
    → ¬ ((pre post : List ℕ) × (readable b ≡ pre ++ (crlf ++ post)))
unfolding find_crlf peek begin_write
find_crlf-none b v h (pre, post, f) =
    let n = length-readable v in
    let r = readable_bytes_lem v in
    let at : b.reader_index + search_range crlf (readable b) ≡ b.writer_index = ground arith in
    omega (
      arith,
      ap length f,
      length-append pre (crlf ++ post),
      ap (search_range crlf) f,
      search_range-le crlf pre post,
    )
