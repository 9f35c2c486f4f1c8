-- ===== src/Buffer/Search.antt =====
-- The searches of networker/net/Buffer.h. A pointer into the storage is its index, and `none` of
-- the inner option is `NULL`.
use network_program_base_fra.Prelude.{
  ℕ, suc, ◌+◌, ◌-◌, Bool, true, false, ◌&&◌, Option, none, some, List, [], ◌∷◌, leb, ◌==◌,
  if◌then◌else◌, slice, ◌>>◌, assert,
}
use mathlib.Core.Option
use network_program_base_fra.Buffer.{Buffer, peek, begin_write, readable}

-- `kCRLF`
abbrev pub crlf : List ℕ
crlf = 13 ∷ 10 ∷ []

-- `IsPrefix`, as the test that `std::search` makes at a position.
unfoldable pub starts_with : List ℕ → List ℕ → Bool
starts_with [] xs = true
starts_with (p ∷ ps) [] = false
starts_with (p ∷ ps) (x ∷ xs) = (p == x) && starts_with ps xs

-- `std::search`: the position of the first match, or the length of the range.
unfoldable pub search_range : List ℕ → List ℕ → ℕ
search_range pat [] = 0
search_range pat (x ∷ xs) = if starts_with pat (x ∷ xs) then 0 else suc (search_range pat xs)

-- `memchr`: the position of the first `c`.
unfoldable pub memchr : ℕ → List ℕ → Option ℕ
memchr c [] = none
memchr c (x ∷ xs) = if c == x then some 0 else Option.map suc (memchr c xs)

-- The bytes from `start` to `beginWrite()`.
abbrev pub range_from : ℕ → Buffer → List ℕ
range_from start b = slice b.storage start (b.writer_index - start)

unfoldable pub find_crlf_from : ℕ → Buffer → Option (Option ℕ)
find_crlf_from start b = do
  assert (leb (peek b) start)
  assert (leb start (begin_write b))
  let found : ℕ = start + search_range crlf (range_from start b)
  some (if found == begin_write b then none else some found)

unfoldable pub find_crlf : Buffer → Option ℕ
find_crlf b =
    let found : ℕ = peek b + search_range crlf (readable b) in
    if found == begin_write b then none else some found

unfoldable pub find_eol : Buffer → Option ℕ
find_eol b = Option.map (λ i. peek b + i) (memchr 10 (readable b))

unfoldable pub find_eol_from : ℕ → Buffer → Option (Option ℕ)
find_eol_from start b = do
  assert (leb (peek b) start)
  assert (leb start (begin_write b))
  some (Option.map (λ i. start + i) (memchr 10 (range_from start b)))
