-- ===== src/Endian/Laws.antt =====
-- Swapping the bytes reverses their order in memory, and swapping twice gives the integer back.
use mathlib.Core.List.{reverse-cons, reverse-reverse}
use network_program_base_fra.Prelude.{
  ℕ, ◌^◌, ◌<◌, ◌≡◌, refl, sym, List, [], ◌∷◌, ◌++◌, reverse, ◌∙◌, length-reverse,
}
use network_program_base_fra.Endian.{swap_bytes}
use network_program_base_fra.Endian.Memory.{
  to_memory, from_memory, IsBytes, length-to_memory, to_memory-IsBytes, to_memory-from_memory,
  from_memory-to_memory,
}

IsBytes-append : (xs ys : List ℕ) → IsBytes xs → IsBytes ys → IsBytes (xs ++ ys)
IsBytes-append [] ys h k = k
IsBytes-append (x ∷ xs) ys h k = (h.0, IsBytes-append xs ys h.1 k)

IsBytes-reverse : (xs : List ℕ) → IsBytes xs → IsBytes (reverse xs)
IsBytes-reverse [] h = tt
IsBytes-reverse (x ∷ xs) h =
    rw (reverse-cons x xs) (IsBytes-append (reverse xs) (x ∷ []) (IsBytes-reverse xs h.1) (h.0, tt))

pub to_memory-swap_bytes : (n x : ℕ) → to_memory n (swap_bytes n x) ≡ reverse (to_memory n x)
unfolding swap_bytes
to_memory-swap_bytes n x =
    to_memory-from_memory (reverse (to_memory n x))
      (sym (length-reverse (to_memory n x) ∙ length-to_memory n x))
      (IsBytes-reverse (to_memory n x) (to_memory-IsBytes n x))

pub swap_bytes_lem : (n x : ℕ) → swap_bytes n x ≡ from_memory (reverse (to_memory n x))
unfolding swap_bytes
swap_bytes_lem n x = refl

pub swap_bytes-swap_bytes : (n x : ℕ) → x < 256 ^ n → swap_bytes n (swap_bytes n x) ≡ x
swap_bytes-swap_bytes n x h =
    swap_bytes_lem n (swap_bytes n x)
    ∙ rw (to_memory-swap_bytes n x, reverse-reverse (to_memory n x)) (from_memory-to_memory n x h)
