-- ===== src/Endian/Memory.antt =====
-- The bytes of an integer in the memory of a little-endian host, and the integer they stand for.
use network_program_base_fra.Prelude.{
  ℕ, zero, suc, ◌+◌, ◌*◌, ◌/◌, ◌%◌, ◌^◌, ◌<◌, ◌≡◌, refl, ap, List, [], ◌∷◌, arith, length,
}
use native.Mathlib.Nat.{pow-suc}

unfoldable pub to_memory : ℕ → ℕ → List ℕ
to_memory zero x = []
to_memory (suc n) x = (x % 256) ∷ to_memory n (x / 256)

unfoldable pub from_memory : List ℕ → ℕ
from_memory [] = 0
from_memory (b ∷ bs) = b + 256 * from_memory bs

-- Every element is a byte.
abbrev pub IsBytes : List ℕ → Type 0
IsBytes [] = Unit {0}
IsBytes (b ∷ bs) = (b < 256) × IsBytes bs

pub length-to_memory : (n x : ℕ) → length (to_memory n x) ≡ n
unfolding to_memory
length-to_memory zero x = refl
length-to_memory (suc n) x = ap suc (length-to_memory n (x / 256))

pub to_memory-IsBytes : (n x : ℕ) → IsBytes (to_memory n x)
unfolding to_memory
to_memory-IsBytes zero x = tt
to_memory-IsBytes (suc n) x = (omega arith, to_memory-IsBytes n (x / 256))

pub to_memory-from_memory :
    (bs : List ℕ) {n : ℕ} → n ≡ length bs → IsBytes bs → to_memory n (from_memory bs) ≡ bs
unfolding to_memory from_memory
to_memory-from_memory [] {n = zero} e h = refl
to_memory-from_memory [] {n = suc n} e h = absurd (omega arith)
to_memory-from_memory (b ∷ bs) {n = zero} e h = absurd (omega arith)
to_memory-from_memory (b ∷ bs) {n = suc n} e h =
    let low : (b + 256 * from_memory bs) % 256 ≡ b = omega arith in
    let high : (b + 256 * from_memory bs) / 256 ≡ from_memory bs = omega arith in
    rw (low, high) (ap (◌∷◌ b) (to_memory-from_memory bs (omega arith) h.1))

pub from_memory-to_memory : (n x : ℕ) → x < 256 ^ n → from_memory (to_memory n x) ≡ x
unfolding to_memory from_memory
from_memory-to_memory zero x h = omega arith
from_memory-to_memory (suc n) x h =
    omega (arith, pow-suc 256 n, from_memory-to_memory n (x / 256) (omega (arith, pow-suc 256 n)))
