-- ===== src/ThreadPool/RoundRobin.antt =====
-- The order in which networker/net/EventLoopThreadPool.cpp hands out its loops.
use network_program_base_fra.Prelude.{
  ℕ, zero, suc, ◌+◌, ◌-◌, ◌<◌, ◌≡◌, refl, sym, ap, ◌∙◌, true, Option, some, List, [], ◌∷◌, ◌++◌,
  length, get_elem?, take, drop, ◌>>=◌, ◌>>◌, assert, arith, drop-all, ap₂,
}
use network_program_base_fra.ThreadPool.{EventLoopThreadPool, get_next_loop, next_of, advance}

-- A number of calls, with the loops that they return.
unfoldable pub take_loops : ℕ → EventLoopThreadPool → Option (List ℕ × EventLoopThreadPool)
take_loops zero pool = some ([], pool)
take_loops (suc k) pool = do
  (loop, pool') ← get_next_loop pool
  (rest, pool'') ← take_loops k pool'
  some (loop ∷ rest, pool'')

abbrev standing : ℕ → EventLoopThreadPool → EventLoopThreadPool
standing i pool = record pool { next = i }

nth :
    (xs : List ℕ) (i : ℕ)
    → i < length xs
    → (x : ℕ) × (get_elem? xs i ≡ some x) × (drop i xs ≡ x ∷ drop (suc i) xs)
nth [] i h = absurd (omega arith)
nth (x ∷ xs) zero h = (x, refl, refl)
nth (x ∷ xs) (suc i) h = nth xs i (omega arith)

next_of_lem :
    (xs : List ℕ) (i x : ℕ) (pool : EventLoopThreadPool)
    → get_elem? xs i ≡ some x
    → next_of xs (standing i pool) ≡ some (x, standing (advance i (length xs)) pool)
next_of_lem [] i x pool e = cc
next_of_lem (y ∷ ys) i x pool e = rw e refl

next_lem :
    (i x : ℕ) (pool : EventLoopThreadPool)
    → pool.started ≡ true
    → get_elem? pool.loops i ≡ some x
    → get_next_loop (standing i pool) ≡ some (x, standing (advance i (length pool.loops)) pool)
unfolding get_next_loop
next_lem i x pool s e =
    ap (λ b. assert b >> next_of pool.loops (standing i pool)) s ∙ next_of_lem pool.loops i x pool e

advance-inside : (i n : ℕ) → suc i < n → advance i n ≡ suc i
advance-inside i n h = ground arith

advance-end : (i : ℕ) → advance i (suc i) ≡ 0
advance-end i = ground arith

take_suc :
    (k x : ℕ) (xs : List ℕ) (p p' p'' : EventLoopThreadPool)
    → get_next_loop p ≡ some (x, p')
    → take_loops k p' ≡ some (xs, p'')
    → take_loops (suc k) p ≡ some (x ∷ xs, p'')
unfolding take_loops
take_suc k x xs p p' p'' e f = rw (e, f) refl

-- Up to the last loop, and what comes then.
to_end :
    (j i b : ℕ) (ys : List ℕ) (p : EventLoopThreadPool) (pool : EventLoopThreadPool)
    → pool.started ≡ true
    → i + suc j ≡ length pool.loops
    → take_loops b (standing 0 pool) ≡ some (ys, p)
    → (n : ℕ) → n ≡ suc j + b
    → take_loops n (standing i pool) ≡ some (drop i pool.loops ++ ys, p)
to_end zero i b ys p pool s h f n q =
    let (x, e, d) = nth pool.loops i (omega arith) in
    let last : advance i (length pool.loops) ≡ 0 = ap (advance i) (omega arith) ∙ advance-end i in
    let all : drop i pool.loops ≡ x ∷ [] =
      d ∙ ap (λ t. x ∷ t) (drop-all (suc i) pool.loops (omega arith)) in
    ap (λ m. take_loops m (standing i pool)) (omega arith)
    ∙ take_suc b x ys (standing i pool) (standing 0 pool) p
        (next_lem i x pool s e ∙ ap (λ k. some (x, standing k pool)) last) f
    ∙ ap (λ t. some (t ++ ys, p)) (sym all)
to_end (suc j) i b ys p pool s h f n q =
    let (x, e, d) = nth pool.loops i (omega arith) in
    let on : advance i (length pool.loops) ≡ suc i =
      advance-inside i (length pool.loops) (omega arith) in
    ap (λ m. take_loops m (standing i pool)) (omega arith)
    ∙ take_suc (suc j + b) x (drop (suc i) pool.loops ++ ys) (standing i pool)
        (standing (suc i) pool) p (next_lem i x pool s e ∙ ap (λ k. some (x, standing k pool)) on)
        (to_end j (suc i) b ys p pool s (omega arith) f (suc j + b) refl)
    ∙ ap (λ t. some (t ++ ys, p)) (sym d)

-- A stretch that stops before the last loop.
inside :
    (j i : ℕ) (pool : EventLoopThreadPool)
    → pool.started ≡ true
    → i + j < length pool.loops
    → take_loops j (standing i pool) ≡ some (take j (drop i pool.loops), standing (i + j) pool)
unfolding take_loops
inside zero i pool s h = ap (λ k. some ([], standing k pool)) (omega arith)
inside (suc j) i pool s h =
    let (x, e, d) = nth pool.loops i (omega arith) in
    let on : advance i (length pool.loops) ≡ suc i =
      advance-inside i (length pool.loops) (omega arith) in
    take_suc j x (take j (drop (suc i) pool.loops)) (standing i pool) (standing (suc i) pool)
      (standing (suc i + j) pool) (next_lem i x pool s e ∙ ap (λ k. some (x, standing k pool)) on)
      (inside j (suc i) pool s (omega arith))
    ∙ ap₂ (λ t k. some (take (suc j) t, standing k pool)) (sym d) (omega arith)

-- On a pool that is started, whose next index is one of its loops': as many calls of getNextLoop
-- as there are loops return each loop once, from the next one round to the one before it, and
-- leave the pool as it was.
pub round_lem :
    (pool : EventLoopThreadPool)
    → pool.started ≡ true
    → pool.next < length pool.loops
    → take_loops (length pool.loops) pool
      ≡ some (drop pool.next pool.loops ++ take pool.next pool.loops, pool)
round_lem pool s h =
    let i : ℕ = pool.next in
    let j : ℕ = length pool.loops - i - 1 in
    let rest : take_loops i (standing 0 pool) ≡ some (take i pool.loops, pool) =
      inside i 0 pool s (omega arith)
      ∙ ap (λ k. some (take i pool.loops, standing k pool)) (omega arith) in
    to_end j i i (take i pool.loops) pool pool s (omega arith) rest (length pool.loops)
      (omega arith)
