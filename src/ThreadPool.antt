-- ===== src/ThreadPool.antt =====
-- networker/net/EventLoopThreadPool.cpp. A loop is a number. The loops that the new threads run
-- are an argument of `start`.
pub mod RoundRobin
mod Samples
use network_program_base_fra.Prelude.{
  ℕ, zero, suc, ◌+◌, ◌%◌, Bool, true, false, not, Option, none, some, List, [], ◌∷◌, ◌++◌, length,
  get_elem?, leb, ◌==◌, if◌then◌else◌, ◌>>=◌, ◌>>◌, assert,
}

pub record EventLoopThreadPool : Type 0 where
  pub base_loop : ℕ
  pub started : Bool
  pub num_threads : ℕ
  pub next : ℕ
  pub loops : List ℕ

unfoldable pub new : ℕ → EventLoopThreadPool
new base_loop = record {
  base_loop = base_loop;
  started = false;
  num_threads = 0;
  next = 0;
  loops = [];
}

unfoldable pub set_thread_num : ℕ → EventLoopThreadPool → EventLoopThreadPool
set_thread_num n pool = record pool { num_threads = n }

-- One new loop for each thread.
unfoldable pub start_loops : ℕ → (ℕ → ℕ) → List ℕ → List ℕ
start_loops zero thread_loop loops = loops
start_loops (suc n) thread_loop loops =
    let rest = start_loops n thread_loop loops in rest ++ thread_loop n ∷ []

unfoldable pub start : (ℕ → ℕ) → EventLoopThreadPool → Option EventLoopThreadPool
start thread_loop pool = do
  assert (not pool.started)
  some (record pool { started = true; loops = start_loops pool.num_threads thread_loop pool.loops })

-- The index after the loop that was taken.
abbrev pub advance : ℕ → ℕ → ℕ
advance next size = if leb size (next + 1) then 0 else next + 1

abbrev pub next_of : List ℕ → EventLoopThreadPool → Option (ℕ × EventLoopThreadPool)
next_of [] pool = some (pool.base_loop, pool)
next_of (l ∷ ls) pool = do
  loop ← get_elem? (l ∷ ls) pool.next
  some (loop, record pool { next = advance pool.next (length (l ∷ ls)) })

unfoldable pub get_next_loop : EventLoopThreadPool → Option (ℕ × EventLoopThreadPool)
get_next_loop pool = do assert pool.started; next_of pool.loops pool

abbrev pub hashed : ℕ → List ℕ → ℕ → Option ℕ
hashed hash_code [] base_loop = some base_loop
hashed hash_code (l ∷ ls) base_loop = get_elem? (l ∷ ls) (hash_code % length (l ∷ ls))

unfoldable pub get_loop_for_hash : ℕ → EventLoopThreadPool → Option ℕ
get_loop_for_hash hash_code pool = hashed hash_code pool.loops pool.base_loop

abbrev pub or_base : List ℕ → ℕ → List ℕ
or_base [] base_loop = base_loop ∷ []
or_base (l ∷ ls) base_loop = l ∷ ls

unfoldable pub get_all_loops : EventLoopThreadPool → Option (List ℕ)
get_all_loops pool = do assert pool.started; some (or_base pool.loops pool.base_loop)
