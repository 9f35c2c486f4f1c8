-- ===== src/ThreadPool/Samples.antt =====
-- The pool of networker/net/EventLoopThreadPool.cpp with three loops.
use network_program_base_fra.Prelude.{
  ◌+◌, ◌≡◌, refl, true, some, [], ◌∷◌, ◌++◌, length, take, drop, arith,
}
use network_program_base_fra.ThreadPool.{
  EventLoopThreadPool, new, set_thread_num, start, start_loops, get_loop_for_hash, get_all_loops,
}
use network_program_base_fra.ThreadPool.RoundRobin.{take_loops, round_lem}

abbrev three : EventLoopThreadPool
three = record {
  base_loop = 1;
  started = true;
  num_threads = 3;
  next = 0;
  loops = 10 ∷ 11 ∷ 12 ∷ [];
}

starts_three : start (λ i. 10 + i) (set_thread_num 3 (new 1)) ≡ some three
unfolding start set_thread_num new start_loops
starts_three = refl

hashes : get_loop_for_hash 5 three ≡ some 12
unfolding get_loop_for_hash
hashes = refl

alone : get_all_loops (record three { loops = [] }) ≡ some (1 ∷ [])
unfolding get_all_loops
alone = refl

abbrev second : EventLoopThreadPool
second = record three { next = 1 }

round_lem_example :
    take_loops (length second.loops) second
    ≡ some (drop second.next second.loops ++ take second.next second.loops, second)
round_lem_example = round_lem second refl (omega arith)
