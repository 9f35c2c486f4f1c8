-- ===== src/TcpServer/Start.antt =====
-- Starting a server (networker/net/TcpServer.cpp) before it accepts connections.
use network_program_base_fra.Prelude.{
  ℕ, zero, suc, ◌<◌, ◌≡◌, ◌⊎◌, inl, inr, refl, true, some, [], ◌∷◌, length, length-append, ==_iff,
  arith,
}
use network_program_base_fra.ThreadPool
use network_program_base_fra.ThreadPool.{EventLoopThreadPool, start_loops}
use network_program_base_fra.TcpServer.{
  Name, new, set_thread_num, start, run_in_loop, run_functor, listen,
}
use network_program_base_fra.TcpServer.Valid.{Ready}
use network_program_base_fra.TcpServer.Run.{started}

some_or_none :
    (n : ℕ) (thread_loop : ℕ → ℕ)
    → (start_loops n thread_loop [] ≡ []) ⊎ (0 < length (start_loops n thread_loop []))
unfolding start_loops
some_or_none zero thread_loop = inl refl
some_or_none (suc n) thread_loop =
    inr (omega (arith, length-append (start_loops n thread_loop []) (thread_loop n ∷ [])))

-- A new server that is told its number of threads and started in its loop's thread is a started
-- server without connections, whose pool is ready; to start it again changes nothing.
start_lem :
    (name ip_port : Name) (base n again : ℕ) (thread_loop : ℕ → ℕ)
    → (pool : EventLoopThreadPool) × Ready pool
      × (start base thread_loop (set_thread_num n (new name ip_port base))
          ≡ some (started name ip_port base pool))
      × (start again thread_loop (started name ip_port base pool)
          ≡ some (started name ip_port base pool))
unfolding start set_thread_num new ThreadPool.new ThreadPool.set_thread_num ThreadPool.start
    run_in_loop run_functor listen
start_lem name ip_port base n again thread_loop = (
  record {
    base_loop = base;
    started = true;
    num_threads = n;
    next = 0;
    loops = start_loops n thread_loop [];
  },
  (refl, some_or_none n thread_loop),
  rw ((==_iff base base).1 refl) refl,
  refl,
)
