-- ===== src/TcpServer/Samples.antt =====
-- A server with one thread and its first connection, for the theorems about
-- networker/net/TcpServer.cpp.
use network_program_base_fra.Prelude.{
  ℕ, ◌<◌, ◌≡◌, ◌⊎◌, inl, inr, refl, true, false, ==_iff, List, none, some, [], ◌∷◌, update, arith,
}
use network_program_base_fra.Connection.{connecting}
use network_program_base_fra.Connector.Valid.{count}
use network_program_base_fra.ThreadPool.{EventLoopThreadPool, get_next_loop}
use network_program_base_fra.TcpServer.{
  Functor, take_first, establishes, System, Name, put, conn_name, queue_in_loop, new_connection,
  accepted, handle_read, run_in_loop,
}
use network_program_base_fra.TcpServer.Valid.{in_map, IsValid}
use network_program_base_fra.TcpServer.Run.{
  accepts, runs, step, Reaches, stop, next, started, server_lem, drain, Schedule, Finds, Settled,
  drain_lem,
}

abbrev pool : EventLoopThreadPool
pool = record { base_loop = 0; started = true; num_threads = 1; next = 0; loops = 1 ∷ [] }

-- "echo" at "10.0.0.1:80"
abbrev name : Name
name = 101 ∷ 99 ∷ 104 ∷ 111 ∷ []

abbrev ip_port : Name
ip_port = 49 ∷ 48 ∷ 46 ∷ 48 ∷ 46 ∷ 48 ∷ 46 ∷ 49 ∷ 58 ∷ 56 ∷ 48 ∷ []

abbrev empty : System
empty = started name ip_port 0 pool

abbrev one : System
one = record empty {
  server = record empty.server {
    next_conn_id = 2;
    connections = put (conn_name name ip_port 1) (some 1) (λ n. none);
  };
  states = update (λ a. connecting) 1 connecting;
  loops = update (λ a. 0) 1 1;
  watching = update (λ a. false) 1 false;
  queued = (1, establishes 1) ∷ [];
}

one_lem : step (accepts accepted) empty ≡ some one
unfolding step handle_read new_connection run_in_loop queue_in_loop get_next_loop
one_lem = refl

one-Reaches : Reaches empty one
one-Reaches = next (accepts accepted) stop (omega arith) one_lem

server_lem_example : IsValid one × ((u : System) × (step (runs 1) one ≡ some u) × IsValid u)
server_lem_example =
    server_lem name ip_port 0 pool one (runs 1) (omega arith) (refl, inr (omega arith)) one-Reaches
      tt

first : (l : ℕ) (f : Functor) (fs : List (ℕ × Functor)) → take_first l ((l, f) ∷ fs) ≡ some (f, fs)
unfolding take_first
first l f fs = rw ((==_iff l l).1 refl) refl

-- The loop of the functor that was queued first.
abbrev first_loop : List (ℕ × Functor) → ℕ
first_loop [] = 0
first_loop ((l, f) ∷ fs) = l

abbrev oldest : Schedule
oldest n s = first_loop s.queued

oldest-Finds : Finds oldest
oldest-Finds n s = found s.queued
  where
    found :
        (fs : List (ℕ × Functor))
        → (fs ≡ [])
          ⊎ ((q : Functor × List (ℕ × Functor)) × (take_first (first_loop fs) fs ≡ some q))
    found [] = inl refl
    found ((l, f) ∷ fs) = inr ((f, fs), first l f fs)

drain_lem_example :
    (s' : System) × (drain oldest 1 one ≡ some s')
    × (s'.queued ≡ [])
    × ((a : ℕ)
        → 0 < a
        → a < s'.server.next_conn_id
        → Settled (s'.states a) (count a s'.destroyed) (in_map s' a))
drain_lem_example = drain_lem oldest one oldest-Finds server_lem_example.0
