-- ===== src/TcpServer/Valid.antt =====
-- Where the connections of networker/net/TcpServer.cpp stand: each has one functor on its way at
-- most, and it is in the map until the functor that removes it has run.
use network_program_base_fra.Prelude.{
  ℕ, zero, suc, ◌+◌, ◌^◌, ◌≤◌, ◌<◌, ◌≡◌, ◌⊎◌, inl, inr, refl, sym, subst, Bool, true, false, Option,
  none, some, List, [], ◌∷◌, length, get_elem?, arith,
}
use network_program_base_fra.Connection.{State, connecting, connected, disconnecting, disconnected}
use network_program_base_fra.Connector.Valid.{count}
use network_program_base_fra.ThreadPool.{EventLoopThreadPool, get_next_loop, advance}
use network_program_base_fra.TcpServer.{Functor, listens, System, conn_name}
use network_program_base_fra.TcpServer.Queue.{is_establish, is_remove, is_destroy, total, Placed}

abbrev pub held : Option ℕ → ℕ
held none = 0
held (some a) = 1

-- Of one connection: its functors that are queued or in hand, how often it was destroyed, and
-- whether its channel asks for anything.
pub record Track : Type 0 where
  pub state : State
  pub to_establish : ℕ
  pub to_remove : ℕ
  pub to_destroy : ℕ
  pub gone : ℕ
  pub watching : Bool

abbrev pub track : Functor → System → ℕ → Track
track f s a = record {
  state = s.states a;
  to_establish = is_establish a f + total (is_establish a) s.queued;
  to_remove = is_remove a f + total (is_remove a) s.queued;
  to_destroy = is_destroy a f + total (is_destroy a) s.queued;
  gone = count a s.destroyed;
  watching = s.watching a;
}

abbrev pub in_map : System → ℕ → ℕ
in_map s a = held (s.server.connections (conn_name s.server.name s.server.ip_port a))

abbrev pub Idle : Track → Type 0
Idle t = (t.to_establish ≡ 0) × (t.to_remove ≡ 0) × (t.to_destroy ≡ 0) × (t.gone ≡ 0)

abbrev pub FineAt : State → Track → ℕ → Type 0
FineAt connecting t m =
    (t.to_establish ≡ 1) × (t.to_remove ≡ 0) × (t.to_destroy ≡ 0) × (t.gone ≡ 0) × (m ≡ 1)
FineAt connected t m = Idle t × (m ≡ 1)
FineAt disconnecting t m = Idle t × (m ≡ 1)
FineAt disconnected t m =
    (t.to_establish ≡ 0)
    × (t.to_remove + t.to_destroy + t.gone ≡ 1)
    × (m ≡ t.to_remove)
    × (t.watching ≡ false)

abbrev pub Fine : Track → ℕ → Type 0
Fine t m = FineAt t.state t m

abbrev pub Ready : EventLoopThreadPool → Type 0
Ready p = (p.started ≡ true) × ((p.loops ≡ []) ⊎ (p.next < length p.loops))

-- The server's state while the functor `f`, taken from the queue, has still to run. The queued
-- functors are in the loops where they are to run.
pub record ValidWith (f : Functor) (s : System) : Type 0 where
  pub positive : 0 < s.server.next_conn_id
  pub bounded : s.server.next_conn_id < 2 ^ 31
  pub short : length s.server.ip_port ≤ 40
  pub ready : Ready s.server.thread_pool
  pub placed : Placed s.server.base_loop s.loops s.queued
  pub tracked : (a : ℕ) → 0 < a → a < s.server.next_conn_id → Fine (track f s a) (in_map s a)
  pub unborn : (a : ℕ) → (a ≡ 0) ⊎ (s.server.next_conn_id ≤ a) → Idle (track f s a)

abbrev pub IsValid : System → Type 0
IsValid s = ValidWith listens s

nth : (xs : List ℕ) (i : ℕ) → i < length xs → (x : ℕ) × (get_elem? xs i ≡ some x)
nth [] i h = absurd (omega arith)
nth (x ∷ xs) zero h = (x, refl)
nth (x ∷ xs) (suc i) h = nth xs i (omega arith)

advance-inside : (i n : ℕ) → i < n → advance i n < n
advance-inside i n h = ground arith

-- The pool hands out a loop.
pub next_loop :
    (p : EventLoopThreadPool)
    → Ready p
    → (l : ℕ) × (p' : EventLoopThreadPool) × (get_next_loop p ≡ some (l, p')) × Ready p'
unfolding get_next_loop
next_loop p (s, h) = go p.loops refl h
  where
    go :
        (ls : List ℕ)
        → p.loops ≡ ls
        → (ls ≡ []) ⊎ (p.next < length ls)
        → (l : ℕ) × (p' : EventLoopThreadPool) × (get_next_loop p ≡ some (l, p')) × Ready p'
    go [] e h = (p.base_loop, p, rw (s, e) refl, (s, inl e))
    go (l ∷ ls) e (inl h) = absurd (ground arith)
    go (l ∷ ls) e (inr h) =
        let (x, f) = nth (l ∷ ls) p.next h in
        (
          x,
          record p { next = advance p.next (length (l ∷ ls)) },
          rw (s, e, f) refl,
          (
            s,
            inr (
                subst (λ xs. advance p.next (length (l ∷ ls)) < length xs) (sym e)
                  (advance-inside p.next (length (l ∷ ls)) h)),
          ),
        )
