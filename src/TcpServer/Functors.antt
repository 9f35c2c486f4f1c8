-- ===== src/TcpServer/Functors.antt =====
-- The functors of the server run, and keep what is known of its connections
-- (networker/net/TcpServer.cpp).
use network_program_base_fra.Prelude.{
  ℕ, ◌+◌, ◌^◌, ◌≤◌, ◌<◌, ◌≡◌, inl, inr, refl, sym, ap, ◌∙◌, subst, true, false, Option, none, some,
  List, ◌∷◌, length, ◌==◌, ==_iff, Bool-cases, Option-cases, update, if◌then◌else◌, arith,
}
use network_program_base_fra.Connection.{State, connecting, connected, disconnecting, disconnected}
use network_program_base_fra.Connector.Valid.{count}
use network_program_base_fra.TcpServer.{
  Functor, listens, establishes, removes, destroys, System, put, has, conn_name, queue_in_loop,
  listen, connect_established, connect_destroyed, remove_connection_in_loop, run_functor,
  run_in_loop, take_first, run_next,
}
use network_program_base_fra.TcpServer.Names.{same_name-conn_name}
use network_program_base_fra.TcpServer.Queue.{total, total-append, one_if, home}
use network_program_base_fra.TcpServer.Valid.{
  Track, track, in_map, held, Fine, FineAt, ValidWith, IsValid,
}
use network_program_base_fra.TcpServer.Steps.{
  moved, stays, track_eq, queue_in_loop-IsValid, take_first-ValidWith,
}

pub one_self : (b : ℕ) → one_if (b == b) ≡ 1
one_self b = ap one_if ((==_iff b b).1 refl)

-- A connection for which there is something to do is one of the server's.
alive :
    (f : Functor) (s : System) (b : ℕ)
    → ValidWith f s
    → 0 < (track f s b).to_establish + (track f s b).to_remove + (track f s b).to_destroy
    → (0 < b) × (b < s.server.next_conn_id)
alive f s b v h = (ground (arith, v.unborn b), ground (arith, v.unborn b))

waits_connecting :
    (st : State) (t : Track) (m : ℕ) → FineAt st t m → 0 < t.to_establish → st ≡ connecting
waits_connecting connecting t m k h = refl
waits_connecting connected t m k h = absurd (ground arith)
waits_connecting disconnecting t m k h = absurd (ground arith)
waits_connecting disconnected t m k h = absurd (ground arith)

waits_disconnected :
    (st : State) (t : Track) (m : ℕ)
    → FineAt st t m
    → 0 < t.to_remove + t.to_destroy
    → st ≡ disconnected
waits_disconnected connecting t m k h = absurd (ground arith)
waits_disconnected connected t m k h = absurd (ground arith)
waits_disconnected disconnecting t m k h = absurd (ground arith)
waits_disconnected disconnected t m k h = refl

pub at_state : (st : State) (t : Track) (m : ℕ) → t.state ≡ st → FineAt st t m → Fine t m
at_state st t m e k = subst (λ x. FineAt x t m) (sym e) k

pub from_state : {st : State} (t : Track) (m : ℕ) → t.state ≡ st → Fine t m → FineAt st t m
from_state t m e k = subst (λ x. FineAt x t m) e k

-- How many functors a functor stands for: itself, and the one that it queues.
abbrev pub work : Functor → ℕ
work listens = 1
work (establishes b) = 1
work (removes b) = 2
work (destroys b) = 1

abbrev pub Runs : Functor → System → Type 0
Runs f s =
    (s' : System) × (run_functor (home s.server.base_loop s.loops f) f s ≡ some s')
    × IsValid s'
    × (total work s'.queued < work f + total work s.queued)

same_thread : (l : ℕ) → (l == l) ≡ true
same_thread l = (==_iff l l).1 refl

run-listens : (s : System) → ValidWith listens s → Runs listens s
unfolding run_functor listen
run-listens s v =
    let s' : System = record s { server = record s.server { listenning = true } } in
    (
      s',
      rw (same_thread s.server.base_loop) refl,
      stays listens listens s s' v refl refl v.ready v.placed (λ a. refl) (λ a. refl),
      omega arith,
    )

run-establishes : (b : ℕ) (s : System) → ValidWith (establishes b) s → Runs (establishes b) s
unfolding run_functor connect_established
run-establishes b s v =
    let (low, high) = alive (establishes b) s b v (omega (arith, one_self b)) in
    let fine : Fine (track (establishes b) s b) (in_map s b) = v.tracked b low high in
    let state : s.states b ≡ connecting = waits_connecting _ _ _ fine (omega (arith, one_self b)) in
    let (e, r, d, g, m) = from_state _ _ state fine in
    let s' : System = record s {
      states = update s.states b connected;
      watching = update s.watching b true;
    } in
    (
      s',
      rw (same_thread (s.loops b), state) refl,
      moved (establishes b) listens s s' v refl refl v.ready v.placed b low high
          (at_state connected _ _ (rw ((==_iff b b).1 refl) refl)
            ((omega (arith, one_self b), omega arith, omega arith, g), m))
          (λ a h. track_eq _ _ (rw h refl) (omega (arith, ap one_if h)) refl refl refl (rw h refl))
          (λ a k h. refl),
      omega arith,
    )

held-has : (o : Option ℕ) → held o ≡ 1 → has o ≡ true
held-has none h = absurd (ground arith)
held-has (some a) h = refl

abbrev erased : ℕ → System → System
erased b s = record s {
  server = record s.server {
    connections = put (conn_name s.server.name s.server.ip_port b) none s.server.connections;
  };
}

-- What the map has after a connection's name was taken out.
in_map-erased :
    (a b : ℕ) (s : System)
    → length s.server.ip_port ≤ 40
    → a < 2 ^ 31
    → b < 2 ^ 31
    → in_map (erased b s) a ≡ (if a == b then 0 else in_map s a)
in_map-erased a b s short h k = elim (Bool-cases (a == b)) [
  | inl e ↦ rw (same_name-conn_name s.server.name s.server.ip_port a b short h k, e) refl
  | inr e ↦ rw (same_name-conn_name s.server.name s.server.ip_port a b short h k, e) refl
]

run-removes : (b : ℕ) (s : System) → ValidWith (removes b) s → Runs (removes b) s
unfolding run_functor remove_connection_in_loop queue_in_loop
run-removes b s v =
    let (low, high) = alive (removes b) s b v (omega (arith, one_self b)) in
    let fine : Fine (track (removes b) s b) (in_map s b) = v.tracked b low high in
    let state : s.states b ≡ disconnected =
      waits_disconnected _ _ _ fine (omega (arith, one_self b)) in
    let (e, w, m, q) = from_state _ _ state fine in
    let below : b < 2 ^ 31 = omega (arith, v.bounded) in
    let here : in_map (erased b s) b ≡ 0 =
      in_map-erased b b s v.short below below ∙ rw ((==_iff b b).1 refl) refl in
    (
      queue_in_loop (s.loops b) (destroys b) (erased b s),
      rw
          (
            same_thread s.server.base_loop,
            held-has (s.server.connections (conn_name s.server.name s.server.ip_port b))
                (omega (arith, one_self b)),
          )
          refl,
      queue_in_loop-IsValid (s.loops b) (destroys b) (erased b s)
          (moved (removes b) (destroys b) s (erased b s) v refl refl v.ready v.placed b low high
            (at_state disconnected _ _ state
              (omega arith, omega (arith, one_self b), omega (arith, one_self b), q))
            (λ a h.
              track_eq _ _ refl refl (omega (arith, ap one_if h)) (omega (arith, ap one_if h)) refl
                refl)
            (λ a k h. in_map-erased a b s v.short k below ∙ rw h refl))
          refl,
      omega (arith, total-append work s.queued (s.loops b) (destroys b)),
    )

count_here : (b : ℕ) (xs : List ℕ) → count b (b ∷ xs) ≡ 1 + count b xs
count_here b xs = rw ((==_iff b b).1 refl) refl

count_away : (a b : ℕ) (xs : List ℕ) → (a == b) ≡ false → count a (b ∷ xs) ≡ count a xs
count_away a b xs h = ground arith

run-destroys : (b : ℕ) (s : System) → ValidWith (destroys b) s → Runs (destroys b) s
unfolding run_functor connect_destroyed
run-destroys b s v =
    let (low, high) = alive (destroys b) s b v (omega (arith, one_self b)) in
    let fine : Fine (track (destroys b) s b) (in_map s b) = v.tracked b low high in
    let state : s.states b ≡ disconnected =
      waits_disconnected _ _ _ fine (omega (arith, one_self b)) in
    let (e, w, m, q) = from_state _ _ state fine in
    let s' : System = record s { destroyed = b ∷ s.destroyed } in
    (
      s',
      rw (same_thread (s.loops b), state, q) refl,
      moved (destroys b) listens s s' v refl refl v.ready v.placed b low high
          (at_state disconnected _ _ state (
            omega arith,
            omega (arith, one_self b, count_here b s.destroyed),
            omega (arith, one_self b),
            q,
          ))
          (λ a h.
            track_eq _ _ refl refl refl (omega (arith, ap one_if h)) (count_away a b s.destroyed h)
              refl)
          (λ a k h. refl),
      omega arith,
    )

pub run_functor_lem : (f : Functor) (s : System) → ValidWith f s → Runs f s
run_functor_lem listens s v = run-listens s v
run_functor_lem (establishes b) s v = run-establishes b s v
run_functor_lem (removes b) s v = run-removes b s v
run_functor_lem (destroys b) s v = run-destroys b s v

-- On a valid server, a loop runs the first of its functors without a failed assertion, and the
-- server is valid afterwards.
pub run_next_lem :
    (l : ℕ) (s : System) → IsValid s → (s' : System) × (run_next l s ≡ some s') × IsValid s'
unfolding run_next
run_next_lem l s v = elim (Option-cases (take_first l s.queued)) [
  | inl e ↦ (s, rw e refl, v)
  | inr ((f, rest), e) ↦
      let (v', here) = take_first-ValidWith l f rest s v e in
      let (s', h, w, k) = run_functor_lem f (record s { queued = rest }) v' in
      let ran : run_functor l f (record s { queued = rest }) ≡ some s' =
        ap (λ t. run_functor t f (record s { queued = rest })) here ∙ h in
      (s', rw e ran, w)
]

-- A functor that is given to the loop where it is to run.
pub run_in_loop_lem :
    (t l : ℕ) (f : Functor) (s : System)
    → ValidWith f s
    → l ≡ home s.server.base_loop s.loops f
    → (s' : System) × (run_in_loop t l f s ≡ some s') × IsValid s'
unfolding run_in_loop
run_in_loop_lem t l f s v here = elim (Bool-cases (t == l)) [
  | inl e ↦
      let (s', h, w, k) = run_functor_lem f s v in
      let ran : run_functor t f s ≡ some s' =
        ap (λ u. run_functor u f s) ((==_iff t l).0 e ∙ here) ∙ h in
      (s', rw e ran, w)
  | inr e ↦ (queue_in_loop l f s, rw e refl, queue_in_loop-IsValid l f s v here)
]
