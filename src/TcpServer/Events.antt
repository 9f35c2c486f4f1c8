-- ===== src/TcpServer/Events.antt =====
-- New connections, closed connections and the loops' turns in any order
-- (networker/net/TcpServer.cpp with networker/net/Acceptor.cpp).
use network_program_base_fra.Prelude.{
  ℕ, ◌+◌, ◌^◌, ◌≤◌, ◌<◌, ◌≡◌, ◌⊎◌, inl, inr, refl, sym, ap, ◌∙◌, subst, Bool, true, false, ◌||◌,
  some, length, ◌==◌, ==_iff, lt→ltb, Bool-cases, update, if◌then◌else◌, arith,
}
use network_program_base_fra.Connection.{
  State, connecting, connected, disconnecting, disconnected, is_connected, is_disconnecting,
}
use network_program_base_fra.ThreadPool.{EventLoopThreadPool}
use network_program_base_fra.TcpServer.{
  listens, establishes, removes, System, put, conn_name, remove_connection, new_connection,
  shutdown, handle_close, set_disconnected,
}
use network_program_base_fra.TcpServer.Names.{same_name-conn_name}
use network_program_base_fra.TcpServer.Queue.{one_if, update-Placed}
use network_program_base_fra.TcpServer.Valid.{
  Track, track, in_map, Idle, Fine, FineAt, Ready, ValidWith, IsValid, next_loop,
}
use network_program_base_fra.TcpServer.Steps.{moved, track_eq}
use network_program_base_fra.TcpServer.Functors.{one_self, at_state, run_in_loop_lem}

-- Whether the counter has room for another connection.
abbrev pub HasRoom : System → Type 0
HasRoom s = s.server.next_conn_id + 1 < 2 ^ 31

-- The server after its counter, its map and the new connection are set, with the functor that
-- establishes the connection in hand.
abbrev added : ℕ → EventLoopThreadPool → System → System
added io_loop pool s = record s {
  server = record s.server {
    thread_pool = pool;
    next_conn_id = s.server.next_conn_id + 1;
    connections =
        put (conn_name s.server.name s.server.ip_port s.server.next_conn_id)
          (some s.server.next_conn_id) s.server.connections;
  };
  states = update s.states s.server.next_conn_id connecting;
  loops = update s.loops s.server.next_conn_id io_loop;
  watching = update s.watching s.server.next_conn_id false;
}

in_map-added :
    (l a : ℕ) (p : EventLoopThreadPool) (s : System)
    → length s.server.ip_port ≤ 40
    → a < 2 ^ 31
    → s.server.next_conn_id < 2 ^ 31
    → in_map (added l p s) a ≡ (if a == s.server.next_conn_id then 1 else in_map s a)
in_map-added l a p s short h k = elim (Bool-cases (a == s.server.next_conn_id)) [
  | inl e ↦ rw (same_name-conn_name s.server.name s.server.ip_port a _ short h k, e) refl
  | inr e ↦ rw (same_name-conn_name s.server.name s.server.ip_port a _ short h k, e) refl
]

added-ValidWith :
    (l : ℕ) (p : EventLoopThreadPool) (s : System)
    → IsValid s
    → Ready p
    → HasRoom s
    → ValidWith (establishes s.server.next_conn_id) (added l p s)
added-ValidWith l p s v ready room = record {
  positive = omega arith;
  bounded = room;
  short = v.short;
  ready = ready;
  placed =
      let (e, r, d, g) = v.unborn s.server.next_conn_id (inr (omega arith)) in
      update-Placed s.server.base_loop s.loops s.server.next_conn_id l s.queued (omega arith)
        (omega arith) v.placed;
  tracked = λ a low high. elim (Bool-cases (a == s.server.next_conn_id)) [
    | inl e ↦
        subst
          (λ c.
            Fine (track (establishes s.server.next_conn_id) (added l p s) c)
              (in_map (added l p s) c))
          (sym ((==_iff a s.server.next_conn_id).0 e)) born
    | inr e ↦
        let below : a < 2 ^ 31 = omega arith in
        subst (λ m. Fine (track (establishes s.server.next_conn_id) (added l p s) a) m)
          (sym (in_map-added l a p s v.short below v.bounded ∙ rw e refl))
          (subst (λ t. Fine t (in_map s a)) (sym (away a e)) (v.tracked a low (older a e high)))
  ];
  unborn = λ a h. elim (Bool-cases (a == s.server.next_conn_id)) [
    | inl e ↦ absurd (apart a e h)
    | inr e ↦ subst Idle (sym (away a e)) (v.unborn a (earlier a h))
  ];
}
  where
    away :
        (a : ℕ)
        → (a == s.server.next_conn_id) ≡ false
        → track (establishes s.server.next_conn_id) (added l p s) a ≡ track listens s a
    away a e = track_eq _ _ (rw e refl) (omega (arith, ap one_if e)) refl refl refl (rw e refl)

    older :
        (a : ℕ)
        → (a == s.server.next_conn_id) ≡ false
        → a < s.server.next_conn_id + 1
        → a < s.server.next_conn_id
    older a e h = ground arith

    apart :
        (a : ℕ)
        → (a == s.server.next_conn_id) ≡ true
        → (a ≡ 0) ⊎ (s.server.next_conn_id + 1 ≤ a)
        → ⊥
    apart a e (inl h) = ground (arith, v.positive)
    apart a e (inr h) = ground arith

    earlier :
        (a : ℕ) → (a ≡ 0) ⊎ (s.server.next_conn_id + 1 ≤ a) → (a ≡ 0) ⊎ (s.server.next_conn_id ≤ a)
    earlier a (inl h) = inl h
    earlier a (inr h) = inr (omega arith)

    born :
        Fine
          (track (establishes s.server.next_conn_id) (added l p s) s.server.next_conn_id)
          (in_map (added l p s) s.server.next_conn_id)
    born =
        let id : ℕ = s.server.next_conn_id in
        let (e, r, d, g) = v.unborn id (inr (omega arith)) in
        at_state connecting _ _ (rw ((==_iff id id).1 refl) refl) (
          omega (arith, one_self id),
          r,
          d,
          g,
          in_map-added l id p s v.short v.bounded v.bounded ∙ rw ((==_iff id id).1 refl) refl,
        )

-- On a valid server whose counter has room, a new connection passes every assertion, takes the
-- place of none in the map, and leaves the server valid.
pub new_connection_lem :
    (s : System)
    → IsValid s
    → HasRoom s
    → (s' : System) × (new_connection s.server.base_loop s ≡ some s') × IsValid s'
unfolding new_connection
new_connection_lem s v room =
    let (l, p, e, ready) = next_loop s.server.thread_pool v.ready in
    let (s', f, w) =
      run_in_loop_lem s.server.base_loop l (establishes s.server.next_conn_id) (added l p s)
        (added-ValidWith l p s v ready room)
        (sym (rw ((==_iff s.server.next_conn_id s.server.next_conn_id).1 refl) refl)) in
    (s', rw ((==_iff s.server.base_loop s.server.base_loop).1 refl, e, lt→ltb _ _ room) f, w)

-- Whether a connection is one of the server's and is up or shutting down.
abbrev pub IsOpen : ℕ → System → Type 0
IsOpen a s =
    (0 < a)
    × (a < s.server.next_conn_id)
    × ((is_connected (s.states a) || is_disconnecting (s.states a)) ≡ true)

open_fine :
    (st : State) (t : Track) (m : ℕ)
    → (is_connected st || is_disconnecting st) ≡ true
    → FineAt st t m
    → Idle t × (m ≡ 1)
open_fine connecting t m h k = absurd (ground arith)
open_fine connected t m h k = k
open_fine disconnecting t m h k = k
open_fine disconnected t m h k = absurd (ground arith)

pub handle_close_lem :
    (a : ℕ) (s : System)
    → IsValid s
    → IsOpen a s
    → (s' : System) × (handle_close (s.loops a) a s ≡ some s') × IsValid s'
unfolding handle_close remove_connection
handle_close_lem a s v (low, high, h) =
    let closed : System = set_disconnected a s in
    let ((e, r, d, g), m) = open_fine (s.states a) _ _ h (v.tracked a low high) in
    let w : ValidWith (removes a) closed =
      moved listens (removes a) s closed v refl refl v.ready v.placed a low high
        (at_state disconnected _ _ (rw ((==_iff a a).1 refl) refl)
          (e, omega (arith, one_self a), omega (arith, one_self a), rw ((==_iff a a).1 refl) refl))
        (λ b k. track_eq _ _ (rw k refl) refl (omega (arith, ap one_if k)) refl refl (rw k refl))
        (λ b k j. refl) in
    let (s', f, x) = run_in_loop_lem (s.loops a) s.server.base_loop (removes a) closed w refl in
    (s', rw ((==_iff (s.loops a) (s.loops a)).1 refl, h) f, x)

pub shutdown-IsValid : (a : ℕ) (s : System) → IsValid s → IsOpen a s → IsValid (shutdown a s)
unfolding shutdown
shutdown-IsValid a s v (low, high, h) = go (is_connected (s.states a)) refl
  where
    go :
        (b : Bool)
        → is_connected (s.states a) ≡ b
        → IsValid (if b then record s { states = update s.states a disconnecting } else s)
    go true e =
        let ((n, r, d, g), m) = open_fine (s.states a) _ _ h (v.tracked a low high) in
        moved listens listens s (record s { states = update s.states a disconnecting }) v refl refl
          v.ready v.placed a low high
          (at_state disconnecting _ _ (rw ((==_iff a a).1 refl) refl) ((n, r, d, g), m))
          (λ b k. track_eq _ _ (rw k refl) refl refl refl refl refl) (λ b k j. refl)
    go false e = v
