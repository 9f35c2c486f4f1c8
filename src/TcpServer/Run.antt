-- ===== src/TcpServer/Run.antt =====
-- Every order of new connections, closed connections and turns of the loops, and what is left when
-- the loops have nothing to do (networker/net/TcpServer.cpp).
use network_program_base_fra.Prelude.{
  ℕ, zero, suc, ◌+◌, ◌≤◌, ◌<◌, ◌≡◌, ◌⊎◌, inl, inr, refl, sym, ap, ◌∙◌, subst, true, false, Option,
  none, some, some_inj, List, [], ◌∷◌, length, ==_iff, ◌>>=◌, arith,
}
use network_program_base_fra.Connection.{State, connecting, connected, disconnecting, disconnected}
use network_program_base_fra.Connector.Valid.{count}
use network_program_base_fra.ThreadPool.{EventLoopThreadPool}
use network_program_base_fra.TcpServer.{
  Functor, listens, establishes, removes, destroys, System, Name, run_functor, Accepted, accepted,
  failed, handle_read, shutdown, handle_close, take_first, run_taken, run_next,
}
use network_program_base_fra.TcpServer.Queue.{
  is_establish, is_remove, is_destroy, total, total-take_first,
}
use network_program_base_fra.TcpServer.Valid.{Track, in_map, FineAt, Ready, IsValid}
use network_program_base_fra.TcpServer.Steps.{take_first-ValidWith}
use network_program_base_fra.TcpServer.Functors.{work, run_functor_lem, run_next_lem}
use network_program_base_fra.TcpServer.Events.{
  HasRoom, IsOpen, new_connection_lem, handle_close_lem, shutdown-IsValid,
}

pub data Event : Type 0 where
  accepts : Accepted → Event
  closes shuts runs : ℕ → Event

-- A channel calls its handlers in the thread of its loop.
unfoldable pub step : Event → System → Option System
step (accepts r) s = handle_read s.server.base_loop r s
step (closes a) s = handle_close (s.loops a) a s
step (shuts a) s = some (shutdown a s)
step (runs l) s = run_next l s

-- A connection closes or shuts down only while it is open; the counter is not at its end.
abbrev pub Allowed : Event → System → Type 0
Allowed (accepts r) s = HasRoom s
Allowed (closes a) s = IsOpen a s
Allowed (shuts a) s = IsOpen a s
Allowed (runs l) s = Unit

pub data Reaches (s : System) : System → Type 0 where
  stop : Reaches s s
  next : {t u : System} (e : Event) → Reaches s t → Allowed e t → step e t ≡ some u → Reaches s u

-- A server that was started and has no connection yet.
abbrev pub started : Name → Name → ℕ → EventLoopThreadPool → System
started name ip_port base pool = record {
  server = record {
    name = name;
    ip_port = ip_port;
    base_loop = base;
    next_conn_id = 1;
    started = 1;
    thread_pool = pool;
    listenning = true;
    connections = λ n. none;
  };
  states = λ a. connecting;
  loops = λ a. base;
  watching = λ a. false;
  queued = [];
  destroyed = [];
}

started-IsValid :
    (name ip_port : Name) (base : ℕ) (pool : EventLoopThreadPool)
    → length ip_port ≤ 40
    → Ready pool
    → IsValid (started name ip_port base pool)
started-IsValid name ip_port base pool short ready = record {
  positive = omega arith;
  bounded = omega arith;
  short = short;
  ready = ready;
  placed = tt;
  tracked = λ a low high. absurd (omega arith);
  unborn = λ a h. (omega arith, omega arith, omega arith, refl);
}

step_lem :
    (e : Event) (s : System)
    → IsValid s
    → Allowed e s
    → (s' : System) × (step e s ≡ some s') × IsValid s'
unfolding step handle_read
step_lem (accepts accepted) s v h = new_connection_lem s v h
step_lem (accepts failed) s v h =
    (s, rw ((==_iff s.server.base_loop s.server.base_loop).1 refl) refl, v)
step_lem (closes a) s v h = handle_close_lem a s v h
step_lem (shuts a) s v h = (shutdown a s, refl, shutdown-IsValid a s v h)
step_lem (runs l) s v h = run_next_lem l s v

reaches-IsValid : {s t : System} → IsValid s → Reaches s t → IsValid t
reaches-IsValid v stop = v
reaches-IsValid v (next {t} {u} e r h k) =
    let (u', f, w) = step_lem e t (reaches-IsValid v r) h in subst IsValid (some_inj (sym f ∙ k)) w

-- A server is started with an address of at most 40 bytes and a pool that has started and whose
-- next loop exists. After any events in any order, each possible when it happens (a new connection
-- while the counter has room, a close or a shutdown of an open connection, a turn of a loop), the
-- next possible event fails no assertion: each functor and handler runs in the thread of its loop,
-- finds the connection in the state and in the map as it expects, and a channel that is removed
-- asks for nothing. The states before and after it are valid: a connection
-- has at most one functor on its way, it is established once before anything else, it is in the
-- map until the functor that removes it has run, it is destroyed once at most and after that, and
-- every functor is queued in the loop where it is to run.
pub server_lem :
    (name ip_port : Name) (base : ℕ) (pool : EventLoopThreadPool) (t : System) (e : Event)
    → length ip_port ≤ 40
    → Ready pool
    → Reaches (started name ip_port base pool) t
    → Allowed e t
    → IsValid t × ((u : System) × (step e t ≡ some u) × IsValid u)
server_lem name ip_port base pool t e short ready r h =
    let v : IsValid t = reaches-IsValid (started-IsValid name ip_port base pool short ready) r in
    (v, step_lem e t v h)

abbrev pub Schedule : Type 0
Schedule = ℕ → System → ℕ

abbrev turn : List (ℕ × Functor) → ℕ → (System → Option System) → System → Option System
turn [] loop k s = some s
turn (f ∷ fs) loop k s = run_next loop s >>= k

-- The loops take turns, as a schedule says, until no functor is left.
unfoldable pub drain : Schedule → ℕ → System → Option System
drain pick zero s = some s
drain pick (suc n) s = turn s.queued (pick n s) (drain pick n) s

-- The schedule picks a loop that has a functor when one is left.
abbrev pub Finds : Schedule → Type 0
Finds pick =
    (n : ℕ) (s : System)
    → (s.queued ≡ [])
      ⊎ ((q : Functor × List (ℕ × Functor)) × (take_first (pick n s) s.queued ≡ some q))

-- A connection with nothing left to do for it: it is up and in the map, or closed, out of the map
-- and destroyed once.
abbrev pub Settled : State → ℕ → ℕ → Type 0
Settled connecting gone m = ⊥
Settled connected gone m = (gone ≡ 0) × (m ≡ 1)
Settled disconnecting gone m = (gone ≡ 0) × (m ≡ 1)
Settled disconnected gone m = (gone ≡ 1) × (m ≡ 0)

settled :
    (st : State) (t : Track) (m : ℕ)
    → FineAt st t m
    → t.to_establish ≡ 0
    → t.to_remove ≡ 0
    → t.to_destroy ≡ 0
    → Settled st t.gone m
settled connecting t m k e r d = ground arith
settled connected t m ((a, b, c, g), h) e r d = (g, h)
settled disconnecting t m ((a, b, c, g), h) e r d = (g, h)
settled disconnected t m (a, b, c, w) e r d = (omega arith, omega arith)

no_work : (fs : List (ℕ × Functor)) → total work fs ≤ 0 → fs ≡ []
no_work [] h = refl
no_work ((l, listens) ∷ fs) h = absurd (omega arith)
no_work ((l, establishes b) ∷ fs) h = absurd (omega arith)
no_work ((l, removes b) ∷ fs) h = absurd (omega arith)
no_work ((l, destroys b) ∷ fs) h = absurd (omega arith)

abbrev Drains : Schedule → ℕ → System → Type 0
Drains pick n s = (s' : System) × (drain pick n s ≡ some s') × IsValid s' × (s'.queued ≡ [])

taken_turn :
    (fs : List (ℕ × Functor)) (l : ℕ) (q : Functor × List (ℕ × Functor))
    (k : System → Option System) (s : System)
    → take_first l fs ≡ some q
    → turn fs l k s ≡ (run_next l s >>= k)
unfolding take_first
taken_turn [] l q k s e = absurd (ground arith)
taken_turn (f ∷ fs) l q k s e = refl

drain_valid :
    (pick : Schedule) (n : ℕ) (s : System)
    → Finds pick
    → IsValid s
    → total work s.queued ≤ n
    → Drains pick n s
unfolding drain run_next
drain_valid pick zero s finds v h = (s, refl, v, no_work s.queued h)
drain_valid pick (suc n) s finds v h = elim (finds n s) [
  | inl e ↦ (s, ap (λ fs. turn fs (pick n s) (drain pick n) s) e, v, e)
  | inr ((f, rest), e) ↦
      let l : ℕ = pick n s in
      let (w, here) = take_first-ValidWith l f rest s v e in
      let (t, g, x, less) = run_functor_lem f (record s { queued = rest }) w in
      let all : total work s.queued ≡ work f + total work rest =
        total-take_first work l s.queued rest f e in
      let (s', k, y, q) = drain_valid pick n t finds x (omega arith) in
      let ran : run_taken l (take_first l s.queued) s ≡ some t =
        ap (λ o. run_taken l o s) e
        ∙ ap (λ m. run_functor m f (record s { queued = rest })) here
        ∙ g in
      (
        s',
        taken_turn s.queued l (f, rest) (drain pick n) s e ∙ ap (λ o. o >>= drain pick n) ran ∙ k,
        y,
        q,
      )
]

-- When no new events come, the loops take turns in any order in which each turn is that of a loop
-- that has a functor. On a valid server no assertion fails in them, and they run out of functors
-- within as many turns as there are functors, those that remove a connection counted twice. Then
-- every connection is up and in the map, or it was closed, is out of the map and has been destroyed
-- once.
pub drain_lem :
    (pick : Schedule) (s : System)
    → Finds pick
    → IsValid s
    → (s' : System) × (drain pick (total work s.queued) s ≡ some s')
      × (s'.queued ≡ [])
      × ((a : ℕ)
          → 0 < a
          → a < s'.server.next_conn_id
          → Settled (s'.states a) (count a s'.destroyed) (in_map s' a))
drain_lem pick s finds v =
    let (s', e, w, q) = drain_valid pick (total work s.queued) s finds v (omega arith) in
    let idle : (f : Functor → ℕ) → total f s'.queued ≡ 0 = λ f. ap (total f) q in
    (
      s',
      e,
      q,
      λ a low high.
          settled _ _ _ (w.tracked a low high) (omega (arith, idle (is_establish a)))
            (omega (arith, idle (is_remove a))) (omega (arith, idle (is_destroy a))),
    )
