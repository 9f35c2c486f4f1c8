-- ===== src/TcpServer.antt =====
-- networker/net/TcpServer.cpp with networker/net/Acceptor.cpp. The loops' queues are one list of
-- functors, each with its loop; the functors of one loop run in their order, and the loops take
-- turns in any order. A functor runs in the thread of its loop, and `none` is a failed assertion,
-- `assertInLoopThread` among them. A connection is the number in its name. Of a connection the
-- server's model has the state, the loop, whether its channel asks for anything, and whether it
-- was destroyed.
pub mod Names
pub mod Queue
pub mod Valid
pub mod Steps
pub mod Functors
pub mod Events
pub mod Run
pub mod Start
mod Samples
use network_program_base_fra.Prelude.{
  ℕ, ◌+◌, ◌^◌, Bool, true, false, not, ◌&&◌, ◌||◌, Option, none, some, List, [], ◌∷◌, ◌++◌, take,
  ltb, ◌==◌, if◌then◌else◌, ◌>>=◌, ◌>>◌, assert, update,
}
use network_program_base_fra.Prelude.Int.{pos, negsuc, ℤ}
use network_program_base_fra.LogStream.{convert}
use network_program_base_fra.Connection.{
  State, connecting, connected, disconnected, disconnecting, is_connecting, is_connected,
  is_disconnecting,
}
use network_program_base_fra.ThreadPool
use network_program_base_fra.ThreadPool.{EventLoopThreadPool, get_next_loop}

abbrev pub Name : Type 0
Name = List ℕ

unfoldable pub same_name : Name → Name → Bool
same_name [] [] = true
same_name [] (d ∷ ds) = false
same_name (c ∷ cs) [] = false
same_name (c ∷ cs) (d ∷ ds) = c == d && same_name cs ds

-- `connections_`, and its `[name] = conn` and `erase`.
abbrev pub ConnectionMap : Type 0
ConnectionMap = Name → Option ℕ

abbrev pub put : Name → Option ℕ → ConnectionMap → ConnectionMap
put n entry m k = if same_name k n then entry else m k

abbrev pub has : Option ℕ → Bool
has none = false
has (some a) = true

pub data Functor : Type 0 where
  listens : Functor
  establishes removes destroys : ℕ → Functor

pub record TcpServer : Type 0 where
  pub name : Name
  pub ip_port : Name
  pub base_loop : ℕ
  pub next_conn_id : ℕ
  pub started : ℕ
  pub thread_pool : EventLoopThreadPool
  pub listenning : Bool
  pub connections : ConnectionMap

pub record System : Type 0 where
  pub server : TcpServer
  pub states : ℕ → State
  pub loops : ℕ → ℕ
  pub watching : ℕ → Bool
  pub queued : List (ℕ × Functor)
  pub destroyed : List ℕ

-- "%d"
abbrev or_empty : Option Name → Name
or_empty none = []
or_empty (some cs) = cs

abbrev pub decimal : ℕ → Name
decimal n = or_empty (convert (pos n))

-- `snprintf` of "-%s#%d" into 64 bytes, of which the last is 0.
unfoldable pub conn_name : Name → Name → ℕ → Name
conn_name name ip_port id = name ++ take 63 (45 ∷ ip_port ++ 35 ∷ decimal id)

unfoldable pub queue_in_loop : ℕ → Functor → System → System
queue_in_loop loop f s = record s { queued = s.queued ++ (loop, f) ∷ [] }

-- `Acceptor::listen`
unfoldable pub listen : ℕ → System → Option System
listen thread s = do
  assert (thread == s.server.base_loop)
  some (record s { server = record s.server { listenning = true } })

unfoldable pub connect_established : ℕ → ℕ → System → Option System
connect_established thread a s = do
  assert (thread == s.loops a)
  assert (is_connecting (s.states a))
  some (record s { states = update s.states a connected; watching = update s.watching a true })

-- `setState(kDisconnected)` and `channel_->disableAll()`
abbrev pub set_disconnected : ℕ → System → System
set_disconnected a s = record s {
  states = update s.states a disconnected;
  watching = update s.watching a false;
}

-- `channel_->remove()` asserts that the channel asks for nothing.
abbrev pub remove_channel : ℕ → System → Option System
remove_channel a s = do assert (not (s.watching a)); some (record s { destroyed = a ∷ s.destroyed })

unfoldable pub connect_destroyed : ℕ → ℕ → System → Option System
connect_destroyed thread a s = do
  assert (thread == s.loops a)
  remove_channel a (if is_connected (s.states a) then set_disconnected a s else s)

unfoldable pub remove_connection_in_loop : ℕ → ℕ → System → Option System
remove_connection_in_loop thread a s =
    let n : Name = conn_name s.server.name s.server.ip_port a in
    do
      assert (thread == s.server.base_loop)
      assert (has (s.server.connections n))
      let erased : System = record s {
        server = record s.server { connections = put n none s.server.connections };
      }
      some (queue_in_loop (s.loops a) (destroys a) erased)

-- A functor in the thread of the loop that runs it.
unfoldable pub run_functor : ℕ → Functor → System → Option System
run_functor thread listens s = listen thread s
run_functor thread (establishes a) s = connect_established thread a s
run_functor thread (removes a) s = remove_connection_in_loop thread a s
run_functor thread (destroys a) s = connect_destroyed thread a s

unfoldable pub run_in_loop : ℕ → ℕ → Functor → System → Option System
run_in_loop thread loop f s =
    if thread == loop then run_functor thread f s else some (queue_in_loop loop f s)

unfoldable pub remove_connection : ℕ → ℕ → System → Option System
remove_connection thread a s = run_in_loop thread s.server.base_loop (removes a) s

unfoldable pub new : Name → Name → ℕ → System
new name ip_port base = record {
  server = record {
    name = name;
    ip_port = ip_port;
    base_loop = base;
    next_conn_id = 1;
    started = 0;
    thread_pool = ThreadPool.new base;
    listenning = false;
    connections = λ n. none;
  };
  states = λ a. connecting;
  loops = λ a. base;
  watching = λ a. false;
  queued = [];
  destroyed = [];
}

unfoldable pub set_thread_num : ℕ → System → System
set_thread_num n s = record s {
  server = record s.server { thread_pool = ThreadPool.set_thread_num n s.server.thread_pool };
}

-- `start` in the thread of a loop. The loops of the new threads are an argument.
unfoldable pub start : ℕ → (ℕ → ℕ) → System → Option System
start thread thread_loop s =
    if s.server.started == 0
    then (do
      pool ← ThreadPool.start thread_loop s.server.thread_pool
      assert (not s.server.listenning)
      run_in_loop thread s.server.base_loop listens
          (record s { server = record s.server { started = 1; thread_pool = pool } }))
    else some s

-- The counter is an `int`.
unfoldable pub new_connection : ℕ → System → Option System
new_connection thread s =
    let id : ℕ = s.server.next_conn_id in
    do
      assert (thread == s.server.base_loop)
      (io_loop, pool) ← get_next_loop s.server.thread_pool
      assert (ltb (id + 1) (2 ^ 31))
      run_in_loop thread io_loop (establishes id) (record s {
        server = record s.server {
          thread_pool = pool;
          next_conn_id = id + 1;
          connections =
              put (conn_name s.server.name s.server.ip_port id) (some id) s.server.connections;
        };
        states = update s.states id connecting;
        loops = update s.loops id io_loop;
        watching = update s.watching id false;
      })

-- What `accept` returned. When it failed, the server stays as it is.
pub data Accepted : Type 0 where
  accepted failed : Accepted

-- `Acceptor::handleRead`
unfoldable pub handle_read : ℕ → Accepted → System → Option System
handle_read thread accepted s = new_connection thread s
handle_read thread failed s = do assert (thread == s.server.base_loop); some s

-- `TcpConnection::shutdown`
unfoldable pub shutdown : ℕ → System → System
shutdown a s =
    if is_connected (s.states a) then record s { states = update s.states a disconnecting } else s

-- `TcpConnection::handleClose`
unfoldable pub handle_close : ℕ → ℕ → System → Option System
handle_close thread a s = do
  assert (thread == s.loops a)
  assert (is_connected (s.states a) || is_disconnecting (s.states a))
  remove_connection thread a (set_disconnected a s)

-- The functor of a loop whose turn is next, and the queue without it.
unfoldable pub take_first : ℕ → List (ℕ × Functor) → Option (Functor × List (ℕ × Functor))
take_first loop [] = none
take_first loop ((l, f) ∷ fs) =
    let rest = take_first loop fs in
    if l == loop then some (f, fs) else (do (g, gs) ← rest; some (g, (l, f) ∷ gs))

abbrev pub run_taken : ℕ → Option (Functor × List (ℕ × Functor)) → System → Option System
run_taken loop none s = some s
run_taken loop (some (f, rest)) s = run_functor loop f (record s { queued = rest })

unfoldable pub run_next : ℕ → System → Option System
run_next loop s = run_taken loop (take_first loop s.queued) s
