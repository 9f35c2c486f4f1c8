-- ===== src/TcpClient.antt =====
-- networker/net/TcpClient.cpp with its Connector. A connection is the number in its name; of a
-- connection the model has the state, whether its channel asks for anything, and whether its
-- connectDestroyed is queued or has run. `none` is a failed assertion.
pub mod Valid
pub mod Steps
pub mod Run
mod Samples
use network_program_base_fra.Prelude.{
  ℕ, ◌+◌, Bool, true, false, not, ◌&&◌, ◌||◌, Option, none, some, List, [], ◌∷◌, ◌++◌, ◌==◌,
  if◌then◌else◌, ◌>>=◌, ◌>>◌, assert, update,
}
use network_program_base_fra.Connection
use network_program_base_fra.Connection.{
  connected, disconnecting, disconnected, is_connected, is_disconnecting,
}
use network_program_base_fra.Connector
use network_program_base_fra.Connector.{Connector, is_connecting}

pub record TcpClient : Type 0 where
  pub connector : Connector
  pub retry : Bool
  pub connect_flag : Bool
  pub next_conn_id : ℕ
  pub connection : Option ℕ
  pub states : ℕ → Connection.State
  pub watching : ℕ → Bool
  pub queued : List ℕ
  pub destroyed : List ℕ

unfoldable pub new : Bool → TcpClient
new retry = record {
  connector = Connector.new;
  retry = retry;
  connect_flag = true;
  next_conn_id = 1;
  connection = none;
  states = λ a. connected;
  watching = λ a. false;
  queued = [];
  destroyed = [];
}

-- The thread, the next socket and the `errno` of `connect` are arguments, as for the connector.
unfoldable pub connect : Bool → ℕ → ℕ → TcpClient → Option TcpClient
connect in_loop sockfd errno c = do
  k ← Connector.start in_loop sockfd errno c.connector
  some (record c { connect_flag = true; connector = k })

abbrev pub shut_down : Option ℕ → (ℕ → Connection.State) → ℕ → Connection.State
shut_down none states = states
shut_down (some a) states =
    if is_connected (states a) then update states a disconnecting else states

unfoldable pub disconnect : TcpClient → TcpClient
disconnect c = record c { connect_flag = false; states = shut_down c.connection c.states }

unfoldable pub stop : TcpClient → TcpClient
stop c = record c { connect_flag = false; connector = Connector.stop c.connector }

-- The new connection is established at once.
unfoldable pub new_connection : TcpClient → TcpClient
new_connection c = record c {
  next_conn_id = c.next_conn_id + 1;
  connection = some c.next_conn_id;
  states = update c.states c.next_conn_id connected;
  watching = update c.watching c.next_conn_id true;
}

-- `Connector::handleWrite`, which calls `newConnection` when the socket is up and still wanted.
abbrev pub hands_over : ℕ → Bool → Connector → Bool
hands_over err self_connect k =
    is_connecting k.state && (not (not (err == 0) || self_connect) && k.connect_flag)

unfoldable pub handle_write : ℕ → Bool → TcpClient → Option TcpClient
handle_write err self_connect c = do
  k ← Connector.handle_write err self_connect c.connector
  some (
      if hands_over err self_connect c.connector
      then new_connection (record c { connector = k })
      else record c { connector = k })

abbrev pub is_connection : Option ℕ → ℕ → Bool
is_connection none a = false
is_connection (some b) a = b == a

unfoldable pub remove_connection : ℕ → ℕ → ℕ → TcpClient → Option TcpClient
remove_connection sockfd errno a c = do
  assert (is_connection c.connection a)
  let removed : TcpClient = record c { connection = none; queued = c.queued ++ a ∷ [] }
  if c.retry && c.connect_flag
      then (do
        k ← Connector.restart sockfd errno c.connector
        some (record removed { connector = k }))
      else some removed

-- `setState(kDisconnected)` and `channel_->disableAll()`
abbrev pub set_disconnected : ℕ → TcpClient → TcpClient
set_disconnected a c = record c {
  states = update c.states a disconnected;
  watching = update c.watching a false;
}

-- `TcpConnection::handleClose`, with the close callback.
unfoldable pub handle_close : ℕ → ℕ → ℕ → TcpClient → Option TcpClient
handle_close sockfd errno a c = do
  assert (is_connected (c.states a) || is_disconnecting (c.states a))
  remove_connection sockfd errno a (set_disconnected a c)

-- `channel_->remove()` asserts that the channel asks for nothing.
abbrev pub remove_channel : ℕ → TcpClient → Option TcpClient
remove_channel a c = do assert (not (c.watching a)); some (record c { destroyed = a ∷ c.destroyed })

unfoldable pub connect_destroyed : ℕ → TcpClient → Option TcpClient
connect_destroyed a c =
    remove_channel a (if is_connected (c.states a) then set_disconnected a c else c)

-- The loop runs the first connectDestroyed that waits.
abbrev pub destroy_first : List ℕ → TcpClient → Option TcpClient
destroy_first [] c = some c
destroy_first (a ∷ fs) c = connect_destroyed a (record c { queued = fs })

unfoldable pub run_next : TcpClient → Option TcpClient
run_next c = destroy_first c.queued c
