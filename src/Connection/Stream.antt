-- ===== src/Connection/Stream.antt =====
-- The life of a connection of networker/net/TcpConnection.cpp as the steps that its users, the
-- poller and the loop make, in any order.
use network_program_base_fra.Prelude.{
  ℕ, ◌+◌, ◌^◌, ◌<◌, ◌≤◌, ◌≡◌, Bool, true, ◌&&◌, List, [], ◌∷◌, ◌++◌, length, some, if◌then◌else◌,
  Option,
}
use network_program_base_fra.Buffer.{Buffer, readable}
use network_program_base_fra.Buffer.Receive.{ReadResult, failed, got, Fits}
use network_program_base_fra.Connection.{
  Connection, State, is_open, is_connected, connecting, connected, disconnecting, disconnected,
  send, send_in_loop, shutdown, shutdown_in_loop, force_close, force_close_in_loop,
  force_close_with_delay, start_read, start_read_in_loop, handle_read, handle_write, WriteResult,
  Functor, send_functor, c_string, shutdown_functor, force_close_functor, start_read_functor,
  write_complete_functor, high_water_functor, Notice, closed,
}
use network_program_base_fra.Connection.Valid.{IsValid}
use network_program_base_fra.Connection.Rest.{stream}
use network_program_base_fra.Connection.FirstWrite.{Takes, kept}

pub data Event : Type 0 where
  sends : Bool → WriteResult → List ℕ → Event
  shuts_down starts_reading : Bool → Event
  force_closes timer_fires : Event
  force_closes_later : ℕ → Event
  is_readable : ReadResult → Event
  is_writable runs_functor : WriteResult → Event

-- A functor runs. The last two call the user's callbacks.
abbrev pub run_functor : WriteResult → Functor → Connection → Option Connection
run_functor result (send_functor bytes) c = send_in_loop result (c_string bytes) c
run_functor result shutdown_functor c = some (shutdown_in_loop c)
run_functor result force_close_functor c = force_close_in_loop c
run_functor result start_read_functor c = some (start_read_in_loop c)
run_functor result write_complete_functor c = some c
run_functor result (high_water_functor n) c = some c

abbrev pub run_first : WriteResult → List Functor → Connection → Option Connection
run_first result [] c = some c
run_first result (f ∷ fs) c = run_functor result f (record c { queued = fs })

abbrev pub fire_first : List ℕ → Connection → Connection
fire_first [] c = c
fire_first (t ∷ ts) c = force_close (record c { delayed = ts })

abbrev pub step : Event → Connection → Option Connection
step (sends in_loop result bytes) c = send in_loop result bytes c
step (shuts_down in_loop) c = some (shutdown in_loop c)
step (starts_reading in_loop) c = some (start_read in_loop c)
step force_closes c = some (force_close c)
step timer_fires c = some (fire_first c.delayed c)
step (force_closes_later seconds) c = some (force_close_with_delay seconds c)
step (is_readable result) c = handle_read result c
step (is_writable result) c = handle_write result c
step (runs_functor result) c = run_first result c.queued c

-- The system calls keep to their contract, the buffers stay below 2 ^ 63 bytes, the poller
-- reports only what the channel asks for, and reading is started on an open connection only.
abbrev pub HasRoom : List ℕ → Buffer → Type 0
HasRoom bytes b = length b.storage + length bytes < 2 ^ 63

abbrev pub CanRun : WriteResult → List Functor → Connection → Type 0
CanRun result [] c = Unit {0}
CanRun result (send_functor bytes ∷ fs) c =
    Takes result (c_string bytes) × HasRoom (c_string bytes) c.output
CanRun result (start_read_functor ∷ fs) c = is_open c.state ≡ true
CanRun result (f ∷ fs) c = Unit {0}

abbrev pub CanRead : ReadResult → Connection → Type 0
CanRead (failed errno) c = is_open c.state ≡ true
CanRead (got bytes) c =
    (is_open c.state ≡ true) × (Fits (got bytes) c.input × HasRoom bytes c.input)

abbrev pub Possible : Event → Connection → Type 0
Possible (sends in_loop result bytes) c = Takes result bytes × HasRoom bytes c.output
Possible (starts_reading in_loop) c = is_open c.state ≡ true
Possible (is_readable result) c = CanRead result c
Possible (is_writable result) c = Takes result (readable c.output)
Possible (runs_functor result) c = CanRun result c.queued c
Possible e c = Unit {0}

-- The bytes that a step adds to the stream: those of a send, up to the first zero byte if it was
-- queued by another thread.
abbrev pub added_by : WriteResult → List Functor → Connection → List ℕ
added_by result (send_functor bytes ∷ fs) c = kept result (c_string bytes) c
added_by result fs c = []

abbrev pub added : Event → Connection → List ℕ
added (sends in_loop result bytes) c =
    if is_connected c.state && in_loop then kept result bytes c else []
added (runs_functor result) c = added_by result c.queued c
added e c = []

abbrev pub rank : State → ℕ
rank connecting = 0
rank connected = 1
rank disconnecting = 2
rank disconnected = 3

-- How often the close callback was made, and how often it may still be.
abbrev pub closes : List Notice → ℕ
closes [] = 0
closes (closed ∷ ns) = 1 + closes ns
closes (n ∷ ns) = closes ns

abbrev pub to_close : State → ℕ
to_close disconnected = 0
to_close s = 1

pub record Stepped (xs : List ℕ) (c c' : Connection) : Type 0 where
  pub valid : IsValid c'
  pub bytes : stream c' ≡ stream c ++ xs
  pub forward : rank c.state ≤ rank c'.state
  pub once : closes c'.notices + to_close c'.state ≡ closes c.notices + to_close c.state
