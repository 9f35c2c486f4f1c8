-- ===== src/Connector.antt =====
-- networker/net/Connector.h and Connector.cpp. The sockets are lists: those that were created,
-- those that were closed, and those that were handed to the new-connection callback. What is
-- queued in the loop, and the delays of the timers that will start again, are lists as well.
pub mod Valid
pub mod Backoff
pub mod Sockets
pub mod Steps
mod Samples
use network_program_base_fra.Prelude.{
  ℕ, ◌*◌, min, Bool, true, false, not, ◌||◌, Option, some, none, List, [], ◌∷◌, ◌++◌, ◌==◌,
  if◌then◌else◌, ◌>>=◌, ◌>>◌, assert,
}
use network_program_base_fra.Channel
use network_program_base_fra.Channel.{Channel, enable_writing, disable_all, remove}

pub data State : Type 0 where
  disconnected connecting connected : State

abbrev pub is_disconnected : State → Bool
is_disconnected disconnected = true
is_disconnected s = false

abbrev pub is_connecting : State → Bool
is_connecting connecting = true
is_connecting s = false

abbrev pub max_retry_delay_ms : ℕ
max_retry_delay_ms = 30 * 1000

abbrev pub init_retry_delay_ms : ℕ
init_retry_delay_ms = 500

-- A function that waits in the loop.
pub data Job : Type 0 where
  start_job stop_job reset_job : Job

pub record Connector : Type 0 where
  pub connect_flag : Bool
  pub state : State
  pub channel : Option Channel
  pub retry_delay_ms : ℕ
  pub queued : List Job
  pub timers : List ℕ
  pub created : List ℕ
  pub closed : List ℕ
  pub handed : List ℕ

unfoldable pub new : Connector
new = record {
  connect_flag = false;
  state = disconnected;
  channel = none;
  retry_delay_ms = init_retry_delay_ms;
  queued = [];
  timers = [];
  created = [];
  closed = [];
  handed = [];
}

-- What the `switch` on `errno` does.
pub data Outcome : Type 0 where
  proceeds retries gives_up : Outcome

-- EINPROGRESS, EINTR and EISCONN proceed; EAGAIN, EADDRINUSE, EADDRNOTAVAIL, ECONNREFUSED and
-- ENETUNREACH are tried again.
unfoldable pub outcome : ℕ → Outcome
outcome errno =
    if (errno == 0) || ((errno == 115) || ((errno == 4) || (errno == 106)))
    then proceeds
    else if (errno == 11)
        || ((errno == 98) || ((errno == 99) || ((errno == 111) || (errno == 101))))
    then retries
    else gives_up

abbrev pub close_socket : ℕ → Connector → Connector
close_socket sockfd c = record c { closed = sockfd ∷ c.closed }

unfoldable pub retry : ℕ → Connector → Connector
retry sockfd c = record c {
  closed = sockfd ∷ c.closed;
  state = disconnected;
  timers = if c.connect_flag then c.timers ++ c.retry_delay_ms ∷ [] else c.timers;
  retry_delay_ms =
      if c.connect_flag then min (c.retry_delay_ms * 2) max_retry_delay_ms else c.retry_delay_ms;
}

abbrev pub is_none : Option Channel → Bool
is_none none = true
is_none (some ch) = false

-- The channel that waits until the socket is writable.
abbrev pub watch : ℕ → Channel
watch sockfd = enable_writing (record (Channel.new sockfd) { has_write = true; has_error = true })

unfoldable pub start_connecting : ℕ → Connector → Option Connector
start_connecting sockfd c = do
  assert (is_none c.channel)
  some (record c { state = connecting; channel = some (watch sockfd) })

abbrev pub act_on : Outcome → ℕ → Connector → Option Connector
act_on proceeds sockfd c = start_connecting sockfd c
act_on retries sockfd c = some (retry sockfd c)
act_on gives_up sockfd c = some (close_socket sockfd c)

-- The new socket and the `errno` of `connect`, 0 if it succeeded, are arguments.
unfoldable pub connect : ℕ → ℕ → Connector → Option Connector
connect sockfd errno c = act_on (outcome errno) sockfd (record c { created = sockfd ∷ c.created })

unfoldable pub start_in_loop : ℕ → ℕ → Connector → Option Connector
start_in_loop sockfd errno c = do
  assert (is_disconnected c.state)
  if c.connect_flag then connect sockfd errno c else some c

unfoldable pub start : Bool → ℕ → ℕ → Connector → Option Connector
start in_loop sockfd errno c =
    let wanted : Connector = record c { connect_flag = true } in
    if in_loop
    then start_in_loop sockfd errno wanted
    else some (record wanted { queued = c.queued ++ start_job ∷ [] })

unfoldable pub stop : Connector → Connector
stop c = record c { connect_flag = false; queued = c.queued ++ stop_job ∷ [] }

unfoldable pub restart : ℕ → ℕ → Connector → Option Connector
restart sockfd errno c =
    start_in_loop sockfd errno
      (record c { state = disconnected; retry_delay_ms = init_retry_delay_ms; connect_flag = true })

abbrev pub release : Option Channel → Connector → Option (ℕ × Connector)
release none c = none
release (some ch) c = do
  ch' ← remove (disable_all ch)
  some (ch'.fd, record c { channel = some ch'; queued = c.queued ++ reset_job ∷ [] })

unfoldable pub remove_and_reset_channel : Connector → Option (ℕ × Connector)
remove_and_reset_channel c = release c.channel c

unfoldable pub reset_channel : Connector → Connector
reset_channel c = record c { channel = none }

unfoldable pub stop_in_loop : Connector → Option Connector
stop_in_loop c =
    if is_connecting c.state
    then (do
      (sockfd, c') ← remove_and_reset_channel (record c { state = disconnected })
      some (retry sockfd c'))
    else some c

-- The connection is up: it is handed over if it is still wanted.
unfoldable pub hand_over : ℕ → Connector → Connector
hand_over sockfd c =
    if c.connect_flag
    then record c { state = connected; handed = sockfd ∷ c.handed }
    else record c { state = connected; closed = sockfd ∷ c.closed }

-- The socket's error, 0 if there is none, and whether it is connected to itself are arguments.
unfoldable pub handle_write : ℕ → Bool → Connector → Option Connector
handle_write err self_connect c =
    if is_connecting c.state
    then (do
      (sockfd, c') ← remove_and_reset_channel c
      some (if not (err == 0) || self_connect then retry sockfd c' else hand_over sockfd c'))
    else (do assert (is_disconnected c.state); some c)

unfoldable pub handle_error : Connector → Option Connector
handle_error c =
    if is_connecting c.state
    then (do (sockfd, c') ← remove_and_reset_channel c; some (retry sockfd c'))
    else some c

-- The loop runs what was queued first. A start takes the next socket and the `errno` of `connect`.
abbrev pub run_job : Job → ℕ → ℕ → Connector → Option Connector
run_job start_job sockfd errno c = start_in_loop sockfd errno c
run_job stop_job sockfd errno c = stop_in_loop c
run_job reset_job sockfd errno c = some (reset_channel c)

abbrev pub run_head : List Job → ℕ → ℕ → Connector → Option Connector
run_head [] sockfd errno c = some c
run_head (j ∷ js) sockfd errno c = run_job j sockfd errno (record c { queued = js })

unfoldable pub run_next : ℕ → ℕ → Connector → Option Connector
run_next sockfd errno c = run_head c.queued sockfd errno c
