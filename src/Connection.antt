-- ===== src/Connection.antt =====
-- networker/net/TcpConnection.h and TcpConnection.cpp. The socket is what the connection did to
-- it: the bytes that `write` took and whether the sending side was shut down. What is queued in
-- the loop, or set to run later, is a list, the first to run in front. A callback is a note, the
-- latest first; what a callback calls in turn are calls that follow, as each is made last.
pub mod Rest
pub mod FirstWrite
pub mod Send
pub mod Handlers
pub mod Valid
pub mod Stream
pub mod Steps
pub mod Run
pub mod Life
pub mod Truncate
mod Samples
use network_program_base_fra.Prelude.{
  ℕ, ◌*◌, zero, suc, Bool, true, false, not, ◌&&◌, ◌||◌, Option, some, none, List, [], ◌∷◌, ◌++◌,
  ◌==◌, leb, ltb, length, take, drop, sub_size, add_size, if◌then◌else◌, ◌>>=◌, ◌>>◌, assert,
}
use network_program_base_fra.Prelude.Int.{ℤ, pos, negsuc}
use network_program_base_fra.Buffer
use network_program_base_fra.Channel
use network_program_base_fra.Buffer.{
  Buffer, initial_size, readable_bytes, peek, append, retrieve, retrieve_all,
  retrieve_all_as_string, readable,
}
use network_program_base_fra.Buffer.Receive.{ReadResult, read_fd}
use network_program_base_fra.Channel.{
  Channel, enable_reading, enable_writing, disable_writing, disable_all, is_writing, is_reading,
  tie, remove,
}

pub data State : Type 0 where
  disconnected connecting connected disconnecting : State

abbrev pub is_disconnected : State → Bool
is_disconnected disconnected = true
is_disconnected s = false

abbrev pub is_connecting : State → Bool
is_connecting connecting = true
is_connecting s = false

abbrev pub is_connected : State → Bool
is_connected connected = true
is_connected s = false

abbrev pub is_disconnecting : State → Bool
is_disconnecting disconnecting = true
is_disconnecting s = false

-- What `write` returned: how many bytes it took, or a negative result with `errno`.
pub data WriteResult : Type 0 where
  wrote write_failed : ℕ → WriteResult

abbrev pub ewouldblock : ℕ
ewouldblock = 11

abbrev pub epipe : ℕ
epipe = 32

abbrev pub econnreset : ℕ
econnreset = 104

-- The piece that a bound string becomes when its functor runs: it ends at the first zero byte.
unfoldable pub c_string : List ℕ → List ℕ
c_string [] = []
c_string (b ∷ bs) = let rest = c_string bs in if b == 0 then [] else b ∷ rest

-- A function that waits in the loop.
pub data Functor : Type 0 where
  send_functor : List ℕ → Functor
  shutdown_functor force_close_functor start_read_functor write_complete_functor : Functor
  high_water_functor : ℕ → Functor

-- A callback that was made: the connection is up or down, a message of that many bytes has come,
-- or the owner's close callback.
pub data Notice : Type 0 where
  is_up is_down closed : Notice
  message : ℕ → Notice

pub record Connection : Type 0 where
  pub state : State
  pub reading : Bool
  pub channel : Channel
  pub has_write_complete : Bool
  pub has_high_water : Bool
  pub high_water_mark : ℕ
  pub input : Buffer
  pub output : Buffer
  pub sent : List ℕ
  pub write_closed : Bool
  pub queued : List Functor
  pub delayed : List ℕ
  pub notices : List Notice

-- The members as the constructor sets them.
abbrev pub fresh : ℕ → Buffer → Buffer → Connection
fresh fd input output = record {
  state = connecting;
  reading = true;
  channel = record (Channel.new fd) {
    has_read = true;
    has_write = true;
    has_close = true;
    has_error = true;
  };
  has_write_complete = false;
  has_high_water = false;
  high_water_mark = 64 * 1024 * 1024;
  input = input;
  output = output;
  sent = [];
  write_closed = false;
  queued = [];
  delayed = [];
  notices = [];
}

unfoldable pub new : ℕ → Option Connection
new fd = do
  input ← Buffer.new initial_size
  output ← Buffer.new initial_size
  some (fresh fd input output)

-- `queueInLoop`
abbrev pub queue_in_loop : Functor → Connection → Connection
queue_in_loop f c = record c { queued = c.queued ++ f ∷ [] }

abbrev when : Bool → Functor → Connection → Connection
when b f c = record c { queued = if b then c.queued ++ f ∷ [] else c.queued }

pub record Attempt : Type 0 where
  pub nwrote : ℕ
  pub fault_error : Bool
  pub after : Connection

-- The write was tried and took `n` of the bytes.
abbrev pub took : ℕ → List ℕ → Connection → Connection
took n bytes c =
    when ((sub_size (length bytes) n == 0) && c.has_write_complete) write_complete_functor
      (record c { sent = c.sent ++ take n bytes })

-- The attempt to write at once, of `sendInLoop`.
unfoldable pub first_write : WriteResult → List ℕ → Connection → Attempt
first_write (wrote n) bytes c =
    if not (is_writing c.channel) && (readable_bytes c.output == 0)
    then record { nwrote = n; fault_error = false; after = took n bytes c }
    else record { nwrote = 0; fault_error = false; after = c }
first_write (write_failed errno) bytes c =
    if not (is_writing c.channel) && (readable_bytes c.output == 0)
    then record {
      nwrote = 0;
      fault_error = not (errno == ewouldblock) && ((errno == epipe) || (errno == econnreset));
      after = c;
    }
    else record { nwrote = 0; fault_error = false; after = c }

abbrev start_writing : Connection → Connection
start_writing c = record c {
  channel = if is_writing c.channel then c.channel else enable_writing c.channel;
}

-- The high water mark is told of, the output is the enlarged one, and the channel writes.
abbrev pub with_rest : List ℕ → Buffer → Connection → Connection
with_rest rest output c =
    let old_len : ℕ = readable_bytes c.output in
    let total : ℕ = add_size old_len (length rest) in
    let told : Connection =
      when (leb c.high_water_mark total && ltb old_len c.high_water_mark && c.has_high_water)
        (high_water_functor total) c in
    start_writing (record told { output = output })

-- What was not written, of `sendInLoop`.
unfoldable pub buffer_rest : List ℕ → Connection → Option Connection
buffer_rest rest c = do output ← append rest c.output; some (with_rest rest output c)

unfoldable pub send_in_loop : WriteResult → List ℕ → Connection → Option Connection
send_in_loop result bytes c =
    let attempt : Attempt = first_write result bytes c in
    let remaining : ℕ = sub_size (length bytes) attempt.nwrote in
    if is_disconnected c.state then some c else do
      assert (leb remaining (length bytes))
      (if not attempt.fault_error && ltb 0 remaining
          then buffer_rest (drop attempt.nwrote bytes) attempt.after
          else some attempt.after)

-- `in_loop` says whether the caller runs in the loop's thread.
unfoldable pub send : Bool → WriteResult → List ℕ → Connection → Option Connection
send in_loop result bytes c =
    if is_connected c.state
    then (if in_loop
        then send_in_loop result bytes c
        else some (queue_in_loop (send_functor bytes) c))
    else some c

-- `send` of a buffer, which is emptied.
unfoldable pub send_buffer : Bool → WriteResult → Buffer → Connection → Option (Buffer × Connection)
send_buffer in_loop result buf c =
    if is_connected c.state
    then (if in_loop
        then (do c' ← send_in_loop result (readable buf) c; some (retrieve_all buf, c'))
        else (do
          (bytes, buf') ← retrieve_all_as_string buf
          some (buf', queue_in_loop (send_functor bytes) c)))
    else some (buf, c)

unfoldable pub shutdown_in_loop : Connection → Connection
shutdown_in_loop c = record c {
  write_closed = if is_writing c.channel then c.write_closed else true;
}

unfoldable pub shutdown : Bool → Connection → Connection
shutdown in_loop c =
    if is_connected c.state
    then (if in_loop
        then shutdown_in_loop (record c { state = disconnecting })
        else queue_in_loop shutdown_functor (record c { state = disconnecting }))
    else c

abbrev pub is_open : State → Bool
is_open s = is_connected s || is_disconnecting s

unfoldable pub force_close : Connection → Connection
force_close c =
    if is_open c.state
    then queue_in_loop force_close_functor (record c { state = disconnecting })
    else c

unfoldable pub force_close_with_delay : ℕ → Connection → Connection
force_close_with_delay seconds c =
    if is_open c.state
    then record c { state = disconnecting; delayed = c.delayed ++ seconds ∷ [] }
    else c

unfoldable pub handle_close : Connection → Option Connection
handle_close c = do
  assert (is_open c.state)
  some (record c {
    state = disconnected;
    channel = disable_all c.channel;
    notices = closed ∷ is_down ∷ c.notices;
  })

unfoldable pub force_close_in_loop : Connection → Option Connection
force_close_in_loop c = if is_open c.state then handle_close c else some c

unfoldable pub start_read_in_loop : Connection → Connection
start_read_in_loop c =
    if not c.reading || not (is_reading c.channel)
    then record c { channel = enable_reading c.channel; reading = true }
    else c

unfoldable pub start_read : Bool → Connection → Connection
start_read in_loop c = if in_loop then start_read_in_loop c else queue_in_loop start_read_functor c

abbrev pub go_up : Connection → Connection
go_up c = record c {
  state = connected;
  channel = enable_reading (tie c.channel);
  notices = is_up ∷ c.notices;
}

unfoldable pub connect_established : Connection → Option Connection
connect_established c = do assert (is_connecting c.state); some (go_up c)

abbrev pub go_down : Connection → Connection
go_down c =
    if is_connected c.state
    then record c {
      state = disconnected;
      channel = disable_all c.channel;
      notices = is_down ∷ c.notices;
    }
    else c

unfoldable pub connect_destroyed : Connection → Option Connection
connect_destroyed c = do
  channel ← remove (go_down c).channel
  some (record (go_down c) { channel = channel })

-- `handleError` reads the socket's error and logs it.
unfoldable pub handle_error : Connection → Connection
handle_error c = c

unfoldable pub on_read : ℤ → Connection → Option Connection
on_read (pos zero) c = handle_close c
on_read (pos (suc n)) c = some (record c { notices = message (readable_bytes c.input) ∷ c.notices })
on_read (negsuc n) c = some (handle_error c)

unfoldable pub handle_read : ReadResult → Connection → Option Connection
handle_read result c = do
  (n, errno, input) ← read_fd result c.input
  on_read n (record c { input = input })

-- The end of `handleWrite`, once the output is empty.
unfoldable pub drained : Connection → Connection
drained c =
    let quiet : Connection = record c { channel = disable_writing c.channel } in
    let told : Connection = when c.has_write_complete write_complete_functor quiet in
    if is_disconnecting c.state then shutdown_in_loop told else told

unfoldable pub handle_write : WriteResult → Connection → Option Connection
handle_write (write_failed errno) c = some c
handle_write (wrote n) c =
    if is_writing c.channel && ltb 0 n
    then (do
      let bytes = readable c.output
      output ← retrieve n c.output
      let c' = record c { output = output; sent = c.sent ++ take n bytes }
      if readable_bytes output == 0 then some (drained c') else some c')
    else some c
