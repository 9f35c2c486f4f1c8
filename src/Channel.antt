-- ===== src/Channel.antt =====
-- networker/net/Channel.h and Channel.cpp. What a channel asks of its loop (`updateChannel`,
-- `removeChannel`) and what it calls back is kept as a list, the latest first.
pub mod Flags
pub mod Dispatch
mod Samples
use Prim.Native.Nat.{bit_and, bit_or}
use network_program_base_fra.Prelude.{
  ℕ, ◌-◌, ◌^◌, Bool, true, false, not, ◌&&◌, ◌||◌, Option, some, List, [], ◌∷◌, ◌++◌, ◌==◌,
  if◌then◌else◌, ◌>>◌, assert,
}

abbrev pub pollin : ℕ
pollin = 0x1

abbrev pub pollpri : ℕ
pollpri = 0x2

abbrev pub pollout : ℕ
pollout = 0x4

abbrev pub pollerr : ℕ
pollerr = 0x8

abbrev pub pollhup : ℕ
pollhup = 0x10

abbrev pub pollnval : ℕ
pollnval = 0x20

abbrev pub pollrdhup : ℕ
pollrdhup = 0x2000

abbrev pub none_event : ℕ
none_event = 0

-- `POLLIN | POLLPRI`
abbrev pub read_event : ℕ
read_event = 3

abbrev pub write_event : ℕ
write_event = pollout

-- A call of the loop, with the events that are asked for.
pub data LoopCall : Type 0 where
  updates : ℕ → LoopCall
  removes : LoopCall

pub record Channel : Type 0 where
  pub fd : ℕ
  pub events : ℕ
  pub revents : ℕ
  pub log_hup : Bool
  pub tied : Bool
  pub event_handling : Bool
  pub added_to_loop : Bool
  pub has_read : Bool
  pub has_write : Bool
  pub has_close : Bool
  pub has_error : Bool
  pub loop_calls : List LoopCall

-- `x & mask`, as a condition.
abbrev pub has : ℕ → ℕ → Bool
has x mask = not (bit_and x mask == 0)

-- `x & ~mask`, for an `int` that is not negative.
abbrev pub clear : ℕ → ℕ → ℕ
clear x mask = bit_and x (2 ^ 31 - 1 - mask)

unfoldable pub new : ℕ → Channel
new fd = record {
  fd = fd;
  events = 0;
  revents = 0;
  log_hup = true;
  tied = false;
  event_handling = false;
  added_to_loop = false;
  has_read = false;
  has_write = false;
  has_close = false;
  has_error = false;
  loop_calls = [];
}

unfoldable pub tie : Channel → Channel
tie c = record c { tied = true }

unfoldable pub update : Channel → Channel
update c = record c { added_to_loop = true; loop_calls = updates c.events ∷ c.loop_calls }

unfoldable pub is_none_event : Channel → Bool
is_none_event c = c.events == none_event

unfoldable pub remove : Channel → Option Channel
unfolding is_none_event
remove c = do
  assert (is_none_event c)
  some (record c { added_to_loop = false; loop_calls = removes ∷ c.loop_calls })

unfoldable pub enable_reading : Channel → Channel
unfolding update
enable_reading c = update (record c { events = bit_or c.events read_event })

unfoldable pub disable_reading : Channel → Channel
unfolding update
disable_reading c = update (record c { events = clear c.events read_event })

unfoldable pub enable_writing : Channel → Channel
unfolding update
enable_writing c = update (record c { events = bit_or c.events write_event })

unfoldable pub disable_writing : Channel → Channel
unfolding update
disable_writing c = update (record c { events = clear c.events write_event })

unfoldable pub disable_all : Channel → Channel
unfolding update
disable_all c = update (record c { events = none_event })

unfoldable pub is_writing : Channel → Bool
is_writing c = has c.events write_event

unfoldable pub is_reading : Channel → Bool
is_reading c = has c.events read_event

pub data Callback : Type 0 where
  close_callback error_callback read_callback write_callback : Callback

abbrev when : Bool → Callback → List Callback
when true k = k ∷ []
when false k = []

-- The callbacks that are made, in their order.
unfoldable pub handle_event_with_guard : Channel → List Callback
handle_event_with_guard c =
    when (has c.revents pollhup && not (has c.revents pollin) && c.has_close) close_callback
    ++ (when (has c.revents 0x28 && c.has_error) error_callback
        ++ (when (has c.revents 0x2003 && c.has_read) read_callback
            ++ when (has c.revents pollout && c.has_write) write_callback))

-- `alive` says whether `tie_.lock()` gets hold of the owner.
unfoldable pub handle_event : Bool → Channel → List Callback
unfolding handle_event_with_guard
handle_event alive c =
    if c.tied then (if alive then handle_event_with_guard c else []) else handle_event_with_guard c
