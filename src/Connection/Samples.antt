-- ===== src/Connection/Samples.antt =====
-- The connection of networker/net/TcpConnection.cpp on concrete events.
use network_program_base_fra.Prelude.{
  ℕ, ◌+◌, ◌≡◌, refl, true, false, List, [], ◌∷◌, some, none, arith, replicate, ◌>>=◌,
}
use network_program_base_fra.Buffer
use network_program_base_fra.Buffer.{Buffer, readable, initial_size, cheap_prepend}
use network_program_base_fra.Channel
use network_program_base_fra.Connection.{
  Connection, fresh, go_up, new, connect_established, connect_destroyed, send, send_in_loop,
  handle_write, wrote, disconnecting, disconnected, shutdown,
}
use network_program_base_fra.Connection.Valid.{IsValid}
use network_program_base_fra.Connection.Rest.{stream}
use network_program_base_fra.Connection.FirstWrite.{kept, Moves}
use network_program_base_fra.Connection.Send.{send_in_loop_lem}
use network_program_base_fra.Connection.Handlers.{Wrote, handle_write_lem}
use network_program_base_fra.Connection.Stream.{run_first, shuts_down, closes, to_close}
use network_program_base_fra.Connection.Truncate.{queued_send-truncated}
use network_program_base_fra.Connection.Life.{
  Established, fresh-Established, start, after, life_lem, connect_destroyed-disconnecting,
}

abbrev blank : Buffer
blank = record { storage = replicate 16 0; reader_index = 8; writer_index = 8 }

abbrev up : Connection
up = go_up (fresh 5 blank blank)

up-Established : Established up
up-Established = fresh-Established 5 blank (omega arith) refl

abbrev hello : List ℕ
hello = 104 ∷ 101 ∷ 121 ∷ []

-- The first byte goes out at once, the others wait.
send_in_loop_lem_example :
    (c' : Connection) × (send_in_loop (wrote 1) hello up ≡ some c')
    × Moves (kept (wrote 1) hello up) up c'
send_in_loop_lem_example =
    send_in_loop_lem (wrote 1) hello up up-Established.valid (omega arith) (omega arith)

-- A connection that is up with a byte that waits.
abbrev waiting : Connection
waiting = record up {
  state = disconnecting;
  channel = Channel.enable_writing up.channel;
  output = record blank { writer_index = 9 };
}

waiting-IsValid : IsValid waiting
unfolding Channel.enable_writing Channel.enable_reading Channel.tie Channel.new Channel.update
waiting-IsValid = record {
  input = omega arith;
  output = omega arith;
  events = refl;
  reading = refl;
}

handle_write_lem_example :
    (c' : Connection) × (handle_write (wrote 1) waiting ≡ some c') × Wrote 1 waiting c'
handle_write_lem_example =
    handle_write_lem 1 waiting waiting-IsValid refl (omega arith) (omega arith)

connect_destroyed-disconnecting_example : connect_destroyed waiting ≡ none
connect_destroyed-disconnecting_example =
    connect_destroyed-disconnecting waiting waiting-IsValid refl

-- A closed connection.
abbrev gone : Connection
gone = record up { state = disconnected; channel = Channel.disable_all up.channel }

gone-IsValid : IsValid gone
unfolding Channel.disable_all Channel.enable_reading Channel.tie Channel.new Channel.update
gone-IsValid = record { input = omega arith; output = omega arith; events = refl; reading = refl }

abbrev first : Buffer
first = record {
  storage = replicate (initial_size + cheap_prepend) 0;
  reader_index = 8;
  writer_index = 8;
}

first_up : (new 7 >>= connect_established) ≡ some (go_up (fresh 7 first first))
unfolding new connect_established Buffer.new Buffer.readable_bytes Buffer.writable_bytes
    Buffer.prependable_bytes
first_up = refl

life_lem_example :
    let c : Connection = go_up (fresh 7 first first) in
    let d : Connection = shutdown true c in
    (stream d ≡ []) × IsValid d × (closes d.notices + to_close d.state ≡ 1)
life_lem_example =
    life_lem 7 (go_up (fresh 7 first first)) (shutdown true (go_up (fresh 7 first first))) []
      first_up (after start (shuts_down true) tt refl)

-- "h", a zero byte and "i" from another thread: only "h" is sent.
queued_send-truncated_example :
    (send false (wrote 0) (104 ∷ 0 ∷ 105 ∷ []) up >>= λ d. run_first (wrote 1) d.queued d)
    ≡ send_in_loop (wrote 1) (104 ∷ []) (record up { queued = [] })
queued_send-truncated_example =
    queued_send-truncated (wrote 1) (wrote 0) (104 ∷ []) (105 ∷ []) up refl refl refl
