-- ===== src/Connection/Run.antt =====
-- All steps of a connection of networker/net/TcpConnection.cpp, and what it can come to.
use network_program_base_fra.Prelude.{
  ℕ, ◌≡◌, refl, sym, ap, ap₂, ◌∙◌, Bool, true, false, ◌&&◌, List, [], ◌∷◌, ◌++◌, ltb, inl, inr,
  arith, Bool-cases, some, take, drop, if◌then◌else◌, append_assoc, Option, take-append-drop, subst,
  ltb→lt,
}
use network_program_base_fra.Buffer.{Buffer, readable, readable_bytes}
use network_program_base_fra.Buffer.Valid
use network_program_base_fra.Buffer.Receive.{ReadResult, failed, got, read_fd}
use network_program_base_fra.Buffer.ReceiveLaws.{read_fd_lem}
use network_program_base_fra.Channel.{is_writing}
use network_program_base_fra.Channel.Flags.{shows}
use network_program_base_fra.Connection.{
  Connection, is_open, is_disconnected, is_connected, send, send_in_loop, shutdown_in_loop,
  start_read, handle_read, handle_write, handle_error, on_read, WriteResult, wrote, write_failed,
  Functor, send_functor, c_string, shutdown_functor, force_close_functor, start_read_functor,
  write_complete_functor, high_water_functor, Notice, message, queue_in_loop,
}
use network_program_base_fra.Connection.Valid.{IsValid, wants}
use network_program_base_fra.Connection.Rest.{stream}
use network_program_base_fra.Connection.FirstWrite.{Takes, kept}
use network_program_base_fra.Connection.Handlers.{handle_write_lem}
use network_program_base_fra.Connection.Stream.{
  Event, sends, shuts_down, starts_reading, force_closes, timer_fires, force_closes_later,
  is_readable, is_writable, runs_functor, run_first, fire_first, step, HasRoom, CanRun, CanRead,
  Possible, added_by, added, closes, Stepped,
}
use network_program_base_fra.Connection.Steps.{
  still, same_stream, stays, sending, closing, aside, shuts, forces, forces_later, closes_in_loop,
  starts,
}

abbrev pub Succeeds : List ℕ → Option Connection → Connection → Type 0
Succeeds xs m c = (c' : Connection) × (m ≡ some c') × Stepped xs c c'

send_lem :
    (in_loop : Bool) (result : WriteResult) (bytes : List ℕ) (c : Connection)
    → IsValid c
    → Takes result bytes
    → HasRoom bytes c.output
    → Succeeds (added (sends in_loop result bytes) c) (send in_loop result bytes c) c
unfolding send
send_lem in_loop result bytes c v takes fits = go (is_connected c.state) in_loop
  where
    go :
        (b l : Bool)
        → Succeeds
            (if b && l then kept result bytes c else [])
            (if b
              then (if l
                  then send_in_loop result bytes c
                  else some (queue_in_loop (send_functor bytes) c))
              else some c)
            c
    go true true = sending result bytes c v takes fits
    go true false =
        (_, refl, aside (c.queued ++ send_functor bytes ∷ []) c.delayed c.write_closed c v)
    go false l = (c, refl, stays c v)

start_lem :
    (in_loop : Bool) (c : Connection)
    → IsValid c
    → is_open c.state ≡ true
    → Stepped [] c (start_read in_loop c)
unfolding start_read
start_lem true c v up = subst (λ d. Stepped [] c d) (sym (starts c v up)) (stays c v)
start_lem false c v up = aside (c.queued ++ start_read_functor ∷ []) c.delayed c.write_closed c v

-- The input is not part of the stream.
with_input :
    (input : Buffer) (c : Connection)
    → IsValid c
    → Valid.IsValid input
    → IsValid (record c { input = input })
with_input input c v h = record {
  input = h;
  output = v.output;
  events = v.events;
  reading = v.reading;
}

noted :
    (input : Buffer) (n : Notice) (c : Connection)
    → IsValid c
    → Valid.IsValid input
    → IsValid (record c { input = input; notices = n ∷ c.notices })
noted input n c v h = record {
  input = h;
  output = v.output;
  events = v.events;
  reading = v.reading;
}

read_lem :
    (result : ReadResult) (c : Connection)
    → IsValid c
    → CanRead result c
    → Succeeds [] (handle_read result c) c
unfolding handle_read on_read handle_error read_fd stream
read_lem (failed errno) c v up = (c, refl, stays c v)
read_lem (got []) c v (up, (fits, room)) =
    let (b, e, h) = read_fd_lem [] c.input v.input fits room in
    let (c', f, s) = closing (record c { input = b }) (with_input b c v h.valid) up in
    (c', rw e f, record { valid = s.valid; bytes = s.bytes; forward = s.forward; once = s.once })
read_lem (got (x ∷ xs)) c v (up, (fits, room)) =
    let (b, e, h) = read_fd_lem (x ∷ xs) c.input v.input fits room in
    (
      record c { input = b; notices = message (readable_bytes b) ∷ c.notices },
      rw e refl,
      still (noted b (message (readable_bytes b)) c v h.valid) refl refl (same_stream c),
    )

and_left : (a b : Bool) → (a && b) ≡ true → a ≡ true
and_left true b e = refl
and_left false b e = e

and_right : (a b : Bool) → (a && b) ≡ true → b ≡ true
and_right true b e = e
and_right false b e = absurd (ground arith)

write-failed : (errno : ℕ) (c : Connection) → handle_write (write_failed errno) c ≡ some c
unfolding handle_write
write-failed errno c = refl

write-nothing :
    (n : ℕ) (c : Connection)
    → (is_writing c.channel && ltb 0 n) ≡ false
    → handle_write (wrote n) c ≡ some c
unfolding handle_write
write-nothing n c idle = rw idle refl

-- A channel that writes belongs to a connection that is not closed.
writes-up :
    (c : Connection) → IsValid c → is_writing c.channel ≡ true → is_disconnected c.state ≡ false
writes-up c v w =
    let shown = (shows c.channel (wants c.state c.output) v.events).writing in ground arith

shut_now :
    (fs : List Functor) (c : Connection)
    → IsValid c
    → Stepped [] c (shutdown_in_loop (record c { queued = fs }))
unfolding shutdown_in_loop
shut_now fs c v = aside fs c.delayed _ c v

write_lem :
    (result : WriteResult) (c : Connection)
    → IsValid c
    → Takes result (readable c.output)
    → Succeeds [] (handle_write result c) c
unfolding stream
write_lem (write_failed errno) c v takes = (c, write-failed errno c, stays c v)
write_lem (wrote n) c v takes = elim (Bool-cases (is_writing c.channel && ltb 0 n)) [
  | inr idle ↦ (c, write-nothing n c idle, stays c v)
  | inl busy ↦
      let up : is_disconnected c.state ≡ false =
        writes-up c v (and_left (is_writing c.channel) (ltb 0 n) busy) in
      let (c', e, w) =
        handle_write_lem n c v up (ltb→lt 0 n (and_right (is_writing c.channel) (ltb 0 n) busy))
          takes in
      (
        c',
        e,
        still w.valid w.state (ap closes w.notices) (
            ap₂ ◌++◌ w.sent w.output
            ∙ append_assoc c.sent (take n (readable c.output)) (drop n (readable c.output))
            ∙ ap (λ xs. c.sent ++ xs) (take-append-drop n (readable c.output))
            ∙ same_stream c),
      )
]

run_lem :
    (result : WriteResult) (fs : List Functor) (c : Connection)
    → IsValid c
    → CanRun result fs c
    → Succeeds (added_by result fs c) (run_first result fs c) c
unfolding stream
run_lem result [] c v can = (c, refl, stays c v)
run_lem result (send_functor bytes ∷ fs) c v can =
    let s = aside fs c.delayed c.write_closed c v in
    let (c', e, t) =
      sending result (c_string bytes) (record c { queued = fs }) s.valid can.0 can.1 in
    (c', e, record { valid = t.valid; bytes = t.bytes; forward = t.forward; once = t.once })
run_lem result (shutdown_functor ∷ fs) c v can = (_, refl, shut_now fs c v)
run_lem result (force_close_functor ∷ fs) c v can =
    let s = aside fs c.delayed c.write_closed c v in
    let (c', e, t) = closes_in_loop (record c { queued = fs }) s.valid in
    (c', e, record { valid = t.valid; bytes = t.bytes; forward = t.forward; once = t.once })
run_lem result (start_read_functor ∷ fs) c v can =
    let s = aside fs c.delayed c.write_closed c v in
    (record c { queued = fs }, ap some (starts (record c { queued = fs }) s.valid can), s)
run_lem result (write_complete_functor ∷ fs) c v can =
    (_, refl, aside fs c.delayed c.write_closed c v)
run_lem result (high_water_functor n ∷ fs) c v can =
    (_, refl, aside fs c.delayed c.write_closed c v)

fire_lem : (ts : List ℕ) (c : Connection) → IsValid c → Stepped [] c (fire_first ts c)
unfolding stream
fire_lem [] c v = stays c v
fire_lem (t ∷ ts) c v =
    let s = aside c.queued ts c.write_closed c v in
    let u = forces (record c { delayed = ts }) s.valid in
    record { valid = u.valid; bytes = u.bytes; forward = u.forward; once = u.once }

pub step_lem :
    (e : Event) (c : Connection) → IsValid c → Possible e c → Succeeds (added e c) (step e c) c
step_lem (sends in_loop result bytes) c v can = send_lem in_loop result bytes c v can.0 can.1
step_lem (shuts_down in_loop) c v can = (_, refl, shuts in_loop c v)
step_lem (starts_reading in_loop) c v can = (_, refl, start_lem in_loop c v can)
step_lem force_closes c v can = (_, refl, forces c v)
step_lem timer_fires c v can = (_, refl, fire_lem c.delayed c v)
step_lem (force_closes_later seconds) c v can = (_, refl, forces_later seconds c v)
step_lem (is_readable result) c v can = read_lem result c v can
step_lem (is_writable result) c v can = write_lem result c v can
step_lem (runs_functor result) c v can = run_lem result c.queued c v can
