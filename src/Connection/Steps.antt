-- ===== src/Connection/Steps.antt =====
-- Every step of networker/net/TcpConnection.cpp that is possible succeeds, keeps the connection
-- valid and adds to its stream what it should.
use network_program_base_fra.Prelude.{
  ℕ, ◌+◌, ◌≤◌, ◌≡◌, refl, sym, ap, ap₂, ◌∙◌, Bool, true, false, List, [], ◌∷◌, ◌++◌, inl, inr,
  arith, Bool-cases, some, if◌then◌else◌, append-nil,
}
use network_program_base_fra.Buffer.{Buffer}
use network_program_base_fra.Channel.{disable_all}
use network_program_base_fra.Channel.Flags.{code, shows, apply-code, stops}
use network_program_base_fra.Connection.{
  Connection, State, is_open, is_connected, connecting, connected, disconnecting, disconnected,
  send_in_loop, shutdown, shutdown_in_loop, force_close, force_close_in_loop,
  force_close_with_delay, start_read_in_loop, handle_close, WriteResult, Functor, shutdown_functor,
  force_close_functor, closed, is_down, queue_in_loop,
}
use network_program_base_fra.Connection.Valid.{IsValid, wants}
use network_program_base_fra.Connection.Rest.{stream}
use network_program_base_fra.Connection.FirstWrite.{Takes, kept}
use network_program_base_fra.Connection.Send.{send_in_loop_lem}
use network_program_base_fra.Connection.Stream.{HasRoom, rank, closes, to_close, Stepped}

-- A step that leaves the state and the close callback, and adds to the stream.
pub still :
    {c c' : Connection} {xs : List ℕ}
    → IsValid c'
    → c'.state ≡ c.state
    → closes c'.notices ≡ closes c.notices
    → stream c' ≡ stream c ++ xs
    → Stepped xs c c'
still {c} {c'} v s n b = record {
  valid = v;
  bytes = b;
  forward = omega (arith, ap rank s);
  once = ap₂ ◌+◌ n (ap to_close s);
}

pub same_stream : (c : Connection) → stream c ≡ stream c ++ []
same_stream c = sym (append-nil (stream c))

pub stays : (c : Connection) → IsValid c → Stepped [] c c
stays c v = still v refl refl (same_stream c)

pub sending :
    (result : WriteResult) (bytes : List ℕ) (c : Connection)
    → IsValid c
    → Takes result bytes
    → HasRoom bytes c.output
    → (c' : Connection) × (send_in_loop result bytes c ≡ some c')
      × Stepped (kept result bytes c) c c'
sending result bytes c v takes fits =
    let (c', e, m) = send_in_loop_lem result bytes c v takes fits in
    (c', e, still m.valid m.state (ap closes m.notices) m.bytes)

pub closing :
    (c : Connection)
    → IsValid c
    → is_open c.state ≡ true
    → (c' : Connection) × (handle_close c ≡ some c') × Stepped [] c c'
unfolding handle_close stream
closing c v up = (
  record c {
    state = disconnected;
    channel = disable_all c.channel;
    notices = closed ∷ is_down ∷ c.notices;
  },
  rw up refl,
  record {
    valid = record {
      input = v.input;
      output = v.output;
      events = apply-code stops c.channel (wants c.state c.output) v.events;
      reading = v.reading;
    };
    bytes = same_stream c;
    forward = below c.state;
    once = counts c.state up;
  },
)
  where
    below : (s : State) → rank s ≤ 3
    below disconnected = omega arith
    below connecting = omega arith
    below connected = omega arith
    below disconnecting = omega arith

    counts :
        (s : State) → is_open s ≡ true → 1 + closes c.notices + 0 ≡ closes c.notices + to_close s
    counts disconnected e = absurd (ground arith)
    counts connecting e = absurd (ground arith)
    counts connected e = omega arith
    counts disconnecting e = omega arith

-- What the stream does not depend on.
pub aside :
    (q : List Functor) (d : List ℕ) (w : Bool) (c : Connection)
    → IsValid c
    → Stepped [] c (record c { queued = q; delayed = d; write_closed = w })
unfolding stream
aside q d w c v =
    still (record { input = v.input; output = v.output; events = v.events; reading = v.reading })
      refl refl (same_stream c)

wants_open : (s : State) (b : Buffer) → is_open s ≡ true → wants s b ≡ wants disconnecting b
wants_open disconnected b e = absurd (ground arith)
wants_open connecting b e = absurd (ground arith)
wants_open connected b e = refl
wants_open disconnecting b e = refl

-- An open connection starts to close.
slows :
    (q : List Functor) (d : List ℕ) (w : Bool) (c : Connection)
    → IsValid c
    → is_open c.state ≡ true
    → Stepped [] c (record c { state = disconnecting; queued = q; delayed = d; write_closed = w })
unfolding stream
slows q d w c v up = record {
  valid = record {
    input = v.input;
    output = v.output;
    events = v.events ∙ ap code (wants_open c.state c.output up);
    reading = v.reading;
  };
  bytes = same_stream c;
  forward = below c.state up;
  once = counts c.state up;
}
  where
    below : (s : State) → is_open s ≡ true → rank s ≤ 2
    below disconnected e = absurd (ground arith)
    below connecting e = omega arith
    below connected e = omega arith
    below disconnecting e = omega arith

    counts : (s : State) → is_open s ≡ true → closes c.notices + 1 ≡ closes c.notices + to_close s
    counts disconnected e = absurd (ground arith)
    counts connecting e = refl
    counts connected e = refl
    counts disconnecting e = refl

pub shuts : (in_loop : Bool) (c : Connection) → IsValid c → Stepped [] c (shutdown in_loop c)
unfolding shutdown shutdown_in_loop
shuts in_loop c v = go in_loop (is_connected c.state) refl
  where
    go :
        (l b : Bool)
        → is_connected c.state ≡ b
        → Stepped [] c (
            if b
            then (if l
                then shutdown_in_loop (record c { state = disconnecting })
                else queue_in_loop shutdown_functor (record c { state = disconnecting }))
            else c)
    go true true e = slows c.queued c.delayed _ c v (rw e refl)
    go false true e = slows _ c.delayed c.write_closed c v (rw e refl)
    go l false e = stays c v

pub forces : (c : Connection) → IsValid c → Stepped [] c (force_close c)
unfolding force_close
forces c v = go (is_open c.state) refl
  where
    go :
        (b : Bool)
        → is_open c.state ≡ b
        → Stepped [] c (
            if b then queue_in_loop force_close_functor (record c { state = disconnecting }) else c)
    go true e = slows _ c.delayed c.write_closed c v e
    go false e = stays c v

pub forces_later :
    (seconds : ℕ) (c : Connection) → IsValid c → Stepped [] c (force_close_with_delay seconds c)
unfolding force_close_with_delay
forces_later seconds c v = go (is_open c.state) refl
  where
    go :
        (b : Bool)
        → is_open c.state ≡ b
        → Stepped [] c (
            if b
            then record c { state = disconnecting; delayed = c.delayed ++ seconds ∷ [] }
            else c)
    go true e = slows c.queued _ c.write_closed c v e
    go false e = stays c v

pub closes_in_loop :
    (c : Connection)
    → IsValid c
    → (c' : Connection) × (force_close_in_loop c ≡ some c') × Stepped [] c c'
unfolding force_close_in_loop
closes_in_loop c v = elim (Bool-cases (is_open c.state)) [
  | inl up ↦ rw up (closing c v up)
  | inr down ↦ rw down (c, refl, stays c v)
]

-- Reading is on already.
pub starts : (c : Connection) → IsValid c → is_open c.state ≡ true → start_read_in_loop c ≡ c
unfolding start_read_in_loop
starts c v up = rw (v.reading, (shows c.channel (wants c.state c.output) v.events).reading, up) refl
