-- ===== src/Connection/Life.antt =====
-- The life of a connection of networker/net/TcpConnection.cpp from `connectEstablished` on.
use network_program_base_fra.Prelude.{
  ℕ, ◌+◌, ◌≡◌, refl, sym, ap, ap₂, ◌∙◌, Bool, not, true, false, List, [], ◌∷◌, ◌++◌, ◌||◌, ◌>>=◌,
  arith, some, none, append-nil, append_assoc, some_inj, subst,
}
use network_program_base_fra.Buffer
use network_program_base_fra.Buffer.{initial_size, readable}
use network_program_base_fra.Buffer.Contents.{new_lem}
use network_program_base_fra.Channel.{
  is_none_event, is_reading, Channel, remove, enable_reading, tie,
}
use network_program_base_fra.Channel
use network_program_base_fra.Channel.Flags.{shows, apply-code, stops, reads}
use network_program_base_fra.Connection.{
  Connection, State, is_disconnected, is_connected, disconnected, connected, disconnecting,
  connecting, is_up, start_read_in_loop, connect_established, connect_destroyed, go_down, go_up,
  fresh, new,
}
use network_program_base_fra.Connection.Valid.{IsValid, wants}
use network_program_base_fra.Connection.Rest.{stream}
use network_program_base_fra.Connection.Run.{step_lem}
use network_program_base_fra.Buffer.Valid
use network_program_base_fra.Connection.Stream.{
  Event, step, Possible, added, closes, to_close, Stepped,
}

-- What possible steps lead to, with the bytes that they add to the stream.
pub data Reaches (c : Connection) : List ℕ → Connection → Type 0 where
  start : Reaches c [] c
  after :
      {xs : List ℕ} {d d' : Connection}
      → Reaches c xs d
      → (e : Event) → Possible e d
      → step e d ≡ some d'
      → Reaches c (xs ++ added e d) d'

reaches_lem : {c d : Connection} {xs : List ℕ} → Reaches c xs d → IsValid c → Stepped xs c d
unfolding stream
reaches_lem {c} start v = record {
  valid = v;
  bytes = sym (append-nil _);
  forward = omega arith;
  once = refl;
}
reaches_lem {c} (after {xs} {d} {d'} r e can q) v =
    let s = reaches_lem r v in
    let (x, f, t) = step_lem e d s.valid can in
    let same : x ≡ d' = some_inj (sym f ∙ q) in
    let u : Stepped (added e d) d d' = subst (λ z. Stepped (added e d) d z) same t in
    record {
      valid = u.valid;
      bytes = u.bytes ∙ ap (λ ys. ys ++ added e d) s.bytes ∙ append_assoc (stream c) xs (added e d);
      forward = omega (arith, s.forward, u.forward);
      once = u.once ∙ s.once;
    }

pub record Established (c : Connection) : Type 0 where
  pub valid : IsValid c
  pub state : c.state ≡ connected
  pub bytes : stream c ≡ []
  pub open_calls : c.notices ≡ is_up ∷ []

pub fresh-Established :
    (fd : ℕ) (b : Buffer.Buffer)
    → Valid.IsValid b
    → readable b ≡ []
    → Established (go_up (fresh fd b b))
unfolding stream Channel.new tie
fresh-Established fd b v e = record {
  valid = record {
    input = v;
    output = v;
    events =
        apply-code reads (tie (fresh fd b b).channel) (record { reading = false; writing = false })
          refl
        ∙ rw e refl;
    reading = refl;
  };
  state = refl;
  bytes = e;
  open_calls = refl;
}

established_lem :
    (fd : ℕ) → (c : Connection) × ((new fd >>= connect_established) ≡ some c) × Established c
unfolding new connect_established
established_lem fd =
    let (b, e, h) = new_lem initial_size (omega arith) in
    (go_up (fresh fd b b), rw e refl, fresh-Established fd b h.valid h.bytes)

-- A new connection that is established and then makes any possible steps has sent, with what waits
-- in its output buffer, the bytes of its sends in their order, without loss or repetition among
-- those that count. A send from another thread counts when it runs, up to its first zero byte. A
-- send counts for nothing if the connection is not connected when it is called, is closed when it
-- runs, or if the write that it tries fails with EPIPE or ECONNRESET. Possible steps are those in
-- which read and write return what they can, buffers have room, no event is read from a closed
-- connection, and startRead neither is called nor, if it was queued, runs after the close. The
-- connection is valid, and its close callback was made once if it is closed and not at all before.
pub life_lem :
    (fd : ℕ) (c d : Connection) (xs : List ℕ)
    → (new fd >>= connect_established) ≡ some c
    → Reaches c xs d
    → (stream d ≡ xs) × IsValid d × (closes d.notices + to_close d.state ≡ 1)
life_lem fd c d xs e r =
    let (c', f, h) = established_lem fd in
    let same : c' ≡ c = some_inj (sym f ∙ e) in
    let k : Established c = subst Established same h in
    let s = reaches_lem r k.valid in
    (
      s.bytes ∙ ap (λ ys. ys ++ xs) k.bytes,
      s.valid,
      s.once ∙ ap₂ ◌+◌ (ap closes k.open_calls) (ap to_close k.state),
    )

-- Taking a channel from the loop asserts that it asks for nothing.
remove-asking : (ch : Channel) → is_none_event ch ≡ false → remove ch ≡ none
unfolding remove
remove-asking ch e = rw e refl

remove-quiet :
    (ch : Channel)
    → is_none_event ch ≡ true
    → (ch' : Channel) × (remove ch ≡ some ch') × (ch'.added_to_loop ≡ false)
unfolding remove
remove-quiet ch e = (
  record ch { added_to_loop = false; loop_calls = Channel.removes ∷ ch.loop_calls },
  rw e refl,
  refl,
)

down_quiet :
    (c : Connection)
    → IsValid c
    → (is_connected c.state || is_disconnected c.state) ≡ true
    → ((go_down c).state ≡ disconnected) × (is_none_event (go_down c).channel ≡ true)
down_quiet c v h = go c.state refl h
  where
    go :
        (s : State)
        → c.state ≡ s
        → (is_connected s || is_disconnected s) ≡ true
        → ((go_down c).state ≡ disconnected) × (is_none_event (go_down c).channel ≡ true)
    go connected e k = rw (ap is_connected e) (
      refl,
      (shows (Channel.disable_all c.channel) (record { reading = false; writing = false })
          (apply-code stops c.channel (wants c.state c.output) v.events)).nothing,
    )
    go disconnected e k =
        rw (ap is_connected e)
          (e, (shows c.channel (wants c.state c.output) v.events).nothing ∙ rw e refl)
    go connecting e k = absurd (ground arith)
    go disconnecting e k = absurd (ground arith)

-- connectDestroyed on a valid connection that is connected or closed fails no assertion: the
-- connection is closed then, and its channel taken from the loop.
pub connect_destroyed_lem :
    (c : Connection)
    → IsValid c
    → (is_connected c.state || is_disconnected c.state) ≡ true
    → (d : Connection) × (connect_destroyed c ≡ some d)
      × (d.state ≡ disconnected)
      × (d.channel.added_to_loop ≡ false)
unfolding connect_destroyed
connect_destroyed_lem c v h =
    let (down, quiet) = down_quiet c v h in
    let (ch, e, removed) = remove-quiet (go_down c).channel quiet in
    (record (go_down c) { channel = ch }, rw e refl, down, removed)

-- connectDestroyed on a valid connection that is still disconnecting fails the assertion of
-- Channel::remove, since the channel asks for events.
pub connect_destroyed-disconnecting :
    (c : Connection) → IsValid c → c.state ≡ disconnecting → connect_destroyed c ≡ none
unfolding connect_destroyed
connect_destroyed-disconnecting c v e =
    let asks : is_none_event c.channel ≡ false =
      (shows c.channel (wants c.state c.output) v.events).nothing ∙ rw e refl in
    let fails : remove c.channel ≡ none = remove-asking c.channel asks in
    rw (ap is_connected e, fails) refl

-- A startRead that runs after a valid connection was closed lets its channel ask for events again,
-- so that connectDestroyed fails the assertion of Channel::remove.
pub start_read-closed :
    (c : Connection)
    → IsValid c
    → c.state ≡ disconnected
    → connect_destroyed (start_read_in_loop c) ≡ none
unfolding connect_destroyed start_read_in_loop
start_read-closed c v e =
    let off : is_reading c.channel ≡ false =
      (shows c.channel (wants c.state c.output) v.events).reading ∙ rw e refl in
    let asks : is_none_event (enable_reading c.channel) ≡ false =
      (shows (enable_reading c.channel)
        (record { reading = true; writing = (wants c.state c.output).writing })
        (apply-code reads c.channel (wants c.state c.output) v.events)).nothing in
    rw (off, or_true c.reading, ap is_connected e, remove-asking (enable_reading c.channel) asks)
      refl
  where
    or_true : (b : Bool) → (not b || true) ≡ true
    or_true true = refl
    or_true false = refl
