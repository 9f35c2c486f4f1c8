-- ===== src/Connection/Valid.antt =====
-- The invariant of a connection of networker/net/TcpConnection.cpp: its channel asks for what
-- the state and the output buffer need, and for nothing else.
use network_program_base_fra.Prelude.{
  ℕ, ◌≡◌, refl, sym, ◌∙◌, true, false, not, ◌&&◌, length, ltb, ◌==◌, arith,
}
use network_program_base_fra.Buffer.{Buffer, readable, readable_bytes}
use network_program_base_fra.Buffer.Valid
use network_program_base_fra.Channel.{is_writing}
use network_program_base_fra.Channel.Flags.{Interest, code, shows}
use network_program_base_fra.Connection.{Connection, State, is_open, is_disconnected}

-- Reading from the moment the connection is up until it is closed, writing while there is output.
abbrev pub wants : State → Buffer → Interest
wants s output = record {
  reading = is_open s;
  writing = not (is_disconnected s) && ltb 0 (length (readable output));
}

pub record IsValid (c : Connection) : Type 0 where
  pub input : Valid.IsValid c.input
  pub output : Valid.IsValid c.output
  pub events : c.channel.events ≡ code (wants c.state c.output)
  pub reading : c.reading ≡ true

pub is_writing_lem :
    {c : Connection}
    → IsValid c
    → is_disconnected c.state ≡ false
    → is_writing c.channel ≡ ltb 0 (length (readable c.output))
is_writing_lem {c} v up = (shows c.channel (wants c.state c.output) v.events).writing ∙ rw up refl

pub readable_lem :
    {c : Connection} → IsValid c → length (readable c.output) ≡ readable_bytes c.output
readable_lem v = Valid.length-readable v.output

-- The test of `sendInLoop`, and that of the test of an output that is there.
pub idle_lem :
    {c : Connection}
    → IsValid c
    → is_disconnected c.state ≡ false
    → (not (is_writing c.channel) && (readable_bytes c.output == 0))
      ≡ not (ltb 0 (length (readable c.output)))
idle_lem {c} v up =
    let e = readable_lem v in rw (is_writing_lem v up, sym e) (both (length (readable c.output)))
  where
    both : (n : ℕ) → (not (ltb 0 n) && (n == 0)) ≡ not (ltb 0 n)
    both n = ground arith
