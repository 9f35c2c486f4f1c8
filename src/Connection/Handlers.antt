-- ===== src/Connection/Handlers.antt =====
-- The other operations of networker/net/TcpConnection.cpp on a valid connection.
use network_program_base_fra.Prelude.{
  ℕ, ◌<◌, ◌≤◌, ◌≡◌, refl, sym, ap, ◌∙◌, Bool, true, false, ◌&&◌, ◌||◌, List, [], ◌∷◌, ◌++◌, length,
  leb, ◌==◌, inl, inr, arith, Bool-cases, some, take, drop, if◌then◌else◌, lt→ltb, leb→le,
  length-drop, ◌-◌, ==_iff,
}
use network_program_base_fra.Buffer.{Buffer, readable, readable_bytes}
use network_program_base_fra.Buffer.Valid
use network_program_base_fra.Buffer.Contents.{retrieve_lem}
use network_program_base_fra.Channel.{is_writing, disable_writing}
use network_program_base_fra.Channel.Flags.{Interest, code, shows, apply-code, stops_writing}
use network_program_base_fra.Connection.{
  Connection, State, is_open, is_disconnected, is_disconnecting, connecting, connected,
  disconnecting, disconnected, handle_write, drained, shutdown_in_loop, wrote,
  write_complete_functor, when,
}
use network_program_base_fra.Connection.Valid.{IsValid, wants, is_writing_lem}

-- After the last byte: the channel does not write, and a connection that is being shut down shuts
-- down its sending side.
pub record Drained (is_closing : Bool) (c c' : Connection) : Type 0 where
  pub valid : IsValid c'
  pub state : c'.state ≡ c.state
  pub notices : c'.notices ≡ c.notices
  pub sent : c'.sent ≡ c.sent
  pub output : c'.output ≡ c.output
  pub quiet : is_writing c'.channel ≡ false
  pub closes : c'.write_closed ≡ (is_closing || c.write_closed)
  pub tells :
      c'.queued
      ≡ (if c.has_write_complete then c.queued ++ write_complete_functor ∷ [] else c.queued)

wants_empty :
    (s : State) (b : Buffer)
    → readable b ≡ []
    → wants s b ≡ record { reading = is_open s; writing = false }
wants_empty disconnected b e = refl
wants_empty connecting b e = rw e refl
wants_empty connected b e = rw e refl
wants_empty disconnecting b e = rw e refl

drained_lem :
    (c : Connection)
    → Valid.IsValid c.input
    → Valid.IsValid c.output
    → c.reading ≡ true
    → c.channel.events ≡ code (record { reading = is_open c.state; writing = true })
    → readable c.output ≡ []
    → Drained (is_disconnecting c.state) c (drained c)
unfolding drained shutdown_in_loop
drained_lem c vi vo r e empty =
    let rest : Interest = record { reading = is_open c.state; writing = false } in
    let events : (disable_writing c.channel).events ≡ code rest =
      apply-code stops_writing c.channel (record { reading = is_open c.state; writing = true }) e in
    let quiet : is_writing (disable_writing c.channel) ≡ false =
      (shows (disable_writing c.channel) rest events).writing in
    let told : Connection =
      when c.has_write_complete write_complete_functor
        (record c { channel = disable_writing c.channel }) in
    let valid : IsValid told = record {
      input = vi;
      output = vo;
      events = events ∙ ap code (sym (wants_empty c.state c.output empty));
      reading = r;
    } in
    go (is_disconnecting c.state) valid quiet
  where
    go :
        (d : Bool)
        → let told : Connection =
            when c.has_write_complete write_complete_functor
              (record c { channel = disable_writing c.channel }) in
          IsValid told
          → is_writing told.channel ≡ false
          → Drained d c (if d then shutdown_in_loop told else told)
    go true v q = record {
      valid = record { input = v.input; output = v.output; events = v.events; reading = v.reading };
      state = refl;
      notices = refl;
      sent = refl;
      output = refl;
      quiet = q;
      closes = rw q refl;
      tells = refl;
    }
    go false v q = record {
      valid = v;
      state = refl;
      notices = refl;
      sent = refl;
      output = refl;
      quiet = q;
      closes = refl;
      tells = refl;
    }

-- What a write of `n` bytes of the output does.
pub record Wrote (n : ℕ) (c c' : Connection) : Type 0 where
  pub valid : IsValid c'
  pub state : c'.state ≡ c.state
  pub notices : c'.notices ≡ c.notices
  pub sent : c'.sent ≡ c.sent ++ take n (readable c.output)
  pub output : readable c'.output ≡ drop n (readable c.output)
  pub closes :
      c'.write_closed
      ≡ ((leb (length (readable c.output)) n && is_disconnecting c.state) || c.write_closed)
  pub tells : c'.queued ≡ (
      if leb (length (readable c.output)) n && c.has_write_complete
      then c.queued ++ write_complete_functor ∷ []
      else c.queued)

empty_lem : (xs : List ℕ) → length xs ≡ 0 → xs ≡ []
empty_lem [] e = refl
empty_lem (x ∷ xs) e = absurd (omega arith)

wants_full :
    (s : State) (b : Buffer)
    → is_disconnected s ≡ false
    → 0 < length (readable b)
    → wants s b ≡ record { reading = is_open s; writing = true }
wants_full s b up some_left = rw (up, lt→ltb _ _ some_left) refl

leb-false : (a b : ℕ) → leb a b ≡ false → b < a
leb-false a b e = ground arith

positive_test : (a : ℕ) → 0 < a → (a == 0) ≡ false
positive_test a h = ground arith

-- handleWrite on a valid connection that is not closed and has output, when write takes n > 0
-- bytes of it: no assertion fails and the connection stays valid and in its state. The bytes go
-- from the front of the output to what was sent. If they are all of it, write completion is
-- reported if it is asked for, and the sending side is shut down if the connection is
-- disconnecting; otherwise neither happens.
pub handle_write_lem :
    (n : ℕ) (c : Connection)
    → IsValid c
    → is_disconnected c.state ≡ false
    → 0 < n
    → n ≤ length (readable c.output)
    → (c' : Connection) × (handle_write (wrote n) c ≡ some c') × Wrote n c c'
unfolding handle_write
handle_write_lem n c v up pos_n h =
    let out : List ℕ = readable c.output in
    let (output, e, r) = retrieve_lem n c.output v.output h in
    let c1 : Connection = record c { output = output; sent = c.sent ++ take n out } in
    let full = wants_full c.state c.output up (omega arith) in
    let size : length (readable output) ≡ length out - n = ap length r.bytes ∙ length-drop n out in
    let readable_size : length (readable output) ≡ readable_bytes output =
      Valid.length-readable r.valid in
    elim (Bool-cases (leb (length out) n)) [
      | inl all ↦
          let none_left : length (readable output) ≡ 0 = omega (arith, leb→le (length out) n all) in
          let test : (readable_bytes output == 0) ≡ true =
            (==_iff (readable_bytes output) 0).1 (sym readable_size ∙ none_left) in
          let d =
            drained_lem c1 v.input r.valid v.reading (v.events ∙ ap code full)
              (empty_lem (readable output) none_left) in
          (
            drained c1,
            rw (is_writing_lem v up, lt→ltb 0 (length out) (omega arith), lt→ltb 0 n pos_n, e, test)
                refl,
            record {
              valid = d.valid;
              state = d.state;
              notices = d.notices;
              sent = d.sent;
              output = ap readable d.output ∙ r.bytes;
              closes = rw all d.closes;
              tells = rw all d.tells;
            },
          )
      | inr part ↦
          let some_left : 0 < length (readable output) =
            omega (arith, leb-false (length out) n part) in
          let test : (readable_bytes output == 0) ≡ false =
            positive_test (readable_bytes output) (omega arith) in
          (
            c1,
            rw (is_writing_lem v up, lt→ltb 0 (length out) (omega arith), lt→ltb 0 n pos_n, e, test)
                refl,
            record {
              valid = record {
                input = v.input;
                output = r.valid;
                events = v.events ∙ ap code (full ∙ sym (wants_full c.state output up some_left));
                reading = v.reading;
              };
              state = refl;
              notices = refl;
              sent = refl;
              output = r.bytes;
              closes = rw part refl;
              tells = rw part refl;
            },
          )
    ]
