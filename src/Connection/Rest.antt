-- ===== src/Connection/Rest.antt =====
-- What sendInLoop of networker/net/TcpConnection.cpp puts into the output buffer.
use network_program_base_fra.Prelude.{
  ℕ, ◌+◌, ◌^◌, ◌<◌, ◌≡◌, refl, sym, ap, ◌∙◌, Bool, true, false, List, [], ◌∷◌, ◌++◌, length, ltb,
  arith, some, if◌then◌else◌, lt→ltb, append-nil, length-append,
}
use network_program_base_fra.Buffer.{Buffer, readable}
use network_program_base_fra.Buffer.Contents.{append_lem}
use network_program_base_fra.Channel.{is_writing, Channel, enable_writing}
use network_program_base_fra.Channel.Flags.{Interest, code, shows, apply-code, writes}
use network_program_base_fra.Connection.{
  Connection, State, is_open, is_disconnected, buffer_rest, with_rest,
}
use network_program_base_fra.Connection.Valid.{IsValid, wants}

unfoldable pub stream : Connection → List ℕ
stream c = c.sent ++ readable c.output

-- The channel after `enableWriting`, unless it writes.
writing_code :
    (r w : Bool) (ch : Channel)
    → ch.events ≡ code (record { reading = r; writing = w })
    → (if is_writing ch then ch else enable_writing ch).events
      ≡ code (record { reading = r; writing = true })
writing_code r true ch e =
    let shown = shows ch (record { reading = r; writing = true }) e in rw shown.writing e
writing_code r false ch e =
    let i : Interest = record { reading = r; writing = false } in
    let shown = shows ch i e in rw shown.writing (apply-code writes ch i e)

wants_full :
    (s : State) (b : Buffer)
    → is_disconnected s ≡ false
    → 0 < length (readable b)
    → wants s b ≡ record { reading = is_open s; writing = true }
wants_full s b up some_left = rw (up, lt→ltb _ _ some_left) refl

pub record Buffered (rest : List ℕ) (c c' : Connection) : Type 0 where
  pub valid : IsValid c'
  pub state : c'.state ≡ c.state
  pub notices : c'.notices ≡ c.notices
  pub sent : c'.sent ≡ c.sent
  pub output : readable c'.output ≡ readable c.output ++ rest

buffer_rest_lem :
    (rest : List ℕ) (c : Connection)
    → IsValid c
    → is_disconnected c.state ≡ false
    → 0 < length rest
    → length c.output.storage + length rest < 2 ^ 63
    → (c' : Connection) × (buffer_rest rest c ≡ some c') × Buffered rest c c'
unfolding buffer_rest
buffer_rest_lem rest c v up some_left fits =
    let (output, e, h) = append_lem rest c.output v.output fits in
    (
      with_rest rest output c,
      rw e refl,
      record {
        valid = record {
          input = v.input;
          output = h.valid;
          events =
              writing_code (is_open c.state) _ c.channel v.events
              ∙ ap code (
                  sym (
                    wants_full c.state output up
                      (omega (arith, length-append (readable c.output) rest, ap length h.bytes))));
          reading = v.reading;
        };
        state = refl;
        notices = refl;
        sent = refl;
        output = h.bytes;
      },
    )

-- What is left is buffered if there is something left.
pub rest_lem :
    (rest : List ℕ) (c : Connection)
    → IsValid c
    → is_disconnected c.state ≡ false
    → length c.output.storage + length rest < 2 ^ 63
    → (c' : Connection) × ((if ltb 0 (length rest) then buffer_rest rest c else some c) ≡ some c')
      × Buffered rest c c'
rest_lem [] c v up fits = (
  c,
  refl,
  record { valid = v; state = refl; notices = refl; sent = refl; output = sym (append-nil _) },
)
rest_lem (x ∷ xs) c v up fits =
    let (c', e, h) = buffer_rest_lem (x ∷ xs) c v up (omega arith) fits in
    (c', rw (lt→ltb 0 (length (x ∷ xs)) (omega arith)) e, h)
