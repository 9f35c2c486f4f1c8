-- ===== src/Connection/Send.antt =====
-- `sendInLoop` of networker/net/TcpConnection.cpp, seen on the stream of a connection: the bytes
-- that went out, then those in the output buffer.
use network_program_base_fra.Prelude.{
  ℕ, ◌+◌, ◌^◌, ◌<◌, ◌≡◌, refl, sym, ap, ap₂, ◌∙◌, true, false, ◌||◌, List, [], ◌++◌, length, ltb,
  ◌==◌, inl, inr, arith, Bool-cases, some, take, drop, if◌then◌else◌, append-nil, append_assoc,
  take-append-drop,
}
use network_program_base_fra.Buffer.{readable}
use network_program_base_fra.Connection.{
  Connection, is_disconnected, took, send_in_loop, WriteResult, wrote, write_failed, epipe,
  econnreset,
}
use network_program_base_fra.Connection.Valid.{IsValid}
use network_program_base_fra.Connection.Rest.{stream}
use network_program_base_fra.Connection.FirstWrite.{
  Takes, is_fatal, kept, Moves, first_write-busy, after_lem, nil_lem, first_write-idle, size_test,
  took-IsValid,
}

send-busy :
    (result : WriteResult) (bytes : List ℕ) (c : Connection)
    → IsValid c
    → is_disconnected c.state ≡ false
    → ltb 0 (length (readable c.output)) ≡ true
    → length c.output.storage + length bytes < 2 ^ 63
    → (c' : Connection) × (send_in_loop result bytes c ≡ some c') × Moves bytes c c'
unfolding send_in_loop stream
send-busy result bytes c v up busy fits =
    let (c', e, h) = after_lem 0 bytes c v up (omega arith) fits in
    (
      c',
      rw
          (
            up,
            first_write-busy result bytes c v up busy,
            size_test 0 bytes (omega arith) (omega arith),
          )
          e,
      record {
        valid = h.valid;
        state = h.state;
        notices = h.notices;
        bytes = ap₂ ◌++◌ h.sent h.output ∙ sym (append_assoc c.sent (readable c.output) bytes);
      },
    )

send-idle :
    (result : WriteResult) (bytes : List ℕ) (c : Connection)
    → IsValid c
    → is_disconnected c.state ≡ false
    → ltb 0 (length (readable c.output)) ≡ false
    → Takes result bytes
    → length c.output.storage + length bytes < 2 ^ 63
    → (c' : Connection) × (send_in_loop result bytes c ≡ some c')
      × Moves (if is_fatal result then [] else bytes) c c'
unfolding send_in_loop stream
send-idle (wrote n) bytes c v up idle takes fits =
    let (c', e, h) = after_lem n bytes (took n bytes c) (took-IsValid n bytes v) up takes fits in
    let empty : readable c.output ≡ [] = nil_lem (readable c.output) idle in
    (
      c',
      rw (up, (first_write-idle n bytes c v up idle).0, size_test n bytes takes (omega arith)) e,
      record {
        valid = h.valid;
        state = h.state;
        notices = h.notices;
        bytes =
            ap₂ ◌++◌ h.sent (h.output ∙ ap (λ xs. xs ++ drop n bytes) empty)
            ∙ append_assoc c.sent (take n bytes) (drop n bytes)
            ∙ ap (λ xs. c.sent ++ xs) (take-append-drop n bytes)
            ∙ ap (λ xs. xs ++ bytes) (sym (ap (λ xs. c.sent ++ xs) empty ∙ append-nil c.sent));
      },
    )
send-idle (write_failed n) bytes c v up idle takes fits =
    elim (Bool-cases ((n == epipe) || (n == econnreset))) [
      | inl fatal ↦ (
        c,
        rw
            (
              up,
              (first_write-idle n bytes c v up idle).1,
              size_test 0 bytes (omega arith) (omega arith),
              fatal,
            )
            refl,
        record { valid = v; state = refl; notices = refl; bytes = rw fatal (sym (append-nil _)) },
      )
      | inr mild ↦
          let (c', e, h) = after_lem 0 bytes c v up (omega arith) fits in
          (
            c',
            rw
                (
                  up,
                  (first_write-idle n bytes c v up idle).1,
                  size_test 0 bytes (omega arith) (omega arith),
                  mild,
                )
                e,
            record {
              valid = h.valid;
              state = h.state;
              notices = h.notices;
              bytes =
                  ap₂ ◌++◌ h.sent h.output
                  ∙ rw mild (sym (append_assoc c.sent (readable c.output) bytes));
            },
          )
    ]

send-down :
    (result : WriteResult) (bytes : List ℕ) (c : Connection)
    → is_disconnected c.state ≡ true
    → send_in_loop result bytes c ≡ some c
unfolding send_in_loop
send-down result bytes c down = rw down refl

-- sendInLoop on a valid connection fails no assertion, if write takes no more than it is given and
-- the output buffer stays below 2 ^ 63 bytes. It leaves the connection valid and its state as it
-- is. Its bytes are added at the end of the stream, that is what was sent and then what waits in
-- the output buffer, none lost or out of order; none is added if the connection is closed, or if
-- the buffer is empty and the write fails with EPIPE or ECONNRESET.
pub send_in_loop_lem :
    (result : WriteResult) (bytes : List ℕ) (c : Connection)
    → IsValid c
    → Takes result bytes
    → length c.output.storage + length bytes < 2 ^ 63
    → (c' : Connection) × (send_in_loop result bytes c ≡ some c') × Moves (kept result bytes c) c c'
unfolding stream
send_in_loop_lem result bytes c v takes fits = elim (Bool-cases (is_disconnected c.state)) [
  | inl down ↦ (
    c,
    send-down result bytes c down,
    record { valid = v; state = refl; notices = refl; bytes = rw down (sym (append-nil _)) },
  )
  | inr up ↦ elim (Bool-cases (ltb 0 (length (readable c.output)))) [
    | inl busy ↦ rw (up, busy) (send-busy result bytes c v up busy fits)
    | inr idle ↦ rw (up, idle) (send-idle result bytes c v up idle takes fits)
  ]
]
