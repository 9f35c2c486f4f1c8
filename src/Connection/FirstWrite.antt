-- ===== src/Connection/FirstWrite.antt =====
-- The write that sendInLoop of networker/net/TcpConnection.cpp tries first.
use network_program_base_fra.Prelude.{
  ℕ, ◌+◌, ◌^◌, ◌<◌, ◌≤◌, ◌≡◌, refl, sym, Bool, true, false, not, ◌&&◌, ◌||◌, List, [], ◌∷◌, ◌++◌,
  length, ltb, leb, ◌==◌, arith, some, drop, if◌then◌else◌, sub_size, le→leb, length-drop, ◌-◌,
}
use network_program_base_fra.Buffer.{readable}
use network_program_base_fra.Connection.{
  Connection, is_disconnected, buffer_rest, first_write, took, WriteResult, wrote, write_failed,
  epipe, econnreset, ewouldblock,
}
use network_program_base_fra.Connection.Valid.{IsValid, idle_lem}
use network_program_base_fra.Connection.Rest.{stream, Buffered, rest_lem}

-- `write` takes no more than it is given.
abbrev pub Takes : WriteResult → List ℕ → Type 0
Takes (wrote n) bytes = n ≤ length bytes
Takes (write_failed errno) bytes = Unit {0}

abbrev pub is_fatal : WriteResult → Bool
is_fatal (wrote n) = false
is_fatal (write_failed errno) = (errno == epipe) || (errno == econnreset)

-- What a call of `sendInLoop` adds to the stream: the bytes, unless the connection is closed or
-- the write that is tried, with nothing in the buffer, finds the peer gone.
abbrev pub kept : WriteResult → List ℕ → Connection → List ℕ
kept result bytes c =
    if is_disconnected c.state || (not (ltb 0 (length (readable c.output))) && is_fatal result)
    then []
    else bytes

pub record Moves (xs : List ℕ) (c c' : Connection) : Type 0 where
  pub valid : IsValid c'
  pub state : c'.state ≡ c.state
  pub notices : c'.notices ≡ c.notices
  pub bytes : stream c' ≡ stream c ++ xs

sub_size_lem : (a b : ℕ) → b ≤ a → a < 2 ^ 64 → sub_size a b ≡ a - b
sub_size_lem a b h k = omega arith

pub first_write-busy :
    (result : WriteResult) (bytes : List ℕ) (c : Connection)
    → IsValid c
    → is_disconnected c.state ≡ false
    → ltb 0 (length (readable c.output)) ≡ true
    → first_write result bytes c ≡ record { nwrote = 0; fault_error = false; after = c }
unfolding first_write
first_write-busy (wrote n) bytes c v up busy = rw (idle_lem v up, busy) refl
first_write-busy (write_failed n) bytes c v up busy = rw (idle_lem v up, busy) refl

fault_lem :
    (n : ℕ)
    → (not (n == ewouldblock) && ((n == epipe) || (n == econnreset)))
      ≡ ((n == epipe) || (n == econnreset))
fault_lem n = ground arith

-- `sendInLoop` after the attempt.
pub after_lem :
    (n : ℕ) (bytes : List ℕ) (c : Connection)
    → IsValid c
    → is_disconnected c.state ≡ false
    → n ≤ length bytes
    → length c.output.storage + length bytes < 2 ^ 63
    → (c' : Connection) × ((if ltb 0 (sub_size (length bytes) n)
          then buffer_rest (drop n bytes) c
          else some c)
        ≡ some c')
      × Buffered (drop n bytes) c c'
after_lem n bytes c v up h fits =
    rw (sub_size_lem (length bytes) n h (omega arith), sym (length-drop n bytes))
      (rest_lem (drop n bytes) c v up (omega (arith, length-drop n bytes)))

-- Nothing to read: a list of length zero.
pub nil_lem : (xs : List ℕ) → ltb 0 (length xs) ≡ false → xs ≡ []
nil_lem [] e = refl
nil_lem (x ∷ xs) e = absurd (ground arith)

pub first_write-idle :
    (n : ℕ) (bytes : List ℕ) (c : Connection)
    → IsValid c
    → is_disconnected c.state ≡ false
    → ltb 0 (length (readable c.output)) ≡ false
    → (first_write (wrote n) bytes c
        ≡ record { nwrote = n; fault_error = false; after = took n bytes c })
      × (first_write (write_failed n) bytes c
          ≡ record { nwrote = 0; fault_error = is_fatal (write_failed n); after = c })
unfolding first_write
first_write-idle n bytes c v up idle =
    (rw (idle_lem v up, idle) refl, rw (idle_lem v up, idle, fault_lem n) refl)

pub size_test :
    (n : ℕ) (bytes : List ℕ)
    → n ≤ length bytes
    → length bytes < 2 ^ 63
    → leb (sub_size (length bytes) n) (length bytes) ≡ true
size_test n bytes h k = le→leb _ _ (omega (arith, sub_size_lem (length bytes) n h (omega arith)))

pub took-IsValid : (n : ℕ) (bytes : List ℕ) {c : Connection} → IsValid c → IsValid (took n bytes c)
took-IsValid n bytes v = record {
  input = v.input;
  output = v.output;
  events = v.events;
  reading = v.reading;
}
