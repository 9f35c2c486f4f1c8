-- ===== src/TcpClient/Run.antt =====
-- The client of networker/net/TcpClient.cpp under any order of its calls and of what happens to
-- its connector and its connection.
use network_program_base_fra.Prelude.{
  ℕ, ◌≡◌, refl, sym, ◌∙◌, subst, Bool, true, false, none, some, some_inj, ==_iff, ◌>>=◌,
  >>=-eq-some, arith,
}
use network_program_base_fra.Connector
use network_program_base_fra.Connector.{Connector, is_disconnected}
use network_program_base_fra.Connector.Steps
use network_program_base_fra.Connector.Steps.{starts}
use network_program_base_fra.TcpClient.{TcpClient, new, connect, remove_connection, handle_close}
use network_program_base_fra.TcpClient.Valid.{
  Event, step, Called, is_connected_state, IsValid, disconnect-IsValid, stop-IsValid, run_next_lem,
  driven-IsValid, connects, disconnects, stops_client, destroys, drives, is_writable_client, closes,
}
use network_program_base_fra.TcpClient.Steps.{handle_write-IsValid, handle_close-IsValid}

-- Every step that returns keeps the client valid.
step-IsValid :
    (e : Event) (c d : TcpClient) → IsValid c → Called e c → step e c ≡ some d → IsValid d
unfolding step connect
step-IsValid (connects in_loop sockfd errno) c d v h q =
    let (k, e, same) =
      >>=-eq-some (Connector.start in_loop sockfd errno c.connector)
        (λ k. some (record c { connect_flag = true; connector = k })) q in
    subst IsValid (some_inj same) (driven-IsValid (starts in_loop sockfd errno) k true c v tt e)
step-IsValid disconnects c d v h q = subst IsValid (some_inj q) (disconnect-IsValid c v)
step-IsValid stops_client c d v h q = subst IsValid (some_inj q) (stop-IsValid c v)
step-IsValid destroys c d v h q =
    let (x, f, w) = run_next_lem c v in subst IsValid (some_inj (sym f ∙ q)) w
step-IsValid (drives e) c d v h q =
    let (k, f, same) =
      >>=-eq-some (Connector.Steps.step e c.connector) (λ k. some (record c { connector = k })) q in
    subst IsValid (some_inj same) (driven-IsValid e k c.connect_flag c v h f)
step-IsValid (is_writable_client err self) c d v h q = handle_write-IsValid err self c d v q
step-IsValid (closes sockfd errno a) c d v h q = handle_close-IsValid sockfd errno a c d v h q

new-IsValid : (retry : Bool) → IsValid (new retry)
unfolding new
new-IsValid retry = record {
  positive = omega arith;
  inner = Connector.Steps.new-IsValid;
  balance = λ a. ground arith;
  alive = λ a e. absurd (ground arith);
  up = λ a e. absurd (ground arith);
  only = λ a h. absurd (omega (arith, h.0, h.1));
  quiet = λ a h. absurd (omega (arith, h.0, h.1));
}

pub data Reaches : Bool → TcpClient → Type 0 where
  begins : {retry : Bool} → Reaches retry (new retry)
  goes_on :
      {retry : Bool} {c d : TcpClient} (e : Event)
      → Reaches retry c
      → Called e c
      → step e c ≡ some d
      → Reaches retry d

pub reaches-IsValid : {retry : Bool} {c : TcpClient} → Reaches retry c → IsValid c
reaches-IsValid (begins {retry}) = new-IsValid retry
reaches-IsValid (goes_on {retry} {c} {d} e r h f) = step-IsValid e c d (reaches-IsValid r) h f

stays_connected : (s : Connector.State) → is_connected_state s ≡ true → is_disconnected s ≡ false
stays_connected Connector.disconnected h = absurd (ground arith)
stays_connected Connector.connecting h = absurd (ground arith)
stays_connected Connector.connected h = refl

-- A client that does not retry, whose connection closes and that is told to connect again from its
-- loop's thread, fails the assertion of the connector, which still counts as connected.
pub connect-handle_close :
    (sockfd errno a : ℕ) (c : TcpClient)
    → IsValid c
    → c.connection ≡ some a
    → c.retry ≡ false
    → (handle_close sockfd errno a c >>= connect true sockfd errno) ≡ none
unfolding handle_close remove_connection connect Connector.start Connector.start_in_loop
connect-handle_close sockfd errno a c v e once =
    rw (v.alive a e, e, (==_iff a a).1 refl, once, stays_connected c.connector.state (v.up a e))
      refl
