-- ===== src/TcpClient/Valid.antt =====
-- What holds of a client of networker/net/TcpClient.cpp, and the calls of its user and its
-- connector that keep it.
use network_program_base_fra.Prelude.{
  ℕ, ◌+◌, ◌<◌, ◌≤◌, ◌≡◌, inl, inr, refl, sym, ap, ◌∙◌, subst, Bool, true, false, ◌&&◌, ◌||◌, Option,
  none, some, some_inj, List, [], ◌∷◌, ◌==◌, ==_iff, ltb, Bool-cases, if◌then◌else◌, ◌>>=◌, arith,
}
use network_program_base_fra.Connection
use network_program_base_fra.Connection.{
  connected, disconnecting, disconnected, is_connected, is_disconnecting,
}
use network_program_base_fra.Connector
use network_program_base_fra.Connector.Sockets
use network_program_base_fra.Connector.Valid
use network_program_base_fra.Connector.{
  Connector, Job, is_connecting, is_disconnected, stop_in_loop, start_in_loop, handle_error,
  reset_channel, run_head, start_job, stop_job, reset_job,
}
use network_program_base_fra.Connector.Valid.{count, resets}
use network_program_base_fra.Connector.Steps
use network_program_base_fra.Connector.Steps.{
  Possible, starts, restarts, times_out, runs_next, stops, has_error, is_writable,
}
use network_program_base_fra.TcpClient.{
  TcpClient, connect, shut_down, disconnect, stop, handle_write, handle_close, destroy_first,
  connect_destroyed, run_next,
}

pub data Event : Type 0 where
  connects : Bool → ℕ → ℕ → Event
  disconnects stops_client destroys : Event
  drives : Connector.Steps.Event → Event
  is_writable_client : ℕ → Bool → Event
  closes : ℕ → ℕ → ℕ → Event

unfoldable pub step : Event → TcpClient → Option TcpClient
step (connects in_loop sockfd errno) c = connect in_loop sockfd errno c
step disconnects c = some (disconnect c)
step stops_client c = some (stop c)
step destroys c = run_next c
step (drives e) c = do k ← Connector.Steps.step e c.connector; some (record c { connector = k })
step (is_writable_client err self) c = handle_write err self c
step (closes sockfd errno a) c = handle_close sockfd errno a c

-- What moves the connector by itself: all but restart and a writable socket, which are the client's
-- own.
abbrev pub Driven : Connector.Steps.Event → Type 0
Driven (restarts sockfd errno) = ⊥
Driven (is_writable err self) = ⊥
Driven e = Unit {0}

abbrev pub Existing : ℕ → TcpClient → Type 0
Existing a c = (0 < a) × (a < c.next_conn_id)

abbrev pub is_open : Connection.State → Bool
is_open s = is_connected s || is_disconnecting s

-- A connection that closes is one that the client made.
abbrev pub Called : Event → TcpClient → Type 0
Called (drives e) c = Driven e
Called (closes sockfd errno a) c = Existing a c
Called e c = Unit {0}

abbrev pub Allowed : Event → TcpClient → Type 0
Allowed (connects in_loop sockfd errno) c = Possible (starts in_loop sockfd errno) c.connector
Allowed (drives e) c = Driven e × Possible e c.connector
Allowed (is_writable_client err self) c = Possible (is_writable err self) c.connector
Allowed (closes sockfd errno a) c =
    Existing a c × (is_open (c.states a) ≡ true) × (resets c.connector.queued ≡ 0)
Allowed e c = Unit {0}

abbrev pub held : Option ℕ → ℕ → ℕ
held none a = 0
held (some b) a = if a == b then 1 else 0

abbrev pub existing : TcpClient → ℕ → ℕ
existing c a = if ltb 0 a && ltb a c.next_conn_id then 1 else 0

-- A connection that was made is the client's, or its connectDestroyed waits, or it has run.
abbrev pub Balanced : TcpClient → Type 0
Balanced c = (a : ℕ) → held c.connection a + count a c.queued + count a c.destroyed ≡ existing c a

abbrev pub is_connected_state : Connector.State → Bool
is_connected_state Connector.connected = true
is_connected_state s = false

pub record IsValid (c : TcpClient) : Type 0 where
  pub positive : 0 < c.next_conn_id
  pub inner : Connector.Valid.IsValid c.connector
  pub balance : Balanced c
  pub alive : (a : ℕ) → c.connection ≡ some a → is_open (c.states a) ≡ true
  pub up : (a : ℕ) → c.connection ≡ some a → is_connected_state c.connector.state ≡ true
  pub only : (a : ℕ) → Existing a c → is_open (c.states a) ≡ true → c.connection ≡ some a
  pub quiet : (a : ℕ) → Existing a c → is_open (c.states a) ≡ false → c.watching a ≡ false

-- A client whose connector is not connected has no connection.
pub no_connection :
    (c : TcpClient)
    → IsValid c
    → is_connected_state c.connector.state ≡ false
    → (a : ℕ) → c.connection ≡ some a
    → ⊥
no_connection c v h a e =
    let u : is_connected_state c.connector.state ≡ true = v.up a e in ground arith

pub down_or_connecting :
    (s : Connector.State)
    → (is_connecting s || is_disconnected s) ≡ true
    → is_connected_state s ≡ false
down_or_connecting Connector.disconnected h = refl
down_or_connecting Connector.connecting h = refl
down_or_connecting Connector.connected h = absurd (ground arith)

is_down : (s : Connector.State) → is_disconnected s ≡ true → is_connected_state s ≡ false
is_down Connector.disconnected h = refl
is_down Connector.connecting h = absurd (ground arith)
is_down Connector.connected h = absurd (ground arith)

pub not_connecting : (s : Connector.State) → is_connected_state s ≡ true → is_connecting s ≡ false
not_connecting Connector.disconnected h = refl
not_connecting Connector.connecting h = absurd (ground arith)
not_connecting Connector.connected h = refl

-- Only the connector changes, and it is not connected with a connection.
pub with_connector :
    (k : Connector) (c : TcpClient) (flag : Bool)
    → IsValid c
    → Connector.Valid.IsValid k
    → ((a : ℕ) → c.connection ≡ some a → is_connected_state k.state ≡ true)
    → IsValid (record c { connector = k; connect_flag = flag })
with_connector k c flag v w u = record {
  positive = v.positive;
  inner = w;
  balance = v.balance;
  alive = v.alive;
  up = u;
  only = v.only;
  quiet = v.quiet;
}

open_shut_down :
    (states : ℕ → Connection.State) (o : Option ℕ) (a : ℕ)
    → is_open (shut_down o states a) ≡ is_open (states a)
open_shut_down states none a = refl
open_shut_down states (some b) a = elim (Bool-cases (is_connected (states b))) [
  | inl e ↦ elim (Bool-cases (a == b)) [
    | inl f ↦
        let here : is_connected (states a) ≡ true =
          ap (λ x. is_connected (states x)) ((==_iff a b).0 f) ∙ e in
        rw (e, f, here) refl
    | inr f ↦ rw (e, f) refl
  ]
  | inr e ↦ rw e refl
]

pub disconnect-IsValid : (c : TcpClient) → IsValid c → IsValid (disconnect c)
unfolding disconnect
disconnect-IsValid c v = record {
  positive = v.positive;
  inner = v.inner;
  balance = v.balance;
  alive = λ a e. open_shut_down c.states c.connection a ∙ v.alive a e;
  up = v.up;
  only = λ a h e. v.only a h (sym (open_shut_down c.states c.connection a) ∙ e);
  quiet = λ a h e. v.quiet a h (sym (open_shut_down c.states c.connection a) ∙ e);
}

pub stop-IsValid : (c : TcpClient) → IsValid c → IsValid (stop c)
unfolding stop Connector.stop
stop-IsValid c v =
    with_connector (Connector.stop c.connector) c false v
      (Connector.Steps.step-IsValid stops c.connector (Connector.stop c.connector) v.inner tt refl)
      v.up

starts_down :
    {P : Type 0} (sockfd errno : ℕ) (c k : Connector)
    → is_connected_state c.state ≡ true
    → start_in_loop sockfd errno c ≡ some k
    → P
starts_down sockfd errno c k u e =
    let v : is_connected_state c.state ≡ false =
      is_down c.state (Connector.Sockets.start_in_loop_down sockfd errno c k e) in
    absurd (ground arith)

-- A connected connector stays connected until it is told to restart.
pub keeps_connected :
    (e : Connector.Steps.Event) (c k : Connector)
    → Driven e
    → is_connected_state c.state ≡ true
    → Connector.Steps.step e c ≡ some k
    → is_connected_state k.state ≡ true
unfolding Connector.start Connector.run_next Connector.stop stop_in_loop handle_error reset_channel
keeps_connected (starts true sockfd errno) c k d u e =
    starts_down sockfd errno (record c { connect_flag = true }) k u e
keeps_connected (starts false sockfd errno) c k d u e =
    subst (λ x. is_connected_state x.state ≡ true) (some_inj e) u
keeps_connected (times_out sockfd errno) c k d u e = starts_down sockfd errno c k u e
keeps_connected (restarts sockfd errno) c k d u e = absurd d
keeps_connected (runs_next sockfd errno) c k d u e = go c.queued e
  where
    go : (js : List Job) → run_head js sockfd errno c ≡ some k → is_connected_state k.state ≡ true
    go [] f = subst (λ x. is_connected_state x.state ≡ true) (some_inj f) u
    go (start_job ∷ js) f = starts_down sockfd errno (record c { queued = js }) k u f
    go (stop_job ∷ js) f =
        let same : record c { queued = js } ≡ k =
          some_inj (sym (rw (not_connecting c.state u) refl) ∙ f) in
        subst (λ x. is_connected_state x.state ≡ true) same u
    go (reset_job ∷ js) f = subst (λ x. is_connected_state x.state ≡ true) (some_inj f) u
keeps_connected stops c k d u e = subst (λ x. is_connected_state x.state ≡ true) (some_inj e) u
keeps_connected has_error c k d u e =
    let same : c ≡ k = some_inj (sym (rw (not_connecting c.state u) refl) ∙ e) in
    subst (λ x. is_connected_state x.state ≡ true) same u
keeps_connected (is_writable err self) c k d u e = absurd d

called : (e : Connector.Steps.Event) (k : Connector) → Driven e → Connector.Steps.Called e k
called (starts in_loop sockfd errno) k d = tt
called (times_out sockfd errno) k d = tt
called (restarts sockfd errno) k d = absurd d
called (runs_next sockfd errno) k d = tt
called stops k d = tt
called has_error k d = tt
called (is_writable err self) k d = absurd d

-- The connector has made a step of its own.
pub driven-IsValid :
    (e : Connector.Steps.Event) (k : Connector) (flag : Bool) (c : TcpClient)
    → IsValid c
    → Driven e
    → Connector.Steps.step e c.connector ≡ some k
    → IsValid (record c { connector = k; connect_flag = flag })
driven-IsValid e k flag c v d h =
    with_connector k c flag v
      (Connector.Steps.step-IsValid e c.connector k v.inner (called e c.connector d) h)
      (λ a g. keeps_connected e c.connector k d (v.up a g) h)

closed_down : (s : Connection.State) → is_open s ≡ false → is_connected s ≡ false
closed_down s e = ground arith

-- The connectDestroyed that waits first passes its assertion.
pub run_next_lem : (c : TcpClient) → IsValid c → (d : TcpClient) × (run_next c ≡ some d) × IsValid d
unfolding run_next connect_destroyed
run_next_lem c v = go c.queued refl
  where
    mine :
        (a : ℕ) (fs : List ℕ) → c.queued ≡ a ∷ fs → (existing c a ≡ 1) × (held c.connection a ≡ 0)
    mine a fs e =
        let here : count a c.queued ≡ 1 + count a fs =
          ap (count a) e ∙ rw ((==_iff a a).1 refl) refl in
        let small : existing c a ≤ 1 = ground arith in
        (omega (arith, v.balance a), omega (arith, v.balance a))

    exists : (a : ℕ) → existing c a ≡ 1 → Existing a c
    exists a e = (ground arith, ground arith)

    not_open : (a : ℕ) → Existing a c → held c.connection a ≡ 0 → is_open (c.states a) ≡ false
    not_open a h z = elim (Bool-cases (is_open (c.states a))) [
      | inl o ↦
          let one : held c.connection a ≡ 1 =
            ap (λ x. held x a) (v.only a h o) ∙ rw ((==_iff a a).1 refl) refl in
          absurd (omega arith)
      | inr o ↦ o
    ]

    go : (fs : List ℕ) → c.queued ≡ fs → (d : TcpClient) × (destroy_first fs c ≡ some d) × IsValid d
    go [] e = (c, refl, v)
    go (a ∷ fs) e =
        let (one, zero) = mine a fs e in
        let o = not_open a (exists a one) zero in
        (
          record c { queued = fs; destroyed = a ∷ c.destroyed },
          rw (closed_down (c.states a) o, v.quiet a (exists a one) o) refl,
          record {
            positive = v.positive;
            inner = v.inner;
            balance = λ b. omega (arith, v.balance b, ap (count b) e);
            alive = v.alive;
            up = v.up;
            only = v.only;
            quiet = v.quiet;
          },
        )
