-- ===== src/TcpClient/Steps.antt =====
-- A new connection and a closed one keep a client of networker/net/TcpClient.cpp valid.
use network_program_base_fra.Prelude.{
  ℕ, ◌+◌, ◌<◌, ◌≡◌, inl, inr, refl, sym, ap, ◌∙◌, subst, Bool, true, false, not, ◌&&◌, ◌||◌, Option,
  none, some, some_inj, List, [], ◌∷◌, ◌++◌, ◌==◌, ==_iff, ltb, Bool-cases, Option-cases, &&_split,
  if◌then◌else◌, update, ◌>>=◌, >>=-eq-some, arith,
}
use network_program_base_fra.Connection.{connected, disconnected}
use network_program_base_fra.Connector
use network_program_base_fra.Connector.Sockets
use network_program_base_fra.Connector.Valid
use network_program_base_fra.Connector.{Connector, is_connecting, is_disconnected}
use network_program_base_fra.Connector.Valid.{count, resets}
use network_program_base_fra.Connector.Steps
use network_program_base_fra.Connector.Steps.{Possible, restarts, is_writable}
use network_program_base_fra.TcpClient.{
  TcpClient, new_connection, hands_over, handle_write, remove_connection, handle_close,
}
use network_program_base_fra.TcpClient.Valid.{
  held, is_connected_state, is_open, Existing, IsValid, no_connection, down_or_connecting,
  not_connecting, with_connector,
}

hand_over-connected :
    (fd : ℕ) (k : Connector) → is_connected_state (Connector.hand_over fd k).state ≡ true
unfolding Connector.hand_over
hand_over-connected fd k = elim (Bool-cases k.connect_flag) [
  | inl e ↦ rw e refl
  | inr e ↦ rw e refl
]

handed_connected :
    (err : ℕ) (self : Bool) (c k : Connector)
    → Connector.Valid.IsValid c
    → hands_over err self c ≡ true
    → Connector.handle_write err self c ≡ some k
    → (is_connecting c.state ≡ true) × (is_connected_state k.state ≡ true)
unfolding Connector.handle_write
handed_connected err self c k v h e =
    let (connecting, rest) = &&_split (is_connecting c.state) _ h in
    let (good, flag) = &&_split (not (not (err == 0) || self)) c.connect_flag rest in
    let (fd, d, f, o) = Connector.Sockets.released c.state c v connecting in
    let fine : (not (err == 0) || self) ≡ false = negated _ good in
    let same : Connector.hand_over fd d ≡ k = some_inj (sym (rw (connecting, f, fine) refl) ∙ e) in
    (connecting, subst (λ x. is_connected_state x.state ≡ true) same (hand_over-connected fd d))
  where
    negated : (b : Bool) → not b ≡ true → b ≡ false
    negated true e = absurd (ground arith)
    negated false e = refl

no_hold : (o : Option ℕ) (a : ℕ) → ((b : ℕ) → o ≡ some b → ⊥) → held o a ≡ 0
no_hold none a h = refl
no_hold (some b) a h = absurd (h b refl)

one_more :
    (n a : ℕ)
    → 0 < n
    → (if ltb 0 a && ltb a (n + 1) then 1 else 0)
      ≡ (if a == n then 1 else 0) + (if ltb 0 a && ltb a n then 1 else 0)
one_more n a h = ground arith

off_new :
    (c : TcpClient) (a : ℕ)
    → (a == c.next_conn_id) ≡ false
    → update c.states c.next_conn_id connected a ≡ c.states a
off_new c a e = rw e refl

-- A new connection of a client without one.
new_connection-IsValid :
    (k : Connector) (c : TcpClient)
    → IsValid c
    → Connector.Valid.IsValid k
    → is_connected_state k.state ≡ true
    → ((a : ℕ) → c.connection ≡ some a → ⊥)
    → IsValid (new_connection (record c { connector = k }))
unfolding new_connection
new_connection-IsValid k c v w u alone = record {
  positive = omega arith;
  inner = w;
  balance = λ a.
      omega
        (arith, v.balance a, no_hold c.connection a alone, one_more c.next_conn_id a v.positive);
  alive = λ a e. rw (sym (some_inj e), (==_iff c.next_conn_id c.next_conn_id).1 refl) refl;
  up = λ a e. u;
  only = λ a h o. elim (Bool-cases (a == c.next_conn_id)) [
    | inl e ↦ ap some (sym ((==_iff a c.next_conn_id).0 e))
    | inr e ↦ absurd (alone a (v.only a (older a h e) (sym (ap is_open (off_new c a e)) ∙ o)))
  ];
  quiet = λ a h o. elim (Bool-cases (a == c.next_conn_id)) [
    | inl e ↦
        let up_new : is_open (update c.states c.next_conn_id connected a) ≡ true = rw e refl in
        absurd (ground arith)
    | inr e ↦ rw e (v.quiet a (older a h e) (sym (ap is_open (off_new c a e)) ∙ o))
  ];
}
  where
    older :
        (a : ℕ) → (0 < a) × (a < c.next_conn_id + 1) → (a == c.next_conn_id) ≡ false → Existing a c
    older a (low, high) e = (low, ground arith)

pub handle_write-IsValid :
    (err : ℕ) (self : Bool) (c d : TcpClient)
    → IsValid c
    → handle_write err self c ≡ some d
    → IsValid d
unfolding handle_write
handle_write-IsValid err self c d v h =
    elim (Option-cases (Connector.handle_write err self c.connector)) [
      | inl e ↦
          let fails : handle_write err self c ≡ none = rw e refl in
          let bad : none ≡ some d = sym fails ∙ h in absurd (ground arith)
      | inr (k, e) ↦
          let w = Connector.Steps.step-IsValid (is_writable err self) c.connector k v.inner tt e in
          let alone : (a : ℕ) → c.connection ≡ some a → ⊥ = no_connection c v (
            down_or_connecting c.connector.state
              (Connector.Sockets.handle_write_up err self c.connector k e)) in
          elim (Bool-cases (hands_over err self c.connector)) [
            | inl g ↦
                let (x, u) = handed_connected err self c.connector k v.inner g e in
                let ran : handle_write err self c
                    ≡ some (new_connection (record c { connector = k })) =
                  rw (e, g) refl in
                subst IsValid (some_inj (sym ran ∙ h)) (new_connection-IsValid k c v w u alone)
            | inr g ↦
                let ran : handle_write err self c ≡ some (record c { connector = k }) =
                  rw (e, g) refl in
                subst IsValid (some_inj (sym ran ∙ h))
                  (with_connector k c c.connect_flag v w (λ a f. absurd (alone a f)))
          ]
    ]

pub handle_write-Returns :
    (err : ℕ) (self : Bool) (c : TcpClient)
    → IsValid c
    → Possible (is_writable err self) c.connector
    → (d : TcpClient) × (handle_write err self c ≡ some d)
unfolding handle_write
handle_write-Returns err self c v h =
    let (k, e) = Connector.Steps.step-Returns (is_writable err self) c.connector v.inner h in
    (
      if hands_over err self c.connector
          then new_connection (record c { connector = k })
          else record c { connector = k },
      rw e refl,
    )

count-append : (a b : ℕ) (xs : List ℕ) → count b (xs ++ a ∷ []) ≡ held (some a) b + count b xs
count-append a b [] = ground arith
count-append a b (x ∷ xs) = omega (arith, count-append a b xs)

-- The client without its connection, whose connectDestroyed waits.
abbrev removed : ℕ → Connector → TcpClient → TcpClient
removed a k c = record c {
  connector = k;
  connection = none;
  queued = c.queued ++ a ∷ [];
  states = update c.states a disconnected;
  watching = update c.watching a false;
}

removed-IsValid :
    (a : ℕ) (k : Connector) (c : TcpClient)
    → IsValid c
    → c.connection ≡ some a
    → Connector.Valid.IsValid k
    → IsValid (removed a k c)
removed-IsValid a k c v e w = record {
  positive = v.positive;
  inner = w;
  balance = λ b. omega (arith, v.balance b, count-append a b c.queued, ap (λ o. held o b) e);
  alive = λ b f. absurd (ground arith);
  up = λ b f. absurd (ground arith);
  only = λ b h o. elim (Bool-cases (b == a)) [
    | inl f ↦
        let shut : is_open (update c.states a disconnected b) ≡ false = rw f refl in
        absurd (ground arith)
    | inr f ↦
        let same : is_open (update c.states a disconnected b) ≡ is_open (c.states b) = rw f refl in
        let two : a ≡ b = some_inj (sym e ∙ v.only b h (sym same ∙ o)) in absurd (ground arith)
  ];
  quiet = λ b h o. elim (Bool-cases (b == a)) [
    | inl f ↦ rw f refl
    | inr f ↦
        let same : is_open (update c.states a disconnected b) ≡ is_open (c.states b) = rw f refl in
        rw f (v.quiet b h (sym same ∙ o))
  ];
}

-- An open connection that closes is the client's, so that the assertion of removeConnection holds.
closing :
    (sockfd errno a : ℕ) (c : TcpClient)
    → IsValid c
    → Existing a c
    → is_open (c.states a) ≡ true
    → handle_close sockfd errno a c ≡ (
        if c.retry && c.connect_flag
        then (Connector.restart sockfd errno c.connector >>= λ k. some (removed a k c))
        else some (removed a c.connector c))
unfolding handle_close remove_connection
closing sockfd errno a c v h o = rw (o, v.only a h o, (==_iff a a).1 refl) refl

pub handle_close-IsValid :
    (sockfd errno a : ℕ) (c d : TcpClient)
    → IsValid c
    → Existing a c
    → handle_close sockfd errno a c ≡ some d
    → IsValid d
unfolding handle_close
handle_close-IsValid sockfd errno a c d v h q = elim (Bool-cases (is_open (c.states a))) [
  | inr o ↦
      let fails : handle_close sockfd errno a c ≡ none = rw o refl in
      let bad : none ≡ some d = sym fails ∙ q in absurd (ground arith)
  | inl o ↦
      let e = v.only a h o in
      let ran = sym (closing sockfd errno a c v h o) ∙ q in
      elim (Bool-cases (c.retry && c.connect_flag)) [
        | inr g ↦
            let out : some (removed a c.connector c) ≡ some d = sym (rw g refl) ∙ ran in
            subst IsValid (some_inj out) (removed-IsValid a c.connector c v e v.inner)
        | inl g ↦
            let out : (Connector.restart sockfd errno c.connector >>= λ k. some (removed a k c))
                ≡ some d =
              sym (rw g refl) ∙ ran in
            let (k, f, same) =
              >>=-eq-some (Connector.restart sockfd errno c.connector) (λ k. some (removed a k c))
                out in
            let w =
              Connector.Steps.step-IsValid (restarts sockfd errno) c.connector k v.inner
                (not_connecting c.connector.state (v.up a e)) f in
            subst IsValid (some_inj same) (removed-IsValid a k c v e w)
      ]
]

pub handle_close-Returns :
    (sockfd errno a : ℕ) (c : TcpClient)
    → IsValid c
    → Existing a c
    → is_open (c.states a) ≡ true
    → resets c.connector.queued ≡ 0
    → (d : TcpClient) × (handle_close sockfd errno a c ≡ some d)
handle_close-Returns sockfd errno a c v h o none_waits =
    let idle = not_connecting c.connector.state (v.up a (v.only a h o)) in
    let (k, f) =
      Connector.Steps.step-Returns (restarts sockfd errno) c.connector v.inner (idle, none_waits) in
    elim (Bool-cases (c.retry && c.connect_flag)) [
      | inl g ↦ (removed a k c, closing sockfd errno a c v h o ∙ rw (g, f) refl)
      | inr g ↦ (removed a c.connector c, closing sockfd errno a c v h o ∙ rw g refl)
    ]
