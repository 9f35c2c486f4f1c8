-- ===== src/Connector/Sockets.antt =====
-- No operation of networker/net/Connector.cpp loses a socket or closes one twice.
use network_program_base_fra.Prelude.{
  ℕ, ◌+◌, ◌*◌, ◌≤◌, ◌≡◌, refl, ap, sym, subst, some_inj, ◌∙◌, Bool, true, false, not, ◌||◌, none,
  some, [], ◌∷◌, ◌++◌, ◌==◌, if◌then◌else◌, ◌>>◌, assert, arith, inl, inr, Bool-cases, min,
}
use network_program_base_fra.Channel
use network_program_base_fra.Channel.{Channel}
use network_program_base_fra.Connector.{
  Connector, State, disconnected, connecting, connected, is_connecting, is_disconnected,
  init_retry_delay_ms, max_retry_delay_ms, retry, close_socket, start_connecting, connect,
  start_in_loop, act_on, Outcome, proceeds, retries, gives_up, outcome, is_none,
  remove_and_reset_channel, release, stop_in_loop, hand_over, handle_write, handle_error, watch,
  reset_job,
}
use network_program_base_fra.Connector.Valid.{
  IsValid, count, held, release_lem, watched, resets, kept, expected, resets-append, expected-kept,
  kept_none, down_idle,
}

-- A connector with one socket more than its account has.
pub record Owes (sockfd : ℕ) (c : Connector) : Type 0 where
  pub balance :
      (fd : ℕ)
      → count fd c.created ≡ count fd c.closed + count fd c.handed + (if sockfd == fd then 1 else 0)
  pub off : watched c.channel ≡ false
  pub pending : resets c.queued ≡ kept c.channel
  pub lower : init_retry_delay_ms ≤ c.retry_delay_ms
  pub upper : c.retry_delay_ms ≤ max_retry_delay_ms

retry_lem : (sockfd : ℕ) (c : Connector) → Owes sockfd c → IsValid (retry sockfd c)
unfolding retry
retry_lem sockfd c o = record {
  balance = λ fd. omega (arith, o.balance fd);
  off = λ e. o.off;
  pending = o.pending;
  watching = λ e. absurd (ground arith);
  lower = low c.connect_flag;
  upper = high c.connect_flag;
}
  where
    low : (b : Bool) → 500 ≤ (if b then min (c.retry_delay_ms * 2) 30000 else c.retry_delay_ms)
    low true = omega (arith, o.lower)
    low false = o.lower

    high : (b : Bool) → (if b then min (c.retry_delay_ms * 2) 30000 else c.retry_delay_ms) ≤ 30000
    high true = omega arith
    high false = o.upper

hand_over_lem : (sockfd : ℕ) (c : Connector) → Owes sockfd c → IsValid (hand_over sockfd c)
unfolding hand_over
hand_over_lem sockfd c o = go c.connect_flag
  where
    go :
        (b : Bool)
        → IsValid (
            if b
            then record c { state = connected; handed = sockfd ∷ c.handed }
            else record c { state = connected; closed = sockfd ∷ c.closed })
    go true = record {
      balance = λ fd. omega (arith, o.balance fd);
      off = λ e. o.off;
      pending = o.pending;
      watching = λ e. absurd (ground arith);
      lower = o.lower;
      upper = o.upper;
    }
    go false = record {
      balance = λ fd. omega (arith, o.balance fd);
      off = λ e. o.off;
      pending = o.pending;
      watching = λ e. absurd (ground arith);
      lower = o.lower;
      upper = o.upper;
    }

owes_lem :
    (ch : Channel) (c : Connector)
    → IsValid c
    → c.state ≡ connecting
    → c.channel ≡ some ch
    → (fd : ℕ)
    → count fd c.created ≡ count fd c.closed + count fd c.handed + (if ch.fd == fd then 1 else 0)
owes_lem ch c v e f fd = v.balance fd ∙ rw (e, f) refl

is_connecting-true : (s : State) → is_connecting s ≡ true → s ≡ connecting
is_connecting-true connecting e = refl
is_connecting-true disconnected e = absurd (ground arith)
is_connecting-true connected e = absurd (ground arith)

pub released :
    (s : State) (c : Connector)
    → IsValid c
    → is_connecting c.state ≡ true
    → (fd : ℕ) × (d : Connector) × (remove_and_reset_channel (record c { state = s })
        ≡ some (fd, d))
      × Owes fd d
unfolding remove_and_reset_channel
released s c v e =
    let (ch, f) = v.watching e in
    let (ch', g, quiet) = release_lem ch (record c { state = s }) in
    let none_waits : resets c.queued ≡ 0 =
      v.pending ∙ ap (λ x. expected x c.channel) (is_connecting-true c.state e) in
    (
      ch.fd,
      record c { state = s; channel = some ch'; queued = c.queued ++ reset_job ∷ [] },
      ap (λ o. release o (record c { state = s })) f ∙ g,
      record {
        balance = owes_lem ch c v (is_connecting-true c.state e) f;
        off = quiet;
        pending = omega (arith, resets-append c.queued);
        lower = v.lower;
        upper = v.upper;
      },
    )

pub stop_in_loop_lem :
    (c : Connector) → IsValid c → (c' : Connector) × (stop_in_loop c ≡ some c') × IsValid c'
unfolding stop_in_loop
stop_in_loop_lem c v = elim (Bool-cases (is_connecting c.state)) [
  | inl e ↦
      let (fd, d, f, o) = released disconnected c v e in
      (retry fd d, rw (e, f) refl, retry_lem fd d o)
  | inr e ↦ (c, rw e refl, v)
]

pub handle_error_lem :
    (c : Connector) → IsValid c → (c' : Connector) × (handle_error c ≡ some c') × IsValid c'
unfolding handle_error
handle_error_lem c v = elim (Bool-cases (is_connecting c.state)) [
  | inl e ↦
      let (fd, d, f, o) = released c.state c v e in (retry fd d, rw (e, f) refl, retry_lem fd d o)
  | inr e ↦ (c, rw e refl, v)
]

pub handle_write_lem :
    (err : ℕ) (self : Bool) (c : Connector)
    → IsValid c
    → (is_connecting c.state || is_disconnected c.state) ≡ true
    → (c' : Connector) × (handle_write err self c ≡ some c') × IsValid c'
unfolding handle_write
handle_write_lem err self c v h = elim (Bool-cases (is_connecting c.state)) [
  | inl e ↦
      let (fd, d, f, o) = released c.state c v e in
      elim (Bool-cases (not (err == 0) || self)) [
        | inl bad ↦ (retry fd d, rw (e, f, bad) refl, retry_lem fd d o)
        | inr good ↦ (hand_over fd d, rw (e, f, good) refl, hand_over_lem fd d o)
      ]
  | inr e ↦ let down : is_disconnected c.state ≡ true = ground arith in (c, rw (e, down) refl, v)
]

-- The account of a connector that has nothing in hand.
pub idle_balance :
    (c : Connector)
    → IsValid c
    → is_disconnected c.state ≡ true
    → (fd : ℕ) → count fd c.created ≡ count fd c.closed + count fd c.handed
idle_balance c v down fd = v.balance fd ∙ go c.state down
  where
    go :
        (s : State)
        → is_disconnected s ≡ true
        → count fd c.closed + count fd c.handed + held s c.channel fd
          ≡ count fd c.closed + count fd c.handed
    go disconnected e = omega arith
    go connecting e = absurd (ground arith)
    go connected e = absurd (ground arith)

new_socket :
    (sockfd : ℕ) (c : Connector)
    → IsValid c
    → is_disconnected c.state ≡ true
    → Owes sockfd (record c { created = sockfd ∷ c.created })
new_socket sockfd c v down = record {
  balance = λ fd. omega (arith, idle_balance c v down fd);
  off = v.off (down_idle c.state down);
  pending = v.pending ∙ expected-kept c.state c.channel (down_idle c.state down);
  lower = v.lower;
  upper = v.upper;
}

watching_lem :
    (sockfd : ℕ) (c : Connector)
    → Owes sockfd c
    → is_none c.channel ≡ true
    → IsValid (record c { state = connecting; channel = some (watch sockfd) })
unfolding Channel.enable_writing Channel.update Channel.new
watching_lem sockfd c o free = record {
  balance = o.balance;
  off = λ e. absurd (ground arith);
  pending = o.pending ∙ kept_none c.channel free;
  watching = λ e. (watch sockfd, refl);
  lower = o.lower;
  upper = o.upper;
}

gives_up_lem :
    (sockfd : ℕ) (c : Connector)
    → Owes sockfd c
    → is_disconnected c.state ≡ true
    → IsValid (close_socket sockfd c)
gives_up_lem sockfd c o down = record {
  balance = λ fd. go c.state down fd;
  off = λ e. o.off;
  pending = o.pending ∙ sym (expected-kept c.state c.channel (down_idle c.state down));
  watching = λ e. absurd (ground arith);
  lower = o.lower;
  upper = o.upper;
}
  where
    go :
        (s : State)
        → is_disconnected s ≡ true
        → (fd : ℕ)
        → count fd c.created
          ≡ count fd (sockfd ∷ c.closed) + count fd c.handed + held s c.channel fd
    go disconnected e fd = omega (arith, o.balance fd)
    go connecting e fd = absurd (ground arith)
    go connected e fd = absurd (ground arith)

act_on_lem :
    (what : Outcome) (sockfd : ℕ) (c : Connector)
    → Owes sockfd c
    → is_disconnected c.state ≡ true
    → is_none c.channel ≡ true
    → (c' : Connector) × (act_on what sockfd c ≡ some c') × IsValid c'
unfolding start_connecting
act_on_lem proceeds sockfd c o down free = (
  record c { state = connecting; channel = some (watch sockfd) },
  rw free refl,
  watching_lem sockfd c o free,
)
act_on_lem retries sockfd c o down free = (retry sockfd c, refl, retry_lem sockfd c o)
act_on_lem gives_up sockfd c o down free =
    (close_socket sockfd c, refl, gives_up_lem sockfd c o down)

act_on-IsValid :
    (what : Outcome) (sockfd : ℕ) (c c' : Connector)
    → Owes sockfd c
    → is_disconnected c.state ≡ true
    → act_on what sockfd c ≡ some c'
    → IsValid c'
unfolding start_connecting
act_on-IsValid proceeds sockfd c c' o down e = elim (Bool-cases (is_none c.channel)) [
  | inl free ↦
      let (x, f, v) = act_on_lem proceeds sockfd c o down free in
      subst IsValid (some_inj (sym f ∙ e)) v
  | inr taken ↦
      let fails : start_connecting sockfd c ≡ none = rw taken refl in
      let bad : none ≡ some c' = sym fails ∙ e in absurd (ground arith)
]
act_on-IsValid retries sockfd c c' o down e = subst IsValid (some_inj e) (retry_lem sockfd c o)
act_on-IsValid gives_up sockfd c c' o down e =
    subst IsValid (some_inj e) (gives_up_lem sockfd c o down)

pub start_in_loop_down :
    (sockfd errno : ℕ) (c c' : Connector)
    → start_in_loop sockfd errno c ≡ some c'
    → is_disconnected c.state ≡ true
unfolding start_in_loop
start_in_loop_down sockfd errno c c' e = elim (Bool-cases (is_disconnected c.state)) [
  | inl down ↦ down
  | inr up ↦
      let fails : start_in_loop sockfd errno c ≡ none = rw up refl in
      let bad : none ≡ some c' = sym fails ∙ e in absurd (ground arith)
]

-- Whatever startInLoop comes to, the account holds.
pub start_in_loop-IsValid :
    (sockfd errno : ℕ) (c c' : Connector)
    → IsValid c
    → start_in_loop sockfd errno c ≡ some c'
    → IsValid c'
unfolding start_in_loop connect
start_in_loop-IsValid sockfd errno c c' v e =
    let down = start_in_loop_down sockfd errno c c' e in
    elim (Bool-cases c.connect_flag) [
      | inl w ↦
          let ran : start_in_loop sockfd errno c
              ≡ act_on (outcome errno) sockfd (record c { created = sockfd ∷ c.created }) =
            rw (down, w) refl in
          act_on-IsValid (outcome errno) sockfd (record c { created = sockfd ∷ c.created }) c'
            (new_socket sockfd c v down) down (sym ran ∙ e)
      | inr w ↦
          let ran : start_in_loop sockfd errno c ≡ some c = rw (down, w) refl in
          subst IsValid (some_inj (sym ran ∙ e)) v
    ]

pub handle_write_up :
    (err : ℕ) (self : Bool) (c c' : Connector)
    → handle_write err self c ≡ some c'
    → (is_connecting c.state || is_disconnected c.state) ≡ true
unfolding handle_write
handle_write_up err self c c' e = elim (Bool-cases (is_connecting c.state)) [
  | inl h ↦ rw h refl
  | inr h ↦ elim (Bool-cases (is_disconnected c.state)) [
    | inl k ↦ rw (h, k) refl
    | inr k ↦
        let fails : handle_write err self c ≡ none = rw (h, k) refl in
        let bad : none ≡ some c' = sym fails ∙ e in absurd (ground arith)
  ]
]

pub start_in_loop_lem :
    (sockfd errno : ℕ) (c : Connector)
    → IsValid c
    → is_disconnected c.state ≡ true
    → is_none c.channel ≡ true
    → (c' : Connector) × (start_in_loop sockfd errno c ≡ some c') × IsValid c'
unfolding start_in_loop connect
start_in_loop_lem sockfd errno c v down free = elim (Bool-cases c.connect_flag) [
  | inl w ↦
      let (c', e, v') =
        act_on_lem (outcome errno) sockfd (record c { created = sockfd ∷ c.created })
          (new_socket sockfd c v down) down free in
      let begins : (if c.connect_flag then connect sockfd errno c else some c) ≡ some c' =
        ap (λ b. if b then connect sockfd errno c else some c) w ∙ e in
      (
        c',
        ap (λ b. assert b >> (if c.connect_flag then connect sockfd errno c else some c)) down
            ∙ begins,
        v',
      )
  | inr w ↦ (c, rw (down, w) refl, v)
]
