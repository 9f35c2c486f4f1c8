-- ===== src/Connector/Valid.antt =====
-- The invariant of the connector of networker/net/Connector.cpp, with the account of its sockets.
use network_program_base_fra.Prelude.{
  ℕ, ◌+◌, ◌≤◌, ◌≡◌, refl, Bool, true, false, not, Option, none, some, List, [], ◌∷◌, ◌++◌, ◌==◌,
  if◌then◌else◌, arith,
}
use network_program_base_fra.Channel
use network_program_base_fra.Channel.{Channel, disable_all, remove, is_none_event}
use network_program_base_fra.Connector.{
  Connector, State, disconnected, connecting, connected, is_connecting, is_disconnected, is_none,
  init_retry_delay_ms, max_retry_delay_ms, release, Job, start_job, stop_job, reset_job,
}

abbrev pub count : ℕ → List ℕ → ℕ
count fd [] = 0
count fd (x ∷ xs) = (if x == fd then 1 else 0) + count fd xs

-- The socket that is being connected.
abbrev pub held : State → Option Channel → ℕ → ℕ
held connecting (some ch) fd = if ch.fd == fd then 1 else 0
held s ch fd = 0

-- Every socket that was created was closed once, or handed over once, or is being connected.
abbrev pub Balanced : Connector → Type 0
Balanced c =
    (fd : ℕ)
    → count fd c.created ≡ count fd c.closed + count fd c.handed + held c.state c.channel fd

-- Whether the channel asks for anything.
abbrev pub watched : Option Channel → Bool
watched none = false
watched (some ch) = not (is_none_event ch)

abbrev pub resets : List Job → ℕ
resets [] = 0
resets (reset_job ∷ js) = 1 + resets js
resets (start_job ∷ js) = resets js
resets (stop_job ∷ js) = resets js

abbrev pub kept : Option Channel → ℕ
kept none = 0
kept (some ch) = 1

-- A channel that is there while nothing is connecting is about to be reset.
abbrev pub expected : State → Option Channel → ℕ
expected disconnected o = kept o
expected connecting o = 0
expected connected o = kept o

pub record IsValid (c : Connector) : Type 0 where
  pub balance : Balanced c
  pub off : is_connecting c.state ≡ false → watched c.channel ≡ false
  pub pending : resets c.queued ≡ expected c.state c.channel
  pub watching : is_connecting c.state ≡ true → (ch : Channel) × (c.channel ≡ some ch)
  pub lower : init_retry_delay_ms ≤ c.retry_delay_ms
  pub upper : c.retry_delay_ms ≤ max_retry_delay_ms

-- The channel stays, without events, until it is reset.
pub release_lem :
    (ch : Channel) (c : Connector)
    → (ch' : Channel) × (release (some ch) c
        ≡ some (ch.fd, record c { channel = some ch'; queued = c.queued ++ reset_job ∷ [] }))
      × (watched (some ch') ≡ false)
unfolding disable_all remove is_none_event Channel.update
release_lem ch c = (_, refl, refl)

pub resets-append : (js : List Job) → resets (js ++ reset_job ∷ []) ≡ 1 + resets js
resets-append [] = refl
resets-append (reset_job ∷ js) = omega (arith, resets-append js)
resets-append (start_job ∷ js) = resets-append js
resets-append (stop_job ∷ js) = resets-append js

pub expected-kept :
    (s : State) (o : Option Channel) → is_connecting s ≡ false → expected s o ≡ kept o
expected-kept disconnected o e = refl
expected-kept connecting o e = absurd (ground arith)
expected-kept connected o e = refl

pub kept_zero : (o : Option Channel) → kept o ≡ 0 → is_none o ≡ true
kept_zero none e = refl
kept_zero (some ch) e = absurd (omega arith)

pub kept_none : (o : Option Channel) → is_none o ≡ true → kept o ≡ 0
kept_none none e = refl
kept_none (some ch) e = absurd (ground arith)

-- A reset that waits is the only one, and nothing is connecting.
pub expected_reset :
    (s : State) (o : Option Channel) (n : ℕ)
    → 1 + n ≡ expected s o
    → (is_connecting s ≡ false) × (n ≡ 0)
expected_reset disconnected none n e = absurd (omega arith)
expected_reset disconnected (some ch) n e = (refl, omega arith)
expected_reset connecting o n e = absurd (omega arith)
expected_reset connected none n e = absurd (omega arith)
expected_reset connected (some ch) n e = (refl, omega arith)

pub down_idle : (s : State) → is_disconnected s ≡ true → is_connecting s ≡ false
down_idle disconnected e = refl
down_idle connecting e = absurd (ground arith)
down_idle connected e = absurd (ground arith)
