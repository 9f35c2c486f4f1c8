-- ===== src/Connector/Steps.antt =====
-- The connector of networker/net/Connector.cpp under any sequence of what its users, its timers,
-- the poller and the loop do.
use network_program_base_fra.Prelude.{
  ℕ, ◌≡◌, refl, sym, ap, ◌∙◌, ◌+◌, Bool, true, false, Option, some, none, List, [], ◌∷◌, ◌++◌,
  arith, subst, some_inj, inl, inr, Bool-cases,
}
use network_program_base_fra.Connector.{
  Connector, State, is_connecting, is_disconnected, disconnected, is_none, start_in_loop, start,
  stop, restart, handle_write, handle_error, reset_channel, new, start_job, stop_job, reset_job,
  Job, run_next, run_head, init_retry_delay_ms,
}
use network_program_base_fra.Connector.Valid.{
  IsValid, held, watched, resets, expected-kept, expected_reset, kept_zero, down_idle,
}
use network_program_base_fra.Connector.Sockets.{
  stop_in_loop_lem, handle_error_lem, handle_write_lem, handle_write_up, start_in_loop_lem,
  start_in_loop-IsValid,
}

pub data Event : Type 0 where
  starts : Bool → ℕ → ℕ → Event
  times_out restarts runs_next : ℕ → ℕ → Event
  stops has_error : Event
  is_writable : ℕ → Bool → Event

-- A timer of `retry` starts in the loop.
abbrev pub step : Event → Connector → Option Connector
step (starts in_loop sockfd errno) c = start in_loop sockfd errno c
step (times_out sockfd errno) c = start_in_loop sockfd errno c
step (restarts sockfd errno) c = restart sockfd errno c
step (runs_next sockfd errno) c = run_next sockfd errno c
step stops c = some (stop c)
step has_error c = handle_error c
step (is_writable err self) c = handle_write err self c

-- Nothing is under way, and no reset of a channel waits in the loop.
abbrev pub Ready : Connector → Type 0
Ready c = (is_disconnected c.state ≡ true) × (resets c.queued ≡ 0)

abbrev pub CanRun : List Job → Connector → Type 0
CanRun (start_job ∷ js) c = Ready c
CanRun js c = Unit {0}

abbrev pub Possible : Event → Connector → Type 0
Possible (starts true sockfd errno) c = Ready c
Possible (times_out sockfd errno) c = Ready c
Possible (restarts sockfd errno) c = (is_connecting c.state ≡ false) × (resets c.queued ≡ 0)
Possible (runs_next sockfd errno) c = CanRun c.queued c
Possible (is_writable err self) c = watched c.channel ≡ true
Possible e c = Unit {0}

-- restart is called only while no socket is being connected.
abbrev pub Called : Event → Connector → Type 0
Called (restarts sockfd errno) c = is_connecting c.state ≡ false
Called e c = Unit {0}

free :
    (c : Connector)
    → IsValid c
    → is_connecting c.state ≡ false
    → resets c.queued ≡ 0
    → is_none c.channel ≡ true
free c v idle none_waits =
    kept_zero c.channel (sym (expected-kept c.state c.channel idle) ∙ (sym v.pending ∙ none_waits))

not_held : (s : State) (c : Connector) (fd : ℕ) → is_connecting s ≡ false → held s c.channel fd ≡ 0
not_held disconnected c fd e = refl
not_held State.connecting c fd e = absurd (ground arith)
not_held State.connected c fd e = refl

-- The flag and the queue change, but for the resets in it.
requeued :
    (b : Bool) (js : List Job) (c : Connector)
    → IsValid c
    → resets js ≡ resets c.queued
    → IsValid (record c { connect_flag = b; queued = js })
requeued b js c v e = record {
  balance = v.balance;
  off = v.off;
  pending = e ∙ v.pending;
  watching = v.watching;
  lower = v.lower;
  upper = v.upper;
}

restarted :
    (c : Connector)
    → IsValid c
    → is_connecting c.state ≡ false
    → IsValid (record c {
      state = disconnected;
      retry_delay_ms = init_retry_delay_ms;
      connect_flag = true;
    })
restarted c v idle = record {
  balance = λ fd. omega (arith, v.balance fd, not_held c.state c fd idle);
  off = λ e. v.off idle;
  pending = v.pending ∙ expected-kept c.state c.channel idle;
  watching = λ e. absurd (ground arith);
  lower = omega arith;
  upper = omega arith;
}

reset_lem :
    (js : List Job) (c : Connector)
    → IsValid c
    → c.queued ≡ reset_job ∷ js
    → IsValid (reset_channel (record c { queued = js }))
unfolding reset_channel
reset_lem js c v e =
    let (idle, last) =
      expected_reset c.state c.channel (resets js) (sym (ap resets e) ∙ v.pending) in
    record {
      balance = λ fd. omega (
        arith,
        v.balance fd,
        not_held c.state c fd idle,
        not_held c.state (record c { channel = none }) fd idle,
      );
      off = λ h. refl;
      pending = last ∙ sym (expected-kept c.state none idle);
      watching = λ h. absurd (ground arith);
      lower = v.lower;
      upper = v.upper;
    }

plain-append : (js : List Job) (j : Job) → resets (j ∷ []) ≡ 0 → resets (js ++ j ∷ []) ≡ resets js
plain-append [] j e = e
plain-append (reset_job ∷ js) j e = ap (λ n. 1 + n) (plain-append js j e)
plain-append (start_job ∷ js) j e = plain-append js j e
plain-append (stop_job ∷ js) j e = plain-append js j e

stop_lem : (c : Connector) → IsValid c → IsValid (stop c)
unfolding stop
stop_lem c v = requeued false _ c v (plain-append c.queued stop_job refl)

returned :
    {m : Option Connector} {c' : Connector}
    → (x : Connector) × (m ≡ some x) × IsValid x
    → m ≡ some c'
    → IsValid c'
returned (x, f, v) e = subst IsValid (some_inj (sym f ∙ e)) v

-- Every step that returns keeps the connector valid.
pub step-IsValid :
    (e : Event) (c c' : Connector) → IsValid c → Called e c → step e c ≡ some c' → IsValid c'
unfolding start restart run_next
step-IsValid (starts true sockfd errno) c c' v h e =
    start_in_loop-IsValid sockfd errno (record c { connect_flag = true }) c'
      (requeued true c.queued c v refl) e
step-IsValid (starts false sockfd errno) c c' v h e =
    subst IsValid (some_inj e) (requeued true _ c v (plain-append c.queued start_job refl))
step-IsValid (times_out sockfd errno) c c' v h e = start_in_loop-IsValid sockfd errno c c' v e
step-IsValid (restarts sockfd errno) c c' v h e =
    start_in_loop-IsValid sockfd errno _ c' (restarted c v h) e
step-IsValid (runs_next sockfd errno) c c' v h e = go c.queued refl e
  where
    go : (js : List Job) → c.queued ≡ js → run_head js sockfd errno c ≡ some c' → IsValid c'
    go [] q f = subst IsValid (some_inj f) v
    go (start_job ∷ js) q f =
        start_in_loop-IsValid sockfd errno _ c' (requeued c.connect_flag js c v (sym (ap resets q)))
          f
    go (stop_job ∷ js) q f =
        returned
          (stop_in_loop_lem (record c { queued = js })
            (requeued c.connect_flag js c v (sym (ap resets q))))
          f
    go (reset_job ∷ js) q f = subst IsValid (some_inj f) (reset_lem js c v q)
step-IsValid stops c c' v h e = subst IsValid (some_inj e) (stop_lem c v)
step-IsValid has_error c c' v h e = returned (handle_error_lem c v) e
step-IsValid (is_writable err self) c c' v h e =
    returned (handle_write_lem err self c v (handle_write_up err self c c' e)) e

abbrev pub Returns : Option Connector → Type 0
Returns m = (c' : Connector) × (m ≡ some c')

begins_lem :
    (sockfd errno : ℕ) (c : Connector)
    → IsValid c
    → Ready c
    → Returns (start_in_loop sockfd errno c)
begins_lem sockfd errno c v (down, none_waits) =
    let (x, f, w) =
      start_in_loop_lem sockfd errno c v down (free c v (down_idle c.state down) none_waits) in
    (x, f)

pub step-Returns : (e : Event) (c : Connector) → IsValid c → Possible e c → Returns (step e c)
unfolding start restart run_next
step-Returns (starts true sockfd errno) c v h =
    begins_lem sockfd errno (record c { connect_flag = true }) (requeued true c.queued c v refl) h
step-Returns (starts false sockfd errno) c v h = (_, refl)
step-Returns (times_out sockfd errno) c v h = begins_lem sockfd errno c v h
step-Returns (restarts sockfd errno) c v (idle, none_waits) =
    begins_lem sockfd errno _ (restarted c v idle) (refl, none_waits)
step-Returns (runs_next sockfd errno) c v h = go c.queued refl h
  where
    go : (js : List Job) → c.queued ≡ js → CanRun js c → Returns (run_head js sockfd errno c)
    go [] q k = (c, refl)
    go (start_job ∷ js) q (down, none_waits) =
        begins_lem sockfd errno _ (requeued c.connect_flag js c v (sym (ap resets q)))
          (down, sym (ap resets q) ∙ none_waits)
    go (stop_job ∷ js) q k =
        let (x, f, w) =
          stop_in_loop_lem (record c { queued = js })
            (requeued c.connect_flag js c v (sym (ap resets q))) in
        (x, f)
    go (reset_job ∷ js) q k = (_, refl)
step-Returns stops c v h = (_, refl)
step-Returns has_error c v h = let (x, f, w) = handle_error_lem c v in (x, f)
step-Returns (is_writable err self) c v h = elim (Bool-cases (is_connecting c.state)) [
  | inl e ↦ let (x, f, w) = handle_write_lem err self c v (rw e refl) in (x, f)
  | inr e ↦ let off : watched c.channel ≡ false = v.off e in absurd (ground arith)
]

pub new-IsValid : IsValid new
unfolding new
new-IsValid = record {
  balance = λ fd. refl;
  off = λ e. refl;
  pending = refl;
  watching = λ e. absurd (ground arith);
  lower = omega arith;
  upper = omega arith;
}

-- What a new connector comes to by steps that return.
pub data Reaches : Connector → Type 0 where
  begins : Reaches new
  goes_on :
      {c c' : Connector} → Reaches c → (e : Event) → Called e c → step e c ≡ some c' → Reaches c'
