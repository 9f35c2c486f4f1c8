-- ===== src/TimerQueue.antt =====
-- networker/net/TimerQueue.cpp with Timer.h, Timer.cpp and TimerId.h. A `Timer*` is an address in
-- the store, where `none` is freed memory: to follow a dangling pointer, or to fail an `assert`,
-- gives `none`. Times are microseconds since the epoch. The clock is an argument, read once in
-- each call. The calls are those that run in the loop's thread.
pub mod PairSet
pub mod Valid
pub mod Cancel
pub mod Expiry
pub mod Cycle
pub mod Pass
pub mod Earliest
pub mod Arming
mod Samples
use network_program_base_fra.Prelude.{
  ℕ, ◌+◌, ◌-◌, ◌*◌, ◌/◌, ◌%◌, Bool, true, false, not, ◌&&◌, ◌||◌, Option, none, some, List, [], ◌∷◌,
  ltb, ◌==◌, if◌then◌else◌, length, ◌>>=◌, ◌>>◌, assert, update,
}
use PairSet.{Pair, lt_pair, member, insert, erase}

-- `interval_` is a `double`: `repeat` is the test `interval > 0.0`, and `delta` is the conversion
-- of `interval * kMicroSecondsPerSecond` to an integer that `addTime` makes.
pub record Timer : Type 0 where
  pub expiration : ℕ
  pub delta : ℕ
  pub repeat : Bool
  pub sequence : ℕ

abbrev pub micros_per_second : ℕ
micros_per_second = 1000 * 1000

-- `expires_at` is when the timer descriptor fires next.
pub record TimerQueue : Type 0 where
  pub store : ℕ → Option Timer
  pub timers : List Pair
  pub active : List Pair
  pub canceling : List Pair
  pub calling : Bool
  pub expires_at : Option ℕ
  pub num_created : ℕ

pub record Timespec : Type 0 where
  pub tv_sec : ℕ
  pub tv_nsec : ℕ

-- A difference below 100, a negative one included, counts as 100.
unfoldable pub how_much_time_from_now : ℕ → ℕ → Timespec
how_much_time_from_now clock when =
    let microseconds : ℕ = if ltb (when - clock) 100 then 100 else when - clock in
    record {
      tv_sec = microseconds / micros_per_second;
      tv_nsec = (microseconds % micros_per_second) * 1000;
    }

unfoldable pub reset_timerfd : ℕ → ℕ → TimerQueue → TimerQueue
unfolding how_much_time_from_now
reset_timerfd clock expiration q =
    let t : Timespec = how_much_time_from_now clock expiration in
    record q { expires_at = some (clock + t.tv_sec * micros_per_second + t.tv_nsec / 1000) }

-- `Timer::restart`; `invalid()` is the time 0.
unfoldable pub restart : ℕ → Timer → Timer
restart now t =
    if t.repeat then record t { expiration = now + t.delta } else record t { expiration = 0 }

abbrev pub is_earliest : ℕ → List Pair → Bool
is_earliest when [] = true
is_earliest when ((first, a) ∷ rest) = ltb first when

-- `TimerQueue::insert`, with the comparison of the source.
unfoldable pub insert_timer : ℕ → TimerQueue → Option (Bool × TimerQueue)
insert_timer addr q = do
  assert (length q.timers == length q.active)
  timer ← q.store addr
  let when : ℕ = timer.expiration
  let earliest_changed : Bool = is_earliest when q.timers
  assert (not (member (when, addr) q.timers))
  assert (not (member (addr, timer.sequence) q.active))
  let q' : TimerQueue = record q {
    timers = insert (when, addr) q.timers;
    active = insert (addr, timer.sequence) q.active;
  }
  assert (length q'.timers == length q'.active)
  some (earliest_changed, q')

unfoldable pub add_timer_in_loop : ℕ → ℕ → TimerQueue → Option TimerQueue
add_timer_in_loop clock addr q = do
  (earliest_changed, q') ← insert_timer addr q
  timer ← q'.store addr
  some (if earliest_changed then reset_timerfd clock timer.expiration q' else q')

-- `addTimer` with the address that `new` returned, and the `TimerId` that it hands out.
unfoldable pub add_timer : ℕ → ℕ → ℕ → ℕ → Bool → TimerQueue → Option (Pair × TimerQueue)
add_timer clock addr when delta repeat q = do
  let sequence : ℕ = q.num_created + 1
  let timer : Timer = record {
    expiration = when;
    delta = delta;
    repeat = repeat;
    sequence = sequence;
  }
  q' ←
      add_timer_in_loop clock addr
        (record q { store = update q.store addr (some timer); num_created = sequence })
  some ((addr, sequence), q')

unfoldable pub cancel_in_loop : Pair → TimerQueue → Option TimerQueue
cancel_in_loop id q = do
  assert (length q.timers == length q.active)
  q' ←
      if member id q.active
      then (do
        timer ← q.store id.0
        assert (member (timer.expiration, id.0) q.timers)
        some (record q {
          timers = erase (timer.expiration, id.0) q.timers;
          active = erase id q.active;
          store = update q.store id.0 none;
        }))
      else some (if q.calling then record q { canceling = insert id q.canceling } else q)
  assert (length q'.timers == length q'.active)
  some q'

-- The range from `begin()` to `lower_bound(sentry)`, and the rest.
abbrev pub before : Pair → List Pair → List Pair
before sentry [] = []
before sentry (e ∷ es) = if lt_pair e sentry then e ∷ before sentry es else []

abbrev pub from : Pair → List Pair → List Pair
from sentry [] = []
from sentry (e ∷ es) = if lt_pair e sentry then from sentry es else e ∷ es

-- `UINTPTR_MAX`
abbrev pub max_address : ℕ
max_address = 0xffff_ffff_ffff_ffff

-- `now < end->first`, unless `end` is the end.
abbrev pub starts_after : ℕ → List Pair → Bool
starts_after now [] = true
starts_after now ((t, a) ∷ rest) = ltb now t

-- The second loop of `getExpired`.
unfoldable pub erase_active : List Pair → TimerQueue → Option TimerQueue
erase_active [] q = some q
erase_active ((t, addr) ∷ expired) q = do
  timer ← q.store addr
  assert (member (addr, timer.sequence) q.active)
  erase_active expired (record q { active = erase (addr, timer.sequence) q.active })

unfoldable pub get_expired : ℕ → TimerQueue → Option (List Pair × TimerQueue)
get_expired now q = do
  assert (length q.timers == length q.active)
  let sentry : Pair = (now, max_address)
  let expired : List Pair = before sentry q.timers
  let rest : List Pair = from sentry q.timers
  assert (starts_after now rest)
  q' ← erase_active expired (record q { timers = rest })
  assert (length q'.timers == length q'.active)
  some (expired, q')

-- The loop of `reset`.
unfoldable pub reset_each : ℕ → List Pair → TimerQueue → Option TimerQueue
reset_each now [] q = some q
reset_each now ((t, addr) ∷ expired) q = do
  timer ← q.store addr
  q' ←
      if timer.repeat && not (member (addr, timer.sequence) q.canceling)
      then (do
        (changed, q'') ←
            insert_timer addr (record q { store = update q.store addr (some (restart now timer)) })
        some q'')
      else some (record q { store = update q.store addr none })
  reset_each now expired q'

-- Its end: the descriptor is set for the first timer, if there is one and its time is valid.
unfoldable pub rearm : ℕ → List Pair → TimerQueue → Option TimerQueue
rearm clock [] q = some q
rearm clock ((t, addr) ∷ rest) q = do
  timer ← q.store addr
  some (if ltb 0 timer.expiration then reset_timerfd clock timer.expiration q else q)

unfoldable pub reset : ℕ → ℕ → List Pair → TimerQueue → Option TimerQueue
reset clock now expired q = do q' ← reset_each now expired q; rearm clock q'.timers q'

-- What a timer's callback does to the queue, and the callbacks of a pass in their order. A callback
-- may follow other pointers than those of the queue; it gets no access to the queue's members.
pub data Request : Type 0 where
  adds : ℕ → ℕ → ℕ → Bool → Request
  cancels : Pair → Request

unfoldable pub serve : ℕ → List Request → TimerQueue → Option TimerQueue
serve clock [] q = some q
serve clock (adds addr when delta repeat ∷ rs) q = do
  (id, q') ← add_timer clock addr when delta repeat q
  serve clock rs q'
serve clock (cancels id ∷ rs) q = do q' ← cancel_in_loop id q; serve clock rs q'

module _ (callback : ℕ → List Request) where
  unfoldable pub run_each : ℕ → List Pair → TimerQueue → Option TimerQueue
  run_each clock [] q = some q
  run_each clock ((t, addr) ∷ expired) q = do
    timer ← q.store addr
    q' ← serve clock (callback addr) q
    run_each clock expired q'

  -- `readTimerfd` consumes the expiration, so that the descriptor does not fire again by itself.
  unfoldable pub handle_read : ℕ → TimerQueue → Option TimerQueue
  handle_read now q = do
    (expired, q') ← get_expired now (record q { expires_at = none })
    q'' ← run_each now expired (record q' { calling = true; canceling = [] })
    reset now now expired (record q'' { calling = false })
