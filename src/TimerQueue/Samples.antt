-- ===== src/TimerQueue/Samples.antt =====
-- The timer queue of networker/net/TimerQueue.cpp on small inputs.
use mathlib.Core.Option
use network_program_base_fra.Prelude.{
  ℕ, ◌<◌, ◌≡◌, refl, true, false, Option, some, none, List, [], ◌∷◌, ◌++◌, arith, update,
}
use network_program_base_fra.TimerQueue.{
  Timer, TimerQueue, add_timer, add_timer_in_loop, insert_timer, cancel_in_loop, get_expired, reset,
  handle_read, run_each, Request, cancels, reset_timerfd, erase_active, serve, reset_each, rearm,
}
use network_program_base_fra.TimerQueue.PairSet.{Pair, member, insert, erase}
use network_program_base_fra.TimerQueue.Valid.{IsValid}
use network_program_base_fra.TimerQueue.Cancel.{Cancels, cancel_lem}
use network_program_base_fra.TimerQueue.Expiry.{Due, Later, Pending, with_sets, get_expired_lem}
use network_program_base_fra.TimerQueue.Cycle.{Settled}
use network_program_base_fra.TimerQueue.Pass.{Keeps, FreshEach, add_timer_lem, handle_read_lem}
use network_program_base_fra.TimerQueue.Arming.{fire_at}
use network_program_base_fra.TimerQueue.Earliest.{add_earlier, add_later}

abbrev nothing : ℕ → Option Timer
nothing a = none

abbrev empty : TimerQueue
empty = record {
  store = nothing;
  timers = [];
  active = [];
  canceling = [];
  calling = false;
  expires_at = none;
  num_created = 0;
}

-- A repeating timer at address 40, due at 1000.
abbrev ticker : Timer
ticker = record { expiration = 1000; delta = 500; repeat = true; sequence = 1 }

abbrev one : TimerQueue
one = record empty {
  store = update nothing 40 (some ticker);
  timers = (1000, 40) ∷ [];
  active = (40, 1) ∷ [];
  expires_at = some 1000;
  num_created = 1;
}

one-IsValid : IsValid one
unfolding member
one-IsValid = record {
  sorted_timers = (tt, tt);
  sorted_active = (tt, tt);
  same_size = refl;
  timer_of = λ t a h. (ticker, ground arith, ground arith, ground arith);
  active_of = λ a s h. (ticker, ground arith, ground arith, ground arith);
}

add_ticker : add_timer 0 40 1000 500 true (record empty { expires_at = none }) ≡ some ((40, 1), one)
unfolding add_timer add_timer_in_loop insert_timer insert member reset_timerfd
add_ticker = refl

cancel_one :
    cancel_in_loop (40, 1) one
    ≡ some (record one { store = update one.store 40 none; timers = []; active = [] })
unfolding cancel_in_loop member erase
cancel_one = refl

add_timer_lem_example :
    (q' : TimerQueue) × (add_timer 10 80 2000 0 false one ≡ some ((80, 2), q'))
    × IsValid q'
    × (member (80, 2) q'.active ≡ true)
    × Keeps one q'
    × (q'.expires_at ≡ some (fire_at 10 2000))
add_timer_lem_example = add_timer_lem 10 80 2000 0 false one one-IsValid refl

cancel_lem_example : Cancels (40, 1) one
cancel_lem_example = cancel_lem (40, 1) one one-IsValid

get_expired_lem_example :
    (expired rest after : List Pair) × (get_expired 1200 one
      ≡ some (expired, with_sets one rest after))
    × (one.timers ≡ expired ++ rest)
    × Due 1200 expired
    × Later 1200 rest
    × IsValid (with_sets one rest after)
    × Pending expired (with_sets one rest after)
get_expired_lem_example = get_expired_lem 1200 one one-IsValid (omega arith)

-- The queue in the middle of a pass: the ticker has been taken out.
abbrev waiting : TimerQueue
waiting = record one { timers = []; active = []; expires_at = none }

waiting-IsValid : IsValid waiting
unfolding member
waiting-IsValid = record {
  sorted_timers = tt;
  sorted_active = tt;
  same_size = refl;
  timer_of = λ t a h. absurd (ground arith);
  active_of = λ a s h. absurd (ground arith);
}

waiting-Pending : Pending ((1000, 40) ∷ []) waiting
unfolding member
waiting-Pending = ((ticker, refl, refl), (λ s. refl), tt, tt)

-- A callback by which the ticker cancels itself.
abbrev cancels_ticker : ℕ → List Request
cancels_ticker addr = cancels (40, 1) ∷ []

always_fresh : (now : ℕ) (es : List Pair) (q : TimerQueue) → FreshEach cancels_ticker now es q
always_fresh now [] q = tt
always_fresh now ((t, addr) ∷ es) q = ((λ q' e. tt), λ q' e. always_fresh now es q')

handle_read_lem_example :
    (expired : List Pair) × (p r q' : TimerQueue) × (get_expired 1200
        (record one { expires_at = none })
      ≡ some (expired, p))
    × (run_each cancels_ticker 1200 expired (record p { calling = true; canceling = [] }) ≡ some r)
    × (handle_read cancels_ticker 1200 one ≡ some q')
    × IsValid q'
    × Due 1200 expired
    × Settled 1200 expired (record r { calling = false }) q'
    × (q'.calling ≡ false)
handle_read_lem_example =
    handle_read_lem cancels_ticker 1200 one one-IsValid (omega arith)
      (λ expired p e. always_fresh 1200 expired (record p { calling = true; canceling = [] }))

-- The ticker is gone after the pass in which it cancels itself.
self_cancel : Option.map (λ q. q.store 40) (handle_read cancels_ticker 1200 one) ≡ some none
unfolding handle_read get_expired erase_active run_each serve cancel_in_loop reset reset_each rearm
    member insert erase
self_cancel = refl

add_earlier_example :
    (id : Pair) × (q' : TimerQueue) × (add_timer 10 80 500 0 false one ≡ some (id, q'))
    × (q'.expires_at ≡ some 1000)
add_earlier_example =
    add_earlier 10 80 500 0 false one one-IsValid refl 1000 40 [] refl (omega arith)

add_later_example :
    (id : Pair) × (q' : TimerQueue) × (x : ℕ) × (add_timer 10 80 2000 0 false one ≡ some (id, q'))
    × (q'.expires_at ≡ some x)
    × (1000 < x)
add_later_example = add_later 10 80 2000 0 false one one-IsValid refl 1000 40 [] refl (omega arith)
