-- ===== src/TimerQueue/Arming.antt =====
-- When the timer descriptor of networker/net/TimerQueue.cpp fires.
use network_program_base_fra.Prelude.{ℕ, ◌+◌, ◌-◌, ◌*◌, ◌<◌, ◌≡◌, arith, ltb, if◌then◌else◌, some}
use network_program_base_fra.TimerQueue.{
  TimerQueue, Timespec, how_much_time_from_now, reset_timerfd,
}

-- The time asked for, but no sooner than in 100 microseconds.
abbrev pub fire_at : ℕ → ℕ → ℕ
fire_at clock when = clock + (if ltb (when - clock) 100 then 100 else when - clock)

-- howMuchTimeFromNow gives a timespec with less than a second of nanoseconds, whose total, counted
-- from the clock, is the time asked for, or 100 microseconds if that is sooner than in 100
-- microseconds.
pub how_much_time_from_now_lem :
    (clock when : ℕ)
    → let t : Timespec = how_much_time_from_now clock when in
      (t.tv_nsec < 1000 * 1000 * 1000)
      × (clock * 1000 + t.tv_sec * (1000 * 1000 * 1000) + t.tv_nsec ≡ fire_at clock when * 1000)
unfolding how_much_time_from_now
how_much_time_from_now_lem clock when = ground arith

-- `resetTimerfd` sets the descriptor for the time asked for.
pub reset_timerfd_lem :
    (clock when : ℕ) (q : TimerQueue)
    → reset_timerfd clock when q ≡ record q { expires_at = some (fire_at clock when) }
unfolding reset_timerfd
reset_timerfd_lem clock when q = ground arith
