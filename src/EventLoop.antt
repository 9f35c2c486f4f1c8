-- ===== src/EventLoop.antt =====
-- The pending functors of networker/net/EventLoop.cpp. A functor is a number. `eventfd` is the
-- count in it, which `handleRead` takes. Other threads take two steps to queue: the functor goes
-- in under the lock, and then they wake the loop; `waking` counts those in between. The loop's
-- thread polls, handles channels, and calls functors.
pub mod Wakeup
mod Samples
use network_program_base_fra.Prelude.{
  ℕ, ◌+◌, ◌-◌, Bool, true, false, not, ◌||◌, Option, none, some, List, [], ◌∷◌, ◌++◌, if◌then◌else◌,
  ◌>>=◌, ◌>>◌, assert, ltb,
}

pub data Phase : Type 0 where
  polling handling calling : Phase

pub record EventLoop : Type 0 where
  pub phase : Phase
  pub pending_functors : List ℕ
  pub functors : List ℕ
  pub eventfd : ℕ
  pub waking : ℕ
  pub called : List ℕ

abbrev pub calling_pending_functors : Phase → Bool
calling_pending_functors calling = true
calling_pending_functors p = false

unfoldable pub wakeup : EventLoop → EventLoop
wakeup l = record l { eventfd = l.eventfd + 1 }

-- In the loop's thread the wakeup follows at once.
unfoldable pub queue_in_loop : Bool → ℕ → EventLoop → EventLoop
queue_in_loop in_loop f l =
    let queued : EventLoop = record l { pending_functors = l.pending_functors ++ f ∷ [] } in
    if not in_loop
    then record queued { waking = l.waking + 1 }
    else if calling_pending_functors l.phase
    then wakeup queued
    else queued

-- A functor that is run at once is called in its turn of the loop's thread.
unfoldable pub run_in_loop : Bool → ℕ → EventLoop → EventLoop
run_in_loop in_loop f l =
    if in_loop then record l { called = l.called ++ f ∷ [] } else queue_in_loop false f l

-- Another thread's second step.
unfoldable pub wake : EventLoop → EventLoop
wake l = wakeup (record l { waking = l.waking - 1 })

-- `poll` returns, because of an event or of its timeout.
unfoldable pub poll_returns : EventLoop → EventLoop
poll_returns l = record l { phase = handling }

unfoldable pub handle_read : EventLoop → EventLoop
handle_read l = record l { eventfd = 0 }

-- `doPendingFunctors` takes them all, calls one after the other, and the loop polls again.
unfoldable pub take_functors : EventLoop → EventLoop
take_functors l = record l { phase = calling; functors = l.pending_functors; pending_functors = [] }

abbrev pub call_next : List ℕ → EventLoop → EventLoop
call_next [] l = record l { phase = polling }
call_next (f ∷ fs) l = record l { functors = fs; called = l.called ++ f ∷ [] }

unfoldable pub call_functor : EventLoop → EventLoop
call_functor l = call_next l.functors l
