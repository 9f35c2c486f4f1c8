-- ===== src/EventLoop/Samples.antt =====
-- The loop of networker/net/EventLoop.cpp with a functor that another thread queues.
use network_program_base_fra.Prelude.{◌≡◌, refl, false, [], ◌∷◌, inl, inr}
use network_program_base_fra.EventLoop.{
  EventLoop, polling, queue_in_loop, run_in_loop, wake, wakeup,
}
use network_program_base_fra.EventLoop.Wakeup.{queues, step, Stepped, loop_lem}

abbrev quiet : EventLoop
quiet = record {
  phase = polling;
  pending_functors = [];
  functors = [];
  eventfd = 0;
  waking = 0;
  called = [];
}

wakes_up :
    wake (run_in_loop false 7 quiet) ≡ record quiet { pending_functors = 7 ∷ []; eventfd = 1 }
unfolding wake run_in_loop queue_in_loop wakeup
wakes_up = refl

loop_lem_example : Stepped (7 ∷ []) quiet (step (queues false 7) quiet)
loop_lem_example =
    loop_lem (queues false 7) quiet (record { awake = inr (inl refl); empty = inr refl }) tt
