-- ===== src/TimerQueue/Earliest.antt =====
-- Which additions set the timer descriptor of networker/net/TimerQueue.cpp anew.
use network_program_base_fra.Prelude.{ℕ, ◌≤◌, ◌<◌, ◌≡◌, arith, some, none, List, [], ◌∷◌, Bool, ◌∙◌}
use network_program_base_fra.TimerQueue.{TimerQueue, add_timer}
use network_program_base_fra.TimerQueue.PairSet.{Pair}
use network_program_base_fra.TimerQueue.Valid.{IsValid}
use network_program_base_fra.TimerQueue.Arming.{fire_at}
use network_program_base_fra.TimerQueue.Pass.{add_timer_lem}

module _ (clock addr when delta : ℕ) (repeat : Bool) (q : TimerQueue) (v : IsValid q)
    (free : q.store addr ≡ none) where
  -- The first timer of an empty queue sets the descriptor for its expiration.
  pub add_first :
      q.timers ≡ []
      → (id : Pair) × (q' : TimerQueue) × (add_timer clock addr when delta repeat q ≡ some (id, q'))
        × (q'.expires_at ≡ some (fire_at clock when))
  add_first e =
      let (q', f, _, _, _, x) = add_timer_lem clock addr when delta repeat q v free in
      (_, q', f, x ∙ ground arith)

  -- The comparison of insert is the wrong way round: on a valid queue that is not empty, a new
  -- timer that expires no later than the first one leaves the timer descriptor as it was set
  -- before.
  pub add_earlier :
      (first a : ℕ) (rest : List Pair)
      → q.timers ≡ (first, a) ∷ rest
      → when ≤ first
      → (id : Pair) × (q' : TimerQueue) × (add_timer clock addr when delta repeat q ≡ some (id, q'))
        × (q'.expires_at ≡ q.expires_at)
  add_earlier first a rest e early =
      let (q', f, _, _, _, x) = add_timer_lem clock addr when delta repeat q v free in
      (_, q', f, x ∙ ground arith)

  -- On a valid queue that is not empty, a new timer that expires after the first one sets the
  -- timer descriptor for a time later than the expiration of the first one.
  pub add_later :
      (first a : ℕ) (rest : List Pair)
      → q.timers ≡ (first, a) ∷ rest
      → first < when
      → (id : Pair) × (q' : TimerQueue) × (x : ℕ) × (add_timer clock addr when delta repeat q
          ≡ some (id, q'))
        × (q'.expires_at ≡ some x)
        × (first < x)
  add_later first a rest e late =
      let (q', f, _, _, _, x) = add_timer_lem clock addr when delta repeat q v free in
      (_, q', fire_at clock when, f, x ∙ ground arith, ground arith)
