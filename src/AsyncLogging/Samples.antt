-- ===== src/AsyncLogging/Samples.antt =====
-- The logger of networker/base/AsyncLogging.cpp on concrete lines.
use network_program_base_fra.Prelude.{◌≡◌, refl, some, none, [], ◌∷◌, ◌++◌, arith, inl}
use network_program_base_fra.AsyncLogging.{AsyncLogging, new, collect}
use network_program_base_fra.AsyncLogging.Laws.{IsBusy, IsReady, stream}
use network_program_base_fra.AsyncLogging.Steps.{appends, writing, step, added, IsValid, step_log}

-- A line waits to be written.
abbrev busy : AsyncLogging
busy = record new { new_buffer1 = none; buffers_to_write = (72 ∷ 105 ∷ []) ∷ [] }

collected : collect (record new { current_buffer = some (72 ∷ 105 ∷ []) }) ≡ some busy
unfolding collect new
collected = refl

busy-IsReady : IsReady busy
unfolding new
busy-IsReady = record { current = ([], refl); next = inl refl }

busy-IsBusy : IsBusy busy
unfolding new
busy-IsBusy = record { batch = omega arith; first = refl; second = inl refl }

step_log_example :
    (c' : AsyncLogging) × (step (appends (33 ∷ [])) busy ≡ some c')
    × IsValid writing c'
    × (stream c' ≡ stream busy ++ added (appends (33 ∷ [])))
step_log_example =
    step_log (appends (33 ∷ [])) writing busy
      (record { ready = busy-IsReady; stands = busy-IsBusy }) (omega arith)
