-- ===== src/Connector/Samples.antt =====
-- The connector of networker/net/Connector.cpp on concrete events.
use network_program_base_fra.Prelude.{◌≡◌, refl, true, some, [], ◌∷◌, ◌++◌}
use network_program_base_fra.Connector.{Connector, new, watch, connecting}
use network_program_base_fra.Connector.Backoff.{retry_all, delays, backoff_lem}

-- The connection is under way.
abbrev under_way : Connector
under_way = record new {
  connect_flag = true;
  state = connecting;
  channel = some (watch 4);
  created = 4 ∷ [];
}

abbrev wanted : Connector
wanted = record new { connect_flag = true }

backoff_lem_example : (retry_all (3 ∷ 4 ∷ 5 ∷ []) wanted).timers ≡ wanted.timers ++ delays 0 3
unfolding new
backoff_lem_example = backoff_lem (3 ∷ 4 ∷ 5 ∷ []) 0 wanted refl refl

-- The seventh delay is the greatest one.
capped : delays 4 4 ≡ 8000 ∷ 16000 ∷ 30000 ∷ 30000 ∷ []
capped = refl
