-- ===== src/Channel/Samples.antt =====
-- The channel of networker/net/Channel.h on concrete events.
use network_program_base_fra.Prelude.{◌≡◌, refl, true, false, not, ◌||◌, [], ◌∷◌}
use network_program_base_fra.Channel.{
  Channel, new, tie, handle_event, handle_event_with_guard, close_callback, read_callback,
  write_callback,
}
use network_program_base_fra.Channel.Flags.{
  reads, writes, stops_reading, apply_all, want_all, Shows, apply_all_refines,
}
use network_program_base_fra.Channel.Dispatch.{Dispatches, handle_event_lem}

-- Readable and writable, with both callbacks set.
abbrev ready : Channel
ready = record (tie (new 5)) { revents = 5; has_read = true; has_write = true; has_close = true }

both : handle_event true ready ≡ read_callback ∷ write_callback ∷ []
unfolding handle_event handle_event_with_guard tie new
both = refl

-- A hang-up with data to read is not a close.
hang_up : handle_event true (record ready { revents = 0x11 }) ≡ read_callback ∷ []
unfolding handle_event handle_event_with_guard tie new
hang_up = refl

closes : handle_event true (record ready { revents = 0x10 }) ≡ close_callback ∷ []
unfolding handle_event handle_event_with_guard tie new
closes = refl

handle_event_lem_example : Dispatches (not ready.tied || false) ready (handle_event false ready)
handle_event_lem_example = handle_event_lem false ready

apply_all_refines_example :
    Shows
      (want_all (reads ∷ writes ∷ stops_reading ∷ []) (record { reading = false; writing = false }))
      (apply_all (reads ∷ writes ∷ stops_reading ∷ []) (new 5))
unfolding new
apply_all_refines_example =
    apply_all_refines (reads ∷ writes ∷ stops_reading ∷ []) (new 5)
      (record { reading = false; writing = false }) refl
