-- ===== src/TcpClient/Samples.antt =====
-- A client with its first connection, for the theorems about networker/net/TcpClient.cpp.
use network_program_base_fra.Prelude.{◌≡◌, refl, true, false, none, some, [], ◌∷◌, ◌>>=◌, update}
use network_program_base_fra.Channel
use network_program_base_fra.Channel.{
  Channel, disable_all, enable_writing, remove, removes, is_none_event,
}
use network_program_base_fra.Connection.{connected}
use network_program_base_fra.Connector
use network_program_base_fra.Connector.{Connector}
use network_program_base_fra.Connector.Steps.{runs_next}
use network_program_base_fra.TcpClient.{
  TcpClient, new, connect, handle_write, handle_close, new_connection,
}
use network_program_base_fra.TcpClient.Valid.{connects, is_writable_client, drives, step}
use network_program_base_fra.TcpClient.Run.{
  Reaches, begins, goes_on, reaches-IsValid, connect-handle_close,
}

-- A socket is being connected.
abbrev waiting : TcpClient
waiting = record (new false) {
  connector = record Connector.new {
    connect_flag = true;
    state = Connector.connecting;
    channel = some (Connector.watch 4);
    created = 4 ∷ [];
  };
}

-- Its channel after it was removed.
abbrev quiet : Channel
quiet =
    let off : Channel = disable_all (Connector.watch 4) in
    record off { added_to_loop = false; loop_calls = removes ∷ off.loop_calls }

abbrev handed : TcpClient
handed = record waiting {
  connector = record waiting.connector {
    state = Connector.connected;
    channel = some quiet;
    queued = Connector.reset_job ∷ [];
    handed = 4 ∷ [];
  };
  next_conn_id = 2;
  connection = some 1;
  states = update (λ a. connected) 1 connected;
  watching = update (λ a. false) 1 true;
}

abbrev ready : TcpClient
ready = record handed { connector = record handed.connector { channel = none; queued = [] } }

waiting_lem : step (connects true 4 115) (new false) ≡ some waiting
unfolding step connect Connector.start Connector.start_in_loop Connector.connect Connector.outcome
    Connector.start_connecting new Connector.new
waiting_lem = refl

handed_lem : step (is_writable_client 0 false) waiting ≡ some handed
unfolding step handle_write Connector.handle_write Connector.hand_over
    Connector.remove_and_reset_channel remove is_none_event disable_all enable_writing new
    new_connection Connector.new Channel.new Channel.update
handed_lem = refl

ready_lem : step (drives (runs_next 5 115)) handed ≡ some ready
unfolding step Connector.run_next Connector.reset_channel
ready_lem = refl

ready-Reaches : Reaches false ready
unfolding new Connector.new
ready-Reaches =
    goes_on (drives (runs_next 5 115))
      (goes_on (is_writable_client 0 false) (goes_on (connects true 4 115) begins tt waiting_lem) tt
        handed_lem)
      tt ready_lem

connect-handle_close_example : (handle_close 5 115 1 ready >>= connect true 5 115) ≡ none
unfolding new
connect-handle_close_example =
    connect-handle_close 5 115 1 ready (reaches-IsValid ready-Reaches) refl refl
