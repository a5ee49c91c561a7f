-- ===== src/Transport/Tcp/Tests.antt =====
-- The theorems about the connections to peers at concrete values.
use rest_diameter_bridge.Transport.Tcp.{
  Stream, not_established, no_writer, is_watchdog_request, is_disconnect_request, put,
}
use rest_diameter_bridge.Transport.Tcp.Server.{
  TcpServerConnection, Received, own, process, own_answer,
}
use rest_diameter_bridge.Transport.Tcp.Server as Server
use rest_diameter_bridge.Transport.Tcp.Client.{TcpClientConnection, send, receive_cea, send_command}
use rest_diameter_bridge.Transport.Tcp.Closing.{Answers, process-disconnect}
use rest_diameter_bridge.Transport.Tcp.Handling.{
  waiting_cea, ended, Reading, received, returns_err, handle_reading, after_handling,
}
use rest_diameter_bridge.Transport.Processor.{failed, no_mapping}
use rest_diameter_bridge.Transport.Tcp.Client.{process_own}
use rest_diameter_bridge.Transport.Tcp.Phases.{
  Reached, starts, opens, accepted, opened, Reached-send, fails-send,
}
use rest_diameter_bridge.Transport.Processor.{Node, Clock}
use rest_diameter_bridge.Transport.ConnectionManager.{Connection, new_manager}
use rest_diameter_bridge.Transport.Answers.{Notify, new_answers}
use rest_diameter_bridge.Transport.HopByHop.{new_mapper}
use rest_diameter_bridge.Transport.IdGenerator.{new_generator}
use rest_diameter_bridge.Command.Defs.{
  Command, is_request, get_result_code, get_avp, find_avp, is_answer,
}
use rest_diameter_bridge.Command.Codec.{encode_command}
use rest_diameter_bridge.Avp.Defs.{avp, nil, as_unsigned32}
use rest_diameter_bridge.Base.Text.{text}
use rest_diameter_bridge.Base.{
  ℕ, ◌≡◌, refl, Bool, true, false, Option, none, some, List, [], ◌∷◌, ◌++◌, if◌then◌else◌, arith,
}

-- A stream keeps what was written.
abbrev kept : Stream (List ℕ)
kept = record { write_all = λ bytes w. some (w ++ bytes); shutdown = λ w. some w }

abbrev permits : Notify Bool
permits = record {
  new_notify = false;
  notify_one = λ n. true;
  notified = λ n. if n then some false else none;
  notified-new_notify = refl;
  notified-notify_one = refl;
}

abbrev node : Node Bool
node = record {
  generator = new_generator;
  mapper = new_mapper 0;
  answers = new_answers 0;
  manager = new_manager;
}

abbrev clock : Clock
clock = record { now = 0; reading = λ id. 0; later = 0 }

abbrev always : List Connection → Command → Bool
always ds c = true

abbrev no_handler : Command → Option (Option Command)
no_handler c = none

abbrev accepted_one : TcpServerConnection (List ℕ)
accepted_one = record {
  id = text "c";
  my_host = text "h";
  my_realm = text "r";
  peer_host = text "p";
  peer_realm = text "q";
  writer = some [];
  closed = false;
}

abbrev request_of : ℕ → Command
request_of code = record {
  command_code = code;
  command_flags = 0x80;
  application_id = 0;
  hop_by_hop_id = 7;
  end_to_end_id = 8;
  avps = [];
}

abbrev dwa_bytes : List ℕ
dwa_bytes = encode_command (own_answer 280 (request_of 280) accepted_one)

abbrev dpa_bytes : List ℕ
dpa_bytes = encode_command (own_answer 282 (request_of 282) accepted_one)

dwr : is_watchdog_request (request_of 280) ≡ true
unfolding is_watchdog_request is_request
dwr = refl

dpr : is_disconnect_request (request_of 282) ≡ true
unfolding is_disconnect_request is_request
dpr = refl

process-disconnect_example :
    (closed_one : TcpServerConnection (List ℕ)) × (process kept permits always no_handler 0 clock
        clock
        (request_of 282)
        node
        accepted_one
      ≡ own (none, closed_one))
    × (closed_one.closed ≡ true)
    × ((d : Command) → Server.send kept d closed_one ≡ (some no_writer, closed_one))
    × Answers 282 (request_of 282) (own_answer 282 (request_of 282) accepted_one)
process-disconnect_example =
    process-disconnect kept permits always no_handler 0 clock clock (request_of 282) node
      accepted_one [] dpa_bytes dpa_bytes dpr refl refl refl

abbrev fresh : TcpClientConnection (List ℕ)
fresh = record {
  address = text "c";
  my_host = text "h";
  my_realm = text "r";
  peer_host = text "p";
  peer_realm = text "q";
  writer = none;
  connected = false;
  hop_by_hop = new_generator;
  end_to_end = new_generator;
}

abbrev cer_sent : TcpClientConnection (List ℕ)
cer_sent = (send kept (request_of 257) (opened kept fresh [])).1

cer_goes : (send kept (request_of 257) (opened kept fresh [])).0 ≡ none
unfolding send send_command put
cer_goes = refl

abbrev waiting : Reached kept waiting_cea cer_sent
waiting = opens fresh [] (request_of 257) (starts fresh refl) cer_goes

Reached-send_example : send kept (request_of 272) cer_sent ≡ (some not_established, cer_sent)
Reached-send_example =
    Reached-send kept waiting_cea cer_sent (request_of 272) waiting (λ e. absurd (cc e))
      (λ e. absurd (cc e)) (omega arith)

abbrev cea : Command
cea = record (request_of 257) {
  command_flags = 0;
  avps = avp 268 0x40 none (some (0 ∷ 0 ∷ 7 ∷ 209 ∷ [])) nil ∷ [];
}

cea_taken : receive_cea (some cea) ≡ none
unfolding receive_cea get_result_code get_avp find_avp as_unsigned32 is_answer is_request
cea_taken = refl

abbrev up : TcpClientConnection (List ℕ)
up = record cer_sent { connected = true }

abbrev cer_bytes : List ℕ
cer_bytes = encode_command (request_of 257)

cer_written : up.writer ≡ some cer_bytes
unfolding send send_command put
cer_written = refl

-- An answer that the node has no mapping for.
abbrev stray : Reading
stray = received (record (request_of 272) { command_flags = 0 }) (failed no_mapping)

stray_fails : handle_reading kept stray up ≡ (returns_err, up)
unfolding handle_reading process_own is_disconnect_request
stray_fails = refl

fails-send_example :
    let (phase, left) = after_handling (handle_reading kept stray up) in
    (phase ≡ ended)
    × (left.connected ≡ true)
    × (send kept (request_of 272) left
        ≡ (none, record up { writer = some (cer_bytes ++ encode_command (request_of 272)) }))
fails-send_example =
    fails-send kept up up stray (request_of 272) cer_bytes
      (cer_bytes ++ encode_command (request_of 272))
      (accepted cer_sent (some cea) waiting cea_taken) stray_fails cer_written refl
