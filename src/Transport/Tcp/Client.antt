-- ===== src/Transport/Tcp/Client.antt =====
-- `TcpClientConnection` of src/transport/tcp_transport.rs: the end that connects to a peer. The
-- requests that `send_cer` and `send_dwr` build from the dictionary are not modelled.
use rest_diameter_bridge.Avp.Codes.{mandatory_flag}
use rest_diameter_bridge.Avp.Defs.{Avp, from_utf8_string}
use rest_diameter_bridge.Transport.Tcp.{
  Stream, TcpResult, no_writer, not_established, close_failed, put, is_disconnect_request,
  origin_avps, disconnect_cause, device_watchdog, disconnect_peer, capabilities_exchange,
}
use rest_diameter_bridge.Transport.Processor.{Context, Node, Clock, Progress, process_command}
use rest_diameter_bridge.Transport.ConnectionManager.{Connection}
use rest_diameter_bridge.Transport.IdGenerator.{IdGenerator, next_id}
use rest_diameter_bridge.Transport.Answers.{Notify}
use rest_diameter_bridge.Command.Defs.{Command, is_request, is_answer, get_result_code}
use rest_diameter_bridge.Base.Text.{Text}
use rest_diameter_bridge.Base.{
  ℕ, Bool, Option, none, some, List, [], ◌∷◌, if◌then◌else◌, ltb, leb, ◌==◌, not, ◌&&◌, ◌||◌,
}

pub record TcpClientConnection (W : Type 0) : Type 0 where
  pub address : Text
  pub my_host : Text
  pub my_realm : Text
  pub peer_host : Text
  pub peer_realm : Text
  pub writer : Option W
  pub connected : Bool
  pub hop_by_hop : IdGenerator
  pub end_to_end : IdGenerator

pub data ClientReceived (W P : Type 0) : Type 0 where
  handled : TcpResult × TcpClientConnection W → ClientReceived W P
  given : P → ClientReceived W P

pub data CeaError : Type 0 where
  not_read not_cea rejected no_result_code : CeaError

abbrev pub judge : Option ℕ → Option CeaError
judge none = some no_result_code
judge (some code) = if ltb code 2000 || leb 3000 code then some rejected else none

-- `receive_cea`, with the command that was read or nothing; `none` is `Ok`.
unfoldable pub receive_cea : Option Command → Option CeaError
receive_cea none = some not_read
receive_cea (some c) =
    if not (c.command_code == capabilities_exchange) || not (is_answer c)
    then some not_cea
    else judge (get_result_code c)

module _ {W : Type 0} (s : Stream W) where
  -- `send_command`, which does not look at `connected`.
  unfoldable pub send_command : Command → TcpClientConnection W → TcpResult × TcpClientConnection W
  send_command c t =
      let (result, writer) = put s no_writer c t.writer in (result, record t { writer = writer })

  unfoldable pub send : Command → TcpClientConnection W → TcpResult × TcpClientConnection W
  send c t =
      if not (c.command_code == capabilities_exchange) && not t.connected
      then (some not_established, t)
      else send_command c t

  -- The next two identifiers of the generators.
  abbrev pub advance : TcpClientConnection W → TcpClientConnection W
  advance t = record t {
    hop_by_hop = (next_id t.hop_by_hop).1;
    end_to_end = (next_id t.end_to_end).1;
  }

  -- A command without an application: its code, its flags, its identifiers and what it carries.
  abbrev pub own_command : ℕ → ℕ → ℕ → ℕ → List Avp → Command
  own_command code flags hop_by_hop end_to_end avps = record {
    command_code = code;
    command_flags = flags;
    application_id = 0;
    hop_by_hop_id = hop_by_hop;
    end_to_end_id = end_to_end;
    avps = avps;
  }

  unfoldable pub send_dwa : TcpClientConnection W → TcpResult × TcpClientConnection W
  send_dwa t =
      send_command
        (own_command device_watchdog 0 (next_id t.hop_by_hop).0 (next_id t.end_to_end).0 (
          from_utf8_string 264 mandatory_flag none t.my_host
          ∷ from_utf8_string 296 mandatory_flag none t.my_realm
          ∷ []))
        (advance t)

  unfoldable pub send_dpr_command : TcpClientConnection W → TcpResult × TcpClientConnection W
  send_dpr_command t =
      send_command
        (own_command disconnect_peer 0x80 (next_id t.hop_by_hop).0 (next_id t.end_to_end).0
          (origin_avps t.my_host t.my_realm disconnect_cause))
        (advance t)

  abbrev pub shut : TcpClientConnection W → Option W → TcpResult × TcpClientConnection W
  shut t none = (some close_failed, t)
  shut t (some w) = (none, record t { writer = some w })

  abbrev pub shut_writer : TcpClientConnection W → Option W → TcpResult × TcpClientConnection W
  shut_writer t none = (some no_writer, t)
  shut_writer t (some w) = shut t (s.shutdown w)

  -- The `?` between two steps.
  abbrev pub and_next :
      (TcpClientConnection W → TcpResult × TcpClientConnection W)
      → TcpResult × TcpClientConnection W
      → TcpResult × TcpClientConnection W
  and_next next (some e, t) = (some e, t)
  and_next next (none, t) = next t

  unfoldable pub close : TcpClientConnection W → TcpResult × TcpClientConnection W
  close t = and_next (λ t. shut_writer t t.writer) (send_dpr_command t)

  unfoldable pub process_dpr : Command → TcpClientConnection W → TcpResult × TcpClientConnection W
  process_dpr c t = and_next close (
      send
        (own_command disconnect_peer 0 c.hop_by_hop_id c.end_to_end_id
          (origin_avps t.my_host t.my_realm disconnect_cause))
        t)

  -- The commands that the client answers or drops itself; the others are given to the node.
  unfoldable pub process_own :
      Command → TcpClientConnection W → Option (TcpResult × TcpClientConnection W)
  process_own c t =
      if c.command_code == device_watchdog
      then some (if is_request c then send_dwa t else (none, t))
      else if is_disconnect_request c
      then some (process_dpr c t)
      else none

abbrev pub context_of : {W : Type 0} → TcpClientConnection W → Context
context_of t = record {
  connection_id = t.address;
  my_host = t.my_host;
  my_realm = t.my_realm;
  peer_host = t.peer_host;
  peer_realm = t.peer_realm;
}

abbrev pub own_or :
    {W P : Type 0} → Option (TcpResult × TcpClientConnection W) → P → ClientReceived W P
own_or none p = given p
own_or (some r) p = handled r

module _ {W N : Type 0} (s : Stream W) (notify : Notify N)
    (sends : List Connection → Command → Bool) where
  unfoldable pub process :
      (Command → Option (Option Command))
      → ℕ
      → Clock
      → Clock
      → Command
      → Node N
      → (t : TcpClientConnection W) → ClientReceived W (Progress notify sends (context_of t))
  process handle now at at' c n t =
      own_or (process_own s c t) (process_command notify sends (context_of t) handle now at at' c n)
