-- ===== src/Transport/Tcp/Server.antt =====
-- `TcpServerConnection` of src/transport/tcp_transport.rs: the end that a peer connected to.
use rest_diameter_bridge.Transport.Tcp.{
  Stream, TcpResult, no_writer, close_failed, put, is_watchdog_request, is_disconnect_request,
  origin_avps, result_success, device_watchdog, disconnect_peer,
}
use rest_diameter_bridge.Transport.Processor.{Context, Node, Clock, Progress, process_command}
use rest_diameter_bridge.Transport.ConnectionManager.{Connection}
use rest_diameter_bridge.Transport.Answers.{Notify}
use rest_diameter_bridge.Command.Defs.{Command}
use rest_diameter_bridge.Base.Text.{Text}
use rest_diameter_bridge.Base.{ℕ, Bool, true, Option, none, some, List, if◌then◌else◌}

pub record TcpServerConnection (W : Type 0) : Type 0 where
  pub id : Text
  pub my_host : Text
  pub my_realm : Text
  pub peer_host : Text
  pub peer_realm : Text
  pub writer : Option W
  pub closed : Bool

-- What becomes of a command: the connection handles it, or the node does.
pub data Received (W P : Type 0) : Type 0 where
  own : TcpResult × TcpServerConnection W → Received W P
  passed : P → Received W P

-- The answer of the connection itself, with the identifiers of the request.
unfoldable pub own_answer : {W : Type 0} → ℕ → Command → TcpServerConnection W → Command
own_answer code c t = record {
  command_code = code;
  command_flags = 0;
  application_id = 0;
  hop_by_hop_id = c.hop_by_hop_id;
  end_to_end_id = c.end_to_end_id;
  avps = origin_avps t.my_host t.my_realm result_success;
}

module _ {W : Type 0} (s : Stream W) where
  unfoldable pub send : Command → TcpServerConnection W → TcpResult × TcpServerConnection W
  send c t =
      let (result, writer) = put s no_writer c t.writer in (result, record t { writer = writer })

  abbrev pub shut : TcpServerConnection W → Option W → TcpResult × TcpServerConnection W
  shut t none = (some close_failed, t)
  shut t (some w) = (none, record t { writer = none; closed = true })

  abbrev pub close_writer : TcpServerConnection W → Option W → TcpResult × TcpServerConnection W
  close_writer t none = (none, record t { writer = none; closed = true })
  close_writer t (some w) = shut t (s.shutdown w)

  unfoldable pub close : TcpServerConnection W → TcpResult × TcpServerConnection W
  close t = close_writer t t.writer

  unfoldable pub process_dwr : Command → TcpServerConnection W → TcpResult × TcpServerConnection W
  process_dwr c t = send (own_answer device_watchdog c t) t

  abbrev pub then_close : TcpResult × TcpServerConnection W → TcpResult × TcpServerConnection W
  then_close (some e, t) = (some e, t)
  then_close (none, t) = close t

  unfoldable pub process_dpr : Command → TcpServerConnection W → TcpResult × TcpServerConnection W
  process_dpr c t = then_close (send (own_answer disconnect_peer c t) t)

abbrev pub context_of : {W : Type 0} → TcpServerConnection W → Context
context_of t = record {
  connection_id = t.id;
  my_host = t.my_host;
  my_realm = t.my_realm;
  peer_host = t.peer_host;
  peer_realm = t.peer_realm;
}

module _ {W N : Type 0} (s : Stream W) (notify : Notify N)
    (sends : List Connection → Command → Bool) where
  unfoldable pub process :
      (Command → Option (Option Command))
      → ℕ
      → Clock
      → Clock
      → Command
      → Node N
      → (t : TcpServerConnection W) → Received W (Progress notify sends (context_of t))
  process handle now at at' c n t =
      if is_watchdog_request c
      then own (process_dwr s c t)
      else if is_disconnect_request c
      then own (process_dpr s c t)
      else passed (process_command notify sends (context_of t) handle now at at' c n)
