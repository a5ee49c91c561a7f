-- ===== src/Transport/Tcp/Handling.antt =====
-- The turns of `handle_connection` of the client in src/transport/tcp_transport.rs, and what its end
-- means for `start`. `node` is what a command that is given to the node comes to, once it is
-- through: the `Result` of the node's `process_command`. The request that `ticked` carries is the
-- one `send_dwr` builds from the dictionary.
pub mod Connected
use rest_diameter_bridge.Transport.Tcp.{Stream, TcpResult}
use rest_diameter_bridge.Transport.Tcp.Client.{
  TcpClientConnection, send_command, process_own, advance,
}
use rest_diameter_bridge.Transport.Processor.{Processed, done, failed}
use rest_diameter_bridge.Command.Defs.{Command}
use rest_diameter_bridge.Base.{false, Option, none, some}

pub data Phase : Type 0 where
  connecting waiting_cea established ended : Phase

-- What a turn of the loop meets: the stream is closed, it cannot be read, the timer rings, or a
-- command is there.
pub data Reading : Type 0 where
  closed unreadable : Reading
  ticked : Command → Reading
  received : Command → Processed → Reading

-- The loop goes on, or it returns `Ok` or `Err`.
pub data Handling : Type 0 where
  goes_on returns_ok returns_err : Handling

module _ {W : Type 0} where
  abbrev pub unless_err : TcpResult × TcpClientConnection W → Handling × TcpClientConnection W
  unless_err (none, t) = (goes_on, t)
  unless_err (some e, t) = (returns_err, t)

  abbrev pub of_processed :
      Processed
      → Option (TcpResult × TcpClientConnection W)
      → TcpClientConnection W
      → Handling × TcpClientConnection W
  of_processed node (some r) t = unless_err r
  of_processed done none t = (goes_on, t)
  of_processed (failed e) none t = (returns_err, t)

  unfoldable pub handle_reading :
      Stream W → Reading → TcpClientConnection W → Handling × TcpClientConnection W
  handle_reading s closed t = (returns_ok, t)
  handle_reading s unreadable t = (returns_err, t)
  handle_reading s (ticked dwr) t = unless_err (send_command s dwr (advance s t))
  handle_reading s (received c node) t = of_processed node (process_own s c t) t

  -- `self.handle_connection(reader).await?`, and behind it the reset of the flag.
  unfoldable pub after_handling : Handling × TcpClientConnection W → Phase × TcpClientConnection W
  after_handling (goes_on, t) = (established, t)
  after_handling (returns_ok, t) = (connecting, record t { connected = false })
  after_handling (returns_err, t) = (ended, t)
