-- ===== src/Transport/Tcp.antt =====
-- src/transport/tcp_transport.rs: the two ends of a connection to a peer. The byte stream is tokio's
-- and is a parameter: what it becomes by a write or a shutdown, or nothing where it fails.
pub mod Server
pub mod Client
pub mod Closing
pub mod Handling
pub mod Phases
mod Tests
use rest_diameter_bridge.Avp.Defs.{Avp, from_utf8_string, from_unsigned32}
use rest_diameter_bridge.Command.Defs.{Command, is_request}
use rest_diameter_bridge.Avp.Codes.{mandatory_flag}
use rest_diameter_bridge.Command.Codec.{encode_command}
use rest_diameter_bridge.Base.Text.{Text}
use rest_diameter_bridge.Base.{ℕ, Bool, Option, none, some, List, [], ◌∷◌, ◌==◌, ◌&&◌}

pub record Stream (W : Type 0) : Type 0 where
  pub write_all : List ℕ → W → Option W
  pub shutdown : W → Option W

-- The error strings of the connections.
pub data TcpError : Type 0 where
  not_established no_writer write_failed close_failed : TcpError

-- `none` is `Ok`.
abbrev pub TcpResult : Type 0
TcpResult = Option TcpError

abbrev pub capabilities_exchange : ℕ
capabilities_exchange = 257

abbrev pub device_watchdog : ℕ
device_watchdog = 280

abbrev pub disconnect_peer : ℕ
disconnect_peer = 282

unfoldable pub is_watchdog_request : Command → Bool
is_watchdog_request c = c.command_code == device_watchdog && is_request c

unfoldable pub is_disconnect_request : Command → Bool
is_disconnect_request c = c.command_code == disconnect_peer && is_request c

abbrev pub origin_avps : Text → Text → Avp → List Avp
origin_avps host realm last =
    from_utf8_string 264 mandatory_flag none host
    ∷ from_utf8_string 296 mandatory_flag none realm
    ∷ last
    ∷ []

abbrev pub result_success : Avp
result_success = from_unsigned32 268 mandatory_flag none 2001

abbrev pub disconnect_cause : Avp
disconnect_cause = from_unsigned32 273 mandatory_flag none 0

module _ {W : Type 0} (s : Stream W) where
  abbrev pub put_result : W → Option W → TcpResult × Option W
  put_result w none = (some write_failed, some w)
  put_result w (some w') = (none, some w')

  -- The `write_all` of a command on a writer that may be missing.
  unfoldable pub put : TcpError → Command → Option W → TcpResult × Option W
  put missing c none = (some missing, none)
  put missing c (some w) = put_result w (s.write_all (encode_command c) w)
