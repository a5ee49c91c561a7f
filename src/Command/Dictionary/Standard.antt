-- ===== src/Command/Dictionary/Standard.antt =====
-- `STANDARD_COMMANDS` of src/command.rs, and `CommandMap::new`.
use rest_diameter_bridge.Command.Dictionary.{
  abort_session, accounting, capabilities_exchange, device_watchdog, disconnect_peer, re_auth,
  session_termination, CommandJson, new_command_json, command_code_as_u32, CommandMap, add_commands,
  empty_command_map,
}
use rest_diameter_bridge.Base.Text.{text}
use rest_diameter_bridge.Base.{[], ◌∷◌, true, false, List}

abbrev abort_session_request : CommandJson
abort_session_request =
    new_command_json (text "Abort-Session-Request") (text "ASR") (command_code_as_u32 abort_session)
      0 true true false
      (text "Session-Id"
        ∷ text "Origin-Host"
        ∷ text "Origin-Realm"
        ∷ text "Destination-Realm"
        ∷ text "Destination-Host"
        ∷ text "Auth-Application-Id"
        ∷ text "User-Name"
        ∷ text "Origin-State-Id"
        ∷ text "Proxy-Info"
        ∷ text "Route-Record"
        ∷ [])

abbrev abort_session_answer : CommandJson
abort_session_answer =
    new_command_json (text "Abort-Session-Answer") (text "ASA") (command_code_as_u32 abort_session)
      0 false true false
      (text "Session-Id"
        ∷ text "Result-Code"
        ∷ text "Origin-Host"
        ∷ text "Origin-Realm"
        ∷ text "User-Name"
        ∷ text "Origin-State-Id"
        ∷ text "Error-Message"
        ∷ text "Error-Reporting-Host"
        ∷ text "Failed-AVP"
        ∷ text "Redirect-Host"
        ∷ text "Redirect-Host-Usage"
        ∷ text "Redirect-Max-Cache-Time"
        ∷ text "Proxy-Info"
        ∷ [])

abbrev accounting_request : CommandJson
accounting_request =
    new_command_json (text "Accounting-Request") (text "ACR") (command_code_as_u32 accounting) 0
      true true false
      (text "Session-Id"
        ∷ text "Origin-Host"
        ∷ text "Origin-Realm"
        ∷ text "Destination-Realm"
        ∷ text "Accounting-Record-Type"
        ∷ text "Accounting-Record-Number"
        ∷ text "Acct-Application-Id"
        ∷ text "Vendor-Specific-Application-Id"
        ∷ text "User-Name"
        ∷ text "Destination-Host"
        ∷ text "Accounting-Sub-Session-Id"
        ∷ text "Accounting-Session-Id"
        ∷ text "Acct-Multi-Session-Id"
        ∷ text "Acct-Interim-Interval"
        ∷ text "Accounting-Realtime-Required"
        ∷ text "Origin-State-Id"
        ∷ text "Event-Timestamp"
        ∷ text "Proxy-Info"
        ∷ text "Route-Record"
        ∷ [])

abbrev accounting_answer : CommandJson
accounting_answer =
    new_command_json (text "Accounting-Answer") (text "ACA") (command_code_as_u32 accounting) 0
      false true false
      (text "Session-Id"
        ∷ text "Result-Code"
        ∷ text "Origin-Host"
        ∷ text "Origin-Realm"
        ∷ text "Accounting-Record-Type"
        ∷ text "Accounting-Record-Number"
        ∷ text "Acct-Application-Id"
        ∷ text "Vendor-Specific-Application-Id"
        ∷ text "User-Name"
        ∷ text "Accounting-Sub-Session-Id"
        ∷ text "Acct-Session-Id"
        ∷ text "Acct-Multi-Session-Id"
        ∷ text "Error-Message"
        ∷ text "Error-Reporting-Host"
        ∷ text "Failed-AVP"
        ∷ text "Acct-Interim-Interval"
        ∷ text "Accounting-Realtime-Required"
        ∷ text "Origin-State-Id"
        ∷ text "Event-Timestamp"
        ∷ text "Proxy-Info"
        ∷ [])

abbrev capabilities_exchange_request : CommandJson
capabilities_exchange_request =
    new_command_json (text "Capabilities-Exchange-Request") (text "CER")
      (command_code_as_u32 capabilities_exchange) 0 true true false
      (text "Origin-Host"
        ∷ text "Origin-Realm"
        ∷ text "Host-IP-Address"
        ∷ text "Vendor-Id"
        ∷ text "Product-Name"
        ∷ text "Origin-State-Id"
        ∷ text "Supported-Vendor-Id"
        ∷ text "Auth-Application-Id"
        ∷ text "Inband-Security-Id"
        ∷ text "Acct-Application-Id"
        ∷ text "Vendor-Specific-Application-Id"
        ∷ text "Firmware-Revision"
        ∷ [])

abbrev capabilities_exchange_answer : CommandJson
capabilities_exchange_answer =
    new_command_json (text "Capabilities-Exchange-Answer") (text "CEA")
      (command_code_as_u32 capabilities_exchange) 0 false true false
      (text "Result-Code"
        ∷ text "Origin-Host"
        ∷ text "Origin-Realm"
        ∷ text "Host-IP-Address"
        ∷ text "Vendor-Id"
        ∷ text "Product-Name"
        ∷ text "Origin-State-Id"
        ∷ text "Error-Message"
        ∷ text "Failed-AVP"
        ∷ text "Supported-Vendor-Id"
        ∷ text "Auth-Application-Id"
        ∷ text "Inband-Security-Id"
        ∷ text "Acct-Application-Id"
        ∷ text "Vendor-Specific-Application-Id"
        ∷ text "Firmware-Revision"
        ∷ [])

abbrev device_watchdog_request : CommandJson
device_watchdog_request =
    new_command_json (text "Device-Watchdog-Request") (text "DWR")
      (command_code_as_u32 device_watchdog) 0 true true false
      (text "Origin-Host" ∷ text "Origin-Realm" ∷ text "Origin-State-Id" ∷ [])

abbrev device_watchdog_answer : CommandJson
device_watchdog_answer =
    new_command_json (text "Device-Watchdog-Answer") (text "DWA")
      (command_code_as_u32 device_watchdog) 0 false true false
      (text "Result-Code"
        ∷ text "Origin-Host"
        ∷ text "Origin-Realm"
        ∷ text "Error-Message"
        ∷ text "Failed-AVP"
        ∷ text "Origin-State-Id"
        ∷ [])

abbrev disconnect_peer_request : CommandJson
disconnect_peer_request =
    new_command_json (text "Disconnect-Peer-Request") (text "DPR")
      (command_code_as_u32 disconnect_peer) 0 true true false
      (text "Origin-Host" ∷ text "Origin-Realm" ∷ text "Disconnect-Cause" ∷ [])

abbrev disconnect_peer_answer : CommandJson
disconnect_peer_answer =
    new_command_json (text "Disconnect-Peer-Answer") (text "DPA")
      (command_code_as_u32 disconnect_peer) 0 false true false
      (text "Result-Code"
        ∷ text "Origin-Host"
        ∷ text "Origin-Realm"
        ∷ text "Error-Message"
        ∷ text "Failed-AVP"
        ∷ [])

abbrev re_auth_request : CommandJson
re_auth_request =
    new_command_json (text "Re-Auth-Request") (text "RAR") (command_code_as_u32 re_auth) 0 true true
      false
      (text "Session-Id"
        ∷ text "Origin-Host"
        ∷ text "Origin-Realm"
        ∷ text "Destination-Realm"
        ∷ text "Destination-Host"
        ∷ text "Auth-Application-Id"
        ∷ text "Re-Auth-Request-Type"
        ∷ text "User-Name"
        ∷ text "Origin-State-Id"
        ∷ text "Proxy-Info"
        ∷ text "Route-Record"
        ∷ [])

abbrev re_auth_answer : CommandJson
re_auth_answer =
    new_command_json (text "Re-Auth-Answer") (text "RAA") (command_code_as_u32 re_auth) 0 false true
      false
      (text "Session-Id"
        ∷ text "Result-Code"
        ∷ text "Origin-Host"
        ∷ text "Origin-Realm"
        ∷ text "User-Name"
        ∷ text "Origin-State-Id"
        ∷ text "Error-Message"
        ∷ text "Error-Reporting-Host"
        ∷ text "Failed-AVP"
        ∷ text "Redirect-Host"
        ∷ text "Redirect-Host-Usage"
        ∷ text "Redirect-Max-Cache-Time"
        ∷ text "Proxy-Info"
        ∷ [])

abbrev session_termination_request : CommandJson
session_termination_request =
    new_command_json (text "Session-Termination-Request") (text "STR")
      (command_code_as_u32 session_termination) 0 true true false
      (text "Session-Id"
        ∷ text "Origin-Host"
        ∷ text "Origin-Realm"
        ∷ text "Destination-Realm"
        ∷ text "Auth-Application-Id"
        ∷ text "Termination-Cause"
        ∷ text "User-Name"
        ∷ text "Destination-Host"
        ∷ text "Class"
        ∷ text "Origin-State-Id"
        ∷ text "Proxy-Info"
        ∷ text "Route-Record"
        ∷ [])

abbrev session_termination_answer : CommandJson
session_termination_answer =
    new_command_json (text "Session-Termination-Answer") (text "STA")
      (command_code_as_u32 session_termination) 0 false true false
      (text "Session-Id"
        ∷ text "Result-Code"
        ∷ text "Origin-Host"
        ∷ text "Origin-Realm"
        ∷ text "User-Name"
        ∷ text "Class"
        ∷ text "Error-Message"
        ∷ text "Error-Reporting-Host"
        ∷ text "Failed-AVP"
        ∷ text "Origin-State-Id"
        ∷ text "Redirect-Host"
        ∷ text "Redirect-Host-Usage"
        ∷ text "Redirect-Max-Cache-Time"
        ∷ text "Proxy-Info"
        ∷ [])

-- `STANDARD_COMMANDS`.
unfoldable pub standard_commands : List CommandJson
standard_commands =
    abort_session_request ∷ abort_session_answer ∷ accounting_request ∷ accounting_answer
    ∷ capabilities_exchange_request ∷ capabilities_exchange_answer ∷ device_watchdog_request
    ∷ device_watchdog_answer ∷ disconnect_peer_request ∷ disconnect_peer_answer ∷ re_auth_request
    ∷ re_auth_answer ∷ session_termination_request ∷ session_termination_answer ∷ []

-- `CommandMap::new`: the standard definitions, and then those given.
unfoldable pub new_command_map : List CommandJson → CommandMap
new_command_map ds = add_commands ds (add_commands standard_commands empty_command_map)
