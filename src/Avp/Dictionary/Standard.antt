-- ===== src/Avp/Dictionary/Standard.antt =====
-- `STANDARD_AVP_JSON` of src/avp.rs, and what a map built over it gives.
use rest_diameter_bridge.Avp.Codes.{
  avp_code_as_u32, accounting_realtime_required, accounting_record_number, accounting_record_type,
  accounting_sub_session_id, acct_application_id, acct_interim_interval, acct_multi_session_id,
  acct_session_id, auth_application_id, auth_grace_period, auth_request_type, auth_session_state,
  authorization_lifetime, class, destination_host, destination_realm, disconnect_cause,
  error_message, error_reporting_host, event_timestamp, experimental_result,
  experimental_result_code, failed_avp, firmware_revision, host_ip_address, inband_security_id,
  multi_round_time_out, origin_host, origin_realm, origin_state_id, product_name, proxy_host,
  proxy_info, proxy_state, re_auth_request_type, redirect_host, redirect_host_usage,
  redirect_max_cache_time, result_code, route_record, session_binding, session_id,
  session_server_failover, session_timeout, supported_vendor_id, termination_cause, user_name,
  vendor_id, vendor_specific_application_id,
}
use rest_diameter_bridge.Avp.Dictionary.{
  AvpJson, AvpMap, new_avp_json, empty_avp_map, add_all, address, enumerated, octet_string, time,
  utf8_string, diameter_identity, unsigned32, unsigned64, grouped, add_json, get_by_code,
  get_by_name, last_with, add_all_lem, or_else,
}
use rest_diameter_bridge.Base.{
  true, false, none, List, [], ◌∷◌, All, ◌≡◌, some, ◌==◌, get_elem?, ℕ, ap, ◌∙◌, All-get,
}
use rest_diameter_bridge.Base.Text.{text, text_eq}

unfoldable pub standard_avp_json : List AvpJson
standard_avp_json =
    new_avp_json (text "Acct-Interim-Interval") (avp_code_as_u32 acct_interim_interval) unsigned32
      true none
    ∷ new_avp_json (text "Accounting-Realtime-Required")
        (avp_code_as_u32 accounting_realtime_required) enumerated true none
    ∷ new_avp_json (text "Acct-Multi-Session-Id") (avp_code_as_u32 acct_multi_session_id)
        utf8_string true none
    ∷ new_avp_json (text "Accounting-Record-Number") (avp_code_as_u32 accounting_record_number)
        unsigned32 true none
    ∷ new_avp_json (text "Accounting-Record-Type") (avp_code_as_u32 accounting_record_type)
        enumerated true none
    ∷ new_avp_json (text "Acct-Session-Id") (avp_code_as_u32 acct_session_id) utf8_string true none
    ∷ new_avp_json (text "Accounting-Sub-Session-Id") (avp_code_as_u32 accounting_sub_session_id)
        unsigned64 true none
    ∷ new_avp_json (text "Acct-Application-Id") (avp_code_as_u32 acct_application_id) unsigned32
        true none
    ∷ new_avp_json (text "Auth-Application-Id") (avp_code_as_u32 auth_application_id) unsigned32
        true none
    ∷ new_avp_json (text "Auth-Request-Type") (avp_code_as_u32 auth_request_type) enumerated true
        none
    ∷ new_avp_json (text "Authorization-Lifetime") (avp_code_as_u32 authorization_lifetime)
        unsigned32 true none
    ∷ new_avp_json (text "Auth-Grace-Period") (avp_code_as_u32 auth_grace_period) unsigned32 true
        none
    ∷ new_avp_json (text "Auth-Session-State") (avp_code_as_u32 auth_session_state) enumerated true
        none
    ∷ new_avp_json (text "Re-Auth-Request-Type") (avp_code_as_u32 re_auth_request_type) enumerated
        true none
    ∷ new_avp_json (text "Class") (avp_code_as_u32 class) octet_string false none
    ∷ new_avp_json (text "Destination-Host") (avp_code_as_u32 destination_host) diameter_identity
        true none
    ∷ new_avp_json (text "Destination-Realm") (avp_code_as_u32 destination_realm) diameter_identity
        true none
    ∷ new_avp_json (text "Disconnect-Cause") (avp_code_as_u32 disconnect_cause) enumerated true none
    ∷ new_avp_json (text "Error-Message") (avp_code_as_u32 error_message) utf8_string false none
    ∷ new_avp_json (text "Error-Reporting-Host") (avp_code_as_u32 error_reporting_host)
        diameter_identity false none
    ∷ new_avp_json (text "Event-Timestamp") (avp_code_as_u32 event_timestamp) time true none
    ∷ new_avp_json (text "Experimental-Result") (avp_code_as_u32 experimental_result) grouped true
        none
    ∷ new_avp_json (text "Experimental-Result-Code") (avp_code_as_u32 experimental_result_code)
        unsigned32 true none
    ∷ new_avp_json (text "Failed-AVP") (avp_code_as_u32 failed_avp) grouped true none
    ∷ new_avp_json (text "Firmware-Revision") (avp_code_as_u32 firmware_revision) unsigned32 false
        none
    ∷ new_avp_json (text "Host-IP-Address") (avp_code_as_u32 host_ip_address) address true none
    ∷ new_avp_json (text "Inband-Security-Id") (avp_code_as_u32 inband_security_id) unsigned32 true
        none
    ∷ new_avp_json (text "Multi-Round-Time-Out") (avp_code_as_u32 multi_round_time_out) unsigned32
        true none
    ∷ new_avp_json (text "Origin-Host") (avp_code_as_u32 origin_host) diameter_identity true none
    ∷ new_avp_json (text "Origin-Realm") (avp_code_as_u32 origin_realm) diameter_identity true none
    ∷ new_avp_json (text "Origin-State-Id") (avp_code_as_u32 origin_state_id) unsigned32 true none
    ∷ new_avp_json (text "Product-Name") (avp_code_as_u32 product_name) utf8_string false none
    ∷ new_avp_json (text "Proxy-Host") (avp_code_as_u32 proxy_host) diameter_identity true none
    ∷ new_avp_json (text "Proxy-Info") (avp_code_as_u32 proxy_info) grouped true none
    ∷ new_avp_json (text "Proxy-State") (avp_code_as_u32 proxy_state) octet_string true none
    ∷ new_avp_json (text "Redirect-Host") (avp_code_as_u32 redirect_host) diameter_identity true
        none
    ∷ new_avp_json (text "Redirect-Host-Usage") (avp_code_as_u32 redirect_host_usage) enumerated
        true none
    ∷ new_avp_json (text "Redirect-Max-Cache-Time") (avp_code_as_u32 redirect_max_cache_time)
        unsigned32 true none
    ∷ new_avp_json (text "Result-Code") (avp_code_as_u32 result_code) unsigned32 true none
    ∷ new_avp_json (text "Route-Record") (avp_code_as_u32 route_record) diameter_identity true none
    ∷ new_avp_json (text "Session-Id") (avp_code_as_u32 session_id) utf8_string true none
    ∷ new_avp_json (text "Session-Timeout") (avp_code_as_u32 session_timeout) unsigned32 true none
    ∷ new_avp_json (text "Session-Binding") (avp_code_as_u32 session_binding) unsigned32 true none
    ∷ new_avp_json (text "Session-Server-Failover") (avp_code_as_u32 session_server_failover)
        enumerated true none
    ∷ new_avp_json (text "Supported-Vendor-Id") (avp_code_as_u32 supported_vendor_id) unsigned32
        true none
    ∷ new_avp_json (text "Termination-Cause") (avp_code_as_u32 termination_cause) enumerated true
        none
    ∷ new_avp_json (text "User-Name") (avp_code_as_u32 user_name) utf8_string true none
    ∷ new_avp_json (text "Vendor-Id") (avp_code_as_u32 vendor_id) unsigned32 true none
    ∷ new_avp_json (text "Vendor-Specific-Application-Id")
        (avp_code_as_u32 vendor_specific_application_id) grouped true none
    ∷ []

-- `AvpMap::new`: the standard descriptors, and then those given.
unfoldable pub new_avp_map : List AvpJson → AvpMap
new_avp_map avps = add_all avps (add_all standard_avp_json empty_avp_map)

abbrev Found : AvpMap → AvpJson → Type 0
Found m a = (get_by_code a.code m ≡ some a) × (get_by_name a.name m ≡ some a)

-- No two standard descriptors share a code or a name.
standard-Found : All (Found (add_all standard_avp_json empty_avp_map)) standard_avp_json
unfolding standard_avp_json add_all add_json get_by_code get_by_name text_eq
standard-Found = search

-- AvpMap::new gives a standard descriptor for its code if no descriptor that it was given has
-- that code or that name, and for its name too.
pub standard-new_avp_map :
    (avps : List AvpJson) (i : ℕ) (a : AvpJson)
    → get_elem? standard_avp_json i ≡ some a
    → last_with (λ b. a.code == b.code) avps ≡ none
    → last_with (λ b. text_eq a.name b.name) avps ≡ none
    → (get_by_code a.code (new_avp_map avps) ≡ some a)
      × (get_by_name a.name (new_avp_map avps) ≡ some a)
unfolding new_avp_map
standard-new_avp_map avps i a e c n =
    let found =
      All-get (Found (add_all standard_avp_json empty_avp_map)) standard_avp_json i a standard-Found
        e in
    let added = add_all_lem avps (add_all standard_avp_json empty_avp_map) a.code a.name in
    (
      added.0
          ∙ ap (λ o. or_else o (get_by_code a.code (add_all standard_avp_json empty_avp_map))) c
          ∙ found.0,
      added.1
          ∙ ap (λ o. or_else o (get_by_name a.name (add_all standard_avp_json empty_avp_map))) n
          ∙ found.1,
    )
