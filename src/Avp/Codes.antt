-- ===== src/Avp/Codes.antt =====
-- The numeric tables of src/avp.rs: AVP codes, redirect usages and result codes.
use rest_diameter_bridge.Base.{ℕ, ◌≡◌, Option, none, some, arith, ◌==◌, if◌then◌else◌}

-- `AvpFlags`: the bits of the flags octet.
abbrev pub vendor_specific_flag : ℕ
vendor_specific_flag = 0x80

abbrev pub mandatory_flag : ℕ
mandatory_flag = 0x40

pub data AvpCode : Type 0 where
  acct_interim_interval : AvpCode
  accounting_realtime_required : AvpCode
  acct_multi_session_id : AvpCode
  accounting_record_number : AvpCode
  accounting_record_type : AvpCode
  acct_session_id : AvpCode
  accounting_sub_session_id : AvpCode
  acct_application_id : AvpCode
  auth_application_id : AvpCode
  auth_request_type : AvpCode
  authorization_lifetime : AvpCode
  auth_grace_period : AvpCode
  auth_session_state : AvpCode
  re_auth_request_type : AvpCode
  class : AvpCode
  destination_host : AvpCode
  destination_realm : AvpCode
  disconnect_cause : AvpCode
  error_message : AvpCode
  error_reporting_host : AvpCode
  event_timestamp : AvpCode
  experimental_result : AvpCode
  experimental_result_code : AvpCode
  failed_avp : AvpCode
  firmware_revision : AvpCode
  host_ip_address : AvpCode
  inband_security_id : AvpCode
  multi_round_time_out : AvpCode
  origin_host : AvpCode
  origin_realm : AvpCode
  origin_state_id : AvpCode
  product_name : AvpCode
  proxy_host : AvpCode
  proxy_info : AvpCode
  proxy_state : AvpCode
  redirect_host : AvpCode
  redirect_host_usage : AvpCode
  redirect_max_cache_time : AvpCode
  result_code : AvpCode
  route_record : AvpCode
  session_id : AvpCode
  session_timeout : AvpCode
  session_binding : AvpCode
  session_server_failover : AvpCode
  supported_vendor_id : AvpCode
  termination_cause : AvpCode
  user_name : AvpCode
  vendor_id : AvpCode
  vendor_specific_application_id : AvpCode

-- `AvpCode::as_u32`, and the cast `as u32`.
abbrev pub avp_code_as_u32 : AvpCode → ℕ
avp_code_as_u32 acct_interim_interval = 85
avp_code_as_u32 accounting_realtime_required = 483
avp_code_as_u32 acct_multi_session_id = 50
avp_code_as_u32 accounting_record_number = 485
avp_code_as_u32 accounting_record_type = 480
avp_code_as_u32 acct_session_id = 44
avp_code_as_u32 accounting_sub_session_id = 287
avp_code_as_u32 acct_application_id = 259
avp_code_as_u32 auth_application_id = 258
avp_code_as_u32 auth_request_type = 274
avp_code_as_u32 authorization_lifetime = 291
avp_code_as_u32 auth_grace_period = 276
avp_code_as_u32 auth_session_state = 277
avp_code_as_u32 re_auth_request_type = 285
avp_code_as_u32 class = 25
avp_code_as_u32 destination_host = 293
avp_code_as_u32 destination_realm = 283
avp_code_as_u32 disconnect_cause = 273
avp_code_as_u32 error_message = 281
avp_code_as_u32 error_reporting_host = 294
avp_code_as_u32 event_timestamp = 55
avp_code_as_u32 experimental_result = 297
avp_code_as_u32 experimental_result_code = 298
avp_code_as_u32 failed_avp = 279
avp_code_as_u32 firmware_revision = 267
avp_code_as_u32 host_ip_address = 257
avp_code_as_u32 inband_security_id = 299
avp_code_as_u32 multi_round_time_out = 272
avp_code_as_u32 origin_host = 264
avp_code_as_u32 origin_realm = 296
avp_code_as_u32 origin_state_id = 278
avp_code_as_u32 product_name = 269
avp_code_as_u32 proxy_host = 280
avp_code_as_u32 proxy_info = 284
avp_code_as_u32 proxy_state = 33
avp_code_as_u32 redirect_host = 292
avp_code_as_u32 redirect_host_usage = 261
avp_code_as_u32 redirect_max_cache_time = 262
avp_code_as_u32 result_code = 268
avp_code_as_u32 route_record = 282
avp_code_as_u32 session_id = 263
avp_code_as_u32 session_timeout = 27
avp_code_as_u32 session_binding = 270
avp_code_as_u32 session_server_failover = 271
avp_code_as_u32 supported_vendor_id = 265
avp_code_as_u32 termination_cause = 295
avp_code_as_u32 user_name = 1
avp_code_as_u32 vendor_id = 266
avp_code_as_u32 vendor_specific_application_id = 260

pub data RedirectHostUsage : Type 0 where
  dont_cache all_session all_realm realm_and_application all_application all_host all_user :
      RedirectHostUsage

abbrev pub redirect_host_usage_as_u32 : RedirectHostUsage → ℕ
redirect_host_usage_as_u32 dont_cache = 0
redirect_host_usage_as_u32 all_session = 1
redirect_host_usage_as_u32 all_realm = 2
redirect_host_usage_as_u32 realm_and_application = 3
redirect_host_usage_as_u32 all_application = 4
redirect_host_usage_as_u32 all_host = 5
redirect_host_usage_as_u32 all_user = 6

-- `RedirectHostUsage::from_u32`.
unfoldable pub redirect_host_usage_from_u32 : ℕ → Option RedirectHostUsage
redirect_host_usage_from_u32 value =
    if value == 0
    then some dont_cache
    else if value == 1
    then some all_session
    else if value == 2
    then some all_realm
    else if value == 3
    then some realm_and_application
    else if value == 4
    then some all_application
    else if value == 5
    then some all_host
    else if value == 6
    then some all_user
    else none

-- A value that is read as a usage is the number of that usage.
pub redirect_host_usage_from_u32_lem :
    (value : ℕ) (u : RedirectHostUsage)
    → redirect_host_usage_from_u32 value ≡ some u
    → value ≡ redirect_host_usage_as_u32 u
unfolding redirect_host_usage_from_u32
redirect_host_usage_from_u32_lem value dont_cache h = ground arith
redirect_host_usage_from_u32_lem value all_session h = ground arith
redirect_host_usage_from_u32_lem value all_realm h = ground arith
redirect_host_usage_from_u32_lem value realm_and_application h = ground arith
redirect_host_usage_from_u32_lem value all_application h = ground arith
redirect_host_usage_from_u32_lem value all_host h = ground arith
redirect_host_usage_from_u32_lem value all_user h = ground arith
