-- ===== src/Avp/ResultCodes.antt =====
-- `ResultCode` of src/avp.rs and its classes.
use rest_diameter_bridge.Base.{ℕ, ◌+◌, ◌≡◌, refl, Bool, ◌&&◌, ltb, leb, if◌then◌else◌}

pub data ResultCode : Type 0 where
  diameter_multi_round_auth : ResultCode
  diameter_success : ResultCode
  diameter_limited_success : ResultCode
  diameter_command_unsupported : ResultCode
  diameter_unable_to_deliver : ResultCode
  diameter_realm_not_served : ResultCode
  diameter_too_busy : ResultCode
  diameter_loop_detected : ResultCode
  diameter_redirect_indication : ResultCode
  diameter_application_unsupported : ResultCode
  diameter_invalid_hdr_bits : ResultCode
  diameter_invalid_avp_bits : ResultCode
  diameter_unknown_peer : ResultCode
  diameter_authentication_rejected : ResultCode
  diameter_out_of_space : ResultCode
  election_lost : ResultCode
  diameter_avp_unsupported : ResultCode
  diameter_unknown_session_id : ResultCode
  diameter_authorization_rejected : ResultCode
  diameter_invalid_avp_value : ResultCode
  diameter_missing_avp : ResultCode
  diameter_resources_exceeded : ResultCode
  diameter_contradicting_avps : ResultCode
  diameter_avp_not_allowed : ResultCode
  diameter_avp_occurs_too_many_times : ResultCode
  diameter_no_common_application : ResultCode
  diameter_unsupported_version : ResultCode
  diameter_unable_to_comply : ResultCode
  diameter_invalid_bit_in_header : ResultCode
  diameter_invalid_avp_length : ResultCode
  diameter_invalid_message_length : ResultCode
  diameter_invalid_avp_bit_combo : ResultCode
  diameter_no_common_security : ResultCode

-- `ResultCode::as_u32`, and the cast `as u32`.
abbrev pub result_code_as_u32 : ResultCode → ℕ
result_code_as_u32 diameter_multi_round_auth = 1001
result_code_as_u32 diameter_success = 2001
result_code_as_u32 diameter_limited_success = 2002
result_code_as_u32 diameter_command_unsupported = 3001
result_code_as_u32 diameter_unable_to_deliver = 3002
result_code_as_u32 diameter_realm_not_served = 3003
result_code_as_u32 diameter_too_busy = 3004
result_code_as_u32 diameter_loop_detected = 3005
result_code_as_u32 diameter_redirect_indication = 3006
result_code_as_u32 diameter_application_unsupported = 3007
result_code_as_u32 diameter_invalid_hdr_bits = 3008
result_code_as_u32 diameter_invalid_avp_bits = 3009
result_code_as_u32 diameter_unknown_peer = 3010
result_code_as_u32 diameter_authentication_rejected = 4001
result_code_as_u32 diameter_out_of_space = 4002
result_code_as_u32 election_lost = 4003
result_code_as_u32 diameter_avp_unsupported = 5001
result_code_as_u32 diameter_unknown_session_id = 5002
result_code_as_u32 diameter_authorization_rejected = 5003
result_code_as_u32 diameter_invalid_avp_value = 5004
result_code_as_u32 diameter_missing_avp = 5005
result_code_as_u32 diameter_resources_exceeded = 5006
result_code_as_u32 diameter_contradicting_avps = 5007
result_code_as_u32 diameter_avp_not_allowed = 5008
result_code_as_u32 diameter_avp_occurs_too_many_times = 5009
result_code_as_u32 diameter_no_common_application = 5010
result_code_as_u32 diameter_unsupported_version = 5011
result_code_as_u32 diameter_unable_to_comply = 5012
result_code_as_u32 diameter_invalid_bit_in_header = 5013
result_code_as_u32 diameter_invalid_avp_length = 5014
result_code_as_u32 diameter_invalid_message_length = 5015
result_code_as_u32 diameter_invalid_avp_bit_combo = 5016
result_code_as_u32 diameter_no_common_security = 5017

pub is_informational : ResultCode → Bool
is_informational r = let code = result_code_as_u32 r in leb 1000 code && ltb code 2000

pub is_success : ResultCode → Bool
is_success r = let code = result_code_as_u32 r in leb 2000 code && ltb code 3000

pub is_protocol_errors : ResultCode → Bool
is_protocol_errors r = let code = result_code_as_u32 r in leb 3000 code && ltb code 4000

pub is_transient_failure : ResultCode → Bool
is_transient_failure r = let code = result_code_as_u32 r in leb 4000 code && ltb code 5000

pub is_permanent_failure : ResultCode → Bool
is_permanent_failure r = let code = result_code_as_u32 r in leb 5000 code && ltb code 6000

abbrev count_true : Bool → ℕ
count_true b = if b then 1 else 0

-- How many of the five classes a code belongs to.
abbrev pub classes_of : ResultCode → ℕ
classes_of r =
    count_true (is_informational r)
    + count_true (is_success r)
    + count_true (is_protocol_errors r)
    + count_true (is_transient_failure r)
    + count_true (is_permanent_failure r)

-- Every result code of the table belongs to exactly one class.
pub classes_of-eq-one : (r : ResultCode) → classes_of r ≡ 1
unfolding is_informational is_success is_protocol_errors is_transient_failure is_permanent_failure
classes_of-eq-one diameter_multi_round_auth = refl
classes_of-eq-one diameter_success = refl
classes_of-eq-one diameter_limited_success = refl
classes_of-eq-one diameter_command_unsupported = refl
classes_of-eq-one diameter_unable_to_deliver = refl
classes_of-eq-one diameter_realm_not_served = refl
classes_of-eq-one diameter_too_busy = refl
classes_of-eq-one diameter_loop_detected = refl
classes_of-eq-one diameter_redirect_indication = refl
classes_of-eq-one diameter_application_unsupported = refl
classes_of-eq-one diameter_invalid_hdr_bits = refl
classes_of-eq-one diameter_invalid_avp_bits = refl
classes_of-eq-one diameter_unknown_peer = refl
classes_of-eq-one diameter_authentication_rejected = refl
classes_of-eq-one diameter_out_of_space = refl
classes_of-eq-one election_lost = refl
classes_of-eq-one diameter_avp_unsupported = refl
classes_of-eq-one diameter_unknown_session_id = refl
classes_of-eq-one diameter_authorization_rejected = refl
classes_of-eq-one diameter_invalid_avp_value = refl
classes_of-eq-one diameter_missing_avp = refl
classes_of-eq-one diameter_resources_exceeded = refl
classes_of-eq-one diameter_contradicting_avps = refl
classes_of-eq-one diameter_avp_not_allowed = refl
classes_of-eq-one diameter_avp_occurs_too_many_times = refl
classes_of-eq-one diameter_no_common_application = refl
classes_of-eq-one diameter_unsupported_version = refl
classes_of-eq-one diameter_unable_to_comply = refl
classes_of-eq-one diameter_invalid_bit_in_header = refl
classes_of-eq-one diameter_invalid_avp_length = refl
classes_of-eq-one diameter_invalid_message_length = refl
classes_of-eq-one diameter_invalid_avp_bit_combo = refl
classes_of-eq-one diameter_no_common_security = refl
