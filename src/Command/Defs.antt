-- ===== src/Command/Defs.antt =====
-- `Command` of src/command.rs: its fields, its flags and the AVPs that it is asked for by code.
use rest_diameter_bridge.Base.Text.{Text, text_eq}
use rest_diameter_bridge.Avp.Codes.{RedirectHostUsage, mandatory_flag, redirect_host_usage_from_u32}
use rest_diameter_bridge.Base.{
  ◌==◌, if◌then◌else◌, ℕ, Bool, false, not, ◌&&◌, ◌||◌, Option, none, some, List, [], ◌∷◌, ◌++◌,
}
use Prim.Native.Nat.{bit_and}
use rest_diameter_bridge.Avp.Defs.{
  Avp, code, and_then, set_unsigned32, as_unsigned32, as_utf8_string, from_unsigned32,
  from_utf8_string, set_utf8_string,
}

pub record Command : Type 0 where
  pub command_code : ℕ
  pub command_flags : ℕ
  pub application_id : ℕ
  pub hop_by_hop_id : ℕ
  pub end_to_end_id : ℕ
  pub avps : List Avp

unfoldable pub is_request : Command → Bool
is_request c = not (bit_and c.command_flags 0x80 == 0)

unfoldable pub is_answer : Command → Bool
unfolding is_request
is_answer c = not (is_request c)

unfoldable pub is_proxiable : Command → Bool
is_proxiable c = not (bit_and c.command_flags 0x40 == 0)

unfoldable pub is_error : Command → Bool
is_error c = not (bit_and c.command_flags 0x20 == 0)

unfoldable pub is_retransmission : Command → Bool
is_retransmission c = not (bit_and c.command_flags 0x10 == 0)

unfoldable pub add_avp : Command → Avp → Command
add_avp c a = record c { avps = c.avps ++ (a ∷ []) }

unfoldable pub add_avps : Command → List Avp → Command
add_avps c more = record c { avps = c.avps ++ more }

-- `avps.iter().find(|avp| avp.code == n)`.
unfoldable pub find_avp : ℕ → List Avp → Option Avp
find_avp n [] = none
find_avp n (a ∷ rest) = if code a == n then some a else find_avp n rest

unfoldable pub get_avp : Command → ℕ → Option Avp
get_avp c n = find_avp n c.avps

unfoldable pub filter_avps : ℕ → List Avp → List Avp
filter_avps n [] = []
filter_avps n (a ∷ rest) =
    let found = filter_avps n rest in if code a == n then a ∷ found else found

unfoldable pub get_avps : Command → ℕ → List Avp
get_avps c n = filter_avps n c.avps

-- `if let Some(avp) = avps.iter_mut().find(..) { update } else { push }`.
unfoldable pub upsert : ℕ → (Avp → Avp) → Avp → List Avp → List Avp
upsert n update fresh [] = fresh ∷ []
upsert n update fresh (a ∷ rest) =
    if code a == n then update a ∷ rest else a ∷ upsert n update fresh rest

abbrev pub get_text : ℕ → Command → Option Text
get_text n c = and_then (get_avp c n) as_utf8_string

abbrev pub set_text : ℕ → Command → Text → Command
set_text n c value = record c {
  avps =
      upsert n (λ a. set_utf8_string a value) (from_utf8_string n mandatory_flag none value) c.avps;
}

unfoldable pub get_result_code : Command → Option ℕ
get_result_code c = and_then (get_avp c 268) as_unsigned32

unfoldable pub set_result_code : Command → ℕ → Command
set_result_code c n = record c {
  avps = upsert 268 (λ a. set_unsigned32 a n) (from_unsigned32 268 mandatory_flag none n) c.avps;
}

unfoldable pub get_error_message : Command → Option Text
get_error_message c = get_text 281 c

unfoldable pub get_origin_host : Command → Option Text
get_origin_host c = get_text 264 c

unfoldable pub set_origin_host : Command → Text → Command
set_origin_host c host = set_text 264 c host

unfoldable pub get_origin_realm : Command → Option Text
get_origin_realm c = get_text 296 c

unfoldable pub set_origin_realm : Command → Text → Command
set_origin_realm c realm = set_text 296 c realm

unfoldable pub get_destination_host : Command → Option Text
get_destination_host c = get_text 293 c

unfoldable pub set_destination_host : Command → Text → Command
set_destination_host c host = set_text 293 c host

unfoldable pub get_destination_realm : Command → Option Text
get_destination_realm c = get_text 283 c

unfoldable pub set_destination_realm : Command → Text → Command
set_destination_realm c realm = set_text 283 c realm

abbrev pub set_if : (Command → Text → Command) → Command → Option Text → Command
set_if set c none = c
set_if set c (some value) = set c value

-- `create_response`: the request bit is cleared, and the destination becomes the origin.
unfoldable pub create_response : Command → Command
create_response r =
    let empty : Command = record r { command_flags = bit_and r.command_flags 0x7f; avps = [] } in
    set_if set_origin_realm (set_if set_origin_host empty (get_destination_host r))
      (get_destination_realm r)

-- Route-Record, code 282.
unfoldable pub add_record_route : Command → Text → Command
add_record_route c host = record c {
  avps = c.avps ++ (from_utf8_string 282 mandatory_flag none host ∷ []);
}

abbrev says : Text → Option Text → Bool
says host none = false
says host (some s) = text_eq s host

-- `avp.code == RouteRecord && avp.as_utf8_string().map_or(false, |s| s == host)`.
unfoldable pub is_record_route : Text → Avp → Bool
is_record_route host a = code a == 282 && says host (as_utf8_string a)

unfoldable pub retain_others : Text → List Avp → List Avp
unfolding is_record_route
retain_others host [] = []
retain_others host (a ∷ rest) =
    let kept = retain_others host rest in if is_record_route host a then kept else a ∷ kept

unfoldable pub remove_record_route : Command → Text → Command
remove_record_route c host = record c { avps = retain_others host c.avps }

unfoldable pub any_record_route : Text → List Avp → Bool
unfolding is_record_route
any_record_route host [] = false
any_record_route host (a ∷ rest) = is_record_route host a || any_record_route host rest

unfoldable pub has_record_route : Command → Text → Bool
has_record_route c host = any_record_route host c.avps

unfoldable pub texts_of : List Avp → List Text
texts_of [] = []
texts_of (a ∷ rest) = elim (as_utf8_string a) [ none ↦ texts_of rest | some s ↦ s ∷ texts_of rest ]

-- `get_redirect_hosts` is `Some` also where there are none.
unfoldable pub get_redirect_hosts : Command → Option (List Text)
unfolding texts_of
get_redirect_hosts c = some (texts_of (get_avps c 292))

unfoldable pub get_redirect_host_usage : Command → Option RedirectHostUsage
get_redirect_host_usage c =
    and_then (and_then (get_avp c 261) as_unsigned32) redirect_host_usage_from_u32
