-- ===== src/Command/Dictionary.antt =====
-- The command dictionary of src/command.rs: `CommandJson` and `CommandMap`. The dictionaries that
-- YAML files add are lists of definitions.
pub mod Standard
pub mod Laws
pub mod Override
pub mod Sort
mod Tests
use rest_diameter_bridge.Avp.Defs.{and_then}
use Prim.Native.Nat.{bit_or}
use rest_diameter_bridge.Base.Text.{Text, lower, text_eq}
use rest_diameter_bridge.Base.Map.{Map, empty_map, insert, nat_key, text_key}
use rest_diameter_bridge.Base.{
  ℕ, Bool, true, false, Option, none, some, List, [], ◌∷◌, if◌then◌else◌, not, ◌++◌,
}

pub data CommandCode : Type 0 where
  capabilities_exchange re_auth session_termination abort_session accounting device_watchdog
        disconnect_peer :
      CommandCode

-- `CommandCode::... as u32`.
unfoldable pub command_code_as_u32 : CommandCode → ℕ
command_code_as_u32 capabilities_exchange = 257
command_code_as_u32 re_auth = 258
command_code_as_u32 session_termination = 275
command_code_as_u32 abort_session = 274
command_code_as_u32 accounting = 271
command_code_as_u32 device_watchdog = 280
command_code_as_u32 disconnect_peer = 282

pub record CommandJson : Type 0 where
  pub long_name : Text
  pub short_name : Text
  pub defined_code : ℕ
  pub defined_application : ℕ
  pub request_bit : Bool
  pub proxiable_bit : Bool
  pub error_bit : Bool
  pub avp_names : List Text

abbrev pub new_command_json : Text → Text → ℕ → ℕ → Bool → Bool → Bool → List Text → CommandJson
new_command_json long short code application request proxiable error avps = record {
  long_name = long;
  short_name = short;
  defined_code = code;
  defined_application = application;
  request_bit = request;
  proxiable_bit = proxiable;
  error_bit = error;
  avp_names = avps;
}

-- `CommandJson::flags`.
unfoldable pub defined_flags : CommandJson → ℕ
defined_flags d =
    bit_or (bit_or (if d.request_bit then 0x80 else 0) (if d.proxiable_bit then 0x40 else 0))
      (if d.error_bit then 0x20 else 0)

pub record CommandMap : Type 0 where
  pub code_to_command : Map ℕ (List CommandJson)
  pub name_to_command : Map Text CommandJson

abbrev pub empty_command_map : CommandMap
empty_command_map = record { code_to_command = empty_map; name_to_command = empty_map }

abbrev pub vec_or_empty : Option (List CommandJson) → List CommandJson
vec_or_empty none = []
vec_or_empty (some ds) = ds

-- The definition is pushed behind those of its code, and replaces those of its names, which are
-- lowered as ASCII text.
unfoldable pub add_command : CommandJson → CommandMap → CommandMap
add_command d m = record {
  code_to_command =
      insert d.defined_code (vec_or_empty (m.code_to_command d.defined_code) ++ (d ∷ []))
        m.code_to_command;
  name_to_command = insert (lower d.short_name) d (insert (lower d.long_name) d m.name_to_command);
}

-- `for cmd in commands { command_map.add_command(cmd) }`.
unfoldable pub add_commands : List CommandJson → CommandMap → CommandMap
add_commands [] m = m
add_commands (d ∷ ds) m = add_commands ds (add_command d m)

-- `==` of `bool`.
abbrev pub same_bool : Bool → Bool → Bool
same_bool true b = b
same_bool false b = not b

-- `iter().find(|cmd| test(cmd))`.
unfoldable pub first_with : (CommandJson → Bool) → List CommandJson → Option CommandJson
first_with p [] = none
first_with p (d ∷ ds) = let rest = first_with p ds in if p d then some d else rest

unfoldable pub command_by_code : ℕ → Bool → CommandMap → Option CommandJson
command_by_code code request m =
    and_then (m.code_to_command code) (first_with (λ d. same_bool d.request_bit request))

unfoldable pub command_by_name : Text → CommandMap → Option CommandJson
command_by_name name m = m.name_to_command (lower name)
