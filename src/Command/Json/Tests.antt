-- ===== src/Command/Json/Tests.antt =====
-- The round trip of a command at a concrete answer.
use rest_diameter_bridge.Command.Dictionary.Laws.{command_by_code-new}
use mathlib.Core.Path.{subst}
use rest_diameter_bridge.Base.Text.{text, Text, text_eq}
use rest_diameter_bridge.Avp.Dictionary.{get_by_code, add_all, add_json, AvpJson}
use rest_diameter_bridge.Command.Json.{to_json, from_json_value, from_json}
use rest_diameter_bridge.Command.Json.RoundTrip.{from_json_value-to_json, ReservesKeys}
use rest_diameter_bridge.Command.Json.Laws.{IsFree}
use rest_diameter_bridge.Command.Dictionary.{
  CommandJson, command_by_code, first_with, new_command_json, command_code_as_u32,
}
use rest_diameter_bridge.Command.Dictionary.Standard.{new_command_map, standard_commands}
use rest_diameter_bridge.Command.Defs.{Command, is_request}
use rest_diameter_bridge.Avp.Json.{converted}
use rest_diameter_bridge.Avp.Json.Plain.{plain_codecs, small_map, info, host, tries}
use rest_diameter_bridge.Avp.Defs.{avp, nil}
use rest_diameter_bridge.Base.Json.{Entries, object}
use rest_diameter_bridge.Base.{
  none, some, [], ◌∷◌, true, false, ◌≡◌, refl, ◌==◌, if◌then◌else◌, Bool, arith,
}
use mathlib.Core.Option.{some-injective}

-- The answer to a watchdog request.
abbrev answer : Command
answer = record {
  command_code = 280;
  command_flags = 0;
  application_id = 0;
  hop_by_hop_id = 9;
  end_to_end_id = 10;
  avps = avp 280 0x40 none (some (text "ab")) nil ∷ [];
}

one_of_three :
    (x y z d : AvpJson) (key : Text) (p q r : Bool)
    → text_eq x.name key ≡ false
    → text_eq y.name key ≡ false
    → text_eq z.name key ≡ false
    → (if p then some x else (if q then some y else (if r then some z else none))) ≡ some d
    → text_eq d.name key ≡ false
one_of_three x y z d key true q r hx hy hz e =
    subst (λ a. text_eq a.name key ≡ false) (some-injective x d e) hx
one_of_three x y z d key false true r hx hy hz e =
    subst (λ a. text_eq a.name key ≡ false) (some-injective y d e) hy
one_of_three x y z d key false false true hx hy hz e =
    subst (λ a. text_eq a.name key ≡ false) (some-injective z d e) hz
one_of_three x y z d key false false false hx hy hz e = absurd (cc e)

-- Each name of the small dictionary differs from the key.
small_map-IsFree :
    (key : Text)
    → text_eq info.name key ≡ false
    → text_eq host.name key ≡ false
    → text_eq tries.name key ≡ false
    → IsFree key small_map
unfolding get_by_code add_all add_json
small_map-IsFree key i h t c d e =
    one_of_three tries host info d key (c == 33) (c == 280) (c == 284) t h i e

small_map-ReservesKeys : ReservesKeys small_map
unfolding text_eq
small_map-ReservesKeys = (
  small_map-IsFree (text "code") refl refl refl,
  small_map-IsFree (text "request") refl refl refl,
  small_map-IsFree (text "application_id") refl refl refl,
  small_map-IsFree (text "hop_by_hop_id") refl refl refl,
  small_map-IsFree (text "end_to_end_id") refl refl refl,
)

abbrev watchdog : CommandJson
watchdog =
    new_command_json (text "Device-Watchdog-Request") (text "DWR") 280 0 true true false
      (text "Origin-Host" ∷ text "Origin-Realm" ∷ text "Origin-State-Id" ∷ [])

watchdog_found : command_by_code 280 true (new_command_map []) ≡ some watchdog
unfolding first_with standard_commands command_code_as_u32
watchdog_found = command_by_code-new 280 true []

-- The answer is read as a request.
from_json_value-to_json_example :
    (es : Entries) × (b : Command) × (to_json plain_codecs (new_command_map []) small_map answer
      ≡ converted (object es))
    × (from_json_value plain_codecs (new_command_map []) small_map (object es) ≡ from_json b)
    × (b.command_code ≡ 280)
    × (b.application_id ≡ 0)
    × (b.hop_by_hop_id ≡ 9)
    × (b.end_to_end_id ≡ 10)
    × (is_request b ≡ true)
from_json_value-to_json_example =
    from_json_value-to_json plain_codecs [] small_map answer watchdog
      (omega arith, omega arith, omega arith, omega arith) (tt, tt) small_map-ReservesKeys
      watchdog_found
