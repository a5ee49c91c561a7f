-- ===== src/Command/Json.antt =====
-- The conversions of src/command.rs between commands and JSON: `from_json_value`, with
-- `get_command_define`, and `to_json`.
pub mod Laws
pub mod Loop
pub mod Request
pub mod Shown
pub mod Header
pub mod RoundTrip
mod Tests
use rest_diameter_bridge.Base.Decimal.{to_decimal}
use rest_diameter_bridge.Base.Bytes.{u32}
use rest_diameter_bridge.Base.Text.{Text, text, text_eq}
use Prim.Native.Nat.{bit_or}
use rest_diameter_bridge.Command.Defs.{Command, is_request}
use rest_diameter_bridge.Command.Flags.{
  command_flags_from_str, CommandFlags, str_from_u8, command_flags_as_u8,
}
use rest_diameter_bridge.Command.Dictionary.{
  CommandJson, CommandMap, command_by_code, command_by_name, defined_flags,
}
use rest_diameter_bridge.Command.Dictionary.Sort.{sort_avps}
use rest_diameter_bridge.Avp.Json.{
  Codecs, Converted, converted, refused, panicked, out_of_fuel, avp_to_name_value, map_converted,
}
use rest_diameter_bridge.Avp.Json.Read.{name_value_to_avp}
use rest_diameter_bridge.Avp.Dictionary.{AvpMap}
use rest_diameter_bridge.Avp.Defs.{Avp, and_then, code, map_option}
use rest_diameter_bridge.Base.Int.{pos}
use rest_diameter_bridge.Base.Json.{
  Value, Entries, Items, no_entry, entry, no_item, item, null, boolean, number, string, array,
  object, integer, get, insert_entry, as_str, as_u64, as_bool,
}
use rest_diameter_bridge.Base.{
  ℕ, Bool, true, false, Option, none, some, List, [], ◌∷◌, if◌then◌else◌, ◌||◌, ◌++◌,
}

-- The two error strings.
pub data FromJson : Type 0 where
  command_not_found invalid_json : FromJson
  from_json : Command → FromJson

abbrev pub unwrap_or {ℓ} : {A : Type ℓ} → A → Option A → A
unwrap_or d none = d
unwrap_or d (some a) = a

-- `code` comes before `name`; a definition is sought among requests unless `request` says no.
unfoldable pub get_command_define : CommandMap → Entries → Option CommandJson
get_command_define m obj = elim (and_then (get (text "code") obj) as_u64) [
  | some code ↦
      command_by_code (u32 code) (unwrap_or true (and_then (get (text "request") obj) as_bool)) m
  | none ↦ and_then (and_then (get (text "name") obj) as_str) (λ name. command_by_name name m)
]

-- The variables that the loop of `from_json_value` assigns.
pub record Reading : Type 0 where
  pub read_application : ℕ
  pub read_hop_by_hop : ℕ
  pub read_end_to_end : ℕ
  pub read_flags : ℕ
  pub read_avps : List Avp

abbrev or_all : ℕ → List CommandFlags → ℕ
or_all n [] = n
or_all n (f ∷ fs) = or_all (bit_or n (command_flags_as_u8 f)) fs

abbrev push_avp : Option Avp → Reading → Reading
push_avp none r = r
push_avp (some a) r = record r { read_avps = r.read_avps ++ (a ∷ []) }

abbrev push_items : Codecs → AvpMap → Text → Items → Reading → Reading
push_items k m name no_item r = r
push_items k m name (item v vs) r =
    push_items k m name vs (push_avp (name_value_to_avp k m name v) r)

-- An array stands for an AVP of each of its items. A value that is refused is logged.
unfoldable pub push_value : Codecs → AvpMap → Text → Value → Reading → Reading
push_value k m name (array vs) r = push_items k m name vs r
push_value k m name null r = push_avp (name_value_to_avp k m name null) r
push_value k m name (boolean b) r = push_avp (name_value_to_avp k m name (boolean b)) r
push_value k m name (number n) r = push_avp (name_value_to_avp k m name (number n)) r
push_value k m name (string s) r = push_avp (name_value_to_avp k m name (string s)) r
push_value k m name (object es) r = push_avp (name_value_to_avp k m name (object es)) r

abbrev u32_or_zero : Value → ℕ
u32_or_zero v = u32 (unwrap_or 0 (as_u64 v))

abbrev letters_of : Value → List CommandFlags
letters_of v = unwrap_or [] (command_flags_from_str (unwrap_or [] (as_str v)))

-- The `match` on the key of a member.
unfoldable pub read_entry : Codecs → AvpMap → Text → Value → Reading → Reading
read_entry k m key v r =
    if text_eq key (text "code") || text_eq key (text "name")
    then r
    else if text_eq key (text "application_id")
    then record r { read_application = unwrap_or r.read_application (map_option u32 (as_u64 v)) }
    else if text_eq key (text "hop_by_hop_id")
    then record r { read_hop_by_hop = u32_or_zero v }
    else if text_eq key (text "end_to_end_id")
    then record r { read_end_to_end = u32_or_zero v }
    else if text_eq key (text "callback-url")
    then r
    else if text_eq key (text "flags")
    then record r { read_flags = or_all r.read_flags (letters_of v) }
    else push_value k m key v r

unfoldable pub read_entries : Codecs → AvpMap → Entries → Reading → Reading
read_entries k m no_entry r = r
read_entries k m (entry key v es) r = read_entries k m es (read_entry k m key v r)

abbrev pub start_reading : CommandJson → Reading
start_reading d = record {
  read_application = d.defined_application;
  read_hop_by_hop = 0;
  read_end_to_end = 0;
  read_flags = 0;
  read_avps = [];
}

abbrev pub command_of : AvpMap → CommandJson → Reading → Command
command_of m d r = record {
  command_code = d.defined_code;
  command_flags = bit_or (defined_flags d) r.read_flags;
  application_id = r.read_application;
  hop_by_hop_id = r.read_hop_by_hop;
  end_to_end_id = r.read_end_to_end;
  avps = sort_avps d m r.read_avps;
}

unfoldable pub from_json_value : Codecs → CommandMap → AvpMap → Value → FromJson
from_json_value k cm m (object es) = elim (get_command_define cm es) [
  | none ↦ command_not_found
  | some d ↦ from_json (command_of m d (read_entries k m es (start_reading d)))
]
from_json_value k cm m null = invalid_json
from_json_value k cm m (boolean b) = invalid_json
from_json_value k cm m (number n) = invalid_json
from_json_value k cm m (string s) = invalid_json
from_json_value k cm m (array vs) = invalid_json

-- An AVP that is refused is shown by its code, as unknown.
unfoldable pub shown_avp : Codecs → AvpMap → Avp → Converted (Text × Value)
shown_avp k m a = elim (avp_to_name_value k m a) [
  | converted p ↦ converted p
  | refused ↦ converted (text "Unknown-AVP-" ++ to_decimal (code a), string (text "Unknown"))
  | panicked ↦ panicked
  | out_of_fuel ↦ out_of_fuel
]

abbrev cons_shown :
    Converted (Text × Value) → Converted (List (Text × Value)) → Converted (List (Text × Value))
cons_shown (converted p) rest = map_converted (λ ps. p ∷ ps) rest
cons_shown refused rest = refused
cons_shown panicked rest = panicked
cons_shown out_of_fuel rest = out_of_fuel

-- `avps_json`.
unfoldable pub shown_avps : Codecs → AvpMap → List Avp → Converted (List (Text × Value))
shown_avps k m [] = converted []
shown_avps k m (a ∷ rest) = cons_shown (shown_avp k m a) (shown_avps k m rest)

abbrev push_item : Items → Value → Items
push_item no_item v = item v no_item
push_item (item w ws) v = item w (push_item ws v)

-- A second value of one name makes an array of both, and an array takes one more.
unfoldable pub combine : Option Value → Value → Value
combine none v = v
combine (some (array vs)) v = array (push_item vs v)
combine (some null) v = array (item null (item v no_item))
combine (some (boolean b)) v = array (item (boolean b) (item v no_item))
combine (some (number n)) v = array (item (number n) (item v no_item))
combine (some (string s)) v = array (item (string s) (item v no_item))
combine (some (object es)) v = array (item (object es) (item v no_item))

unfoldable pub add_shown : List (Text × Value) → Entries → Entries
add_shown [] r = r
add_shown ((name, v) ∷ rest) r = add_shown rest (insert_entry name (combine (get name r) v) r)

abbrev pub json_u32 : ℕ → Value
json_u32 n = number (integer (pos n))

abbrev pub name_entry : Option CommandJson → Entries
name_entry none = no_entry
name_entry (some d) = insert_entry (text "name") (string d.long_name) no_entry

-- The members that `to_json` inserts before those of the AVPs.
unfoldable pub header_entries : CommandMap → Command → Entries
header_entries cm c = insert_entry (text "flags") (string (str_from_u8 c.command_flags)) (
    insert_entry (text "end_to_end_id") (json_u32 c.end_to_end_id) (
      insert_entry (text "hop_by_hop_id") (json_u32 c.hop_by_hop_id) (
        insert_entry (text "application_id") (json_u32 c.application_id) (
          insert_entry (text "code") (json_u32 c.command_code)
            (name_entry (command_by_code c.command_code (is_request c) cm))))))

unfoldable pub to_json : Codecs → CommandMap → AvpMap → Command → Converted Value
to_json k cm m c =
    map_converted (λ ps. object (add_shown ps (header_entries cm c))) (shown_avps k m c.avps)
