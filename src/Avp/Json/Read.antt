-- ===== src/Avp/Json/Read.antt =====
-- `name_value_to_avp` of src/avp.rs.
use rest_diameter_bridge.Base.Bytes.{u32, u32_to_be_bytes, u64_to_be_bytes}
use rest_diameter_bridge.Avp.Json.{Codecs}
use rest_diameter_bridge.Base.Int.{to_word}
use rest_diameter_bridge.Base.Json.{
  Number, integer, float, Value, null, boolean, number, string, array, object, Entries, no_entry,
  entry, number_as_u64, number_as_i64,
}
use rest_diameter_bridge.Base.Text.{Text, text, text_eq}
use rest_diameter_bridge.Base.Decimal.{parse_u32}
use rest_diameter_bridge.Avp.Defs.{
  Avp, Avps, nil, cons, map_option, new, and_then, from_address, from_grouped, from_time,
}
use rest_diameter_bridge.Avp.Dictionary.{
  AvpJson, AvpMap, AvpType, address, enumerated, octet_string, time, utf8_string, diameter_identity,
  diameter_uri, ip_filter_rule, integer32, unsigned32, integer64, unsigned64, float32, float64,
  grouped, get_by_name,
}
use rest_diameter_bridge.Base.{ℕ, none, some, Option, List, [], ◌∷◌, if◌then◌else◌}

abbrev pub flags_of_json : AvpJson → ℕ
flags_of_json d = if d.mandatory then 0x40 else 0

abbrev pub new_for : AvpJson → List ℕ → Avp
new_for d bytes = new d.code (flags_of_json d) d.vendor_id bytes

-- `BASE64_STANDARD.decode(s).unwrap_or_else(|_| s.as_bytes().to_vec())`.
abbrev pub bytes_or_text : Option (List ℕ) → Text → List ℕ
bytes_or_text none s = s
bytes_or_text (some bytes) s = bytes

abbrev pub string_avp : (Text → Avp) → Value → Option Avp
string_avp build (string s) = some (build s)
string_avp build _ = none

abbrev pub number_avp {ℓ} : {A : Type ℓ} → (Number → Option A) → (A → Avp) → Value → Option Avp
number_avp view build (number n) = map_option build (view n)
number_avp view build _ = none

-- `Number::as_f64`.
abbrev pub number_as_f64 : Codecs → Number → Option ℕ
number_as_f64 k (integer i) = some (k.f64_of_integer i)
number_as_f64 k (float x) = some x

-- `value.as_object()`, where `members` are the converted members, if each of them was converted.
abbrev pub group_avp : AvpJson → Option Avps → Value → Option Avp
group_avp d members (object es) =
    map_option (λ subs. from_grouped d.code (flags_of_json d) d.vendor_id subs) members
group_avp d members _ = none

-- The `match` of `name_value_to_avp`. `as u32` and `as i32` keep the low 32 bits.
unfoldable pub avp_of : Codecs → AvpJson → AvpType → Option Avps → Value → Option Avp
avp_of k d octet_string members v =
    string_avp (λ s. new_for d (bytes_or_text (k.base64_decode s) s)) v
avp_of k d address members v =
    string_avp (λ s. from_address d.code (flags_of_json d) d.vendor_id (k.parse_address s)) v
avp_of k d time members v =
    number_avp number_as_u64 (λ u. from_time d.code (flags_of_json d) d.vendor_id (u32 u)) v
avp_of k d integer32 members v =
    number_avp number_as_i64 (λ i. new_for d (u32_to_be_bytes (u32 (to_word 64 i)))) v
avp_of k d enumerated members v =
    number_avp number_as_i64 (λ i. new_for d (u32_to_be_bytes (u32 (to_word 64 i)))) v
avp_of k d unsigned32 members v =
    number_avp number_as_u64 (λ u. new_for d (u32_to_be_bytes (u32 u))) v
avp_of k d integer64 members v =
    number_avp number_as_i64 (λ i. new_for d (u64_to_be_bytes (to_word 64 i))) v
avp_of k d unsigned64 members v = number_avp number_as_u64 (λ u. new_for d (u64_to_be_bytes u)) v
avp_of k d float32 members v =
    number_avp (number_as_f64 k) (λ x. new_for d (u32_to_be_bytes (k.f32_of_f64 x))) v
avp_of k d float64 members v = number_avp (number_as_f64 k) (λ x. new_for d (u64_to_be_bytes x)) v
avp_of k d utf8_string members v = string_avp (new_for d) v
avp_of k d diameter_identity members v = string_avp (new_for d) v
avp_of k d diameter_uri members v = string_avp (new_for d) v
avp_of k d ip_filter_rule members v = string_avp (new_for d) v
avp_of k d grouped members v = group_avp d members v

-- `name.strip_prefix("AVP-")`.
unfoldable pub strip_avp_prefix : Text → Option Text
strip_avp_prefix (a ∷ b ∷ c ∷ d ∷ rest) =
    if text_eq (a ∷ b ∷ c ∷ d ∷ []) (text "AVP-") then some rest else none
strip_avp_prefix _ = none

-- A name `AVP-` with a code stands for an AVP without flags and vendor.
unfoldable pub unnamed_avp : Codecs → Text → Value → Option Avp
unnamed_avp k name v =
    and_then (and_then (strip_avp_prefix name) parse_u32)
      (λ c. string_avp (λ s. new c 0 none (bytes_or_text (k.base64_decode s) s)) v)

unfoldable pub avp_for : Codecs → Option AvpJson → Text → Option Avps → Value → Option Avp
avp_for k (some d) name members v = avp_of k d d.avp_type members v
avp_for k none name members v = unnamed_avp k name v

abbrev pub cons_members : Option Avp → Option Avps → Option Avps
cons_members (some a) (some rest) = some (cons a rest)
cons_members (some a) none = none
cons_members none rest = none

unfoldable mutual
  pub name_value_to_avp : Codecs → AvpMap → Text → Value → Option Avp
  name_value_to_avp k m name (object es) =
      avp_for k (get_by_name name m) name (members_to_avps k m es) (object es)
  name_value_to_avp k m name null = avp_for k (get_by_name name m) name none null
  name_value_to_avp k m name (boolean b) = avp_for k (get_by_name name m) name none (boolean b)
  name_value_to_avp k m name (number n) = avp_for k (get_by_name name m) name none (number n)
  name_value_to_avp k m name (string s) = avp_for k (get_by_name name m) name none (string s)
  name_value_to_avp k m name (array vs) = avp_for k (get_by_name name m) name none (array vs)

  -- The loop over the members of an object, which stops at the first that is refused.
  pub members_to_avps : Codecs → AvpMap → Entries → Option Avps
  members_to_avps k m no_entry = some nil
  members_to_avps k m (entry name v es) =
      cons_members (name_value_to_avp k m name v) (members_to_avps k m es)
