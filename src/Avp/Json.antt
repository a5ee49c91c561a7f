-- ===== src/Avp/Json.antt =====
-- The conversions of src/avp.rs between AVPs and JSON: `avp_to_name_value` and `name_value_to_avp`.
-- Base64, the texts of addresses and the casts between floats belong to other packages and to the
-- standard library; they are the fields of `Codecs`, and what is documented of them is `AreCodecs`.
pub mod Read
pub mod Depth
pub mod Faults
pub mod Termination
pub mod Safety
pub mod Typed
pub mod WellTyped
pub mod Groups
pub mod RoundTrip
pub mod Plain
mod Tests
use rest_diameter_bridge.Avp.Codec.{as_grouped}
use rest_diameter_bridge.Avp.Scalars.{IsIpAddress}
use rest_diameter_bridge.Base.Int.{ℤ, pos}
use rest_diameter_bridge.Base.Json.{
  integer, float, Value, null, number, string, object, Entries, no_entry, insert_entry,
}
use rest_diameter_bridge.Base.Text.{Text, text, string_from_utf8}
use rest_diameter_bridge.Base.Decimal.{to_decimal}
use rest_diameter_bridge.Base.Bytes.{IsU32, IsByte}
use rest_diameter_bridge.Avp.Defs.{
  Avp, Avps, avp, nil, cons, IpAddress, code, map_option, payload, as_address, as_time,
  as_integer32, as_unsigned32, as_integer64, as_unsigned64, and_then, read_u32, read_u64,
}
use rest_diameter_bridge.Avp.Dictionary.{
  AvpJson, AvpMap, AvpType, address, enumerated, octet_string, time, utf8_string, diameter_identity,
  diameter_uri, ip_filter_rule, integer32, unsigned32, integer64, unsigned64, float32, float64,
  grouped, get_by_code,
}
use rest_diameter_bridge.Base.{
  ℕ, zero, suc, none, some, Option, List, [], ◌∷◌, true, Bool, ◌==◌, if◌then◌else◌, length, All,
  ◌+◌, ◌/◌, ◌%◌, ◌^◌, ◌≡◌, not, ◌++◌,
}

-- An `f32` and an `f64` are their bits.
pub record Codecs : Type 0 where
  pub base64_encode : List ℕ → Text
  pub base64_decode : Text → Option (List ℕ)
  pub print_address : IpAddress → Text
  pub parse_address : Text → Option IpAddress
  pub f64_of_f32 : ℕ → ℕ
  pub f32_of_f64 : ℕ → ℕ
  pub f64_of_integer : ℤ → ℕ

-- The exponent is not all ones.
abbrev pub is_finite32 : ℕ → Bool
is_finite32 x = not (x / 2 ^ 23 % 2 ^ 8 == 255)

abbrev pub is_finite64 : ℕ → Bool
is_finite64 x = not (x / 2 ^ 52 % 2 ^ 11 == 2047)

pub record AreCodecs (k : Codecs) : Type 0 where
  pub base64 :
      (bytes : List ℕ) → All IsByte bytes → k.base64_decode (k.base64_encode bytes) ≡ some bytes
  pub addresses : (ip : IpAddress) → IsIpAddress ip → k.parse_address (k.print_address ip) ≡ some ip
  pub exact : (x : ℕ) → IsU32 x → is_finite32 x ≡ true → k.f32_of_f64 (k.f64_of_f32 x) ≡ x

-- `panicked` is the `unwrap` of a missing payload. `out_of_fuel` is no outcome of the source.
pub data Converted {ℓ} (A : Type ℓ) : Type ℓ where
  converted : A → Converted A
  refused panicked out_of_fuel : Converted A

abbrev pub or_refuse {ℓ} : {A : Type ℓ} → Option A → Converted A
or_refuse none = refused
or_refuse (some a) = converted a

-- `data.clone().unwrap()`.
abbrev pub unwrap {ℓ} : {A : Type ℓ} → Option (List ℕ) → (List ℕ → Converted A) → Converted A
unwrap none f = panicked
unwrap (some d) f = f d

-- `impl From<Option<T>> for Value`.
abbrev pub value_from_unsigned : Option ℕ → Value
value_from_unsigned none = null
value_from_unsigned (some n) = number (integer (pos n))

abbrev pub value_from_signed : Option ℤ → Value
value_from_signed none = null
value_from_signed (some i) = number (integer i)

-- `Number::from_f64` has no number for an infinity or for what is not a number.
abbrev pub value_from_f64 : Option ℕ → Value
value_from_f64 none = null
value_from_f64 (some x) = if is_finite64 x then number (float x) else null

abbrev pub value_from_f32 : Codecs → Option ℕ → Value
value_from_f32 k none = null
value_from_f32 k (some x) = if is_finite32 x then number (float (k.f64_of_f32 x)) else null

abbrev pub base64_value : Codecs → Option (List ℕ) → Converted Value
base64_value k payload = unwrap payload (λ d. converted (string (k.base64_encode d)))

abbrev pub utf8_value : Option (List ℕ) → Converted Value
utf8_value payload = unwrap payload (λ d. or_refuse (map_option string (string_from_utf8 d)))

-- The loop over the members of a group: a member that is refused is left out.
unfoldable pub fill : (Avp → Converted (Text × Value)) → List Avp → Entries → Converted Entries
fill convert [] es = converted es
fill convert (a ∷ rest) es = elim (convert a) [
  | converted (name, value) ↦ fill convert rest (insert_entry name value es)
  | refused ↦ fill convert rest es
  | panicked ↦ panicked
  | out_of_fuel ↦ out_of_fuel
]

abbrev pub map_converted {ℓ κ} : {A : Type ℓ} {B : Type κ} → (A → B) → Converted A → Converted B
map_converted f (converted a) = converted (f a)
map_converted f refused = refused
map_converted f panicked = panicked
map_converted f out_of_fuel = out_of_fuel

abbrev pub group_value : (Avp → Converted (Text × Value)) → Option (List Avp) → Converted Value
group_value convert none = refused
group_value convert (some subs) = map_converted object (fill convert subs no_entry)

-- The `match` of `avp_to_name_value`; `convert` is its recursive call.
unfoldable pub value_of :
    Codecs → (Avp → Converted (Text × Value)) → AvpType → Avp → Converted Value
value_of k convert octet_string a = base64_value k (payload a)
value_of k convert address a =
    or_refuse (map_option (λ ip. string (k.print_address ip)) (as_address a))
value_of k convert time a = or_refuse (map_option (λ t. number (integer (pos t))) (as_time a))
value_of k convert utf8_string a = utf8_value (payload a)
value_of k convert diameter_identity a = utf8_value (payload a)
value_of k convert diameter_uri a = utf8_value (payload a)
value_of k convert ip_filter_rule a = utf8_value (payload a)
value_of k convert integer32 a = converted (value_from_signed (as_integer32 a))
value_of k convert enumerated a = converted (value_from_signed (as_integer32 a))
value_of k convert unsigned32 a = converted (value_from_unsigned (as_unsigned32 a))
value_of k convert integer64 a = converted (value_from_signed (as_integer64 a))
value_of k convert unsigned64 a = converted (value_from_unsigned (as_unsigned64 a))
value_of k convert float32 a = converted (value_from_f32 k (and_then (payload a) read_u32))
value_of k convert float64 a = converted (value_from_f64 (and_then (payload a) read_u64))
value_of k convert grouped a = group_value convert (as_grouped a)

abbrev pub named : Text → Converted Value → Converted (Text × Value)
named name r = map_converted (λ v. (name, v)) r

-- An AVP whose code has no descriptor is named after the code.
unfoldable pub described :
    Codecs → (Avp → Converted (Text × Value)) → Option AvpJson → Avp → Converted (Text × Value)
described k convert (some d) a = named d.name (value_of k convert d.avp_type a)
described k convert none a = named (text "AVP-" ++ to_decimal (code a)) (base64_value k (payload a))

-- `avp_to_name_value` on fuel for the depth of the groups.
unfoldable pub name_value_on : Codecs → AvpMap → ℕ → Avp → Converted (Text × Value)
name_value_on k m zero a = out_of_fuel
name_value_on k m (suc fuel) a = described k (name_value_on k m fuel) (get_by_code (code a) m) a

-- A group that was read has less depth than bytes.
unfoldable mutual
  pub depth_bound : Avp → ℕ
  depth_bound (avp c f v (some d) s) = suc (length d)
  depth_bound (avp c f v none s) = suc (depth_bounds s)

  pub depth_bounds : Avps → ℕ
  depth_bounds nil = 0
  depth_bounds (cons a rest) = depth_bound a + depth_bounds rest

unfoldable pub avp_to_name_value : Codecs → AvpMap → Avp → Converted (Text × Value)
avp_to_name_value k m a = name_value_on k m (depth_bound a) a
