-- ===== src/Avp/Dictionary.antt =====
-- The AVP dictionary of src/avp.rs: the types of AVPs and their names, the descriptors, and the maps
-- by code and by name. The dictionaries that YAML files add are lists of descriptors.
pub mod Standard
use rest_diameter_bridge.Base.{
  ℕ, ◌≡◌, refl, Bool, true, false, Option, none, some, List, [], ◌∷◌, if◌then◌else◌, ◌==◌, ◌∙◌,
}
use rest_diameter_bridge.Base.Text.{Text, text, text_eq, lower}
use rest_diameter_bridge.Base.Map.{Map, empty_map, insert, nat_key, text_key}

pub data AvpType : Type 0 where
  address : AvpType
  enumerated : AvpType
  octet_string : AvpType
  time : AvpType
  utf8_string : AvpType
  diameter_identity : AvpType
  diameter_uri : AvpType
  ip_filter_rule : AvpType
  integer32 : AvpType
  unsigned32 : AvpType
  integer64 : AvpType
  unsigned64 : AvpType
  float32 : AvpType
  float64 : AvpType
  grouped : AvpType

-- `impl From<AvpType> for String`.
unfoldable pub avp_type_to_string : AvpType → Text
avp_type_to_string address = text "Address"
avp_type_to_string enumerated = text "Enumerated"
avp_type_to_string octet_string = text "OctetString"
avp_type_to_string time = text "Time"
avp_type_to_string utf8_string = text "UTF8String"
avp_type_to_string diameter_identity = text "DiameterIdentity"
avp_type_to_string diameter_uri = text "DiameterURI"
avp_type_to_string ip_filter_rule = text "IPFilterRule"
avp_type_to_string integer32 = text "Integer32"
avp_type_to_string unsigned32 = text "Unsigned32"
avp_type_to_string integer64 = text "Integer64"
avp_type_to_string unsigned64 = text "Unsigned64"
avp_type_to_string float32 = text "Float32"
avp_type_to_string float64 = text "Float64"
avp_type_to_string grouped = text "Grouped"

-- The `match` of `impl From<String> for AvpType`, on the lowered string.
abbrev match_avp_type : Text → AvpType
match_avp_type s =
    if text_eq s (text "address")
    then address
    else if text_eq s (text "enumerated")
    then enumerated
    else if text_eq s (text "octetstring")
    then octet_string
    else if text_eq s (text "time")
    then time
    else if text_eq s (text "utf8string")
    then utf8_string
    else if text_eq s (text "diameteridentity")
    then diameter_identity
    else if text_eq s (text "diameteruri")
    then diameter_uri
    else if text_eq s (text "ipfilterrule")
    then ip_filter_rule
    else if text_eq s (text "integer32")
    then integer32
    else if text_eq s (text "unsigned32")
    then unsigned32
    else if text_eq s (text "integer64")
    then integer64
    else if text_eq s (text "unsigned64")
    then unsigned64
    else if text_eq s (text "float32")
    then float32
    else if text_eq s (text "float64")
    then float64
    else if text_eq s (text "grouped")
    then grouped
    else octet_string

-- `to_lowercase` is taken on ASCII: no other character is lowered to letters of these names.
unfoldable pub avp_type_from_string : Text → AvpType
avp_type_from_string s = match_avp_type (lower s)

-- The name of every AVP type is read back as that type.
pub avp_type_from_string-avp_type_to_string :
    (t : AvpType) → avp_type_from_string (avp_type_to_string t) ≡ t
unfolding avp_type_from_string avp_type_to_string text_eq lower
avp_type_from_string-avp_type_to_string address = refl
avp_type_from_string-avp_type_to_string enumerated = refl
avp_type_from_string-avp_type_to_string octet_string = refl
avp_type_from_string-avp_type_to_string time = refl
avp_type_from_string-avp_type_to_string utf8_string = refl
avp_type_from_string-avp_type_to_string diameter_identity = refl
avp_type_from_string-avp_type_to_string diameter_uri = refl
avp_type_from_string-avp_type_to_string ip_filter_rule = refl
avp_type_from_string-avp_type_to_string integer32 = refl
avp_type_from_string-avp_type_to_string unsigned32 = refl
avp_type_from_string-avp_type_to_string integer64 = refl
avp_type_from_string-avp_type_to_string unsigned64 = refl
avp_type_from_string-avp_type_to_string float32 = refl
avp_type_from_string-avp_type_to_string float64 = refl
avp_type_from_string-avp_type_to_string grouped = refl

pub record AvpJson : Type 0 where
  pub name : Text
  pub code : ℕ
  pub avp_type : AvpType
  pub mandatory : Bool
  pub vendor_id : Option ℕ

abbrev pub new_avp_json : Text → ℕ → AvpType → Bool → Option ℕ → AvpJson
new_avp_json name code avp_type mandatory vendor_id = record {
  name = name;
  code = code;
  avp_type = avp_type;
  mandatory = mandatory;
  vendor_id = vendor_id;
}

pub record AvpMap : Type 0 where
  pub code_to_avp : Map ℕ AvpJson
  pub name_to_avp : Map Text AvpJson

abbrev pub empty_avp_map : AvpMap
empty_avp_map = record { code_to_avp = empty_map; name_to_avp = empty_map }

unfoldable pub add_json : AvpJson → AvpMap → AvpMap
add_json avp m = record {
  code_to_avp = insert avp.code avp m.code_to_avp;
  name_to_avp = insert avp.name avp m.name_to_avp;
}

-- `for avp in avps { avp_map.add_avp(avp) }`.
unfoldable pub add_all : List AvpJson → AvpMap → AvpMap
add_all [] m = m
add_all (avp ∷ avps) m = add_all avps (add_json avp m)

unfoldable pub get_by_code : ℕ → AvpMap → Option AvpJson
get_by_code code m = m.code_to_avp code

unfoldable pub get_by_name : Text → AvpMap → Option AvpJson
get_by_name name m = m.name_to_avp name

abbrev pub or_else {ℓ} : {A : Type ℓ} → Option A → Option A → Option A
or_else none b = b
or_else (some a) b = some a

-- The last descriptor of a list that passes a test.
abbrev pub last_with : (AvpJson → Bool) → List AvpJson → Option AvpJson
last_with p [] = none
last_with p (avp ∷ avps) = or_else (last_with p avps) (if p avp then some avp else none)

or_else_if :
    (b : Bool) (x : Option AvpJson) (a : AvpJson) (y : Option AvpJson)
    → or_else x (if b then some a else y) ≡ or_else (or_else x (if b then some a else none)) y
or_else_if true none a y = refl
or_else_if true (some v) a y = refl
or_else_if false none a y = refl
or_else_if false (some v) a y = refl

-- After descriptors were added to a map, a code gives the last of them with that code, and what
-- the map gave before if there is none; a name likewise.
pub add_all_lem :
    (avps : List AvpJson) (m : AvpMap) (c : ℕ) (n : Text)
    → (get_by_code c (add_all avps m)
        ≡ or_else (last_with (λ a. c == a.code) avps) (get_by_code c m))
      × (get_by_name n (add_all avps m)
          ≡ or_else (last_with (λ a. text_eq n a.name) avps) (get_by_name n m))
unfolding get_by_code get_by_name add_all add_json
add_all_lem [] m c n = (refl, refl)
add_all_lem (avp ∷ avps) m c n =
    let ih = add_all_lem avps (add_json avp m) c n in
    (
      ih.0 ∙ or_else_if (c == avp.code) (last_with (λ a. c == a.code) avps) avp (m.code_to_avp c),
      ih.1
          ∙ or_else_if (text_eq n avp.name) (last_with (λ a. text_eq n a.name) avps) avp
              (m.name_to_avp n),
    )
