-- ===== src/Avp/Json/WellTyped.antt =====
-- Names and JSON values that an AVP dictionary gives AVPs for.
use rest_diameter_bridge.Base.Decimal.{to_decimal}
use rest_diameter_bridge.Avp.Wire.{IsWf}
use rest_diameter_bridge.Base.Bytes.{IsU32, IsByte}
use rest_diameter_bridge.Base.Json.Objects.{IsSorted}
use rest_diameter_bridge.Base.Text.{Text, text}
use rest_diameter_bridge.Avp.Json.{Codecs}
use rest_diameter_bridge.Avp.Json.Typed.{Carries}
use rest_diameter_bridge.Avp.Defs.{Avp}
use rest_diameter_bridge.Avp.Dictionary.{AvpMap, AvpJson, grouped, get_by_name, get_by_code}
use rest_diameter_bridge.Base.Json.{
  Value, Entries, no_entry, entry, null, boolean, number, string, array, object,
}
use rest_diameter_bridge.Base.{ℕ, none, some, Option, List, All, ◌≡◌, ◌⊎◌, ◌++◌}

-- The descriptor of a name is also that of its code.
abbrev pub Describes : AvpMap → Text → AvpJson → Type 0
Describes m name d =
    (get_by_name name m ≡ some d) × (get_by_code d.code m ≡ some d) × (d.name ≡ name)

-- A name made of a code that has no descriptor, with bytes.
abbrev pub IsUnnamed : Codecs → AvpMap → Text → Value → Type 0
IsUnnamed k m name v =
    (c : ℕ) × (bytes : List ℕ) × IsU32 c
    × All IsByte bytes
    × (get_by_code c m ≡ none)
    × (get_by_name name m ≡ none)
    × (name ≡ text "AVP-" ++ to_decimal c)
    × (v ≡ string (k.base64_encode bytes))

abbrev pub IsLeaf : Codecs → AvpMap → Text → Value → Type 0
IsLeaf k m name v =
    ((d : AvpJson) × Describes m name d × Carries k d.avp_type v) ⊎ IsUnnamed k m name v

abbrev pub HasMember : Entries → Type 0
HasMember no_entry = ⊥
HasMember (entry k v es) = Unit

-- The dictionary knows the name, and the value is one of its type. An object has a member, its
-- members stand in the order of their names, and each is well typed.
abbrev mutual
  pub IsWellTyped : Codecs → AvpMap → Text → Value → Type 0
  IsWellTyped k m name (object es) =
      ((d : AvpJson) × Describes m name d × (d.avp_type ≡ grouped))
      × HasMember es
      × IsSorted es
      × AreWellTyped k m es
  IsWellTyped k m name null = IsLeaf k m name null
  IsWellTyped k m name (boolean b) = IsLeaf k m name (boolean b)
  IsWellTyped k m name (number n) = IsLeaf k m name (number n)
  IsWellTyped k m name (string s) = IsLeaf k m name (string s)
  IsWellTyped k m name (array vs) = IsLeaf k m name (array vs)

  pub AreWellTyped : Codecs → AvpMap → Entries → Type 0
  AreWellTyped k m no_entry = Unit
  AreWellTyped k m (entry name v es) = IsWellTyped k m name v × AreWellTyped k m es

-- The AVP of a value has to fit its places on the wire.
abbrev pub FitsWire : Option Avp → Type 0
FitsWire none = Unit
FitsWire (some a) = IsWf a
