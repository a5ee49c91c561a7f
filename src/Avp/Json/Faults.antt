-- ===== src/Avp/Json/Faults.antt =====
-- What can make `avp_to_name_value` give no result: a missing payload, or missing fuel.
use rest_diameter_bridge.Avp.Json.Depth.{Members}
use rest_diameter_bridge.Base.Text.{Text}
use rest_diameter_bridge.Avp.Json.{
  Converted, converted, refused, panicked, out_of_fuel, fill, Codecs, described, group_value,
  map_converted, or_refuse, utf8_value, value_of, base64_value,
}
use rest_diameter_bridge.Avp.Codec.{as_grouped}
use rest_diameter_bridge.Avp.Defs.{Avp, payload}
use rest_diameter_bridge.Avp.Dictionary.{
  AvpJson, AvpType, address, enumerated, octet_string, time, utf8_string, diameter_identity,
  diameter_uri, ip_filter_rule, integer32, unsigned32, integer64, unsigned64, float32, float64,
  grouped,
}
use rest_diameter_bridge.Base.Json.{Value, Entries, insert_entry, object, no_entry}
use rest_diameter_bridge.Base.{ℕ, none, some, Option, List, [], ◌∷◌, All}

-- The two ways in which a conversion gives no result.
pub data Fault : Type 0 where
  panic fuel_missing : Fault

abbrev Differs : Fault → Fault → Type 0
Differs panic panic = ⊥
Differs panic fuel_missing = Unit
Differs fuel_missing panic = Unit
Differs fuel_missing fuel_missing = ⊥

-- The outcome is not that fault.
abbrev pub IsFreeOf {ℓ} : {A : Type ℓ} → Fault → Converted A → Type 0
IsFreeOf x (converted a) = Unit
IsFreeOf x refused = Unit
IsFreeOf x panicked = Differs x panic
IsFreeOf x out_of_fuel = Differs x fuel_missing

-- There is a payload, which only matters to a panic.
abbrev pub HasPayload : Fault → Option (List ℕ) → Type 0
HasPayload x none = Differs x panic
HasPayload x (some d) = Unit

module _ (x : Fault) where
  -- One round of the loop, where the rest of the members is free of the fault.
  fill_round :
      (convert : Avp → Converted (Text × Value)) (rest : List Avp) (es : Entries)
      (r : Converted (Text × Value))
      → IsFreeOf x r
      → ((es' : Entries) → IsFreeOf x (fill convert rest es'))
      → IsFreeOf x (elim r as (λ r'. Converted Entries) [
        | converted (name, value) ↦ fill convert rest (insert_entry name value es)
        | refused ↦ fill convert rest es
        | panicked ↦ panicked
        | out_of_fuel ↦ out_of_fuel
      ])
  fill_round convert rest es (converted (name, value)) h ih = ih (insert_entry name value es)
  fill_round convert rest es refused h ih = ih es
  fill_round convert rest es panicked h ih = h
  fill_round convert rest es out_of_fuel h ih = h

  fill-IsFreeOf :
      (convert : Avp → Converted (Text × Value)) (avps : List Avp) (es : Entries)
      → All (λ a. IsFreeOf x (convert a)) avps
      → IsFreeOf x (fill convert avps es)
  unfolding fill
  fill-IsFreeOf convert [] es h = tt
  fill-IsFreeOf convert (a ∷ rest) es (ha, hs) =
      fill_round convert rest es (convert a) ha (λ es'. fill-IsFreeOf convert rest es' hs)

  map_converted-IsFreeOf {ℓ κ} :
      {A : Type ℓ} {B : Type κ} (f : A → B) (r : Converted A)
      → IsFreeOf x r
      → IsFreeOf x (map_converted f r)
  map_converted-IsFreeOf f (converted a) h = tt
  map_converted-IsFreeOf f refused h = tt
  map_converted-IsFreeOf f panicked h = h
  map_converted-IsFreeOf f out_of_fuel h = h

  or_refuse-IsFreeOf {ℓ} : {A : Type ℓ} (o : Option A) → IsFreeOf x (or_refuse o)
  or_refuse-IsFreeOf none = tt
  or_refuse-IsFreeOf (some a) = tt

  base64_value-IsFreeOf :
      (k : Codecs) (o : Option (List ℕ)) → HasPayload x o → IsFreeOf x (base64_value k o)
  base64_value-IsFreeOf k none h = h
  base64_value-IsFreeOf k (some d) h = tt

  utf8_value-IsFreeOf : (o : Option (List ℕ)) → HasPayload x o → IsFreeOf x (utf8_value o)
  utf8_value-IsFreeOf none h = h
  utf8_value-IsFreeOf (some d) h = or_refuse-IsFreeOf _

  group_value-IsFreeOf :
      (convert : Avp → Converted (Text × Value)) (o : Option (List Avp))
      → Members (λ a. IsFreeOf x (convert a)) o
      → IsFreeOf x (group_value convert o)
  group_value-IsFreeOf convert none h = tt
  group_value-IsFreeOf convert (some subs) h =
      map_converted-IsFreeOf object _ (fill-IsFreeOf convert subs no_entry h)

  value_of-IsFreeOf :
      (k : Codecs) (convert : Avp → Converted (Text × Value)) (t : AvpType) (a : Avp)
      → HasPayload x (payload a)
      → Members (λ b. IsFreeOf x (convert b)) (as_grouped a)
      → IsFreeOf x (value_of k convert t a)
  unfolding value_of
  value_of-IsFreeOf k convert octet_string a p h = base64_value-IsFreeOf k (payload a) p
  value_of-IsFreeOf k convert address a p h = or_refuse-IsFreeOf _
  value_of-IsFreeOf k convert time a p h = or_refuse-IsFreeOf _
  value_of-IsFreeOf k convert utf8_string a p h = utf8_value-IsFreeOf (payload a) p
  value_of-IsFreeOf k convert diameter_identity a p h = utf8_value-IsFreeOf (payload a) p
  value_of-IsFreeOf k convert diameter_uri a p h = utf8_value-IsFreeOf (payload a) p
  value_of-IsFreeOf k convert ip_filter_rule a p h = utf8_value-IsFreeOf (payload a) p
  value_of-IsFreeOf k convert integer32 a p h = tt
  value_of-IsFreeOf k convert enumerated a p h = tt
  value_of-IsFreeOf k convert unsigned32 a p h = tt
  value_of-IsFreeOf k convert integer64 a p h = tt
  value_of-IsFreeOf k convert unsigned64 a p h = tt
  value_of-IsFreeOf k convert float32 a p h = tt
  value_of-IsFreeOf k convert float64 a p h = tt
  value_of-IsFreeOf k convert grouped a p h = group_value-IsFreeOf convert (as_grouped a) h

  pub described-IsFreeOf :
      (k : Codecs) (convert : Avp → Converted (Text × Value)) (o : Option AvpJson) (a : Avp)
      → HasPayload x (payload a)
      → Members (λ b. IsFreeOf x (convert b)) (as_grouped a)
      → IsFreeOf x (described k convert o a)
  unfolding described
  described-IsFreeOf k convert (some d) a p h =
      map_converted-IsFreeOf _ _ (value_of-IsFreeOf k convert d.avp_type a p h)
  described-IsFreeOf k convert none a p h =
      map_converted-IsFreeOf _ _ (base64_value-IsFreeOf k (payload a) p)

All-map : {P Q : Avp → Type 0} (avps : List Avp) → ((a : Avp) → P a → Q a) → All P avps → All Q avps
All-map [] f h = tt
All-map (a ∷ rest) f h = (f a h.0, All-map rest f h.1)

pub Members-map :
    {P Q : Avp → Type 0} (o : Option (List Avp))
    → ((a : Avp) → P a → Q a)
    → Members P o
    → Members Q o
Members-map none f h = tt
Members-map (some avps) f h = All-map avps f h
