-- ===== src/Command/Json/Shown.antt =====
-- `to_json` shows every AVP that has its bytes.
use rest_diameter_bridge.Base.Decimal.{to_decimal}
use rest_diameter_bridge.Avp.Defs.{Avp, code}
use rest_diameter_bridge.Avp.Json.{avp_to_name_value}
use rest_diameter_bridge.Avp.Json.Safety.{IsFlat, avp_to_name_value-ne-panicked}
use rest_diameter_bridge.Avp.Json.Termination.{avp_to_name_value-ne-out_of_fuel}
use rest_diameter_bridge.Command.Json.{shown_avp}
use rest_diameter_bridge.Base.Text.{Text, text}
use rest_diameter_bridge.Command.Json.{shown_avps}
use rest_diameter_bridge.Avp.Json.{Converted, converted, refused, panicked, out_of_fuel, Codecs}
use rest_diameter_bridge.Avp.Dictionary.{AvpMap}
use rest_diameter_bridge.Base.Json.{Value, string}
use rest_diameter_bridge.Base.{List, ◌≡◌, refl, All, ◌≢◌, [], ◌∷◌, ◌++◌}

-- An AVP with its bytes is shown, if need be as unknown.
shown_avp-IsFlat :
    (k : Codecs) (m : AvpMap) (a : Avp)
    → IsFlat a
    → (p : Text × Value) × (shown_avp k m a ≡ converted p)
unfolding shown_avp
shown_avp-IsFlat k m a h =
    shown (avp_to_name_value k m a) (avp_to_name_value-ne-panicked k m a h)
      (avp_to_name_value-ne-out_of_fuel k m a)
  where
    unknown : Text × Value
    unknown = (text "Unknown-AVP-" ++ to_decimal (code a), string (text "Unknown"))

    shown :
        (r : Converted (Text × Value))
        → r ≢ panicked
        → r ≢ out_of_fuel
        → (p : Text × Value) × ((elim r as (λ x. Converted (Text × Value)) [
          | converted q ↦ converted q
          | refused ↦ converted unknown
          | panicked ↦ panicked
          | out_of_fuel ↦ out_of_fuel
        ])
            ≡ converted p)
    shown (converted q) h g = (q, refl)
    shown refused h g = (unknown, refl)
    shown panicked h g = absurd (h refl)
    shown out_of_fuel h g = absurd (g refl)

pub shown_avps-IsFlat :
    (k : Codecs) (m : AvpMap) (avps : List Avp)
    → All IsFlat avps
    → (ps : List (Text × Value)) × (shown_avps k m avps ≡ converted ps)
unfolding shown_avps
shown_avps-IsFlat k m [] h = ([], refl)
shown_avps-IsFlat k m (a ∷ rest) h =
    let p = shown_avp-IsFlat k m a h.0 in
    let ps = shown_avps-IsFlat k m rest h.1 in (p.0 ∷ ps.0, rw (p.1, ps.1) refl)
