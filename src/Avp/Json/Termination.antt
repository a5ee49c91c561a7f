-- ===== src/Avp/Json/Termination.antt =====
-- The fuel of `avp_to_name_value` is enough for every AVP, groups of groups included.
use mathlib.Core.Path.{subst}
use rest_diameter_bridge.Avp.Json.Faults.{
  fuel_missing, IsFreeOf, HasPayload, described-IsFreeOf, Members-map,
}
use rest_diameter_bridge.Avp.Json.Depth.{one-le-depth_bound, as_grouped-IsShallow}
use rest_diameter_bridge.Avp.Json.{
  out_of_fuel, depth_bound, Codecs, avp_to_name_value, name_value_on,
}
use rest_diameter_bridge.Avp.Codec.{as_grouped}
use rest_diameter_bridge.Avp.Defs.{Avp, payload, code}
use rest_diameter_bridge.Avp.Dictionary.{AvpMap, get_by_code}
use rest_diameter_bridge.Base.{ℕ, zero, suc, none, some, Option, List, ◌≤◌, arith, ◌≢◌}

no_payload_needed : (o : Option (List ℕ)) → HasPayload fuel_missing o
no_payload_needed none = tt
no_payload_needed (some d) = tt

name_value_on-IsFreeOf :
    (k : Codecs) (m : AvpMap) (fuel : ℕ) (a : Avp)
    → depth_bound a ≤ fuel
    → IsFreeOf fuel_missing (name_value_on k m fuel a)
unfolding name_value_on
name_value_on-IsFreeOf k m zero a h = absurd (omega (arith, h, one-le-depth_bound a))
name_value_on-IsFreeOf k m (suc fuel) a h =
    described-IsFreeOf fuel_missing k (name_value_on k m fuel) (get_by_code (code a) m) a
      (no_payload_needed (payload a))
      (Members-map (as_grouped a) (name_value_on-IsFreeOf k m fuel) (as_grouped-IsShallow a fuel h))

-- On any AVP, groups within groups included, the recursion of avp_to_name_value ends before its
-- fuel is used up.
pub avp_to_name_value-ne-out_of_fuel :
    (k : Codecs) (m : AvpMap) (a : Avp) → avp_to_name_value k m a ≢ out_of_fuel
unfolding avp_to_name_value
avp_to_name_value-ne-out_of_fuel k m a e =
    subst (IsFreeOf fuel_missing) e (name_value_on-IsFreeOf k m (depth_bound a) a (omega arith))
