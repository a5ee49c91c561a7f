-- ===== src/Avp/Json/RoundTrip.antt =====
-- JSON, to an AVP, to the wire and back: groups within groups included.
use rest_diameter_bridge.Avp.Json.Groups.{Shows, Show, avp_for-leaf, group-Shows}
use rest_diameter_bridge.Avp.RoundTrip.{decode-encode}
use rest_diameter_bridge.Avp.Codec.{encode, decode, ok}
use rest_diameter_bridge.Avp.Wire.{wire}
use rest_diameter_bridge.Base.Json.Objects.{IsSorted}
use rest_diameter_bridge.Base.Text.{Text}
use rest_diameter_bridge.Avp.Json.WellTyped.{
  IsWellTyped, AreWellTyped, HasMember, Describes, FitsWire,
}
use mathlib.Core.Path.{subst}
use rest_diameter_bridge.Avp.Json.Read.{
  name_value_to_avp, members_to_avps, avp_for, flags_of_json, avp_of, group_avp,
}
use rest_diameter_bridge.Avp.Json.{Codecs, AreCodecs, converted, depth_bound, avp_to_name_value}
use rest_diameter_bridge.Avp.Defs.{Avp, Avps, nil, cons, from_grouped}
use rest_diameter_bridge.Avp.Dictionary.{AvpMap, AvpJson, grouped}
use rest_diameter_bridge.Base.Json.{
  Value, Entries, no_entry, entry, null, boolean, number, string, array, object,
}
use rest_diameter_bridge.Base.{ℕ, some, List, ◌≡◌, ap, ◌∙◌, ◌++◌, arith, refl}

module _ (k : Codecs) (laws : AreCodecs k) (m : AvpMap) where
  object_Shows :
      (name : Text) (d : AvpJson) (es : Entries)
      → Describes m name d
      → d.avp_type ≡ grouped
      → HasMember es
      → IsSorted es
      → ((s : Avps) × (members_to_avps k m es ≡ some s) × Show k m es s)
      → (a : Avp) × (name_value_to_avp k m name (object es) ≡ some a) × Shows k m name (object es) a
  unfolding name_value_to_avp avp_for avp_of
  object_Shows name d es hd t hm o (s, e, h) = (
    from_grouped d.code (flags_of_json d) d.vendor_id s,
    ap (λ u. avp_for k u name (members_to_avps k m es) (object es)) hd.0
        ∙ ap (λ u. avp_of k d u (members_to_avps k m es) (object es)) t
        ∙ ap (λ u. group_avp d u (object es)) e,
    group-Shows k laws m name d es s hd t hm o h,
  )

  cons_Show :
      (name : Text) (v : Value) (es : Entries)
      → ((a : Avp) × (name_value_to_avp k m name v ≡ some a) × Shows k m name v a)
      → ((s : Avps) × (members_to_avps k m es ≡ some s) × Show k m es s)
      → (s : Avps) × (members_to_avps k m (entry name v es) ≡ some s) × Show k m (entry name v es) s
  unfolding members_to_avps
  cons_Show name v es (a, e, h) (s, f, g) = (cons a s, rw (e, f) refl, (h, g))

  mutual
    unfolding name_value_to_avp members_to_avps

    typed-Shows :
        (name : Text) (v : Value)
        → IsWellTyped k m name v
        → (a : Avp) × (name_value_to_avp k m name v ≡ some a) × Shows k m name v a
    typed-Shows name (object es) ((d, hd, t), hm, o, h) =
        object_Shows name d es hd t hm o (typed-Show es h)
    typed-Shows name null h = avp_for-leaf k laws m name null h
    typed-Shows name (boolean b) h = avp_for-leaf k laws m name (boolean b) h
    typed-Shows name (number n) h = avp_for-leaf k laws m name (number n) h
    typed-Shows name (string s) h = avp_for-leaf k laws m name (string s) h
    typed-Shows name (array vs) h = avp_for-leaf k laws m name (array vs) h

    typed-Show :
        (es : Entries)
        → AreWellTyped k m es
        → (s : Avps) × (members_to_avps k m es ≡ some s) × Show k m es s
    typed-Show no_entry h = (nil, refl, tt)
    typed-Show (entry name v es) h =
        cons_Show name v es (typed-Shows name v h.0) (typed-Show es h.1)

-- Under the documented laws of the codecs, a name and a JSON value that are well typed by the
-- dictionary give an AVP; if that AVP fits its places on the wire, then its encoding, followed by
-- any bytes, is decoded to an AVP that avp_to_name_value turns back into the same name and value.
-- Well typed are the values of every AVP type within its range, names AVP- with a code where the
-- dictionary knows neither the name nor the code, and objects with at least one member, in the
-- order of the names, to any depth. The descriptor that the dictionary has for a name that occurs
-- carries that name, and it is also the descriptor that the dictionary has for its code.
pub avp_to_name_value-name_value_to_avp :
    (k : Codecs) (m : AvpMap) (name : Text) (v : Value) (rest : List ℕ)
    → AreCodecs k
    → IsWellTyped k m name v
    → FitsWire (name_value_to_avp k m name v)
    → (a : Avp) × (b : Avp) × (name_value_to_avp k m name v ≡ some a)
      × (decode (encode a ++ rest) ≡ ok b)
      × (avp_to_name_value k m b ≡ converted (name, v))
unfolding avp_to_name_value
avp_to_name_value-name_value_to_avp k m name v rest laws h w =
    let r = typed-Shows k laws m name v h in
    let wf = subst FitsWire r.1 w in
    (r.0, wire r.0, r.1, decode-encode r.0 rest wf, r.2 (depth_bound (wire r.0)) wf (omega arith))
