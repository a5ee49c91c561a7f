-- ===== src/Avp/Json/Safety.antt =====
-- `avp_to_name_value` does not panic on an AVP that was received.
use mathlib.Core.Path.{subst}
use rest_diameter_bridge.Avp.Json.Faults.{
  panic, IsFreeOf, HasPayload, described-IsFreeOf, Members-map,
}
use rest_diameter_bridge.Avp.Json.Depth.{Members, decode_avps-Decoded, ignore_error-Decoded}
use rest_diameter_bridge.Avp.Json.{Codecs, panicked, name_value_on, avp_to_name_value, depth_bound}
use rest_diameter_bridge.Avp.Codec.{
  decode, decode_body, decode_header, Header, ok, decode_avps, as_grouped, slice, vendor_length,
}
use rest_diameter_bridge.Avp.Defs.{Avp, avp, payload, new, is_grouped, code}
use rest_diameter_bridge.Avp.Dictionary.{AvpMap, get_by_code}
use rest_diameter_bridge.Base.{
  ℕ, zero, suc, none, some, Option, List, inl, inr, ltb, leb, Bool-cases, length, drop, ◌+◌, ◌≡◌,
  ◌≢◌,
}

-- The AVP has its bytes, as `Avp::new` and `decode` store them.
abbrev pub IsFlat : Avp → Type 0
IsFlat a = HasPayload panic (payload a)

new-IsFlat : (c f : ℕ) (v : Option ℕ) (d : List ℕ) → IsFlat (new c f v d)
unfolding new
new-IsFlat c f none d = tt
new-IsFlat c f (some w) d = tt

decode_body-IsFlat :
    (buffer : List ℕ) (h : Option Header) (a : Avp) → decode_body buffer h ≡ ok a → IsFlat a
unfolding decode_body
decode_body-IsFlat buffer none a e = absurd (cc e)
decode_body-IsFlat buffer (some (c, f, n, v)) a e = elim (Bool-cases (ltb (length buffer) n)) [
  | inl short ↦ absurd (cc (rw short at e))
  | inr long ↦ subst IsFlat (stored (rw long at e)) (new-IsFlat c f v d)
]
  where
    d : List ℕ
    d = slice (8 + vendor_length f) n buffer

    stored : ok (new c f v d) ≡ ok a → new c f v d ≡ a
    stored p = cc p

pub decode-IsFlat : (buffer : List ℕ) (a : Avp) → decode buffer ≡ ok a → IsFlat a
unfolding decode
decode-IsFlat buffer a e = decode_body-IsFlat buffer (decode_header buffer) a e

as_grouped-IsFlat : (a : Avp) → IsFlat a → Members IsFlat (as_grouped a)
unfolding as_grouped is_grouped
as_grouped-IsFlat (avp c f v (some d) s) h = elim (Bool-cases (leb 8 (length d))) [
  | inl big ↦ rw big (
      ignore_error-Decoded IsFlat (decode_avps (length d) d (length d) 0) (
        decode_avps-Decoded IsFlat (length d) d (length d) 0
          (λ from a e. decode-IsFlat (drop from d) a e)))
  | inr small ↦ rw small tt
]
as_grouped-IsFlat (avp c f v none s) h = elim h [ ]

name_value_on-IsFreeOf_panic :
    (k : Codecs) (m : AvpMap) (fuel : ℕ) (a : Avp)
    → IsFlat a
    → IsFreeOf panic (name_value_on k m fuel a)
unfolding name_value_on
name_value_on-IsFreeOf_panic k m zero a h = tt
name_value_on-IsFreeOf_panic k m (suc fuel) a h =
    described-IsFreeOf panic k (name_value_on k m fuel) (get_by_code (code a) m) a h
      (Members-map (as_grouped a) (name_value_on-IsFreeOf_panic k m fuel) (as_grouped-IsFlat a h))

pub avp_to_name_value-ne-panicked :
    (k : Codecs) (m : AvpMap) (a : Avp) → IsFlat a → avp_to_name_value k m a ≢ panicked
unfolding avp_to_name_value
avp_to_name_value-ne-panicked k m a h e =
    subst (IsFreeOf panic) e (name_value_on-IsFreeOf_panic k m (depth_bound a) a h)
