-- ===== src/Avp/Json/Groups.antt =====
-- Leaves and groups show their values behind the wire.
use Prim.Native.Nat.{bit_or}
use rest_diameter_bridge.Avp.RoundTrip.{decode-encode, as_grouped-wire}
use rest_diameter_bridge.Avp.Codec.{encode, encode_subs, pad}
use rest_diameter_bridge.Base.Decimal.{to_decimal, parse_u32-to_decimal}
use rest_diameter_bridge.Avp.Json.Depth.{one-le-depth_bound, depth_bound-decode}
use rest_diameter_bridge.Avp.Wire.{IsWf, wire, AreWf, body, length-pad}
use rest_diameter_bridge.Base.Bytes.{IsU32, IsByte}
use rest_diameter_bridge.Base.Json.Objects.{
  IsSorted, append_entries, Before, insert_entry-AllBelow, Before-append, append_entries_assoc,
  Before-no_entry,
}
use rest_diameter_bridge.Base.Text.{Text, text, text_eq}
use rest_diameter_bridge.Avp.Json.WellTyped.{IsLeaf, HasMember, Describes}
use rest_diameter_bridge.Avp.Json.Read.{avp_for, unnamed_avp, strip_avp_prefix, flags_of_json}
use rest_diameter_bridge.Avp.Json.{
  Codecs, AreCodecs, Converted, converted, name_value_on, fill, described, depth_bound, named,
  value_of, group_value, map_converted,
}
use rest_diameter_bridge.Avp.Json.Typed.{Returns, Carries-Returns}
use rest_diameter_bridge.Avp.Defs.{Avp, Avps, nil, cons, new, from_grouped, to_list}
use rest_diameter_bridge.Avp.Dictionary.{AvpMap, AvpJson, grouped, get_by_name, get_by_code}
use rest_diameter_bridge.Base.Json.{Value, Entries, no_entry, entry, string, object, insert_entry}
use rest_diameter_bridge.Base.{
  ℕ, zero, suc, none, some, Option, List, [], ◌∷◌, inl, inr, All, ◌≤◌, ◌≡◌, ap, ◌∙◌, ◌++◌, arith,
  length, length-append, map, ◌+◌, refl, sym, append-nil,
}

-- With enough fuel, the AVP shows the name and the value behind the wire.
abbrev pub Shows : Codecs → AvpMap → Text → Value → Avp → Type 0
Shows k m name v a =
    (fuel : ℕ)
    → IsWf a
    → depth_bound (wire a) ≤ fuel
    → name_value_on k m fuel (wire a) ≡ converted (name, v)

abbrev pub Show : Codecs → AvpMap → Entries → Avps → Type 0
Show k m no_entry nil = Unit
Show k m no_entry (cons a s) = ⊥
Show k m (entry name v es) nil = ⊥
Show k m (entry name v es) (cons a s) = Shows k m name v a × Show k m es s

depth_bound-wire : (a : Avp) → IsWf a → depth_bound (wire a) + 7 ≤ length (encode a)
depth_bound-wire a w = omega (
  arith,
  depth_bound-decode (encode a ++ []) (wire a) (decode-encode a [] w),
  ap length (append-nil (encode a)),
)

fill-converted :
    (convert : Avp → Converted (Text × Value)) (a : Avp) (rest : List Avp) (es : Entries)
    (name : Text) (v : Value)
    → convert a ≡ converted (name, v)
    → fill convert (a ∷ rest) es ≡ fill convert rest (insert_entry name v es)
unfolding fill
fill-converted convert a rest es name v e = rw (e, fill) refl

append_entries-no_entry : (es : Entries) → append_entries es no_entry ≡ es
append_entries-no_entry no_entry = refl
append_entries-no_entry (entry k v es) = ap (entry k v) (append_entries-no_entry es)

module _ (k : Codecs) (laws : AreCodecs k) (m : AvpMap) where
  described-Shows :
      (name : Text) (v : Value) (d : AvpJson) (r : Option Avp)
      → Describes m name d
      → Returns k d d.avp_type v r
      → (a : Avp) × (r ≡ some a) × Shows k m name v a
  unfolding name_value_on described
  described-Shows name v d r h (a, e, c, s) = (a, e, shows)
    where
      shows : Shows k m name v a
      shows zero w le = absurd (omega (arith, le, one-le-depth_bound (wire a)))
      shows (suc fuel) w le =
          rw (c, h.1)
            (ap (named d.name) (s (name_value_on k m fuel)) ∙ ap (λ n. converted (n, v)) h.2)

  unnamed-Shows :
      (c : ℕ) (bytes : List ℕ)
      → get_by_code c m ≡ none
      → Shows k m
          (text "AVP-" ++ to_decimal c)
          (string (k.base64_encode bytes))
          (new c 0 none bytes)
  unfolding name_value_on described new wire body
  unnamed-Shows c bytes e zero w le =
      absurd (omega (arith, le, one-le-depth_bound (wire (new c 0 none bytes))))
  unnamed-Shows c bytes e (suc fuel) w le = rw e refl

  unnamed_avp_lem :
      (c : ℕ) (bytes : List ℕ)
      → IsU32 c
      → All IsByte bytes
      → unnamed_avp k (text "AVP-" ++ to_decimal c) (string (k.base64_encode bytes))
        ≡ some (new c 0 none bytes)
  unfolding unnamed_avp strip_avp_prefix text_eq
  unnamed_avp_lem c bytes hc hb = rw (parse_u32-to_decimal c hc) (rw (laws.base64 bytes hb) refl)

  pub avp_for-leaf :
      (name : Text) (v : Value)
      → IsLeaf k m name v
      → (a : Avp) × (avp_for k (get_by_name name m) name none v ≡ some a) × Shows k m name v a
  unfolding avp_for
  avp_for-leaf name v (inl (d, h, c)) =
      rw h.0 (described-Shows name v d _ h (Carries-Returns k laws d d.avp_type v c))
  avp_for-leaf name v (inr (c, bytes, hc, hb, e, n, en, ev)) =
      rw n
        (rw (en, ev) (new c 0 none bytes, unnamed_avp_lem c bytes hc hb, unnamed-Shows c bytes e))

  -- The members of a group that was read are put back in their order.
  fill-Show :
      (es done : Entries) (s : Avps) (fuel : ℕ)
      → Show k m es s
      → AreWf s
      → length (encode_subs s) ≤ fuel
      → Before done es
      → IsSorted es
      → fill (name_value_on k m fuel) (map wire (to_list s)) done
        ≡ converted (append_entries done es)
  unfolding fill encode_subs
  fill-Show no_entry done nil fuel h w le b o = ap converted (sym (append_entries-no_entry done))
  fill-Show no_entry done (cons a s) fuel h w le b o = elim h [ ]
  fill-Show (entry name v es) done nil fuel h w le b o = elim h [ ]
  fill-Show (entry name v es) done (cons a s) fuel h w le b o =
      let padded = length-append (pad (encode a)) (encode_subs s) in
      fill-converted (name_value_on k m fuel) (wire a) (map wire (to_list s)) done name v
        (h.0 fuel w.0 (omega (arith, le, depth_bound-wire a w.0, padded, length-pad (encode a))))
      ∙ ap (fill (name_value_on k m fuel) (map wire (to_list s)))
          (insert_entry-AllBelow done name v b.0)
      ∙ fill-Show es (append_entries done (entry name v no_entry)) s fuel h.1 w.1
          (omega (arith, le, padded)) (Before-append done es name v b.1 o.0) o.1
      ∙ ap converted (append_entries_assoc done (entry name v no_entry) es)

  pub group-Shows :
      (name : Text) (d : AvpJson) (es : Entries) (s : Avps)
      → Describes m name d
      → d.avp_type ≡ grouped
      → HasMember es
      → IsSorted es
      → Show k m es s
      → Shows k m name (object es) (from_grouped d.code (flags_of_json d) d.vendor_id s)
  unfolding name_value_on described value_of from_grouped wire body depth_bound
  group-Shows name d no_entry s hd t hm o h fuel w le = elim hm [ ]
  group-Shows name d (entry n v es) nil hd t hm o h fuel w le = elim h [ ]
  group-Shows name d (entry n v es) (cons a s) hd t hm o h zero w le = absurd (
      omega (
        arith,
        le,
        one-le-depth_bound (wire (from_grouped d.code (flags_of_json d) d.vendor_id (cons a s))),
      ))
  group-Shows name d (entry n v es) (cons a s) hd t hm o h (suc fuel) w le =
      let convert = name_value_on k m fuel in
      ap
        (λ o'.
          described k convert o'
            (wire (from_grouped d.code (flags_of_json d) d.vendor_id (cons a s))))
        hd.1
      ∙ ap
          (λ u. named d.name (
            value_of k convert u
              (wire (from_grouped d.code (flags_of_json d) d.vendor_id (cons a s)))))
          t
      ∙ ap (λ u. named d.name (group_value convert u))
          (as_grouped-wire d.code (bit_or (flags_of_json d) 0x40) d.vendor_id a s w)
      ∙ ap (λ u. named d.name (map_converted object u))
          (fill-Show (entry n v es) no_entry (cons a s) fuel h w.4 (omega (arith, le))
            (Before-no_entry (entry n v es)) o)
      ∙ ap (λ u. converted (u, object (entry n v es))) hd.2
