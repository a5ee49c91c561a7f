-- ===== src/Avp/Json/Tests.antt =====
-- The theorems about JSON at concrete values.
use mathlib.Core.Path.{subst}
use rest_diameter_bridge.Avp.Wire.{IsWf}
use rest_diameter_bridge.Avp.Codec.{
  as_grouped, decode, encode_subs, encode, header, ok, total_length, pad, sum_of_lengths,
}
use rest_diameter_bridge.Base.Text.{text, text_eq, is_utf8, string_from_utf8}
use rest_diameter_bridge.Avp.Dictionary.{get_by_name, get_by_code, add_all, add_json}
use rest_diameter_bridge.Avp.Json.{
  avp_to_name_value, converted, out_of_fuel, name_value_on, described, value_of, fill, depth_bound,
}
use rest_diameter_bridge.Avp.Json.Plain.{
  plain_codecs, plain_codecs-AreCodecs, small_map, info, host, tries,
}
use rest_diameter_bridge.Avp.Json.WellTyped.{IsWellTyped, FitsWire}
use rest_diameter_bridge.Avp.Json.RoundTrip.{avp_to_name_value-name_value_to_avp}
use rest_diameter_bridge.Avp.Json.Termination.{avp_to_name_value-ne-out_of_fuel}
use rest_diameter_bridge.Avp.Json.Read.{name_value_to_avp, avp_for, avp_of}
use rest_diameter_bridge.Avp.Defs.{
  Avp, avp, nil, cons, from_grouped, is_grouped, new, as_unsigned32, is_vendor_specific, sub_avps,
}
use rest_diameter_bridge.Base.Json.{
  Value, entry, no_entry, object, string, number, integer, text_lt, insert_entry,
}
use rest_diameter_bridge.Base.Int.{pos}
use rest_diameter_bridge.Base.{none, some, [], ◌∷◌, inl, ◌≡◌, refl, arith, length, sym, ◌≢◌, ◌++◌}

-- A group with two members.
abbrev proxy : Value
proxy = object (
    entry (text "Host") (string (text "ab.cd"))
      (entry (text "Tries") (number (integer (pos 7))) no_entry))

abbrev proxy_avp : Avp
proxy_avp = avp 284 0x40 none none (
    cons (avp 280 0x40 none (some (text "ab.cd")) nil)
      (cons (avp 33 0 none (some (0 ∷ 0 ∷ 0 ∷ 7 ∷ [])) nil) nil))

proxy_read : name_value_to_avp plain_codecs small_map (text "Info") proxy ≡ some proxy_avp
unfolding name_value_to_avp avp_for avp_of get_by_name add_all add_json text_eq from_grouped new
proxy_read = refl

proxy_shown : avp_to_name_value plain_codecs small_map proxy_avp ≡ converted (text "Info", proxy)
unfolding avp_to_name_value name_value_on described value_of fill as_grouped is_grouped depth_bound
    get_by_code add_all add_json as_unsigned32 string_from_utf8 is_utf8 insert_entry text_eq text_lt
proxy_shown = refl

proxy-IsWellTyped : IsWellTyped plain_codecs small_map (text "Info") proxy
unfolding get_by_name get_by_code add_all add_json text_eq text_lt is_utf8
proxy-IsWellTyped = (
  (info, (refl, refl, refl), refl),
  tt,
  ((refl, tt), (tt, tt)),
  (
    inl (host, (refl, refl, refl), (text "ab.cd", refl, refl)),
    (inl (tries, (refl, refl, refl), (7, omega arith, refl)), tt),
  ),
)

members_length : length (encode_subs (sub_avps proxy_avp)) ≡ 28
unfolding encode_subs encode header total_length pad sum_of_lengths is_vendor_specific
members_length = refl

proxy_avp-IsWf : IsWf proxy_avp
unfolding is_vendor_specific
proxy_avp-IsWf = (
  omega arith,
  omega arith,
  refl,
  omega (arith, members_length),
  (
    (omega arith, omega arith, refl, omega arith),
    ((omega arith, omega arith, refl, omega arith), tt),
  ),
)

avp_to_name_value-name_value_to_avp_example :
    (a : Avp) × (b : Avp) × (name_value_to_avp plain_codecs small_map (text "Info") proxy ≡ some a)
    × (decode (encode a ++ (1 ∷ [])) ≡ ok b)
    × (avp_to_name_value plain_codecs small_map b ≡ converted (text "Info", proxy))
avp_to_name_value-name_value_to_avp_example =
    avp_to_name_value-name_value_to_avp plain_codecs small_map (text "Info") proxy (1 ∷ [])
      plain_codecs-AreCodecs proxy-IsWellTyped (subst FitsWire (sym proxy_read) proxy_avp-IsWf)

avp_to_name_value-ne-out_of_fuel_example :
    avp_to_name_value plain_codecs small_map proxy_avp ≢ out_of_fuel
avp_to_name_value-ne-out_of_fuel_example =
    avp_to_name_value-ne-out_of_fuel plain_codecs small_map proxy_avp
