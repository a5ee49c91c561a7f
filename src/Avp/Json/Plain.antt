-- ===== src/Avp/Json/Plain.antt =====
-- Codecs that satisfy what is documented of the real ones, and a small dictionary, for tests.
use rest_diameter_bridge.Base.Text.{Text, text}
use rest_diameter_bridge.Avp.Scalars.{IsIpAddress}
use rest_diameter_bridge.Avp.Json.{Codecs, AreCodecs}
use rest_diameter_bridge.Avp.Defs.{IpAddress, v4, v6}
use rest_diameter_bridge.Avp.Dictionary.{
  AvpMap, AvpJson, new_avp_json, add_all, empty_avp_map, grouped, utf8_string, unsigned32,
}
use rest_diameter_bridge.Base.{
  Option, none, some, [], ◌∷◌, true, false, ◌==◌, if◌then◌else◌, ◌≡◌, refl,
}

abbrev print_plain : IpAddress → Text
print_plain (v4 octets) = 4 ∷ octets
print_plain (v6 octets) = 6 ∷ octets

abbrev parse_plain : Text → Option IpAddress
parse_plain [] = none
parse_plain (c ∷ octets) = if c == 4 then some (v4 octets) else some (v6 octets)

-- Every byte stands for itself.
abbrev pub plain_codecs : Codecs
plain_codecs = record {
  base64_encode = λ bytes. bytes;
  base64_decode = λ s. some s;
  print_address = print_plain;
  parse_address = parse_plain;
  f64_of_f32 = λ x. x;
  f32_of_f64 = λ x. x;
  f64_of_integer = λ i. 0;
}

print_parse : (ip : IpAddress) → IsIpAddress ip → parse_plain (print_plain ip) ≡ some ip
print_parse (v4 octets) h = refl
print_parse (v6 octets) h = refl

pub plain_codecs-AreCodecs : AreCodecs plain_codecs
plain_codecs-AreCodecs = record {
  base64 = λ bytes h. refl;
  addresses = print_parse;
  exact = λ x h f. refl;
}

abbrev pub info : AvpJson
info = new_avp_json (text "Info") 284 grouped true none

abbrev pub host : AvpJson
host = new_avp_json (text "Host") 280 utf8_string true none

abbrev pub tries : AvpJson
tries = new_avp_json (text "Tries") 33 unsigned32 false none

abbrev pub small_map : AvpMap
small_map = add_all (info ∷ host ∷ tries ∷ []) empty_avp_map
