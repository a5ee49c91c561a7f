-- ===== src/Avp/Tests.antt =====
-- The theorems about AVPs at concrete AVPs and bytes.
use rest_diameter_bridge.Avp.Lengths.{length-encode}
use rest_diameter_bridge.Avp.Grouped.{decode-from_grouped}
use rest_diameter_bridge.Avp.RoundTrip.{as_grouped-wire, decode-encode}
use rest_diameter_bridge.Avp.Codec.{
  as_grouped, decode, encode, encode_subs, ok, total_length_including_padding, decode_header,
  vendor_length, decode_body, header, header_of, total_length, pad, sum_of_lengths,
}
use rest_diameter_bridge.Avp.Wire.{IsWf, wire}
use rest_diameter_bridge.Base.Bytes.{IsByte, are_bytes-IsByte}
use rest_diameter_bridge.Avp.Bounds.{Accepted, decode-Accepted}
use rest_diameter_bridge.Avp.Defs.{Avp, avp, nil, cons, from_grouped, is_vendor_specific, new}
use rest_diameter_bridge.Avp.Dictionary.{unsigned32, AvpJson, new_avp_json}
use Prim.Native.Nat.{bit_or}
use rest_diameter_bridge.Base.{
  [], ◌∷◌, some, none, true, length, All, map, ℕ, ◌%◌, ◌≡◌, refl, List, ◌++◌, arith, ◌+◌, ◌^◌, ◌<◌,
}
use rest_diameter_bridge.Base.Text.{text}

abbrev host_avp : Avp
host_avp = avp 264 0x40 none (some (text "ab.cd")) nil

abbrev vendor_avp : Avp
vendor_avp = avp 1 0xc0 (some 10415) (some (7 ∷ 8 ∷ [])) nil

host_avp-IsWf : IsWf host_avp
unfolding is_vendor_specific
host_avp-IsWf = (omega arith, omega arith, refl, omega arith)

vendor_avp-IsWf : IsWf vendor_avp
unfolding is_vendor_specific
vendor_avp-IsWf = (omega arith, omega arith, omega arith, omega arith)

abbrev group : Avp
group = avp 284 0x40 none none (cons host_avp (cons vendor_avp nil))

group_length :
    8 + vendor_length 0x40 + length (encode_subs (cons host_avp (cons vendor_avp nil))) ≡ 40
unfolding encode_subs encode header total_length pad sum_of_lengths is_vendor_specific
group_length = refl

group_fits :
    8 + vendor_length 0x40 + length (encode_subs (cons host_avp (cons vendor_avp nil))) < 2 ^ 24
group_fits = omega (arith, group_length)

group-IsWf : IsWf group
unfolding is_vendor_specific
group-IsWf = (omega arith, omega arith, refl, group_fits, (host_avp-IsWf, (vendor_avp-IsWf, tt)))

decode-encode_example : decode (encode vendor_avp ++ (1 ∷ 2 ∷ [])) ≡ ok (wire vendor_avp)
decode-encode_example = decode-encode vendor_avp (1 ∷ 2 ∷ []) vendor_avp-IsWf

length-encode_example :
    (length (encode group) ≡ total_length_including_padding group) × (length (encode group) % 4 ≡ 0)
length-encode_example = length-encode group group-IsWf

as_grouped-wire_example : as_grouped (wire group) ≡ some (map wire (host_avp ∷ vendor_avp ∷ []))
as_grouped-wire_example = as_grouped-wire 284 0x40 none host_avp (cons vendor_avp nil) group-IsWf

abbrev frame_bytes : List ℕ
frame_bytes = 0 ∷ 0 ∷ 1 ∷ 8 ∷ 0x40 ∷ 0 ∷ 0 ∷ 10 ∷ 97 ∷ 98 ∷ 0 ∷ 0 ∷ []

abbrev framed : Avp
framed = avp 264 0x40 none (some (text "ab")) nil

frame_bytes-IsByte : All IsByte frame_bytes
frame_bytes-IsByte = are_bytes-IsByte frame_bytes refl

frame_decoded : decode frame_bytes ≡ ok framed
unfolding decode decode_header decode_body header_of is_vendor_specific new
frame_decoded = refl

decode-Accepted_example : Accepted frame_bytes framed
decode-Accepted_example = decode-Accepted frame_bytes framed frame_bytes-IsByte frame_decoded

abbrev vendor_group : Avp
vendor_group = from_grouped 873 0 (some 10415) (cons host_avp nil)

vendor_group_length : 8 + vendor_length 0x40 + length (encode_subs (cons host_avp nil)) ≡ 24
unfolding encode_subs encode header total_length pad sum_of_lengths is_vendor_specific
vendor_group_length = refl

vendor_group_fits : 8 + vendor_length 0x40 + length (encode_subs (cons host_avp nil)) < 2 ^ 24
vendor_group_fits = omega (arith, vendor_group_length)

vendor_group-IsWf : IsWf vendor_group
unfolding from_grouped is_vendor_specific
vendor_group-IsWf = (omega arith, omega arith, omega arith, vendor_group_fits, (host_avp-IsWf, tt))

decode-from_grouped_example :
    decode (encode vendor_group ++ [])
    ≡ ok (avp 873 (bit_or 0 0x40) none (some (encode_subs (cons host_avp nil))) nil)
decode-from_grouped_example =
    decode-from_grouped 873 0 (some 10415) (cons host_avp nil) [] (omega arith) vendor_group-IsWf

abbrev acct_interim_interval_json : AvpJson
acct_interim_interval_json = new_avp_json (text "Acct-Interim-Interval") 85 unsigned32 true none
