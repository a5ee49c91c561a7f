-- ===== src/Avp/Json/Typed.antt =====
-- JSON values that fit an AVP type, and that they come back from the wire.
use rest_diameter_bridge.Avp.Scalars.{
  IsIpAddress, u64_be_round, payload-new, as_address-from_address, as_time-from_time,
}
use rest_diameter_bridge.Avp.Wire.{wire, body}
use rest_diameter_bridge.Base.Text.{Text, is_utf8, string_from_utf8-some}
use rest_diameter_bridge.Base.Bytes.{
  IsByte, u32, IsU32, u32_to_be_bytes, u64_to_be_bytes, u32_be_round, u16_to_be_bytes,
}
use rest_diameter_bridge.Avp.Json.Read.{avp_of, new_for, flags_of_json, bytes_or_text}
use rest_diameter_bridge.Avp.Json.{
  Codecs, AreCodecs, Converted, converted, value_of, utf8_value, is_finite32, is_finite64,
  value_from_signed, value_from_unsigned, value_from_f64, value_from_f32, or_refuse,
}
use rest_diameter_bridge.Avp.Defs.{
  Avp, v4, v6, code, payload, IpAddress, map_option, new, read_u32, read_u64, as_integer32,
  as_integer64, as_unsigned32, as_unsigned64, as_address, as_time, from_address, from_time,
  from_unsigned32, ntp_offset,
}
use rest_diameter_bridge.Avp.Dictionary.{
  AvpJson, AvpType, address, enumerated, octet_string, time, utf8_string, diameter_identity,
  diameter_uri, ip_filter_rule, integer32, unsigned32, integer64, unsigned64, float32, float64,
  grouped,
}
use rest_diameter_bridge.Base.Json.{Value, string, number, integer, float, number_as_i64}
use rest_diameter_bridge.Base.Int.{
  ℤ, pos, negsuc, IsI32, IsI64, from_word, to_word, i32_word, i64_word,
}
use rest_diameter_bridge.Base.{
  ℕ, none, some, Option, List, true, lt→ltb, All, ◌^◌, ◌<◌, ◌≡◌, refl, ap, ◌∙◌, arith, ◌+◌, sym,
  ◌++◌,
}

abbrev IsText : Value → Type 0
IsText v = (s : Text) × (is_utf8 s ≡ true) × (v ≡ string s)

-- The value is one that an AVP of the type can carry; a group is none of these.
abbrev pub Carries : Codecs → AvpType → Value → Type 0
Carries k octet_string v = (b : List ℕ) × All IsByte b × (v ≡ string (k.base64_encode b))
Carries k address v = (ip : IpAddress) × IsIpAddress ip × (v ≡ string (k.print_address ip))
Carries k time v = (n : ℕ) × IsU32 n × (v ≡ number (integer (pos n)))
Carries k utf8_string v = IsText v
Carries k diameter_identity v = IsText v
Carries k diameter_uri v = IsText v
Carries k ip_filter_rule v = IsText v
Carries k integer32 v = (i : ℤ) × IsI32 i × (v ≡ number (integer i))
Carries k enumerated v = (i : ℤ) × IsI32 i × (v ≡ number (integer i))
Carries k unsigned32 v = (n : ℕ) × IsU32 n × (v ≡ number (integer (pos n)))
Carries k integer64 v = (i : ℤ) × IsI64 i × (v ≡ number (integer i))
Carries k unsigned64 v = (n : ℕ) × (n < 2 ^ 64) × (v ≡ number (integer (pos n)))
Carries k float32 v =
    (x : ℕ) × IsU32 x × (is_finite32 x ≡ true) × (v ≡ number (float (k.f64_of_f32 x)))
Carries k float64 v = (x : ℕ) × (x < 2 ^ 64) × (is_finite64 x ≡ true) × (v ≡ number (float x))
Carries k grouped v = ⊥

-- The AVP built for a value shows the same value behind the wire.
abbrev pub Returns : Codecs → AvpJson → AvpType → Value → Option Avp → Type 0
Returns k d t v r =
    (a : Avp) × (r ≡ some a)
    × (code (wire a) ≡ d.code)
    × ((convert : Avp → Converted (Text × Value)) → value_of k convert t (wire a) ≡ converted v)

payload-wire-new : (c f : ℕ) (v : Option ℕ) (d : List ℕ) → payload (wire (new c f v d)) ≡ some d
unfolding wire new body
payload-wire-new c f none d = refl
payload-wire-new c f (some w) d = refl

code-wire-new : (c f : ℕ) (v : Option ℕ) (d : List ℕ) → code (wire (new c f v d)) ≡ c
unfolding wire new
code-wire-new c f none d = refl
code-wire-new c f (some w) d = refl

low_word : (i : ℤ) → IsI32 i → u32 (to_word 64 i) ≡ to_word 32 i
low_word (pos n) h = omega arith
low_word (negsuc n) h = omega arith

number_as_i64-some : (i : ℤ) → IsI64 i → number_as_i64 (integer i) ≡ some i
number_as_i64-some (pos n) h = rw (lt→ltb n (2 ^ 63) h) refl
number_as_i64-some (negsuc n) h = refl

I64-I32 : (i : ℤ) → IsI32 i → IsI64 i
I64-I32 (pos n) h = omega (arith, h)
I64-I32 (negsuc n) h = omega (arith, h)

abbrev kept : AvpJson → List ℕ → Avp
kept d bytes = wire (new_for d bytes)

read_i32 :
    (i : ℤ)
    → IsI32 i
    → map_option (from_word 32 31) (read_u32 (u32_to_be_bytes (u32 (to_word 64 i)))) ≡ some i
read_i32 i h =
    let w = i32_word i h in rw (low_word i h) (ap some (rw (u32_be_round (to_word 32 i) w.0) w.1))

read_unsigned32 : (n : ℕ) → IsU32 n → read_u32 (u32_to_be_bytes (u32 n)) ≡ some n
read_unsigned32 n h =
    ap (λ m. read_u32 (u32_to_be_bytes m)) (omega arith) ∙ ap some (u32_be_round n h)

read_i64 :
    (i : ℤ)
    → IsI64 i
    → map_option (from_word 64 63) (read_u64 (u64_to_be_bytes (to_word 64 i))) ≡ some i
read_i64 i h =
    let w = i64_word i h in
    ap (map_option (from_word 64 63)) (u64_be_round (to_word 64 i) w.0) ∙ ap some w.1

as_time-wire : (a : Avp) → payload (wire a) ≡ payload a → as_time (wire a) ≡ as_time a
unfolding as_time
as_time-wire a e = rw e refl

as_address-wire : (a : Avp) → payload (wire a) ≡ payload a → as_address (wire a) ≡ as_address a
unfolding as_address
as_address-wire a e = rw e refl

same_payload : (d : AvpJson) (bytes : List ℕ) → payload (kept d bytes) ≡ payload (new_for d bytes)
same_payload d bytes =
    payload-wire-new d.code (flags_of_json d) d.vendor_id bytes
    ∙ sym (payload-new d.code (flags_of_json d) d.vendor_id bytes)

module _ (k : Codecs) (d : AvpJson) where
  -- A value whose AVP is built from bytes.
  leaf :
      (t : AvpType) (v : Value) (bytes : List ℕ)
      → avp_of k d t none v ≡ some (new_for d bytes)
      → ((convert : Avp → Converted (Text × Value))
          → value_of k convert t (kept d bytes) ≡ converted v)
      → Returns k d t v (avp_of k d t none v)
  leaf t v bytes e h =
      (new_for d bytes, e, code-wire-new d.code (flags_of_json d) d.vendor_id bytes, h)

  bytes_kept : (bytes : List ℕ) → payload (kept d bytes) ≡ some bytes
  bytes_kept bytes = payload-wire-new d.code (flags_of_json d) d.vendor_id bytes

  utf8_kept : (s : Text) → is_utf8 s ≡ true → utf8_value (payload (kept d s)) ≡ converted (string s)
  utf8_kept s u = rw (bytes_kept s) (rw (string_from_utf8-some s u) refl)

module _ (k : Codecs) (laws : AreCodecs k) (d : AvpJson) where
  time_Returns :
      (n : ℕ)
      → IsU32 n
      → Returns k d time
          (number (integer (pos n)))
          (avp_of k d time none (number (integer (pos n))))
  unfolding avp_of value_of from_time from_unsigned32
  time_Returns n h =
      leaf k d time (number (integer (pos n))) (u32_to_be_bytes (u32 (ntp_offset + u32 n))) refl
        (λ c.
          ap (λ o. or_refuse (map_option (λ t. number (integer (pos t))) o))
            (as_time-wire (from_time d.code (flags_of_json d) d.vendor_id (u32 n))
                (same_payload d _)
              ∙ as_time-from_time d.code (flags_of_json d) d.vendor_id (u32 n) (omega arith)
              ∙ ap some (omega arith)))

  shown_address :
      (ip : IpAddress) (bytes : List ℕ)
      → IsIpAddress ip
      → from_address d.code (flags_of_json d) d.vendor_id (some ip) ≡ new_for d bytes
      → Returns k d address
          (string (k.print_address ip))
          (avp_of k d address none (string (k.print_address ip)))
  unfolding avp_of value_of
  shown_address ip bytes h e =
      leaf k d address (string (k.print_address ip)) bytes
        (ap (λ o. some (from_address d.code (flags_of_json d) d.vendor_id o)) (laws.addresses ip h)
          ∙ ap some e)
        (λ c.
          ap (λ o. or_refuse (map_option (λ x. string (k.print_address x)) o))
            (as_address-wire (new_for d bytes) (same_payload d bytes)
              ∙ ap as_address (sym e)
              ∙ as_address-from_address d.code (flags_of_json d) d.vendor_id ip h))

  address_Returns :
      (ip : IpAddress)
      → IsIpAddress ip
      → Returns k d address
          (string (k.print_address ip))
          (avp_of k d address none (string (k.print_address ip)))
  unfolding from_address
  address_Returns (v4 octets) h = shown_address (v4 octets) (u16_to_be_bytes 1 ++ octets) h refl
  address_Returns (v6 octets) h = shown_address (v6 octets) (u16_to_be_bytes 2 ++ octets) h refl

  -- A value that a type carries comes back from the wire.
  pub Carries-Returns :
      (t : AvpType) (v : Value) → Carries k t v → Returns k d t v (avp_of k d t none v)
  unfolding avp_of value_of as_integer32 as_integer64 as_unsigned32 as_unsigned64
  Carries-Returns octet_string v (b, h, e) = rw e (
      leaf k d octet_string (string (k.base64_encode b)) b
        (ap (λ o. some (new_for d (bytes_or_text o (k.base64_encode b)))) (laws.base64 b h))
        (λ c. rw (bytes_kept k d b) refl))
  Carries-Returns address v (ip, h, e) = rw e (address_Returns ip h)
  Carries-Returns time v (n, h, e) = rw e (time_Returns n h)
  Carries-Returns utf8_string v (s, u, e) =
      rw e (leaf k d utf8_string (string s) s refl (λ c. utf8_kept k d s u))
  Carries-Returns diameter_identity v (s, u, e) =
      rw e (leaf k d diameter_identity (string s) s refl (λ c. utf8_kept k d s u))
  Carries-Returns diameter_uri v (s, u, e) =
      rw e (leaf k d diameter_uri (string s) s refl (λ c. utf8_kept k d s u))
  Carries-Returns ip_filter_rule v (s, u, e) =
      rw e (leaf k d ip_filter_rule (string s) s refl (λ c. utf8_kept k d s u))
  Carries-Returns integer32 v (i, h, e) = rw e (
      leaf k d integer32 (number (integer i)) (u32_to_be_bytes (u32 (to_word 64 i)))
        (ap (map_option (λ j. new_for d (u32_to_be_bytes (u32 (to_word 64 j)))))
          (number_as_i64-some i (I64-I32 i h)))
        (λ c.
          rw (bytes_kept k d (u32_to_be_bytes (u32 (to_word 64 i))))
            (ap (λ o. converted (value_from_signed o)) (read_i32 i h))))
  Carries-Returns enumerated v (i, h, e) = rw e (
      leaf k d enumerated (number (integer i)) (u32_to_be_bytes (u32 (to_word 64 i)))
        (ap (map_option (λ j. new_for d (u32_to_be_bytes (u32 (to_word 64 j)))))
          (number_as_i64-some i (I64-I32 i h)))
        (λ c.
          rw (bytes_kept k d (u32_to_be_bytes (u32 (to_word 64 i))))
            (ap (λ o. converted (value_from_signed o)) (read_i32 i h))))
  Carries-Returns unsigned32 v (n, h, e) = rw e (
      leaf k d unsigned32 (number (integer (pos n))) (u32_to_be_bytes (u32 n)) refl (λ c.
        rw (bytes_kept k d (u32_to_be_bytes (u32 n)))
          (ap (λ o. converted (value_from_unsigned o)) (read_unsigned32 n h))))
  Carries-Returns integer64 v (i, h, e) = rw e (
      leaf k d integer64 (number (integer i)) (u64_to_be_bytes (to_word 64 i))
        (ap (map_option (λ j. new_for d (u64_to_be_bytes (to_word 64 j)))) (number_as_i64-some i h))
        (λ c.
          rw (bytes_kept k d (u64_to_be_bytes (to_word 64 i)))
            (ap (λ o. converted (value_from_signed o)) (read_i64 i h))))
  Carries-Returns unsigned64 v (n, h, e) = rw e (
      leaf k d unsigned64 (number (integer (pos n))) (u64_to_be_bytes n) refl (λ c.
        rw (bytes_kept k d (u64_to_be_bytes n))
          (ap (λ o. converted (value_from_unsigned o)) (u64_be_round n h))))
  Carries-Returns float32 v (x, h, fin, e) = rw e (
      leaf k d float32 (number (float (k.f64_of_f32 x))) (u32_to_be_bytes x)
        (ap (λ y. some (new_for d (u32_to_be_bytes y))) (laws.exact x h fin))
        (λ c.
          rw (bytes_kept k d (u32_to_be_bytes x))
            (ap (λ o. converted (value_from_f32 k o)) (ap some (u32_be_round x h)) ∙ rw fin refl)))
  Carries-Returns float64 v (x, h, fin, e) = rw e (
      leaf k d float64 (number (float x)) (u64_to_be_bytes x) refl (λ c.
        rw (bytes_kept k d (u64_to_be_bytes x))
          (ap (λ o. converted (value_from_f64 o)) (u64_be_round x h) ∙ rw fin refl)))
  Carries-Returns grouped v h = elim h [ ]
