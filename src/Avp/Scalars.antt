-- ===== src/Avp/Scalars.antt =====
-- The scalar views of an AVP read back what was stored.
use rest_diameter_bridge.Base.Int.{ℤ, IsI32, IsI64, i32_word, i64_word, to_word, from_word}
use rest_diameter_bridge.Base.Text.{Text, is_utf8, string_from_utf8-some}
use rest_diameter_bridge.Base.Bytes.{
  u64_to_be_bytes, IsU32, u16_to_be_bytes, u32_be_round, u32_to_be_bytes, u32,
}
use rest_diameter_bridge.Avp.Defs.{
  Avp, IpAddress, as_address, as_integer32, as_integer64, as_time, as_unsigned32, as_unsigned64,
  as_utf8_string, new, read_u64, code, from_address, from_time, payload, set_integer32,
  set_integer64, set_unsigned32, set_unsigned64, set_utf8_string, v4, avp, from_unsigned32,
  set_payload, v6, flags, vendor_id, map_option, ntp_offset,
}
use rest_diameter_bridge.Base.{
  length, ℕ, ◌+◌, ◌/◌, ◌%◌, ◌^◌, ◌<◌, ◌≡◌, refl, ap, ◌∙◌, true, Option, none, some, List, ◌++◌,
  arith,
}

pub as_unsigned32-set_unsigned32 :
    (a : Avp) (value : ℕ) → IsU32 value → as_unsigned32 (set_unsigned32 a value) ≡ some value
unfolding as_unsigned32 set_unsigned32
as_unsigned32-set_unsigned32 (avp c f v d s) value h = ap some (u32_be_round value h)

-- A 32-bit signed integer that was set in an AVP is read back.
pub as_integer32-set_integer32 :
    (a : Avp) (value : ℤ) → IsI32 value → as_integer32 (set_integer32 a value) ≡ some value
unfolding as_integer32 set_integer32
as_integer32-set_integer32 (avp c f v d s) value h =
    let w = i32_word value h in ap some (rw (u32_be_round (to_word 32 value) w.0) w.1)

pub u64_be_round : (v : ℕ) → v < 2 ^ 64 → read_u64 (u64_to_be_bytes v) ≡ some v
u64_be_round v h = ap some (
    rw (u32_be_round (v / 2 ^ 32 % 2 ^ 32) (omega arith), u32_be_round (v % 2 ^ 32) (omega arith))
      (omega arith))

pub as_unsigned64-set_unsigned64 :
    (a : Avp) (value : ℕ) → value < 2 ^ 64 → as_unsigned64 (set_unsigned64 a value) ≡ some value
unfolding as_unsigned64 set_unsigned64
as_unsigned64-set_unsigned64 (avp c f v d s) value h = u64_be_round value h

-- A 64-bit signed integer that was set in an AVP is read back.
pub as_integer64-set_integer64 :
    (a : Avp) (value : ℤ) → IsI64 value → as_integer64 (set_integer64 a value) ≡ some value
unfolding as_integer64 set_integer64
as_integer64-set_integer64 (avp c f v d s) value h =
    let w = i64_word value h in
    ap (map_option (from_word 64 63)) (u64_be_round (to_word 64 value) w.0) ∙ ap some w.1

pub as_utf8_string-set_utf8_string :
    (a : Avp) (value : Text)
    → is_utf8 value ≡ true
    → as_utf8_string (set_utf8_string a value) ≡ some value
unfolding as_utf8_string set_utf8_string
as_utf8_string-set_utf8_string (avp c f v d s) value h = string_from_utf8-some value h

pub payload-new : (c f : ℕ) (v : Option ℕ) (d : List ℕ) → payload (new c f v d) ≡ some d
unfolding new
payload-new c f none d = refl
payload-new c f (some w) d = refl

pub code-new : (c f : ℕ) (v : Option ℕ) (d : List ℕ) → code (new c f v d) ≡ c
unfolding new
code-new c f none d = refl
code-new c f (some w) d = refl

-- A 32-bit time is read back from the AVP that from_time builds, also where the shift to the year
-- 1900 wraps.
pub as_time-from_time :
    (c f : ℕ) (v : Option ℕ) (time : ℕ) → IsU32 time → as_time (from_time c f v time) ≡ some time
unfolding as_time from_time from_unsigned32
as_time-from_time c f v time h =
    rw (payload-new c f v (u32_to_be_bytes (u32 (ntp_offset + time))))
      (ap some (rw (u32_be_round (u32 (ntp_offset + time)) (omega arith)) (omega arith)))

-- An address has four bytes or sixteen.
abbrev pub IsIpAddress : IpAddress → Type 0
IsIpAddress (v4 octets) = length octets ≡ 4
IsIpAddress (v6 octets) = length octets ≡ 16

-- An IPv4 address of four octets or an IPv6 address of sixteen is read back from the AVP that
-- from_address builds.
pub as_address-from_address :
    (c f : ℕ) (v : Option ℕ) (ip : IpAddress)
    → IsIpAddress ip
    → as_address (from_address c f v (some ip)) ≡ some ip
unfolding as_address from_address
as_address-from_address c f v (v4 octets) h =
    rw (payload-new c f v (u16_to_be_bytes 1 ++ octets)) (rw h)
as_address-from_address c f v (v6 octets) h =
    rw (payload-new c f v (u16_to_be_bytes 2 ++ octets)) (rw h)

-- Storing a value changes nothing else.
pub set_payload_keeps :
    (a : Avp) (bytes : List ℕ)
    → (code (set_payload a bytes) ≡ code a)
      × (flags (set_payload a bytes) ≡ flags a)
      × (vendor_id (set_payload a bytes) ≡ vendor_id a)
set_payload_keeps (avp c f v d s) bytes = (refl, refl, refl)
