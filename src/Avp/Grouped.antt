-- ===== src/Avp/Grouped.antt =====
-- `Avp::from_grouped` sets the mandatory bit, and not the bit that announces a vendor id.
use rest_diameter_bridge.Avp.RoundTrip.{decode-encode}
use rest_diameter_bridge.Avp.Codec.{decode, encode, ok, encode_subs}
use rest_diameter_bridge.Base.Bits.{set_mandatory_bit, top_bit}
use rest_diameter_bridge.Avp.Wire.{wire, body, IsWf}
use Prim.Native.Nat.{bit_or}
use rest_diameter_bridge.Avp.Defs.{from_grouped, is_vendor_specific, Avps, avp, nil}
use rest_diameter_bridge.Base.{
  ℕ, ◌+◌, ◌*◌, ◌/◌, ◌%◌, ◌<◌, ◌≡◌, ◌∙◌, false, Option, none, some, List, ◌++◌, arith,
}

keeps_vendor_bit_clear : (f : ℕ) → f < 128 → is_vendor_specific (bit_or f 0x40) ≡ false
unfolding is_vendor_specific
keeps_vendor_bit_clear f h =
    rw (set_mandatory_bit f (omega arith))
      (rw (top_bit (f / 128 * 128 + 64 + f % 64) (omega arith)) (ground arith))

-- If the flags given to from_grouped have no vendor bit, a well-formed group that it builds is
-- decoded without a vendor id, whatever vendor id it was given.
pub decode-from_grouped :
    (c f : ℕ) (v : Option ℕ) (s : Avps) (rest : List ℕ)
    → f < 128
    → IsWf (from_grouped c f v s)
    → decode (encode (from_grouped c f v s) ++ rest)
      ≡ ok (avp c (bit_or f 0x40) none (some (encode_subs s)) nil)
unfolding from_grouped wire body
decode-from_grouped c f v s rest h w =
    decode-encode (from_grouped c f v s) rest w ∙ rw (keeps_vendor_bit_clear f h)
