-- ===== src/Avp/Wire.antt =====
-- What an AVP is on the wire: well-formed AVPs, their length, and one header with its body.
use Prim.Native.Nat.{bit_and, bit_or}
use rest_diameter_bridge.Base.{
  ℕ, suc, ◌+◌, ◌-◌, ◌*◌, ◌/◌, ◌≤◌, ◌<◌, ◌^◌, ◌%◌, ◌≡◌, sym, ap, true, false, Option, none, some,
  List, ◌++◌, length, replicate, length-append, length-replicate, take_append_self,
  drop_append_self, append-nil, ◌==◌, ltb-eq-false, if◌then◌else◌, arith, Bool-cases, inl, inr,
}
use rest_diameter_bridge.Base.Bytes.{IsU32, u32_be_round, u24_be_round}
use rest_diameter_bridge.Base.Bits.{top_bit, set_top_bit, clear_top_bit}
use rest_diameter_bridge.Avp.Defs.{Avp, Avps, avp, nil, cons, new, is_vendor_specific}
use rest_diameter_bridge.Avp.Codec.{
  ok, vendor_length, pad, header, encode_subs, decode_header, decode,
}

-- A vendor id is there and fits wherever the flags announce one.
abbrev pub HasVendor : ℕ → Option ℕ → Type 0
HasVendor f none = is_vendor_specific f ≡ false
HasVendor f (some v) = IsU32 v

-- The bytes that follow the header, before padding.
unfoldable pub body : Avp → List ℕ
body (avp c f v (some d) subs) = d
body (avp c f v none subs) = encode_subs subs

-- Every field fits its place in the header, and the length its three bytes.
abbrev mutual
  pub IsWf : Avp → Type 0
  IsWf (avp c f v (some d) subs) =
      IsU32 c × (f < 256) × HasVendor f v × (8 + vendor_length f + length d < 2 ^ 24)
  IsWf (avp c f v none subs) =
      IsU32 c
      × (f < 256)
      × HasVendor f v
      × (8 + vendor_length f + length (encode_subs subs) < 2 ^ 24)
      × AreWf subs

  pub AreWf : Avps → Type 0
  AreWf nil = Unit
  AreWf (cons a rest) = IsWf a × AreWf rest

-- The AVP that a receiver reads: a grouped AVP has become its bytes, and a vendor id that the flags
-- do not announce is gone.
unfoldable pub wire : Avp → Avp
unfolding body
wire (avp c f v d subs) =
    avp c f (if is_vendor_specific f then v else none) (some (body (avp c f v d subs))) nil

abbrev pub zeros_after : List ℕ → List ℕ
zeros_after d = replicate ((4 - length d % 4) % 4) 0

pub pad_lem : (d : List ℕ) → pad d ≡ d ++ zeros_after d
unfolding pad
pad_lem d = elim (Bool-cases (length d % 4 == 0)) [
  | inl e ↦ rw e (rw (no_zeros e) (sym (append-nil d)))
  | inr e ↦ rw e (ap (λ n. d ++ replicate n 0) (ground arith))
]
  where
    no_zeros : (length d % 4 == 0) ≡ true → (4 - length d % 4) % 4 ≡ 0
    no_zeros e = ground arith

pub pad_multiple : (d : List ℕ) → length d % 4 ≡ 0 → pad d ≡ d
unfolding pad
pad_multiple d h = rw h

pub length-pad : (d : List ℕ) → length (pad d) ≡ (length d + 3) / 4 * 4
length-pad d = rw pad_lem (
    omega
      (arith, length-append d (zeros_after d), length-replicate {A = ℕ} ((4 - length d % 4) % 4) 0))

pub length-header :
    (c f : ℕ) (v : Option ℕ) (n : ℕ) → HasVendor f v → length (header c f v n) ≡ 8 + vendor_length f
unfolding header
length-header c f none n h = rw h (omega arith)
length-header c f (some v) n h = elim (Bool-cases (is_vendor_specific f)) [
  | inl e ↦ rw e (omega arith)
  | inr e ↦ rw e (omega arith)
]

-- The flags that `Avp::new` stores are those of the header.
pub set_vendor_bit : (f : ℕ) → f < 256 → is_vendor_specific f ≡ true → bit_or f 0x80 ≡ f
unfolding is_vendor_specific
set_vendor_bit f h e = ground (arith, top_bit f h, set_top_bit f h)

pub clear_vendor_bit : (f : ℕ) → f < 256 → is_vendor_specific f ≡ false → bit_and f 0x7f ≡ f
unfolding is_vendor_specific
clear_vendor_bit f h e = ground (arith, top_bit f h, clear_top_bit f h)

abbrev pub seen_vendor : ℕ → Option ℕ → Option ℕ
seen_vendor f v = if is_vendor_specific f then v else none

-- The header of an AVP with the length `n`, at the front of a buffer.
decode_header-header :
    (c f n : ℕ) (v : Option ℕ) (rest : List ℕ)
    → IsU32 c
    → HasVendor f v
    → n < 2 ^ 24
    → 8 + vendor_length f ≤ n
    → decode_header (header c f v n ++ rest) ≡ some (c, f, n, seen_vendor f v)
unfolding decode_header header
decode_header-header c f n none rest hc hv hn hm =
    rw hv (rw (u32_be_round c hc, u24_be_round n hn, ltb-eq-false n 8 (omega arith)))
decode_header-header c f n (some v) rest hc hv hn hm = elim (Bool-cases (is_vendor_specific f)) [
  | inl e ↦ rw e (
      rw (u32_be_round c hc, u24_be_round n hn, u32_be_round v hv)
        (rw (ltb-eq-false (suc (suc (suc (suc (length rest))))) 4 (omega arith))
          (rw (ltb-eq-false n 12 (rw e at hm)))))
  | inr e ↦ rw e (rw (u32_be_round c hc, u24_be_round n hn) (rw (ltb-eq-false n 8 (rw e at hm))))
]

pub new_flags :
    (c f : ℕ) (v : Option ℕ) (d : List ℕ)
    → f < 256
    → HasVendor f v
    → new c f (seen_vendor f v) d ≡ avp c f (seen_vendor f v) (some d) nil
unfolding new
new_flags c f none d hf hv = rw hv (rw (clear_vendor_bit f hf hv))
new_flags c f (some v) d hf hv = elim (Bool-cases (is_vendor_specific f)) [
  | inl e ↦ rw e (rw (set_vendor_bit f hf e))
  | inr e ↦ rw e (rw (clear_vendor_bit f hf e))
]

-- A header, its body `d`, and anything behind them decode to the AVP with that body.
pub decode_frame :
    (c f n : ℕ) (v : Option ℕ) (d rest : List ℕ)
    → IsU32 c
    → f < 256
    → HasVendor f v
    → n < 2 ^ 24
    → n ≡ 8 + vendor_length f + length d
    → decode (header c f v n ++ (d ++ rest)) ≡ ok (avp c f (seen_vendor f v) (some d) nil)
unfolding decode
decode_frame c f n v d rest hc hf hv hn e =
    rw (decode_header-header c f n v (d ++ rest) hc hv hn (omega (arith, e))) (
      rw (ltb-eq-false (length (header c f v n ++ (d ++ rest))) n frame_fits) (
        rw
          (drop_append_self (header c f v n) (d ++ rest) (8 + vendor_length f)
            (sym (length-header c f v n hv)))
          (rw (take_append_self d rest (n - (8 + vendor_length f)) (omega (arith, e)))
            (ap ok (new_flags c f v d hf hv)))))
  where
    frame_fits : n ≤ length (header c f v n ++ (d ++ rest))
    frame_fits = omega (
      arith,
      e,
      length-append (header c f v n) (d ++ rest),
      length-append d rest,
      length-header c f v n hv,
    )
