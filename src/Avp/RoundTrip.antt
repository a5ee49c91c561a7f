-- ===== src/Avp/RoundTrip.antt =====
-- Decoding what was encoded.
use rest_diameter_bridge.Base.{
  ℕ, ◌≡◌, none, some, List, ◌++◌, append_assoc, arith, ◌∷◌, ◌≤◌, All, length, sym, ◌<◌, ◌+◌, map,
  suc, leb-eq-false, le→leb, drop_append_self, zero, refl, [], length-append, ap, ◌*◌, Option,
  append-nil, ◌∙◌,
}
use rest_diameter_bridge.Avp.Defs.{nil, cons, Avp, avp, Avps, cons, to_list}
use rest_diameter_bridge.Avp.Codec.{
  ok, total_length, encode, encode_subs, decode, decode_avps, total_length_including_padding,
  add_avp_to, as_grouped, pad,
}
use rest_diameter_bridge.Avp.Wire.{
  IsWf, body, wire, zeros_after, pad_lem, decode_frame, AreWf, pad_multiple, length-pad,
}
use rest_diameter_bridge.Avp.Lengths.{
  vendor_length-le, total_length_lem, total_length-lt, length-encode, eight-le-length-encode,
}

-- A well-formed AVP, encoded and followed by any bytes, is decoded to the AVP that the wire
-- carries: its code, its flags, the vendor id that the flags announce, and its bytes.
pub decode-encode : (a : Avp) (rest : List ℕ) → IsWf a → decode (encode a ++ rest) ≡ ok (wire a)
unfolding encode body wire
decode-encode (avp c f v (some d) s) rest h =
    let a = avp c f v (some d) s in
    rw (pad_lem, append_assoc, append_assoc)
      (decode_frame c f (total_length a) v d (zeros_after d ++ rest) h.0 h.1 h.2
        (total_length-lt a h) (total_length_lem a h))
decode-encode (avp c f v none s) rest h =
    let a = avp c f v none s in
    rw append_assoc (
      decode_frame c f (total_length a) v (encode_subs s) rest h.0 h.1 h.2 (total_length-lt a h)
        (total_length_lem a h))

-- The same length is announced by what the receiver reads.
total_length-wire : (a : Avp) → IsWf a → total_length (wire a) ≡ total_length a
unfolding wire total_length body
total_length-wire (avp c f v (some d) s) h = refl
total_length-wire (avp c f v none s) h =
    rw (total_length_lem (avp c f v none s) h) (omega (arith, vendor_length-le f))

padded-wire : (a : Avp) → IsWf a → total_length_including_padding (wire a) ≡ length (encode a)
unfolding total_length_including_padding
padded-wire a h = rw (total_length-wire a h) (sym (length-encode a h).0)

-- The AVPs of a message, one after the other.
unfoldable pub encode_all : List Avp → List ℕ
encode_all [] = []
encode_all (a ∷ rest) = encode a ++ encode_all rest

-- Between `pre` and `post`, a sequence of well-formed AVPs is read back whole, and no fuel is
-- missing if there is one round more than AVPs.
pub decode_avps-encode_all :
    (avps : List Avp) (fuel limit offset : ℕ) (pre post : List ℕ)
    → All IsWf avps
    → length avps < fuel
    → offset ≡ length pre
    → limit ≡ length pre + length (encode_all avps)
    → decode_avps fuel (pre ++ (encode_all avps ++ post)) limit offset ≡ ok (map wire avps)
unfolding decode_avps encode_all
decode_avps-encode_all avps zero limit offset pre post w hf ho hl = elim hf [ ]
decode_avps-encode_all [] (suc fuel) limit offset pre post w hf ho hl =
    rw (leb-eq-false (offset + 8) limit (omega arith))
decode_avps-encode_all (a ∷ rest) (suc fuel) limit offset pre post (wa, ws) hf ho hl =
    let offset' = offset + total_length_including_padding (wire a) in
    let next =
      decode_avps-encode_all rest fuel limit offset' (pre ++ encode a) post ws (omega (arith, hf))
        (omega (arith, ho, length-append pre (encode a), padded-wire a wa))
        (omega
          (arith, hl, length-append pre (encode a), length-append (encode a) (encode_all rest))) in
    rw (le→leb (offset + 8) limit fits) (
      rw (drop_append_self pre ((encode a ++ encode_all rest) ++ post) offset ho) (
        rw append_assoc (
          rw (decode-encode a (encode_all rest ++ post) wa)
            (rw regroup (ap (add_avp_to (wire a)) next)))))
  where
    regroup :
        pre ++ ((encode a ++ encode_all rest) ++ post)
        ≡ (pre ++ encode a) ++ (encode_all rest ++ post)
    regroup =
        ap (λ t. pre ++ t) (append_assoc (encode a) (encode_all rest) post)
        ∙ sym (append_assoc pre (encode a) (encode_all rest ++ post))

    fits : offset + 8 ≤ limit
    fits =
        omega
          (arith, ho, hl, length-append (encode a) (encode_all rest), eight-le-length-encode a wa)

-- On well-formed AVPs the padding that a group adds between its members is empty.
encode_subs-encode_all : (s : Avps) → AreWf s → encode_subs s ≡ encode_all (to_list s)
unfolding encode_subs encode_all
encode_subs-encode_all nil h = refl
encode_subs-encode_all (cons a rest) h =
    rw (pad_multiple (encode a) (length-encode a h.0).1)
      (ap (λ t. encode a ++ t) (encode_subs-encode_all rest h.1))

All-to_list : (s : Avps) → AreWf s → All IsWf (to_list s)
All-to_list nil h = tt
All-to_list (cons a rest) h = (h.0, All-to_list rest h.1)

-- Each AVP takes at least eight bytes.
pub length-le-encode_all :
    (avps : List Avp) → All IsWf avps → 8 * length avps ≤ length (encode_all avps)
unfolding encode_all
length-le-encode_all [] w = omega arith
length-le-encode_all (a ∷ rest) w = omega (
  arith,
  length-append (encode a) (encode_all rest),
  eight-le-length-encode a w.0,
  length-le-encode_all rest w.1,
)

group_decodes :
    (s : Avps)
    → AreWf s
    → 0 < length (encode_subs s)
    → decode_avps (length (encode_subs s)) (encode_subs s) (length (encode_subs s)) 0
      ≡ ok (map wire (to_list s))
group_decodes s h m = rw (encode_subs-encode_all s h) (
    rw (append-nil (encode_all (to_list s))) at
      (decode_avps-encode_all (to_list s) n n 0 [] [] (All-to_list s h) enough refl (omega arith)))
  where
    n : ℕ
    n = length (encode_all (to_list s))

    enough : length (to_list s) < n
    enough = omega (
      arith,
      m,
      ap length (encode_subs-encode_all s h),
      length-le-encode_all (to_list s) (All-to_list s h),
    )

eight-le-group : (a : Avp) (rest : Avps) → IsWf a → 8 ≤ length (encode_subs (cons a rest))
unfolding encode_subs
eight-le-group a rest h = omega (
  arith,
  length-append (pad (encode a)) (encode_subs rest),
  length-pad (encode a),
  eight-le-length-encode a h,
)

-- A receiver that opens a well-formed group with at least one member reads all its members, in
-- order and as the wire carries them.
pub as_grouped-wire :
    (c f : ℕ) (v : Option ℕ) (a : Avp) (rest : Avps)
    → IsWf (avp c f v none (cons a rest))
    → as_grouped (wire (avp c f v none (cons a rest))) ≡ some (map wire (to_list (cons a rest)))
unfolding as_grouped wire body
as_grouped-wire c f v a rest h =
    let big = eight-le-group a rest h.4.0 in
    rw (le→leb 8 (length (encode_subs (cons a rest))) big)
      (rw (group_decodes (cons a rest) h.4 (omega (arith, big))))
