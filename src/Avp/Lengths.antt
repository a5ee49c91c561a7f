-- ===== src/Avp/Lengths.antt =====
-- The lengths that `total_length` computes are those of what `encode` writes.
use rest_diameter_bridge.Base.{
  ℕ, ◌+◌, ◌*◌, ◌/◌, ◌<◌, ◌^◌, ◌%◌, ◌≡◌, ◌⊎◌, refl, none, some, length, length-append, arith,
  Bool-cases, inl, inr, ◌≤◌,
}
use rest_diameter_bridge.Avp.Defs.{Avp, Avps, avp, nil, cons, flags, is_vendor_specific}
use rest_diameter_bridge.Avp.Codec.{
  vendor_length, round_up, total_length, sum_of_lengths, total_length_including_padding, pad,
  header, encode, encode_subs,
}
use rest_diameter_bridge.Avp.Wire.{IsWf, AreWf, body, length-pad, length-header}

vendor_length_cases : (f : ℕ) → (vendor_length f ≡ 0) ⊎ (vendor_length f ≡ 4)
vendor_length_cases f = elim (Bool-cases (is_vendor_specific f)) [
  | inl e ↦ rw e (inr refl)
  | inr e ↦ rw e (inl refl)
]

pub vendor_length-le : (f : ℕ) → vendor_length f ≤ 4
vendor_length-le f = omega (arith, vendor_length_cases f)

pub encode_subs-mod : (s : Avps) → length (encode_subs s) % 4 ≡ 0
unfolding encode_subs
encode_subs-mod nil = refl
encode_subs-mod (cons a rest) = omega (
  arith,
  length-append (pad (encode a)) (encode_subs rest),
  length-pad (encode a),
  encode_subs-mod rest,
)

-- Where the length in the header is right, the encoding is that length, padded.
length-encode_of :
    (a : Avp)
    → IsWf a
    → total_length a ≡ 8 + vendor_length (flags a) + length (body a)
    → length (encode a) ≡ (total_length a + 3) / 4 * 4
unfolding encode body
length-encode_of (avp c f v (some d) s) h e = omega (
  arith,
  e,
  vendor_length_cases f,
  length-pad d,
  length-append (header c f v (total_length (avp c f v (some d) s))) (pad d),
  length-header c f v (total_length (avp c f v (some d) s)) h.2,
)
length-encode_of (avp c f v none s) h e = omega (
  arith,
  e,
  vendor_length_cases f,
  encode_subs-mod s,
  length-append (header c f v (total_length (avp c f v none s))) (encode_subs s),
  length-header c f v (total_length (avp c f v none s)) h.2,
)

-- Below the wrap of `u32`, rounding is up to the next multiple of four.
pub round_up_lem : (n : ℕ) → n + 4 < 2 ^ 32 → round_up n ≡ (n + 3) / 4 * 4
unfolding round_up
round_up_lem n h = ground arith

mutual
  unfolding total_length encode_subs body

  -- On a well-formed AVP the sums do not wrap, and the length is that of the header and the body.
  total_length_of :
      (a : Avp) → IsWf a → total_length a ≡ 8 + vendor_length (flags a) + length (body a)
  total_length_of (avp c f v (some d) s) h = omega (arith, vendor_length_cases f)
  total_length_of (avp c f v none s) h =
      omega (arith, vendor_length_cases f, sum_of_lengths_of s h.4 (omega arith))

  sum_of_lengths_of :
      (s : Avps)
      → AreWf s
      → length (encode_subs s) < 2 ^ 24
      → sum_of_lengths s ≡ length (encode_subs s)
  sum_of_lengths_of nil h m = refl
  sum_of_lengths_of (cons a rest) h m = omega (
    arith,
    length-encode_of a h.0 (total_length_of a h.0),
    length-pad (encode a),
    length-append (pad (encode a)) (encode_subs rest),
    sum_of_lengths_of rest h.1 (omega (arith, length-append (pad (encode a)) (encode_subs rest))),
    round_up_lem (total_length a),
  )

pub total_length_lem :
    (a : Avp) → IsWf a → total_length a ≡ 8 + vendor_length (flags a) + length (body a)
total_length_lem a h = total_length_of a h

pub total_length-lt : (a : Avp) → IsWf a → total_length a < 2 ^ 24
unfolding body
total_length-lt (avp c f v (some d) s) h =
    omega (arith, total_length_lem (avp c f v (some d) s) h, vendor_length_cases f)
total_length-lt (avp c f v none s) h =
    omega (arith, total_length_lem (avp c f v none s) h, vendor_length_cases f)

-- The encoding of a well-formed AVP has exactly the length that total_length_including_padding
-- announces, and that is a multiple of four.
pub length-encode :
    (a : Avp)
    → IsWf a
    → (length (encode a) ≡ total_length_including_padding a) × (length (encode a) % 4 ≡ 0)
unfolding total_length_including_padding
length-encode a h =
    let e = length-encode_of a h (total_length_lem a h) in
    (omega (arith, e, round_up_lem (total_length a), total_length-lt a h), omega (arith, e))

pub eight-le-length-encode : (a : Avp) → IsWf a → 8 ≤ length (encode a)
eight-le-length-encode a h =
    omega (arith, length-encode_of a h (total_length_lem a h), total_length_lem a h)
