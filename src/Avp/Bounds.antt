-- ===== src/Avp/Bounds.antt =====
-- What `Avp::decode` accepts, on any bytes.
use mathlib.Core.Path.{subst}
use rest_diameter_bridge.Avp.Lengths.{total_length_lem}
use rest_diameter_bridge.Avp.Wire.{
  IsWf, HasVendor, seen_vendor, body, length-header, zeros_after, pad_lem, new_flags,
}
use rest_diameter_bridge.Base.Bytes.{IsU32, IsByte, u32_from_be_bytes, u32_be_bytes}
use rest_diameter_bridge.Avp.Codec.{
  decode_body, total_length, vendor_length, ok, encode, header, slice, vendor_bytes, decode,
  header_of,
}
use rest_diameter_bridge.Avp.Defs.{Avp, new, is_vendor_specific, avp, nil}
use rest_diameter_bridge.Base.{
  length, ℕ, ◌+◌, ◌^◌, ◌≤◌, ◌<◌, ◌≡◌, true, false, Option, none, some, List, take, length-append,
  take_append_self, sym, ◌∙◌, ◌++◌, append_assoc, arith, drop, take-append-drop, ◌-◌, ◌∷◌, ltb,
  Bool-cases, length-take, drop_append_self, inl, inr, All, ltb-false→le, ap, lt→ltb, ltb-eq-false,
}

-- What `decode` accepts is well formed, lies within the buffer, and is encoded again to the bytes
-- that were read, up to padding.
pub record Accepted (buffer : List ℕ) (a : Avp) : Type 0 where
  pub wf : IsWf a
  pub fits : total_length a ≤ length buffer
  pub exact : take (total_length a) (encode a) ≡ take (total_length a) buffer

abbrev front : ℕ → ℕ → Option ℕ → ℕ → List ℕ → List ℕ
front c f v n d = header c f v n ++ d

length-front :
    (c f n : ℕ) (v : Option ℕ) (d : List ℕ)
    → HasVendor f v
    → n ≡ 8 + vendor_length f + length d
    → n ≡ length (front c f v n d)
length-front c f n v d hv e =
    omega (arith, e, length-append (header c f v n) d, length-header c f v n hv)

-- A buffer that begins with a header for `n` bytes, and is that long.
frame-Accepted :
    (c f n : ℕ) (v : Option ℕ) (d tail : List ℕ)
    → IsU32 c
    → f < 256
    → n < 2 ^ 24
    → HasVendor f v
    → n ≡ 8 + vendor_length f + length d
    → Accepted (header c f v n ++ (d ++ tail)) (avp c f v (some d) nil)
unfolding body encode
frame-Accepted c f n v d tail hc hf hn hv e = record {
  wf = wf;
  fits = omega (
    arith,
    e,
    total,
    length-append (header c f v n) (d ++ tail),
    length-append d tail,
    length-header c f v n hv,
  );
  exact = rw (total, pad_lem) (same (zeros_after d) ∙ sym (same tail));
}
  where
    a : Avp
    a = avp c f v (some d) nil

    wf : IsWf a
    wf = (hc, hf, hv, omega (arith, e))

    total : total_length a ≡ n
    total = total_length_lem a wf ∙ sym e

    same : (t : List ℕ) → take n (header c f v n ++ (d ++ t)) ≡ front c f v n d
    same t =
        rw (← append_assoc (header c f v n) d t)
          (take_append_self (front c f v n d) t n (length-front c f n v d hv e))

-- The eight bytes of a header.
abbrev HeaderBytes : ℕ → ℕ → ℕ → ℕ → ℕ → ℕ → ℕ → ℕ → Type 0
HeaderBytes c0 c1 c2 c3 f l1 l2 l3 =
    IsByte c0 × IsByte c1 × IsByte c2 × IsByte c3 × IsByte f × IsByte l1 × IsByte l2 × IsByte l3

header-bytes :
    (c0 c1 c2 c3 f l1 l2 l3 : ℕ) (v : Option ℕ)
    → HeaderBytes c0 c1 c2 c3 f l1 l2 l3
    → header (u32_from_be_bytes c0 c1 c2 c3) f v (u32_from_be_bytes 0 l1 l2 l3)
      ≡ c0 ∷ c1 ∷ c2 ∷ c3 ∷ f ∷ l1 ∷ l2 ∷ l3 ∷ vendor_bytes (is_vendor_specific f) v
unfolding header
header-bytes c0 c1 c2 c3 f l1 l2 l3 v (h0, h1, h2, h3, hf, h5, h6, h7) =
    cc (u32_be_bytes c0 c1 c2 c3 h0 h1 h2 h3, u32_be_bytes 0 l1 l2 l3 (omega arith) h5 h6 h7)

-- A buffer that starts with a header for `n` bytes, and holds them.
module _ (c f n : ℕ) (v : Option ℕ) (rest : List ℕ) (hv : HasVendor f v) where
  header-Accepted :
      IsU32 c
      → f < 256
      → n < 2 ^ 24
      → 8 + vendor_length f ≤ n
      → n ≤ length (header c f v n ++ rest)
      → Accepted
          (header c f v n ++ rest)
          (avp c f v (some (slice (8 + vendor_length f) n (header c f v n ++ rest))) nil)
  header-Accepted hc hf hn hm hl =
      rw
        (drop_append_self (header c f v n) rest (8 + vendor_length f)
          (sym (length-header c f v n hv)))
        (subst (λ t. Accepted (header c f v n ++ t) (avp c f v (some (take k rest)) nil))
          (take-append-drop k rest)
          (frame-Accepted c f n v (take k rest) (drop k rest) hc hf hn hv body_length))
    where
      k : ℕ
      k = n - (8 + vendor_length f)

      body_length : n ≡ 8 + vendor_length f + length (take k rest)
      body_length = omega (
        arith,
        hm,
        hl,
        length-take k rest,
        length-append (header c f v n) rest,
        length-header c f v n hv,
      )

  decode_body-Accepted :
      (buffer : List ℕ) (a : Avp)
      → buffer ≡ header c f v n ++ rest
      → v ≡ seen_vendor f v
      → IsU32 c
      → f < 256
      → n < 2 ^ 24
      → 8 + vendor_length f ≤ n
      → decode_body buffer (some (c, f, n, v)) ≡ ok a
      → Accepted buffer a
  unfolding decode_body
  decode_body-Accepted buffer a e hs hc hf hn hm r = elim (Bool-cases (ltb (length buffer) n)) [
    | inl short ↦ absurd (cc (rw short at r))
    | inr long ↦
        rw (stored (rw long at r)) (rw e (header-Accepted hc hf hn hm (rw e at (within long))))
  ]
    where
      within : ltb (length buffer) n ≡ false → n ≤ length buffer
      within h = ground arith

      d : List ℕ
      d = slice (8 + vendor_length f) n buffer

      flags_kept : new c f v d ≡ avp c f v (some d) nil
      flags_kept =
          subst (λ w. new c f w d ≡ avp c f w (some d) nil) (sym hs) (new_flags c f v d hf hv)

      stored : ok (new c f v d) ≡ ok a → a ≡ avp c f v (some d) nil
      stored h = cc (h, flags_kept)

module _ (c0 c1 c2 c3 f l1 l2 l3 : ℕ) (rest : List ℕ) (h : HeaderBytes c0 c1 c2 c3 f l1 l2 l3) where
  abbrev code_read : ℕ
  code_read = u32_from_be_bytes c0 c1 c2 c3

  abbrev length_read : ℕ
  length_read = u32_from_be_bytes 0 l1 l2 l3

  abbrev buffer_read : List ℕ
  buffer_read = c0 ∷ c1 ∷ c2 ∷ c3 ∷ f ∷ l1 ∷ l2 ∷ l3 ∷ rest

  -- `header_of` accepts a header without a vendor id, and refuses one that is too short.
  plain-Accepted :
      (a : Avp)
      → is_vendor_specific f ≡ false
      → decode_body buffer_read (header_of code_read f length_read rest) ≡ ok a
      → Accepted buffer_read a
  unfolding header_of decode_body
  plain-Accepted a t e = elim (Bool-cases (ltb length_read 8)) [
    | inl short ↦ absurd (cc (rw (t, short) at e))
    | inr long ↦
        decode_body-Accepted code_read f length_read none rest t buffer_read a
          (ap (λ u. u ++ rest) (sym (rw t at (header-bytes c0 c1 c2 c3 f l1 l2 l3 none h)))) (rw t)
          (omega arith) h.4 (omega arith) (rw t (omega (arith, ltb-false→le _ _ long)))
          (rw (t, long) at e)
  ]

module _ (c0 c1 c2 c3 f l1 l2 l3 v0 v1 v2 v3 : ℕ) (rest : List ℕ)
    (h : HeaderBytes c0 c1 c2 c3 f l1 l2 l3) where
  abbrev vendor_buffer : List ℕ
  vendor_buffer = c0 ∷ c1 ∷ c2 ∷ c3 ∷ f ∷ l1 ∷ l2 ∷ l3 ∷ v0 ∷ v1 ∷ v2 ∷ v3 ∷ rest

  -- The same with the four bytes of a vendor id.
  vendor-Accepted :
      (a : Avp)
      → IsByte v0
      → IsByte v1
      → IsByte v2
      → IsByte v3
      → is_vendor_specific f ≡ true
      → decode_body vendor_buffer (
          header_of
            (u32_from_be_bytes c0 c1 c2 c3)
            f
            (u32_from_be_bytes 0 l1 l2 l3)
            (v0 ∷ v1 ∷ v2 ∷ v3 ∷ rest))
        ≡ ok a
      → Accepted vendor_buffer a
  unfolding header_of decode_body
  vendor-Accepted a g0 g1 g2 g3 t e = elim (Bool-cases (ltb n 12)) [
    | inl short ↦ absurd (cc (rw (t, enough, short) at e))
    | inr long ↦
        decode_body-Accepted (u32_from_be_bytes c0 c1 c2 c3) f n (some v) rest (omega arith)
          vendor_buffer a split (rw t) (omega arith) h.4 (omega arith)
          (rw t (omega (arith, ltb-false→le _ _ long))) (rw (t, enough, long) at e)
  ]
    where
      n : ℕ
      n = u32_from_be_bytes 0 l1 l2 l3

      v : ℕ
      v = u32_from_be_bytes v0 v1 v2 v3

      enough : ltb (length (v0 ∷ v1 ∷ v2 ∷ v3 ∷ rest)) 4 ≡ false
      enough = ltb-eq-false (length (v0 ∷ v1 ∷ v2 ∷ v3 ∷ rest)) 4 (omega arith)

      split : vendor_buffer ≡ header (u32_from_be_bytes c0 c1 c2 c3) f (some v) n ++ rest
      split =
          ap (λ u. u ++ rest)
            (sym (
              rw (t, u32_be_bytes v0 v1 v2 v3 g0 g1 g2 g3) at
                (header-bytes c0 c1 c2 c3 f l1 l2 l3 (some v) h)))

-- Flags that announce a vendor id which the buffer is too short for are refused.
no_vendor :
    (c f n : ℕ) (rest : List ℕ)
    → is_vendor_specific f ≡ true
    → length rest < 4
    → header_of c f n rest ≡ none
unfolding header_of
no_vendor c f n rest t m = rw t (rw (lt→ltb (length rest) 4 m))

vendor_cases :
    (c0 c1 c2 c3 f l1 l2 l3 : ℕ) (rest : List ℕ) (a : Avp)
    → HeaderBytes c0 c1 c2 c3 f l1 l2 l3
    → All IsByte rest
    → is_vendor_specific f ≡ true
    → decode (c0 ∷ c1 ∷ c2 ∷ c3 ∷ f ∷ l1 ∷ l2 ∷ l3 ∷ rest) ≡ ok a
    → Accepted (c0 ∷ c1 ∷ c2 ∷ c3 ∷ f ∷ l1 ∷ l2 ∷ l3 ∷ rest) a
unfolding decode
vendor_cases c0 c1 c2 c3 f l1 l2 l3 (v0 ∷ v1 ∷ v2 ∷ v3 ∷ rest) a h hr t e =
    vendor-Accepted c0 c1 c2 c3 f l1 l2 l3 v0 v1 v2 v3 rest h a hr.0 hr.1.0 hr.1.1.0 hr.1.1.1.0 t
      (unfold header_of in e)
vendor_cases c0 c1 c2 c3 f l1 l2 l3 rest a h hr t e = absurd (
    cc (
      no_vendor (u32_from_be_bytes c0 c1 c2 c3) f (u32_from_be_bytes 0 l1 l2 l3) rest t
          (omega arith),
      e,
    ))

-- If decode accepts a buffer of bytes, the AVP is well formed, its length lies within the buffer,
-- and encoding it again gives the bytes that were read, up to that length.
pub decode-Accepted :
    (buffer : List ℕ) (a : Avp) → All IsByte buffer → decode buffer ≡ ok a → Accepted buffer a
unfolding decode
decode-Accepted (c0 ∷ c1 ∷ c2 ∷ c3 ∷ f ∷ l1 ∷ l2 ∷ l3 ∷ rest) a hb e =
    let h : HeaderBytes c0 c1 c2 c3 f l1 l2 l3 = omega arith in
    elim (Bool-cases (is_vendor_specific f)) [
      | inl t ↦ vendor_cases c0 c1 c2 c3 f l1 l2 l3 rest a h hb.1.1.1.1.1.1.1.1 t e
      | inr t ↦ plain-Accepted c0 c1 c2 c3 f l1 l2 l3 rest h a t e
    ]
decode-Accepted _ a h e = cc
