-- ===== src/Avp/Termination.antt =====
-- The decoding loop ends on every input: the fuel that its callers give is enough.
use rest_diameter_bridge.Avp.Bounds.{decode-Accepted}
use rest_diameter_bridge.Avp.Lengths.{length-encode, eight-le-length-encode}
use rest_diameter_bridge.Avp.Wire.{IsWf}
use rest_diameter_bridge.Avp.Codec.{
  Outcome, decode_avps, decode_body, Header, err, ok, Error, out_of_fuel,
  total_length_including_padding, add_avp_to, decode,
}
use rest_diameter_bridge.Base.Bytes.{IsByte}
use rest_diameter_bridge.Avp.Defs.{Avp}
use rest_diameter_bridge.Base.{
  leb, leb→le, Bool-cases, length, drop, All, ℕ, zero, suc, ◌+◌, ◌*◌, ◌≤◌, ◌<◌, ◌≡◌, refl, ◌≢◌, ◌⊎◌,
  inl, inr, Option, none, some, List, [], ◌∷◌, arith,
}

-- A single AVP is decoded with no loop.
decode_body-ne-out_of_fuel :
    (buffer : List ℕ) (h : Option Header) → decode_body buffer h ≢ err out_of_fuel
unfolding decode_body
decode_body-ne-out_of_fuel buffer none e = cc
decode_body-ne-out_of_fuel buffer (some (c, f, n, v)) e = ground arith

-- Padding never shortens a length that fits three bytes.
eight-le-padded : (a : Avp) → IsWf a → 8 ≤ total_length_including_padding a
eight-le-padded a h = omega (arith, length-encode a h, eight-le-length-encode a h)

All-drop : (n : ℕ) (xs : List ℕ) → All IsByte xs → All IsByte (drop n xs)
All-drop zero xs h = h
All-drop (suc n) [] h = h
All-drop (suc n) (x ∷ xs) h = All-drop n xs h.1

add_avp_to-ne :
    (a : Avp) (r : Outcome (List Avp)) → r ≢ err out_of_fuel → add_avp_to a r ≢ err out_of_fuel
add_avp_to-ne a (ok rest) h e = cc
add_avp_to-ne a (err x) h e = h (cc)

pub Outcome-cases {ℓ} :
    {A : Type ℓ} (r : Outcome A) → ((a : A) × (r ≡ ok a)) ⊎ ((e : Error) × (r ≡ err e))
Outcome-cases (ok a) = inl (a, refl)
Outcome-cases (err e) = inr (e, refl)

-- Each round moves the offset by eight bytes at least, so `fuel` rounds are enough when eight times
-- as many bytes are not there.
pub decode_avps-ne-out_of_fuel :
    (fuel : ℕ) (buffer : List ℕ) (limit offset : ℕ)
    → All IsByte buffer
    → limit < offset + 8 * fuel
    → 0 < fuel
    → decode_avps fuel buffer limit offset ≢ err out_of_fuel
unfolding decode_avps
decode_avps-ne-out_of_fuel zero buffer limit offset hb h p = elim p [ ]
decode_avps-ne-out_of_fuel (suc fuel) buffer limit offset hb h p =
    elim (Bool-cases (leb (offset + 8) limit)) [
      | inr done ↦ rw done (λ e. cc)
      | inl more ↦ rw more (elim (Outcome-cases (decode (drop offset buffer))) [
        | inr (x, e) ↦ rw e (λ q. cc)
        | inl (a, e) ↦ rw e (
            add_avp_to-ne a _ (
              decode_avps-ne-out_of_fuel fuel buffer limit
                (offset + total_length_including_padding a) hb (omega (arith, moved a e))
                (omega (arith, leb→le _ _ more, h))))
      ])
    ]
  where
    moved : (a : Avp) → decode (drop offset buffer) ≡ ok a → 8 ≤ total_length_including_padding a
    moved a e =
        eight-le-padded a (decode-Accepted (drop offset buffer) a (All-drop offset buffer hb) e).wf

-- On any eight or more bytes, the loop of as_grouped ends before its fuel, one round for each
-- byte, is used up.
pub as_grouped_loop-ne-out_of_fuel :
    (d : List ℕ)
    → All IsByte d
    → 8 ≤ length d
    → decode_avps (length d) d (length d) 0 ≢ err out_of_fuel
as_grouped_loop-ne-out_of_fuel d hb h =
    decode_avps-ne-out_of_fuel (length d) d (length d) 0 hb (omega arith) (omega arith)
