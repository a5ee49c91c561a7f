-- ===== src/Avp/Json/Depth.antt =====
-- The members that are read from a group are less deep than the group.
use mathlib.Core.Path.{subst}
use rest_diameter_bridge.Avp.Termination.{Outcome-cases}
use rest_diameter_bridge.Avp.Json.{depth_bound, depth_bounds}
use rest_diameter_bridge.Avp.Codec.{
  Outcome, ok, err, decode, add_avp_to, as_grouped, decode_avps, decode_body, decode_header, Header,
  slice, total_length_including_padding, vendor_length, ignore_error,
}
use rest_diameter_bridge.Avp.Defs.{Avp, Avps, avp, nil, cons, new, is_grouped, to_list}
use rest_diameter_bridge.Base.{
  ℕ, zero, suc, none, some, Option, List, [], ◌∷◌, inl, inr, length, All, ◌+◌, ◌≤◌, ◌≡◌, ltb, leb,
  Bool-cases, drop, length-take, length-drop, ◌-◌, ◌<◌, refl, arith, ltb→lt, ltb-false→le, ◌≢◌,
}

abbrev pub IsShallow : ℕ → Avp → Type 0
IsShallow n a = depth_bound a ≤ n

abbrev pub Decoded : (Avp → Type 0) → Outcome (List Avp) → Type 0
Decoded P (ok avps) = All P avps
Decoded P (err e) = Unit

-- A buffer too short for a header has none.
decode_header-short : (buffer : List ℕ) → length buffer < 8 → decode_header buffer ≡ none
unfolding decode_header
decode_header-short [] h = refl
decode_header-short (a ∷ []) h = refl
decode_header-short (a ∷ b ∷ []) h = refl
decode_header-short (a ∷ b ∷ c ∷ []) h = refl
decode_header-short (a ∷ b ∷ c ∷ d ∷ []) h = refl
decode_header-short (a ∷ b ∷ c ∷ d ∷ e ∷ []) h = refl
decode_header-short (a ∷ b ∷ c ∷ d ∷ e ∷ f ∷ []) h = refl
decode_header-short (a ∷ b ∷ c ∷ d ∷ e ∷ f ∷ g ∷ []) h = refl
decode_header-short (a ∷ b ∷ c ∷ d ∷ e ∷ f ∷ g ∷ x ∷ rest) h = absurd (omega (arith, h))

depth_bound-new : (c f : ℕ) (v : Option ℕ) (d : List ℕ) → depth_bound (new c f v d) ≡ suc (length d)
unfolding depth_bound new
depth_bound-new c f none d = refl
depth_bound-new c f (some w) d = refl

depth_bound-decode_body :
    (buffer : List ℕ) (h : Option Header) (a : Avp)
    → decode_body buffer h ≡ ok a
    → 8 ≤ length buffer
    → depth_bound a + 7 ≤ length buffer
unfolding decode_body
depth_bound-decode_body buffer none a e le = absurd (cc e)
depth_bound-decode_body buffer (some (c, f, n, v)) a e le =
    elim (Bool-cases (ltb (length buffer) n)) [
      | inl short ↦ absurd (cc (rw short at e))
      | inr long ↦ subst (λ b. depth_bound b + 7 ≤ length buffer) (stored (rw long at e)) bounded
    ]
  where
    d : List ℕ
    d = slice (8 + vendor_length f) n buffer

    stored : ok (new c f v d) ≡ ok a → new c f v d ≡ a
    stored p = cc p

    bounded : depth_bound (new c f v d) + 7 ≤ length buffer
    bounded = rw (depth_bound-new c f v d) (
        omega (
          arith,
          le,
          length-take (n - (8 + vendor_length f)) (drop (8 + vendor_length f) buffer),
          length-drop (8 + vendor_length f) buffer,
        ))

refused_body : (buffer : List ℕ) (a : Avp) → decode_body buffer none ≢ ok a
unfolding decode_body
refused_body buffer a e = cc e

-- What is decoded has a header less bytes than the buffer.
pub depth_bound-decode :
    (buffer : List ℕ) (a : Avp) → decode buffer ≡ ok a → depth_bound a + 7 ≤ length buffer
unfolding decode
depth_bound-decode buffer a e = elim (Bool-cases (ltb (length buffer) 8)) [
  | inr le ↦
      depth_bound-decode_body buffer (decode_header buffer) a e (ltb-false→le (length buffer) 8 le)
  | inl lt ↦
      absurd
        (refused_body buffer a (rw (decode_header-short buffer (ltb→lt (length buffer) 8 lt)) at e))
]

Decoded-add_avp_to :
    (P : Avp → Type 0) (a : Avp) (r : Outcome (List Avp))
    → P a
    → Decoded P r
    → Decoded P (add_avp_to a r)
Decoded-add_avp_to P a (ok rest) h hs = (h, hs)
Decoded-add_avp_to P a (err e) h hs = tt

-- What holds of each AVP that is decoded from the buffer holds of all that the loop reads.
pub decode_avps-Decoded :
    (P : Avp → Type 0) (fuel : ℕ) (buffer : List ℕ) (limit offset : ℕ)
    → ((from : ℕ) (a : Avp) → decode (drop from buffer) ≡ ok a → P a)
    → Decoded P (decode_avps fuel buffer limit offset)
unfolding decode_avps
decode_avps-Decoded P zero buffer limit offset h = tt
decode_avps-Decoded P (suc fuel) buffer limit offset h =
    elim (Bool-cases (leb (offset + 8) limit)) [
      | inr done ↦ rw done tt
      | inl more ↦ rw more (elim (Outcome-cases (decode (drop offset buffer))) [
        | inr (x, e) ↦ rw e tt
        | inl (a, e) ↦ rw e (
            Decoded-add_avp_to P a _ (h offset a e) (
              decode_avps-Decoded P fuel buffer limit (offset + total_length_including_padding a)
                h))
      ])
    ]

-- The members of a group, if it can be read.
abbrev pub Members : (Avp → Type 0) → Option (List Avp) → Type 0
Members P none = Unit
Members P (some avps) = All P avps

pub ignore_error-Decoded :
    (P : Avp → Type 0) (r : Outcome (List Avp)) → Decoded P r → Members P (ignore_error r)
ignore_error-Decoded P (ok avps) h = h
ignore_error-Decoded P (err e) h = tt

All-weaken : (n k : ℕ) (avps : List Avp) → n ≤ k → All (IsShallow n) avps → All (IsShallow k) avps
All-weaken n k [] le h = tt
All-weaken n k (a ∷ rest) le h = (omega (arith, h.0, le), All-weaken n k rest le h.1)

to_list-IsShallow : (s : Avps) → All (IsShallow (depth_bounds s)) (to_list s)
unfolding depth_bounds
to_list-IsShallow nil = tt
to_list-IsShallow (cons a rest) = (
  omega arith,
  All-weaken (depth_bounds rest) (depth_bound a + depth_bounds rest) (to_list rest) (omega arith)
      (to_list-IsShallow rest),
)

-- The members of a group are less deep than the group.
pub as_grouped-IsShallow :
    (a : Avp) (fuel : ℕ) → depth_bound a ≤ suc fuel → Members (IsShallow fuel) (as_grouped a)
unfolding as_grouped depth_bound is_grouped
as_grouped-IsShallow (avp c f v (some d) s) fuel h = elim (Bool-cases (leb 8 (length d))) [
  | inl big ↦ rw big (
      ignore_error-Decoded (IsShallow fuel) (decode_avps (length d) d (length d) 0) (
        decode_avps-Decoded (IsShallow fuel) (length d) d (length d) 0
          (λ from a e. omega (arith, h, depth_bound-decode (drop from d) a e, length-drop from d))))
  | inr small ↦ rw small tt
]
as_grouped-IsShallow (avp c f v none nil) fuel h = tt
as_grouped-IsShallow (avp c f v none (cons a rest)) fuel h =
    All-weaken (depth_bounds (cons a rest)) fuel (to_list (cons a rest)) (omega (arith, h))
      (to_list-IsShallow (cons a rest))

pub one-le-depth_bound : (a : Avp) → 1 ≤ depth_bound a
unfolding depth_bound
one-le-depth_bound (avp c f v (some d) s) = omega arith
one-le-depth_bound (avp c f v none s) = omega arith
