-- ===== src/Avp/Codec.antt =====
-- The wire format of src/avp.rs: lengths, encoding and decoding.
use rest_diameter_bridge.Base.{
  ℕ, zero, suc, ◌+◌, ◌-◌, ◌%◌, Bool, true, false, Option, none, some, List, [], ◌∷◌, ◌++◌, length,
  take, drop, replicate, ◌==◌, ltb, leb, if◌then◌else◌,
}
use rest_diameter_bridge.Base.Bytes.{u32, u32_to_be_bytes, u32_from_be_bytes}
use rest_diameter_bridge.Avp.Defs.{
  Avp, Avps, avp, nil, cons, new, is_vendor_specific, is_grouped, to_list, payload, sub_avps,
}

-- The `String` errors of `Avp::decode` and `Command::decode`. `out_of_fuel` is no error of the
-- source: it says that the model's bound on the rounds of a loop was too small.
pub data Error : Type 0 where
  bad_avp_header avp_length_mismatch : Error
  short_header message_length_mismatch : Error
  avp_at : ℕ → Error → Error
  out_of_fuel : Error

pub data Outcome {ℓ} (A : Type ℓ) : Type ℓ where
  ok : A → Outcome A
  err : Error → Outcome A

-- The 4 bytes of the vendor id.
abbrev pub vendor_length : ℕ → ℕ
vendor_length f = if is_vendor_specific f then 4 else 0

-- The second half of `total_length_including_padding`.
unfoldable pub round_up : ℕ → ℕ
round_up n = if n % 4 == 0 then n else u32 (n + (4 - n % 4))

-- The sums are of `u32`, and wrap in a release build.
unfoldable mutual
  pub total_length : Avp → ℕ
  total_length (avp c f v (some d) subs) = u32 (u32 (length d) + 8 + vendor_length f)
  total_length (avp c f v none subs) = u32 (sum_of_lengths subs + 8 + vendor_length f)

  pub sum_of_lengths : Avps → ℕ
  sum_of_lengths nil = 0
  sum_of_lengths (cons a rest) = u32 (round_up (total_length a) + sum_of_lengths rest)

unfoldable pub total_length_including_padding : Avp → ℕ
total_length_including_padding a = round_up (total_length a)

-- A `Vec` with the zeros that `encode` appends to it.
unfoldable pub pad : List ℕ → List ℕ
pad bytes = let n = length bytes in if n % 4 == 0 then bytes else bytes ++ replicate (4 - n % 4) 0

abbrev pub u24_to_be_bytes : ℕ → List ℕ
u24_to_be_bytes n = drop 1 (u32_to_be_bytes n)

abbrev pub vendor_bytes : Bool → Option ℕ → List ℕ
vendor_bytes false v = []
vendor_bytes true none = []
vendor_bytes true (some v) = u32_to_be_bytes v

-- Code, flags, length, and the vendor id if the flags announce one.
unfoldable pub header : ℕ → ℕ → Option ℕ → ℕ → List ℕ
header c f v n =
    u32_to_be_bytes c ++ (f ∷ (u24_to_be_bytes n ++ vendor_bytes (is_vendor_specific f) v))

unfoldable mutual
  pub encode : Avp → List ℕ
  encode (avp c f v (some d) subs) = header c f v (total_length (avp c f v (some d) subs)) ++ pad d
  encode (avp c f v none subs) =
      header c f v (total_length (avp c f v none subs)) ++ encode_subs subs

  pub encode_subs : Avps → List ℕ
  encode_subs nil = []
  encode_subs (cons a rest) = pad (encode a) ++ encode_subs rest

-- The code, the flags, the length and the vendor id.
abbrev pub Header : Type 0
Header = ℕ × ℕ × ℕ × Option ℕ

abbrev vendor_of : List ℕ → Option ℕ
vendor_of (a ∷ b ∷ c ∷ d ∷ rest) = some (u32_from_be_bytes a b c d)
vendor_of _ = none

-- `decode_header` after the first eight bytes; `rest` is what follows them.
unfoldable pub header_of : ℕ → ℕ → ℕ → List ℕ → Option Header
header_of c f n rest =
    if is_vendor_specific f
    then (if ltb (length rest) 4
        then none
        else if ltb n 12
        then none
        else some (c, f, n, vendor_of rest))
    else if ltb n 8
    then none
    else some (c, f, n, none)

-- A buffer with fewer than eight bytes is no header.
unfoldable pub decode_header : List ℕ → Option Header
unfolding header_of
decode_header (c0 ∷ c1 ∷ c2 ∷ c3 ∷ f ∷ l1 ∷ l2 ∷ l3 ∷ rest) =
    header_of (u32_from_be_bytes c0 c1 c2 c3) f (u32_from_be_bytes 0 l1 l2 l3) rest
decode_header _ = none

-- `buffer[from..to]`.
abbrev pub slice : ℕ → ℕ → List ℕ → List ℕ
slice from to buffer = take (to - from) (drop from buffer)

unfoldable pub decode_body : List ℕ → Option Header → Outcome Avp
decode_body buffer none = err bad_avp_header
decode_body buffer (some (c, f, n, v)) =
    if ltb (length buffer) n
    then err avp_length_mismatch
    else ok (new c f v (slice (8 + vendor_length f) n buffer))

unfoldable pub decode : List ℕ → Outcome Avp
unfolding decode_header decode_body
decode buffer = decode_body buffer (decode_header buffer)

abbrev pub add_avp_to : Avp → Outcome (List Avp) → Outcome (List Avp)
add_avp_to a (ok rest) = ok (a ∷ rest)
add_avp_to a (err e) = err e

-- The loop of `Avp::as_grouped` and of `Command::decode`: AVPs are read at `offset` while a header
-- fits below `limit`. A `while` loop on fuel; each round moves the offset by 8 bytes or more.
unfoldable pub decode_avps : ℕ → List ℕ → ℕ → ℕ → Outcome (List Avp)
decode_avps zero buffer limit offset = err out_of_fuel
decode_avps (suc fuel) buffer limit offset =
    if leb (offset + 8) limit
    then elim (decode (drop offset buffer)) [
      | ok a ↦
          add_avp_to a (decode_avps fuel buffer limit (offset + total_length_including_padding a))
      | err e ↦ err (avp_at offset e)
    ]
    else ok []

-- The bytes of a grouped AVP are decoded with any error as `None`.
abbrev pub ignore_error : Outcome (List Avp) → Option (List Avp)
ignore_error (ok r) = some r
ignore_error (err e) = none

abbrev stored_subs : Avp → Option (List Avp)
stored_subs a = if is_grouped a then some (to_list (sub_avps a)) else none

unfoldable pub as_grouped : Avp → Option (List Avp)
as_grouped a = elim (payload a) [
  | none ↦ stored_subs a
  | some d ↦
      if leb 8 (length d)
      then ignore_error (decode_avps (length d) d (length d) 0)
      else stored_subs a
]
