-- ===== src/Base/Decimal.antt =====
-- `u32` printed in decimal, and `str::parse::<u32>`: digits, perhaps behind a plus, with the
-- overflow found at each digit.
use rest_diameter_bridge.Base.{sym, ◌≤◌}
use Prim.Native.Nat.{ℕ, zero, suc, ◌+◌, ◌-◌, ◌*◌, ◌/◌, ◌%◌, ◌<◌, ◌^◌}
use mathlib.Core.Path.{◌≡◌, ap, ◌∙◌}
use mathlib.Core.Logic.{inl, inr}
use mathlib.Core.Bool.{Bool, true, ◌&&◌}
use mathlib.Core.Option.{Option, none, some}
use mathlib.Core.List.{[], ◌∷◌, ◌++◌, append_assoc, append-nil}
use native.Mathlib.Omega.{arith}
use rest_diameter_bridge.Base.Tests.{
  if◌then◌else◌, ltb, leb, ◌==◌, Bool-cases, ltb→lt, ltb-false→le,
}
use rest_diameter_bridge.Base.Text.{Text}

-- `u32::to_string`.
unfoldable pub digits_of : ℕ → ℕ → Text
digits_of zero n = []
digits_of (suc fuel) n =
    let front = digits_of fuel (n / 10) in
    if ltb n 10 then (48 + n) ∷ [] else front ++ ((48 + n % 10) ∷ [])

-- Ten digits are enough for a `u32`.
unfoldable pub to_decimal : ℕ → Text
unfolding digits_of
to_decimal n = digits_of 10 n

unfoldable pub is_decimal_digit : ℕ → Bool
is_decimal_digit c = leb 48 c && leb c 57

unfoldable pub value_from : ℕ → Text → Option ℕ
value_from n [] = some n
value_from n (c ∷ cs) =
    let m = n * 10 + (c - 48) in
    let rest = value_from m cs in if is_decimal_digit c && ltb m (2 ^ 32) then rest else none

abbrev pub value_of_digits : Text → Option ℕ
value_of_digits [] = none
value_of_digits (c ∷ cs) = value_from 0 (c ∷ cs)

unfoldable pub parse_u32 : Text → Option ℕ
unfolding value_from is_decimal_digit
parse_u32 [] = none
parse_u32 (c ∷ cs) = if c == b'+' then value_of_digits cs else value_of_digits (c ∷ cs)

abbrev pow10 : ℕ → ℕ
pow10 zero = 1
pow10 (suc n) = 10 * pow10 n

-- A digit is read as itself.
value_from-digit :
    (n d : ℕ) (t : Text)
    → d < 10
    → n * 10 + d < 2 ^ 32
    → value_from n ((48 + d) ∷ t) ≡ value_from (n * 10 + d) t
unfolding value_from is_decimal_digit
value_from-digit n d t h b = ground arith

value_from-digits_of :
    (fuel n : ℕ) (t : Text)
    → n < pow10 fuel
    → n < 2 ^ 32
    → 0 < fuel
    → value_from 0 (digits_of fuel n ++ t) ≡ value_from n t
unfolding digits_of
value_from-digits_of zero n t h b p = elim p [ ]
value_from-digits_of (suc fuel) n t h b p = elim (Bool-cases (ltb n 10)) [
  | inl small ↦ rw small (
      value_from-digit 0 n t (ltb→lt n 10 small) (omega arith)
      ∙ ap (λ m. value_from m t) (omega arith))
  | inr big ↦
      let le = ltb-false→le n 10 big in
      rw big (
        rw (append_assoc (digits_of fuel (n / 10)) ((48 + n % 10) ∷ []) t) (
          value_from-digits_of fuel (n / 10) ((48 + n % 10) ∷ t) (omega (arith, h))
            (omega (arith, b)) (positive fuel le h)
          ∙ value_from-digit (n / 10) (n % 10) t (omega arith) (omega (arith, b))
          ∙ ap (λ m. value_from m t) (omega arith)))
]
  where
    positive : (f : ℕ) → 10 ≤ n → n < pow10 (suc f) → 0 < f
    positive zero l u = omega (arith, l, u)
    positive (suc f) l u = omega arith

abbrev StartsWithDigit : Text → Type 0
StartsWithDigit [] = ⊥
StartsWithDigit (c ∷ cs) = is_decimal_digit c ≡ true

StartsWithDigit-append : (s t : Text) → StartsWithDigit s → StartsWithDigit (s ++ t)
StartsWithDigit-append [] t h = elim h [ ]
StartsWithDigit-append (c ∷ cs) t h = h

digits_of-StartsWithDigit :
    (fuel n : ℕ) → n < pow10 fuel → 0 < fuel → StartsWithDigit (digits_of fuel n)
unfolding digits_of is_decimal_digit
digits_of-StartsWithDigit zero n h p = elim p [ ]
digits_of-StartsWithDigit (suc fuel) n h p = elim (Bool-cases (ltb n 10)) [
  | inl small ↦ rw small (ground arith)
  | inr big ↦ rw big (
      StartsWithDigit-append (digits_of fuel (n / 10)) _ (
        digits_of-StartsWithDigit fuel (n / 10) (omega (arith, h))
          (positive fuel (ltb-false→le n 10 big) h)))
]
  where
    positive : (f : ℕ) → 10 ≤ n → n < pow10 (suc f) → 0 < f
    positive zero l u = omega (arith, l, u)
    positive (suc f) l u = omega arith

parse_u32-digits : (s : Text) → StartsWithDigit s → parse_u32 s ≡ value_from 0 s
unfolding parse_u32 is_decimal_digit
parse_u32-digits [] h = elim h [ ]
parse_u32-digits (c ∷ cs) h = ground arith

-- A number printed in decimal is read back.
pub parse_u32-to_decimal : (n : ℕ) → n < 2 ^ 32 → parse_u32 (to_decimal n) ≡ some n
unfolding to_decimal value_from
parse_u32-to_decimal n h =
    parse_u32-digits (digits_of 10 n) (digits_of-StartsWithDigit 10 n (omega arith) (omega arith))
    ∙ ap (value_from 0) (sym (append-nil (digits_of 10 n)))
    ∙ value_from-digits_of 10 n [] (omega arith) h (omega arith)
