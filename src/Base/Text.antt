-- ===== src/Base/Text.antt =====
-- A Rust `String` is the list of its bytes, which are well-formed UTF-8.
use Prim.Native.Nat.{ℕ, ◌+◌}
use Prim.Native.Char.{code}
use Prim.Native.String.{String}
use mathlib.Core.Path.{◌≡◌, refl, ap}
use mathlib.Core.Logic.{◌↔◌}
use mathlib.Core.Bool.{Bool, true, false, ◌&&◌}
use mathlib.Core.Option.{Option, none, some}
use mathlib.Core.List.{List, [], ◌∷◌, map}
use native.Mathlib.Omega.{arith}
use rest_diameter_bridge.Base.Tests.{leb, ◌==◌, if◌then◌else◌}

abbrev pub Text : Type 0
Text = List ℕ

-- The bytes of an ASCII literal.
abbrev pub text : String → Text
text String.[] = []
text (String.◌∷◌ c s) = code c ∷ text s

-- Equality of two `str`, byte by byte.
unfoldable pub text_eq : Text → Text → Bool
text_eq [] [] = true
text_eq [] (y ∷ ys) = false
text_eq (x ∷ xs) [] = false
text_eq (x ∷ xs) (y ∷ ys) = x == y && text_eq xs ys

pub text_eq_sound : (s t : Text) → text_eq s t ≡ true → s ≡ t
unfolding text_eq
text_eq_sound [] [] h = refl
text_eq_sound [] (y ∷ ys) h = cc
text_eq_sound (x ∷ xs) [] h = cc
text_eq_sound (x ∷ xs) (y ∷ ys) h = ground (arith, text_eq_sound xs ys)

pub text_eq_self : (s : Text) → text_eq s s ≡ true
unfolding text_eq
text_eq_self [] = refl
text_eq_self (x ∷ xs) = ground (arith, text_eq_self xs)

pub text_eq_iff : (s t : Text) → (text_eq s t ≡ true) ↔ (s ≡ t)
text_eq_iff s t = (text_eq_sound s t, λ e. cc (text_eq_self s, ap (λ u. text_eq s u) e))

-- `char::to_ascii_lowercase` on the bytes; it is `str::to_lowercase` on ASCII text.
unfoldable pub lower_byte : ℕ → ℕ
lower_byte c = if leb b'A' c && leb c b'Z' then c + 32 else c

unfoldable pub lower : Text → Text
unfolding lower_byte
lower = map lower_byte

abbrev between : ℕ → ℕ → ℕ → Bool
between lo hi c = leb lo c && leb c hi

-- `core::str::from_utf8`'s test: the well-formed sequences of the Unicode standard, table 3-7,
-- as an automaton. A state says which continuation bytes may follow.
pub data Utf8State : Type 0 where
  start one two three after_e0 after_ed after_f0 after_f4 : Utf8State

utf8_first : ℕ → Option Utf8State
utf8_first a =
    if leb a 0x7f
    then some start
    else if between 0xc2 0xdf a
    then some one
    else if a == 0xe0
    then some after_e0
    else if a == 0xed
    then some after_ed
    else if between 0xe1 0xef a
    then some two
    else if a == 0xf0
    then some after_f0
    else if between 0xf1 0xf3 a
    then some three
    else if a == 0xf4
    then some after_f4
    else none

utf8_step : Utf8State → ℕ → Option Utf8State
utf8_step start b = utf8_first b
utf8_step one b = if between 0x80 0xbf b then some start else none
utf8_step two b = if between 0x80 0xbf b then some one else none
utf8_step three b = if between 0x80 0xbf b then some two else none
utf8_step after_e0 b = if between 0xa0 0xbf b then some one else none
utf8_step after_ed b = if between 0x80 0x9f b then some one else none
utf8_step after_f0 b = if between 0x90 0xbf b then some two else none
utf8_step after_f4 b = if between 0x80 0x8f b then some two else none

utf8_from : Option Utf8State → List ℕ → Bool
utf8_from none bs = false
utf8_from (some start) [] = true
utf8_from (some _) [] = false
utf8_from (some s) (b ∷ bs) = utf8_from (utf8_step s b) bs

unfoldable pub is_utf8 : List ℕ → Bool
unfolding utf8_from utf8_step utf8_first
is_utf8 bs = utf8_from (some start) bs

-- `String::from_utf8(bytes).ok()`.
unfoldable pub string_from_utf8 : List ℕ → Option Text
string_from_utf8 bs = if is_utf8 bs then some bs else none

pub string_from_utf8-some : (s : Text) → is_utf8 s ≡ true → string_from_utf8 s ≡ some s
unfolding string_from_utf8
string_from_utf8-some s h = rw h

pub string_from_utf8-eq : (bs s : Text) → string_from_utf8 bs ≡ some s → s ≡ bs
unfolding string_from_utf8
string_from_utf8-eq bs s h = ground arith

utf8_tests :
    (is_utf8 (text "host.example") ≡ true)
    × (is_utf8 (0xe2 ∷ 0x82 ∷ 0xac ∷ []) ≡ true)
    × (is_utf8 (0xc0 ∷ 0x80 ∷ []) ≡ false)
    × (is_utf8 (0xed ∷ 0xa0 ∷ 0x80 ∷ []) ≡ false)
unfolding is_utf8
utf8_tests = (refl, refl, refl, refl)
