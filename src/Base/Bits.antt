-- ===== src/Base/Bits.antt =====
-- Masks on one byte, as arithmetic: tables of 256 values, checked by evaluation.
use Prim.Native.Nat.{ℕ, zero, suc, ◌+◌, ◌*◌, ◌/◌, ◌%◌, ◌<◌, bit_and, bit_or}
use mathlib.Core.Path.{◌≡◌, refl}
use mathlib.Core.Bool.{Bool, true, ◌&&◌}
use native.Mathlib.Omega.{arith}
use rest_diameter_bridge.Base.Tests.{◌==◌, ==_iff}

unfoldable pub all_below : ℕ → (ℕ → Bool) → Bool
all_below zero p = true
all_below (suc n) p = p n && all_below n p

pub all_below_sound : (n : ℕ) (p : ℕ → Bool) (x : ℕ) → all_below n p ≡ true → x < n → p x ≡ true
unfolding all_below
all_below_sound zero p x h lt = elim lt [ ]
all_below_sound (suc n) p x h lt = ground (arith, all_below_sound n p x)

-- `x & 0x80` is 128 times the top bit.
pub top_bit : (x : ℕ) → x < 256 → bit_and x 0x80 ≡ x / 128 * 128
unfolding all_below
top_bit x h = (==_iff _ _).0 (all_below_sound 256 (λ b. bit_and b 0x80 == b / 128 * 128) x refl h)

pub set_top_bit : (x : ℕ) → x < 256 → bit_or x 0x80 ≡ x % 128 + 128
unfolding all_below
set_top_bit x h =
    (==_iff _ _).0 (all_below_sound 256 (λ b. bit_or b 0x80 == b % 128 + 128) x refl h)

pub clear_top_bit : (x : ℕ) → x < 256 → bit_and x 0x7f ≡ x % 128
unfolding all_below
clear_top_bit x h = (==_iff _ _).0 (all_below_sound 256 (λ b. bit_and b 0x7f == b % 128) x refl h)

-- `x | 0x40` sets the mandatory bit and leaves the others.
pub set_mandatory_bit : (x : ℕ) → x < 256 → bit_or x 0x40 ≡ x / 128 * 128 + 64 + x % 64
unfolding all_below
set_mandatory_bit x h =
    (==_iff _ _).0
      (all_below_sound 256 (λ b. bit_or b 0x40 == b / 128 * 128 + 64 + b % 64) x refl h)
