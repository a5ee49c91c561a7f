-- ===== src/Base/Int.antt =====
-- Signed integers over the native numbers, and two's complement words.
use Prim.Native.Nat.{ℕ, ◌-◌, ◌^◌, ◌<◌}
use mathlib.Core.Path.{◌≡◌}
use native.Mathlib.Omega.{arith}
use rest_diameter_bridge.Base.Tests.{ltb, if◌then◌else◌}

-- `negsuc n` is -(n + 1).
pub data ℤ : Type 0 where
  pos : ℕ → ℤ
  negsuc : ℕ → ℤ

-- The two's complement word of `w` bits of an integer in range, and the integer of a word.
abbrev pub to_word : ℕ → ℤ → ℕ
to_word w (pos n) = n
to_word w (negsuc n) = 2 ^ w - 1 - n

abbrev pub from_word : ℕ → ℕ → ℕ → ℤ
from_word w half n = if ltb n (2 ^ half) then pos n else negsuc (2 ^ w - 1 - n)

abbrev pub IsI32 : ℤ → Type 0
IsI32 (pos n) = n < 2 ^ 31
IsI32 (negsuc n) = n < 2 ^ 31

abbrev pub IsI64 : ℤ → Type 0
IsI64 (pos n) = n < 2 ^ 63
IsI64 (negsuc n) = n < 2 ^ 63

pub i32_word : (v : ℤ) → IsI32 v → (to_word 32 v < 2 ^ 32) × (from_word 32 31 (to_word 32 v) ≡ v)
i32_word (pos n) h = ground arith
i32_word (negsuc n) h = ground arith

pub i64_word : (v : ℤ) → IsI64 v → (to_word 64 v < 2 ^ 64) × (from_word 64 63 (to_word 64 v) ≡ v)
i64_word (pos n) h = ground arith
i64_word (negsuc n) h = ground arith
