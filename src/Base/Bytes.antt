-- ===== src/Base/Bytes.antt =====
-- Machine words as native numbers, and Rust's `to_be_bytes` and `from_be_bytes`.
use rest_diameter_bridge.Base.{Bool, true, Bool-cases, if◌then◌else◌, ltb, false, inl, ltb→lt, inr}
use Prim.Native.Nat.{ℕ, ◌+◌, ◌*◌, ◌/◌, ◌%◌, ◌^◌, ◌<◌}
use mathlib.Core.Path.{◌≡◌}
use mathlib.Core.List.{List, [], ◌∷◌, ◌++◌}
use native.Mathlib.Omega.{arith}
use rest_diameter_bridge.Base.Lists.{All}

-- `n as u32`, and what a wrapping 32-bit sum of unwrapped summands is.
abbrev pub u32 : ℕ → ℕ
u32 n = n % 2 ^ 32

abbrev pub IsByte : ℕ → Type 0
IsByte b = b < 256

abbrev pub IsU32 : ℕ → Type 0
IsU32 n = n < 2 ^ 32

abbrev pub u16_to_be_bytes : ℕ → List ℕ
u16_to_be_bytes v = (v / 2 ^ 8 % 256) ∷ v % 256 ∷ []

abbrev pub u32_to_be_bytes : ℕ → List ℕ
u32_to_be_bytes v = (v / 2 ^ 24 % 256) ∷ (v / 2 ^ 16 % 256) ∷ (v / 2 ^ 8 % 256) ∷ (v % 256) ∷ []

abbrev pub u64_to_be_bytes : ℕ → List ℕ
u64_to_be_bytes v = u32_to_be_bytes (v / 2 ^ 32 % 2 ^ 32) ++ u32_to_be_bytes (v % 2 ^ 32)

-- The arguments are the four, the two or the eight bytes of the array.
abbrev pub u32_from_be_bytes : ℕ → ℕ → ℕ → ℕ → ℕ
u32_from_be_bytes a b c d = a * 2 ^ 24 + b * 2 ^ 16 + c * 2 ^ 8 + d

abbrev pub u16_from_be_bytes : ℕ → ℕ → ℕ
u16_from_be_bytes a b = a * 2 ^ 8 + b

abbrev pub u64_from_be_bytes : ℕ → ℕ → ℕ → ℕ → ℕ → ℕ → ℕ → ℕ → ℕ
u64_from_be_bytes a b c d e f g h = u32_from_be_bytes a b c d * 2 ^ 32 + u32_from_be_bytes e f g h

pub u32_be_round :
    (v : ℕ)
    → IsU32 v
    → u32_from_be_bytes (v / 2 ^ 24 % 256) (v / 2 ^ 16 % 256) (v / 2 ^ 8 % 256) (v % 256) ≡ v
u32_be_round v h = omega arith

pub u24_be_round :
    (v : ℕ) → v < 2 ^ 24 → u32_from_be_bytes 0 (v / 2 ^ 16 % 256) (v / 2 ^ 8 % 256) (v % 256) ≡ v
u24_be_round v h = omega arith

pub u32_to_be_bytes-IsByte : (v : ℕ) → All IsByte (u32_to_be_bytes v)
u32_to_be_bytes-IsByte v = omega arith

-- The bytes of the number that four bytes stand for.
pub u32_be_bytes :
    (a b c d : ℕ)
    → IsByte a
    → IsByte b
    → IsByte c
    → IsByte d
    → u32_to_be_bytes (u32_from_be_bytes a b c d) ≡ a ∷ b ∷ c ∷ d ∷ []
u32_be_bytes a b c d ha hb hc hd = cc (byte_3, byte_2, byte_1, byte_0)
  where
    n : ℕ
    n = u32_from_be_bytes a b c d

    byte_3 : n / 2 ^ 24 % 256 ≡ a
    byte_3 = omega arith

    byte_2 : n / 2 ^ 16 % 256 ≡ b
    byte_2 = omega arith

    byte_1 : n / 2 ^ 8 % 256 ≡ c
    byte_1 = omega arith

    byte_0 : n % 256 ≡ d
    byte_0 = omega arith

-- The test of a list of bytes.
abbrev pub are_bytes : List ℕ → Bool
are_bytes [] = true
are_bytes (x ∷ xs) = if ltb x 256 then are_bytes xs else false

pub are_bytes-IsByte : (xs : List ℕ) → are_bytes xs ≡ true → All IsByte xs
are_bytes-IsByte [] h = tt
are_bytes-IsByte (x ∷ xs) h = elim (Bool-cases (ltb x 256)) [
  | inl t ↦ (ltb→lt x 256 t, are_bytes-IsByte xs (rw t at h))
  | inr f ↦ absurd (cc (rw f at h))
]
