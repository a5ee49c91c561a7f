-- ===== src/Command/Flags.antt =====
-- `CommandFlags` of src/command.rs. The letters are compared after `to_lowercase`; a byte of a
-- non-ASCII character is no letter, so the model walks the bytes.
use rest_diameter_bridge.Base.Bits.{all_below, all_below_sound}
use rest_diameter_bridge.Base.Text.{Text, lower}
use rest_diameter_bridge.Base.{
  ◌==◌, if◌then◌else◌, ℕ, ◌*◌, ◌/◌, ◌<◌, ◌≡◌, refl, Bool, true, not, ◌&&◌, Option, none, some, List,
  [], ◌∷◌, ◌++◌, arith,
}
use Prim.Native.Nat.{bit_and, bit_or}

pub data CommandFlags : Type 0 where
  request proxiable error potentially_retransmitted : CommandFlags

abbrev pub command_flags_as_u8 : CommandFlags → ℕ
command_flags_as_u8 request = 0x80
command_flags_as_u8 proxiable = 0x40
command_flags_as_u8 error = 0x20
command_flags_as_u8 potentially_retransmitted = 0x10

unfoldable pub flag_of : ℕ → Option CommandFlags
flag_of c =
    if c == b'r'
    then some request
    else if c == b'p'
    then some proxiable
    else if c == b'e'
    then some error
    else if c == b't'
    then some potentially_retransmitted
    else none

-- The flags of the letters, in order; other letters are skipped.
unfoldable pub flags_of : Text → List CommandFlags
unfolding flag_of
flags_of [] = []
flags_of (c ∷ rest) = elim (flag_of c) [ none ↦ flags_of rest | some flag ↦ flag ∷ flags_of rest ]

abbrev non_empty : List CommandFlags → Option (List CommandFlags)
non_empty [] = none
non_empty (x ∷ xs) = some (x ∷ xs)

-- `CommandFlags::from_str`.
unfoldable pub command_flags_from_str : Text → Option (List CommandFlags)
unfolding flags_of lower
command_flags_from_str value = non_empty (flags_of (lower value))

abbrev letter_if : ℕ → ℕ → ℕ → Text
letter_if value mask letter = if bit_and value mask == 0 then [] else letter ∷ []

unfoldable pub str_from_u8 : ℕ → Text
str_from_u8 value =
    letter_if value 0x80 b'R'
    ++ (letter_if value 0x40 b'P' ++ (letter_if value 0x20 b'E' ++ letter_if value 0x10 b'T'))

unfoldable pub or_flags : ℕ → Text → ℕ
unfolding flag_of
or_flags result [] = result
or_flags result (c ∷ rest) =
    or_flags
      (elim (flag_of c) [ none ↦ result | some flag ↦ bit_or result (command_flags_as_u8 flag) ])
      rest

unfoldable pub u8_from_str : Text → Option ℕ
unfolding or_flags lower
u8_from_str value =
    let result = or_flags 0 (lower value) in if result == 0 then none else some result

abbrev none_as_zero : Option ℕ → ℕ
none_as_zero none = 0
none_as_zero (some n) = n

abbrev pub flags_or_none : ℕ → Option ℕ
flags_or_none f = if f == 0 then none else some f

same_flags : Option ℕ → ℕ → Bool
same_flags none f = f == 0
same_flags (some n) f = n == f && not (f == 0)

same_flags_sound : (o : Option ℕ) (f : ℕ) → same_flags o f ≡ true → o ≡ flags_or_none f
unfolding same_flags
same_flags_sound none f h = ground arith
same_flags_sound (some n) f h = ground arith

-- The letters printed for an octet of flags are read back as its upper four bits, and as nothing
-- if those are zero.
pub u8_from_str-str_from_u8 :
    (value : ℕ) → value < 256 → u8_from_str (str_from_u8 value) ≡ flags_or_none (value / 16 * 16)
unfolding u8_from_str str_from_u8 same_flags all_below
u8_from_str-str_from_u8 value h =
    same_flags_sound _ _ (
      all_below_sound 256 (λ b. same_flags (u8_from_str (str_from_u8 b)) (b / 16 * 16)) value refl
        h)
