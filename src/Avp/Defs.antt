-- ===== src/Avp/Defs.antt =====
-- `Avp` of src/avp.rs, its constructors and its scalar views. A `Vec<u8>` is a list of numbers, a
-- `String` the list of its bytes. A `Vec<Avp>` inside an `Avp` is the type `Avps` of the block.
use Prim.Native.Nat.{bit_and, bit_or}
use rest_diameter_bridge.Base.{
  ℕ, ◌+◌, ◌-◌, ◌^◌, Bool, true, false, not, ◌&&◌, Option, none, some, List, [], ◌∷◌, ◌++◌, length,
  ◌==◌, if◌then◌else◌,
}
use rest_diameter_bridge.Base.Bytes.{
  u32, u16_to_be_bytes, u32_to_be_bytes, u64_to_be_bytes, u16_from_be_bytes, u32_from_be_bytes,
  u64_from_be_bytes,
}
use rest_diameter_bridge.Base.Text.{Text, string_from_utf8}
use rest_diameter_bridge.Base.Int.{ℤ, to_word, from_word}

mutual
  pub data Avp : Type 0 where
    avp : ℕ → ℕ → Option ℕ → Option (List ℕ) → Avps → Avp

  pub data Avps : Type 0 where
    nil : Avps
    cons : Avp → Avps → Avps

abbrev pub code : Avp → ℕ
code (avp c f v d s) = c

abbrev pub flags : Avp → ℕ
flags (avp c f v d s) = f

abbrev pub vendor_id : Avp → Option ℕ
vendor_id (avp c f v d s) = v

abbrev pub payload : Avp → Option (List ℕ)
payload (avp c f v d s) = d

abbrev pub sub_avps : Avp → Avps
sub_avps (avp c f v d s) = s

abbrev pub set_payload : Avp → List ℕ → Avp
set_payload (avp c f v d s) bytes = avp c f v (some bytes) s

-- The elements of the vector, and the vector of the elements.
abbrev pub to_list : Avps → List Avp
to_list nil = []
to_list (cons a as') = a ∷ to_list as'

abbrev pub from_list : List Avp → Avps
from_list [] = nil
from_list (a ∷ as') = cons a (from_list as')

-- `Avp::new`: the vendor bit is set if there is a vendor and cleared if there is none.
unfoldable pub new : ℕ → ℕ → Option ℕ → List ℕ → Avp
new c f (some v) bytes = avp c (bit_or f 0x80) (some v) (some bytes) nil
new c f none bytes = avp c (bit_and f 0x7f) none (some bytes) nil

-- `&str::as_bytes` is the text itself.
unfoldable pub from_octet_string : ℕ → ℕ → Option ℕ → Text → Avp
from_octet_string c f v value = new c f v value

unfoldable pub from_utf8_string : ℕ → ℕ → Option ℕ → Text → Avp
from_utf8_string c f v value = new c f v value

unfoldable pub from_integer32 : ℕ → ℕ → Option ℕ → ℤ → Avp
from_integer32 c f v value = new c f v (u32_to_be_bytes (to_word 32 value))

unfoldable pub from_unsigned32 : ℕ → ℕ → Option ℕ → ℕ → Avp
from_unsigned32 c f v value = new c f v (u32_to_be_bytes value)

-- 1 January 1970 in seconds since 1900.
abbrev pub ntp_offset : ℕ
ntp_offset = 2208988800

-- The sum of two `u32`; it wraps in a release build.
unfoldable pub from_time : ℕ → ℕ → Option ℕ → ℕ → Avp
from_time c f v time = from_unsigned32 c f v (u32 (ntp_offset + time))

-- `Avp::from_grouped` sets 0x40 and leaves the vendor bit as it is.
unfoldable pub from_grouped : ℕ → ℕ → Option ℕ → Avps → Avp
from_grouped c f v subs = avp c (bit_or f 0x40) v none subs

unfoldable pub is_vendor_specific : ℕ → Bool
is_vendor_specific f = not (bit_and f 0x80 == 0)

abbrev is_empty : Avps → Bool
is_empty nil = true
is_empty (cons a as') = false

unfoldable pub is_grouped : Avp → Bool
is_grouped (avp c f v none subs) = not (is_empty subs)
is_grouped (avp c f v (some d) subs) = false

-- The array of the four (eight) bytes, if there are exactly so many.
abbrev pub read_u32 : List ℕ → Option ℕ
read_u32 (a ∷ b ∷ c ∷ d ∷ []) = some (u32_from_be_bytes a b c d)
read_u32 _ = none

abbrev pub read_u64 : List ℕ → Option ℕ
read_u64 (a ∷ b ∷ c ∷ d ∷ e ∷ f ∷ g ∷ h ∷ []) = some (u64_from_be_bytes a b c d e f g h)
read_u64 _ = none

abbrev pub map_option {ℓ κ} : {A : Type ℓ} {B : Type κ} → (A → B) → Option A → Option B
map_option f none = none
map_option f (some a) = some (f a)

abbrev pub and_then {ℓ κ} : {A : Type ℓ} {B : Type κ} → Option A → (A → Option B) → Option B
and_then none f = none
and_then (some a) f = f a

unfoldable pub as_unsigned32 : Avp → Option ℕ
as_unsigned32 a = and_then (payload a) read_u32

unfoldable pub set_unsigned32 : Avp → ℕ → Avp
set_unsigned32 a value = set_payload a (u32_to_be_bytes value)

unfoldable pub as_integer32 : Avp → Option ℤ
as_integer32 a = map_option (from_word 32 31) (and_then (payload a) read_u32)

unfoldable pub set_integer32 : Avp → ℤ → Avp
set_integer32 a value = set_payload a (u32_to_be_bytes (to_word 32 value))

unfoldable pub as_unsigned64 : Avp → Option ℕ
as_unsigned64 a = and_then (payload a) read_u64

unfoldable pub set_unsigned64 : Avp → ℕ → Avp
set_unsigned64 a value = set_payload a (u64_to_be_bytes value)

unfoldable pub as_integer64 : Avp → Option ℤ
as_integer64 a = map_option (from_word 64 63) (and_then (payload a) read_u64)

unfoldable pub set_integer64 : Avp → ℤ → Avp
set_integer64 a value = set_payload a (u64_to_be_bytes (to_word 64 value))

unfoldable pub set_octet_string : Avp → List ℕ → Avp
set_octet_string a value = set_payload a value

unfoldable pub as_octet_string : Avp → List ℕ
as_octet_string a = elim (payload a) [ none ↦ [] | some d ↦ d ]

unfoldable pub as_utf8_string : Avp → Option Text
as_utf8_string a = and_then (payload a) string_from_utf8

unfoldable pub set_utf8_string : Avp → Text → Avp
set_utf8_string a value = set_payload a value

-- The difference of two `u32`; it wraps in a release build.
unfoldable pub as_time : Avp → Option ℕ
as_time a = map_option (λ ntp. u32 (ntp + 2 ^ 32 - ntp_offset)) (and_then (payload a) read_u32)

-- `Avp::set_grouped`.
unfoldable pub set_grouped : Avp → Avps → Avp
set_grouped (avp c f v d s) subs = avp c (bit_or f 0x40) v none subs

-- `Ipv4Addr` and `Ipv6Addr` as `as_address` takes them from the bytes, and `from_address` once the
-- text is parsed. Parsing and printing of addresses is the standard library's.
pub data IpAddress : Type 0 where
  v4 v6 : List ℕ → IpAddress

unfoldable pub from_address : ℕ → ℕ → Option ℕ → Option IpAddress → Avp
from_address c f v (some (v4 octets)) = new c f v (u16_to_be_bytes 1 ++ octets)
from_address c f v (some (v6 octets)) = new c f v (u16_to_be_bytes 2 ++ octets)
from_address c f v none = new c f v []

address_of : List ℕ → Option IpAddress
address_of (a ∷ b ∷ octets) =
    let kind = u16_from_be_bytes a b in
    let n = length octets + 2 in
    if kind == 1 && n == 6
    then some (v4 octets)
    else if kind == 2 && n == 18
    then some (v6 octets)
    else none
address_of _ = none

unfoldable pub as_address : Avp → Option IpAddress
unfolding address_of
as_address a = and_then (payload a) address_of
