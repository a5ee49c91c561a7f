-- ===== src/Command/Json/Request.antt =====
-- The request bit of a command that is read from JSON, and the definition that is found for it.
use rest_diameter_bridge.Base.Text.{Text, text, text_eq, text_eq_sound}
use mathlib.Core.Path.{subst}
use mathlib.Core.Option.{some-injective}
use Prim.Native.Nat.{bit_or, bit_and}
use rest_diameter_bridge.Base.Bits.{all_below, all_below_sound}
use rest_diameter_bridge.Command.Json.{
  Reading, read_entry, read_entries, command_of, letters_of, or_all,
}
use rest_diameter_bridge.Command.Json.Loop.{read_flags-kept}
use rest_diameter_bridge.Command.Flags.{
  CommandFlags, request, proxiable, error, potentially_retransmitted, command_flags_as_u8,
}
use rest_diameter_bridge.Command.Dictionary.{
  CommandJson, first_with, command_by_code, same_bool, defined_flags,
}
use rest_diameter_bridge.Command.Dictionary.Laws.{has_code, command_by_code-new}
use rest_diameter_bridge.Command.Dictionary.Standard.{standard_commands, new_command_map}
use rest_diameter_bridge.Command.Defs.{is_request}
use rest_diameter_bridge.Avp.Json.{Codecs}
use rest_diameter_bridge.Avp.Dictionary.{AvpMap}
use rest_diameter_bridge.Base.Json.{Value, Entries, no_entry, entry}
use rest_diameter_bridge.Base.{
  ℕ, Bool, true, false, some, List, [], ◌∷◌, inl, inr, ltb, ◌==◌, if◌then◌else◌, ltb→lt, ==_iff,
  Bool-cases, ◌<◌, ◌≡◌, refl, sym, ◌∙◌, not, ◌&&◌, ◌++◌,
}

-- The letters of flags make an octet.
bit_or-lt : (f : CommandFlags) (n : ℕ) → n < 256 → bit_or n (command_flags_as_u8 f) < 256
unfolding all_below
bit_or-lt request n h = ltb→lt _ _ (all_below_sound 256 (λ x. ltb (bit_or x 0x80) 256) n refl h)
bit_or-lt proxiable n h = ltb→lt _ _ (all_below_sound 256 (λ x. ltb (bit_or x 0x40) 256) n refl h)
bit_or-lt error n h = ltb→lt _ _ (all_below_sound 256 (λ x. ltb (bit_or x 0x20) 256) n refl h)
bit_or-lt potentially_retransmitted n h =
    ltb→lt _ _ (all_below_sound 256 (λ x. ltb (bit_or x 0x10) 256) n refl h)

or_all-lt : (fs : List CommandFlags) (n : ℕ) → n < 256 → or_all n fs < 256
or_all-lt [] n h = h
or_all-lt (f ∷ fs) n h = or_all-lt fs (bit_or n (command_flags_as_u8 f)) (bit_or-lt f n h)

read_flags-set :
    (k : Codecs) (m : AvpMap) (key : Text) (v : Value) (r : Reading)
    → key ≡ text "flags"
    → (read_entry k m key v r).read_flags ≡ or_all r.read_flags (letters_of v)
unfolding read_entry text_eq
read_flags-set k m key v r e = rw e refl

pub read_flags-lt :
    (k : Codecs) (m : AvpMap) (es : Entries) (r : Reading)
    → r.read_flags < 256
    → (read_entries k m es r).read_flags < 256
unfolding read_entries
read_flags-lt k m no_entry r h = h
read_flags-lt k m (entry key v es) r h =
    read_flags-lt k m es (read_entry k m key v r) (elim (Bool-cases (text_eq key (text "flags"))) [
      | inl t ↦
          rw (read_flags-set k m key v r (text_eq_sound key (text "flags") t))
            (or_all-lt (letters_of v) r.read_flags h)
      | inr t ↦ rw (read_flags-kept k m key v r t) h
    ])

keeps_request :
    (p e : Bool) (z : ℕ)
    → z < 256
    → not (
        bit_and
          (bit_or (bit_or (bit_or 0x80 (if p then 0x40 else 0)) (if e then 0x20 else 0)) z)
          0x80
        == 0)
      ≡ true
unfolding all_below
keeps_request true true z h =
    all_below_sound 256 (λ x. not (bit_and (bit_or 0xe0 x) 0x80 == 0)) z refl h
keeps_request true false z h =
    all_below_sound 256 (λ x. not (bit_and (bit_or 0xc0 x) 0x80 == 0)) z refl h
keeps_request false true z h =
    all_below_sound 256 (λ x. not (bit_and (bit_or 0xa0 x) 0x80 == 0)) z refl h
keeps_request false false z h =
    all_below_sound 256 (λ x. not (bit_and (bit_or 0x80 x) 0x80 == 0)) z refl h

pub is_request-command_of :
    (m : AvpMap) (d : CommandJson) (r : Reading)
    → d.request_bit ≡ true
    → r.read_flags < 256
    → is_request (command_of m d r) ≡ true
unfolding is_request defined_flags
is_request-command_of m d r e h = rw e (keeps_request d.proxiable_bit d.error_bit r.read_flags h)

first_with_sound :
    (p : CommandJson → Bool) (ds : List CommandJson) (d : CommandJson)
    → first_with p ds ≡ some d
    → p d ≡ true
unfolding first_with
first_with_sound p [] d h = absurd (cc h)
first_with_sound p (e ∷ ds) d h = elim (Bool-cases (p e)) [
  | inl t ↦ subst (λ x. p x ≡ true) (some-injective _ _ (rw t at h)) t
  | inr t ↦ first_with_sound p ds d (rw t at h)
]

and_both : (a b : Bool) → (a && b) ≡ true → (a ≡ true) × (b ≡ true)
and_both true b h = (refl, h)
and_both false b h = absurd (cc h)

same_bool_sound : (a b : Bool) → same_bool a b ≡ true → a ≡ b
same_bool_sound true b h = sym h
same_bool_sound false true h = absurd (cc h)
same_bool_sound false false h = refl

-- A definition that is found has the code and the request bit.
pub command_by_code_sound :
    (code : ℕ) (b : Bool) (ds : List CommandJson) (d : CommandJson)
    → command_by_code code b (new_command_map ds) ≡ some d
    → (d.defined_code ≡ code) × (d.request_bit ≡ b)
command_by_code_sound code b ds d h =
    let both = and_both (code == d.defined_code) (same_bool d.request_bit b) (
      first_with_sound (has_code code b) (standard_commands ++ ds) d
        (sym (command_by_code-new code b ds) ∙ h)) in
    (sym ((==_iff code d.defined_code).0 both.0), same_bool_sound d.request_bit b both.1)
