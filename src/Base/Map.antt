-- ===== src/Base/Map.antt =====
-- `HashMap` as the function from keys to values, with the operations that the program uses.
use rest_diameter_bridge.Base.{◌≢◌, false, Bool-cases, inl, inr}
use mathlib.Core.Path.{◌≡◌, refl}
use mathlib.Core.Logic.{◌↔◌}
use mathlib.Core.Bool.{Bool, true}
use mathlib.Core.Option.{Option, none, some}
use Prim.Native.Nat.{ℕ}
use rest_diameter_bridge.Base.Tests.{if◌then◌else◌, ◌==◌ as nat_beq, ==_iff}
use rest_diameter_bridge.Base.Text.{Text, text_eq, text_eq_iff}

-- The `Eq` of a key type.
pub record Key {ℓ} (K : Type ℓ) : Type ℓ where
  pub beq : K → K → Bool
  pub beq_iff : (a b : K) → (beq a b ≡ true) ↔ (a ≡ b)

instance abbrev pub nat_key : Key ℕ
nat_key = record { beq = nat_beq; beq_iff = ==_iff }

instance abbrev pub text_key : Key Text
text_key = record { beq = text_eq; beq_iff = text_eq_iff }

abbrev pub Map : Type 0 → Type 0 → Type 0
Map K V = K → Option V

abbrev pub empty_map : {K V : Type 0} → Map K V
empty_map k = none

-- Keep what the test says, which is given the key and the value.
abbrev keep_if {ℓ} : {V : Type ℓ} → Bool → V → Option V
keep_if b v = if b then some v else none

abbrev pub filter_entry {ℓ} : {V : Type ℓ} → (V → Bool) → Option V → Option V
filter_entry p none = none
filter_entry p (some v) = keep_if (p v) v

abbrev pub retain : {K V : Type 0} → (K → V → Bool) → Map K V → Map K V
retain p m k = filter_entry (p k) (m k)

module _ {K V : Type 0} ⦃e : Key K⦄ where
  abbrev pub insert : K → V → Map K V → Map K V
  insert k v m j = if e.beq j k then some v else m j

  abbrev pub remove : K → Map K V → Map K V
  remove k m j = if e.beq j k then none else m j

module _ {K : Type 0} ⦃e : Key K⦄ where
  pub beq_self : (k : K) → e.beq k k ≡ true
  beq_self k = (e.beq_iff k k).1 refl

  pub beq-ne : (j k : K) → j ≢ k → e.beq j k ≡ false
  beq-ne j k ne = elim (Bool-cases (e.beq j k)) [
    | inl t ↦ absurd (ne ((e.beq_iff j k).0 t))
    | inr u ↦ u
  ]
