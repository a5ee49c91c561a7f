-- ===== src/Base/Json/Objects.antt =====
-- The members of a JSON object: look-up after insertion, and insertion in the order of the keys.
use mathlib.Core.Path.{◌≡◌, refl, ap}
use mathlib.Core.Bool.{Bool, true, false}
use mathlib.Core.Option.{Option, some}
use mathlib.Core.List.{[], ◌∷◌}
use native.Mathlib.Omega.{arith}
use rest_diameter_bridge.Base.Json.{Value, Entries, no_entry, entry, text_lt, get, insert_entry}
use rest_diameter_bridge.Base.Text.{Text, text_eq, text_eq_sound}
use rest_diameter_bridge.Base.Tests.{Bool-cases, if◌then◌else◌}
use mathlib.Core.Logic.{inl, inr}

-- The order of texts is irreflexive and asymmetric.
pub text_lt-ne : (s t : Text) → text_lt s t ≡ true → text_eq t s ≡ false
unfolding text_lt text_eq
text_lt-ne s [] h = absurd (cc h)
text_lt-ne [] (y ∷ ys) h = refl
text_lt-ne (x ∷ xs) (y ∷ ys) h = ground (arith, text_lt-ne xs ys)

pub text_lt_asym : (s t : Text) → text_lt s t ≡ true → text_lt t s ≡ false
unfolding text_lt
text_lt_asym s [] h = absurd (cc h)
text_lt_asym [] (y ∷ ys) h = refl
text_lt_asym (x ∷ xs) (y ∷ ys) h = ground (arith, text_lt_asym xs ys)

twice :
    (b : Bool) (v w : Value) (o : Option Value)
    → (if b then some v else o) ≡ (if b then some v else (if b then some w else o))
twice true v w o = refl
twice false v w o = refl

swap :
    (b c : Bool) (v w : Value) (o : Option Value)
    → (b ≡ true → c ≡ true → ⊥)
    → (if b then some w else (if c then some v else o))
      ≡ (if c then some v else (if b then some w else o))
swap true true v w o h = absurd (h refl refl)
swap true false v w o h = refl
swap false c v w o h = refl

different : (k i j : Text) → text_eq j i ≡ false → text_eq k i ≡ true → text_eq k j ≡ true → ⊥
different k i j e a b = cc (e, a, ap (λ t. text_eq t i) (text_eq_sound k j b))

-- An insertion replaces the value of its key and of no other.
pub get-insert_entry :
    (k j : Text) (v : Value) (es : Entries)
    → get k (insert_entry j v es) ≡ (if text_eq k j then some v else get k es)
unfolding get insert_entry
get-insert_entry k j v no_entry = refl
get-insert_entry k j v (entry i w es) = elim (Bool-cases (text_eq j i)) [
  | inl e ↦ rw e (rw (text_eq_sound j i e) (twice (text_eq k i) v w (get k es)))
  | inr e ↦ rw e (elim (Bool-cases (text_lt j i)) [
    | inl l ↦ rw l refl
    | inr l ↦ rw l (
        rw (get-insert_entry k j v es)
          (swap (text_eq k i) (text_eq k j) v w (get k es) (λ a b. different k i j e a b)))
  ])
]

-- Each key is below the keys behind it.
abbrev pub AllAbove : Text → Entries → Type 0
AllAbove k no_entry = Unit
AllAbove k (entry j v es) = (text_lt k j ≡ true) × AllAbove k es

abbrev pub IsSorted : Entries → Type 0
IsSorted no_entry = Unit
IsSorted (entry k v es) = AllAbove k es × IsSorted es

abbrev pub append_entries : Entries → Entries → Entries
append_entries no_entry fs = fs
append_entries (entry k v es) fs = entry k v (append_entries es fs)

abbrev pub AllBelow : Entries → Text → Type 0
AllBelow no_entry k = Unit
AllBelow (entry j v es) k = (text_lt j k ≡ true) × AllBelow es k

-- Every key of the first object is below every key of the second.
abbrev pub Before : Entries → Entries → Type 0
Before es no_entry = Unit
Before es (entry k v fs) = AllBelow es k × Before es fs

pub insert_entry-AllBelow :
    (es : Entries) (k : Text) (v : Value)
    → AllBelow es k
    → insert_entry k v es ≡ append_entries es (entry k v no_entry)
unfolding insert_entry
insert_entry-AllBelow no_entry k v h = refl
insert_entry-AllBelow (entry j w es) k v h =
    rw (text_lt-ne j k h.0)
      (rw (text_lt_asym j k h.0) (ap (entry j w) (insert_entry-AllBelow es k v h.1)))

pub append_entries_assoc :
    (es fs gs : Entries)
    → append_entries (append_entries es fs) gs ≡ append_entries es (append_entries fs gs)
append_entries_assoc no_entry fs gs = refl
append_entries_assoc (entry k v es) fs gs = ap (entry k v) (append_entries_assoc es fs gs)

AllBelow-append :
    (es : Entries) (k j : Text) (v : Value)
    → AllBelow es j
    → text_lt k j ≡ true
    → AllBelow (append_entries es (entry k v no_entry)) j
AllBelow-append no_entry k j v h l = (l, tt)
AllBelow-append (entry i w es) k j v h l = (h.0, AllBelow-append es k j v h.1 l)

pub Before-append :
    (es fs : Entries) (k : Text) (v : Value)
    → Before es fs
    → AllAbove k fs
    → Before (append_entries es (entry k v no_entry)) fs
Before-append es no_entry k v h a = tt
Before-append es (entry j w fs) k v h a =
    (AllBelow-append es k j v h.0 a.0, Before-append es fs k v h.1 a.1)

pub Before-no_entry : (es : Entries) → Before no_entry es
Before-no_entry no_entry = tt
Before-no_entry (entry k v es) = (tt, Before-no_entry es)
