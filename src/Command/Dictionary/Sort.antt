-- ===== src/Command/Dictionary/Sort.antt =====
-- `CommandJson::sort_avps` of src/command.rs. `sort_by_key` is stable: among AVPs of one key the
-- order stays. There is one such order of a list, and insertion from the back gives it.
pub mod Names
use rest_diameter_bridge.Base.Text.{Text, text_eq}
use rest_diameter_bridge.Command.Dictionary.{CommandJson}
use rest_diameter_bridge.Avp.Dictionary.{AvpMap, AvpJson, get_by_code}
use rest_diameter_bridge.Avp.Defs.{Avp, code}
use rest_diameter_bridge.Base.{
  ℕ, zero, suc, Bool, true, false, Option, none, some, List, [], ◌∷◌, inl, inr, leb, ◌==◌,
  if◌then◌else◌, le→leb, leb-eq-false, Bool-cases, All, ◌-◌, ◌^◌, ◌≤◌, ◌<◌, ◌≡◌, refl, ap, ◌⊎◌,
  ◌++◌, arith, ==_iff, ==_ne, length, ◌+◌, sym, ◌∙◌,
}

-- `avp_info.name == *name`, with `false` for a code that has no descriptor.
abbrev pub is_named : Option AvpJson → Text → Bool
is_named none name = false
is_named (some info) name = text_eq info.name name

-- `position`, counted from `i`.
unfoldable pub position_from : ℕ → (Text → Bool) → List Text → Option ℕ
position_from i p [] = none
position_from i p (name ∷ names) =
    let rest = position_from (suc i) p names in if p name then some i else rest

-- `unwrap_or(usize::MAX)`.
abbrev pub or_usize_max : Option ℕ → ℕ
or_usize_max none = 2 ^ 64 - 1
or_usize_max (some i) = i

unfoldable pub sort_key : CommandJson → AvpMap → Avp → ℕ
sort_key d m a = or_usize_max (position_from 0 (is_named (get_by_code (code a) m)) d.avp_names)

unfoldable pub insert_by : (Avp → ℕ) → Avp → List Avp → List Avp
insert_by key a [] = a ∷ []
insert_by key a (b ∷ rest) =
    let behind = insert_by key a rest in if leb (key a) (key b) then a ∷ b ∷ rest else b ∷ behind

unfoldable pub sort_by_key : (Avp → ℕ) → List Avp → List Avp
sort_by_key key [] = []
sort_by_key key (a ∷ rest) = insert_by key a (sort_by_key key rest)

unfoldable pub sort_avps : CommandJson → AvpMap → List Avp → List Avp
sort_avps d m avps = sort_by_key (sort_key d m) avps

-- The AVPs of one key, as they stand.
unfoldable pub of_key : (Avp → ℕ) → ℕ → List Avp → List Avp
of_key key n [] = []
of_key key n (a ∷ rest) = let found = of_key key n rest in if key a == n then a ∷ found else found

-- The AVPs of each key in turn.
unfoldable pub by_keys : (Avp → ℕ) → List ℕ → List Avp → List Avp
by_keys key [] avps = []
by_keys key (n ∷ ns) avps = of_key key n avps ++ by_keys key ns avps

abbrev pub range_from : ℕ → ℕ → List ℕ
range_from i zero = []
range_from i (suc n) = i ∷ range_from (suc i) n

abbrev AllFrom : (Avp → ℕ) → ℕ → List Avp → Type 0
AllFrom key n avps = All (λ a. n ≤ key a) avps

abbrev Ascending : ℕ → List ℕ → Type 0
Ascending lo [] = Unit
Ascending lo (n ∷ ns) = (lo ≤ n) × Ascending (suc n) ns

abbrev IsAmong : ℕ → List ℕ → Type 0
IsAmong k [] = ⊥
IsAmong k (n ∷ ns) = (k ≡ n) ⊎ IsAmong k ns

-- An AVP goes before those of its key and of later ones, and behind those of earlier ones.
insert_by_front :
    (key : Avp → ℕ) (a : Avp) (avps : List Avp)
    → AllFrom key (key a) avps
    → insert_by key a avps ≡ a ∷ avps
unfolding insert_by
insert_by_front key a [] h = refl
insert_by_front key a (b ∷ rest) h = rw (le→leb (key a) (key b) h.0) refl

insert_by_behind :
    (key : Avp → ℕ) (a : Avp) (n : ℕ) (avps more : List Avp)
    → n < key a
    → insert_by key a (of_key key n avps ++ more) ≡ of_key key n avps ++ insert_by key a more
unfolding insert_by of_key
insert_by_behind key a n [] more h = refl
insert_by_behind key a n (b ∷ rest) more h = elim (Bool-cases (key b == n)) [
  | inl e ↦ rw e (
      rw (leb-eq-false (key a) (key b) (ground arith))
        (ap (λ t. b ∷ t) (insert_by_behind key a n rest more h)))
  | inr e ↦ rw e (insert_by_behind key a n rest more h)
]

AllFrom-append :
    (key : Avp → ℕ) (n : ℕ) (xs ys : List Avp)
    → AllFrom key n xs
    → AllFrom key n ys
    → AllFrom key n (xs ++ ys)
AllFrom-append key n [] ys h g = g
AllFrom-append key n (x ∷ xs) ys h g = (h.0, AllFrom-append key n xs ys h.1 g)

of_key-AllFrom :
    (key : Avp → ℕ) (lo n : ℕ) (avps : List Avp) → lo ≤ n → AllFrom key lo (of_key key n avps)
unfolding of_key
of_key-AllFrom key lo n [] h = tt
of_key-AllFrom key lo n (a ∷ rest) h = elim (Bool-cases (key a == n)) [
  | inl e ↦ rw e (ground arith, of_key-AllFrom key lo n rest h)
  | inr e ↦ rw e (of_key-AllFrom key lo n rest h)
]

by_keys-AllFrom :
    (key : Avp → ℕ) (lo hi : ℕ) (ns : List ℕ) (avps : List Avp)
    → lo ≤ hi
    → Ascending hi ns
    → AllFrom key lo (by_keys key ns avps)
unfolding by_keys
by_keys-AllFrom key lo hi [] avps le h = tt
by_keys-AllFrom key lo hi (n ∷ ns) avps le h =
    AllFrom-append key lo (of_key key n avps) (by_keys key ns avps)
      (of_key-AllFrom key lo n avps (omega (arith, le, h.0)))
      (by_keys-AllFrom key lo (suc n) ns avps (omega (arith, le, h.0)) h.1)

-- An AVP whose key is below the keys of a list is in none of its classes.
by_keys-cons :
    (key : Avp → ℕ) (a : Avp) (lo : ℕ) (ns : List ℕ) (avps : List Avp)
    → key a < lo
    → Ascending lo ns
    → by_keys key ns (a ∷ avps) ≡ by_keys key ns avps
unfolding by_keys of_key
by_keys-cons key a lo [] avps h s = refl
by_keys-cons key a lo (n ∷ ns) avps h s =
    rw (==_ne (key a) n (λ e. absurd (omega (arith, e, h, s.0)))) (
      ap (λ t. of_key key n avps ++ t)
        (by_keys-cons key a (suc n) ns avps (omega (arith, h, s.0)) s.1))

IsAmong-le : (k lo : ℕ) (ns : List ℕ) → Ascending lo ns → IsAmong k ns → lo ≤ k
IsAmong-le k lo [] s h = elim h [ ]
IsAmong-le k lo (n ∷ ns) s (inl e) = omega (arith, e, s.0)
IsAmong-le k lo (n ∷ ns) s (inr h) = omega (arith, s.0, IsAmong-le k (suc n) ns s.1 h)

insert_by-by_keys :
    (key : Avp → ℕ) (a : Avp) (lo : ℕ) (ns : List ℕ) (avps : List Avp)
    → Ascending lo ns
    → IsAmong (key a) ns
    → insert_by key a (by_keys key ns avps) ≡ by_keys key ns (a ∷ avps)
unfolding by_keys of_key
insert_by-by_keys key a lo [] avps s h = elim h [ ]
insert_by-by_keys key a lo (n ∷ ns) avps s h = elim h [
  | inl e ↦ rw ((==_iff (key a) n).1 e) (
      insert_by_front key a (of_key key n avps ++ by_keys key ns avps) (
        AllFrom-append key (key a) (of_key key n avps) (by_keys key ns avps)
          (of_key-AllFrom key (key a) n avps (omega (arith, e)))
          (by_keys-AllFrom key (key a) (suc n) ns avps (omega (arith, e)) s.1))
      ∙ ap (λ t. a ∷ (of_key key n avps ++ t))
          (sym (by_keys-cons key a (suc n) ns avps (omega (arith, e)) s.1)))
  | inr g ↦
      let above = IsAmong-le (key a) (suc n) ns s.1 g in
      rw (==_ne (key a) n (λ e. absurd (omega (arith, e, above)))) (
        insert_by_behind key a n avps (by_keys key ns avps) (omega (arith, above))
        ∙ ap (λ t. of_key key n avps ++ t) (insert_by-by_keys key a (suc n) ns avps s.1 g))
]

by_keys-none : (key : Avp → ℕ) (ns : List ℕ) → by_keys key ns [] ≡ []
unfolding by_keys of_key
by_keys-none key [] = refl
by_keys-none key (n ∷ ns) = by_keys-none key ns

sort_by_key-by_keys :
    (key : Avp → ℕ) (ns : List ℕ) (avps : List Avp)
    → Ascending 0 ns
    → ((a : Avp) → IsAmong (key a) ns)
    → sort_by_key key avps ≡ by_keys key ns avps
unfolding sort_by_key
sort_by_key-by_keys key ns [] s h = sym (by_keys-none key ns)
sort_by_key-by_keys key ns (a ∷ rest) s h =
    ap (insert_by key a) (sort_by_key-by_keys key ns rest s h)
    ∙ insert_by-by_keys key a 0 ns rest s (h a)

-- The keys are the positions in the definition, and the largest `usize`.
abbrev pub keys_of : CommandJson → List ℕ
keys_of d = range_from 0 (length d.avp_names) ++ ((2 ^ 64 - 1) ∷ [])

range-Ascending : (i n last : ℕ) → i + n ≤ last → Ascending i (range_from i n ++ (last ∷ []))
range-Ascending i zero last h = (omega (arith, h), tt)
range-Ascending i (suc n) last h = (omega arith, range-Ascending (suc i) n last (omega (arith, h)))

position-IsAmong :
    (i : ℕ) (p : Text → Bool) (names : List Text)
    → IsAmong
        (or_usize_max (position_from i p names))
        (range_from i (length names) ++ ((2 ^ 64 - 1) ∷ []))
unfolding position_from
position-IsAmong i p [] = inl refl
position-IsAmong i p (name ∷ names) =
    found (p name) (position_from (suc i) p names) (position-IsAmong (suc i) p names)
  where
    found :
        (b : Bool) (o : Option ℕ)
        → IsAmong (or_usize_max o) (range_from (suc i) (length names) ++ ((2 ^ 64 - 1) ∷ []))
        → IsAmong
            (or_usize_max (if b then some i else o))
            (i ∷ (range_from (suc i) (length names) ++ ((2 ^ 64 - 1) ∷ [])))
    found true o h = inl refl
    found false o h = inr h

sort_key-IsAmong : (d : CommandJson) (m : AvpMap) (a : Avp) → IsAmong (sort_key d m a) (keys_of d)
unfolding sort_key
sort_key-IsAmong d m a = position-IsAmong 0 (is_named (get_by_code (code a) m)) d.avp_names
