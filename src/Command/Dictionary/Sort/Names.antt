-- ===== src/Command/Dictionary/Sort/Names.antt =====
-- `CommandJson::sort_avps` of src/command.rs against a description by names, without sort keys: the
-- AVPs of a name are taken out of the list, the names one behind the other.
use rest_diameter_bridge.Command.Dictionary.Sort.{
  is_named, position_from, or_usize_max, sort_key, sort_avps, of_key, by_keys, keys_of, range_from,
  sort_by_key-by_keys, range-Ascending, sort_key-IsAmong, Ascending,
}
use rest_diameter_bridge.Base.Text.{Text, text_eq}
use rest_diameter_bridge.Command.Dictionary.{CommandJson}
use rest_diameter_bridge.Avp.Dictionary.{AvpMap, AvpJson, get_by_code}
use rest_diameter_bridge.Avp.Defs.{Avp, code}
use rest_diameter_bridge.Base.{
  ℕ, suc, Bool, true, false, Option, none, some, List, [], ◌∷◌, inl, inr, ◌==◌, if◌then◌else◌,
  Bool-cases, ◌-◌, ◌^◌, ◌≤◌, ◌<◌, ◌≡◌, refl, ap, ◌++◌, arith, ==_iff, ==_ne, length, ◌+◌, ◌∙◌, not,
  append-nil,
}

abbrev pub keep : (Avp → Bool) → List Avp → List Avp
keep p [] = []
keep p (a ∷ avps) = let rest = keep p avps in if p a then a ∷ rest else rest

-- Whether the dictionary has a descriptor of the AVP's code, and its name is this one.
abbrev pub known_as : Option AvpJson → Text → Bool
known_as none name = false
known_as (some info) name = text_eq info.name name

-- The AVPs of the first name, those of the second among the others, and so on; what is left last.
abbrev pub by_names : AvpMap → List Text → List Avp → List Avp
by_names m [] avps = avps
by_names m (name ∷ names) avps =
    keep (λ a. known_as (get_by_code (code a) m) name) avps
    ++ by_names m names (keep (λ a. not (known_as (get_by_code (code a) m) name)) avps)

is_named-known_as : (o : Option AvpJson) (name : Text) → is_named o name ≡ known_as o name
is_named-known_as none name = refl
is_named-known_as (some info) name = refl

-- The sort key by the names from a position on.
abbrev key_from : AvpMap → ℕ → List Text → Avp → ℕ
key_from m i names a = or_usize_max (position_from i (is_named (get_by_code (code a) m)) names)

position_step :
    (i : ℕ) (p : Text → Bool) (name : Text) (names : List Text) (b : Bool)
    → p name ≡ b
    → or_usize_max (position_from i p (name ∷ names))
      ≡ (if b then i else or_usize_max (position_from (suc i) p names))
unfolding position_from
position_step i p name names true e = rw e refl
position_step i p name names false e = rw e refl

position-le :
    (i : ℕ) (p : Text → Bool) (names : List Text)
    → i + length names ≤ 2 ^ 64 - 1
    → i ≤ or_usize_max (position_from i p names)
unfolding position_from
position-le i p [] h = omega (arith, h)
position-le i p (name ∷ names) h =
    let later = position-le (suc i) p names (omega (arith, h)) in
    elim (Bool-cases (p name)) [
      | inl e ↦ omega (arith, position_step i p name names true e)
      | inr e ↦ omega (arith, position_step i p name names false e, later)
    ]

module _ (m : AvpMap) where
  abbrev has : Text → Avp → Bool
  has name a = known_as (get_by_code (code a) m) name

  key_step :
      (i : ℕ) (name : Text) (names : List Text) (a : Avp) (b : Bool)
      → has name a ≡ b
      → key_from m i (name ∷ names) a ≡ (if b then i else key_from m (suc i) names a)
  key_step i name names a b e =
      let o = get_by_code (code a) m in
      position_step i (is_named o) name names b (is_named-known_as o name ∙ e)

  -- The AVPs of the first key are those of the first name.
  of_key-first :
      (i : ℕ) (name : Text) (names : List Text) (avps : List Avp)
      → i + length (name ∷ names) ≤ 2 ^ 64 - 1
      → of_key (key_from m i (name ∷ names)) i avps ≡ keep (has name) avps
  unfolding of_key
  of_key-first i name names [] h = refl
  of_key-first i name names (a ∷ avps) h =
      let rest = of_key-first i name names avps h in
      elim (Bool-cases (has name a)) [
        | inl e ↦
            rw (e, (==_iff (key_from m i (name ∷ names) a) i).1 (key_step i name names a true e))
              (ap (λ t. a ∷ t) rest)
        | inr e ↦
            let later =
              position-le (suc i) (is_named (get_by_code (code a) m)) names (omega (arith, h)) in
            let key = key_step i name names a false e in
            rw
              (
                e,
                ==_ne (key_from m i (name ∷ names) a) i
                    (λ c. absurd (omega (arith, c, key, later))),
              )
              rest
      ]

  -- Those of a later key are not of the first name.
  of_key-later :
      (i k : ℕ) (name : Text) (names : List Text) (avps : List Avp)
      → i < k
      → of_key (key_from m i (name ∷ names)) k avps
        ≡ of_key (key_from m (suc i) names) k (keep (λ a. not (has name a)) avps)
  unfolding of_key
  of_key-later i k name names [] h = refl
  of_key-later i k name names (a ∷ avps) h =
      let rest = of_key-later i k name names avps h in
      elim (Bool-cases (has name a)) [
        | inl e ↦
            let key = key_step i name names a true e in
            rw (e, ==_ne (key_from m i (name ∷ names) a) k (λ c. absurd (omega (arith, c, key, h))))
              rest
        | inr e ↦
            rw (e, key_step i name names a false e)
              (ap (λ t. if key_from m (suc i) names a == k then a ∷ t else t) rest)
      ]

  by_keys-later :
      (i lo : ℕ) (name : Text) (names : List Text) (ns : List ℕ) (avps : List Avp)
      → i < lo
      → Ascending lo ns
      → by_keys (key_from m i (name ∷ names)) ns avps
        ≡ by_keys (key_from m (suc i) names) ns (keep (λ a. not (has name a)) avps)
  unfolding by_keys
  by_keys-later i lo name names [] avps h s = refl
  by_keys-later i lo name names (k ∷ ns) avps h s =
      let others = keep (λ a. not (has name a)) avps in
      ap (λ t. t ++ by_keys (key_from m i (name ∷ names)) ns avps)
        (of_key-later i k name names avps (omega (arith, h, s.0)))
      ∙ ap (λ t. of_key (key_from m (suc i) names) k others ++ t)
          (by_keys-later i (suc k) name names ns avps (omega (arith, h, s.0)) s.1)

  of_key-last : (i : ℕ) (avps : List Avp) → of_key (key_from m i []) (2 ^ 64 - 1) avps ≡ avps
  unfolding of_key position_from
  of_key-last i [] = refl
  of_key-last i (a ∷ avps) = ap (λ t. a ∷ t) (of_key-last i avps)

  by_keys-by_names :
      (i : ℕ) (names : List Text) (avps : List Avp)
      → i + length names ≤ 2 ^ 64 - 1
      → by_keys (key_from m i names) (range_from i (length names) ++ ((2 ^ 64 - 1) ∷ [])) avps
        ≡ by_names m names avps
  unfolding by_keys
  by_keys-by_names i [] avps h =
      append-nil (of_key (key_from m i []) (2 ^ 64 - 1) avps) ∙ of_key-last i avps
  by_keys-by_names i (name ∷ names) avps h =
      let later = range_from (suc i) (length names) ++ ((2 ^ 64 - 1) ∷ []) in
      ap (λ t. t ++ by_keys (key_from m i (name ∷ names)) later avps)
        (of_key-first i name names avps h)
      ∙ ap (λ t. keep (has name) avps ++ t)
          (by_keys-later i (suc i) name names later avps (omega arith)
              (range-Ascending (suc i) (length names) (2 ^ 64 - 1) (omega (arith, h)))
            ∙ by_keys-by_names (suc i) names (keep (λ a. not (has name a)) avps) (omega (arith, h)))

-- For a definition with fewer than 2 ^ 64 names, sort_avps gives the AVPs that the dictionary
-- knows by the first name of the definition, then, of the others, those that it knows by the
-- second, and so on, and what is left last, each class in the order in which its AVPs stood.
pub sort_avps-by_names :
    (d : CommandJson) (m : AvpMap) (avps : List Avp)
    → length d.avp_names < 2 ^ 64
    → sort_avps d m avps ≡ by_names m d.avp_names avps
unfolding sort_avps sort_key
sort_avps-by_names d m avps h =
    sort_by_key-by_keys (sort_key d m) (keys_of d) avps
      (range-Ascending 0 (length d.avp_names) (2 ^ 64 - 1) (omega (arith, h)))
      (sort_key-IsAmong d m)
    ∙ by_keys-by_names m 0 d.avp_names avps (omega (arith, h))
