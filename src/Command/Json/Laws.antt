-- ===== src/Command/Json/Laws.antt =====
-- The members of the object that `to_json` builds, and the loop of `from_json_value` over them.
use rest_diameter_bridge.Base.Decimal.{to_decimal}
use rest_diameter_bridge.Base.Json.Objects.{get-insert_entry}
use rest_diameter_bridge.Base.Text.{Text, text_eq, text, text_eq_sound, text_eq_self}
use rest_diameter_bridge.Command.Json.{add_shown, shown_avp, shown_avps, cons_shown, combine}
use rest_diameter_bridge.Avp.Json.{
  Codecs, Converted, converted, refused, panicked, out_of_fuel, name_value_on, avp_to_name_value,
  named, described, depth_bound,
}
use rest_diameter_bridge.Avp.Dictionary.{AvpMap, AvpJson, get_by_code}
use rest_diameter_bridge.Avp.Defs.{Avp, code}
use rest_diameter_bridge.Base.Json.{
  Value, Entries, no_entry, entry, string, get, insert_entry, text_lt,
}
use rest_diameter_bridge.Base.{
  ℕ, zero, suc, Bool, true, false, some, List, [], ◌∷◌, inl, inr, ◌==◌, if◌then◌else◌, Bool-cases,
  Option-cases, ◌≡◌, refl, sym, ap, ◌∙◌, ◌++◌,
}
use mathlib.Core.Path.{subst}

pub text_eq_sym_false : (s t : Text) → text_eq s t ≡ false → text_eq t s ≡ false
text_eq_sym_false s t h = elim (Bool-cases (text_eq t s)) [
  | inl e ↦ absurd (cc (h, ap (λ u. text_eq s u) (text_eq_sound t s e), text_eq_self s))
  | inr e ↦ e
]

-- Every member of the name has the value.
abbrev pub Only : Text → Value → Entries → Type 0
Only key w no_entry = Unit
Only key w (entry j v es) = (text_eq j key ≡ true → v ≡ w) × Only key w es

pub Only-insert_entry :
    (key : Text) (w : Value) (j : Text) (v : Value) (es : Entries)
    → (text_eq j key ≡ true → v ≡ w)
    → Only key w es
    → Only key w (insert_entry j v es)
unfolding insert_entry
Only-insert_entry key w j v no_entry h o = (h, tt)
Only-insert_entry key w j v (entry i x es) h o =
    placed (text_eq j i) (text_lt j i)
      (λ e t. h (subst (λ u. text_eq u key ≡ true) (sym (text_eq_sound j i e)) t))
      (Only-insert_entry key w j v es h o.1)
  where
    placed :
        (b c : Bool)
        → (b ≡ true → text_eq i key ≡ true → v ≡ w)
        → Only key w (insert_entry j v es)
        → Only key w (
            if b
            then entry i v es
            else if c
            then entry j v (entry i x es)
            else entry i x (insert_entry j v es))
    placed true c g n = (g refl, o.1)
    placed false true g n = (h, o)
    placed false false g n = (o.0, n)

-- The names of the shown AVPs are not the key.
abbrev pub Avoids : Text → List (Text × Value) → Type 0
Avoids key [] = Unit
Avoids key ((name, v) ∷ ps) = (text_eq name key ≡ false) × Avoids key ps

pub get-add_shown :
    (key : Text) (ps : List (Text × Value)) (es : Entries)
    → Avoids key ps
    → get key (add_shown ps es) ≡ get key es
unfolding add_shown
get-add_shown key [] es h = refl
get-add_shown key ((name, v) ∷ ps) es h =
    get-add_shown key ps (insert_entry name (combine (get name es) v) es) h.1
    ∙ get-insert_entry key name (combine (get name es) v) es
    ∙ rw (text_eq_sym_false name key h.0) refl

pub Only-add_shown :
    (key : Text) (w : Value) (ps : List (Text × Value)) (es : Entries)
    → Avoids key ps
    → Only key w es
    → Only key w (add_shown ps es)
unfolding add_shown
Only-add_shown key w [] es h o = o
Only-add_shown key w ((name, v) ∷ ps) es h o =
    Only-add_shown key w ps (insert_entry name (combine (get name es) v) es) h.1
      (Only-insert_entry key w name (combine (get name es) v) es (λ t. absurd (cc (t, h.0))) o)

-- No descriptor of the dictionary has the key as its name.
abbrev pub IsFree : Text → AvpMap → Type 0
IsFree key m = (c : ℕ) (d : AvpJson) → get_by_code c m ≡ some d → text_eq d.name key ≡ false

-- The key does not begin as the names of unknown AVPs do.
abbrev pub IsOwnKey : Text → Type 0
IsOwnKey [] = Unit
IsOwnKey (c ∷ cs) = ((b'A' == c) ≡ false) × ((b'U' == c) ≡ false)

prefix_avp : (key t : Text) → IsOwnKey key → text_eq (text "AVP-" ++ t) key ≡ false
unfolding text_eq
prefix_avp [] t h = refl
prefix_avp (c ∷ cs) t h = rw h.0 refl

prefix_unknown : (key t : Text) → IsOwnKey key → text_eq (text "Unknown-AVP-" ++ t) key ≡ false
unfolding text_eq
prefix_unknown [] t h = refl
prefix_unknown (c ∷ cs) t h = rw h.1 refl

abbrev NameAvoids : Text → Converted (Text × Value) → Type 0
NameAvoids key (converted (name, v)) = text_eq name key ≡ false
NameAvoids key refused = Unit
NameAvoids key panicked = Unit
NameAvoids key out_of_fuel = Unit

named-NameAvoids :
    (key name : Text) (r : Converted Value)
    → text_eq name key ≡ false
    → NameAvoids key (named name r)
named-NameAvoids key name (converted v) h = h
named-NameAvoids key name refused h = tt
named-NameAvoids key name panicked h = tt
named-NameAvoids key name out_of_fuel h = tt

name_value_on-NameAvoids :
    (key : Text) (k : Codecs) (m : AvpMap) (fuel : ℕ) (a : Avp)
    → IsOwnKey key
    → IsFree key m
    → NameAvoids key (name_value_on k m fuel a)
unfolding name_value_on described
name_value_on-NameAvoids key k m zero a o h = tt
name_value_on-NameAvoids key k m (suc fuel) a o h = elim (Option-cases (get_by_code (code a) m)) [
  | inl e ↦ rw e (
      named-NameAvoids key (text "AVP-" ++ to_decimal (code a)) _
        (prefix_avp key (to_decimal (code a)) o))
  | inr (d, e) ↦ rw e (named-NameAvoids key d.name _ (h (code a) d e))
]

shown_avp-NameAvoids :
    (key : Text) (k : Codecs) (m : AvpMap) (a : Avp)
    → IsOwnKey key
    → IsFree key m
    → NameAvoids key (shown_avp k m a)
unfolding shown_avp avp_to_name_value
shown_avp-NameAvoids key k m a o h =
    by_outcome (name_value_on k m (depth_bound a) a)
      (name_value_on-NameAvoids key k m (depth_bound a) a o h)
  where
    by_outcome :
        (r : Converted (Text × Value))
        → NameAvoids key r
        → NameAvoids key (elim r as (λ x. Converted (Text × Value)) [
          | converted p ↦ converted p
          | refused ↦
              converted (text "Unknown-AVP-" ++ to_decimal (code a), string (text "Unknown"))
          | panicked ↦ panicked
          | out_of_fuel ↦ out_of_fuel
        ])
    by_outcome (converted p) n = n
    by_outcome refused n = prefix_unknown key (to_decimal (code a)) o
    by_outcome panicked n = tt
    by_outcome out_of_fuel n = tt

abbrev pub NamesAvoid : Text → Converted (List (Text × Value)) → Type 0
NamesAvoid key (converted ps) = Avoids key ps
NamesAvoid key refused = Unit
NamesAvoid key panicked = Unit
NamesAvoid key out_of_fuel = Unit

cons_shown-NamesAvoid :
    (key : Text) (p : Converted (Text × Value)) (r : Converted (List (Text × Value)))
    → NameAvoids key p
    → NamesAvoid key r
    → NamesAvoid key (cons_shown p r)
cons_shown-NamesAvoid key (converted (name, v)) (converted ps) h g = (h, g)
cons_shown-NamesAvoid key (converted (name, v)) refused h g = tt
cons_shown-NamesAvoid key (converted (name, v)) panicked h g = tt
cons_shown-NamesAvoid key (converted (name, v)) out_of_fuel h g = tt
cons_shown-NamesAvoid key refused r h g = tt
cons_shown-NamesAvoid key panicked r h g = tt
cons_shown-NamesAvoid key out_of_fuel r h g = tt

-- AVPs are shown under names of the dictionary, or under names made of their codes.
pub shown_avps-NamesAvoid :
    (key : Text) (k : Codecs) (m : AvpMap) (avps : List Avp)
    → IsOwnKey key
    → IsFree key m
    → NamesAvoid key (shown_avps k m avps)
unfolding shown_avps
shown_avps-NamesAvoid key k m [] o h = tt
shown_avps-NamesAvoid key k m (a ∷ rest) o h =
    cons_shown-NamesAvoid key (shown_avp k m a) (shown_avps k m rest)
      (shown_avp-NameAvoids key k m a o h) (shown_avps-NamesAvoid key k m rest o h)
