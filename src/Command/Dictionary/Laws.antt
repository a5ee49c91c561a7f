-- ===== src/Command/Dictionary/Laws.antt =====
-- What the maps of a command dictionary find, against a search in the list of its definitions.
use rest_diameter_bridge.Avp.Dictionary.{or_else}
use rest_diameter_bridge.Base.Text.{Text, text_eq, lower}
use rest_diameter_bridge.Command.Dictionary.{
  CommandJson, CommandMap, add_command, add_commands, vec_or_empty, first_with, command_by_code,
  command_by_name, same_bool, empty_command_map,
}
use rest_diameter_bridge.Command.Dictionary.Standard.{standard_commands, new_command_map}
use rest_diameter_bridge.Base.{
  ℕ, Bool, true, false, Option, none, some, List, [], ◌∷◌, inl, inr, ◌==◌, if◌then◌else◌,
  Bool-cases, Option-cases, ◌≡◌, refl, sym, ap, ◌∙◌, ◌&&◌, ◌||◌, ◌++◌, append_assoc, append-nil,
  ==_iff,
}

-- The last definition of a list that passes a test.
abbrev pub last_command : (CommandJson → Bool) → List CommandJson → Option CommandJson
last_command p [] = none
last_command p (d ∷ ds) = or_else (last_command p ds) (if p d then some d else none)

abbrev pub has_code : ℕ → Bool → CommandJson → Bool
has_code code request d = (code == d.defined_code) && same_bool d.request_bit request

-- Names are compared in lower case.
abbrev pub has_name : Text → CommandJson → Bool
has_name name d =
    text_eq (lower name) (lower d.short_name) || text_eq (lower name) (lower d.long_name)

with_code : ℕ → List CommandJson → List CommandJson
with_code c [] = []
with_code c (d ∷ ds) = let rest = with_code c ds in if c == d.defined_code then d ∷ rest else rest

first_with-append :
    (p : CommandJson → Bool) (ds es : List CommandJson)
    → first_with p (ds ++ es) ≡ or_else (first_with p ds) (first_with p es)
unfolding first_with
first_with-append p [] es = refl
first_with-append p (d ∷ ds) es = elim (Bool-cases (p d)) [
  | inl e ↦ rw e refl
  | inr e ↦ rw e (first_with-append p ds es)
]

first_with-with_code :
    (code : ℕ) (request : Bool) (ds : List CommandJson)
    → first_with (λ d. same_bool d.request_bit request) (with_code code ds)
      ≡ first_with (has_code code request) ds
unfolding first_with with_code
first_with-with_code code request [] = refl
first_with-with_code code request (d ∷ ds) = elim (Bool-cases (code == d.defined_code)) [
  | inl e ↦ rw (e, first_with-with_code code request ds) refl
  | inr e ↦ rw (e, first_with-with_code code request ds) refl
]

push_code :
    (c : ℕ) (d : CommandJson) (m : CommandMap)
    → vec_or_empty ((add_command d m).code_to_command c)
      ≡ vec_or_empty (m.code_to_command c) ++ (if c == d.defined_code then d ∷ [] else [])
unfolding add_command
push_code c d m = elim (Bool-cases (c == d.defined_code)) [
  | inl e ↦ rw e (
      ap (λ k. vec_or_empty (m.code_to_command k) ++ (d ∷ []))
        (sym ((==_iff c d.defined_code).0 e)))
  | inr e ↦ rw e (sym (append-nil _))
]

if_append :
    (b : Bool) (d : CommandJson) (ds : List CommandJson)
    → (if b then d ∷ [] else []) ++ ds ≡ (if b then d ∷ ds else ds)
if_append true d ds = refl
if_append false d ds = refl

codes_added :
    (c : ℕ) (ds : List CommandJson) (m : CommandMap)
    → vec_or_empty ((add_commands ds m).code_to_command c)
      ≡ vec_or_empty (m.code_to_command c) ++ with_code c ds
unfolding add_commands with_code
codes_added c [] m = sym (append-nil _)
codes_added c (d ∷ ds) m =
    codes_added c ds (add_command d m)
    ∙ ap (λ t. t ++ with_code c ds) (push_code c d m)
    ∙ append_assoc (vec_or_empty (m.code_to_command c)) (if c == d.defined_code then d ∷ [] else [])
        (with_code c ds)
    ∙ ap (λ t. vec_or_empty (m.code_to_command c) ++ t)
        (if_append (c == d.defined_code) d (with_code c ds))

command_by_code_lem :
    (code : ℕ) (request : Bool) (m : CommandMap)
    → command_by_code code request m
      ≡ first_with (λ d. same_bool d.request_bit request) (vec_or_empty (m.code_to_command code))
unfolding command_by_code first_with
command_by_code_lem code request m = elim (Option-cases (m.code_to_command code)) [
  | inl e ↦ rw e refl
  | inr (ds, e) ↦ rw e refl
]

pub command_by_code-new :
    (code : ℕ) (request : Bool) (ds : List CommandJson)
    → command_by_code code request (new_command_map ds)
      ≡ first_with (has_code code request) (standard_commands ++ ds)
unfolding new_command_map
command_by_code-new code request ds =
    let p : CommandJson → Bool = λ d. same_bool d.request_bit request in
    command_by_code_lem code request _
    ∙ ap (first_with p) (
        codes_added code ds (add_commands standard_commands empty_command_map)
        ∙ ap (λ t. t ++ with_code code ds) (codes_added code standard_commands empty_command_map))
    ∙ first_with-append p (with_code code standard_commands) (with_code code ds)
    ∙ ap (λ o. or_else o (first_with p (with_code code ds)))
        (first_with-with_code code request standard_commands)
    ∙ ap (or_else (first_with (has_code code request) standard_commands))
        (first_with-with_code code request ds)
    ∙ sym (first_with-append (has_code code request) standard_commands ds)

or_else_two :
    (b c : Bool) (x : Option CommandJson) (d : CommandJson) (y : Option CommandJson)
    → or_else x (if b then some d else (if c then some d else y))
      ≡ or_else (or_else x (if b || c then some d else none)) y
or_else_two b c (some v) d y = refl
or_else_two true c none d y = refl
or_else_two false true none d y = refl
or_else_two false false none d y = refl

names_added :
    (name : Text) (ds : List CommandJson) (m : CommandMap)
    → command_by_name name (add_commands ds m)
      ≡ or_else (last_command (has_name name) ds) (command_by_name name m)
unfolding add_commands add_command command_by_name
names_added name [] m = refl
names_added name (d ∷ ds) m =
    names_added name ds (add_command d m)
    ∙ or_else_two (text_eq (lower name) (lower d.short_name))
        (text_eq (lower name) (lower d.long_name)) (last_command (has_name name) ds) d
        (m.name_to_command (lower name))

or_else_assoc : (x y z : Option CommandJson) → or_else (or_else x y) z ≡ or_else x (or_else y z)
or_else_assoc none y z = refl
or_else_assoc (some d) y z = refl

last_command-append :
    (p : CommandJson → Bool) (ds es : List CommandJson)
    → last_command p (ds ++ es) ≡ or_else (last_command p es) (last_command p ds)
last_command-append p [] es = elim (Option-cases (last_command p es)) [
  | inl e ↦ rw e refl
  | inr (d, e) ↦ rw e refl
]
last_command-append p (d ∷ ds) es =
    ap (λ o. or_else o (if p d then some d else none)) (last_command-append p ds es)
    ∙ or_else_assoc (last_command p es) (last_command p ds) (if p d then some d else none)

or_else-none : (o : Option CommandJson) → or_else o none ≡ o
or_else-none none = refl
or_else-none (some d) = refl

pub command_by_name-new :
    (name : Text) (ds : List CommandJson)
    → command_by_name name (new_command_map ds)
      ≡ last_command (has_name name) (standard_commands ++ ds)
unfolding new_command_map command_by_name
command_by_name-new name ds =
    names_added name ds (add_commands standard_commands empty_command_map)
    ∙ ap (or_else (last_command (has_name name) ds))
        (names_added name standard_commands empty_command_map ∙ or_else-none _)
    ∙ sym (last_command-append (has_name name) standard_commands ds)

-- The map that CommandMap::new builds gives, for a code and a request bit, the first definition
-- with both among the standard ones followed by those given, and for a name the last definition
-- that has it as long or short name, in lower case.
pub new_command_map_lem :
    (code : ℕ) (request : Bool) (name : Text) (ds : List CommandJson)
    → (command_by_code code request (new_command_map ds)
        ≡ first_with (has_code code request) (standard_commands ++ ds))
      × (command_by_name name (new_command_map ds)
          ≡ last_command (has_name name) (standard_commands ++ ds))
new_command_map_lem code request name ds =
    (command_by_code-new code request ds, command_by_name-new name ds)
