-- ===== src/Command/Dictionary/Override.antt =====
-- A definition that a user gives for a standard command.
use rest_diameter_bridge.Base.Text.{text_eq_self, lower, text_eq}
use rest_diameter_bridge.Command.Dictionary.{
  CommandJson, first_with, command_by_code, command_by_name, command_code_as_u32,
}
use rest_diameter_bridge.Command.Dictionary.Laws.{
  has_code, has_name, last_command, command_by_code-new, command_by_name-new,
}
use rest_diameter_bridge.Command.Dictionary.Standard.{standard_commands, new_command_map}
use rest_diameter_bridge.Base.{
  ℕ, Bool, true, false, some, List, [], ◌∷◌, inl, inr, Bool-cases, get_elem?, All, ◌≡◌, refl, sym,
  ap, ◌∙◌, ◌||◌, ◌++◌, append_assoc, All-get,
}

abbrev IsFirst : CommandJson → Type 0
IsFirst s = first_with (has_code s.defined_code s.request_bit) standard_commands ≡ some s

-- No two standard definitions share a code and the request bit.
standard-IsFirst : All IsFirst standard_commands
unfolding standard_commands first_with command_code_as_u32
standard-IsFirst = search

first_with_front :
    (p : CommandJson → Bool) (ds es : List CommandJson) (s : CommandJson)
    → first_with p ds ≡ some s
    → first_with p (ds ++ es) ≡ some s
unfolding first_with
first_with_front p [] es s h = absurd (cc h)
first_with_front p (d ∷ ds) es s h = elim (Bool-cases (p d)) [
  | inl e ↦ rw e (rw e at h)
  | inr e ↦ rw e (first_with_front p ds es s (rw e at h))
]

last_command_back :
    (p : CommandJson → Bool) (ds : List CommandJson) (d : CommandJson)
    → p d ≡ true
    → last_command p (ds ++ (d ∷ [])) ≡ some d
last_command_back p [] d h = rw h refl
last_command_back p (e ∷ ds) d h = rw (last_command_back p ds d h) refl

has_name-long : (d : CommandJson) → has_name d.long_name d ≡ true
has_name-long d =
    rw (text_eq_self (lower d.long_name))
      (or_true (text_eq (lower d.long_name) (lower d.short_name)))
  where
    or_true : (b : Bool) → (b || true) ≡ true
    or_true true = refl
    or_true false = refl

-- If the last definition given has the code and the request bit of a standard command, the map
-- gives the standard definition for that code and bit, and yet the given one for its long name.
pub command_by_code-override :
    (ds : List CommandJson) (d s : CommandJson) (i : ℕ)
    → get_elem? standard_commands i ≡ some s
    → d.defined_code ≡ s.defined_code
    → d.request_bit ≡ s.request_bit
    → (command_by_code d.defined_code d.request_bit (new_command_map (ds ++ (d ∷ []))) ≡ some s)
      × (command_by_name d.long_name (new_command_map (ds ++ (d ∷ []))) ≡ some d)
command_by_code-override ds d s i e c r = (
  command_by_code-new d.defined_code d.request_bit (ds ++ (d ∷ []))
      ∙ ap (λ k. first_with (has_code k d.request_bit) (standard_commands ++ (ds ++ (d ∷ [])))) c
      ∙ ap (λ b. first_with (has_code s.defined_code b) (standard_commands ++ (ds ++ (d ∷ [])))) r
      ∙ first_with_front (has_code s.defined_code s.request_bit) standard_commands (ds ++ (d ∷ []))
          s (All-get IsFirst standard_commands i s standard-IsFirst e),
  command_by_name-new d.long_name (ds ++ (d ∷ []))
      ∙ ap (last_command (has_name d.long_name)) (sym (append_assoc standard_commands ds (d ∷ [])))
      ∙ last_command_back (has_name d.long_name) (standard_commands ++ ds) d (has_name-long d),
)
