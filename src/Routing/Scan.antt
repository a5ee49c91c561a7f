-- ===== src/Routing/Scan.antt =====
-- What the loop of `from_str` makes of closed texts.
use mathlib.Core.Path.{ap₂}
use rest_diameter_bridge.Routing.Strategy.{
  is_space, trim, trim_start, trim_end, next_level, is_zero, is_nil, scan, keep_unless_blank,
}
use rest_diameter_bridge.Routing.Printed.{is_plain, all_of, level_after, is_closed}
use rest_diameter_bridge.Base.Text.{Text, lower, lower_byte}
use rest_diameter_bridge.Base.Int.{ℤ, pos}
use rest_diameter_bridge.Base.{
  ℕ, ◌≡◌, refl, Bool, true, false, ◌&&◌, List, [], ◌∷◌, ◌++◌, append_assoc, append-nil, ◌==◌,
  if◌then◌else◌, sym, ap, ◌∙◌, arith,
}

plain_char : (c : ℕ) → is_plain c ≡ true → (is_space c ≡ false) × (lower_byte c ≡ c)
unfolding is_plain
plain_char c h = ground (arith, h)

plain_head : (c : ℕ) (s : Text) → all_of is_plain (c ∷ s) ≡ true → is_plain c ≡ true
plain_head c s h = ground (arith, h)

plain_tail : (c : ℕ) (s : Text) → all_of is_plain (c ∷ s) ≡ true → all_of is_plain s ≡ true
plain_tail c s h = ground (arith, h)

pub lower_plain : (s : Text) → all_of is_plain s ≡ true → lower s ≡ s
unfolding lower
lower_plain [] h = refl
lower_plain (c ∷ s) h =
    ap₂ (λ d t. d ∷ t) (plain_char c (plain_head c s h)).1 (lower_plain s (plain_tail c s h))

trim_start_plain : (s : Text) → all_of is_plain s ≡ true → trim_start s ≡ s
unfolding trim_start
trim_start_plain [] h = refl
trim_start_plain (c ∷ s) h = rw (plain_char c (plain_head c s h)).0 refl

trim_end_plain : (s : Text) → all_of is_plain s ≡ true → trim_end s ≡ s
unfolding trim_end
trim_end_plain [] h = refl
trim_end_plain (c ∷ []) h = rw (plain_char c (plain_head c [] h)).0 refl
trim_end_plain (c ∷ d ∷ s) h =
    ap (keep_unless_blank c) (trim_end_plain (d ∷ s) (plain_tail c (d ∷ s) h))

pub trim_plain : (s : Text) → all_of is_plain s ≡ true → trim s ≡ s
unfolding trim
trim_plain s h = ap trim_end (trim_start_plain s h) ∙ trim_end_plain s h

-- A character that does not cut, and what is pushed where it is the last.
abbrev grown : ℕ → Text → Text
grown c segment = segment ++ (c ∷ [])

scan_step :
    (c : ℕ) (rest segment : Text) (seen : Bool) (l : ℤ) (values : List Text)
    → (is_zero (next_level c l) && c == b';') ≡ false
    → scan (c ∷ rest) segment seen l values
      ≡ scan rest (grown c segment) seen (next_level c l) (
          if is_zero (next_level c l) && is_nil rest && seen
          then values ++ (trim (grown c segment) ∷ [])
          else values)
unfolding scan
scan_step c rest segment seen l values h = rw h refl

closed_head :
    (c : ℕ) (s : Text) (l : ℤ)
    → is_closed (c ∷ s) l ≡ true
    → ((is_zero (next_level c l) && c == b';') ≡ false) × (is_closed s (next_level c l) ≡ true)
closed_head c s l h = ground (arith, h)

not_last :
    (b seen : Bool) (s : Text) (d : ℕ) (rest : Text)
    → (b && is_nil (s ++ (d ∷ rest)) && seen) ≡ false
not_last b seen [] d rest = ground arith
not_last b seen (c ∷ s) d rest = ground arith

-- A closed text with something behind it goes into the segment.
pub scan-closed :
    (s : Text) (d : ℕ) (rest segment : Text) (seen : Bool) (l : ℤ) (values : List Text)
    → is_closed s l ≡ true
    → scan (s ++ (d ∷ rest)) segment seen l values
      ≡ scan (d ∷ rest) (segment ++ s) seen (level_after s l) values
scan-closed [] d rest segment seen l values h =
    ap (λ t. scan (d ∷ rest) t seen l values) (sym (append-nil segment))
scan-closed (c ∷ s) d rest segment seen l values h =
    let split = closed_head c s l h in
    scan_step c (s ++ (d ∷ rest)) segment seen l values split.0
    ∙ ap
        (λ b.
          scan (s ++ (d ∷ rest)) (grown c segment) seen (next_level c l)
            (if b then values ++ (trim (grown c segment) ∷ []) else values))
        (not_last (is_zero (next_level c l)) seen s d rest)
    ∙ scan-closed s d rest (grown c segment) seen (next_level c l) values split.1
    ∙ ap (λ t. scan (d ∷ rest) t seen (level_after s (next_level c l)) values)
        (append_assoc segment (c ∷ []) s)

at_end : (b seen : Bool) → (b && true && seen) ≡ (b && seen)
at_end b seen = ground arith

-- The last closed text is pushed if there was a semicolon before it.
pub scan-last :
    (c : ℕ) (s segment : Text) (seen : Bool) (l : ℤ) (values : List Text)
    → is_closed (c ∷ s) l ≡ true
    → scan (c ∷ s) segment seen l values ≡ (
      if is_zero (level_after (c ∷ s) l) && seen
          then values ++ (trim (segment ++ (c ∷ s)) ∷ [])
          else values,
      level_after (c ∷ s) l,
    )
unfolding scan
scan-last c [] segment seen l values h =
    let split = closed_head c [] l h in
    scan_step c [] segment seen l values split.0
    ∙ ap (λ b. (if b then values ++ (trim (grown c segment) ∷ []) else values, next_level c l))
        (at_end (is_zero (next_level c l)) seen)
scan-last c (d ∷ s) segment seen l values h =
    let split = closed_head c (d ∷ s) l h in
    scan_step c (d ∷ s) segment seen l values split.0
    ∙ ap
        (λ b.
          scan (d ∷ s) (grown c segment) seen (next_level c l)
            (if b then values ++ (trim (grown c segment) ∷ []) else values))
        (not_last (is_zero (next_level c l)) seen [] d s)
    ∙ scan-last d s (grown c segment) seen (next_level c l) values split.1
    ∙ ap
        (λ t. (
          if is_zero (level_after (c ∷ d ∷ s) l) && seen then values ++ (trim t ∷ []) else values,
          level_after (c ∷ d ∷ s) l,
        ))
        (append_assoc segment (c ∷ []) (d ∷ s))

-- A closed text before a semicolon at the outermost level is a value.
pub scan-cut :
    (rest segment : Text) (seen : Bool) (values : List Text)
    → scan (b';' ∷ rest) segment seen (pos 0) values
      ≡ scan rest [] true (pos 0) (values ++ (trim segment ∷ []))
unfolding scan next_level
scan-cut rest segment seen values = refl
