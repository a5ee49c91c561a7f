-- ===== src/Routing/Shorter.antt =====
-- What a strategy passes on is shorter than its configuration.
use rest_diameter_bridge.Avp.Defs.{and_then, map_option}
use rest_diameter_bridge.Base.Int.{ℤ, pos}
use rest_diameter_bridge.Routing.Strategy.{
  LoadBalancerStrategy, round_robin, fail_over, random, value, read_strategy, scan, choose, call_of,
  arguments, behind_paren, strip_suffix, cons_to, is_nil, trim, trim_start, trim_end,
  keep_unless_blank, is_zero, names_call, next_level,
}
use rest_diameter_bridge.Base.Text.{Text, text, lower}
use rest_diameter_bridge.Base.{
  ℕ, suc, ◌≡◌, ap, ◌∙◌, List, [], ◌∷◌, Option, none, some, Bool, true, false, ltb, ◌==◌,
  if◌then◌else◌, length, length-append, ◌+◌, ◌≤◌, ◌<◌, ◌&&◌, ◌||◌, ◌++◌, arith, refl, le→leb, sym,
}

trim_start-short : (s : Text) → length (trim_start s) ≤ length s
unfolding trim_start
trim_start-short [] = omega arith
trim_start-short (c ∷ s) = let ih = trim_start-short s in ground (arith, ih)

keep-short : (c : ℕ) (s : Text) → length (keep_unless_blank c s) ≤ suc (length s)
keep-short c [] = ground arith
keep-short c (d ∷ s) = omega arith

trim_end-short : (s : Text) → length (trim_end s) ≤ length s
unfolding trim_end
trim_end-short [] = omega arith
trim_end-short (c ∷ s) =
    let ih = trim_end-short s in let kept = keep-short c (trim_end s) in omega (arith, ih, kept)

trim-short : (s : Text) → length (trim s) ≤ length s
unfolding trim
trim-short s =
    let front = trim_start-short s in
    let back = trim_end-short (trim_start s) in omega (arith, front, back)

-- Each text of a list is shorter than a bound.
abbrev pub all_shorter : ℕ → List Text → Bool
all_shorter n [] = true
all_shorter n (v ∷ vs) = ltb (length v) n && all_shorter n vs

all_shorter-append :
    (n : ℕ) (vs : List Text) (v : Text)
    → all_shorter n vs ≡ true
    → length v < n
    → all_shorter n (vs ++ (v ∷ [])) ≡ true
all_shorter-append n [] v h h' = ground (arith, h')
all_shorter-append n (w ∷ vs) v h h' =
    let ih = all_shorter-append n vs v in ground (arith, ih, h, h')

trimmed_value :
    (n : ℕ) (vs : List Text) (s : Text)
    → all_shorter n vs ≡ true
    → length s < n
    → all_shorter n (vs ++ (trim s ∷ [])) ≡ true
trimmed_value n vs s h h' =
    let short = trim-short s in all_shorter-append n vs (trim s) h (omega (arith, short, h'))

abbrev weight : Bool → ℕ
weight true = 1
weight false = 0

-- What the loop has read of the segment and has still to read is within the bound.
fits_next :
    (n : ℕ) (cut seen : Bool) (c : ℕ) (rest segment : Text)
    → length segment + suc (length rest) + weight seen ≤ n
    → length (if cut then [] else segment ++ (c ∷ [])) + length rest + weight (cut || seen) ≤ n
fits_next n true seen c rest segment h = omega (arith, h)
fits_next n false seen c rest segment h =
    let sum = length-append segment (c ∷ []) in omega (arith, sum, h)

values_next :
    (n : ℕ) (cut level ends seen : Bool) (c : ℕ) (rest segment : Text) (values : List Text)
    → length segment + suc (length rest) + weight seen ≤ n
    → all_shorter n values ≡ true
    → all_shorter n (
        if cut
        then values ++ (trim segment ∷ [])
        else if level && ends && seen
        then values ++ (trim (segment ++ (c ∷ [])) ∷ [])
        else values)
      ≡ true
values_next n true level ends seen c rest segment values h hv =
    trimmed_value n values segment hv (omega (arith, h))
values_next n false true true true c rest segment values h hv =
    let sum = length-append segment (c ∷ []) in
    trimmed_value n values (segment ++ (c ∷ [])) hv (omega (arith, sum, h))
values_next n false true true false c rest segment values h hv = hv
values_next n false true false seen c rest segment values h hv = hv
values_next n false false ends seen c rest segment values h hv = hv

scan-shorter :
    (n : ℕ) (s segment : Text) (seen : Bool) (l : ℤ) (values : List Text)
    → length segment + length s + weight seen ≤ n
    → all_shorter n values ≡ true
    → all_shorter n (scan s segment seen l values).0 ≡ true
unfolding scan
scan-shorter n [] segment seen l values h hv = hv
scan-shorter n (c ∷ rest) segment seen l values h hv =
    let level = next_level c l in
    let cut = is_zero level && c == b';' in
    scan-shorter n rest _ _ _ _ (fits_next n cut seen c rest segment h)
      (values_next n cut (is_zero level) (is_nil rest) seen c rest segment values h hv)

abbrev is_short : ℕ → Option Text → Bool
is_short n none = true
is_short n (some s) = ltb (length s) n

cons_to-short :
    (c n : ℕ) (o : Option Text) → is_short n o ≡ true → is_short (suc n) (cons_to c o) ≡ true
cons_to-short c n none h = refl
cons_to-short c n (some s) h = ground (arith, h)

strip_suffix-short : (d : ℕ) (s : Text) → is_short (length s) (strip_suffix d s) ≡ true
unfolding strip_suffix
strip_suffix-short d [] = refl
strip_suffix-short d (c ∷ []) = ground arith
strip_suffix-short d (c ∷ e ∷ s) =
    cons_to-short c (length (e ∷ s)) (strip_suffix d (e ∷ s)) (strip_suffix-short d (e ∷ s))

is_short-up : (n : ℕ) (o : Option Text) → is_short n o ≡ true → is_short (suc n) o ≡ true
is_short-up n none h = refl
is_short-up n (some s) h = ground (arith, h)

behind_paren-short : (s : Text) → is_short (length s) (behind_paren s) ≡ true
unfolding behind_paren
behind_paren-short [] = refl
behind_paren-short (c ∷ s) =
    let rest = is_short-up (length s) (behind_paren s) (behind_paren-short s) in
    let whole = le→leb (length s) (length s) in ground (arith, rest)

strip_behind-short :
    (n : ℕ) (o : Option Text)
    → is_short n o ≡ true
    → is_short n (and_then o (strip_suffix b')')) ≡ true
strip_behind-short n none h = refl
strip_behind-short n (some s) h =
    within n (length s) (strip_suffix b')' s) (ground (arith, h)) (strip_suffix-short b')' s)
  where
    within : (n m : ℕ) (o : Option Text) → m < n → is_short m o ≡ true → is_short n o ≡ true
    within n m none h k = refl
    within n m (some r) h k = ground (arith, h, k)

arguments-short : (s : Text) → is_short (length s) (arguments s) ≡ true
unfolding arguments
arguments-short s = strip_behind-short (length s) (behind_paren s) (behind_paren-short s)

-- A strategy passes on texts that are shorter than a bound.
abbrev pub passes_shorter : ℕ → Option LoadBalancerStrategy → Bool
passes_shorter n none = true
passes_shorter n (some (round_robin s)) = ltb (length s) n
passes_shorter n (some (fail_over s)) = ltb (length s) n
passes_shorter n (some (random s)) = ltb (length s) n
passes_shorter n (some (value [])) = true
passes_shorter n (some (value (v ∷ []))) = true
passes_shorter n (some (value (v ∷ w ∷ vs))) = all_shorter n (v ∷ w ∷ vs)

value-shorter :
    (n : ℕ) (vs : List Text) → all_shorter n vs ≡ true → passes_shorter n (some (value vs)) ≡ true
value-shorter n [] h = refl
value-shorter n (v ∷ []) h = refl
value-shorter n (v ∷ w ∷ vs) h = h

passes_if :
    (n : ℕ) (b : Bool) (x y : Option LoadBalancerStrategy)
    → passes_shorter n x ≡ true
    → passes_shorter n y ≡ true
    → passes_shorter n (if b then x else y) ≡ true
passes_if n true x y h h' = h
passes_if n false x y h h' = h'

-- Whichever call the text is.
passes_call :
    (n : ℕ) (group : Text → LoadBalancerStrategy) (o : Option Text)
    → ((s : Text) → passes_shorter n (some (group s)) ≡ ltb (length s) n)
    → is_short n o ≡ true
    → passes_shorter n (map_option group o) ≡ true
passes_call n group none same h = refl
passes_call n group (some s) same h = same s ∙ h

passes_any :
    (n : ℕ) (b b' b'' : Bool) (o : Option Text) (s : Text)
    → is_short n o ≡ true
    → passes_shorter n (
        if b
        then map_option round_robin o
        else if b'
        then map_option fail_over o
        else if b''
        then map_option random o
        else some (value (s ∷ [])))
      ≡ true
passes_any n true b' b'' o s h = passes_call n round_robin o (λ s. refl) h
passes_any n false true b'' o s h = passes_call n fail_over o (λ s. refl) h
passes_any n false false true o s h = passes_call n random o (λ s. refl) h
passes_any n false false false o s h = refl

call_of-shorter : (s : Text) → passes_shorter (length s) (call_of s) ≡ true
unfolding call_of
call_of-shorter s =
    passes_any (length s)
      (names_call s (text "round-robin(" ∷ text "rr(" ∷ text "roundrobin(" ∷ []))
      (names_call s (text "failover(" ∷ text "fo(" ∷ text "fail-over(" ∷ []))
      (names_call s (text "random(" ∷ text "rand(" ∷ [])) (arguments s) s (arguments-short s)

choose-shorter :
    (s : Text) (r : List Text × ℤ)
    → all_shorter (length s) r.0 ≡ true
    → passes_shorter (length s) (choose s r) ≡ true
choose-shorter s (vs, l) h =
    passes_if (length s) (is_zero l) (if is_nil vs then call_of s else some (value vs)) none
      (passes_if (length s) (is_nil vs) (call_of s) (some (value vs)) (call_of-shorter s)
        (value-shorter (length s) vs h))
      refl

length-lower : (s : Text) → length (lower s) ≡ length s
unfolding lower
length-lower [] = refl
length-lower (c ∷ s) = ap suc (length-lower s)

pub read_strategy-shorter : (s : Text) → passes_shorter (length s) (read_strategy s) ≡ true
unfolding read_strategy
read_strategy-shorter s =
    let same = length-lower s in
    ap (λ n. passes_shorter n (choose (lower s) (scan (lower s) [] false (pos 0) []))) (sym same)
    ∙ choose-shorter (lower s) (scan (lower s) [] false (pos 0) [])
        (scan-shorter (length (lower s)) (lower s) [] false (pos 0) [] (omega (arith, same)) refl)
