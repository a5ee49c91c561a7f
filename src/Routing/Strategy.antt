-- ===== src/Routing/Strategy.antt =====
-- `LoadBalancerStrategy` of src/stack.rs. `from_str` counts the bytes of a text and reads its
-- characters, and so it panics on a text that is not ASCII; the one exception, the Kelvin sign, whose
-- small letter is the `k` of ASCII, is left out.
use rest_diameter_bridge.Avp.Defs.{and_then, map_option}
use rest_diameter_bridge.Base.Text.{Text, text, lower}
use rest_diameter_bridge.Base.Int.{ℤ, pos, negsuc}
use rest_diameter_bridge.Base.{
  ℕ, zero, suc, Bool, true, false, ◌&&◌, ◌||◌, Option, none, some, List, [], ◌∷◌, ◌++◌, leb, ◌==◌,
  if◌then◌else◌,
}

pub data LoadBalancerStrategy : Type 0 where
  round_robin fail_over random : Text → LoadBalancerStrategy
  value : List Text → LoadBalancerStrategy

-- `char::is_whitespace` on ASCII.
unfoldable pub is_space : ℕ → Bool
is_space c = (leb 9 c && leb c 13) || c == 32

unfoldable pub trim_start : Text → Text
trim_start [] = []
trim_start (c ∷ cs) = let rest = trim_start cs in if is_space c then rest else c ∷ cs

abbrev pub keep_unless_blank : ℕ → Text → Text
keep_unless_blank c [] = if is_space c then [] else c ∷ []
keep_unless_blank c (d ∷ ds) = c ∷ d ∷ ds

unfoldable pub trim_end : Text → Text
trim_end [] = []
trim_end (c ∷ cs) = keep_unless_blank c (trim_end cs)

unfoldable pub trim : Text → Text
trim s = trim_end (trim_start s)

-- The `i32` that counts open parentheses; a closing one may come first.
abbrev pub up : ℤ → ℤ
up (pos n) = pos (suc n)
up (negsuc zero) = pos 0
up (negsuc (suc n)) = negsuc n

abbrev pub down : ℤ → ℤ
down (pos zero) = negsuc 0
down (pos (suc n)) = pos n
down (negsuc n) = negsuc (suc n)

abbrev pub is_zero : ℤ → Bool
is_zero (pos zero) = true
is_zero (pos (suc n)) = false
is_zero (negsuc n) = false

unfoldable pub next_level : ℕ → ℤ → ℤ
next_level c level = if c == b'(' then up level else if c == b')' then down level else level

abbrev pub is_nil {ℓ} : {A : Type ℓ} → List A → Bool
is_nil [] = true
is_nil (x ∷ xs) = false

-- The loop of `from_str`. `segment` is `strategy[start..index]`, and `seen` says that `start` is
-- behind a semicolon. The result is the values and the level at the end.
unfoldable pub scan : Text → Text → Bool → ℤ → List Text → List Text × ℤ
scan [] segment seen level values = (values, level)
scan (c ∷ rest) segment seen level values =
    let level' = next_level c level in
    let grown = segment ++ (c ∷ []) in
    let cut = is_zero level' && c == b';' in
    let ends = is_zero level' && is_nil rest && seen in
    scan rest (if cut then [] else grown) (cut || seen) level' (
      if cut
      then values ++ (trim segment ∷ [])
      else if ends
      then values ++ (trim grown ∷ [])
      else values)

unfoldable pub starts_with : Text → Text → Bool
starts_with [] s = true
starts_with (p ∷ ps) [] = false
starts_with (p ∷ ps) (c ∷ cs) = p == c && starts_with ps cs

unfoldable pub starts_with_one_of : Text → List Text → Bool
starts_with_one_of s [] = false
starts_with_one_of s (p ∷ ps) = starts_with p s || starts_with_one_of s ps

unfoldable pub ends_with : ℕ → Text → Bool
ends_with d [] = false
ends_with d (c ∷ []) = c == d
ends_with d (c ∷ e ∷ cs) = ends_with d (e ∷ cs)

-- `splitn(2, "(").nth(1)`: what is behind the first parenthesis.
unfoldable pub behind_paren : Text → Option Text
behind_paren [] = none
behind_paren (c ∷ cs) = let rest = behind_paren cs in if c == b'(' then some cs else rest

abbrev pub cons_to : ℕ → Option Text → Option Text
cons_to c none = none
cons_to c (some s) = some (c ∷ s)

unfoldable pub strip_suffix : ℕ → Text → Option Text
strip_suffix d [] = none
strip_suffix d (c ∷ []) = if c == d then some [] else none
strip_suffix d (c ∷ e ∷ cs) = cons_to c (strip_suffix d (e ∷ cs))

-- `strategy.splitn(2, "(").nth(1).and_then(|s| s.strip_suffix(')'))`.
unfoldable pub arguments : Text → Option Text
arguments s = and_then (behind_paren s) (strip_suffix b')')

unfoldable pub names_call : Text → List Text → Bool
names_call s prefixes = starts_with_one_of s prefixes && ends_with b')' s

unfoldable pub call_of : Text → Option LoadBalancerStrategy
call_of s =
    if names_call s (text "round-robin(" ∷ text "rr(" ∷ text "roundrobin(" ∷ [])
    then map_option round_robin (arguments s)
    else if names_call s (text "failover(" ∷ text "fo(" ∷ text "fail-over(" ∷ [])
    then map_option fail_over (arguments s)
    else if names_call s (text "random(" ∷ text "rand(" ∷ [])
    then map_option random (arguments s)
    else some (value (s ∷ []))

-- What `from_str` makes of the values and the level of the loop.
abbrev pub choose : Text → List Text × ℤ → Option LoadBalancerStrategy
choose s (values, level) =
    if is_zero level then (if is_nil values then call_of s else some (value values)) else none

-- What `from_str` returns on ASCII text.
unfoldable pub read_strategy : Text → Option LoadBalancerStrategy
read_strategy s = let strategy = lower s in choose strategy (scan strategy [] false (pos 0) [])

unfoldable pub is_ascii : Text → Bool
is_ascii [] = true
is_ascii (c ∷ cs) = leb c 127 && is_ascii cs

-- `chars().nth(index).unwrap()` panics behind the last character, or the function returns.
pub data FromStr : Type 0 where
  panics : FromStr
  returned : Option LoadBalancerStrategy → FromStr

unfoldable pub from_str : Text → FromStr
from_str s = if is_ascii s then returned (read_strategy s) else panics
