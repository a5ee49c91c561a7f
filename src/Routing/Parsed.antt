-- ===== src/Routing/Parsed.antt =====
-- What `from_str` reads in a printed tree of groups.
use rest_diameter_bridge.Avp.Defs.{map_option}
use rest_diameter_bridge.Routing.Strategy.{
  round_robin, fail_over, random, value, from_str, read_strategy, is_ascii, panics, returned, scan,
  choose, call_of, names_call, arguments, starts_with, starts_with_one_of, ends_with, behind_paren,
  strip_suffix, cons_to, trim, is_zero,
}
use rest_diameter_bridge.Routing.Tree.{
  Tree, Trees, leaf, round_robin_of, fail_over_of, random_of, nil, cons,
}
use rest_diameter_bridge.Routing.Printed.{
  print, print_all, prints, IsNamed, AreNamed, is_key, is_plain, all_of, key_char, IsClosed,
  print-IsClosed, print_plain, print_all_plain,
}
use rest_diameter_bridge.Routing.Scan.{lower_plain, trim_plain, scan-closed, scan-last, scan-cut}
use rest_diameter_bridge.Base.Text.{Text, text}
use rest_diameter_bridge.Base.Int.{pos}
use rest_diameter_bridge.Base.{
  ℕ, ◌≡◌, refl, Bool, true, false, ◌&&◌, ◌||◌, some, List, [], ◌∷◌, ◌++◌, append_assoc, ap, ◌∙◌,
  if◌then◌else◌, arith, ◌==◌,
}

key_head : (c : ℕ) (s : Text) → all_of is_key (c ∷ s) ≡ true → is_key c ≡ true
key_head c s h = ground (arith, h)

key_tail : (c : ℕ) (s : Text) → all_of is_key (c ∷ s) ≡ true → all_of is_key s ≡ true
key_tail c s h = ground (arith, h)

-- What a printed tree begins with.
data Printed : Text → Type 0 where
  starts : (c : ℕ) (s : Text) → Printed (c ∷ s)

print-Printed : (t : Tree) → IsNamed t → Printed (print t)
unfolding print
print-Printed (leaf []) h = absurd h
print-Printed (leaf (c ∷ cs)) h = starts c cs
print-Printed (round_robin_of ts) h = starts _ _
print-Printed (fail_over_of ts) h = starts _ _
print-Printed (random_of ts) h = starts _ _

scan-Printed :
    (s segment : Text) (seen : Bool) (values : List Text)
    → Printed s
    → IsClosed s (pos 0)
    → scan s segment seen (pos 0) values
      ≡ (if seen then values ++ (trim (segment ++ s) ∷ []) else values, pos 0)
scan-Printed s segment seen values (starts c cs) h =
    scan-last c cs segment seen (pos 0) values h.1
    ∙ ap
        (λ l.
          (if is_zero l && seen then values ++ (trim (segment ++ (c ∷ cs)) ∷ []) else values, l))
        h.0
    ∙ ap (λ b. (if b then values ++ (trim (segment ++ (c ∷ cs)) ∷ []) else values, pos 0))
        (seen_only seen)
  where
    seen_only : (b : Bool) → (true && b) ≡ b
    seen_only b = ground arith

-- The first of two or more elements is the next value.
scan-first :
    (t u : Tree) (us : Trees) (seen : Bool) (values : List Text)
    → IsNamed t
    → scan (print_all (cons t (cons u us))) [] seen (pos 0) values
      ≡ scan (print_all (cons u us)) [] true (pos 0) (values ++ (print t ∷ []))
unfolding print_all
scan-first t u us seen values h =
    let closed = print-IsClosed t 0 h in
    scan-closed (print t) b';' (print_all (cons u us)) [] seen (pos 0) values closed.1
    ∙ ap (λ l. scan (b';' ∷ print_all (cons u us)) (print t) seen l values) closed.0
    ∙ scan-cut (print_all (cons u us)) (print t) seen values
    ∙ ap (λ s. scan (print_all (cons u us)) [] true (pos 0) (values ++ (s ∷ [])))
        (trim_plain (print t) (print_plain t h))

-- The elements of a list are its values.
scan-print_all :
    (t : Tree) (ts : Trees) (values : List Text)
    → AreNamed (cons t ts)
    → scan (print_all (cons t ts)) [] true (pos 0) values ≡ (values ++ prints (cons t ts), pos 0)
unfolding print_all
scan-print_all t nil values h =
    scan-Printed (print t) [] true values (print-Printed t h) (print-IsClosed t 0 h)
    ∙ ap (λ s. (values ++ (s ∷ []), pos 0)) (trim_plain (print t) (print_plain t h))
scan-print_all t (cons u us) values h =
    scan-first t u us true values h.0
    ∙ scan-print_all u us (values ++ (print t ∷ [])) h.1
    ∙ ap (λ vs. (vs, pos 0)) (append_assoc values (print t ∷ []) (prints (cons u us)))

-- A text that is plain and that the loop reads without a value.
read_strategy-single : (t : Tree) → IsNamed t → read_strategy (print t) ≡ call_of (print t)
unfolding read_strategy
read_strategy-single t h =
    ap (λ s. choose s (scan s [] false (pos 0) [])) (lower_plain (print t) (print_plain t h))
    ∙ ap (choose (print t))
        (scan-Printed (print t) [] false [] (print-Printed t h) (print-IsClosed t 0 h))

read_strategy-list :
    (t u : Tree) (us : Trees)
    → AreNamed (cons t (cons u us))
    → read_strategy (print_all (cons t (cons u us))) ≡ some (value (prints (cons t (cons u us))))
unfolding read_strategy
read_strategy-list t u us h =
    let s = print_all (cons t (cons u us)) in
    ap (λ s. choose s (scan s [] false (pos 0) []))
      (lower_plain s (print_all_plain (cons t (cons u us)) h))
    ∙ ap (choose s) (scan-first t u us false [] h.0 ∙ scan-print_all u us (print t ∷ []) h.1)

plain_is_ascii : (s : Text) → all_of is_plain s ≡ true → is_ascii s ≡ true
unfolding is_ascii is_plain
plain_is_ascii [] h = refl
plain_is_ascii (c ∷ s) h = let ih = plain_is_ascii s in ground (arith, ih, h)

from_str-plain : (s : Text) → all_of is_plain s ≡ true → from_str s ≡ returned (read_strategy s)
unfolding from_str
from_str-plain s h = ap (λ b. if b then returned (read_strategy s) else panics) (plain_is_ascii s h)

pub from_str-single : (t : Tree) → IsNamed t → from_str (print t) ≡ returned (call_of (print t))
from_str-single t h =
    from_str-plain (print t) (print_plain t h) ∙ ap returned (read_strategy-single t h)

pub from_str-list :
    (t u : Tree) (us : Trees)
    → AreNamed (cons t (cons u us))
    → from_str (print_all (cons t (cons u us)))
      ≡ returned (some (value (prints (cons t (cons u us)))))
from_str-list t u us h =
    from_str-plain (print_all (cons t (cons u us))) (print_all_plain (cons t (cons u us)) h)
    ∙ ap returned (read_strategy-list t u us h)

-- What is behind the parenthesis of a call, up to the last one.
ends_with-append : (s : Text) → ends_with b')' (s ++ (b')' ∷ [])) ≡ true
unfolding ends_with
ends_with-append [] = refl
ends_with-append (c ∷ []) = refl
ends_with-append (c ∷ d ∷ s) = ends_with-append (d ∷ s)

strip_suffix-append : (s : Text) → strip_suffix b')' (s ++ (b')' ∷ [])) ≡ some s
unfolding strip_suffix
strip_suffix-append [] = refl
strip_suffix-append (c ∷ []) = refl
strip_suffix-append (c ∷ d ∷ s) = ap (cons_to c) (strip_suffix-append (d ∷ s))

-- The three calls.
if_true {ℓ} : {A : Type ℓ} (b : Bool) (x y : A) → b ≡ true → (if b then x else y) ≡ x
if_true b x y e = ap (λ b. if b then x else y) e

pub call_of-round_robin :
    (s : Text) → call_of (text "round-robin(" ++ (s ++ (b')' ∷ []))) ≡ some (round_robin s)
unfolding call_of names_call starts_with_one_of starts_with arguments behind_paren ends_with
call_of-round_robin s =
    if_true _ _ _ (ends_with-append (text "round-robin(" ++ s))
    ∙ ap (map_option round_robin) (strip_suffix-append s)

pub call_of-fail_over :
    (s : Text) → call_of (text "failover(" ++ (s ++ (b')' ∷ []))) ≡ some (fail_over s)
unfolding call_of names_call starts_with_one_of starts_with arguments behind_paren ends_with
call_of-fail_over s =
    if_true _ _ _ (ends_with-append (text "failover(" ++ s))
    ∙ ap (map_option fail_over) (strip_suffix-append s)

pub call_of-random : (s : Text) → call_of (text "random(" ++ (s ++ (b')' ∷ []))) ≡ some (random s)
unfolding call_of names_call starts_with_one_of starts_with arguments behind_paren ends_with
call_of-random s =
    if_true _ _ _ (ends_with-append (text "random(" ++ s))
    ∙ ap (map_option random) (strip_suffix-append s)

-- A key is no call.
abbrev has_paren : Text → Bool
has_paren [] = false
has_paren (c ∷ cs) = c == b'(' || has_paren cs

starts_with-key :
    (p s : Text) → has_paren p ≡ true → all_of is_key s ≡ true → starts_with p s ≡ false
unfolding starts_with
starts_with-key [] s h k = absurd (cc h)
starts_with-key (c ∷ p) [] h k = refl
starts_with-key (c ∷ p) (d ∷ s) h k =
    let ih = starts_with-key p s in
    let key = key_char d (key_head d s k) in
    let tail = key_tail d s k in ground (arith, h, key.0, ih, tail)

abbrev have_paren : List Text → Bool
have_paren [] = true
have_paren (p ∷ ps) = if has_paren p then have_paren ps else false

starts_with_one_of-key :
    (s : Text) (ps : List Text)
    → have_paren ps ≡ true
    → all_of is_key s ≡ true
    → starts_with_one_of s ps ≡ false
unfolding starts_with_one_of
starts_with_one_of-key s [] h k = refl
starts_with_one_of-key s (p ∷ ps) h k =
    let ih = starts_with_one_of-key s ps in
    let first = starts_with-key p s in ground (arith, h, k, ih, first)

names_call-key :
    (s : Text) (ps : List Text)
    → have_paren ps ≡ true
    → all_of is_key s ≡ true
    → names_call s ps ≡ false
unfolding names_call
names_call-key s ps h k = ap (λ b. b && ends_with b')' s) (starts_with_one_of-key s ps h k)

pub call_of-key : (s : Text) → all_of is_key s ≡ true → call_of s ≡ some (value (s ∷ []))
unfolding call_of
call_of-key s h =
    rw
      (
        names_call-key s (text "round-robin(" ∷ text "rr(" ∷ text "roundrobin(" ∷ []) refl h,
        names_call-key s (text "failover(" ∷ text "fo(" ∷ text "fail-over(" ∷ []) refl h,
        names_call-key s (text "random(" ∷ text "rand(" ∷ []) refl h,
      )
      refl
