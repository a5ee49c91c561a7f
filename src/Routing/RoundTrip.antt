-- ===== src/Routing/RoundTrip.antt =====
-- The configuration of a tree of groups builds that tree.
use mathlib.Core.Path.{ap₂}
use rest_diameter_bridge.Routing.Parsed.{
  from_str-single, call_of-key, call_of-round_robin, call_of-fail_over, call_of-random,
  from_str-list,
}
use rest_diameter_bridge.Base.Text.{Text, text}
use rest_diameter_bridge.Routing.Strategy.{returned}
use rest_diameter_bridge.Routing.Tree.{
  Tree, Trees, leaf, round_robin_of, fail_over_of, random_of, nil, cons, created,
  create_connection_from, create_by, create_all, beside, group_as,
}
use rest_diameter_bridge.Routing.Printed.{print, print_all, prints, IsNamed, AreNamed}
use rest_diameter_bridge.Base.{
  ℕ, zero, suc, ◌≡◌, ap, ◌∙◌, length, length-append, ◌<◌, [], ◌∷◌, ◌++◌, arith,
}

-- The arguments of a call are shorter than the call.
shorter_call : (pre s : Text) (n : ℕ) → length (pre ++ (s ++ (b')' ∷ []))) < suc n → length s < n
shorter_call pre s n h =
    let outer = length-append pre (s ++ (b')' ∷ [])) in
    let inner = length-append s (b')' ∷ []) in omega (arith, outer, inner, h)

none_shorter : {n : ℕ} → n < zero → ⊥
none_shorter h = omega (arith, h)

up_one : {n fuel : ℕ} → n < fuel → n < suc fuel
up_one h = omega (arith, h)

-- The elements of a list are shorter than the list.
shorter_head :
    (t u : Tree) (us : Trees) (fuel : ℕ)
    → length (print_all (cons t (cons u us))) < suc fuel
    → length (print t) < fuel
unfolding print_all
shorter_head t u us fuel h =
    let sum = length-append (print t) (b';' ∷ print_all (cons u us)) in omega (arith, sum, h)

shorter_rest :
    (t u : Tree) (us : Trees) (fuel : ℕ)
    → length (print_all (cons t (cons u us))) < suc fuel
    → length (print_all (cons u us)) < fuel
unfolding print_all
shorter_rest t u us fuel h =
    let sum = length-append (print t) (b';' ∷ print_all (cons u us)) in omega (arith, sum, h)

mutual
  unfolding create_connection_from print print_all

  read_tree :
      (t : Tree) (fuel : ℕ)
      → IsNamed t
      → length (print t) < fuel
      → create_connection_from fuel (print t) ≡ created (cons t nil)
  read_tree t zero h short = absurd (none_shorter short)
  read_tree (leaf []) (suc fuel) h short = absurd h
  read_tree (leaf (c ∷ cs)) (suc fuel) h short =
      ap (create_by (create_connection_from fuel))
        (from_str-single (leaf (c ∷ cs)) h ∙ ap returned (call_of-key (c ∷ cs) h))
  read_tree (round_robin_of ts) (suc fuel) h short =
      ap (create_by (create_connection_from fuel))
        (from_str-single (round_robin_of ts) h ∙ ap returned (call_of-round_robin (print_all ts)))
      ∙ ap (group_as round_robin_of)
          (read_trees ts fuel h (shorter_call (text "round-robin(") (print_all ts) fuel short))
  read_tree (fail_over_of ts) (suc fuel) h short =
      ap (create_by (create_connection_from fuel))
        (from_str-single (fail_over_of ts) h ∙ ap returned (call_of-fail_over (print_all ts)))
      ∙ ap (group_as fail_over_of)
          (read_trees ts fuel h (shorter_call (text "failover(") (print_all ts) fuel short))
  read_tree (random_of ts) (suc fuel) h short =
      ap (create_by (create_connection_from fuel))
        (from_str-single (random_of ts) h ∙ ap returned (call_of-random (print_all ts)))
      ∙ ap (group_as random_of)
          (read_trees ts fuel h (shorter_call (text "random(") (print_all ts) fuel short))

  read_trees :
      (ts : Trees) (fuel : ℕ)
      → AreNamed ts
      → length (print_all ts) < fuel
      → create_connection_from fuel (print_all ts) ≡ created ts
  read_trees nil fuel h short = absurd h
  read_trees (cons t nil) fuel h short = read_tree t fuel h short
  read_trees (cons t (cons u us)) zero h short = absurd (none_shorter short)
  read_trees (cons t (cons u us)) (suc fuel) h short =
      ap (create_by (create_connection_from fuel)) (from_str-list t u us h)
      ∙ ap₂ beside (read_tree t fuel h.0 (shorter_head t u us fuel short))
          (read_each (cons u us) fuel h.1 (shorter_rest t u us fuel short))

  read_each :
      (ts : Trees) (fuel : ℕ)
      → AreNamed ts
      → length (print_all ts) < fuel
      → create_all (create_connection_from fuel) (prints ts) ≡ created ts
  read_each nil fuel h short = absurd h
  read_each (cons t nil) fuel h short = ap (λ c. beside c (created nil)) (read_tree t fuel h short)
  read_each (cons t (cons u us)) fuel h short =
      ap₂ beside (read_tree t fuel h.0 (shorter_head t u us fuel (up_one short)))
        (read_each (cons u us) fuel h.1 (shorter_rest t u us fuel (up_one short)))

-- With more fuel than characters, create_connection_from builds from the text of a tree of groups
-- exactly that tree, if no group of it is empty and its names are not empty and are ASCII without
-- blanks, capitals, parentheses and semicolons.
pub create_connection_from-print :
    (t : Tree) (fuel : ℕ)
    → IsNamed t
    → length (print t) < fuel
    → create_connection_from fuel (print t) ≡ created (cons t nil)
create_connection_from-print = read_tree
