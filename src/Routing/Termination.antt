-- ===== src/Routing/Termination.antt =====
-- A configuration is read to its end: what a call of `create_connection_from` passes on is shorter.
use rest_diameter_bridge.Routing.Shorter.{all_shorter, read_strategy-shorter, passes_shorter}
use rest_diameter_bridge.Routing.Strategy.{
  LoadBalancerStrategy, round_robin, fail_over, random, value, from_str, read_strategy, is_ascii,
  panics, returned,
}
use rest_diameter_bridge.Routing.Tree.{
  Tree, Trees, Created, exhausted, panicked, failed, created, create_connection_from, create_by,
  create_as, create_all, beside, group_as, round_robin_of, fail_over_of, random_of,
}
use rest_diameter_bridge.Base.Text.{Text}
use rest_diameter_bridge.Base.{
  ℕ, zero, suc, ◌≡◌, ap, List, [], ◌∷◌, Option, none, some, Bool, true, false, length, ◌<◌, arith,
  refl, ◌≢◌, if◌then◌else◌,
}

-- The result is no `exhausted`.
abbrev returns : Created → Bool
returns exhausted = false
returns panicked = true
returns failed = true
returns (created ts) = true

beside-returns : (a b : Created) → returns a ≡ true → returns b ≡ true → returns (beside a b) ≡ true
beside-returns exhausted b h h' = h
beside-returns panicked b h h' = refl
beside-returns failed b h h' = h'
beside-returns (created ts) exhausted h h' = h'
beside-returns (created ts) panicked h h' = refl
beside-returns (created ts) failed h h' = refl
beside-returns (created ts) (created us) h h' = refl

group_as-returns :
    (group : Trees → Tree) (a : Created) → returns a ≡ true → returns (group_as group a) ≡ true
group_as-returns group exhausted h = h
group_as-returns group panicked h = refl
group_as-returns group failed h = refl
group_as-returns group (created ts) h = refl

module _ (n : ℕ) (create : Text → Created)
    (below : (s : Text) → length s < n → returns (create s) ≡ true) where
  create_all-returns :
      (vs : List Text) → all_shorter n vs ≡ true → returns (create_all create vs) ≡ true
  create_all-returns [] h = refl
  create_all-returns (v ∷ vs) h =
      let ih = create_all-returns vs in
      beside-returns (create v) (create_all create vs) (below v (ground (arith, h)))
        (ground (arith, h, ih))

  create_as-returns :
      (x : Option LoadBalancerStrategy)
      → passes_shorter n x ≡ true
      → returns (create_as create x) ≡ true
  create_as-returns none h = refl
  create_as-returns (some (round_robin s)) h =
      group_as-returns round_robin_of (create s) (below s (ground (arith, h)))
  create_as-returns (some (fail_over s)) h =
      group_as-returns fail_over_of (create s) (below s (ground (arith, h)))
  create_as-returns (some (random s)) h =
      group_as-returns random_of (create s) (below s (ground (arith, h)))
  create_as-returns (some (value [])) h = refl
  create_as-returns (some (value (v ∷ []))) h = refl
  create_as-returns (some (value (v ∷ w ∷ vs))) h = create_all-returns (v ∷ w ∷ vs) h

  create_by-returns :
      (b : Bool) (x : Option LoadBalancerStrategy)
      → passes_shorter n x ≡ true
      → returns (create_by create (if b then returned x else panics)) ≡ true
  create_by-returns true x h = create_as-returns x h
  create_by-returns false x h = refl

enough_fuel :
    (fuel : ℕ) (config : Text)
    → length config < fuel
    → returns (create_connection_from fuel config) ≡ true
unfolding create_connection_from from_str
enough_fuel zero config short = absurd (omega (arith, short))
enough_fuel (suc fuel) config short =
    create_by-returns (length config) (create_connection_from fuel)
      (λ s shorter. enough_fuel fuel s (omega (arith, shorter, short))) (is_ascii config)
      (read_strategy config) (read_strategy-shorter config)

-- On any configuration, the recursion of create_connection_from ends before its fuel, one more
-- than the characters, is used up.
pub create_connection_from-returns :
    (fuel : ℕ) (config : Text)
    → length config < fuel
    → create_connection_from fuel config ≢ exhausted
create_connection_from-returns fuel config short e =
    let done = enough_fuel fuel config short in
    let stuck = ap returns e in absurd (cc (done, stuck))
