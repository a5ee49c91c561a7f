-- ===== src/Routing/Tree.antt =====
-- `RoutingConnection::create_connection_from`: the groups of peers that a configuration names.
-- A leaf is the empty group that waits for the peers of its key in `host_realm_connections`.
use rest_diameter_bridge.Routing.Strategy.{
  LoadBalancerStrategy, round_robin, fail_over, random, value, FromStr, panics, returned, from_str,
}
use rest_diameter_bridge.Base.Text.{Text}
use rest_diameter_bridge.Base.{ℕ, zero, suc, Option, none, some, List, [], ◌∷◌}

mutual
  pub data Tree : Type 0 where
    leaf : Text → Tree
    round_robin_of fail_over_of random_of : Trees → Tree

  pub data Trees : Type 0 where
    nil : Trees
    cons : Tree → Trees → Trees

abbrev pub join : Trees → Trees → Trees
join nil ts = ts
join (cons t us) ts = cons t (join us ts)

-- The fuel ran out, the code panics, it returns `None`, or it returns connections.
pub data Created : Type 0 where
  exhausted panicked failed : Created
  created : Trees → Created

abbrev pub group_as : (Trees → Tree) → Created → Created
group_as group (created ts) = created (cons (group ts) nil)
group_as group failed = failed
group_as group panicked = panicked
group_as group exhausted = exhausted

-- `filter_map` and `flatten`.
abbrev pub beside : Created → Created → Created
beside exhausted rest = exhausted
beside panicked rest = panicked
beside failed rest = rest
beside (created ts) exhausted = exhausted
beside (created ts) panicked = panicked
beside (created ts) failed = failed
beside (created ts) (created us) = created (join ts us)

-- The branches of the `match`, with the recursive call as an argument.
abbrev pub create_all : (Text → Created) → List Text → Created
create_all create [] = created nil
create_all create (s ∷ ss) = beside (create s) (create_all create ss)

abbrev pub create_values : (Text → Created) → List Text → Created
create_values create [] = created nil
create_values create (s ∷ []) = created (cons (leaf s) nil)
create_values create (s ∷ s' ∷ ss) = create_all create (s ∷ s' ∷ ss)

abbrev pub create_as : (Text → Created) → Option LoadBalancerStrategy → Created
create_as create none = failed
create_as create (some (round_robin s)) = group_as round_robin_of (create s)
create_as create (some (random s)) = group_as random_of (create s)
create_as create (some (fail_over s)) = group_as fail_over_of (create s)
create_as create (some (value ss)) = create_values create ss

abbrev pub create_by : (Text → Created) → FromStr → Created
create_by create panics = panicked
create_by create (returned x) = create_as create x

unfoldable pub create_connection_from : ℕ → Text → Created
create_connection_from zero config = exhausted
create_connection_from (suc fuel) config = create_by (create_connection_from fuel) (from_str config)
