-- ===== src/Routing/Peers.antt =====
-- `RoutingConnection` of src/transport/routing_connection.rs. The groups that wait for peers are
-- numbered in the order in which `create_connection_from` inserts them into
-- `host_realm_connections`, which is the order of the leaves; the map holds their numbers.
pub mod Filled
use rest_diameter_bridge.Routing.Tree.{
  Tree, Trees, leaf, round_robin_of, fail_over_of, random_of, nil, cons, Created, exhausted,
  panicked, failed, created, create_connection_from,
}
use rest_diameter_bridge.Transport.Balance.Rotation.{push_connection, retain_other}
use rest_diameter_bridge.Transport.ConnectionManager.{Connection, host_realm_key}
use rest_diameter_bridge.Base.Map.{Map, empty_map, insert, text_key}
use rest_diameter_bridge.Base.Text.{Text}
use rest_diameter_bridge.Base.{
  ℕ, zero, suc, Bool, Option, none, some, List, [], ◌∷◌, ◌++◌, ◌==◌, if◌then◌else◌,
}

pub record RoutingConnection : Type 0 where
  pub connection : Tree
  pub host_realm_connections : Map Text ℕ
  pub groups : ℕ → List Connection

abbrev mutual
  pub names : Tree → List Text
  names (leaf key) = key ∷ []
  names (round_robin_of ts) = names_all ts
  names (fail_over_of ts) = names_all ts
  names (random_of ts) = names_all ts

  pub names_all : Trees → List Text
  names_all nil = []
  names_all (cons t ts) = names t ++ names_all ts

-- The `insert` of each leaf, the next number first.
abbrev pub place : List Text → ℕ → Map Text ℕ → Map Text ℕ
place [] i m = m
place (k ∷ ks) i m = place ks (suc i) (insert k i m)

-- One connection stands for itself, several take turns, and none is an empty group. A text on which
-- the program panics gives no connection; the manager's `new` stops on it.
abbrev pub root_of : Created → Tree
root_of exhausted = round_robin_of nil
root_of panicked = round_robin_of nil
root_of failed = round_robin_of nil
root_of (created nil) = round_robin_of nil
root_of (created (cons t nil)) = t
root_of (created (cons t (cons u us))) = round_robin_of (cons t (cons u us))

abbrev pub names_of : Created → List Text
names_of exhausted = []
names_of panicked = []
names_of failed = []
names_of (created ts) = names_all ts

unfoldable pub new : ℕ → Text → RoutingConnection
new fuel config =
    let made = create_connection_from fuel config in
    record {
      connection = root_of made;
      host_realm_connections = place (names_of made) 0 empty_map;
      groups = λ i. [];
    }

-- The `if let Some(conn) = ...get(&k)` of the loops.
abbrev pub change_group :
    (List Connection → List Connection) → Option ℕ → (ℕ → List Connection) → ℕ → List Connection
change_group change none groups j = groups j
change_group change (some i) groups j = if j == i then change (groups j) else groups j

abbrev pub change_groups :
    (List Connection → List Connection) → Connection → RoutingConnection → RoutingConnection
change_groups change c r =
    let m = r.host_realm_connections in
    record r {
      groups =
          change_group change (m c.realm)
            (change_group change (m (host_realm_key c.host c.realm)) r.groups);
    }

unfoldable pub add_connection : Connection → RoutingConnection → RoutingConnection
add_connection c r = change_groups (push_connection c) c r

-- `same` is `Arc::ptr_eq`.
unfoldable pub remove_connection :
    (Connection → Connection → Bool) → Connection → RoutingConnection → RoutingConnection
remove_connection same c r = change_groups (retain_other same c) c r

-- Connections as they come.
abbrev pub add_all : List Connection → RoutingConnection → RoutingConnection
add_all [] r = r
add_all (c ∷ cs) r = add_all cs (add_connection c r)
