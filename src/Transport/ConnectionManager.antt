-- ===== src/Transport/ConnectionManager.antt =====
-- The registry of src/transport/connection_manager.rs, for a manager without a routing manager: the
-- connections by id, and for each host and realm the round-robin group of its connections, with its
-- index. A connection is here what the registry asks of it, `unwrap_or_default` applied; sending is
-- not modelled.
use rest_diameter_bridge.Transport.Balance.RoundRobin.{
  RoundRobinConnection, new_round_robin, join, list_connections,
}
use rest_diameter_bridge.Base.{
  ◌≡◌, ◌≢◌, Option, none, some, List, [], ◌∷◌, ◌++◌, if◌then◌else◌, ap, ◌∙◌,
}
use rest_diameter_bridge.Base.Text.{Text}
use rest_diameter_bridge.Base.Map.{Map, empty_map, insert, remove, text_key, beq_self, beq-ne}

pub record Connection : Type 0 where
  pub id : Text
  pub host : Text
  pub realm : Text

pub record ConnectionManager : Type 0 where
  pub connections : Map Text Connection
  pub host_realm_connections : Map Text (RoundRobinConnection Connection)

unfoldable pub new_manager : ConnectionManager
new_manager = record { connections = empty_map; host_realm_connections = empty_map }

-- `format!("{}@{}", host, realm)`.
unfoldable pub host_realm_key : Text → Text → Text
host_realm_key host realm = host ++ (b'@' ∷ realm)

-- The group after `add_connection`: the one found, or a new `RoundRobinConnection`.
abbrev pub join_group :
    Option (RoundRobinConnection Connection) → Connection → RoundRobinConnection Connection
join_group none c = join c (new_round_robin [])
join_group (some group) c = join c group

unfoldable pub add_connection : Connection → ConnectionManager → ConnectionManager
add_connection c m =
    let key = host_realm_key c.host c.realm in
    record {
      connections = insert c.id c m.connections;
      host_realm_connections =
          insert key (join_group (m.host_realm_connections key) c) m.host_realm_connections;
    }

unfoldable pub remove_connection : Connection → ConnectionManager → ConnectionManager
remove_connection c m = record {
  connections = remove c.id m.connections;
  host_realm_connections =
      remove (host_realm_key c.host c.realm) (remove c.realm m.host_realm_connections);
}

-- What `remove_connection_by_id` does with the connection that it took out of the map.
abbrev forget : Text → Option Connection → ConnectionManager → ConnectionManager
forget id none m = m
forget id (some c) m = record {
  connections = remove id m.connections;
  host_realm_connections =
      remove (host_realm_key c.host c.realm) (remove c.realm m.host_realm_connections);
}

unfoldable pub remove_connection_by_id : Text → ConnectionManager → ConnectionManager
remove_connection_by_id id m = forget id (m.connections id) m

unfoldable pub get_connection_by_id : Text → ConnectionManager → Option Connection
get_connection_by_id id m = m.connections id

unfoldable pub get_connection_by_host_realm :
    Text → Text → ConnectionManager → Option (RoundRobinConnection Connection)
get_connection_by_host_realm host realm m = m.host_realm_connections (host_realm_key host realm)

abbrev pub if_found :
    Option Connection → Option (RoundRobinConnection Connection) → Option (List Connection)
if_found none none = none
if_found none (some group) = some (list_connections group []).0
if_found (some c) group = some (c ∷ [])

-- The connections that `send_response` sends on: the one with the id, and else those of the group in
-- their turn. That a response on a group moves its index on is not recorded.
unfoldable pub response_targets : Text → Text → Text → ConnectionManager → Option (List Connection)
response_targets id host realm m =
    if_found (get_connection_by_id id m) (get_connection_by_host_realm host realm m)

-- A connection that was added is found by its id, and it is the last of the group of its host and
-- realm, behind those that were there.
pub add_connection_lem :
    (c : Connection) (m : ConnectionManager)
    → (get_connection_by_id c.id (add_connection c m) ≡ some c)
      × (get_connection_by_host_realm c.host c.realm (add_connection c m)
          ≡ some (join_group (get_connection_by_host_realm c.host c.realm m) c))
unfolding get_connection_by_id get_connection_by_host_realm add_connection
add_connection_lem c m = (
  ap (λ b. if b then some c else m.connections c.id) (beq_self c.id),
  ap
      (λ b.
        if b
        then some (join_group (m.host_realm_connections (host_realm_key c.host c.realm)) c)
        else m.host_realm_connections (host_realm_key c.host c.realm))
      (beq_self (host_realm_key c.host c.realm)),
)

-- Removing a connection leaves a registered connection with another id registered, and yet
-- afterwards no group is found for the host and realm of the removed connection.
pub remove_connection_drops_group :
    (c d : Connection) (m : ConnectionManager)
    → get_connection_by_id d.id m ≡ some d
    → d.id ≢ c.id
    → (get_connection_by_id d.id (remove_connection c m) ≡ some d)
      × (get_connection_by_host_realm c.host c.realm (remove_connection c m) ≡ none)
unfolding get_connection_by_id get_connection_by_host_realm remove_connection
remove_connection_drops_group c d m e ne = (
  ap (λ b. if b then none else m.connections d.id) (beq-ne d.id c.id ne) ∙ e,
  ap
      (λ b.
        if b then none else remove c.realm m.host_realm_connections (host_realm_key c.host c.realm))
      (beq_self (host_realm_key c.host c.realm)),
)
