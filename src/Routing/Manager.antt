-- ===== src/Routing/Manager.antt =====
-- `RoutingConnectionManager` of src/transport/routing_connection.rs, `RoutingPolicy` and the routing
-- configuration of src/config.rs. The items are numbered in the order of the configuration; an item
-- that several keys share is one connection, so the map's entries hold its number.
pub mod Items
pub mod Delivered
pub mod Routed
use rest_diameter_bridge.Transport.Processor.{unwrap_or_default}
use rest_diameter_bridge.Avp.Defs.{map_option}
use rest_diameter_bridge.Routing.Peers.{RoutingConnection}
use rest_diameter_bridge.Routing.Peers as Peers
use rest_diameter_bridge.Transport.ConnectionManager.{Connection, host_realm_key}
use rest_diameter_bridge.Command.Defs.{Command, get_destination_host, get_destination_realm}
use rest_diameter_bridge.Base.Map.{Map, empty_map, insert, text_key}
use rest_diameter_bridge.Base.Text.{Text, text, text_eq}
use rest_diameter_bridge.Routing.Strategy.{is_ascii}
use rest_diameter_bridge.Base.{
  ◌&&◌, ◌++◌, ℕ, zero, suc, Bool, Option, none, some, List, [], ◌∷◌, ◌++◌, ◌==◌, if◌then◌else◌, leb,
  length, ◌-◌, true, false, ◌&&◌, ◌||◌,
}

pub data RoutingPolicy : Type 0 where
  realm_policy host_policy : RoutingPolicy

-- `to_uppercase` of an ASCII text.
unfoldable pub upper : Text → Text
upper [] = []
upper (c ∷ cs) = (if leb b'a' c && leb c b'z' then c - 32 else c) ∷ upper cs

unfoldable pub policy_from_str : Text → Option RoutingPolicy
policy_from_str s =
    if text_eq (upper s) (text "REALM")
    then some realm_policy
    else if text_eq (upper s) (text "HOST")
    then some host_policy
    else none

unfoldable pub policy_as_str : RoutingPolicy → Text
policy_as_str realm_policy = text "REALM"
policy_as_str host_policy = text "HOST"

-- `unwrap_or_default`: the default is `Realm`.
abbrev pub or_realm : Option RoutingPolicy → RoutingPolicy
or_realm none = realm_policy
or_realm (some p) = p

pub record RoutingItemConfig : Type 0 where
  pub host_realms : Option (List Text)
  pub application_ids : Option (List ℕ)
  pub route : Text

pub record StackRoutingConfig : Type 0 where
  pub policy : Text
  pub default : Option Text
  pub items : Option (List RoutingItemConfig)

pub record RoutingItem : Type 0 where
  pub application_ids : Option (List ℕ)
  pub host_realms : Option (List Text)
  pub routing_connection : ℕ

unfoldable pub contains : ℕ → List ℕ → Bool
contains n [] = false
contains n (m ∷ ms) = m == n || contains n ms

abbrev pub allows : Option (List ℕ) → ℕ → Bool
allows none app_id = true
allows (some ids) app_id = contains app_id ids

unfoldable pub contains_app_id : RoutingItem → ℕ → Bool
contains_app_id item app_id = allows item.application_ids app_id

pub record RoutingConnectionManager : Type 0 where
  pub policy : RoutingPolicy
  pub routing_connections : Map Text RoutingItem
  pub default_routing_connection : Option RoutingConnection
  pub connections : ℕ → RoutingConnection

-- `RoutingConnection::new`, with fuel for the length of the configuration.
abbrev pub new_connection : Text → RoutingConnection
new_connection config = Peers.new (suc (length config)) config

unfoldable pub create_routing_item : ℕ → RoutingItemConfig → RoutingItem
create_routing_item n item = record {
  application_ids = item.application_ids;
  host_realms = item.host_realms;
  routing_connection = n;
}

abbrev pub insert_all : List Text → RoutingItem → Map Text RoutingItem → Map Text RoutingItem
insert_all [] item m = m
insert_all (hr ∷ hrs) item m = insert_all hrs item (insert hr item m)

abbrev pub insert_item :
    Option (List Text) → RoutingItem → Map Text RoutingItem → Map Text RoutingItem
insert_item none item m = m
insert_item (some hrs) item m = insert_all hrs item m

-- The body of the `for_each` over the items, for the item with the number `n`.
abbrev pub set_item : RoutingItemConfig → ℕ → RoutingConnectionManager → RoutingConnectionManager
set_item item n m = record m {
  routing_connections =
      insert_item item.host_realms (create_routing_item n item) m.routing_connections;
  connections = λ j. if j == n then new_connection item.route else m.connections j;
}

abbrev pub set_items :
    List RoutingItemConfig → ℕ → RoutingConnectionManager → RoutingConnectionManager
set_items [] n m = m
set_items (item ∷ items) n m = set_items items (suc n) (set_item item n m)

abbrev pub items_or_none : Option (List RoutingItemConfig) → List RoutingItemConfig
items_or_none none = []
items_or_none (some items) = items

-- The manager, once every text is read.
unfoldable pub manager_of : StackRoutingConfig → RoutingConnectionManager
manager_of config = set_items (items_or_none config.items) 0 (record {
  policy = or_realm (policy_from_str config.policy);
  routing_connections = empty_map;
  default_routing_connection = map_option new_connection config.default;
  connections = λ j. new_connection [];
})

abbrev pub routes : List RoutingItemConfig → List Text
routes [] = []
routes (item ∷ items) = item.route ∷ routes items

abbrev pub default_route : Option Text → List Text
default_route none = []
default_route (some route) = route ∷ []

unfoldable pub all_ascii : List Text → Bool
all_ascii [] = true
all_ascii (s ∷ ss) = is_ascii s && all_ascii ss

-- `new` reads the default and every route; `none` says that it panics on one of them.
unfoldable pub new : StackRoutingConfig → Option RoutingConnectionManager
new config =
    if all_ascii (default_route config.default ++ routes (items_or_none config.items))
    then some (manager_of config)
    else none

-- A change of the connection of the item that a key finds.
abbrev pub change_item :
    (RoutingConnection → RoutingConnection)
    → Option RoutingItem
    → (ℕ → RoutingConnection)
    → ℕ
    → RoutingConnection
change_item change none s j = s j
change_item change (some item) s j = if j == item.routing_connection then change (s j) else s j

abbrev pub change_items :
    (RoutingConnection → RoutingConnection)
    → Connection
    → RoutingConnectionManager
    → RoutingConnectionManager
change_items change c m =
    let items = m.routing_connections in
    record m {
      connections =
          change_item change (items (host_realm_key c.host c.realm))
            (change_item change (items c.realm) m.connections);
      default_routing_connection = map_option change m.default_routing_connection;
    }

unfoldable pub add_connection : Connection → RoutingConnectionManager → RoutingConnectionManager
add_connection c m = change_items (Peers.add_connection c) c m

unfoldable pub remove_connection :
    (Connection → Connection → Bool)
    → Connection
    → RoutingConnectionManager
    → RoutingConnectionManager
remove_connection same c m = change_items (Peers.remove_connection same c) c m

abbrev pub add_all : List Connection → RoutingConnectionManager → RoutingConnectionManager
add_all [] m = m
add_all (c ∷ cs) m = add_all cs (add_connection c m)

unfoldable pub key_for : RoutingPolicy → Command → Text
key_for realm_policy c = unwrap_or_default (get_destination_realm c)
key_for host_policy c =
    host_realm_key (unwrap_or_default (get_destination_host c))
      (unwrap_or_default (get_destination_realm c))

-- The connection of the item if the item takes the application, or else the default.
abbrev pub item_or_default :
    Option RoutingItem → ℕ → RoutingConnectionManager → Option RoutingConnection
item_or_default none app_id m = m.default_routing_connection
item_or_default (some item) app_id m =
    if contains_app_id item app_id
    then some (m.connections item.routing_connection)
    else m.default_routing_connection

-- The tests that `find_send_command` and `get_connections_for_command` share.
unfoldable pub find : Command → RoutingConnectionManager → Option RoutingConnection
find c m = item_or_default (m.routing_connections (key_for m.policy c)) c.application_id m

pub data SendError : Type 0 where
  no_routing_connection : SendError
  send_error : Text → SendError

-- `none` is `Ok`; `send` stands for the `send` of the connections that the groups hold.
abbrev pub send_along :
    (RoutingConnection → Option Text) → Option RoutingConnection → Option SendError
send_along send none = some no_routing_connection
send_along send (some r) = map_option send_error (send r)

unfoldable pub find_send_command :
    (RoutingConnection → Option Text) → Command → RoutingConnectionManager → Option SendError
find_send_command send c m = send_along send (find c m)
