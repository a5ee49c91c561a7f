-- ===== src/Routing/Manager/Routed.antt =====
-- A command reaches the groups of the item that the configuration gives for its key.
use rest_diameter_bridge.Routing.Manager.Delivered.{add_all-keeps, delivered, add_all-delivered}
use rest_diameter_bridge.Routing.Manager.Items.{
  in_keys, any_lists, set_items-policy, set_items-found,
}
use rest_diameter_bridge.Routing.Manager.{
  RoutingConnectionManager, RoutingItem, RoutingItemConfig, StackRoutingConfig, set_items,
  create_routing_item, new_connection, add_all, find, key_for, allows, contains_app_id,
  item_or_default, new, manager_of, all_ascii, default_route, routes, policy_from_str, or_realm,
}
use rest_diameter_bridge.Routing.Peers as Peers
use rest_diameter_bridge.Routing.Peers.{RoutingConnection, names}
use rest_diameter_bridge.Routing.Peers.Filled.{has_key, served, add_all-new}
use rest_diameter_bridge.Routing.Tree.{Tree}
use rest_diameter_bridge.Routing.Printed.{print, IsNamed}
use rest_diameter_bridge.Transport.ConnectionManager.{Connection}
use rest_diameter_bridge.Command.Defs.{Command}
use rest_diameter_bridge.Base.Map.{text_key, nat_key}
use rest_diameter_bridge.Base.Text.{Text}
use rest_diameter_bridge.Base.{
  ℕ, suc, ◌≡◌, true, false, Option, none, some, List, ◌∷◌, ◌++◌, if◌then◌else◌, length, ap, ◌∙◌,
  arith, get_elem?,
}

-- What the item that a command's key finds comes to.
find-item :
    (c : Command) (m : RoutingConnectionManager) (item : RoutingItem)
    → m.routing_connections (key_for m.policy c) ≡ some item
    → contains_app_id item c.application_id ≡ true
    → find c m ≡ some (m.connections item.routing_connection)
unfolding find
find-item c m item h allowed =
    ap (λ o. item_or_default o c.application_id m) h
    ∙ ap
        (λ b.
          if b then some (m.connections item.routing_connection) else m.default_routing_connection)
        allowed

new_policy :
    (items : List RoutingItemConfig) (m : RoutingConnectionManager) (cs : List Connection)
    → (add_all cs (set_items items 0 m)).policy ≡ m.policy
new_policy items m cs = (add_all-keeps cs (set_items items 0 m)).0 ∙ set_items-policy items 0 m

-- The policy and the items of a configuration, with or without a default.
abbrev pub configured : Text → Option Text → List RoutingItemConfig → StackRoutingConfig
configured policy default items = record { policy = policy; default = default; items = some items }

-- What finds the item of a key, and what the item's connection has been given.
find-configured :
    (before : List RoutingItemConfig) (item : RoutingItemConfig) (after : List RoutingItemConfig)
    (m : RoutingConnectionManager) (cs : List Connection) (c : Command)
    → in_keys item.host_realms (key_for m.policy c) ≡ true
    → any_lists after (key_for m.policy c) ≡ false
    → allows item.application_ids c.application_id ≡ true
    → find c (add_all cs (set_items (before ++ (item ∷ after)) 0 m))
      ≡ some (
          Peers.add_all
            (delivered
              (length before)
              (set_items (before ++ (item ∷ after)) 0 m).routing_connections
              cs)
            (new_connection item.route))
unfolding contains_app_id create_routing_item
find-configured before item after m cs c listed free allowed =
    let items = before ++ (item ∷ after) in
    let n = length before in
    let set = set_items items 0 m in
    let found =
      set_items-found before item after 0 n m (key_for m.policy c) (omega arith) listed free in
    find-item c (add_all cs set) (create_routing_item n item)
      (ap (λ f. f (key_for (add_all cs set).policy c)) (add_all-keeps cs set).1
        ∙ ap (λ p. set.routing_connections (key_for p c)) (new_policy items m cs)
        ∙ found.0)
      allowed
    ∙ ap some (
        add_all-delivered cs set n
        ∙ ap (Peers.add_all (delivered n set.routing_connections cs)) found.1)

-- If an item of the configuration lists the key of a command under the policy, no later item
-- does, the item takes the application, the default and the routes of all items are ASCII, and
-- the item's route is the text of a tree without empty groups, whose names are not empty and are
-- ASCII without blanks, capitals, parentheses and semicolons, then new does not panic, and the
-- manager that it makes, after any peers were added, finds for the command a connection that is
-- that tree, whose group with a given name of the tree holds exactly the peers with that name as
-- realm or as host and realm, in their order, each as often as the item was given it.
pub find-new :
    (policy : Text) (default : Option Text) (before : List RoutingItemConfig)
    (item : RoutingItemConfig) (after : List RoutingItemConfig) (t : Tree) (cs : List Connection)
    (c : Command) (k : Text)
    → all_ascii (default_route default ++ routes (before ++ (item ∷ after))) ≡ true
    → item.route ≡ print t
    → IsNamed t
    → in_keys item.host_realms (key_for (or_realm (policy_from_str policy)) c) ≡ true
    → any_lists after (key_for (or_realm (policy_from_str policy)) c) ≡ false
    → allows item.application_ids c.application_id ≡ true
    → has_key k (names t) ≡ true
    → (m : RoutingConnectionManager) × (new (configured policy default (before ++ (item ∷ after)))
        ≡ some m)
      × ((r : RoutingConnection) × (find c (add_all cs m) ≡ some r)
          × (r.connection ≡ t)
          × ((i : ℕ) × (get_elem? (names t) i ≡ some k)
              × (r.groups i ≡ served k (delivered (length before) m.routing_connections cs))))
unfolding new manager_of
find-new policy default before item after t cs c k ascii route named listed free allowed in_tree =
    let m = manager_of (configured policy default (before ++ (item ∷ after))) in
    let given = delivered (length before) m.routing_connections cs in
    let filled = add_all-new t (suc (length (print t))) given k named (omega arith) in_tree in
    (
      m,
      ap (λ b. if b then some m else none) ascii,
      (
        Peers.add_all given (new_connection (print t)),
        find-configured before item after _ cs c listed free allowed
            ∙ ap (λ s. some (Peers.add_all given (new_connection s))) route,
        filled.0,
        filled.1,
      ),
    )
