-- ===== src/Routing/Manager/Delivered.antt =====
-- Which of the peers each item's connection is given.
use rest_diameter_bridge.Routing.Manager.{
  RoutingConnectionManager, RoutingItem, change_item, add_connection, add_all,
}
use rest_diameter_bridge.Routing.Peers as Peers
use rest_diameter_bridge.Routing.Peers.{RoutingConnection, names}
use rest_diameter_bridge.Transport.ConnectionManager.{Connection, host_realm_key}
use rest_diameter_bridge.Base.Map.{Map, text_key, nat_key}
use rest_diameter_bridge.Base.Text.{Text}
use rest_diameter_bridge.Base.{
  ℕ, ◌≡◌, Bool, true, false, Option, none, some, List, [], ◌∷◌, ◌==◌, if◌then◌else◌, refl, ap, ◌∙◌,
  arith, sym,
}

-- The connections that an item's connection is given, once for each key that finds the item.
abbrev pub finds : ℕ → Option RoutingItem → Bool
finds n none = false
finds n (some item) = item.routing_connection == n

abbrev pub times : Bool → Connection → List Connection → List Connection
times b c cs = if b then c ∷ cs else cs

abbrev pub delivered : ℕ → Map Text RoutingItem → List Connection → List Connection
delivered n m [] = []
delivered n m (c ∷ cs) =
    times (finds n (m c.realm)) c
      (times (finds n (m (host_realm_key c.host c.realm))) c (delivered n m cs))

change_item-finds :
    (f : RoutingConnection → RoutingConnection) (o : Option RoutingItem) (s : ℕ → RoutingConnection)
    (n : ℕ)
    → change_item f o s n ≡ (if finds n o then f (s n) else s n)
change_item-finds f none s n = refl
change_item-finds f (some item) s n = ground arith

deliver :
    (a b : Bool) (c : Connection) (cs : List Connection) (r : RoutingConnection)
    → Peers.add_all (times a c (times b c cs)) r
      ≡ Peers.add_all cs (
          if b
          then Peers.add_connection c (if a then Peers.add_connection c r else r)
          else if a
          then Peers.add_connection c r
          else r)
deliver true true c cs r = refl
deliver true false c cs r = refl
deliver false true c cs r = refl
deliver false false c cs r = refl

pub add_all-delivered :
    (cs : List Connection) (m : RoutingConnectionManager) (n : ℕ)
    → (add_all cs m).connections n
      ≡ Peers.add_all (delivered n m.routing_connections cs) (m.connections n)
unfolding add_connection
add_all-delivered [] m n = refl
add_all-delivered (c ∷ cs) m n =
    let f = Peers.add_connection c in
    let items = m.routing_connections in
    let key = host_realm_key c.host c.realm in
    let first = change_item f (items c.realm) m.connections in
    add_all-delivered cs (add_connection c m) n
    ∙ ap (Peers.add_all (delivered n items cs)) (
        change_item-finds f (items key) first n
        ∙ ap (λ r. if finds n (items key) then f r else r)
            (change_item-finds f (items c.realm) m.connections n))
    ∙ sym (
        deliver (finds n (items c.realm)) (finds n (items key)) c (delivered n items cs)
          (m.connections n))

pub add_all-keeps :
    (cs : List Connection) (m : RoutingConnectionManager)
    → ((add_all cs m).policy ≡ m.policy)
      × ((add_all cs m).routing_connections ≡ m.routing_connections)
unfolding add_connection
add_all-keeps [] m = (refl, refl)
add_all-keeps (c ∷ cs) m = add_all-keeps cs (add_connection c m)
