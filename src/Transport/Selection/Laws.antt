-- ===== src/Transport/Selection/Laws.antt =====
-- Which connections a request is sent on.
use rest_diameter_bridge.Transport.Requests.{
  AllFail, is_redirect, answered, send_request, send_request-failover, redirect_to,
}
use rest_diameter_bridge.Base.Text.{Text}
use mathlib.Core.List.{reverse, reverse-append}
use rest_diameter_bridge.Transport.Selection.{
  contains_text, of_hosts, underlying, underlying_all, peers, unless_empty, redirected,
  get_redirect_connections, get_connections_for_request, direct_or_routed, first_choice, by_route,
  request_key, listed_or_empty, get_connections_by_hosts, send_chosen,
}
use rest_diameter_bridge.Transport.ConnectionManager.{Connection, ConnectionManager}
use rest_diameter_bridge.Transport.Underlying.{
  Node, peer, container, get_underlying_connections-reverse, size, leaves, all_leaves,
}
use rest_diameter_bridge.Transport.Redirect.{RedirectCaches, get_redirect}
use rest_diameter_bridge.Routing.Manager.{RoutingConnectionManager}
use rest_diameter_bridge.Routing.Peers.{RoutingConnection}
use rest_diameter_bridge.Command.Defs.{Command, texts_of, get_avps}
use rest_diameter_bridge.Base.Map.{insert, text_key, beq_self}
use rest_diameter_bridge.Transport.Balance.Rotation.{rotation, rotate_from}
use rest_diameter_bridge.Transport.Balance.RoundRobin.{
  RoundRobinConnection, list_connections, list_connections-rotation, advance,
}
use rest_diameter_bridge.Base.{
  zero, ◌%◌, ◌^◌, ℕ, suc, Option, none, some, List, [], ◌∷◌, ◌≡◌, refl, sym, ap, ◌∙◌, ◌++◌, arith,
  length, Bool, false, if◌then◌else◌, ◌+◌, append_assoc,
}

-- An end stands for itself, and a group for its ends from the last to the first.
underlying-leaves : (n : Node Connection) → underlying n ≡ reverse (leaves n)
unfolding underlying
underlying-leaves n =
    ap listed_or_empty (get_underlying_connections-reverse (suc (size n)) n (omega arith))

all_leaves-peers : (cs : List Connection) → all_leaves (peers cs) ≡ cs
all_leaves-peers [] = refl
all_leaves-peers (c ∷ cs) = ap (λ t. c ∷ t) (all_leaves-peers cs)

underlying-group : (cs : List Connection) → underlying (container (peers cs)) ≡ reverse cs
underlying-group cs = underlying-leaves (container (peers cs)) ∙ ap reverse (all_leaves-peers cs)

underlying_all_lem : (cs : List Connection) → underlying_all cs ≡ cs
underlying_all_lem [] = refl
underlying_all_lem (c ∷ cs) =
    ap (λ t. t ++ underlying_all cs) (underlying-leaves (peer c))
    ∙ ap (λ t. c ∷ t) (underlying_all_lem cs)

-- The members of a group from its index on and round, and the group that was asked once more.
abbrev pub in_turn : RoundRobinConnection Connection → List Connection
in_turn g = rotation (g.index % length g.connections) g.connections

abbrev pub moved_on : RoundRobinConnection Connection → RoundRobinConnection Connection
moved_on g = record { connections = g.connections; index = (g.index + 1) % 2 ^ 64 }

-- What a request is sent on, by the redirect that holds for it and the group of its destination,
-- and the manager after it.
abbrev pub chosen :
    Text
    → ConnectionManager
    → List Connection
    → Option (RoundRobinConnection Connection)
    → Option (List Connection)
    → Option (List Connection) × ConnectionManager
chosen key m [] none route = (route, m)
chosen key m [] (some g) route = (
  some (reverse (in_turn g)),
  record m { host_realm_connections = insert key (moved_on g) m.host_realm_connections },
)
chosen key m (c ∷ cs) group route = (some (c ∷ cs), m)

rotation-nil : (i : ℕ) → rotation {A = Connection} i [] ≡ []
rotation-nil zero = refl
rotation-nil (suc i) = refl

list_connections_lem :
    (cs : List Connection) (i : ℕ)
    → list_connections (record { connections = cs; index = i }) []
      ≡ (rotation (i % length cs) cs, record { connections = cs; index = (i + 1) % 2 ^ 64 })
unfolding list_connections advance rotate_from
list_connections_lem [] i =
    ap (λ cs. (cs, record { connections = []; index = (i + 1) % 2 ^ 64 }))
      (sym (rotation-nil (i % 0)))
list_connections_lem (c ∷ cs) i =
    list_connections-rotation (record { connections = c ∷ cs; index = i }) [] (omega arith)

abbrev pub hosts_or_none : Option (List Text) → List Text
hosts_or_none none = []
hosts_or_none (some hosts) = hosts

with_no_hosts : (cs : List Connection) → of_hosts [] cs ≡ []
unfolding of_hosts contains_text
with_no_hosts [] = refl
with_no_hosts (c ∷ cs) = with_no_hosts cs

redirected_lem :
    (listing : List Connection) (o : Option (List Text))
    → redirected listing o ≡ unless_empty (of_hosts (hosts_or_none o) listing)
redirected_lem listing none = ap unless_empty (sym (with_no_hosts listing))
redirected_lem listing (some hosts) = ap unless_empty (underlying_all_lem (of_hosts hosts listing))

chosen_lem :
    (cs : List Connection) (group : Option (RoundRobinConnection Connection))
    (routed : RoutingConnection → List Connection) (r : Command) (m : ConnectionManager)
    (routing : Option RoutingConnectionManager)
    → first_choice m (unless_empty cs) (direct_or_routed routed r routing m group)
      ≡ chosen (request_key r) m cs group (by_route routed r routing)
chosen_lem [] none routed r m routing = refl
chosen_lem [] (some g) routed r m routing =
    ap
      (λ asked. (
        some (underlying (container (peers asked.0))),
        record m {
          host_realm_connections = insert (request_key r) asked.1 m.host_realm_connections;
        },
      ))
      (list_connections_lem g.connections g.index)
    ∙ ap
        (λ cs. (
          some cs,
          record m {
            host_realm_connections = insert (request_key r) (moved_on g) m.host_realm_connections;
          },
        ))
        (underlying-group (in_turn g))
chosen_lem (c ∷ cs) group routed r m routing = refl

-- A request is sent on the registered connections whose host is one of those of the redirect that
-- holds for it, in the order of the listing, if there is any; or else on the group of its
-- destination, in the reverse of its turn, which starts at its index modulo its size; or else on
-- what the route of the routing manager lists; and without a routing manager on nothing, as an
-- error. When the group is asked, its index is moved on by one, modulo 2 ^ 64; nothing else of
-- the manager changes. The redirect caches are left as get_redirect leaves them.
pub get_connections_for_request_lem :
    (listing : List Connection) (routed : RoutingConnection → List Connection) (at : ℕ → ℕ)
    (r : Command) (m : ConnectionManager) (routing : Option RoutingConnectionManager)
    (caches : RedirectCaches)
    → get_connections_for_request listing routed at r m routing caches ≡ (
      chosen
          (request_key r)
          m
          (of_hosts (hosts_or_none (get_redirect at r caches).0) listing)
          (m.host_realm_connections (request_key r))
          (by_route routed r routing),
      (get_redirect at r caches).1,
    )
unfolding get_connections_for_request get_redirect_connections
get_connections_for_request_lem listing routed at r m routing caches =
    let answer = get_redirect at r caches in
    let group = m.host_realm_connections (request_key r) in
    ap (λ o. (first_choice m o (direct_or_routed routed r routing m group), answer.1))
      (redirected_lem listing answer.0)
    ∙ ap (λ o. (o, answer.1))
        (chosen_lem (of_hosts (hosts_or_none answer.0) listing) group routed r m routing)

-- With no redirect that holds, the group of the destination is asked.
of_group :
    (listing : List Connection) (routed : RoutingConnection → List Connection) (at : ℕ → ℕ)
    (r : Command) (m : ConnectionManager) (routing : Option RoutingConnectionManager)
    (caches : RedirectCaches) (g : RoundRobinConnection Connection)
    → of_hosts (hosts_or_none (get_redirect at r caches).0) listing ≡ []
    → m.host_realm_connections (request_key r) ≡ some g
    → (get_connections_for_request listing routed at r m routing caches).0
      ≡ chosen (request_key r) m [] (some g) (by_route routed r routing)
of_group listing routed at r m routing caches g n e =
    let route = by_route routed r routing in
    ap (λ o. o.0) (get_connections_for_request_lem listing routed at r m routing caches)
    ∙ ap (λ cs. chosen (request_key r) m cs (m.host_realm_connections (request_key r)) route) n
    ∙ ap (λ o. chosen (request_key r) m [] o route) e

turned :
    (front : List Connection) (c : Connection) (back : List Connection)
    → reverse (front ++ (c ∷ back)) ≡ reverse back ++ (c ∷ reverse front)
turned front c back =
    reverse-append front (c ∷ back)
    ∙ ap (λ t. t ++ reverse front) (reverse-append (c ∷ []) back)
    ∙ append_assoc (reverse back) (c ∷ []) (reverse front)

-- If no registered connection has a host to which a redirect that holds sends the request, and a
-- group is registered for its destination, then send_request tries the members of the group in
-- the reverse of their turn, which starts at the index of the group modulo its size: if those
-- behind one in the turn fail in time and that one answers, without a redirect indication, the
-- answer is returned and no redirect is stored. The index of the group is moved on by one, modulo
-- 2 ^ 64.
pub send_to_group :
    (listing : List Connection) (routed : RoutingConnection → List Connection) (at : ℕ → ℕ)
    (r : Command) (m : ConnectionManager) (routing : Option RoutingConnectionManager)
    (caches : RedirectCaches) (attempt : ℕ → Connection → Option Command) (late : ℕ → Bool)
    (g : RoundRobinConnection Connection) (front : List Connection) (c : Connection)
    (back : List Connection) (a : Command)
    → of_hosts (hosts_or_none (get_redirect at r caches).0) listing ≡ []
    → m.host_realm_connections (request_key r) ≡ some g
    → rotation (g.index % length g.connections) g.connections ≡ front ++ (c ∷ back)
    → AllFail attempt late (get_connections_by_hosts listing) 0 (reverse back)
    → attempt (length (reverse back)) c ≡ some a
    → is_redirect a ≡ false
    → let (choice, after) = (get_connections_for_request listing routed at r m routing caches).0 in
      (send_chosen attempt late listing choice ≡ (answered a, []))
      × (after.host_realm_connections (request_key r)
          ≡ some (record { connections = g.connections; index = (g.index + 1) % 2 ^ 64 }))
send_to_group listing routed at r m routing caches attempt late g front c back a n e turn fails t
      d =
    let choice = of_group listing routed at r m routing caches g n e in
    (
      ap (λ o. send_chosen attempt late listing o.0) choice
          ∙ ap (λ cs. send_request attempt late (get_connections_by_hosts listing) 0 (reverse cs))
              turn
          ∙ ap (send_request attempt late (get_connections_by_hosts listing) 0)
              (turned front c back)
          ∙ send_request-failover attempt late (get_connections_by_hosts listing) 0 (reverse back) c
              (reverse front) a fails (ap (λ i. attempt i c) (omega arith) ∙ t)
          ∙ ap
              (λ b.
                if b
                then (
                  redirect_to attempt late (suc (0 + length (reverse back)))
                      (get_connections_by_hosts listing (texts_of (get_avps a 292))),
                  a ∷ [],
                )
                else (answered a, []))
              d,
      ap (λ o. o.1.host_realm_connections (request_key r)) choice
          ∙ ap (λ b. if b then some (moved_on g) else m.host_realm_connections (request_key r))
              (beq_self (request_key r)),
    )
