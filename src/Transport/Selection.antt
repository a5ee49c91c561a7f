-- ===== src/Transport/Selection.antt =====
-- The choice of connections in src/transport/connection_manager.rs, and the attempt on one of them. A
-- registered connection is an end of a transport, and the group of a host and realm a container of
-- such ends, which lists them from its index on and moves the index on whenever it is asked.
-- `listing` is the order in which the hash map lists the registered connections, and `routed` what
-- the group of a route lists when it is asked for this request.
use rest_diameter_bridge.Base.Map.{insert, text_key}
use rest_diameter_bridge.Transport.Balance.RoundRobin.{RoundRobinConnection, list_connections}
pub mod Laws
pub mod Retryable
mod Tests
use rest_diameter_bridge.Base.Text.{Text, text_eq}
use rest_diameter_bridge.Transport.ConnectionManager.{Connection, ConnectionManager, host_realm_key}
use rest_diameter_bridge.Transport.Underlying.{
  Node, Nodes, peer, container, nil, cons, get_underlying_connections, size,
}
use rest_diameter_bridge.Transport.Redirect.{RedirectCaches, get_redirect}
use rest_diameter_bridge.Transport.Processor.{unwrap_or_default}
use rest_diameter_bridge.Transport.Requests.{
  code_or_success, RequestResult, send_request, failed, no_connection,
}
use rest_diameter_bridge.Routing.Manager.{RoutingConnectionManager, find, contains}
use rest_diameter_bridge.Routing.Peers.{RoutingConnection}
use rest_diameter_bridge.Command.Defs.{
  Command, get_destination_host, get_destination_realm, get_result_code,
}
use rest_diameter_bridge.Base.{
  ℕ, suc, Bool, true, false, Option, none, some, List, [], ◌∷◌, ltb, leb, if◌then◌else◌, ◌-◌, ◌||◌,
  ◌++◌,
}

-- `hosts.contains(&host)`.
unfoldable pub contains_text : Text → List Text → Bool
contains_text t [] = false
contains_text t (h ∷ hs) = text_eq h t || contains_text t hs

unfoldable pub of_hosts : List Text → List Connection → List Connection
of_hosts hosts [] = []
of_hosts hosts (c ∷ cs) =
    let rest = of_hosts hosts cs in if contains_text c.host hosts then c ∷ rest else rest

abbrev pub listed_or_empty : Option (List Connection) → List Connection
listed_or_empty none = []
listed_or_empty (some cs) = cs

abbrev pub peers : List Connection → Nodes Connection
peers [] = nil
peers (c ∷ cs) = cons (peer c) (peers cs)

-- `get_underlying_connections` of an end and of a group, with fuel for its rounds.
unfoldable pub underlying : Node Connection → List Connection
underlying n = listed_or_empty (get_underlying_connections (suc (size n)) n)

abbrev pub underlying_all : List Connection → List Connection
underlying_all [] = []
underlying_all (c ∷ cs) = underlying (peer c) ++ underlying_all cs

-- `if result.is_empty() { None } else { Some(result) }`.
abbrev pub unless_empty : List Connection → Option (List Connection)
unless_empty [] = none
unless_empty (c ∷ cs) = some (c ∷ cs)

unfoldable pub get_connections_by_hosts : List Connection → List Text → Option (List Connection)
get_connections_by_hosts listing hosts = unless_empty (underlying_all (of_hosts hosts listing))

abbrev pub redirected : List Connection → Option (List Text) → Option (List Connection)
redirected listing none = none
redirected listing (some hosts) = unless_empty (underlying_all (of_hosts hosts listing))

-- The redirect caches are asked, and cleaned, at the readings `at`.
unfoldable pub get_redirect_connections :
    List Connection → (ℕ → ℕ) → Command → RedirectCaches → Option (List Connection) × RedirectCaches
get_redirect_connections listing at r caches =
    let answer = get_redirect at r caches in (redirected listing answer.0, answer.1)

abbrev pub routed_or_empty :
    (RoutingConnection → List Connection) → Option RoutingConnection → List Connection
routed_or_empty routed none = []
routed_or_empty routed (some c) = routed c

unfoldable pub get_connections_for_command :
    (RoutingConnection → List Connection) → Command → RoutingConnectionManager → List Connection
get_connections_for_command routed c m = routed_or_empty routed (find c m)

-- `none` is the `Err` of a request without a connection.
abbrev pub by_route :
    (RoutingConnection → List Connection)
    → Command
    → Option RoutingConnectionManager
    → Option (List Connection)
by_route routed r none = none
by_route routed r (some m) = some (get_connections_for_command routed r m)

abbrev pub request_key : Command → Text
request_key r =
    host_realm_key (unwrap_or_default (get_destination_host r))
      (unwrap_or_default (get_destination_realm r))

-- `get_underlying_connections` of a group, which asks the group once, and the group after it.
abbrev pub ask_group :
    RoundRobinConnection Connection → List Connection × RoundRobinConnection Connection
ask_group g = let asked = list_connections g [] in (underlying (container (peers asked.0)), asked.1)

abbrev pub direct_or_routed :
    (RoutingConnection → List Connection)
    → Command
    → Option RoutingConnectionManager
    → ConnectionManager
    → Option (RoundRobinConnection Connection)
    → Option (List Connection) × ConnectionManager
direct_or_routed routed r routing m none = (by_route routed r routing, m)
direct_or_routed routed r routing m (some g) =
    let asked = ask_group g in
    (
      some asked.0,
      record m { host_realm_connections = insert (request_key r) asked.1 m.host_realm_connections },
    )

-- Only without connections of a redirect the group or the route is asked.
abbrev pub first_choice :
    ConnectionManager
    → Option (List Connection)
    → Option (List Connection) × ConnectionManager
    → Option (List Connection) × ConnectionManager
first_choice m none other = other
first_choice m (some cs) other = (some cs, m)

-- The connections or the error, and the manager and the redirect caches after it.
unfoldable pub get_connections_for_request :
    List Connection
    → (RoutingConnection → List Connection)
    → (ℕ → ℕ)
    → Command
    → ConnectionManager
    → Option RoutingConnectionManager
    → RedirectCaches
    → (Option (List Connection) × ConnectionManager) × RedirectCaches
get_connections_for_request listing routed at r m routing caches =
    let redirect = get_redirect_connections listing at r caches in
    (
      first_choice m redirect.0
          (direct_or_routed routed r routing m (m.host_realm_connections (request_key r))),
      redirect.1,
    )

-- `send_request`, once the connections are chosen.
abbrev pub send_chosen :
    (ℕ → Connection → Option Command)
    → (ℕ → Bool)
    → List Connection
    → Option (List Connection)
    → RequestResult × List Command
send_chosen attempt late listing none = (failed no_connection, [])
send_chosen attempt late listing (some cs) =
    send_request attempt late (get_connections_by_hosts listing) 0 cs

-- `send_request_command`: the answer that came, if the connection took the request.
unfoldable pub send_request_command : Bool → Option Command → Option Command
send_request_command true answer = answer
send_request_command false answer = none

abbrev pub unless_retryable : List ℕ → Option Command → Option Command
unless_retryable codes none = none
unless_retryable codes (some answer) =
    if contains (code_or_success (get_result_code answer)) codes then none else some answer

-- `tokio::time::timeout`, whose `none` says that the time is over.
abbrev pub in_time : List ℕ → Option (Option Command) → Option Command
in_time codes none = none
in_time codes (some result) = unless_retryable codes result

-- `exchange` is `send_request_command` under a timeout of so many nanoseconds.
unfoldable pub send_request_with_timeout :
    (ℕ → Option (Option Command)) → List ℕ → ℕ → ℕ → ℕ → Option Command
send_request_with_timeout exchange codes per_conn_timeout timeout_time now =
    let remaining = timeout_time - now in
    if leb remaining 0
    then none
    else in_time codes
        (exchange (if ltb remaining per_conn_timeout then remaining else per_conn_timeout))
