-- ===== src/Routing/Tests.antt =====
-- The theorems about the routing configuration at concrete values.
use rest_diameter_bridge.Routing.Manager.Items.{in_keys}
use rest_diameter_bridge.Routing.Strategy.{is_space, is_ascii}
use rest_diameter_bridge.Routing.Tree.{
  Tree, leaf, round_robin_of, fail_over_of, nil, cons, created, exhausted, create_connection_from,
}
use rest_diameter_bridge.Routing.Printed.{print, is_key, print_all, is_plain, IsNamed}
use rest_diameter_bridge.Routing.RoundTrip.{create_connection_from-print}
use rest_diameter_bridge.Routing.Termination.{create_connection_from-returns}
use rest_diameter_bridge.Routing.Manager.{
  RoutingItemConfig, RoutingConnectionManager, new, all_ascii, add_all, find, contains, allows,
  key_for, policy_from_str, upper, or_realm,
}
use rest_diameter_bridge.Routing.Manager.Delivered.{delivered}
use rest_diameter_bridge.Routing.Manager.Routed.{configured, find-new}
use rest_diameter_bridge.Routing.Peers.{RoutingConnection, names}
use rest_diameter_bridge.Routing.Peers.Filled.{served, has_key}
use rest_diameter_bridge.Transport.ConnectionManager.{Connection}
use rest_diameter_bridge.Command.Defs.{Command, get_destination_realm, get_text, get_avp, find_avp}
use rest_diameter_bridge.Avp.Defs.{avp, as_utf8_string}
use rest_diameter_bridge.Avp.Defs as Avp
use rest_diameter_bridge.Base.Text.{text, lower_byte, text_eq, string_from_utf8, is_utf8}
use rest_diameter_bridge.Base.{
  ℕ, ◌≡◌, refl, none, some, List, [], ◌∷◌, length, get_elem?, ◌<◌, ◌≢◌, arith, true,
}

-- `failover(n1@r;round-robin(n2@r;r))`.
abbrev tree : Tree
tree = fail_over_of (
    cons (leaf (text "n1@r"))
      (cons (round_robin_of (cons (leaf (text "n2@r")) (cons (leaf (text "r")) nil))) nil))

printed : print tree ≡ text "failover(n1@r;round-robin(n2@r;r))"
unfolding print print_all
printed = refl

tree-IsNamed : IsNamed tree
unfolding is_key is_plain is_space lower_byte
tree-IsNamed = (refl, (refl, refl))

short : length (print tree) < 50
unfolding print print_all
short = omega arith

create_connection_from-print_example :
    create_connection_from 50 (print tree) ≡ created (cons tree nil)
create_connection_from-print_example = create_connection_from-print tree 50 tree-IsNamed short

create_connection_from-returns_example : create_connection_from 9 (text "rr(a;(b") ≢ exhausted
create_connection_from-returns_example =
    create_connection_from-returns 9 (text "rr(a;(b") (omega arith)

abbrev item : RoutingItemConfig
item = record {
  host_realms = some (text "r" ∷ []);
  application_ids = some (4 ∷ []);
  route = print tree;
}

abbrev command : Command
command = record {
  command_code = 272;
  command_flags = 0xc0;
  application_id = 4;
  hop_by_hop_id = 7;
  end_to_end_id = 8;
  avps = avp 283 0x40 none (some (text "r")) Avp.nil ∷ [];
}

abbrev peers : List Connection
peers =
    record { id = text "1"; host = text "n2"; realm = text "r" }
    ∷ record { id = text "2"; host = text "n3"; realm = text "r" }
    ∷ []

listed :
    in_keys item.host_realms (key_for (or_realm (policy_from_str (text "realm"))) command) ≡ true
unfolding text_eq key_for policy_from_str upper get_destination_realm get_text get_avp find_avp
    as_utf8_string string_from_utf8 is_utf8
listed = refl

allowed : allows item.application_ids command.application_id ≡ true
unfolding contains
allowed = refl

in_tree : has_key (text "n2@r") (names tree) ≡ true
unfolding text_eq
in_tree = refl

ascii : all_ascii (item.route ∷ []) ≡ true
unfolding all_ascii is_ascii print print_all
ascii = refl

find-new_example :
    (m : RoutingConnectionManager) × (new (configured (text "realm") none (item ∷ [])) ≡ some m)
    × ((r : RoutingConnection) × (find command (add_all peers m) ≡ some r)
        × (r.connection ≡ tree)
        × ((i : ℕ) × (get_elem? (names tree) i ≡ some (text "n2@r"))
            × (r.groups i ≡ served (text "n2@r") (delivered 0 m.routing_connections peers))))
find-new_example =
    find-new (text "realm") none [] item [] tree peers command (text "n2@r") ascii refl tree-IsNamed
      listed refl allowed in_tree
