-- ===== src/Transport/Selection/Tests.antt =====
-- The theorems about the choice of connections at a registry of two peers.
use rest_diameter_bridge.Base.Text.{text}
use rest_diameter_bridge.Transport.Selection.{
  send_chosen, get_connections_for_request, of_hosts, request_key, send_request_with_timeout,
  by_route, contains_text,
}
use rest_diameter_bridge.Transport.Selection.Laws.{
  get_connections_for_request_lem, send_to_group, chosen, hosts_or_none,
}
use rest_diameter_bridge.Transport.Selection.Retryable.{send_chosen-IsFinal, IsFinalResult}
use rest_diameter_bridge.Transport.Requests.{answered, is_redirect}
use rest_diameter_bridge.Transport.Redirect.{get_redirect, new_caches, lookup_in}
use rest_diameter_bridge.Transport.ConnectionManager.{
  Connection, ConnectionManager, add_connection, new_manager, host_realm_key,
}
use rest_diameter_bridge.Command.Defs.{
  Command, get_result_code, get_avp, find_avp, get_destination_realm, get_destination_host,
}
use rest_diameter_bridge.Base.Text.{text, text_eq, string_from_utf8, is_utf8}
use rest_diameter_bridge.Avp.Defs.{avp, nil, as_unsigned32, as_utf8_string}
use rest_diameter_bridge.Base.Map.{insert, text_key, beq_self}
use rest_diameter_bridge.Transport.Balance.Rotation.{push_connection}
use rest_diameter_bridge.Transport.Balance.RoundRobin.{RoundRobinConnection, join, new_round_robin}
use rest_diameter_bridge.Base.{
  ap, ℕ, false, Option, none, some, [], ◌∷◌, ◌==◌, if◌then◌else◌, ◌+◌, ◌≡◌, refl,
}

abbrev first_peer : Connection
first_peer = record { id = text "a"; host = text "h"; realm = text "r" }

abbrev second_peer : Connection
second_peer = record { id = text "b"; host = text "h"; realm = text "r" }

abbrev registry : ConnectionManager
registry = add_connection second_peer (add_connection first_peer new_manager)

-- A request to the host and realm of both peers.
abbrev to_peers : Command
to_peers = record {
  command_code = 272;
  command_flags = 0xc0;
  application_id = 4;
  hop_by_hop_id = 7;
  end_to_end_id = 8;
  avps = avp 293 0x40 none (some (text "h")) nil ∷ avp 283 0x40 none (some (text "r")) nil ∷ [];
}

abbrev success : Command
success = record {
  command_code = 272;
  command_flags = 0x40;
  application_id = 4;
  hop_by_hop_id = 7;
  end_to_end_id = 8;
  avps = avp 268 0x40 none (some (0 ∷ 0 ∷ 7 ∷ 209 ∷ [])) nil ∷ [];
}

-- Only the first attempt fails.
abbrev second_time : ℕ → Connection → Option Command
second_time i c = if i == 0 then none else some success

no_redirect :
    of_hosts
      (hosts_or_none (get_redirect (λ i. i) to_peers (new_caches 0)).0)
      (first_peer ∷ second_peer ∷ [])
    ≡ []
unfolding of_hosts contains_text get_redirect get_avp find_avp get_destination_realm as_utf8_string
    string_from_utf8 is_utf8 lookup_in new_caches get_destination_host
no_redirect = refl

-- The group of both peers, which was asked as often as its index says.
abbrev asked_before : ℕ → RoundRobinConnection Connection
asked_before i = record { connections = first_peer ∷ second_peer ∷ []; index = i }

both_joined : registry.host_realm_connections (request_key to_peers) ≡ some (asked_before 0)
unfolding add_connection new_manager host_realm_key text_eq get_destination_host
    get_destination_realm get_avp find_avp as_utf8_string string_from_utf8 is_utf8 join
    new_round_robin push_connection
both_joined = refl

-- The registry after one request.
abbrev asked_registry : ConnectionManager
asked_registry = record registry {
  host_realm_connections =
      insert (request_key to_peers) (asked_before 1) registry.host_realm_connections;
}

asked_once : asked_registry.host_realm_connections (request_key to_peers) ≡ some (asked_before 1)
asked_once =
    ap
      (λ b.
        if b then some (asked_before 1) else registry.host_realm_connections (request_key to_peers))
      (beq_self (request_key to_peers))

no_indication : is_redirect success ≡ false
unfolding is_redirect get_result_code get_avp find_avp as_unsigned32
no_indication = refl

get_connections_for_request_lem_example :
    get_connections_for_request
      (first_peer ∷ second_peer ∷ [])
      (λ c. [])
      (λ i. i)
      to_peers
      registry
      none
      (new_caches 0)
    ≡ (
      chosen
          (request_key to_peers)
          registry
          (of_hosts
            (hosts_or_none (get_redirect (λ i. i) to_peers (new_caches 0)).0)
            (first_peer ∷ second_peer ∷ []))
          (registry.host_realm_connections (request_key to_peers))
          (by_route (λ c. []) to_peers none),
      (get_redirect (λ i. i) to_peers (new_caches 0)).1,
    )
get_connections_for_request_lem_example =
    get_connections_for_request_lem (first_peer ∷ second_peer ∷ []) (λ c. []) (λ i. i) to_peers
      registry none (new_caches 0)

-- The second request tries the peer that joined first before the other.
send_to_group_example :
    let (choice, after) =
      (get_connections_for_request
        (first_peer ∷ second_peer ∷ [])
        (λ c. [])
        (λ i. i)
        to_peers
        asked_registry
        none
        (new_caches 0)).0 in
    (send_chosen second_time (λ i. false) (first_peer ∷ second_peer ∷ []) choice
      ≡ (answered success, []))
    × (after.host_realm_connections (request_key to_peers) ≡ some (asked_before 2))
send_to_group_example =
    send_to_group (first_peer ∷ second_peer ∷ []) (λ c. []) (λ i. i) to_peers asked_registry none
      (new_caches 0) second_time (λ i. false) (asked_before 1) [] second_peer (first_peer ∷ [])
      success no_redirect asked_once refl (refl, refl, tt) refl no_indication

-- Code 2001 is retried, and so no answer is left.
send_chosen-IsFinal_example :
    IsFinalResult
      (2001 ∷ [])
      (send_chosen
        (λ i c. send_request_with_timeout (λ t. some (some success)) (2001 ∷ []) 5 10 (i + 1))
        (λ i. false)
        (first_peer ∷ second_peer ∷ [])
        (some (first_peer ∷ second_peer ∷ []))).0
send_chosen-IsFinal_example =
    send_chosen-IsFinal (λ i c t. some (some success)) (λ i. i + 1) (λ i. false) (2001 ∷ []) 5 10
      (first_peer ∷ second_peer ∷ []) (some (first_peer ∷ second_peer ∷ []))
