-- ===== src/Transport/Tests.antt =====
-- The theorems about the transport's tables and groups at concrete values.
use rest_diameter_bridge.Base.Decimal.{to_decimal}
use rest_diameter_bridge.Transport.Underlying.{
  Node, Nodes, peer, container, cons, get_underlying_connections,
  get_underlying_connections-reverse,
}
use rest_diameter_bridge.Transport.Underlying as Underlying
use rest_diameter_bridge.Transport.Redirect.Lifetime.{get_redirect-add_redirect, announced}
use rest_diameter_bridge.Avp.Codes.{all_session, redirect_host_usage_from_u32}
use rest_diameter_bridge.Transport.Redirect.{is_expired, add_redirect}
use rest_diameter_bridge.Transport.Balance.Iterator.Walk.{collect-rotation}
use rest_diameter_bridge.Transport.Balance.Iterator.{all_leaves, leaves, collect, new_iterator}
use rest_diameter_bridge.Transport.Balance.RoundRobin.{
  RoundRobinConnection, send_in_turn, send_in_turn-rotation,
}
use rest_diameter_bridge.Transport.Balance.Rotation.{rotation}
use rest_diameter_bridge.Base.Map.{insert, empty_map, text_key}
use rest_diameter_bridge.Transport.HopByHop.Laws.{get_original_id-add}
use rest_diameter_bridge.Transport.Redirect.Laws.{or_else, answer_at, get_redirect_order}
use rest_diameter_bridge.Transport.Requests.{send_request, settle, send_request-failover}
use rest_diameter_bridge.Transport.Redirect.{
  RedirectCaches, get_redirect, new_caches, session_id, realm_key, user_name,
}
use rest_diameter_bridge.Transport.Answers.{Notify}
use rest_diameter_bridge.Transport.HopByHop.{
  HopByHopIdMapper, get_original_id, add_mapping, seconds, new_mapper,
}
use rest_diameter_bridge.Transport.Balance.FailOver.{
  FailOverConnection, send, outcome, sent, first_accepting, send-rotation,
}
use rest_diameter_bridge.Transport.ConnectionManager.{
  Connection, ConnectionManager, add_connection, get_connection_by_id, get_connection_by_host_realm,
  new_manager, remove_connection, remove_connection_drops_group, add_connection_lem,
}
use rest_diameter_bridge.Command.Defs.{
  Command, get_destination_realm, get_destination_host, get_avp, get_redirect_host_usage, texts_of,
  find_avp, get_avps, filter_avps,
}
use rest_diameter_bridge.Avp.Defs.{avp, nil, as_unsigned32, as_utf8_string}
use rest_diameter_bridge.Base.Text.{text, string_from_utf8, is_utf8}
use rest_diameter_bridge.Base.{
  [], ◌∷◌, some, none, true, ◌==◌, if◌then◌else◌, ℕ, ◌≡◌, refl, Bool, false, Option, arith, List,
}

abbrev mapper : HopByHopIdMapper
mapper = add_mapping 0 (λ id. 0) 0 5 99 (new_mapper 0)

get_original_id-add_example :
    get_original_id (seconds 10) 5 (add_mapping 0 (λ id. 0) 0 5 99 (new_mapper 0)) ≡ some 99
get_original_id-add_example =
    get_original_id-add (new_mapper 0) 0 (λ id. 0) 0 5 99 5 (seconds 10) (omega arith)

abbrev session_request : Command
session_request = record {
  command_code = 272;
  command_flags = 0xc0;
  application_id = 4;
  hop_by_hop_id = 7;
  end_to_end_id = 8;
  avps = avp 263 0x40 none (some (text "s;1")) nil ∷ [];
}

abbrev caches : RedirectCaches
caches = record (new_caches 0) {
  session = insert (text "s;1") (record { hosts = text "h" ∷ []; expires_at = some 100 }) empty_map;
}

get_redirect_order_example :
    (get_redirect (λ i. i) session_request caches).0
    ≡ or_else (answer_at 0 (session_id session_request) caches.session) (
        or_else (answer_at 1 (realm_key session_request) caches.realm_app) (
          or_else (answer_at 2 (get_destination_realm session_request) caches.realm) (
            or_else
              (answer_at 3 (some (to_decimal session_request.application_id)) caches.application)
              (or_else
                (answer_at 4 (get_destination_host session_request) caches.host)
                (answer_at 5 (user_name session_request) caches.user)))))
get_redirect_order_example = get_redirect_order (λ i. i) session_request caches

abbrev group : FailOverConnection ℕ
group = record { connections = 10 ∷ 11 ∷ 12 ∷ []; index = 1 }

send-rotation_example :
    send (λ i c. c == 10) group
    ≡ outcome group (first_accepting (λ i c. c == 10) 0 (rotation 1 (10 ∷ 11 ∷ 12 ∷ [])))
send-rotation_example = send-rotation (λ i c. c == 10) group (omega arith)

abbrev first_peer : Connection
first_peer = record { id = text "a"; host = text "h"; realm = text "r" }

abbrev second_peer : Connection
second_peer = record { id = text "b"; host = text "h"; realm = text "r" }

abbrev two_peers : ConnectionManager
two_peers = add_connection second_peer (add_connection first_peer new_manager)

remove_connection_drops_group_example :
    (get_connection_by_id second_peer.id (remove_connection first_peer two_peers)
      ≡ some second_peer)
    × (get_connection_by_host_realm first_peer.host first_peer.realm
          (remove_connection first_peer two_peers)
        ≡ none)
remove_connection_drops_group_example =
    remove_connection_drops_group first_peer second_peer two_peers
      (add_connection_lem second_peer (add_connection first_peer new_manager)).0 (ground arith)

-- The permits of a `Notify`, counted up to one.
abbrev permits : Notify Bool
permits = record {
  new_notify = false;
  notify_one = λ n. true;
  notified = λ n. if n then some false else none;
  notified-new_notify = refl;
  notified-notify_one = refl;
}

abbrev second_answers : ℕ → ℕ → Option Command
second_answers i c = if c == 11 then some session_request else none

send_request-failover_example :
    send_request second_answers (λ i. false) (λ hosts. none) 0 (10 ∷ 11 ∷ 12 ∷ [])
    ≡ settle second_answers (λ i. false) (λ hosts. none) 1 session_request
send_request-failover_example =
    send_request-failover second_answers (λ i. false) (λ hosts. none) 0 (10 ∷ []) 11 (12 ∷ [])
      session_request (refl, refl, tt) refl

-- Connections are numbers, and 20 is a container of 21 and 22.
abbrev contained : ℕ → Option (List ℕ)
contained c = if c == 20 then some (21 ∷ 22 ∷ []) else none

abbrev is_twenty : ℕ → Bool
is_twenty c = c == 20

collect-rotation_example :
    collect is_twenty contained 9 (new_iterator (10 ∷ 20 ∷ 30 ∷ []) 1) ≡ 21 ∷ 22 ∷ 30 ∷ 10 ∷ []
unfolding all_leaves leaves
collect-rotation_example =
    collect-rotation is_twenty contained (10 ∷ 20 ∷ 30 ∷ []) 9 1 (omega arith) (omega arith)

abbrev turns : RoundRobinConnection ℕ
turns = record { connections = 10 ∷ 20 ∷ 30 ∷ []; index = 4 }

send_in_turn-rotation_example :
    send_in_turn is_twenty contained (λ i c. c == 30) 9 turns
    ≡ (sent, record { connections = 10 ∷ 20 ∷ 30 ∷ []; index = 5 })
unfolding all_leaves leaves
send_in_turn-rotation_example =
    send_in_turn-rotation is_twenty contained (λ i c. c == 30) 9 turns (omega arith) (omega arith)

-- An answer that announces the host `h` for the session of the request, without a lifetime.
abbrev redirect_answer : Command
redirect_answer = record session_request {
  avps =
      avp 263 0x40 none (some (text "s;1")) nil
      ∷ avp 292 0x40 none (some (text "h")) nil
      ∷ avp 261 0x40 none (some (0 ∷ 0 ∷ 0 ∷ 1 ∷ [])) nil
      ∷ [];
}

redirect_hosts : texts_of (get_avps redirect_answer 292) ≡ text "h" ∷ []
unfolding texts_of get_avps filter_avps as_utf8_string string_from_utf8 is_utf8
redirect_hosts = refl

redirect_usage : get_redirect_host_usage redirect_answer ≡ some all_session
unfolding get_redirect_host_usage get_avp find_avp as_unsigned32 redirect_host_usage_from_u32
redirect_usage = refl

answer_session : session_id redirect_answer ≡ some (text "s;1")
unfolding get_avp find_avp as_utf8_string string_from_utf8 is_utf8
answer_session = refl

request_session : session_id session_request ≡ some (text "s;1")
unfolding get_avp find_avp as_utf8_string string_from_utf8 is_utf8
request_session = refl

never_expires : is_expired 3 (announced (text "h") [] 2 redirect_answer) ≡ false
unfolding is_expired get_avp find_avp
never_expires = refl

get_redirect-add_redirect_example :
    (get_redirect
      (λ i. 3)
      session_request
      (add_redirect 0 1 (λ k. 1) 2 redirect_answer (new_caches 0))).0
    ≡ some (text "h" ∷ [])
get_redirect-add_redirect_example =
    get_redirect-add_redirect 0 1 2 (λ k. 1) (λ i. 3) redirect_answer session_request (new_caches 0)
      (text "s;1") (text "h") [] redirect_hosts redirect_usage answer_session request_session
      never_expires

-- A container of 1 and of a container of 3 and 4.
abbrev nested : Node ℕ
nested =
    container (
      cons (peer 1)
        (cons (container (cons (peer 3) (cons (peer 4) Underlying.nil))) Underlying.nil))

get_underlying_connections-reverse_example :
    get_underlying_connections 6 nested ≡ some (4 ∷ 3 ∷ 1 ∷ [])
get_underlying_connections-reverse_example =
    get_underlying_connections-reverse 6 nested (omega arith)
