-- ===== src/Transport/Processor/Tests.antt =====
-- The theorems about the command processor at concrete values.
use rest_diameter_bridge.Transport.Processor.{
  Context, Node, Clock, done, finished, forward_request, finish_forward, process_answer,
  process_command, reject_looped_request,
}
use rest_diameter_bridge.Transport.Processor.Pending.{forward_request-Pending}
use rest_diameter_bridge.Transport.Processor.Interleaving.{
  still, forwards, returned, proxied_answer,
}
use rest_diameter_bridge.Transport.Processor.Failures.{
  process_command-loop, finish_forward-undeliverable, process_answer-again,
}
use rest_diameter_bridge.Transport.ConnectionManager.{
  Connection, add_connection, new_manager, get_connection_by_id, add_connection_lem,
}
use rest_diameter_bridge.Transport.Answers.{Notify, new_answers}
use rest_diameter_bridge.Transport.HopByHop.{new_mapper}
use rest_diameter_bridge.Transport.IdGenerator.{new_generator, next_id}
use rest_diameter_bridge.Command.Defs.{
  Command, add_record_route, remove_record_route, get_result_code, is_request,
}
use rest_diameter_bridge.Command.Response.{Answers}
use rest_diameter_bridge.Avp.Defs.{avp, nil}
use rest_diameter_bridge.Base.Text.{text, text_eq, is_utf8}
use rest_diameter_bridge.Base.{
  ◌≡◌, refl, Bool, true, false, none, some, List, [], ◌∷◌, if◌then◌else◌, arith, sym, ◌&&◌,
  append-nil,
}

abbrev permits : Notify Bool
permits = record {
  new_notify = false;
  notify_one = λ n. true;
  notified = λ n. if n then some false else none;
  notified-new_notify = refl;
  notified-notify_one = refl;
}

abbrev peer : Connection
peer = record { id = text "c"; host = text "p"; realm = text "q" }

abbrev here : Context
here = record {
  connection_id = text "c";
  my_host = text "h";
  my_realm = text "r";
  peer_host = text "p";
  peer_realm = text "q";
}

abbrev clock : Clock
clock = record { now = 0; reading = λ id. 0; later = 0 }

abbrev node : Node Bool
node = record {
  generator = new_generator;
  mapper = new_mapper 0;
  answers = new_answers 0;
  manager = add_connection peer new_manager;
}

abbrev request : Command
request = record {
  command_code = 272;
  command_flags = 0xc0;
  application_id = 4;
  hop_by_hop_id = 7;
  end_to_end_id = 8;
  avps = avp 263 0x40 none (some (text "s;1")) nil ∷ [];
}

abbrev answer : Command
answer = record request { command_flags = 0x40; hop_by_hop_id = 0 }

abbrev always : List Connection → Command → Bool
always ds c = true

abbrev once : Node Bool
once = (forward_request permits here clock clock request node).1

abbrev twice : Node Bool
twice = (forward_request permits here clock clock request once).1

peer_found : get_connection_by_id peer.id (add_connection peer new_manager) ≡ some peer
peer_found = (add_connection_lem peer new_manager).0

peer_still_found : get_connection_by_id peer.id twice.manager ≡ some peer
unfolding forward_request
peer_still_found = peer_found

found_once : get_connection_by_id peer.id once.manager ≡ some peer
unfolding forward_request
found_once = peer_found

foreign : (text_eq (text "p") here.my_host && text_eq (text "q") here.my_realm) ≡ false
unfolding text_eq
foreign = refl

name_utf8 : is_utf8 here.my_host ≡ true
unfolding is_utf8
name_utf8 = refl

first_id :
    answer.hop_by_hop_id ≡ (forward_request permits here clock clock request node).0.hop_by_hop_id
unfolding forward_request next_id
first_id = refl

proxied_answer_example :
    (process_answer permits always here 10 answer twice).0
    ≡ (done, (peer ∷ [], returned here request answer) ∷ [])
proxied_answer_example =
    proxied_answer permits always here here clock clock request answer node twice 1 10 peer
      (omega arith) (omega arith) (omega arith) (omega arith)
      (forwards still here clock clock request (omega arith) (omega arith)) first_id foreign
      peer_still_found refl

abbrev sent : Command
sent = (forward_request permits here clock clock request node).0

sent_back : is_request sent ≡ true
unfolding forward_request next_id add_record_route is_request
sent_back = ground arith

process_command-loop_example :
    process_command permits always here (λ c. none) 0 clock clock sent once
    ≡ finished (reject_looped_request always here sent once.manager) once
process_command-loop_example =
    process_command-loop permits always here here (λ c. none) 0 clock clock clock clock request sent
      [] node once name_utf8 refl sent_back (sym (append-nil sent.avps))

finish_forward-undeliverable_example :
    (answer : Command) × (finish_forward always here false 7 request
        (add_connection peer new_manager)
      ≡ (done, (peer ∷ [], answer) ∷ []))
    × (get_result_code answer ≡ some 3002)
    × Answers (record request { hop_by_hop_id = 7 }) answer
finish_forward-undeliverable_example =
    finish_forward-undeliverable always here 7 request (add_connection peer new_manager) peer
      (omega arith) peer_found (λ c. refl)

process_answer-again_example :
    (process_answer permits always here 11 answer
      (process_answer permits always here 10 answer once).1).0
    ≡ (done, (peer ∷ [], remove_record_route answer here.my_host) ∷ [])
process_answer-again_example =
    process_answer-again permits always here 10 11 answer answer once 7
      (text "c", text "p", text "q") peer
      (forward_request-Pending permits here clock clock request node 10 (omega arith) (omega arith))
      refl foreign found_once refl
