-- ===== src/Transport/Processor.antt =====
-- src/transport/command_processor.rs: what a node does with a command that a peer sent: it rejects
-- a loop, answers what is its own, forwards what is not, and brings answers back. The peers' `send`
-- is the parameter `sends`, the command handler the parameter `handle`. `forward_request` is cut at
-- the call of `send_request`, during which other tasks run, into two functions.
pub mod Pending
pub mod Interleaving
pub mod Failures
mod Tests
use rest_diameter_bridge.Avp.ResultCodes.{
  result_code_as_u32, diameter_loop_detected, diameter_unable_to_deliver,
}
use rest_diameter_bridge.Command.Defs.{
  Command, is_request, has_record_route, add_record_route, remove_record_route, create_response,
  set_origin_host, set_origin_realm, set_result_code, get_destination_host, get_destination_realm,
  get_origin_host, get_origin_realm,
}
use rest_diameter_bridge.Transport.Answers.{
  Notify, AnswerManager, prepare_for_answer, answer_received,
}
use rest_diameter_bridge.Transport.HopByHop.{HopByHopIdMapper, add_mapping, remove_mapping}
use rest_diameter_bridge.Transport.IdGenerator.{IdGenerator, next_id}
use rest_diameter_bridge.Transport.ConnectionManager.{
  Connection, ConnectionManager, response_targets,
}
use rest_diameter_bridge.Base.Text.{Text, text_eq}
use rest_diameter_bridge.Base.{
  ℕ, Bool, true, false, ◌&&◌, Option, none, some, List, [], ◌∷◌, if◌then◌else◌,
}

-- `CommandProcessorContext`: the node, and the connection that the command came on.
pub record Context : Type 0 where
  pub connection_id : Text
  pub my_host : Text
  pub my_realm : Text
  pub peer_host : Text
  pub peer_realm : Text

-- What the tasks of a node share.
pub record Node (N : Type 0) : Type 0 where
  pub generator : IdGenerator
  pub mapper : HopByHopIdMapper
  pub answers : AnswerManager N
  pub manager : ConnectionManager

-- The readings of the clock that an operation with a cleaning makes.
pub record Clock : Type 0 where
  pub now : ℕ
  pub reading : ℕ → ℕ
  pub later : ℕ

-- The error strings of `send_response`, and those that a command leaves behind.
pub data ResponseError : Type 0 where
  no_available_connection : ResponseError
  not_written : ResponseError

pub data ProcessError : Type 0 where
  response_failed : ResponseError → ProcessError
  no_mapping : ProcessError

pub data Processed : Type 0 where
  done : Processed
  failed : ProcessError → Processed

-- A response that was sent, and the connections that it was sent on.
abbrev pub Delivery : Type 0
Delivery = List Connection × Command

abbrev pub unwrap_or_default : Option Text → Text
unwrap_or_default none = []
unwrap_or_default (some t) = t

abbrev pub written : Bool → List Connection → Command → Option ResponseError × List Delivery
written b targets response = if b then (none, (targets, response) ∷ []) else (some not_written, [])

module _ (sends : List Connection → Command → Bool) where
  abbrev pub send_to : Option (List Connection) → Command → Option ResponseError × List Delivery
  send_to none response = (some no_available_connection, [])
  send_to (some targets) response = written (sends targets response) targets response

  unfoldable pub send_response :
      Text → Text → Text → Command → ConnectionManager → Option ResponseError × List Delivery
  send_response id host realm response m = send_to (response_targets id host realm m) response

-- `map_err`, and `Ok(())`.
abbrev pub processed_of : Option ResponseError → Processed
processed_of none = done
processed_of (some e) = failed (response_failed e)

module _ (context : Context) where
  unfoldable pub is_looped_request : Command → Bool
  is_looped_request c = is_request c && has_record_route c context.my_host

  unfoldable pub is_my_command : Command → Bool
  is_my_command c =
      text_eq (unwrap_or_default (get_destination_host c)) context.my_host
      && text_eq (unwrap_or_default (get_destination_realm c)) context.my_realm

  -- The answer of this node to a request, with a result code.
  unfoldable pub error_answer : Command → ℕ → Command
  error_answer request result_code =
      set_result_code
        (set_origin_realm (set_origin_host (create_response request) context.my_host)
          context.my_realm)
        result_code

module _ (sends : List Connection → Command → Bool) (context : Context) where
  unfoldable pub reject_looped_request : Command → ConnectionManager → Processed × List Delivery
  reject_looped_request c m =
      let (e, sent) =
        send_response sends context.connection_id (unwrap_or_default (get_origin_host c))
          (unwrap_or_default (get_origin_realm c))
          (error_answer context c (result_code_as_u32 diameter_loop_detected)) m in
      (processed_of e, sent)

  -- The outcome of the handler: an answer, no answer, or an error, which is only logged.
  abbrev answer_locally : Option (Option Command) → ConnectionManager → Processed × List Delivery
  answer_locally (some (some answer)) m =
      let (e, sent) =
        send_response sends context.connection_id (unwrap_or_default (get_destination_host answer))
          (unwrap_or_default (get_destination_realm answer)) answer m in
      (processed_of e, sent)
  answer_locally (some none) m = (done, [])
  answer_locally none m = (done, [])

  unfoldable pub process_local_command :
      (Command → Option (Option Command)) → Command → ConnectionManager → Processed × List Delivery
  process_local_command handle c m = answer_locally (handle c) m

module _ {N : Type 0} (s : Notify N) (context : Context) where
  -- `forward_request` up to `send_request`: the request that is sent, and the node.
  unfoldable pub forward_request : Clock → Clock → Command → Node N → Command × Node N
  forward_request at at' request n =
      let (new_id, generator) = next_id n.generator in
      (
        record (add_record_route request context.my_host) { hop_by_hop_id = new_id },
        record n {
          generator = generator;
          mapper = add_mapping at.now at.reading at.later new_id request.hop_by_hop_id n.mapper;
          answers =
              prepare_for_answer s at'.now at'.reading at'.later new_id context.connection_id
                context.peer_host context.peer_realm n.answers;
        },
      )

module _ (sends : List Connection → Command → Bool) (context : Context) where
  -- The rest of it, for the request that was sent, its first identifier, and whether an answer came.
  unfoldable pub finish_forward : Bool → ℕ → Command → ConnectionManager → Processed × List Delivery
  finish_forward true original_id request m = (done, [])
  finish_forward false original_id request m =
      let answer =
        set_result_code
          (record (set_origin_realm (set_origin_host (create_response request) context.my_host)
            context.my_realm) { hop_by_hop_id = original_id })
          (result_code_as_u32 diameter_unable_to_deliver) in
      let (e, sent) =
        send_response sends context.connection_id (unwrap_or_default (get_origin_host request))
          (unwrap_or_default (get_origin_realm request)) answer m in
      (processed_of e, sent)

-- The original identifier, if there is one.
abbrev pub restore_id : Option ℕ → Command → Command
restore_id none answer = answer
restore_id (some id) answer = record answer { hop_by_hop_id = id }

module _ {N : Type 0} (s : Notify N) (sends : List Connection → Command → Bool)
    (context : Context) where
  -- An answer for this node itself stops here; a failure to pass it on is only logged.
  abbrev pub pass_on :
      Option (Text × Text × Text)
      → Option ℕ
      → Command
      → ConnectionManager
      → Processed × List Delivery
  pass_on none original answer m = (failed no_mapping, [])
  pass_on (some (id, host, realm)) original answer m =
      if text_eq host context.my_host && text_eq realm context.my_realm
      then (done, [])
      else (done, (send_response sends id host realm (restore_id original answer) m).1)

  unfoldable pub process_answer : ℕ → Command → Node N → (Processed × List Delivery) × Node N
  process_answer now answer n =
      let trimmed = remove_record_route answer context.my_host in
      let (original, mapper) = remove_mapping now answer.hop_by_hop_id n.mapper in
      let (found, answers) = answer_received s trimmed n.answers in
      (pass_on found original trimmed n.manager, record n { mapper = mapper; answers = answers })

  -- What `process_command` comes to: it is done with the command, or it waits for the answer to the
  -- request that it sends.
  pub data Progress : Type 0 where
    finished : Processed × List Delivery → Node N → Progress
    forwarding : Command → Node N → Progress

  unfoldable pub process_command :
      (Command → Option (Option Command)) → ℕ → Clock → Clock → Command → Node N → Progress
  process_command handle now at at' c n =
      if is_looped_request context c
      then finished (reject_looped_request sends context c n.manager) n
      else if is_request c
      then (if is_my_command context c
          then finished (process_local_command sends context handle c n.manager) n
          else (let (sent, after) = forward_request s context at at' c n in forwarding sent after))
      else (let (result, after) = process_answer now c n in finished result after)
