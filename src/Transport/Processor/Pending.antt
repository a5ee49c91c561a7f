-- ===== src/Transport/Processor/Pending.antt =====
-- A request that was forwarded and whose answer has not come: what the node remembers of it.
use rest_diameter_bridge.Transport.Answers.Laws.{at_id}
use rest_diameter_bridge.Transport.Answers.Kept.{
  answer_received-origin, answer_received-keeps, prepare_for_answer-keeps, answer_received-entry,
}
use rest_diameter_bridge.Command.Defs.{Command, remove_record_route}
use rest_diameter_bridge.Transport.Answers.{
  Notify, AnswerInfo, answer_received, origin_of, new_info, set_answer,
}
use rest_diameter_bridge.Transport.HopByHop.{seconds, get_original_id}
use rest_diameter_bridge.Transport.HopByHop.Laws.{
  remove_mapping_lem, get_original_id-add, get_original_id-added,
}
use rest_diameter_bridge.Transport.IdGenerator.{next_id}
use rest_diameter_bridge.Transport.ConnectionManager.{
  Connection, response_targets, ConnectionManager, get_connection_by_id, if_found,
  get_connection_by_host_realm,
}
use rest_diameter_bridge.Transport.Processor.{
  Context, Node, Clock, done, forward_request, process_answer, pass_on, send_response, send_to,
  written, restore_id,
}
use rest_diameter_bridge.Base.Text.{Text, text_eq}
use rest_diameter_bridge.Base.Map.{nat_key, beq-ne, beq_self}
use rest_diameter_bridge.Base.{
  ℕ, ◌+◌, ◌≤◌, ◌≡◌, ◌≢◌, refl, Bool, false, ◌&&◌, none, some, List, [], arith, ap, ◌∙◌, ltb,
  if◌then◌else◌, true, ◌∷◌, Option,
}

-- A response to a connection that is registered and takes it.
pub send_response-delivers :
    (sends : List Connection → Command → Bool) (id host realm : Text) (response : Command)
    → (m : ConnectionManager) (d : Connection) → get_connection_by_id id m ≡ some d
    → sends (d ∷ []) response ≡ true
    → send_response sends id host realm response m ≡ (none, (d ∷ [], response) ∷ [])
unfolding send_response response_targets
send_response-delivers sends id host realm response m d e t =
    ap (λ o. send_to sends (if_found o (get_connection_by_host_realm host realm m)) response) e
    ∙ ap (λ b. written b (d ∷ []) response) t

-- Until `time`, the identifier stands for the original one and for the connection that asked.
pub record Pending {N : Type 0} (id original time : ℕ) (origin : Text × Text × Text) (n : Node N)
    : Type 0 where
  pub mapped : get_original_id time id n.mapper ≡ some original
  pub info : AnswerInfo N
  pub expected : n.answers.map id ≡ some info
  pub asked_by : origin_of info ≡ origin
  pub in_time : time ≤ info.timeout

module _ {N : Type 0} (s : Notify N) where
  pub forward_request-Pending :
      (context : Context) (at at' : Clock) (request : Command) (n : Node N) (time : ℕ)
      → time ≤ at.later + seconds 300
      → time ≤ at'.later + seconds 60
      → Pending n.generator.current_id request.hop_by_hop_id time
          (context.connection_id, context.peer_host, context.peer_realm)
          (forward_request s context at at' request n).1
  unfolding forward_request next_id
  forward_request-Pending context at at' request n time h h' =
      let id = n.generator.current_id in
      record {
        mapped =
            get_original_id-added n.mapper at.now at.reading at.later id request.hop_by_hop_id time
              h;
        info =
            new_info s context.connection_id context.peer_host context.peer_realm
              (at'.later + seconds 60);
        expected =
            at_id s at'.now at'.reading at'.later id context.connection_id context.peer_host
              context.peer_realm n.answers;
        asked_by = refl;
        in_time = h';
      }

  -- Another request that is forwarded leaves it pending.
  pub forward_request-keeps :
      (context : Context) (at at' : Clock) (request : Command) (n : Node N)
      → (id original time : ℕ) (origin : Text × Text × Text) → at.reading id ≤ time
      → at'.reading id ≤ time
      → id ≢ n.generator.current_id
      → Pending id original time origin n
      → Pending id original time origin (forward_request s context at at' request n).1
  unfolding forward_request next_id
  forward_request-keeps context at at' request n id original time origin h h' ne p =
      let new = n.generator.current_id in
      record {
        mapped =
            get_original_id-add n.mapper at.now at.reading at.later new request.hop_by_hop_id id
              time h
            ∙ ap
                (λ b.
                  if b
                  then (if ltb (at.later + seconds 300) time
                      then none
                      else some request.hop_by_hop_id)
                  else get_original_id time id n.mapper)
                (beq-ne id new ne)
            ∙ p.mapped;
        info = p.info;
        expected =
            prepare_for_answer-keeps s at'.now at'.reading at'.later new context.connection_id
              context.peer_host context.peer_realm n.answers id p.info p.expected
              (omega (arith, h', p.in_time)) ne;
        asked_by = p.asked_by;
        in_time = p.in_time;
      }

  -- An answer with another identifier leaves it pending.
  pub process_answer-keeps :
      (sends : List Connection → Command → Bool) (context : Context) (now : ℕ) (answer : Command)
      → (n : Node N) (id original time : ℕ) (origin : Text × Text × Text)
      → id ≢ answer.hop_by_hop_id
      → Pending id original time origin n
      → Pending id original time origin (process_answer s sends context now answer n).1
  unfolding process_answer remove_record_route
  process_answer-keeps sends context now answer n id original time origin ne p = record {
    mapped =
        (remove_mapping_lem n.mapper answer.hop_by_hop_id id now time).1
        ∙ ap (λ b. if b then none else get_original_id time id n.mapper)
            (beq-ne id answer.hop_by_hop_id ne)
        ∙ p.mapped;
    info = p.info;
    expected =
        answer_received-keeps s (remove_record_route answer context.my_host) n.answers id ne
        ∙ p.expected;
    asked_by = p.asked_by;
    in_time = p.in_time;
  }

  -- An answer to an entry of another node's request is sent to the caller, with the original
  -- identifier if there still is one.
  pub process_answer-found :
      (sends : List Connection → Command → Bool) (context : Context) (now : ℕ) (answer : Command)
      → (n : Node N) (original : Option ℕ) (info : AnswerInfo N) (origin : Text × Text × Text)
      → get_original_id now answer.hop_by_hop_id n.mapper ≡ original
      → n.answers.map answer.hop_by_hop_id ≡ some info
      → origin_of info ≡ origin
      → (text_eq origin.1 context.my_host && text_eq origin.2 context.my_realm) ≡ false
      → (process_answer s sends context now answer n).0 ≡ (
        done,
        (send_response sends origin.0 origin.1 origin.2
            (restore_id original (remove_record_route answer context.my_host))
            n.manager).1,
      )
  unfolding process_answer remove_record_route
  process_answer-found sends context now answer n original info origin m e same other =
      let trimmed = remove_record_route answer context.my_host in
      ap (λ o. pass_on s sends context (answer_received s trimmed n.answers).0 o trimmed n.manager)
        ((remove_mapping_lem n.mapper answer.hop_by_hop_id 0 now 0).0 ∙ m)
      ∙ ap (λ o. pass_on s sends context o original trimmed n.manager)
          (answer_received-origin s trimmed n.answers info e ∙ ap some same)
      ∙ ap
          (λ b. if b then (done, []) else (
            done,
            (send_response sends origin.0 origin.1 origin.2 (restore_id original trimmed)
                n.manager).1,
          ))
          other

  -- The answer that comes back at that time is sent to the caller, with the caller's identifier.
  pub process_answer-Pending :
      (sends : List Connection → Command → Bool) (context : Context) (now : ℕ) (answer : Command)
      → (n : Node N) (original : ℕ) (origin : Text × Text × Text)
      → Pending answer.hop_by_hop_id original now origin n
      → (text_eq origin.1 context.my_host && text_eq origin.2 context.my_realm) ≡ false
      → (process_answer s sends context now answer n).0 ≡ (
        done,
        (send_response sends origin.0 origin.1 origin.2
            (record (remove_record_route answer context.my_host) { hop_by_hop_id = original })
            n.manager).1,
      )
  process_answer-Pending sends context now answer n original origin p other =
      process_answer-found sends context now answer n (some original) p.info origin p.mapped
        p.expected p.asked_by other

  -- An answer uses up the original identifier, and leaves the entry with its caller.
  pub process_answer-leaves :
      (sends : List Connection → Command → Bool) (context : Context) (now later : ℕ)
      → (answer : Command) (n : Node N) (info : AnswerInfo N)
      → n.answers.map answer.hop_by_hop_id ≡ some info
      → (get_original_id later answer.hop_by_hop_id
            (process_answer s sends context now answer n).1.mapper
          ≡ none)
        × ((process_answer s sends context now answer n).1.answers.map answer.hop_by_hop_id
            ≡ some (set_answer s (remove_record_route answer context.my_host) info))
  unfolding process_answer remove_record_route
  process_answer-leaves sends context now later answer n info e =
      let id = answer.hop_by_hop_id in
      (
        (remove_mapping_lem n.mapper id id now later).1
            ∙ ap (λ b. if b then none else get_original_id later id n.mapper) (beq_self id),
        answer_received-entry s (remove_record_route answer context.my_host) n.answers info e,
      )
