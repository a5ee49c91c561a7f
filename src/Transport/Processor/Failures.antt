-- ===== src/Transport/Processor/Failures.antt =====
-- Requests that loop or cannot be delivered, and answers that come twice.
use rest_diameter_bridge.Transport.HopByHop.{get_original_id}
use rest_diameter_bridge.Command.Fields.{get_result_code-set_result_code}
use rest_diameter_bridge.Command.Response.{Answers, create_response-Answers}
use rest_diameter_bridge.Transport.Processor.Pending.{
  Pending, send_response-delivers, process_answer-leaves, process_answer-found,
}
use rest_diameter_bridge.Command.Routes.{any-append, has-add_record_route}
use rest_diameter_bridge.Transport.ConnectionManager.{
  Connection, ConnectionManager, get_connection_by_id,
}
use rest_diameter_bridge.Transport.Processor.{
  finish_forward, Context, forward_request, is_looped_request, process_command, Clock, Node, done,
  finished, reject_looped_request, process_answer, processed_of, unwrap_or_default,
}
use rest_diameter_bridge.Transport.Answers.{Notify, set_answer}
use rest_diameter_bridge.Avp.Defs.{Avp}
use rest_diameter_bridge.Command.Defs.{
  any_record_route, has_record_route, Command, is_request, get_result_code, get_origin_host,
  set_result_code, set_origin_host, set_origin_realm, remove_record_route, create_response,
  get_origin_realm,
}
use rest_diameter_bridge.Base.Text.{Text, is_utf8, text_eq}
use rest_diameter_bridge.Base.Map.{nat_key}
use rest_diameter_bridge.Base.{
  ◌≡◌, true, List, [], ◌∷◌, ◌++◌, arith, ℕ, ap, ◌∙◌, Bool, false, ◌&&◌, ◌||◌, Option, some, ◌<◌,
  refl, none,
}

-- A route that has a host keeps it behind more AVPs.
has_record_route-more :
    (c d : Command) (more : List Avp) (host : Text)
    → has_record_route c host ≡ true
    → d.avps ≡ c.avps ++ more
    → has_record_route d host ≡ true
unfolding has_record_route
has_record_route-more c d more host h e =
    ap (any_record_route host) e
    ∙ any-append host c.avps more
    ∙ ap (λ b. b || any_record_route host more) h

module _ {N : Type 0} (s : Notify N) (sends : List Connection → Command → Bool) where
  -- The request that was sent has this node on its route.
  forward_request-has :
      (context : Context) (at at' : Clock) (request : Command) (n : Node N)
      → is_utf8 context.my_host ≡ true
      → has_record_route (forward_request s context at at' request n).0 context.my_host ≡ true
  unfolding forward_request has_record_route
  forward_request-has context at at' request n h = has-add_record_route request context.my_host h

  looped :
      (context : Context) (c : Command)
      → is_request c ≡ true
      → has_record_route c context.my_host ≡ true
      → is_looped_request context c ≡ true
  unfolding is_looped_request
  looped context c r h = ap (λ b. b && has_record_route c context.my_host) r ∙ h

  -- A request that a node with a host name of well-formed UTF-8 has forwarded, if it comes back
  -- as a request with the same AVPs and perhaps more behind them, on whatever connection, is
  -- rejected as a loop and not forwarded again.
  pub process_command-loop :
      (first later : Context) (handle : Command → Option (Option Command)) (now : ℕ)
      → (at at' bt bt' : Clock) (request back : Command) (more : List Avp) (n m : Node N)
      → is_utf8 first.my_host ≡ true
      → later.my_host ≡ first.my_host
      → is_request back ≡ true
      → back.avps ≡ (forward_request s first at at' request n).0.avps ++ more
      → process_command s sends later handle now bt bt' back m
        ≡ finished (reject_looped_request sends later back m.manager) m
  unfolding process_command
  process_command-loop first later handle now at at' bt bt' request back more n m u same r e =
      let found =
        has_record_route-more (forward_request s first at at' request n).0 back more first.my_host
          (forward_request-has first at at' request n u) e in
      rw (looped later back r (ap (has_record_route back) same ∙ found)) refl

-- If no answer comes to a forwarded request and the connection of its asker is registered and
-- accepts, the asker gets, on that connection alone, one answer to its request, with its own hop-
-- by-hop identifier and the result code 3002.
pub finish_forward-undeliverable :
    (sends : List Connection → Command → Bool) (context : Context) (original : ℕ)
    (request : Command)
    → (m : ConnectionManager) (d : Connection) → request.command_flags < 256
    → get_connection_by_id context.connection_id m ≡ some d
    → ((c : Command) → sends (d ∷ []) c ≡ true)
    → (answer : Command) × (finish_forward sends context false original request m
        ≡ (done, (d ∷ [], answer) ∷ []))
      × (get_result_code answer ≡ some 3002)
      × Answers (record request { hop_by_hop_id = original }) answer
unfolding finish_forward set_result_code set_origin_host set_origin_realm
finish_forward-undeliverable sends context original request m d f e t =
    let origin =
      set_origin_realm (set_origin_host (create_response request) context.my_host)
        context.my_realm in
    let bare = record origin { hop_by_hop_id = original } in
    let answer = set_result_code bare 3002 in
    let head = create_response-Answers request f in
    (
      answer,
      ap (λ r. (processed_of r.0, r.1))
          (send_response-delivers sends context.connection_id
            (unwrap_or_default (get_origin_host request))
            (unwrap_or_default (get_origin_realm request)) answer m d e (t answer)),
      get_result_code-set_result_code bare 3002 (omega arith),
      record {
        same_code = head.same_code;
        same_application = head.same_application;
        same_hop_by_hop = refl;
        same_end_to_end = head.same_end_to_end;
        other_flags = head.other_flags;
      },
    )

-- An answer that comes a second time, under an identifier that is pending at the first, is sent
-- to the asker again, this time with the hop-by-hop identifier of the node instead of that of the
-- asker.
pub process_answer-again :
    {N : Type 0} (s : Notify N) (sends : List Connection → Command → Bool) (context : Context)
    → (now later : ℕ) (answer again : Command) (n : Node N) (original : ℕ)
    → (origin : Text × Text × Text) (d : Connection)
    → Pending answer.hop_by_hop_id original now origin n
    → again.hop_by_hop_id ≡ answer.hop_by_hop_id
    → (text_eq origin.1 context.my_host && text_eq origin.2 context.my_realm) ≡ false
    → get_connection_by_id origin.0 n.manager ≡ some d
    → sends (d ∷ []) (remove_record_route again context.my_host) ≡ true
    → (process_answer s sends context later again (process_answer s sends context now answer n).1).0
      ≡ (done, (d ∷ [], remove_record_route again context.my_host) ∷ [])
unfolding set_answer
process_answer-again s sends context now later answer again n original origin d p same other e t =
    let after = (process_answer s sends context now answer n).1 in
    let left = process_answer-leaves s sends context now later answer n p.info p.expected in
    process_answer-found s sends context later again after none
      (set_answer s (remove_record_route answer context.my_host) p.info) origin
      (ap (λ i. get_original_id later i after.mapper) same ∙ left.0)
      (ap after.answers.map same ∙ left.1) p.asked_by other
    ∙ ap (λ r. (done, r.1))
        (send_response-delivers sends origin.0 origin.1 origin.2
          (remove_record_route again context.my_host) after.manager d (same_manager ∙ e) t)
  where
    same_manager :
        get_connection_by_id origin.0 (process_answer s sends context now answer n).1.manager
        ≡ get_connection_by_id origin.0 n.manager
    same_manager = unfold process_answer in refl
