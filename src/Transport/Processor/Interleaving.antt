-- ===== src/Transport/Processor/Interleaving.antt =====
-- What other tasks do between a request that is forwarded and its answer: they forward requests,
-- process answers with other identifiers, and connections come and go. A command that the node
-- rejects or answers itself leaves the node as it is.
use mathlib.Core.Path.{subst}
use rest_diameter_bridge.Transport.HopByHop.{seconds}
use rest_diameter_bridge.Transport.Processor.Pending.{
  Pending, forward_request-keeps, process_answer-keeps, process_answer-Pending,
  forward_request-Pending, send_response-delivers,
}
use rest_diameter_bridge.Base.Text.{Text, text_eq}
use rest_diameter_bridge.Base.Bytes.{IsU32}
use rest_diameter_bridge.Command.Defs.{Command, remove_record_route}
use rest_diameter_bridge.Transport.Answers.{Notify}
use rest_diameter_bridge.Transport.IdGenerator.{next_id}
use rest_diameter_bridge.Transport.ConnectionManager.{
  Connection, ConnectionManager, get_connection_by_id,
}
use rest_diameter_bridge.Transport.Processor.{
  Context, Node, Clock, forward_request, process_answer, done,
}
use rest_diameter_bridge.Base.{
  ℕ, suc, ◌+◌, ◌%◌, ◌^◌, ◌≤◌, ◌≡◌, ◌≢◌, Bool, List, arith, ap, ◌∙◌, ◌<◌, true, false, ◌&&◌, some,
  [], ◌∷◌, refl, sym,
}

-- The nodes that are reached from `start` with `k` requests forwarded on the way, while no cleaning
-- reads a time after `time` for the identifier `id`.
pub data Run {N : Type 0} (s : Notify N) (sends : List Connection → Command → Bool) (id time : ℕ)
    (start : Node N) : ℕ → Node N → Type 0 where
  still : Run s sends id time start 0 start
  forwards :
      {k : ℕ} {n : Node N}
      → Run s sends id time start k n
      → (context : Context) (at at' : Clock) (request : Command) → at.reading id ≤ time
      → at'.reading id ≤ time
      → Run s sends id time start (suc k) (forward_request s context at at' request n).1
  answers :
      {k : ℕ} {n : Node N}
      → Run s sends id time start k n
      → (context : Context) (now : ℕ) (answer : Command) → id ≢ answer.hop_by_hop_id
      → Run s sends id time start k (process_answer s sends context now answer n).1
  reconnects :
      {k : ℕ} {n : Node N}
      → Run s sends id time start k n
      → (m : ConnectionManager) → Run s sends id time start k (record n { manager = m })

module _ {N : Type 0} (s : Notify N) (sends : List Connection → Command → Bool) (id time : ℕ) where
  -- The generator moves on by the requests that are forwarded.
  Run-generator :
      (start n : Node N) (k : ℕ)
      → Run s sends id time start k n
      → start.generator.current_id ≡ (id + 1) % 2 ^ 32
      → n.generator.current_id ≡ (id + 1 + k) % 2 ^ 32
  unfolding forward_request next_id process_answer
  Run-generator start n k still e = e ∙ ap (λ j. j % 2 ^ 32) (omega arith)
  Run-generator start n k (forwards r context at at' request h h') e =
      omega (arith, Run-generator start _ _ r e)
  Run-generator start n k (answers r context now answer ne) e = Run-generator start _ _ r e
  Run-generator start n k (reconnects r m) e = Run-generator start _ _ r e

  Run-Pending :
      (start n : Node N) (k original : ℕ) (origin : Text × Text × Text)
      → Run s sends id time start k n
      → start.generator.current_id ≡ (id + 1) % 2 ^ 32
      → IsU32 id
      → k + 1 < 2 ^ 32
      → Pending id original time origin start
      → Pending id original time origin n
  Run-Pending start n k original origin still e u d p = p
  Run-Pending start n k original origin (forwards r context at at' request h h') e u d p =
      forward_request-keeps s context at at' request _ id original time origin h h'
        (λ same. omega (arith, Run-generator start _ _ r e, same, u, d))
        (Run-Pending start _ _ original origin r e u (omega (arith, d)) p)
  Run-Pending start n k original origin (answers r context now answer ne) e u d p =
      process_answer-keeps s sends context now answer _ id original time origin ne
        (Run-Pending start _ _ original origin r e u d p)
  Run-Pending start n k original origin (reconnects r m) e u d p =
      let q = Run-Pending start _ _ original origin r e u d p in
      record {
        mapped = q.mapped;
        info = q.info;
        expected = q.expected;
        asked_by = q.asked_by;
        in_time = q.in_time;
      }

-- The answer as the caller gets it: without the route record of this node, and with the identifier
-- that the caller gave the request.
abbrev pub returned : Context → Command → Command → Command
returned context request answer = record (remove_record_route answer context.my_host) {
  hop_by_hop_id = request.hop_by_hop_id;
}

module _ {N : Type 0} (s : Notify N) where
  forwarded_id :
      (context : Context) (at at' : Clock) (request : Command) (n : Node N)
      → (forward_request s context at at' request n).0.hop_by_hop_id ≡ n.generator.current_id
  unfolding forward_request next_id
  forwarded_id context at at' request n = refl

  forwarded_generator :
      (context : Context) (at at' : Clock) (request : Command) (n : Node N)
      → (forward_request s context at at' request n).1.generator.current_id
        ≡ (n.generator.current_id + 1) % 2 ^ 32
  unfolding forward_request next_id
  forwarded_generator context at at' request n = refl

module _ {N : Type 0} (s : Notify N) (sends : List Connection → Command → Bool) where
  -- A request was forwarded, and then any sequence of fewer than 2 ^ 32 - 1 further forwards,
  -- answers to other identifiers and changes of the registry took place, with all readings of the
  -- clock within the lifetimes of its two entries. If the answer to it then comes, its asker is
  -- not this node and the asker's connection is registered and accepts, process_answer sends
  -- exactly the answer with the asker's own hop-by-hop identifier, less this node's route record,
  -- to that connection alone.
  pub proxied_answer :
      (context other : Context) (at at' : Clock) (request answer : Command) (start n : Node N)
      → (k time : ℕ) (d : Connection) → IsU32 start.generator.current_id
      → time ≤ at.later + seconds 300
      → time ≤ at'.later + seconds 60
      → k + 1 < 2 ^ 32
      → Run s sends start.generator.current_id time
          (forward_request s context at at' request start).1
          k
          n
      → answer.hop_by_hop_id ≡ (forward_request s context at at' request start).0.hop_by_hop_id
      → (text_eq context.peer_host other.my_host && text_eq context.peer_realm other.my_realm)
        ≡ false
      → get_connection_by_id context.connection_id n.manager ≡ some d
      → sends (d ∷ []) (returned other request answer) ≡ true
      → (process_answer s sends other time answer n).0
        ≡ (done, (d ∷ [], returned other request answer) ∷ [])
  proxied_answer context other at at' request answer start n k time d u h h' few run same foreign
        found sent =
      let id = start.generator.current_id in
      let origin : Text × Text × Text =
        (context.connection_id, context.peer_host, context.peer_realm) in
      let kept =
        Run-Pending s sends id time (forward_request s context at at' request start).1 n k
          request.hop_by_hop_id origin run (forwarded_generator s context at at' request start) u
          few (forward_request-Pending s context at at' request start time h h') in
      let pending =
        subst (λ j. Pending j request.hop_by_hop_id time origin n)
          (sym (same ∙ forwarded_id s context at at' request start)) kept in
      process_answer-Pending s sends other time answer n request.hop_by_hop_id origin pending
        foreign
      ∙ ap (λ ds. (done, ds))
          (ap (λ r. r.1)
            (send_response-delivers sends context.connection_id context.peer_host context.peer_realm
              (returned other request answer) n.manager d found sent))
