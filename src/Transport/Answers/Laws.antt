-- ===== src/Transport/Answers/Laws.antt =====
-- A request that was sent gets its answer.
use rest_diameter_bridge.Base.Map.{beq_self, nat_key}
use rest_diameter_bridge.Transport.HopByHop.{seconds}
use rest_diameter_bridge.Transport.Answers.{
  Notify, AnswerManager, prepare_for_answer, answer_received, wait_answer, woken, waiting, new_info,
  set_answer, wait_on, wake, AnswerInfo, received,
}
use rest_diameter_bridge.Base.Text.{Text}
use rest_diameter_bridge.Command.Defs.{Command}
use rest_diameter_bridge.Base.{ℕ, ◌≡◌, ◌+◌, some, arith, ap, ◌∙◌, ◌==◌, if◌then◌else◌, ==_self}

module _ {N : Type 0} (s : Notify N) (now : ℕ) (reading : ℕ → ℕ) (now' : ℕ) (id : ℕ)
    (connection_id host realm : Text) (m : AnswerManager N) where
  abbrev fresh : AnswerInfo N
  fresh = new_info s connection_id host realm (now' + seconds 60)

  abbrev pub prepared : AnswerManager N
  prepared = prepare_for_answer s now reading now' id connection_id host realm m

  pub at_id : prepared.map id ≡ some fresh
  unfolding prepare_for_answer
  at_id = ground (arith, beq_self id)

  -- A request that was prepared for and not answered keeps its task waiting.
  pub wait_answer-prepare_for_answer : wait_answer s id prepared ≡ (waiting, prepared)
  unfolding wait_answer
  wait_answer-prepare_for_answer =
      ap (λ o. wait_on s id o prepared) at_id
      ∙ ap (λ o. wake s id fresh o prepared) s.notified-new_notify

  -- The first answer with the id of a request that was just prepared for is passed to the
  -- connection, the host and the realm of the request, and the task that waits for it wakes with
  -- that answer.
  pub answer_received-prepare_for_answer :
      (a : Command)
      → a.hop_by_hop_id ≡ id
      → ((answer_received s a prepared).0 ≡ some (connection_id, host, realm))
        × ((wait_answer s id (answer_received s a prepared).1).0 ≡ woken (some a))
  unfolding wait_answer answer_received set_answer
  answer_received-prepare_for_answer a e =
      let at : prepared.map a.hop_by_hop_id ≡ some fresh = ap prepared.map e ∙ at_id in
      let after = (received s a (some fresh) prepared).1 in
      (
        ap (λ o. (received s a o prepared).0) at,
        ap (λ o. (wait_answer s id (received s a o prepared).1).0) at
            ∙ ap
                (λ b.
                  (wait_on s id (if b then some (set_answer s a fresh) else prepared.map id)
                    after).0)
                (ap (λ j. id == j) e ∙ ==_self id)
            ∙ ap (λ o. (wake s id (set_answer s a fresh) o after).0) s.notified-notify_one,
      )
