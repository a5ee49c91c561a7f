-- ===== src/Transport/Answers/Kept.antt =====
-- What other requests and answers leave of an entry.
use rest_diameter_bridge.Transport.Answers.{
  Notify, AnswerInfo, AnswerManager, prepare_for_answer, clean_expired_entries, is_expired,
  answer_received, received, origin_of, set_answer,
}
use rest_diameter_bridge.Base.Map.{nat_key, beq_self}
use rest_diameter_bridge.Base.Text.{Text}
use rest_diameter_bridge.Command.Defs.{Command}
use rest_diameter_bridge.Base.{
  ℕ, ◌≡◌, ◌≢◌, ◌≤◌, refl, none, some, arith, ap, Option, if◌then◌else◌, ◌∙◌,
}

module _ {N : Type 0} where
  -- An entry that is not past its timeout at its reading is not cleaned away.
  clean_expired_entries-keeps :
      (now : ℕ) (reading : ℕ → ℕ) (m : AnswerManager N) (id : ℕ) (info : AnswerInfo N)
      → m.map id ≡ some info
      → reading id ≤ info.timeout
      → (clean_expired_entries now reading m).map id ≡ some info
  unfolding clean_expired_entries is_expired
  clean_expired_entries-keeps now reading m id info e h = ground (arith, e)

module _ {N : Type 0} (s : Notify N) where
  pub prepare_for_answer-keeps :
      (now : ℕ) (reading : ℕ → ℕ) (now' new : ℕ) (c h r : Text) (m : AnswerManager N)
      → (id : ℕ) (info : AnswerInfo N) → m.map id ≡ some info
      → reading id ≤ info.timeout
      → id ≢ new
      → (prepare_for_answer s now reading now' new c h r m).map id ≡ some info
  unfolding prepare_for_answer
  prepare_for_answer-keeps now reading now' new c h r m id info e p ne =
      let kept = clean_expired_entries-keeps now reading m id info e p in ground (arith, kept, ne)

  pub answer_received-keeps :
      (a : Command) (m : AnswerManager N) (id : ℕ)
      → id ≢ a.hop_by_hop_id
      → (answer_received s a m).1.map id ≡ m.map id
  unfolding answer_received
  answer_received-keeps a m id ne = kept (m.map a.hop_by_hop_id)
    where
      kept : (o : Option (AnswerInfo N)) → (received s a o m).1.map id ≡ m.map id
      kept none = refl
      kept (some info) = ground (arith, ne)

  -- The caller that an answer is for.
  pub answer_received-origin :
      (a : Command) (m : AnswerManager N) (info : AnswerInfo N)
      → m.map a.hop_by_hop_id ≡ some info
      → (answer_received s a m).0 ≡ some (origin_of info)
  unfolding answer_received
  answer_received-origin a m info e = ap (λ o. (received s a o m).0) e

  pub answer_received-entry :
      (a : Command) (m : AnswerManager N) (info : AnswerInfo N)
      → m.map a.hop_by_hop_id ≡ some info
      → (answer_received s a m).1.map a.hop_by_hop_id ≡ some (set_answer s a info)
  unfolding answer_received
  answer_received-entry a m info e =
      ap (λ o. (received s a o m).1.map a.hop_by_hop_id) e
      ∙ ap (λ b. if b then some (set_answer s a info) else m.map a.hop_by_hop_id)
          (beq_self a.hop_by_hop_id)
