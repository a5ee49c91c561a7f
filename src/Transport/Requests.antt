-- ===== src/Transport/Requests.antt =====
-- The loops of `send_request` and `redirect_request` in src/transport/connection_manager.rs over the
-- connections that were chosen for a request. `attempt i c` stands for `send_request_with_timeout`
-- on the connection `c`, the attempt `i` of this request: the answer, or nothing for an `Err`.
-- `late i` says whether the total timeout has passed after that attempt, and `by_hosts` stands
-- for `get_connections_by_hosts`. The answers handed to `add_redirect` are the second result.
use rest_diameter_bridge.Avp.ResultCodes.{
  result_code_as_u32, diameter_redirect_indication, diameter_success,
}
use rest_diameter_bridge.Command.Defs.{
  Command, get_result_code, get_redirect_hosts, texts_of, get_avps,
}
use rest_diameter_bridge.Base.{
  ℕ, suc, ◌+◌, ◌≡◌, refl, Option, none, some, List, [], ◌∷◌, ◌++◌, Bool, false, length, ◌==◌,
  if◌then◌else◌, ap, ◌∙◌, arith,
}
use rest_diameter_bridge.Base.Text.{Text}

-- The error strings.
pub data RequestError : Type 0 where
  total_timeout : RequestError
  no_redirect_connections : RequestError
  not_sent : RequestError
  not_redirected : RequestError
  no_connection : RequestError

pub data RequestResult : Type 0 where
  answered : Command → RequestResult
  failed : RequestError → RequestResult

-- `answer.get_result_code().unwrap_or(2001)`, against 3006.
abbrev pub code_or_success : Option ℕ → ℕ
code_or_success none = result_code_as_u32 diameter_success
code_or_success (some n) = n

unfoldable pub is_redirect : Command → Bool
is_redirect answer =
    code_or_success (get_result_code answer) == result_code_as_u32 diameter_redirect_indication

module _ {ℓ} {A : Type ℓ} (attempt : ℕ → A → Option Command) (late : ℕ → Bool) where
  -- What follows an attempt that gave no answer.
  abbrev pub unless_late : ℕ → RequestResult → RequestResult
  unless_late i rest = if late i then failed total_timeout else rest

  abbrev pub redirect_step : ℕ → Option Command → RequestResult → RequestResult
  redirect_step i (some answer) rest = answered answer
  redirect_step i none rest = unless_late i rest

  -- `redirect_request`, whose attempts are counted on from `i`.
  unfoldable pub redirect_request : ℕ → List A → RequestResult
  redirect_request i [] = failed not_redirected
  redirect_request i (c ∷ cs) = redirect_step i (attempt i c) (redirect_request (suc i) cs)

  abbrev pub redirect_to : ℕ → Option (List A) → RequestResult
  redirect_to i none = failed no_redirect_connections
  redirect_to i (some cs) = redirect_request i cs

  module _ (by_hosts : List Text → Option (List A)) where
    -- The branch of a redirect answer. `get_redirect_hosts` is never `None`; if it were, the next
    -- connection would be tried.
    abbrev pub follow :
        ℕ
        → Command
        → Option (List Text)
        → RequestResult × List Command
        → RequestResult × List Command
    follow i answer none rest =
        (unless_late i rest.0, if late i then answer ∷ [] else answer ∷ rest.1)
    follow i answer (some hosts) rest = (redirect_to (suc i) (by_hosts hosts), answer ∷ [])

    abbrev pub request_step :
        ℕ → Option Command → RequestResult × List Command → RequestResult × List Command
    request_step i none rest = if late i then (failed total_timeout, []) else rest
    request_step i (some answer) rest =
        if is_redirect answer
        then follow i answer (get_redirect_hosts answer) rest
        else (answered answer, [])

    unfoldable pub send_request : ℕ → List A → RequestResult × List Command
    send_request i [] = (failed not_sent, [])
    send_request i (c ∷ cs) = request_step i (attempt i c) (send_request (suc i) cs)

    -- The attempts of a run of connections all fail in time.
    abbrev pub AllFail : ℕ → List A → Type 0
    AllFail i [] = Unit
    AllFail i (c ∷ cs) = (attempt i c ≡ none) × (late i ≡ false) × AllFail (suc i) cs

    -- What becomes of an answer to the attempt `i`.
    abbrev pub settle : ℕ → Command → RequestResult × List Command
    settle i a =
        if is_redirect a
        then (redirect_to (suc i) (by_hosts (texts_of (get_avps a 292))), a ∷ [])
        else (answered a, [])

    step_in_time :
        (i : ℕ) (o : Option Command) (rest : RequestResult × List Command)
        → o ≡ none
        → late i ≡ false
        → request_step i o rest ≡ rest
    step_in_time i o rest e l =
        ap (λ o. request_step i o rest) e
        ∙ ap (λ b. if b then (failed total_timeout, []) else rest) l

    failover_at :
        (i k : ℕ) (before : List A) (c : A) (behind : List A) (a : Command)
        → k ≡ i + length before
        → AllFail i before
        → attempt k c ≡ some a
        → send_request i (before ++ (c ∷ behind)) ≡ settle k a
    unfolding send_request get_redirect_hosts
    failover_at i k [] c behind a n h e =
        let at : i ≡ k = omega (arith, n) in
        ap (λ o. request_step i o (send_request (suc i) behind)) (ap (λ j. attempt j c) at ∙ e)
        ∙ ap (λ j. settle j a) at
    failover_at i k (b ∷ before) c behind a n h e =
        step_in_time i (attempt i b) (send_request (suc i) (before ++ (c ∷ behind))) h.0 h.1
        ∙ failover_at (suc i) k before c behind a (omega (arith, n)) h.2 e

    -- If the connections before one all fail in time and that one answers, send_request gives the
    -- answer if it is no redirect; if it is one, the answer is handed to the redirect caches and
    -- the result is that of sending to the connections of its hosts, or an error if there are
    -- none.
    pub send_request-failover :
        (i : ℕ) (before : List A) (c : A) (behind : List A) (a : Command)
        → AllFail i before
        → attempt (i + length before) c ≡ some a
        → send_request i (before ++ (c ∷ behind)) ≡ (
            if is_redirect a
            then (
              redirect_to (suc (i + length before)) (by_hosts (texts_of (get_avps a 292))),
              a ∷ [],
            )
            else (answered a, []))
    send_request-failover i before c behind a h e =
        failover_at i (i + length before) before c behind a refl h e
