-- ===== src/Transport/Selection/Retryable.antt =====
-- The result code of what `send_request` returns.
use rest_diameter_bridge.Transport.ConnectionManager.{Connection}
use rest_diameter_bridge.Base.Text.{Text}
use rest_diameter_bridge.Transport.Selection.{
  unless_retryable, send_request_with_timeout, in_time, send_chosen, get_connections_by_hosts,
}
use rest_diameter_bridge.Transport.Requests.{
  code_or_success, RequestResult, redirect_request, redirect_to, answered, redirect_step,
  send_request, failed, request_step, follow, is_redirect,
}
use rest_diameter_bridge.Routing.Manager.{contains}
use rest_diameter_bridge.Command.Defs.{Command, get_result_code, get_redirect_hosts}
use rest_diameter_bridge.Base.{
  ℕ, false, Option, none, some, List, inl, inr, Bool-cases, ◌≡◌, ltb, leb, if◌then◌else◌, suc, ◌-◌,
  Bool, true, [], ◌∷◌,
}

abbrev pub IsFinal : List ℕ → Command → Type 0
IsFinal codes a = contains (code_or_success (get_result_code a)) codes ≡ false

abbrev IsFinalOption : List ℕ → Option Command → Type 0
IsFinalOption codes none = Unit
IsFinalOption codes (some a) = IsFinal codes a

unless_retryable-IsFinal :
    (codes : List ℕ) (o : Option Command) → IsFinalOption codes (unless_retryable codes o)
unless_retryable-IsFinal codes none = tt
unless_retryable-IsFinal codes (some a) =
    elim (Bool-cases (contains (code_or_success (get_result_code a)) codes)) [
      | inl e ↦ rw e tt
      | inr e ↦ rw e e
    ]

send_request_with_timeout-IsFinal :
    (exchange : ℕ → Option (Option Command)) (codes : List ℕ) (per_conn timeout now : ℕ)
    → IsFinalOption codes (send_request_with_timeout exchange codes per_conn timeout now)
unfolding send_request_with_timeout
send_request_with_timeout-IsFinal exchange codes per_conn timeout now =
    unless_over (leb (timeout - now) 0) _ (
      in_time-IsFinal (exchange (if ltb (timeout - now) per_conn then timeout - now else per_conn)))
  where
    unless_over :
        (b : Bool) (o : Option Command)
        → IsFinalOption codes o
        → IsFinalOption codes (if b then none else o)
    unless_over true o h = tt
    unless_over false o h = h

    in_time-IsFinal : (o : Option (Option Command)) → IsFinalOption codes (in_time codes o)
    in_time-IsFinal none = tt
    in_time-IsFinal (some o) = unless_retryable-IsFinal codes o

-- An error, or an answer whose code is not to be retried.
abbrev pub IsFinalResult : List ℕ → RequestResult → Type 0
IsFinalResult codes (answered a) = IsFinal codes a
IsFinalResult codes (failed e) = Unit

if_IsFinal :
    (codes : List ℕ) (b : Bool) (x y : RequestResult)
    → IsFinalResult codes x
    → IsFinalResult codes y
    → IsFinalResult codes (if b then x else y)
if_IsFinal codes true x y h g = h
if_IsFinal codes false x y h g = g

if_first_IsFinal :
    (codes : List ℕ) (b : Bool) (x y : RequestResult × List Command)
    → IsFinalResult codes x.0
    → IsFinalResult codes y.0
    → IsFinalResult codes (if b then x else y).0
if_first_IsFinal codes true x y h g = h
if_first_IsFinal codes false x y h g = g

module _ {A : Type 0} (codes : List ℕ) (attempt : ℕ → A → Option Command) (late : ℕ → Bool)
    (fin : (i : ℕ) (c : A) → IsFinalOption codes (attempt i c)) where
  redirect_request-IsFinal :
      (i : ℕ) (cs : List A) → IsFinalResult codes (redirect_request attempt late i cs)
  unfolding redirect_request
  redirect_request-IsFinal i [] = tt
  redirect_request-IsFinal i (c ∷ cs) =
      stepped (attempt i c) (fin i c) (redirect_request-IsFinal (suc i) cs)
    where
      stepped :
          (o : Option Command)
          → IsFinalOption codes o
          → IsFinalResult codes (redirect_request attempt late (suc i) cs)
          → IsFinalResult codes
              (redirect_step attempt late i o (redirect_request attempt late (suc i) cs))
      stepped none h g = if_IsFinal codes (late i) _ _ tt g
      stepped (some a) h g = h

  redirect_to-IsFinal :
      (i : ℕ) (o : Option (List A)) → IsFinalResult codes (redirect_to attempt late i o)
  redirect_to-IsFinal i none = tt
  redirect_to-IsFinal i (some cs) = redirect_request-IsFinal i cs

  module _ (by_hosts : List Text → Option (List A)) where
    follow-IsFinal :
        (i : ℕ) (a : Command) (rest : RequestResult × List Command) (hosts : Option (List Text))
        → IsFinalResult codes rest.0
        → IsFinalResult codes (follow attempt late by_hosts i a hosts rest).0
    follow-IsFinal i a rest none g = if_IsFinal codes (late i) _ _ tt g
    follow-IsFinal i a rest (some hosts) g = redirect_to-IsFinal (suc i) (by_hosts hosts)

    send_request-IsFinal :
        (i : ℕ) (cs : List A) → IsFinalResult codes (send_request attempt late by_hosts i cs).0
    unfolding send_request
    send_request-IsFinal i [] = tt
    send_request-IsFinal i (c ∷ cs) =
        stepped (attempt i c) (fin i c) (send_request-IsFinal (suc i) cs)
      where
        stepped :
            (o : Option Command)
            → IsFinalOption codes o
            → IsFinalResult codes (send_request attempt late by_hosts (suc i) cs).0
            → IsFinalResult codes
                (request_step attempt late by_hosts i o
                  (send_request attempt late by_hosts (suc i) cs)).0
        stepped none h g = if_first_IsFinal codes (late i) _ _ tt g
        stepped (some a) h g =
            if_first_IsFinal codes (is_redirect a) _ _
              (follow-IsFinal i a (send_request attempt late by_hosts (suc i) cs)
                (get_redirect_hosts a) g)
              h

-- When send_request tries connections by send_request_with_timeout, for any exchanges, times and
-- listing, it returns an error or an answer whose result code, or success where it has none, is
-- not one of the retryable codes, also after a redirect.
pub send_chosen-IsFinal :
    (exchange : ℕ → Connection → ℕ → Option (Option Command)) (now : ℕ → ℕ) (late : ℕ → Bool)
    (codes : List ℕ) (per_conn timeout : ℕ) (listing : List Connection)
    (targets : Option (List Connection))
    → IsFinalResult codes
        (send_chosen
          (λ i c. send_request_with_timeout (exchange i c) codes per_conn timeout (now i))
          late
          listing
          targets).0
send_chosen-IsFinal exchange now late codes per_conn timeout listing none = tt
send_chosen-IsFinal exchange now late codes per_conn timeout listing (some cs) =
    send_request-IsFinal codes
      (λ i c. send_request_with_timeout (exchange i c) codes per_conn timeout (now i)) late
      (λ i c. send_request_with_timeout-IsFinal (exchange i c) codes per_conn timeout (now i))
      (get_connections_by_hosts listing) 0 cs
