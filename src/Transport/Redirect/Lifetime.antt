-- ===== src/Transport/Redirect/Lifetime.antt =====
-- A redirect that an answer announced for a session, and the request of that session after it.
use rest_diameter_bridge.Avp.Codes.{all_session}
use rest_diameter_bridge.Command.Defs.{Command, get_avps, texts_of, get_redirect_host_usage}
use rest_diameter_bridge.Transport.Redirect.{
  RedirectCaches, RedirectEntry, add_redirect, remove_expired, insert_redirect, insert_at,
  cache_hosts, get_redirect, is_expired, lifetime, session_id, usage_or_default,
}
use rest_diameter_bridge.Transport.Redirect.Laws.{
  answer_at, get_redirect_order, fresh_hosts, or_else,
}
use rest_diameter_bridge.Base.{ℕ, ◌≡◌, List, ◌∷◌, some, none, false, ap, ◌∙◌, if◌then◌else◌, Option}
use rest_diameter_bridge.Base.Text.{Text}
use rest_diameter_bridge.Base.Map.{Map, insert, text_key, beq_self}

abbrev pub announced : Text → List Text → ℕ → Command → RedirectEntry
announced h hs now answer = record { hosts = h ∷ hs; expires_at = lifetime now answer }

-- The session cache after the insertion, at the session.
inserted : (s : Text) (e : RedirectEntry) (m : Map Text RedirectEntry) → insert s e m s ≡ some e
inserted s e m = ap (λ b. if b then some e else m s) (beq_self s)

session_after :
    (now now' now'' : ℕ) (reading : Text → ℕ) (answer : Command) (c : RedirectCaches)
    → (s h : Text) (hs : List Text) → texts_of (get_avps answer 292) ≡ h ∷ hs
    → get_redirect_host_usage answer ≡ some all_session
    → session_id answer ≡ some s
    → (add_redirect now now' reading now'' answer c).session s ≡ some (announced h hs now'' answer)
unfolding add_redirect insert_redirect
session_after now now' now'' reading answer c s h hs hosts usage session =
    let cleaned = remove_expired now now' reading c in
    ap (λ ts. (cache_hosts ts now'' answer cleaned).session s) hosts
    ∙ ap
        (λ u.
          (insert_redirect (usage_or_default u) (announced h hs now'' answer) answer
              cleaned).session
            s)
        usage
    ∙ ap (λ o. insert_at o (announced h hs now'' answer) cleaned.session s) session
    ∙ inserted s (announced h hs now'' answer) cleaned.session

or_else-some : (o b : Option (List Text)) (x : List Text) → o ≡ some x → or_else o b ≡ some x
or_else-some o b x e = ap (λ o. or_else o b) e

-- After an answer with at least one redirect host, the usage for all of a session and a session
-- id was given to add_redirect, get_redirect gives exactly its hosts for a request of that
-- session, as long as the lifetime of the answer, if it has one, has not passed at the first
-- lookup.
pub get_redirect-add_redirect :
    (now now' now'' : ℕ) (reading : Text → ℕ) (at : ℕ → ℕ) (answer r : Command)
    → (c : RedirectCaches) (s h : Text) (hs : List Text) → texts_of (get_avps answer 292) ≡ h ∷ hs
    → get_redirect_host_usage answer ≡ some all_session
    → session_id answer ≡ some s
    → session_id r ≡ some s
    → is_expired (at 0) (announced h hs now'' answer) ≡ false
    → (get_redirect at r (add_redirect now now' reading now'' answer c)).0 ≡ some (h ∷ hs)
get_redirect-add_redirect now now' now'' reading at answer r c s h hs hosts usage session same
      fresh =
    let after = add_redirect now now' reading now'' answer c in
    let found : answer_at (at 0) (session_id r) after.session ≡ some (h ∷ hs) =
      ap (λ o. answer_at (at 0) o after.session) same
      ∙ ap (fresh_hosts (at 0))
          (session_after now now' now'' reading answer c s h hs hosts usage session)
      ∙ ap (λ b. if b then none else some (h ∷ hs)) fresh in
    get_redirect_order at r after
    ∙ or_else-some (answer_at (at 0) (session_id r) after.session) _ (h ∷ hs) found
