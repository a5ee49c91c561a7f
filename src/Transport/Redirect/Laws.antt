-- ===== src/Transport/Redirect/Laws.antt =====
-- What a client sees of the redirect caches.
use rest_diameter_bridge.Base.Decimal.{to_decimal}
use rest_diameter_bridge.Base.Map.{Map}
use rest_diameter_bridge.Command.Defs.{Command, get_destination_realm, get_destination_host}
use rest_diameter_bridge.Base.Text.{Text}
use rest_diameter_bridge.Base.{
  if◌then◌else◌, ℕ, ◌≡◌, refl, Option, none, some, List, arith, ap, ◌∙◌,
}
use rest_diameter_bridge.Transport.Redirect.{
  RedirectCaches, RedirectEntry, get_redirect, lookup_in, is_expired, ask, session_id, realm_key,
  user_name, or_next, store, from_application, from_host, from_realm, from_realm_app, from_user,
}

-- The hosts that a cache gives for a key.
abbrev pub fresh_hosts : ℕ → Option RedirectEntry → Option (List Text)
fresh_hosts now none = none
fresh_hosts now (some e) = if is_expired now e then none else some e.hosts

abbrev pub answer_at : ℕ → Option Text → Map Text RedirectEntry → Option (List Text)
answer_at now none m = none
answer_at now (some key) m = fresh_hosts now (m key)

abbrev pub or_else {ℓ} : {A : Type ℓ} → Option A → Option A → Option A
or_else none b = b
or_else (some a) b = some a

ask_lem :
    (now : ℕ) (key : Option Text) (m : Map Text RedirectEntry)
    → (ask now key m).0 ≡ answer_at now key m
unfolding lookup_in
ask_lem now none m = refl
ask_lem now (some key) m = ground arith

-- One cache, and then those behind it.
stage :
    {A B : Type 0} (x : Option (List Text) × A) (put : A → B)
    → (next : B → Option (List Text) × B) (first rest : Option (List Text)) → x.0 ≡ first
    → ((m : A) → (next (put m)).0 ≡ rest)
    → (or_next (store x put) next).0 ≡ or_else first rest
stage (some hosts, m) put next first rest e h = ap (λ o. or_else o rest) e
stage (none, m) put next first rest e h = h m ∙ ap (λ o. or_else o rest) e

user_lem :
    (at : ℕ → ℕ) (r : Command) (c : RedirectCaches)
    → (from_user at r c).0 ≡ answer_at (at 5) (user_name r) c.user
user_lem at r c = ask_lem (at 5) (user_name r) c.user

host_lem :
    (at : ℕ → ℕ) (r : Command) (c : RedirectCaches)
    → (from_host at r c).0
      ≡ or_else
          (answer_at (at 4) (get_destination_host r) c.host)
          (answer_at (at 5) (user_name r) c.user)
host_lem at r c =
    stage (ask (at 4) (get_destination_host r) c.host) (λ m. record c { host = m }) (from_user at r)
      _ _ (ask_lem (at 4) (get_destination_host r) c.host)
      (λ m. user_lem at r (record c { host = m }))

application_lem :
    (at : ℕ → ℕ) (r : Command) (c : RedirectCaches)
    → (from_application at r c).0
      ≡ or_else (answer_at (at 3) (some (to_decimal r.application_id)) c.application) (
          or_else
            (answer_at (at 4) (get_destination_host r) c.host)
            (answer_at (at 5) (user_name r) c.user))
application_lem at r c =
    stage (ask (at 3) (some (to_decimal r.application_id)) c.application)
      (λ m. record c { application = m }) (from_host at r) _ _
      (ask_lem (at 3) (some (to_decimal r.application_id)) c.application)
      (λ m. host_lem at r (record c { application = m }))

realm_lem :
    (at : ℕ → ℕ) (r : Command) (c : RedirectCaches)
    → (from_realm at r c).0
      ≡ or_else (answer_at (at 2) (get_destination_realm r) c.realm) (
          or_else (answer_at (at 3) (some (to_decimal r.application_id)) c.application) (
            or_else
              (answer_at (at 4) (get_destination_host r) c.host)
              (answer_at (at 5) (user_name r) c.user)))
realm_lem at r c =
    stage (ask (at 2) (get_destination_realm r) c.realm) (λ m. record c { realm = m })
      (from_application at r) _ _ (ask_lem (at 2) (get_destination_realm r) c.realm)
      (λ m. application_lem at r (record c { realm = m }))

realm_app_lem :
    (at : ℕ → ℕ) (r : Command) (c : RedirectCaches)
    → (from_realm_app at r c).0
      ≡ or_else (answer_at (at 1) (realm_key r) c.realm_app) (
          or_else (answer_at (at 2) (get_destination_realm r) c.realm) (
            or_else (answer_at (at 3) (some (to_decimal r.application_id)) c.application) (
              or_else
                (answer_at (at 4) (get_destination_host r) c.host)
                (answer_at (at 5) (user_name r) c.user))))
realm_app_lem at r c =
    stage (ask (at 1) (realm_key r) c.realm_app) (λ m. record c { realm_app = m }) (from_realm at r)
      _ _ (ask_lem (at 1) (realm_key r) c.realm_app)
      (λ m. realm_lem at r (record c { realm_app = m }))

-- get_redirect gives the hosts of the first unexpired entry in the order session, realm with
-- application, realm, application, host, user, each looked up with the key that the request has
-- and the reading of the clock at that lookup; without one it gives nothing.
pub get_redirect_order :
    (at : ℕ → ℕ) (r : Command) (c : RedirectCaches)
    → (get_redirect at r c).0
      ≡ or_else (answer_at (at 0) (session_id r) c.session) (
          or_else (answer_at (at 1) (realm_key r) c.realm_app) (
            or_else (answer_at (at 2) (get_destination_realm r) c.realm) (
              or_else (answer_at (at 3) (some (to_decimal r.application_id)) c.application) (
                or_else
                  (answer_at (at 4) (get_destination_host r) c.host)
                  (answer_at (at 5) (user_name r) c.user)))))
unfolding get_redirect
get_redirect_order at r c =
    stage (ask (at 0) (session_id r) c.session) (λ m. record c { session = m })
      (from_realm_app at r) _ _ (ask_lem (at 0) (session_id r) c.session)
      (λ m. realm_app_lem at r (record c { session = m }))
