-- ===== src/Transport/Redirect.antt =====
-- src/transport/redirect_host_manager.rs: the redirects that answers announced, by session, realm,
-- application, host and user. Instants are nanoseconds; the readings of the clock that an operation
-- makes are its arguments, and a `retain` is given a reading for each key.
pub mod Laws
pub mod Lifetime
use rest_diameter_bridge.Base.Decimal.{to_decimal}
use rest_diameter_bridge.Avp.Codes.{
  dont_cache, all_session, all_realm, realm_and_application, all_application, all_host, all_user,
}
use rest_diameter_bridge.Transport.HopByHop.{seconds}
use rest_diameter_bridge.Avp.Defs.{map_option, and_then, as_unsigned32}
use rest_diameter_bridge.Base.Text.{Text}
use rest_diameter_bridge.Avp.Codes.{RedirectHostUsage, dont_cache}
use rest_diameter_bridge.Base.Map.{Map, empty_map, insert, remove, retain, text_key}
use rest_diameter_bridge.Command.Defs.{
  Command, get_destination_realm, get_redirect_host_usage, get_text, texts_of, get_avps,
  get_destination_host, get_avp,
}
use rest_diameter_bridge.Base.{
  ltb, leb, if◌then◌else◌, ℕ, zero, suc, ◌+◌, ◌/◌, ◌%◌, Bool, false, not, Option, none, some, List,
  [], ◌∷◌, ◌++◌,
}

pub record RedirectEntry : Type 0 where
  pub hosts : List Text
  pub expires_at : Option ℕ

unfoldable pub is_expired : ℕ → RedirectEntry → Bool
is_expired now e = elim e.expires_at [ none ↦ false | some t ↦ leb t now ]

pub record RedirectCaches : Type 0 where
  pub session : Map Text RedirectEntry
  pub realm : Map Text RedirectEntry
  pub realm_app : Map Text RedirectEntry
  pub application : Map Text RedirectEntry
  pub host : Map Text RedirectEntry
  pub user : Map Text RedirectEntry
  pub next_cleanup_time : ℕ
  pub clean_interval : ℕ

unfoldable pub new_caches : ℕ → RedirectCaches
new_caches now = record {
  session = empty_map;
  realm = empty_map;
  realm_app = empty_map;
  application = empty_map;
  host = empty_map;
  user = empty_map;
  next_cleanup_time = now + seconds 30;
  clean_interval = seconds 30;
}

abbrev pub keep_fresh : (Text → ℕ) → Map Text RedirectEntry → Map Text RedirectEntry
keep_fresh reading = retain (λ k e. not (is_expired (reading k) e))

-- `remove_expired` reads the clock for its test and again for the next time.
unfoldable pub remove_expired : ℕ → ℕ → (Text → ℕ) → RedirectCaches → RedirectCaches
remove_expired now now' reading c = if ltb now c.next_cleanup_time then c else record {
  session = keep_fresh reading c.session;
  realm = keep_fresh reading c.realm;
  realm_app = keep_fresh reading c.realm_app;
  application = keep_fresh reading c.application;
  host = keep_fresh reading c.host;
  user = keep_fresh reading c.user;
  next_cleanup_time = now' + c.clean_interval;
  clean_interval = c.clean_interval;
}

-- `format!("{}:{}", realm, app_id)`.
unfoldable pub realm_app_key : Text → ℕ → Text
realm_app_key realm app_id = realm ++ (b':' ∷ to_decimal app_id)

abbrev pub insert_at : Option Text → RedirectEntry → Map Text RedirectEntry → Map Text RedirectEntry
insert_at none entry m = m
insert_at (some key) entry m = insert key entry m

-- `a.get_avp(code).and_then(|a| a.as_utf8_string())` for Session-Id and User-Name.
abbrev pub session_id : Command → Option Text
session_id c = get_text 263 c

abbrev pub user_name : Command → Option Text
user_name c = get_text 1 c

-- The insertion of `add_redirect`, by the usage.
unfoldable pub insert_redirect :
    RedirectHostUsage → RedirectEntry → Command → RedirectCaches → RedirectCaches
insert_redirect all_session entry answer c = record c {
  session = insert_at (session_id answer) entry c.session;
}
insert_redirect all_realm entry answer c = record c {
  realm = insert_at (get_destination_realm answer) entry c.realm;
}
insert_redirect realm_and_application entry answer c = record c {
  realm_app =
      insert_at
        (map_option (λ r. realm_app_key r answer.application_id) (get_destination_realm answer))
        entry c.realm_app;
}
insert_redirect all_application entry answer c = record c {
  application = insert (to_decimal answer.application_id) entry c.application;
}
insert_redirect all_host entry answer c = record c {
  host = insert_at (get_destination_host answer) entry c.host;
}
insert_redirect all_user entry answer c = record c {
  user = insert_at (user_name answer) entry c.user;
}
insert_redirect dont_cache entry answer c = c

abbrev pub usage_or_default : Option RedirectHostUsage → RedirectHostUsage
usage_or_default none = dont_cache
usage_or_default (some u) = u

-- The lifetime of Redirect-Max-Cache-Time, code 262.
abbrev pub lifetime : ℕ → Command → Option ℕ
lifetime now answer =
    map_option (λ s. now + seconds s) (and_then (get_avp answer 262) as_unsigned32)

abbrev pub cache_hosts : List Text → ℕ → Command → RedirectCaches → RedirectCaches
cache_hosts [] now answer c = c
cache_hosts (h ∷ hs) now answer c =
    insert_redirect (usage_or_default (get_redirect_host_usage answer))
      (record { hosts = h ∷ hs; expires_at = lifetime now answer }) answer c

unfoldable pub add_redirect : ℕ → ℕ → (Text → ℕ) → ℕ → Command → RedirectCaches → RedirectCaches
add_redirect now now' reading now'' answer c =
    cache_hosts (texts_of (get_avps answer 292)) now'' answer (remove_expired now now' reading c)

-- `lookup_in`: the hosts, and the map without an entry that was found expired.
abbrev found_in :
    ℕ
    → Text
    → Option RedirectEntry
    → Map Text RedirectEntry
    → Option (List Text) × Map Text RedirectEntry
found_in now key none m = (none, m)
found_in now key (some e) m = if is_expired now e then (none, remove key m) else (some e.hosts, m)

unfoldable pub lookup_in :
    ℕ → Text → Map Text RedirectEntry → Option (List Text) × Map Text RedirectEntry
lookup_in now key m = found_in now key (m key) m

-- A cache is asked only if the request has its key.
abbrev pub ask :
    ℕ → Option Text → Map Text RedirectEntry → Option (List Text) × Map Text RedirectEntry
ask now none m = (none, m)
ask now (some key) m = lookup_in now key m

abbrev pub or_next :
    {A : Type 0} → Option (List Text) × A → (A → Option (List Text) × A) → Option (List Text) × A
or_next (some hosts, c) next = (some hosts, c)
or_next (none, c) next = next c

abbrev pub store : {A B : Type 0} → Option (List Text) × A → (A → B) → Option (List Text) × B
store (found, m) put = (found, put m)

abbrev pub realm_key : Command → Option Text
realm_key r = map_option (λ t. realm_app_key t r.application_id) (get_destination_realm r)

-- `get_redirect`: session, realm and application, realm, application, host, user, the first that
-- answers, here from the last to the first. A reading of the clock for each lookup is the argument.
abbrev pub from_user : (ℕ → ℕ) → Command → RedirectCaches → Option (List Text) × RedirectCaches
from_user at r c = store (ask (at 5) (user_name r) c.user) (λ m. record c { user = m })

abbrev pub from_host : (ℕ → ℕ) → Command → RedirectCaches → Option (List Text) × RedirectCaches
from_host at r c =
    or_next (store (ask (at 4) (get_destination_host r) c.host) (λ m. record c { host = m }))
      (from_user at r)

abbrev pub from_application :
    (ℕ → ℕ) → Command → RedirectCaches → Option (List Text) × RedirectCaches
from_application at r c =
    or_next
      (store (ask (at 3) (some (to_decimal r.application_id)) c.application)
        (λ m. record c { application = m }))
      (from_host at r)

abbrev pub from_realm : (ℕ → ℕ) → Command → RedirectCaches → Option (List Text) × RedirectCaches
from_realm at r c =
    or_next (store (ask (at 2) (get_destination_realm r) c.realm) (λ m. record c { realm = m }))
      (from_application at r)

abbrev pub from_realm_app : (ℕ → ℕ) → Command → RedirectCaches → Option (List Text) × RedirectCaches
from_realm_app at r c =
    or_next (store (ask (at 1) (realm_key r) c.realm_app) (λ m. record c { realm_app = m }))
      (from_realm at r)

unfoldable pub get_redirect :
    (ℕ → ℕ) → Command → RedirectCaches → Option (List Text) × RedirectCaches
get_redirect at r c =
    or_next (store (ask (at 0) (session_id r) c.session) (λ m. record c { session = m }))
      (from_realm_app at r)
