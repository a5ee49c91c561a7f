-- ===== src/Transport/Answers.antt =====
-- src/transport/answer_manager.rs: the answers that sent requests wait for, by hop-by-hop id.
-- Instants are nanoseconds, and the readings of the clock are arguments. `tokio::sync::Notify` is
-- a parameter with its documented behaviour: a permit that `notify_one` left lets the next
-- `notified` through and is used up by it.
pub mod Laws
pub mod Kept
use rest_diameter_bridge.Command.Defs.{Command}
use rest_diameter_bridge.Transport.HopByHop.{seconds}
use rest_diameter_bridge.Base.Text.{Text}
use rest_diameter_bridge.Base.Map.{Map, empty_map, insert, retain, nat_key}
use rest_diameter_bridge.Base.{ℕ, ◌≡◌, ◌+◌, Option, none, some, Bool, not, ltb, if◌then◌else◌}

pub record Notify (N : Type 0) : Type 0 where
  pub new_notify : N
  pub notify_one : N → N
  -- `none` while there is no permit to wait for.
  pub notified : N → Option N
  pub notified-new_notify : notified new_notify ≡ none
  pub notified-notify_one : notified (notify_one new_notify) ≡ some new_notify

pub record AnswerInfo (N : Type 0) : Type 0 where
  pub connection_id : Text
  pub answer_host : Text
  pub answer_realm : Text
  pub notify : N
  pub answer : Option Command
  pub timeout : ℕ

pub record AnswerManager (N : Type 0) : Type 0 where
  pub map : Map ℕ (AnswerInfo N)
  pub next_cleanup_time : ℕ

-- A wait ends at once without an entry, goes on, or wakes with what the entry holds.
pub data Wait : Type 0 where
  absent : Wait
  waiting : Wait
  woken : Option Command → Wait

module _ {N : Type 0} where
  unfoldable pub new_answers : ℕ → AnswerManager N
  new_answers now = record { map = empty_map; next_cleanup_time = now + seconds 30 }

  -- `AnswerInfo::is_expired`.
  unfoldable pub is_expired : ℕ → AnswerInfo N → Bool
  is_expired now info = ltb info.timeout now

  -- `clean_expired_entries`, with the clock's reading for each entry.
  unfoldable pub clean_expired_entries : ℕ → (ℕ → ℕ) → AnswerManager N → AnswerManager N
  clean_expired_entries now reading m = if ltb now m.next_cleanup_time then m else record {
    map = retain (λ id info. not (is_expired (reading id) info)) m.map;
    next_cleanup_time = now + seconds 30;
  }

  abbrev pub origin_of : AnswerInfo N → Text × Text × Text
  origin_of info = (info.connection_id, info.answer_host, info.answer_realm)

module _ {N : Type 0} (s : Notify N) where
  abbrev pub new_info : Text → Text → Text → ℕ → AnswerInfo N
  new_info connection_id host realm timeout = record {
    connection_id = connection_id;
    answer_host = host;
    answer_realm = realm;
    notify = s.new_notify;
    answer = none;
    timeout = timeout;
  }

  unfoldable pub prepare_for_answer :
      ℕ → (ℕ → ℕ) → ℕ → ℕ → Text → Text → Text → AnswerManager N → AnswerManager N
  prepare_for_answer now reading now' id connection_id host realm m =
      let cleaned = clean_expired_entries now reading m in
      record cleaned {
        map = insert id (new_info connection_id host realm (now' + seconds 60)) cleaned.map;
      }

  -- `set_answer`.
  unfoldable pub set_answer : Command → AnswerInfo N → AnswerInfo N
  set_answer answer info = record info { answer = some answer; notify = s.notify_one info.notify }

  abbrev pub received :
      Command
      → Option (AnswerInfo N)
      → AnswerManager N
      → Option (Text × Text × Text) × AnswerManager N
  received answer none m = (none, m)
  received answer (some info) m = (
    some (origin_of info),
    record m { map = insert answer.hop_by_hop_id (set_answer answer info) m.map },
  )

  unfoldable pub answer_received :
      Command → AnswerManager N → Option (Text × Text × Text) × AnswerManager N
  answer_received answer m = received answer (m.map answer.hop_by_hop_id) m

  abbrev pub wake : ℕ → AnswerInfo N → Option N → AnswerManager N → Wait × AnswerManager N
  wake id info none m = (waiting, m)
  wake id info (some notify) m =
      (woken info.answer, record m { map = insert id (record info { notify = notify }) m.map })

  abbrev pub wait_on : ℕ → Option (AnswerInfo N) → AnswerManager N → Wait × AnswerManager N
  wait_on id none m = (absent, m)
  wait_on id (some info) m = wake id info (s.notified info.notify) m

  -- One poll of `wait_answer`. A task holds on to the entry that it found, which is the one of the
  -- map for as long as no other is put in its place and it is not cleaned away.
  unfoldable pub wait_answer : ℕ → AnswerManager N → Wait × AnswerManager N
  wait_answer id m = wait_on id (m.map id) m
