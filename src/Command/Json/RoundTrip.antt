-- ===== src/Command/Json/RoundTrip.antt =====
-- A command written to JSON and read again.
use rest_diameter_bridge.Command.Json.Shown.{shown_avps-IsFlat}
use rest_diameter_bridge.Command.Json.Header.{header_entries-Only, header_entries-Header}
use rest_diameter_bridge.Command.Json.Loop.{
  read_entries-sets, read_application-kept, read_end_to_end-kept, read_hop_by_hop-kept,
}
use rest_diameter_bridge.Avp.Json.Safety.{IsFlat}
use mathlib.Core.Path.{subst}
use rest_diameter_bridge.Command.Json.Request.{
  command_by_code_sound, is_request-command_of, read_flags-lt,
}
use rest_diameter_bridge.Command.Dictionary.Standard.{new_command_map}
use rest_diameter_bridge.Base.Bytes.{IsU32, u32}
use rest_diameter_bridge.Base.Text.{Text, text, text_eq}
use rest_diameter_bridge.Command.Json.{
  json_u32, header_entries, add_shown, from_json_value, to_json, get_command_define, shown_avps,
  from_json, read_entry, Reading, command_of, read_entries, start_reading,
}
use rest_diameter_bridge.Command.Json.Laws.{
  IsFree, IsOwnKey, Avoids, get-add_shown, NamesAvoid, shown_avps-NamesAvoid, Only-add_shown,
}
use rest_diameter_bridge.Command.Dictionary.{CommandJson, CommandMap, command_by_code}
use rest_diameter_bridge.Command.Defs.{Command, is_request}
use rest_diameter_bridge.Avp.Json.{converted, map_converted, Codecs}
use rest_diameter_bridge.Avp.Dictionary.{AvpMap}
use rest_diameter_bridge.Base.Json.{Value, Entries, object, get}
use rest_diameter_bridge.Base.{true, none, some, List, inr, ◌≡◌, refl, ap, ◌∙◌, arith, ℕ, All}

-- The keys that the header of a command has in JSON.
abbrev pub ReservesKeys : AvpMap → Type 0
ReservesKeys m =
    IsFree (text "code") m
    × IsFree (text "request") m
    × IsFree (text "application_id") m
    × IsFree (text "hop_by_hop_id") m
    × IsFree (text "end_to_end_id") m

-- With a code and no `request`, a request is sought.
get_command_define-code :
    (cm : CommandMap) (es : Entries) (n : ℕ)
    → get (text "code") es ≡ some (json_u32 n)
    → get (text "request") es ≡ none
    → get_command_define cm es ≡ command_by_code (u32 n) true cm
unfolding get_command_define
get_command_define-code cm es n e f = rw (e, f, get_command_define) refl

module _ (k : Codecs) (cm : CommandMap) (m : AvpMap) (c : Command) (ps : List (Text × Value))
    (free : ReservesKeys m) (shown : shown_avps k m c.avps ≡ converted ps) where
  abbrev written : Entries
  written = add_shown ps (header_entries cm c)

  avoids : (key : Text) → IsOwnKey key → IsFree key m → Avoids key ps
  avoids key o f = subst (NamesAvoid key) shown (shown_avps-NamesAvoid key k m c.avps o f)

  kept :
      (key : Text) → IsOwnKey key → IsFree key m → get key written ≡ get key (header_entries cm c)
  kept key o f = get-add_shown key ps (header_entries cm c) (avoids key o f)

  -- The definition of the request of that code.
  get_command_define-written :
      IsU32 c.command_code → get_command_define cm written ≡ command_by_code c.command_code true cm
  get_command_define-written h =
      let header = header_entries-Header cm c in
      get_command_define-code cm written c.command_code
        (kept (text "code") (refl, refl) free.0 ∙ header.code_there)
        (kept (text "request") (refl, refl) free.1 ∙ header.no_request)
      ∙ ap (λ n. command_by_code n true cm) (omega arith)

  read_application-written :
      (r : Reading)
      → IsU32 c.application_id
      → (read_entries k m written r).read_application ≡ c.application_id
  unfolding read_entry text_eq
  read_application-written r h =
      let own : IsOwnKey (text "application_id") = (refl, refl) in
      read_entries-sets k m (λ x. x.read_application) (text "application_id")
        (json_u32 c.application_id) c.application_id (λ x. omega arith) (read_application-kept k m)
        written r
        (Only-add_shown (text "application_id") (json_u32 c.application_id) ps (header_entries cm c)
          (avoids (text "application_id") own free.2)
          (header_entries-Only cm c (text "application_id") (json_u32 c.application_id) refl
            (λ t. absurd (cc t)) (λ t. absurd (cc t)) (λ t. refl) refl refl))
        (inr (
          kept (text "application_id") own free.2 ∙ (header_entries-Header cm c).application_there))

  read_hop_by_hop-written :
      (r : Reading)
      → IsU32 c.hop_by_hop_id
      → (read_entries k m written r).read_hop_by_hop ≡ c.hop_by_hop_id
  unfolding read_entry text_eq
  read_hop_by_hop-written r h =
      let own : IsOwnKey (text "hop_by_hop_id") = (refl, refl) in
      read_entries-sets k m (λ x. x.read_hop_by_hop) (text "hop_by_hop_id")
        (json_u32 c.hop_by_hop_id) c.hop_by_hop_id (λ x. omega arith) (read_hop_by_hop-kept k m)
        written r
        (Only-add_shown (text "hop_by_hop_id") (json_u32 c.hop_by_hop_id) ps (header_entries cm c)
          (avoids (text "hop_by_hop_id") own free.3)
          (header_entries-Only cm c (text "hop_by_hop_id") (json_u32 c.hop_by_hop_id) refl
            (λ t. absurd (cc t)) (λ t. refl) (λ t. absurd (cc t)) refl refl))
        (inr (kept (text "hop_by_hop_id") own free.3 ∙ (header_entries-Header cm c).hop_there))

  read_end_to_end-written :
      (r : Reading)
      → IsU32 c.end_to_end_id
      → (read_entries k m written r).read_end_to_end ≡ c.end_to_end_id
  unfolding read_entry text_eq
  read_end_to_end-written r h =
      let own : IsOwnKey (text "end_to_end_id") = (refl, refl) in
      read_entries-sets k m (λ x. x.read_end_to_end) (text "end_to_end_id")
        (json_u32 c.end_to_end_id) c.end_to_end_id (λ x. omega arith) (read_end_to_end-kept k m)
        written r
        (Only-add_shown (text "end_to_end_id") (json_u32 c.end_to_end_id) ps (header_entries cm c)
          (avoids (text "end_to_end_id") own free.4)
          (header_entries-Only cm c (text "end_to_end_id") (json_u32 c.end_to_end_id) refl
            (λ t. refl) (λ t. absurd (cc t)) (λ t. absurd (cc t)) refl refl))
        (inr (kept (text "end_to_end_id") own free.4 ∙ (header_entries-Header cm c).end_there))

from_json_value-some :
    (k : Codecs) (cm : CommandMap) (m : AvpMap) (es : Entries) (d : CommandJson)
    → get_command_define cm es ≡ some d
    → from_json_value k cm m (object es)
      ≡ from_json (command_of m d (read_entries k m es (start_reading d)))
unfolding from_json_value
from_json_value-some k cm m es d e = rw (e, from_json_value) refl

abbrev pub HasU32s : Command → Type 0
HasU32s c =
    IsU32 c.command_code × IsU32 c.application_id × IsU32 c.hop_by_hop_id × IsU32 c.end_to_end_id

-- If a command has 32-bit fields and its AVPs have their bytes, as those that were received have,
-- no descriptor of the AVP dictionary is named as one of the keys of the header that are read
-- back or as request, and the command dictionary, built over any definitions, has a request of
-- that code, then to_json gives an object, and from_json_value reads from it a command with the
-- same code, application and identifiers, and with the request bit, whether the command was a
-- request or an answer.
pub from_json_value-to_json :
    (k : Codecs) (ds : List CommandJson) (m : AvpMap) (c : Command) (d : CommandJson)
    → HasU32s c
    → All IsFlat c.avps
    → ReservesKeys m
    → command_by_code c.command_code true (new_command_map ds) ≡ some d
    → (es : Entries) × (b : Command) × (to_json k (new_command_map ds) m c ≡ converted (object es))
      × (from_json_value k (new_command_map ds) m (object es) ≡ from_json b)
      × (b.command_code ≡ c.command_code)
      × (b.application_id ≡ c.application_id)
      × (b.hop_by_hop_id ≡ c.hop_by_hop_id)
      × (b.end_to_end_id ≡ c.end_to_end_id)
      × (is_request b ≡ true)
unfolding to_json
from_json_value-to_json k ds m c d h flat free e =
    let cm = new_command_map ds in
    let s = shown_avps-IsFlat k m c.avps flat in
    let es = written k cm m c s.0 free s.1 in
    let found = command_by_code_sound c.command_code true ds d e in
    let r = read_entries k m es (start_reading d) in
    (
      es,
      command_of m d r,
      ap (map_converted (λ ps. object (add_shown ps (header_entries cm c)))) s.1,
      from_json_value-some k cm m es d (get_command_define-written k cm m c s.0 free s.1 h.0 ∙ e),
      found.0,
      read_application-written k cm m c s.0 free s.1 (start_reading d) h.1,
      read_hop_by_hop-written k cm m c s.0 free s.1 (start_reading d) h.2,
      read_end_to_end-written k cm m c s.0 free s.1 (start_reading d) h.3,
      is_request-command_of m d r found.1 (read_flags-lt k m es (start_reading d) (omega arith)),
    )
