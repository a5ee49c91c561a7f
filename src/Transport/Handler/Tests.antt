-- ===== src/Transport/Handler/Tests.antt =====
-- The theorem about the command handler at concrete values.
use rest_diameter_bridge.Transport.Handler.{
  RequestProcessor, Posted, unusable, body, matches, handle_command, send_request, adopt,
}
use rest_diameter_bridge.Transport.Handler.First.{SameIds, handle_command-first}
use rest_diameter_bridge.Routing.Manager.{contains}
use rest_diameter_bridge.Command.Defs.{Command, is_request}
use rest_diameter_bridge.Base.Text.{Text, text, text_eq}
use rest_diameter_bridge.Base.{◌≡◌, refl, true, false, none, some, [], ◌∷◌, if◌then◌else◌, inl}

abbrev request : Command
request = record {
  command_code = 272;
  command_flags = 0xc0;
  application_id = 4;
  hop_by_hop_id = 7;
  end_to_end_id = 8;
  avps = [];
}

abbrev from_json : Command
from_json = record request { command_flags = 0; hop_by_hop_id = 0; end_to_end_id = 0 }

abbrev other_code : RequestProcessor
other_code = record { command_codes = 280 ∷ []; application_ids = []; urls = text "a" ∷ [] }

abbrev credit : RequestProcessor
credit = record {
  command_codes = 272 ∷ [];
  application_ids = 4 ∷ [];
  urls = text "b" ∷ text "c" ∷ [];
}

-- The service at `b` is down.
abbrev services : RequestProcessor → Text → Posted
services p url = if text_eq url (text "c") then body none from_json else unusable

is_a_request : is_request request ≡ true
unfolding is_request
is_a_request = refl

other_skipped : matches other_code request ≡ false
unfolding matches contains
other_skipped = refl

credit-matches : matches credit request ≡ true
unfolding matches contains
credit-matches = refl

credit_answers :
    send_request (services credit) request credit.urls ≡ some (adopt request none from_json)
unfolding send_request text_eq
credit_answers = refl

handle_command-first_example :
    (handle_command services (other_code ∷ credit ∷ []) request
      ≡ some (some (adopt request none from_json)))
    × SameIds request (adopt request none from_json)
handle_command-first_example =
    handle_command-first services request (adopt request none from_json) (other_code ∷ []) [] credit
      is_a_request (inl other_skipped, tt) credit-matches credit_answers
