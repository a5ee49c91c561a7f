-- ===== src/Transport/Handler.antt =====
-- src/transport/command_handler.rs: the services that answer a request of this node. What comes of a
-- POST to a URL is a parameter: the HTTP client is reqwest, and the JSON of the body is read by serde.
use mathlib.Core.Path.{subst}
use Prim.Native.Nat.{bit_and}
pub mod First
mod Tests
use rest_diameter_bridge.Routing.Manager.{contains}
use rest_diameter_bridge.Routing.Strategy.{is_nil}
use rest_diameter_bridge.Command.Defs.{
  Command, is_request, create_response, set_result_code, set_if, set_origin_host, set_origin_realm,
  get_destination_host, get_destination_realm,
}
use rest_diameter_bridge.Base.Text.{Text}
use rest_diameter_bridge.Base.{
  ℕ, Bool, Option, none, some, List, [], ◌∷◌, ◌==◌, if◌then◌else◌, ◌||◌, ◌&&◌, ◌≡◌, refl, ap, ◌∙◌,
  ◌⊎◌, inl, inr, true, false, ◌++◌,
}

pub record RequestProcessor : Type 0 where
  pub command_codes : List ℕ
  pub application_ids : List ℕ
  pub urls : List Text

unfoldable pub matches : RequestProcessor → Command → Bool
matches p c =
    (is_nil p.command_codes || contains c.command_code p.command_codes)
    && (is_nil p.application_ids || contains c.application_id p.application_ids)

-- No usable response, a body that `create_answer` refuses, or the flags and the command of the body.
pub data Posted : Type 0 where
  unusable invalid : Posted
  body : Option ℕ → Command → Posted

abbrev pub flags_or : Option ℕ → ℕ → ℕ
flags_or none n = n
flags_or (some m) n = m

-- What `create_answer` makes of the command of the body.
unfoldable pub adopt : Command → Option ℕ → Command → Command
adopt request flags a =
    let named = record a {
      hop_by_hop_id = request.hop_by_hop_id;
      end_to_end_id = request.end_to_end_id;
      command_flags = bit_and (flags_or flags request.command_flags) 0x7f;
    } in
    let placed =
      if request.application_id == 0
      then named
      else record named { application_id = request.application_id } in
    set_if set_origin_host (set_if set_origin_realm placed (get_destination_realm request))
      (get_destination_host request)

-- `none` is an error, and `rest` stands for the URLs behind.
abbrev pub posted_of : Command → Option Command → Posted → Option Command
posted_of request rest unusable = rest
posted_of request rest invalid = none
posted_of request rest (body flags a) = some (adopt request flags a)

-- The `for` over the URLs.
unfoldable pub send_request : (Text → Posted) → Command → List Text → Option Command
send_request post request [] = some (set_result_code (create_response request) 3002)
send_request post request (url ∷ urls) =
    posted_of request (send_request post request urls) (post url)

abbrev pub or_next : Option Command → Option (Option Command) → Option (Option Command)
or_next none rest = rest
or_next (some a) rest = some (some a)

abbrev pub first_answer :
    (RequestProcessor → Text → Posted) → Command → List RequestProcessor → Option (Option Command)
first_answer post c [] = none
first_answer post c (p ∷ ps) =
    if matches p c
    then or_next (send_request (post p) c p.urls) (first_answer post c ps)
    else first_answer post c ps

unfoldable pub handle_command :
    (RequestProcessor → Text → Posted) → List RequestProcessor → Command → Option (Option Command)
handle_command post ps c = if is_request c then first_answer post c ps else some none
