-- ===== src/Transport/Handler/First.antt =====
-- Which service answers a request, and with which identifiers.
use rest_diameter_bridge.Transport.Handler.{
  RequestProcessor, Posted, unusable, invalid, body, matches, flags_or, adopt, posted_of,
  send_request, or_next, first_answer, handle_command,
}
use mathlib.Core.Path.{subst}
use Prim.Native.Nat.{bit_and}
use rest_diameter_bridge.Command.Defs.{
  Command, is_request, create_response, set_result_code, set_if, set_origin_host, set_origin_realm,
  get_destination_host, get_destination_realm,
}
use rest_diameter_bridge.Base.Text.{Text}
use rest_diameter_bridge.Base.{
  ℕ, Bool, Option, none, some, List, [], ◌∷◌, ◌==◌, if◌then◌else◌, ◌≡◌, refl, ap, ◌∙◌, ◌⊎◌, inl,
  inr, true, false, ◌++◌,
}

abbrev pub SameIds : Command → Command → Type 0
SameIds r a = (a.hop_by_hop_id ≡ r.hop_by_hop_id) × (a.end_to_end_id ≡ r.end_to_end_id)

host-SameIds :
    (r a : Command) (o : Option Text) → SameIds r a → SameIds r (set_if set_origin_host a o)
unfolding set_origin_host
host-SameIds r a none h = h
host-SameIds r a (some v) h = h

realm-SameIds :
    (r a : Command) (o : Option Text) → SameIds r a → SameIds r (set_if set_origin_realm a o)
unfolding set_origin_realm
realm-SameIds r a none h = h
realm-SameIds r a (some v) h = h

adopt-SameIds : (r : Command) (flags : Option ℕ) (a : Command) → SameIds r (adopt r flags a)
unfolding adopt
adopt-SameIds r flags a =
    host-SameIds r _ (get_destination_host r)
      (realm-SameIds r _ (get_destination_realm r) (placed (r.application_id == 0)))
  where
    named : Command
    named = record a {
      hop_by_hop_id = r.hop_by_hop_id;
      end_to_end_id = r.end_to_end_id;
      command_flags = bit_and (flags_or flags r.command_flags) 0x7f;
    }

    placed :
        (b : Bool)
        → SameIds r (if b then named else record named { application_id = r.application_id })
    placed true = (refl, refl)
    placed false = (refl, refl)

response-SameIds : (r : Command) → SameIds r (set_result_code (create_response r) 3002)
unfolding set_result_code create_response
response-SameIds r =
    realm-SameIds r _ (get_destination_realm r)
      (host-SameIds r _ (get_destination_host r) (refl, refl))

some_back : (x y : Command) → some x ≡ some y → x ≡ y
some_back x y h = cc h

posted_of-SameIds :
    (r a : Command) (rest : Option Command) (o : Posted)
    → (rest ≡ some a → SameIds r a)
    → posted_of r rest o ≡ some a
    → SameIds r a
posted_of-SameIds r a rest unusable ih h = ih h
posted_of-SameIds r a rest invalid ih h = absurd (cc h)
posted_of-SameIds r a rest (body flags c) ih h =
    subst (SameIds r) (some_back (adopt r flags c) a h) (adopt-SameIds r flags c)

send_request-SameIds :
    (post : Text → Posted) (r a : Command) (urls : List Text)
    → send_request post r urls ≡ some a
    → SameIds r a
unfolding send_request
send_request-SameIds post r a [] h =
    subst (SameIds r) (some_back (set_result_code (create_response r) 3002) a h)
      (response-SameIds r)
send_request-SameIds post r a (url ∷ urls) h =
    posted_of-SameIds r a (send_request post r urls) (post url) (send_request-SameIds post r a urls)
      h

-- Processors that do not match, or whose answer is refused.
abbrev pub Pass : (RequestProcessor → Text → Posted) → Command → List RequestProcessor → Type 0
Pass post c [] = Unit
Pass post c (p ∷ ps) =
    ((matches p c ≡ false) ⊎ (send_request (post p) c p.urls ≡ none)) × Pass post c ps

first_answer-Pass :
    (post : RequestProcessor → Text → Posted) (c : Command) (before after : List RequestProcessor)
    → Pass post c before
    → first_answer post c (before ++ after) ≡ first_answer post c after
first_answer-Pass post c [] after h = refl
first_answer-Pass post c (p ∷ before) after (h, hs) =
    let ih = first_answer-Pass post c before after hs in
    elim h [
      | inl other ↦
          ap
            (λ b.
              if b
              then or_next (send_request (post p) c p.urls) (first_answer post c (before ++ after))
              else first_answer post c (before ++ after))
            other
          ∙ ih
      | inr refused ↦
          ap
            (λ o.
              if matches p c
              then or_next o (first_answer post c (before ++ after))
              else first_answer post c (before ++ after))
            refused
          ∙ same (matches p c) (first_answer post c (before ++ after))
          ∙ ih
    ]
  where
    same : (b : Bool) (x : Option (Option Command)) → (if b then x else x) ≡ x
    same true x = refl
    same false x = refl

-- If the processors before one do not match a request or have an error, and that one matches and
-- its URLs lead to an answer, handle_command gives that answer, and it has both identifiers of
-- the request.
pub handle_command-first :
    (post : RequestProcessor → Text → Posted) (c a : Command) (before after : List RequestProcessor)
    → (p : RequestProcessor) → is_request c ≡ true
    → Pass post c before
    → matches p c ≡ true
    → send_request (post p) c p.urls ≡ some a
    → (handle_command post (before ++ (p ∷ after)) c ≡ some (some a)) × SameIds c a
unfolding handle_command
handle_command-first post c a before after p r skipped match h = (
  ap (λ b. if b then first_answer post c (before ++ (p ∷ after)) else some none) r
      ∙ first_answer-Pass post c before (p ∷ after) skipped
      ∙ ap
          (λ b.
            if b
            then or_next (send_request (post p) c p.urls) (first_answer post c after)
            else first_answer post c after)
          match
      ∙ ap (λ o. or_next o (first_answer post c after)) h,
  send_request-SameIds (post p) c a p.urls h,
)
