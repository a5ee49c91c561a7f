-- ===== src/Command/Routes.antt =====
-- Route-Record AVPs: the loop detection of a node.
use rest_diameter_bridge.Command.Fields.{code-from_utf8_string, as_utf8_string-from_utf8_string}
use mathlib.Core.Path.{ap₂}
use rest_diameter_bridge.Avp.Codes.{mandatory_flag}
use rest_diameter_bridge.Avp.Defs.{Avp, from_utf8_string}
use rest_diameter_bridge.Base.Text.{Text, is_utf8, text_eq_self}
use rest_diameter_bridge.Base.{
  ◌≡◌, refl, true, false, ◌||◌, none, List, [], ◌∷◌, ◌++◌, arith, ap, ◌∙◌, append-nil,
}
use rest_diameter_bridge.Command.Defs.{
  Command, any_record_route, has_record_route, is_record_route, retain_others, add_record_route,
  remove_record_route,
}

pub any-append :
    (host : Text) (xs ys : List Avp)
    → any_record_route host (xs ++ ys) ≡ (any_record_route host xs || any_record_route host ys)
unfolding any_record_route
any-append host [] ys = refl
any-append host (x ∷ xs) ys = ground (arith, any-append host xs ys)

is_record_route-added :
    (host : Text)
    → is_utf8 host ≡ true
    → is_record_route host (from_utf8_string 282 mandatory_flag none host) ≡ true
unfolding is_record_route
is_record_route-added host h =
    rw
      (
        code-from_utf8_string 282 mandatory_flag host,
        as_utf8_string-from_utf8_string 282 mandatory_flag host h,
      )
      (text_eq_self host)

-- A host whose name is well-formed UTF-8 is found on the route after it was added.
pub has-add_record_route :
    (c : Command) (host : Text)
    → is_utf8 host ≡ true
    → has_record_route (add_record_route c host) host ≡ true
unfolding has_record_route add_record_route
has-add_record_route c host h =
    any-append host c.avps (from_utf8_string 282 mandatory_flag none host ∷ [])
    ∙ unfold any_record_route in ground (arith, is_record_route-added host h)

any-retain_others :
    (host : Text) (avps : List Avp) → any_record_route host (retain_others host avps) ≡ false
unfolding any_record_route retain_others
any-retain_others host [] = refl
any-retain_others host (a ∷ rest) = ground (arith, any-retain_others host rest)

-- A host is not found on the route after it was removed.
pub has-remove_record_route :
    (c : Command) (host : Text) → has_record_route (remove_record_route c host) host ≡ false
unfolding has_record_route remove_record_route
has-remove_record_route c host = any-retain_others host c.avps

retain_others-append :
    (host : Text) (xs ys : List Avp)
    → retain_others host (xs ++ ys) ≡ retain_others host xs ++ retain_others host ys
unfolding retain_others
retain_others-append host [] ys = refl
retain_others-append host (x ∷ xs) ys = ground (arith, retain_others-append host xs ys)

retain_others_all :
    (host : Text) (avps : List Avp)
    → any_record_route host avps ≡ false
    → retain_others host avps ≡ avps
unfolding any_record_route retain_others
retain_others_all host [] h = refl
retain_others_all host (a ∷ rest) h = ground (arith, retain_others_all host rest)

-- Where a host, whose name is well-formed UTF-8, is not on the route, adding and then removing it
-- gives the command back.
pub remove-add_record_route :
    (c : Command) (host : Text)
    → is_utf8 host ≡ true
    → has_record_route c host ≡ false
    → remove_record_route (add_record_route c host) host ≡ c
unfolding has_record_route remove_record_route add_record_route
remove-add_record_route c host h e =
    ap (λ (found : List Avp). record c { avps = found })
      (retain_others-append host c.avps (added ∷ [])
        ∙ ap₂ ◌++◌ (retain_others_all host c.avps e) (added_gone)
        ∙ append-nil c.avps)
  where
    added : Avp
    added = from_utf8_string 282 mandatory_flag none host

    added_gone : retain_others host (added ∷ []) ≡ []
    added_gone = unfold retain_others in rw (is_record_route-added host h)
