-- ===== src/Command/Response.antt =====
-- `Command::create_response`: the answer that a request gets.
use rest_diameter_bridge.Base.Bits.{top_bit, clear_top_bit}
use rest_diameter_bridge.Command.Fields.{get_avp-set_text_ne, get_text-set_text}
use mathlib.Core.Path.{subst}
use rest_diameter_bridge.Base.Text.{Text, string_from_utf8, is_utf8}
use rest_diameter_bridge.Avp.Defs.{Avp, as_utf8_string, and_then, avp}
use rest_diameter_bridge.Base.{
  ◌==◌, Bool-cases, ℕ, ◌≡◌, refl, inl, inr, true, false, Option, none, some, [], ◌%◌, ◌<◌, ap, ◌∙◌,
  arith,
}
use Prim.Native.Nat.{bit_and}
use rest_diameter_bridge.Command.Defs.{
  Command, create_response, get_avp, find_avp, get_origin_host, get_text, set_text,
  get_origin_realm, set_if, get_destination_host, get_destination_realm, is_answer, set_origin_host,
  set_origin_realm,
}

utf8_of_some : (bs s : Text) → string_from_utf8 bs ≡ some s → is_utf8 s ≡ true
unfolding string_from_utf8
utf8_of_some bs s h = elim (Bool-cases (is_utf8 bs)) [
  | inl e ↦ subst (λ t. is_utf8 t ≡ true) (cc (rw e at h)) e
  | inr e ↦ absurd (cc (rw e at h))
]

utf8_of_avp : (a : Avp) (s : Text) → as_utf8_string a ≡ some s → is_utf8 s ≡ true
unfolding as_utf8_string
utf8_of_avp (avp c f v none subs) s h = absurd (cc h)
utf8_of_avp (avp c f v (some d) subs) s h = utf8_of_some d s h

utf8_of_option : (o : Option Avp) (s : Text) → and_then o as_utf8_string ≡ some s → is_utf8 s ≡ true
utf8_of_option none s h = absurd (cc h)
utf8_of_option (some a) s h = utf8_of_avp a s h

-- A text that is read from a command is well formed.
pub get_text-utf8 : (n : ℕ) (c : Command) (s : Text) → get_text n c ≡ some s → is_utf8 s ≡ true
get_text-utf8 n c s h = utf8_of_option (get_avp c n) s h

-- What is read by code `n` and then set, or not, under the code `m`.
set_if_read :
    (m : ℕ) (set : Command → Text → Command) (c : Command) (o : Option Text)
    → ((value : Text) → set c value ≡ set_text m c value)
    → ((s : Text) → o ≡ some s → is_utf8 s ≡ true)
    → get_text m c ≡ none
    → get_text m (set_if set c o) ≡ o
set_if_read m set c none same ok_text e = e
set_if_read m set c (some s) same ok_text e = rw (same s) (get_text-set_text m c s (ok_text s refl))

set_if_other :
    (n m : ℕ) (set : Command → Text → Command) (c : Command) (o : Option Text)
    → ((value : Text) → set c value ≡ set_text m c value)
    → (n == m) ≡ false
    → get_avp (set_if set c o) n ≡ get_avp c n
set_if_other n m set c none same ne = refl
set_if_other n m set c (some s) same ne = rw (same s) (get_avp-set_text_ne m n c s ne)

abbrev empty_answer : Command → Command
empty_answer r = record r { command_flags = bit_and r.command_flags 0x7f; avps = [] }

get_text-empty : (n : ℕ) (r : Command) → get_text n (empty_answer r) ≡ none
unfolding get_avp find_avp
get_text-empty n r = refl

-- The origin host and realm of an answer are the destination host and realm of the request where
-- it names them, and absent where it does not.
pub create_response_origin :
    (r : Command)
    → (get_origin_host (create_response r) ≡ get_destination_host r)
      × (get_origin_realm (create_response r) ≡ get_destination_realm r)
unfolding create_response get_origin_host get_origin_realm get_destination_host
    get_destination_realm set_origin_host set_origin_realm
create_response_origin r =
    let empty = empty_answer r in
    let host = get_text 293 r in
    let realm = get_text 283 r in
    let with_host = set_if set_origin_host empty host in
    (
      ap (λ a. and_then a as_utf8_string)
            (set_if_other 264 296 set_origin_realm with_host realm (λ v. refl) refl)
          ∙ set_if_read 264 set_origin_host empty host (λ v. refl) (get_text-utf8 293 r)
              (get_text-empty 264 r),
      set_if_read 296 set_origin_realm with_host realm (λ v. refl) (get_text-utf8 283 r)
          (ap (λ a. and_then a as_utf8_string)
              (set_if_other 296 264 set_origin_host empty host (λ v. refl) refl)
            ∙ get_text-empty 296 r),
    )

-- The header of an answer to a request.
pub record Answers (r a : Command) : Type 0 where
  pub same_code : a.command_code ≡ r.command_code
  pub same_application : a.application_id ≡ r.application_id
  pub same_hop_by_hop : a.hop_by_hop_id ≡ r.hop_by_hop_id
  pub same_end_to_end : a.end_to_end_id ≡ r.end_to_end_id
  pub other_flags : a.command_flags ≡ r.command_flags % 128

set_if-Answers :
    (m : ℕ) (set : Command → Text → Command) (r c : Command) (o : Option Text)
    → ((value : Text) → set c value ≡ set_text m c value)
    → Answers r c
    → Answers r (set_if set c o)
set_if-Answers m set r c none same h = h
set_if-Answers m set r c (some s) same h = rw (same s) (record {
  same_code = h.same_code;
  same_application = h.same_application;
  same_hop_by_hop = h.same_hop_by_hop;
  same_end_to_end = h.same_end_to_end;
  other_flags = h.other_flags;
})

-- The answer to a request with an octet of flags has the code, the application and both
-- identifiers of the request, and its flags without the request bit.
pub create_response-Answers : (r : Command) → r.command_flags < 256 → Answers r (create_response r)
unfolding create_response set_origin_host set_origin_realm
create_response-Answers r h =
    set_if-Answers 296 set_origin_realm r _ _ (λ v. refl)
      (set_if-Answers 264 set_origin_host r (empty_answer r) _ (λ v. refl)
        (record {
          same_code = refl;
          same_application = refl;
          same_hop_by_hop = refl;
          same_end_to_end = refl;
          other_flags = clear_top_bit r.command_flags h;
        }))

-- An answer is no request.
pub create_response-is_answer :
    (r : Command) → r.command_flags < 256 → is_answer (create_response r) ≡ true
unfolding is_answer
create_response-is_answer r h =
    rw (create_response-Answers r h).other_flags
      (rw (top_bit (r.command_flags % 128) (omega arith)) (ground arith))
