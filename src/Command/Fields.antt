-- ===== src/Command/Fields.antt =====
-- The AVPs of a command that are set and asked for by code.
use rest_diameter_bridge.Base.Bytes.{IsU32, u32_to_be_bytes, u32_be_round}
use rest_diameter_bridge.Avp.Codes.{mandatory_flag}
use rest_diameter_bridge.Avp.Scalars.{
  code-new, payload-new, as_utf8_string-set_utf8_string, as_unsigned32-set_unsigned32,
}
use rest_diameter_bridge.Base.Text.{Text, is_utf8, string_from_utf8-some}
use rest_diameter_bridge.Base.{
  ◌==◌, if◌then◌else◌, ℕ, ◌≡◌, Option, none, some, List, [], ◌∷◌, arith, true, ==_self, refl, ap,
  false,
}
use rest_diameter_bridge.Command.Defs.{
  find_avp, upsert, get_avp, Command, set_text, get_text, get_result_code, set_result_code,
}
use rest_diameter_bridge.Avp.Defs.{
  Avp, code, as_utf8_string, from_utf8_string, set_unsigned32, set_utf8_string, avp,
  from_unsigned32, as_unsigned32,
}

-- An update that keeps the code of what it updates.
abbrev pub KeepsCode : (Avp → Avp) → Type 0
KeepsCode update = (a : Avp) → code (update a) ≡ code a

-- The AVP that an upsert leaves in place: the updated first one, or the fresh one.
abbrev upserted : (Avp → Avp) → Avp → Option Avp → Avp
upserted update fresh none = fresh
upserted update fresh (some a) = update a

-- After an upsert that keeps the code, with a fresh AVP of that code, the first AVP of the code
-- is the updated one, or the fresh one if there was none, and the first AVP of every other code
-- is the one that was there.
pub find_avp-upsert :
    (n m : ℕ) (update : Avp → Avp) (fresh : Avp) (avps : List Avp)
    → KeepsCode update
    → code fresh ≡ n
    → find_avp m (upsert n update fresh avps)
      ≡ (if m == n then some (upserted update fresh (find_avp n avps)) else find_avp m avps)
unfolding find_avp upsert
find_avp-upsert n m update fresh [] k e = ground arith
find_avp-upsert n m update fresh (a ∷ rest) k e =
    ground (arith, k a, find_avp-upsert n m update fresh rest k e)

set_utf8_string-KeepsCode : (value : Text) → KeepsCode (λ a. set_utf8_string a value)
unfolding set_utf8_string
set_utf8_string-KeepsCode value (avp c f v d s) = refl

set_unsigned32-KeepsCode : (n : ℕ) → KeepsCode (λ a. set_unsigned32 a n)
unfolding set_unsigned32
set_unsigned32-KeepsCode n (avp c f v d s) = refl

pub code-from_utf8_string : (n f : ℕ) (value : Text) → code (from_utf8_string n f none value) ≡ n
unfolding from_utf8_string
code-from_utf8_string n f value = code-new n f none value

pub as_utf8_string-from_utf8_string :
    (n f : ℕ) (value : Text)
    → is_utf8 value ≡ true
    → as_utf8_string (from_utf8_string n f none value) ≡ some value
unfolding from_utf8_string as_utf8_string
as_utf8_string-from_utf8_string n f value h =
    rw (payload-new n f none value) (string_from_utf8-some value h)

upserted_text :
    (n : ℕ) (value : Text) (found : Option Avp)
    → is_utf8 value ≡ true
    → as_utf8_string (
        upserted
          (λ a. set_utf8_string a value)
          (from_utf8_string n mandatory_flag none value)
          found)
      ≡ some value
upserted_text n value none h = as_utf8_string-from_utf8_string n mandatory_flag value h
upserted_text n value (some a) h = as_utf8_string-set_utf8_string a value h

-- What `get_avp` finds after a text was set.
pub get_avp-set_text :
    (n m : ℕ) (c : Command) (value : Text)
    → get_avp (set_text n c value) m ≡ (
        if m == n
        then some (
            upserted
              (λ a. set_utf8_string a value)
              (from_utf8_string n mandatory_flag none value)
              (get_avp c n))
        else get_avp c m)
unfolding get_avp
get_avp-set_text n m c value =
    find_avp-upsert n m (λ a. set_utf8_string a value)
      (from_utf8_string n mandatory_flag none value) c.avps (set_utf8_string-KeepsCode value)
      (code-from_utf8_string n mandatory_flag value)

-- A text of well-formed UTF-8 that was set under a code is read back under that code.
pub get_text-set_text :
    (n : ℕ) (c : Command) (value : Text)
    → is_utf8 value ≡ true
    → get_text n (set_text n c value) ≡ some value
get_text-set_text n c value h =
    rw (get_avp-set_text n n c value) (rw (==_self n) (upserted_text n value (get_avp c n) h))

pub get_avp-set_text_ne :
    (n m : ℕ) (c : Command) (value : Text)
    → (m == n) ≡ false
    → get_avp (set_text n c value) m ≡ get_avp c m
get_avp-set_text_ne n m c value h = rw (get_avp-set_text n m c value) (rw h)

-- A 32-bit result code that was set is read back.
pub get_result_code-set_result_code :
    (c : Command) (n : ℕ) → IsU32 n → get_result_code (set_result_code c n) ≡ some n
unfolding get_result_code set_result_code get_avp
get_result_code-set_result_code c n h =
    rw
      (find_avp-upsert 268 268 (λ a. set_unsigned32 a n) (from_unsigned32 268 mandatory_flag none n)
        c.avps (set_unsigned32-KeepsCode n) (fresh_code n))
      (stored (find_avp 268 c.avps))
  where
    fresh_code : (k : ℕ) → code (from_unsigned32 268 mandatory_flag none k) ≡ 268
    fresh_code k = unfold from_unsigned32 in code-new 268 mandatory_flag none _

    stored :
        (o : Option Avp)
        → as_unsigned32
            (upserted (λ a. set_unsigned32 a n) (from_unsigned32 268 mandatory_flag none n) o)
          ≡ some n
    stored (some a) = as_unsigned32-set_unsigned32 a n h
    stored none =
        unfold from_unsigned32 as_unsigned32 in
        rw (payload-new 268 mandatory_flag none (u32_to_be_bytes n)) (ap some (u32_be_round n h))
