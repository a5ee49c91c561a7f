-- ===== src/Stack/Listen.antt =====
-- `ListenAddress` and `ListenParameters` of src/stack.rs, on ASCII text.
pub mod Written
use rest_diameter_bridge.Routing.Strategy.{starts_with, trim}
use rest_diameter_bridge.Base.Map.{Map, empty_map, insert, text_key}
use rest_diameter_bridge.Base.Text.{Text, text, text_eq}
use rest_diameter_bridge.Base.{
  ℕ, zero, suc, Bool, Option, none, some, List, [], ◌∷◌, if◌then◌else◌, ◌==◌, ltb, leb, ◌+◌, ◌-◌,
  ◌*◌, ◌&&◌,
}

abbrev pub cons_head : ℕ → List Text → List Text
cons_head c [] = (c ∷ []) ∷ []
cons_head c (s ∷ ss) = (c ∷ s) ∷ ss

-- `split` at a character, and at `://`; `skip` counts the rest of a separator.
unfoldable pub split : ℕ → Text → List Text
split d [] = [] ∷ []
split d (c ∷ cs) = let rest = split d cs in if c == d then [] ∷ rest else cons_head c rest

unfoldable pub split_scheme : ℕ → Text → List Text
split_scheme skip [] = [] ∷ []
split_scheme (suc skip) (c ∷ cs) = split_scheme skip cs
split_scheme zero (c ∷ cs) =
    let behind = split_scheme 2 cs in
    let rest = split_scheme 0 cs in
    if starts_with (text "://") (c ∷ cs) then [] ∷ behind else cons_head c rest

-- `rsplitn(2, ':')`: what is before and behind the last colon.
abbrev pub before_last : ℕ → Text → Option (Text × Text) → Option (Text × Text)
before_last c cs (some (before, behind)) = some (c ∷ before, behind)
before_last c cs none = if c == b':' then some ([], cs) else none

unfoldable pub rsplit_colon : Text → Option (Text × Text)
rsplit_colon [] = none
rsplit_colon (c ∷ cs) = before_last c cs (rsplit_colon cs)

-- `parse::<u16>`: digits, perhaps behind a plus, with the overflow found at each digit.
unfoldable pub is_digit : ℕ → Bool
is_digit c = leb b'0' c && leb c b'9'

unfoldable pub digits_from : ℕ → Text → Option ℕ
digits_from n [] = some n
digits_from n (c ∷ cs) =
    let m = n * 10 + (c - b'0') in
    let rest = digits_from m cs in if is_digit c && ltb m 65536 then rest else none

abbrev pub some_digits : Text → Option ℕ
some_digits [] = none
some_digits (c ∷ cs) = digits_from 0 (c ∷ cs)

unfoldable pub parse_u16 : Text → Option ℕ
parse_u16 [] = none
parse_u16 (c ∷ cs) = if c == b'+' then some_digits cs else some_digits (c ∷ cs)

abbrev pub ListenParameters : Type 0
ListenParameters = Map Text Text

abbrev pub insert_pair : List Text → ListenParameters → ListenParameters
insert_pair (key ∷ value ∷ []) m = insert key value m
insert_pair [] m = m
insert_pair (key ∷ []) m = m
insert_pair (key ∷ value ∷ more ∷ rest) m = m

abbrev pub insert_params : List Text → ListenParameters → ListenParameters
insert_params [] m = m
insert_params (param ∷ params) m = insert_params params (insert_pair (split b'=' param) m)

unfoldable pub parameters_from_str : Text → ListenParameters
parameters_from_str s = insert_params (split b'&' s) empty_map

pub record ListenAddress : Type 0 where
  pub protocol : Text
  pub hosts : List Text
  pub port : ℕ
  pub parameters : Option ListenParameters

-- The two error strings.
pub data Parsed : Type 0 where
  invalid_format invalid_port : Parsed
  parsed : ListenAddress → Parsed

abbrev pub trim_all : List Text → List Text
trim_all [] = []
trim_all (s ∷ ss) = trim s ∷ trim_all ss

abbrev pub with_port : Text → Text → Option ListenParameters → Option ℕ → Parsed
with_port protocol hosts parameters none = invalid_port
with_port protocol hosts parameters (some port) = parsed (record {
  protocol = protocol;
  hosts = trim_all (split b',' hosts);
  port = port;
  parameters = parameters;
})

abbrev pub with_hosts : Text → Option ListenParameters → Option (Text × Text) → Parsed
with_hosts protocol parameters none = invalid_format
with_hosts protocol parameters (some (hosts, port)) =
    with_port protocol hosts parameters (parse_u16 port)

abbrev pub with_scheme : Option ListenParameters → List Text → Parsed
with_scheme parameters (protocol ∷ rest ∷ []) = with_hosts protocol parameters (rsplit_colon rest)
with_scheme parameters [] = invalid_format
with_scheme parameters (protocol ∷ []) = invalid_format
with_scheme parameters (protocol ∷ rest ∷ more ∷ others) = invalid_format

-- What is behind a second question mark is dropped.
abbrev pub with_parts : List Text → Parsed
with_parts [] = invalid_format
with_parts (main ∷ []) = with_scheme none (split_scheme 0 main)
with_parts (main ∷ query ∷ rest) =
    with_scheme (some (parameters_from_str query)) (split_scheme 0 main)

unfoldable pub from_str : Text → Parsed
from_str address = with_parts (split b'?' address)
