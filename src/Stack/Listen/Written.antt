-- ===== src/Stack/Listen/Written.antt =====
-- An address as an operator writes it is read as written.
use rest_diameter_bridge.Base.Map.{beq_self, nat_key}
use mathlib.Core.Path.{ap₂}
use rest_diameter_bridge.Stack.Listen.{
  split, split_scheme, rsplit_colon, cons_head, before_last, parse_u16, parameters_from_str, parsed,
  trim_all, with_port, with_hosts, with_scheme, with_parts, from_str, ListenParameters,
}
use rest_diameter_bridge.Routing.Strategy.{starts_with, trim}
use rest_diameter_bridge.Base.Text.{Text, text}
use rest_diameter_bridge.Base.{
  ℕ, ◌≡◌, refl, Bool, true, false, Option, none, some, List, [], ◌∷◌, ◌++◌, ◌==◌, ap, ◌∙◌,
  if◌then◌else◌, arith,
}

-- A text without a character.
abbrev pub free : ℕ → Text → Bool
free d [] = true
free d (c ∷ cs) = if c == d then false else free d cs

free_head : (d c : ℕ) (s : Text) → free d (c ∷ s) ≡ true → (c == d) ≡ false
free_head d c s h = ground (arith, h)

free_tail : (d c : ℕ) (s : Text) → free d (c ∷ s) ≡ true → free d s ≡ true
free_tail d c s h = ground (arith, h)

split-free : (d : ℕ) (s : Text) → free d s ≡ true → split d s ≡ s ∷ []
unfolding split
split-free d [] h = refl
split-free d (c ∷ s) h =
    ap (λ b. if b then [] ∷ split d s else cons_head c (split d s)) (free_head d c s h)
    ∙ ap (cons_head c) (split-free d s (free_tail d c s h))

split-separator :
    (d : ℕ) (s rest : Text) → free d s ≡ true → split d (s ++ (d ∷ rest)) ≡ s ∷ split d rest
unfolding split
split-separator d [] rest h =
    ap (λ b. if b then [] ∷ split d rest else cons_head d (split d rest)) (beq_self d)
split-separator d (c ∷ s) rest h =
    ap (λ b. if b then [] ∷ split d (s ++ (d ∷ rest)) else cons_head c (split d (s ++ (d ∷ rest))))
      (free_head d c s h)
    ∙ ap (cons_head c) (split-separator d s rest (free_tail d c s h))

no_scheme : (c d : ℕ) (s : Text) → (c == d) ≡ false → starts_with (d ∷ text "//") (c ∷ s) ≡ false
unfolding starts_with
no_scheme c d s h = ground (arith, h)

no_slashes : (c d : ℕ) (s : Text) → free b'/' s ≡ true → starts_with (d ∷ text "//") (c ∷ s) ≡ false
unfolding starts_with
no_slashes c d [] h = ground arith
no_slashes c d (e ∷ s) h = let first = free_head b'/' e s h in ground (arith, first)

split_scheme-free : (s : Text) → free b'/' s ≡ true → split_scheme 0 s ≡ s ∷ []
unfolding split_scheme
split_scheme-free [] h = refl
split_scheme-free (c ∷ s) h =
    ap (λ b. if b then [] ∷ split_scheme 2 s else cons_head c (split_scheme 0 s))
      (no_slashes c b':' s (free_tail b'/' c s h))
    ∙ ap (cons_head c) (split_scheme-free s (free_tail b'/' c s h))

split_scheme-separator :
    (s rest : Text)
    → free b':' s ≡ true
    → split_scheme 0 (s ++ (text "://" ++ rest)) ≡ s ∷ split_scheme 0 rest
unfolding split_scheme starts_with
split_scheme-separator [] rest h = refl
split_scheme-separator (c ∷ s) rest h =
    let behind = s ++ (text "://" ++ rest) in
    ap (λ b. if b then [] ∷ split_scheme 2 behind else cons_head c (split_scheme 0 behind))
      (no_scheme c b':' behind (free_head b':' c s h))
    ∙ ap (cons_head c) (split_scheme-separator s rest (free_tail b':' c s h))

rsplit_none : (s : Text) → free b':' s ≡ true → rsplit_colon s ≡ none
unfolding rsplit_colon
rsplit_none [] h = refl
rsplit_none (c ∷ s) h =
    ap (before_last c s) (rsplit_none s (free_tail b':' c s h))
    ∙ ap (λ b. if b then some ([], s) else none) (free_head b':' c s h)

rsplit-separator :
    (s port : Text) → free b':' port ≡ true → rsplit_colon (s ++ (b':' ∷ port)) ≡ some (s, port)
unfolding rsplit_colon
rsplit-separator [] port h = ap (before_last b':' port) (rsplit_none port h)
rsplit-separator (c ∷ s) port h =
    ap (before_last c (s ++ (b':' ∷ port))) (rsplit-separator s port h)

-- The hosts as they are written, and what a host has to be.
abbrev pub join_hosts : Text → List Text → Text
join_hosts h [] = h
join_hosts h (k ∷ hs) = h ++ (b',' ∷ join_hosts k hs)

abbrev pub IsHost : Text → Type 0
IsHost h = (free b',' h ≡ true) × (trim h ≡ h)

abbrev pub AreHosts : List Text → Type 0
AreHosts [] = Unit
AreHosts (h ∷ hs) = IsHost h × AreHosts hs

hosts_back :
    (h : Text) (hs : List Text)
    → IsHost h
    → AreHosts hs
    → trim_all (split b',' (join_hosts h hs)) ≡ h ∷ hs
hosts_back h [] is are = ap trim_all (split-free b',' h is.0) ∙ ap (λ t. t ∷ []) is.1
hosts_back h (k ∷ hs) is are =
    ap trim_all (split-separator b',' h (join_hosts k hs) is.0)
    ∙ ap₂ (λ t ts. t ∷ ts) is.1 (hosts_back k hs are.0 are.1)

-- What is written before the question mark.
abbrev pub write : Text → Text → List Text → Text → Text
write protocol h hs port = protocol ++ (text "://" ++ (join_hosts h hs ++ (b':' ∷ port)))

scheme_back :
    (protocol h : Text) (hs : List Text) (port : Text) (n : ℕ)
    (parameters : Option ListenParameters)
    → free b':' protocol ≡ true
    → IsHost h
    → AreHosts hs
    → free b':' port ≡ true
    → parse_u16 port ≡ some n
    → free b'/' (join_hosts h hs ++ (b':' ∷ port)) ≡ true
    → with_scheme parameters (split_scheme 0 (write protocol h hs port))
      ≡ parsed (record { protocol = protocol; hosts = h ∷ hs; port = n; parameters = parameters })
scheme_back protocol h hs port n parameters p is are q number slash =
    let rest = join_hosts h hs ++ (b':' ∷ port) in
    ap (with_scheme parameters) (
      split_scheme-separator protocol rest p
      ∙ ap (λ ss. protocol ∷ ss) (split_scheme-free rest slash))
    ∙ ap (with_hosts protocol parameters) (rsplit-separator (join_hosts h hs) port q)
    ∙ ap (with_port protocol (join_hosts h hs) parameters) number
    ∙ ap
        (λ hosts.
          parsed (record { protocol = protocol; hosts = hosts; port = n; parameters = parameters }))
        (hosts_back h hs is are)

-- What is written with a query or without.
abbrev pub with_query : Text → Option Text → Text
with_query main none = main
with_query main (some query) = main ++ (b'?' ∷ query)

abbrev pub read_query : Option Text → Option ListenParameters
read_query none = none
read_query (some query) = some (parameters_from_str query)

abbrev pub query_free : Option Text → Bool
query_free none = true
query_free (some query) = free b'?' query

-- An address written as a protocol, one or more hosts with commas between them, and a port, with
-- or without a query, is read as exactly these, if the protocol and the port have no colon, the
-- hosts have no comma and no blanks around them, the port is read as a number, there is no slash
-- behind the scheme, and there is no question mark but the one before the query.
pub from_str-write :
    (protocol h : Text) (hs : List Text) (port : Text) (n : ℕ) (query : Option Text)
    → free b':' protocol ≡ true
    → IsHost h
    → AreHosts hs
    → free b':' port ≡ true
    → parse_u16 port ≡ some n
    → free b'/' (join_hosts h hs ++ (b':' ∷ port)) ≡ true
    → free b'?' (write protocol h hs port) ≡ true
    → query_free query ≡ true
    → from_str (with_query (write protocol h hs port) query)
      ≡ parsed
          (record { protocol = protocol; hosts = h ∷ hs; port = n; parameters = read_query query })
unfolding from_str
from_str-write protocol h hs port n none p is are q number slash mark fine =
    ap with_parts (split-free b'?' (write protocol h hs port) mark)
    ∙ scheme_back protocol h hs port n none p is are q number slash
from_str-write protocol h hs port n (some query) p is are q number slash mark fine =
    ap with_parts (
      split-separator b'?' (write protocol h hs port) query mark
      ∙ ap (λ ss. write protocol h hs port ∷ ss) (split-free b'?' query fine))
    ∙ scheme_back protocol h hs port n (some (parameters_from_str query)) p is are q number slash
