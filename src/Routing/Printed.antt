-- ===== src/Routing/Printed.antt =====
-- The configuration of a tree of groups, as an operator writes it.
use rest_diameter_bridge.Routing.Strategy.{is_space, next_level, is_zero}
use rest_diameter_bridge.Routing.Tree.{
  Tree, Trees, leaf, round_robin_of, fail_over_of, random_of, nil, cons,
}
use rest_diameter_bridge.Base.Text.{Text, text, lower_byte}
use rest_diameter_bridge.Base.Int.{ℤ, pos}
use rest_diameter_bridge.Base.{
  ℕ, ◌≡◌, refl, Bool, true, false, not, ◌&&◌, ◌||◌, List, [], ◌∷◌, ◌++◌, ◌==◌, if◌then◌else◌, arith,
  suc, ap, ◌∙◌, leb,
}

unfoldable mutual
  pub print : Tree → Text
  print (leaf key) = key
  print (round_robin_of ts) = text "round-robin(" ++ (print_all ts ++ (b')' ∷ []))
  print (fail_over_of ts) = text "failover(" ++ (print_all ts ++ (b')' ∷ []))
  print (random_of ts) = text "random(" ++ (print_all ts ++ (b')' ∷ []))

  pub print_all : Trees → Text
  print_all nil = []
  print_all (cons t nil) = print t
  print_all (cons t (cons u us)) = print t ++ (b';' ∷ print_all (cons u us))

-- The printed elements.
abbrev pub prints : Trees → List Text
prints nil = []
prints (cons t ts) = print t ∷ prints ts

-- An ASCII character that stays as it is: no space, no capital.
unfoldable pub is_plain : ℕ → Bool
is_plain c = leb c 127 && not (is_space c) && lower_byte c == c

-- A character of a key.
unfoldable pub is_key : ℕ → Bool
is_key c = is_plain c && not (c == b'(' || c == b')' || c == b';')

abbrev pub all_of : (ℕ → Bool) → Text → Bool
all_of p [] = true
all_of p (c ∷ cs) = if p c then all_of p cs else false

abbrev mutual
  pub IsNamed : Tree → Type 0
  IsNamed (leaf []) = ⊥
  IsNamed (leaf (c ∷ cs)) = all_of is_key (c ∷ cs) ≡ true
  IsNamed (round_robin_of ts) = AreNamed ts
  IsNamed (fail_over_of ts) = AreNamed ts
  IsNamed (random_of ts) = AreNamed ts

  pub AreNamed : Trees → Type 0
  AreNamed nil = ⊥
  AreNamed (cons t nil) = IsNamed t
  AreNamed (cons t (cons u us)) = IsNamed t × AreNamed (cons u us)

-- The level behind a text, and whether no semicolon of it is at the outermost level.
abbrev pub level_after : Text → ℤ → ℤ
level_after [] level = level
level_after (c ∷ cs) level = level_after cs (next_level c level)

abbrev pub is_closed : Text → ℤ → Bool
is_closed [] level = true
is_closed (c ∷ cs) level =
    if is_zero (next_level c level) && c == b';' then false else is_closed cs (next_level c level)

all_of-append :
    (p : ℕ → Bool) (s t : Text) → all_of p s ≡ true → all_of p t ≡ true → all_of p (s ++ t) ≡ true
all_of-append p [] t h h' = h'
all_of-append p (c ∷ s) t h h' = let ih = all_of-append p s t in ground (arith, ih, h, h')

level_after-append : (s t : Text) (l : ℤ) → level_after (s ++ t) l ≡ level_after t (level_after s l)
level_after-append [] t l = refl
level_after-append (c ∷ s) t l = level_after-append s t (next_level c l)

is_closed-append :
    (s t : Text) (l : ℤ)
    → is_closed s l ≡ true
    → is_closed t (level_after s l) ≡ true
    → is_closed (s ++ t) l ≡ true
is_closed-append [] t l h h' = h'
is_closed-append (c ∷ s) t l h h' =
    let ih = is_closed-append s t (next_level c l) in ground (arith, ih, h, h')

-- The first character and the rest.
all_of-head : (p : ℕ → Bool) (c : ℕ) (s : Text) → all_of p (c ∷ s) ≡ true → p c ≡ true
all_of-head p c s h = ground (arith, h)

all_of-tail : (p : ℕ → Bool) (c : ℕ) (s : Text) → all_of p (c ∷ s) ≡ true → all_of p s ≡ true
all_of-tail p c s h = ground (arith, h)

pub key_char :
    (c : ℕ)
    → is_key c ≡ true
    → ((c == b'(') ≡ false) × ((c == b')') ≡ false) × ((c == b';') ≡ false)
unfolding is_key
key_char c h = ground (arith, h)

key_next : (c : ℕ) (l : ℤ) → is_key c ≡ true → next_level c l ≡ l
unfolding next_level
key_next c l h = let k = key_char c h in rw (k.0, k.1) refl

-- A key keeps the level.
key_level :
    (s : Text) (l : ℤ) → all_of is_key s ≡ true → (level_after s l ≡ l) × (is_closed s l ≡ true)
key_level [] l h = (refl, refl)
key_level (c ∷ s) l h =
    let ih = key_level s l (all_of-tail is_key c s h) in
    let k = all_of-head is_key c s h in
    rw (key_next c l k, (key_char c k).2) (ih.0, ground (arith, ih.1))

key_plain : (s : Text) → all_of is_key s ≡ true → all_of is_plain s ≡ true
unfolding is_key
key_plain [] h = refl
key_plain (c ∷ s) h = let ih = key_plain s in ground (arith, ih, h)

-- A text that comes back to the level where it starts, with no semicolon outside of it.
abbrev pub IsClosed : Text → ℤ → Type 0
IsClosed s l = (level_after s l ≡ l) × (is_closed s l ≡ true)

-- A text without a semicolon.
no_semicolon : (s : Text) (l : ℤ) → all_of (λ c. not (c == b';')) s ≡ true → is_closed s l ≡ true
no_semicolon [] l h = refl
no_semicolon (c ∷ s) l h = let ih = no_semicolon s (next_level c l) in ground (arith, ih, h)

-- A call around closed arguments.
call-IsClosed :
    (pre args : Text) (n : ℕ)
    → level_after pre (pos n) ≡ pos (suc n)
    → all_of (λ c. not (c == b';')) pre ≡ true
    → IsClosed args (pos (suc n))
    → IsClosed (pre ++ (args ++ (b')' ∷ []))) (pos n)
unfolding next_level
call-IsClosed pre args n up_one closed inner = (
  level_after-append pre (args ++ (b')' ∷ [])) (pos n)
      ∙ ap (level_after (args ++ (b')' ∷ []))) up_one
      ∙ level_after-append args (b')' ∷ []) (pos (suc n))
      ∙ ap (level_after (b')' ∷ [])) inner.0,
  is_closed-append pre (args ++ (b')' ∷ [])) (pos n) (no_semicolon pre (pos n) closed) (
      rw up_one (
        is_closed-append args (b')' ∷ []) (pos (suc n)) inner.1
          (ap (is_closed (b')' ∷ [])) inner.0 ∙ no_end n))),
)
  where
    no_end : (n : ℕ) → is_closed (b')' ∷ []) (pos (suc n)) ≡ true
    no_end n = ground arith

beside-IsClosed :
    (s t : Text) (n : ℕ)
    → IsClosed s (pos (suc n))
    → IsClosed t (pos (suc n))
    → IsClosed (s ++ (b';' ∷ t)) (pos (suc n))
unfolding next_level
beside-IsClosed s t n h h' = (
  level_after-append s (b';' ∷ t) (pos (suc n)) ∙ ap (level_after (b';' ∷ t)) h.0 ∙ h'.0,
  is_closed-append s (b';' ∷ t) (pos (suc n)) h.1 (rw h.0 h'.1),
)

mutual
  unfolding print print_all next_level

  pub print-IsClosed : (t : Tree) (n : ℕ) → IsNamed t → IsClosed (print t) (pos n)
  print-IsClosed (leaf []) n h = absurd h
  print-IsClosed (leaf (c ∷ cs)) n h = key_level (c ∷ cs) (pos n) h
  print-IsClosed (round_robin_of ts) n h =
      call-IsClosed (text "round-robin(") (print_all ts) n refl refl (print_all-IsClosed ts n h)
  print-IsClosed (fail_over_of ts) n h =
      call-IsClosed (text "failover(") (print_all ts) n refl refl (print_all-IsClosed ts n h)
  print-IsClosed (random_of ts) n h =
      call-IsClosed (text "random(") (print_all ts) n refl refl (print_all-IsClosed ts n h)

  pub print_all-IsClosed :
      (ts : Trees) (n : ℕ) → AreNamed ts → IsClosed (print_all ts) (pos (suc n))
  print_all-IsClosed nil n h = absurd h
  print_all-IsClosed (cons t nil) n h = print-IsClosed t (suc n) h
  print_all-IsClosed (cons t (cons u us)) n h =
      beside-IsClosed (print t) (print_all (cons u us)) n (print-IsClosed t (suc n) h.0)
        (print_all-IsClosed (cons u us) n h.1)

call_plain :
    (pre args : Text)
    → all_of is_plain pre ≡ true
    → all_of is_plain args ≡ true
    → all_of is_plain (pre ++ (args ++ (b')' ∷ []))) ≡ true
unfolding is_plain is_space lower_byte
call_plain pre args h h' =
    all_of-append is_plain pre (args ++ (b')' ∷ [])) h
      (all_of-append is_plain args (b')' ∷ []) h' refl)

mutual
  unfolding print print_all is_plain is_space lower_byte

  pub print_plain : (t : Tree) → IsNamed t → all_of is_plain (print t) ≡ true
  print_plain (leaf []) h = absurd h
  print_plain (leaf (c ∷ cs)) h = key_plain (c ∷ cs) h
  print_plain (round_robin_of ts) h =
      call_plain (text "round-robin(") (print_all ts) refl (print_all_plain ts h)
  print_plain (fail_over_of ts) h =
      call_plain (text "failover(") (print_all ts) refl (print_all_plain ts h)
  print_plain (random_of ts) h =
      call_plain (text "random(") (print_all ts) refl (print_all_plain ts h)

  pub print_all_plain : (ts : Trees) → AreNamed ts → all_of is_plain (print_all ts) ≡ true
  print_all_plain nil h = absurd h
  print_all_plain (cons t nil) h = print_plain t h
  print_all_plain (cons t (cons u us)) h =
      all_of-append is_plain (print t) (b';' ∷ print_all (cons u us)) (print_plain t h.0)
        (print_all_plain (cons u us) h.1)
