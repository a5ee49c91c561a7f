-- ===== src/Transport/Underlying.antt =====
-- `get_underlying_connections` of src/transport/connection.rs. The children of a container are what
-- its `get_connections` lists when it is asked; a container is asked once, since it is in one
-- place of the tree.
use mathlib.Core.List.{reverse, reverse-append}
use rest_diameter_bridge.Base.{
  ℕ, zero, suc, ◌≡◌, refl, Option, none, some, List, [], ◌∷◌, ◌++◌, append_assoc, append-nil, ap,
  ◌∙◌, sym, ◌+◌, arith, ◌<◌, ◌≢◌,
}

mutual
  pub data Node (A : Type 0) : Type 0 where
    peer : A → Node A
    container : Nodes A → Node A

  pub data Nodes (A : Type 0) : Type 0 where
    nil : Nodes A
    cons : Node A → Nodes A → Nodes A

-- `Vec::pop`: the end and the rest.
abbrev pop_behind {ℓ} : {B : Type ℓ} → B → Option (B × List B) → Option (B × List B)
pop_behind x none = some (x, [])
pop_behind x (some (y, ys)) = some (y, x ∷ ys)

unfoldable pub pop {ℓ} : {B : Type ℓ} → List B → Option (B × List B)
pop [] = none
pop (x ∷ xs) = pop_behind x (pop xs)

pop_behind-some {ℓ} : {B : Type ℓ} (x : B) (o : Option (B × List B)) → pop_behind x o ≢ none
pop_behind-some x none h = absurd (cc h)
pop_behind-some x (some (y, ys)) h = absurd (cc h)

pop-none {ℓ} : {B : Type ℓ} (xs : List B) → pop xs ≡ none → xs ≡ []
unfolding pop
pop-none [] h = refl
pop-none (x ∷ xs) h = absurd (pop_behind-some x (pop xs) h)

pop_behind-parts {ℓ} :
    {B : Type ℓ} (x : B) (xs : List B) (y : B) (ys : List B) (o : Option (B × List B))
    → pop xs ≡ o
    → ((z : B) (zs : List B) → pop xs ≡ some (z, zs) → xs ≡ zs ++ (z ∷ []))
    → pop_behind x o ≡ some (y, ys)
    → x ∷ xs ≡ ys ++ (y ∷ [])
pop_behind-parts x xs y ys none e ih h = let short = pop-none xs e in cc (short, h)
pop_behind-parts x xs y ys (some (z, zs)) e ih h = let whole = ih z zs e in cc (whole, h)

pop-parts {ℓ} :
    {B : Type ℓ} (xs : List B) (y : B) (ys : List B) → pop xs ≡ some (y, ys) → xs ≡ ys ++ (y ∷ [])
unfolding pop
pop-parts [] y ys h = absurd (cc h)
pop-parts (x ∷ xs) y ys h = pop_behind-parts x xs y ys (pop xs) refl (pop-parts xs) h

module _ {A : Type 0} where
  abbrev pub listed : Nodes A → List (Node A)
  listed nil = []
  listed (cons n ns) = n ∷ listed ns

  abbrev step :
      (List (Node A) → List A → Option (List A))
      → List A
      → Option (Node A × List (Node A))
      → Option (List A)
  step again connections none = some connections
  step again connections (some (peer a, checking)) = again checking (connections ++ (a ∷ []))
  step again connections (some (container ns, checking)) = again (checking ++ listed ns) connections

  -- The `loop`, on fuel for its rounds.
  unfoldable pub check_from : ℕ → List (Node A) → List A → Option (List A)
  check_from zero checking connections = none
  check_from (suc fuel) checking connections = step (check_from fuel) connections (pop checking)

  unfoldable pub get_underlying_connections : ℕ → Node A → Option (List A)
  get_underlying_connections fuel n = check_from fuel (n ∷ []) []

  abbrev mutual
    pub leaves : Node A → List A
    leaves (peer a) = a ∷ []
    leaves (container ns) = all_leaves ns

    pub all_leaves : Nodes A → List A
    all_leaves nil = []
    all_leaves (cons n ns) = leaves n ++ all_leaves ns

  -- The number of nodes.
  abbrev mutual
    pub size : Node A → ℕ
    size (peer a) = 1
    size (container ns) = suc (all_size ns)

    pub all_size : Nodes A → ℕ
    all_size nil = 0
    all_size (cons n ns) = size n + all_size ns

  abbrev list_leaves : List (Node A) → List A
  list_leaves [] = []
  list_leaves (n ∷ ns) = leaves n ++ list_leaves ns

  abbrev list_size : List (Node A) → ℕ
  list_size [] = 0
  list_size (n ∷ ns) = size n + list_size ns

  listed_leaves : (ns : Nodes A) → list_leaves (listed ns) ≡ all_leaves ns
  listed_leaves nil = refl
  listed_leaves (cons n ns) = ap (λ r. leaves n ++ r) (listed_leaves ns)

  listed_size : (ns : Nodes A) → list_size (listed ns) ≡ all_size ns
  listed_size nil = refl
  listed_size (cons n ns) = ap (λ r. size n + r) (listed_size ns)

  list_leaves-append :
      (xs ys : List (Node A)) → list_leaves (xs ++ ys) ≡ list_leaves xs ++ list_leaves ys
  list_leaves-append [] ys = refl
  list_leaves-append (x ∷ xs) ys =
      ap (λ r. leaves x ++ r) (list_leaves-append xs ys)
      ∙ sym (append_assoc (leaves x) (list_leaves xs) (list_leaves ys))

  list_size-append : (xs ys : List (Node A)) → list_size (xs ++ ys) ≡ list_size xs + list_size ys
  list_size-append [] ys = omega arith
  list_size-append (x ∷ xs) ys = omega (arith, list_size-append xs ys)

  -- A list is its rest and its end.
  end_leaves :
      (checking rest : List (Node A)) (n : Node A)
      → checking ≡ rest ++ (n ∷ [])
      → list_leaves checking ≡ list_leaves rest ++ leaves n
  end_leaves checking rest n e =
      ap list_leaves e
      ∙ list_leaves-append rest (n ∷ [])
      ∙ ap (λ r. list_leaves rest ++ r) (append-nil (leaves n))

  end_size :
      (checking rest : List (Node A)) (n : Node A)
      → checking ≡ rest ++ (n ∷ [])
      → list_size checking ≡ list_size rest + size n
  end_size checking rest n e =
      let whole = ap list_size e in
      let sum = list_size-append rest (n ∷ []) in omega (arith, whole, sum)

  check_step :
      (fuel : ℕ) (checking : List (Node A)) (connections : List A)
      (o : Option (Node A × List (Node A)))
      → pop checking ≡ o
      → list_size checking < suc fuel
      → ((rest : List (Node A)) (found : List A)
          → list_size rest < fuel
          → check_from fuel rest found ≡ some (found ++ reverse (list_leaves rest)))
      → step (check_from fuel) connections o ≡ some (connections ++ reverse (list_leaves checking))
  check_step fuel checking connections none e short ih = ap some (
      sym (append-nil connections)
      ∙ ap (λ c. connections ++ reverse (list_leaves c)) (sym (pop-none checking e)))
  check_step fuel checking connections (some (peer a, rest)) e short ih =
      let whole = pop-parts checking (peer a) rest e in
      let count = end_size checking rest (peer a) whole in
      ih rest (connections ++ (a ∷ [])) (omega (arith, count, short))
      ∙ ap some (
          append_assoc connections (a ∷ []) (reverse (list_leaves rest))
          ∙ ap (λ r. connections ++ r)
              (sym (reverse-append (list_leaves rest) (a ∷ []))
                ∙ ap reverse (sym (end_leaves checking rest (peer a) whole))))
  check_step fuel checking connections (some (container ns, rest)) e short ih =
      let whole = pop-parts checking (container ns) rest e in
      let count = end_size checking rest (container ns) whole in
      let sum = list_size-append rest (listed ns) in
      let inner = listed_size ns in
      ih (rest ++ listed ns) connections (omega (arith, count, short, sum, inner))
      ∙ ap (λ r. some (connections ++ reverse r))
          (list_leaves-append rest (listed ns)
            ∙ ap (λ r. list_leaves rest ++ r) (listed_leaves ns)
            ∙ sym (end_leaves checking rest (container ns) whole))

  check_from-reverse :
      (fuel : ℕ) (checking : List (Node A)) (connections : List A)
      → list_size checking < fuel
      → check_from fuel checking connections ≡ some (connections ++ reverse (list_leaves checking))
  unfolding check_from
  check_from-reverse zero checking connections short = absurd (omega (arith, short))
  check_from-reverse (suc fuel) checking connections short =
      check_step fuel checking connections (pop checking) refl short (check_from-reverse fuel)

-- With more fuel than nodes, get_underlying_connections gives exactly the leaves of the tree of
-- connections, in the reverse of the order in which its containers list them.
pub get_underlying_connections-reverse :
    {A : Type 0} (fuel : ℕ) (n : Node A)
    → size n < fuel
    → get_underlying_connections fuel n ≡ some (reverse (leaves n))
unfolding get_underlying_connections
get_underlying_connections-reverse fuel n short =
    check_from-reverse fuel (n ∷ []) [] (omega (arith, short))
    ∙ ap (λ r. some (reverse r)) (append-nil (leaves n))
