-- ===== src/Transport/Balance/Rotation.antt =====
-- The list of connections (src/transport/connection_list.rs) and the order that the groups read it
-- in, from an index on and round to the element before it.
use native.Mathlib.Nat.{mod-eq_of_lt, mod-eq-sub-mod}
use rest_diameter_bridge.Base.{
  ℕ, zero, suc, ◌+◌, ◌-◌, ◌%◌, ◌<◌, ◌≤◌, ◌≡◌, refl, Bool, List, [], ◌∷◌, ◌++◌, Option, none, some,
  get_elem?, length, take, drop, arith, ap, ◌∙◌, if◌then◌else◌, length-append, sym, inl, inr,
  length-drop, drop_append_le, ◌⊎◌,
}

side : (m n : ℕ) → (m < n) ⊎ (n ≤ m)
side m n = omega arith

module _ {ℓ} {A : Type ℓ} where
  -- `add_connection` and, with `same` for `Arc::ptr_eq`, `remove_connection`.
  unfoldable pub push_connection : A → List A → List A
  push_connection a xs = xs ++ (a ∷ [])

  unfoldable pub retain_other : (A → A → Bool) → A → List A → List A
  retain_other same a [] = []
  retain_other same a (x ∷ xs) =
      if same x a then retain_other same a xs else x ∷ retain_other same a xs

  abbrev pub cons_some : Option A → List A → List A
  cons_some none xs = xs
  cons_some (some x) xs = x ∷ xs

  -- `for i in 0..n { connections.push(conn_list[(index + i) % n]) }`, from `i` on with `k` to go.
  unfoldable pub rotate_from : List A → ℕ → ℕ → ℕ → List A
  rotate_from xs index zero i = []
  rotate_from xs index (suc k) i =
      cons_some (get_elem? xs ((index + i) % length xs)) (rotate_from xs index k (suc i))

  -- The list with the part before an index moved behind.
  abbrev pub rotation : ℕ → List A → List A
  rotation i xs = drop i xs ++ take i xs

  take-drop-suc :
      (ys : List A) (m k : ℕ)
      → m < length ys
      → take (suc k) (drop m ys) ≡ cons_some (get_elem? ys m) (take k (drop (suc m) ys))
  take-drop-suc [] m k h = ground arith
  take-drop-suc (y ∷ ys) zero k h = refl
  take-drop-suc (y ∷ ys) (suc m) k h = take-drop-suc ys m k (omega arith)

  get_append_left :
      (xs ys : List A) (m : ℕ) → m < length xs → get_elem? (xs ++ ys) m ≡ get_elem? xs m
  get_append_left [] ys m h = ground arith
  get_append_left (x ∷ xs) ys zero h = refl
  get_append_left (x ∷ xs) ys (suc m) h = get_append_left xs ys m (omega arith)

  get_append_right :
      (xs ys : List A) (m j : ℕ) → j ≡ length xs + m → get_elem? (xs ++ ys) j ≡ get_elem? ys m
  get_append_right [] ys m j e = ap (get_elem? ys) (omega (arith, e))
  get_append_right (x ∷ xs) ys m zero e = ground arith
  get_append_right (x ∷ xs) ys m (suc j) e = get_append_right xs ys m j (omega arith)

  take_append_add :
      (xs ys : List A) (n k : ℕ) → n ≡ length xs + k → take n (xs ++ ys) ≡ xs ++ take k ys
  take_append_add [] ys n k e = ap (λ j. take j ys) (omega (arith, e))
  take_append_add (x ∷ xs) ys zero k e = ground arith
  take_append_add (x ∷ xs) ys (suc n) k e =
      ap (λ t. x ∷ t) (take_append_add xs ys n k (omega arith))

  -- Round the list is the list twice.
  get_mod :
      (xs : List A) (m : ℕ)
      → m < length xs + length xs
      → get_elem? xs (m % length xs) ≡ get_elem? (xs ++ xs) m
  get_mod xs m h = elim (side m (length xs)) [
    | inl l ↦ ap (get_elem? xs) (mod-eq_of_lt l) ∙ sym (get_append_left xs xs m l)
    | inr g ↦
        ap (get_elem? xs) (mod-eq-sub-mod g ∙ mod-eq_of_lt (omega arith))
        ∙ sym (get_append_right xs xs (m - length xs) m (omega arith))
  ]

  rotate_from_lem :
      (xs : List A) (index k i : ℕ)
      → index + i + k ≤ length xs + length xs
      → rotate_from xs index k i ≡ take k (drop (index + i) (xs ++ xs))
  unfolding rotate_from
  rotate_from_lem xs index zero i h = refl
  rotate_from_lem xs index (suc k) i h =
      ap (λ o. cons_some o (rotate_from xs index k (suc i))) (get_mod xs (index + i) (omega arith))
      ∙ ap (cons_some (get_elem? (xs ++ xs) (index + i))) (
          rotate_from_lem xs index k (suc i) (omega arith)
          ∙ ap (λ m. take k (drop m (xs ++ xs))) {y = suc (index + i)} (omega arith))
      ∙ sym (take-drop-suc (xs ++ xs) (index + i) k (omega (arith, length-append xs xs)))

  pub rotate_from-rotation :
      (xs : List A) (i : ℕ) → i < length xs → rotate_from xs i (length xs) 0 ≡ rotation i xs
  rotate_from-rotation xs i h =
      rotate_from_lem xs i (length xs) 0 (omega arith)
      ∙ ap (λ m. take (length xs) (drop m (xs ++ xs))) {y = i} (omega arith)
      ∙ ap (take (length xs)) (drop_append_le i xs xs (omega arith))
      ∙ take_append_add (drop i xs) xs (length xs) i (omega (arith, length-drop i xs))

  pub get_in : (xs : List A) (i : ℕ) → i < length xs → (a : A) × (get_elem? xs i ≡ some a)
  get_in [] i h = ground arith
  get_in (x ∷ xs) zero h = (x, refl)
  get_in (x ∷ xs) (suc i) h = get_in xs i (omega arith)
