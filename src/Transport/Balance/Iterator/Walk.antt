-- ===== src/Transport/Balance/Iterator/Walk.antt =====
-- What a walk with a `ConnectionIterator` meets: the leaves of the connections in rotation.
use mathlib.Core.Path.{subst}
use native.Mathlib.Nat.{mod-mod, mod-add-mod, mod-lt}
use rest_diameter_bridge.Transport.Balance.Rotation.{
  cons_some, rotate_from, rotation, rotate_from-rotation, get_in,
}
use rest_diameter_bridge.Transport.Balance.Iterator.{
  ConnectionIterator, new_iterator, get_next, skip, enter, visit, loop_from, resume, next, collect,
  push_next, or_nil, leaves, all_leaves,
}
use rest_diameter_bridge.Base.{
  ℕ, zero, suc, ◌+◌, ◌%◌, ◌<◌, ◌≤◌, ◌≡◌, refl, Bool, List, [], ◌∷◌, ◌++◌, Option, none, some,
  length, get_elem?, Bool-cases, inl, inr, arith, ap, ◌∙◌, sym, le→leb, leb-eq-false,
}

-- The connections that `get_next` gives one after another.
unfoldable pub step_walk {ℓ} : {A : Type ℓ} → List A → ℕ → ℕ → List A
step_walk xs zero i = []
step_walk xs (suc k) i =
    cons_some (get_elem? xs (i % length xs)) (step_walk xs k ((i + 1) % length xs))

pub step_walk-rotate_from {ℓ} :
    {A : Type ℓ} (xs : List A) (i k j m : ℕ)
    → m % length xs ≡ (i + j) % length xs
    → step_walk xs k m ≡ rotate_from xs i k j
unfolding step_walk rotate_from
step_walk-rotate_from xs i zero j m e = refl
step_walk-rotate_from xs i (suc k) j m e =
    ap (λ p. cons_some (get_elem? xs p) (step_walk xs k ((m + 1) % length xs))) e
    ∙ ap (cons_some (get_elem? xs ((i + j) % length xs))) (
        step_walk-rotate_from xs i k (suc j) ((m + 1) % length xs) (
          mod-mod (m + 1) (length xs)
          ∙ sym (mod-add-mod m (length xs) 1)
          ∙ ap (λ p. (p + 1) % length xs) e
          ∙ mod-add-mod (i + j) (length xs) 1
          ∙ ap (λ p. p % length xs) {y = i + suc j} (omega arith)))

get_next_lem {ℓ} :
    {A : Type ℓ} (xs : List A) (i : ℕ)
    → 0 < length xs
    → get_next xs i ≡ (get_elem? xs (i % length xs), (i + 1) % length xs)
unfolding get_next
get_next_lem [] i p = absurd (omega (arith, p))
get_next_lem (x ∷ xs) i p = refl

module _ {ℓ} {A : Type ℓ} (is_container : A → Bool) (iter : A → Option (List A)) (xs : List A) where
  abbrev ahead : ℕ → ℕ → List A
  ahead k i = all_leaves is_container iter (step_walk xs k i)

  abbrev at : ℕ → Option (List A) → ℕ → ConnectionIterator A
  at i s t = record { connections = xs; index = i; sub_iter = s; tried_times = t }

  -- `k` connections are still to be tried behind the one whose iterator is open, and `l` is what
  -- is left to be met.
  abbrev ToGo : Option (List A) → ℕ → ℕ → ℕ → List A → Type ℓ
  ToGo none i t k l = (t + k ≡ length xs) × (l ≡ ahead k i)
  ToGo (some s) i t k l = (t + suc k ≡ length xs) × (l ≡ s ++ ahead k i)

  abbrev Inv : ConnectionIterator A → List A → Type ℓ
  Inv it l = (k : ℕ) × (it.connections ≡ xs) × ToGo it.sub_iter it.index it.tried_times k l

  -- The result of a call is the head of what is left.
  abbrev Step : Option A × ConnectionIterator A → List A → Type ℓ
  Step (none, it) l = l ≡ []
  Step (some x, it) l = (rest : List A) × (l ≡ x ∷ rest) × Inv it rest

  ahead-zero : (i : ℕ) → ahead 0 i ≡ []
  unfolding step_walk all_leaves
  ahead-zero i = refl

  Step-skip :
      (loop : ConnectionIterator A → Option A × ConnectionIterator A) (s : Option (List A))
      → (i t k : ℕ) → t + suc k ≡ length xs
      → (0 < k → Step (loop (at i none (t + 1))) (ahead k i))
      → Step (skip is_container iter (at i s t) loop) (ahead k i)
  Step-skip loop s i t zero e h = rw (le→leb (length xs) (t + 1) (omega (arith, e))) (ahead-zero i)
  Step-skip loop s i t (suc k) e h =
      rw (leb-eq-false (length xs) (t + 1) (omega (arith, e))) (h (omega arith))

  Step-enter :
      (loop : ConnectionIterator A → Option A × ConnectionIterator A) (o : Option (List A))
      → (i t k : ℕ) → t + suc k ≡ length xs
      → (0 < k → Step (loop (at i none (t + 1))) (ahead k i))
      → Step
          (enter is_container iter o (at i none t) loop)
          (or_nil is_container iter o ++ ahead k i)
  Step-enter loop none i t k e h = Step-skip loop none i t k e h
  Step-enter loop (some []) i t k e h = Step-skip loop none i t k e h
  Step-enter loop (some (x ∷ ys)) i t k e h = (ys ++ ahead k i, refl, (k, refl, (e, refl)))

  Step-visit :
      (loop : ConnectionIterator A → Option A × ConnectionIterator A) (c : A)
      → (i t k : ℕ) → t + suc k ≡ length xs
      → (0 < k → Step (loop (at i none (t + 1))) (ahead k i))
      → Step
          (visit is_container iter (some c) (at i none t) loop)
          (leaves is_container iter c ++ ahead k i)
  unfolding leaves
  Step-visit loop c i t k e h = elim (Bool-cases (is_container c)) [
    | inl y ↦ rw y (Step-enter loop (iter c) i t k e h)
    | inr n ↦ rw n (ahead k i, refl, (k, refl, (omega (arith, e), refl)))
  ]

  ahead-suc :
      (k i : ℕ)
      → 0 < length xs
      → (c : A) × (get_elem? xs (i % length xs) ≡ some c)
        × (ahead (suc k) i ≡ leaves is_container iter c ++ ahead k ((i + 1) % length xs))
  unfolding step_walk all_leaves
  ahead-suc k i p =
      let (c, e) = get_in xs (i % length xs) (mod-lt i p) in
      (
        c,
        e,
        ap (λ o. all_leaves is_container iter (cons_some o (step_walk xs k ((i + 1) % length xs))))
            e,
      )

  Step-loop_from :
      (fuel i t k : ℕ)
      → t + k ≡ length xs
      → 0 < k
      → k ≤ fuel
      → Step (loop_from is_container iter fuel (at i none t)) (ahead k i)
  unfolding loop_from
  Step-loop_from zero i t k e p h = absurd (omega (arith, p, h))
  Step-loop_from (suc fuel) i t zero e p h = absurd (omega (arith, p))
  Step-loop_from (suc fuel) i t (suc k) e p h =
      let n : 0 < length xs = omega (arith, e) in
      let (c, at_c, split) = ahead-suc k i n in
      rw (get_next_lem xs i n, at_c, split)
        (Step-visit (loop_from is_container iter fuel) c ((i + 1) % length xs) t k e (λ q.
          Step-loop_from fuel ((i + 1) % length xs) (t + 1) k (omega (arith, e)) q
            (omega (arith, h))))

  Step-resume :
      (s : Option (List A)) (i t k : ℕ) (l : List A)
      → t < length xs
      → ToGo s i t k l
      → Step (resume is_container iter s (at i s t)) l
  Step-resume none i t k l p h =
      subst (Step (loop_from is_container iter (length xs) (at i none t))) (sym h.1)
        (Step-loop_from (length xs) i t k h.0 (omega (arith, h.0, p)) (omega (arith, h.0)))
  Step-resume (some []) i t k l p h =
      subst
        (Step (
          skip is_container iter (at i (some []) t)
            (λ counted. loop_from is_container iter (length xs) counted)))
        (sym h.1)
        (Step-skip (λ counted. loop_from is_container iter (length xs) counted) (some []) i t k h.0
          (λ q. Step-loop_from (length xs) i (t + 1) k (omega (arith, h.0)) q (omega (arith, h.0))))
  Step-resume (some (x ∷ ys)) i t k l p h = (ys ++ ahead k i, h.1, (k, refl, (h.0, refl)))

  next_before :
      (s : Option (List A)) (i t k : ℕ) (l : List A)
      → t < length xs
      → ToGo s i t k l
      → Step (next is_container iter (at i s t)) l
  unfolding next
  next_before s i t k l p h = rw (leb-eq-false (length xs) t p) (Step-resume s i t k l p h)

  Step-next-at :
      (s : Option (List A)) (i t k : ℕ) (l : List A)
      → ToGo s i t k l
      → Step (next is_container iter (at i s t)) l
  unfolding next
  Step-next-at none i t zero l h =
      rw (le→leb (length xs) t (omega (arith, h.0))) (h.1 ∙ ahead-zero i)
  Step-next-at none i t (suc k) l h = next_before none i t (suc k) l (omega (arith, h.0)) h
  Step-next-at (some ys) i t k l h = next_before (some ys) i t k l (omega (arith, h.0)) h

  Step-next :
      (it : ConnectionIterator A) (l : List A) → Inv it l → Step (next is_container iter it) l
  Step-next it l (k, same, h) =
      subst (λ c. Step (next is_container iter (record it { connections = c })) l) (sym same)
        (Step-next-at it.sub_iter it.index it.tried_times k l h)

  collected :
      (fuel : ℕ) (l : List A)
      → length l < suc fuel
      → ((it : ConnectionIterator A) (rest : List A)
          → length rest < fuel
          → Inv it rest
          → collect is_container iter fuel it ≡ rest)
      → (r : Option A × ConnectionIterator A) → Step r l
      → push_next is_container iter r (collect is_container iter fuel) ≡ l
  collected fuel l h ih (none, it) e = sym e
  collected fuel l h ih (some x, it) (rest, e, inv) =
      ap (λ ys. x ∷ ys) (ih it rest (omega (arith, h, ap length e)) inv) ∙ sym e

  collect_lem :
      (fuel : ℕ) (it : ConnectionIterator A) (l : List A)
      → length l < fuel
      → Inv it l
      → collect is_container iter fuel it ≡ l
  unfolding collect
  collect_lem zero it l h inv = absurd (omega (arith, h))
  collect_lem (suc fuel) it l h inv =
      collected fuel l h (collect_lem fuel) (next is_container iter it) (Step-next it l inv)

  -- Walking a list of connections from an index within it, with more fuel than there are leaves,
  -- meets exactly the leaves of the connections, each container opened, from the index on and
  -- round to the one before it.
  pub collect-rotation :
      (fuel i : ℕ)
      → i < length xs
      → length (all_leaves is_container iter (rotation i xs)) < fuel
      → collect is_container iter fuel (new_iterator xs i)
        ≡ all_leaves is_container iter (rotation i xs)
  unfolding new_iterator
  collect-rotation fuel i p h =
      let walk : step_walk xs (length xs) i ≡ rotation i xs =
        step_walk-rotate_from xs i (length xs) 0 i
          (ap (λ m. m % length xs) {y = i + 0} (omega arith))
        ∙ rotate_from-rotation xs i p in
      collect_lem fuel (at i none 0) (all_leaves is_container iter (rotation i xs)) h
        (length xs, refl, (omega arith, ap (all_leaves is_container iter) (sym walk)))
