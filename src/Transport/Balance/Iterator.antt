-- ===== src/Transport/Balance/Iterator.antt =====
-- `ConnectionIterator` of src/transport/connection_list.rs. `iter` stands for the `iter` of a
-- connection: nothing for one that is no container or that has no connections, and else what its
-- iterator yields. The list of connections does not change while it is walked.
pub mod Walk
use rest_diameter_bridge.Base.{
  ℕ, zero, suc, ◌+◌, ◌%◌, Bool, List, [], ◌∷◌, ◌++◌, Option, none, some, length, get_elem?, leb,
  if◌then◌else◌,
}

pub record ConnectionIterator {ℓ} (A : Type ℓ) : Type ℓ where
  pub connections : List A
  pub index : ℕ
  pub sub_iter : Option (List A)
  pub tried_times : ℕ

module _ {ℓ} {A : Type ℓ} where
  unfoldable pub new_iterator : List A → ℕ → ConnectionIterator A
  new_iterator xs index = record {
    connections = xs;
    index = index;
    sub_iter = none;
    tried_times = 0;
  }

  -- `get_next`: the connection at the index, and the index behind it.
  unfoldable pub get_next : List A → ℕ → Option A × ℕ
  get_next [] i = (none, i)
  get_next (x ∷ xs) i = (get_elem? (x ∷ xs) (i % length (x ∷ xs)), (i + 1) % length (x ∷ xs))

module _ {ℓ} {A : Type ℓ} (is_container : A → Bool) (iter : A → Option (List A)) where
  -- A container that yields nothing is counted, and the loop goes on unless all were tried.
  abbrev pub skip :
      ConnectionIterator A
      → (ConnectionIterator A → Option A × ConnectionIterator A)
      → Option A × ConnectionIterator A
  skip it rest =
      let counted = record it { sub_iter = none; tried_times = it.tried_times + 1 } in
      if leb (length it.connections) (it.tried_times + 1) then (none, counted) else rest counted

  abbrev pub enter :
      Option (List A)
      → ConnectionIterator A
      → (ConnectionIterator A → Option A × ConnectionIterator A)
      → Option A × ConnectionIterator A
  enter none it rest = skip it rest
  enter (some []) it rest = skip it rest
  enter (some (x ∷ xs)) it rest = (some x, record it { sub_iter = some xs })

  abbrev pub visit :
      Option A
      → ConnectionIterator A
      → (ConnectionIterator A → Option A × ConnectionIterator A)
      → Option A × ConnectionIterator A
  visit none it rest = (none, it)
  visit (some c) it rest =
      if is_container c
      then enter (iter c) it rest
      else (some c, record it { tried_times = it.tried_times + 1 })

  -- The `loop` of `next` on fuel: a round counts a connection or ends it.
  unfoldable pub loop_from : ℕ → ConnectionIterator A → Option A × ConnectionIterator A
  loop_from zero it = (none, it)
  loop_from (suc fuel) it =
      let found = get_next it.connections it.index in
      visit found.0 (record it { index = found.1 }) (loop_from fuel)

  abbrev pub resume : Option (List A) → ConnectionIterator A → Option A × ConnectionIterator A
  resume none it = loop_from (length it.connections) it
  resume (some (x ∷ xs)) it = (some x, record it { sub_iter = some xs })
  resume (some []) it = skip it (λ counted. loop_from (length it.connections) counted)

  unfoldable pub next : ConnectionIterator A → Option A × ConnectionIterator A
  next it = if leb (length it.connections) it.tried_times then (none, it) else resume it.sub_iter it

  abbrev pub push_next : Option A × ConnectionIterator A → (ConnectionIterator A → List A) → List A
  push_next (none, it) rest = []
  push_next (some x, it) rest = x ∷ rest it

  -- What a `for` over the iterator goes through, on fuel.
  unfoldable pub collect : ℕ → ConnectionIterator A → List A
  collect zero it = []
  collect (suc fuel) it = push_next (next it) (collect fuel)

  -- The leaves of a connection: itself, or what its iterator yields.
  abbrev pub or_nil : Option (List A) → List A
  or_nil none = []
  or_nil (some xs) = xs

  unfoldable pub leaves : A → List A
  leaves c = if is_container c then or_nil (iter c) else c ∷ []

  unfoldable pub all_leaves : List A → List A
  all_leaves [] = []
  all_leaves (c ∷ cs) = leaves c ++ all_leaves cs
