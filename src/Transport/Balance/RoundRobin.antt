-- ===== src/Transport/Balance/RoundRobin.antt =====
-- src/transport/roundrobin_connection.rs: the peers are tried in turn, from an index that every use
-- moves on. `accepts i c` stands for `c.send(command)` at the attempt `i`, and `is_container` and
-- `iter` for the connection's methods. The counter is a `usize` of 64 bits.
use rest_diameter_bridge.Transport.Balance.Iterator.Walk.{step_walk-rotate_from, collect-rotation}
use native.Mathlib.Nat.{mod-lt, mod-mod}
use rest_diameter_bridge.Transport.Balance.Rotation.{
  push_connection, retain_other, rotate_from, rotation, rotate_from-rotation,
}
use rest_diameter_bridge.Transport.Balance.Iterator.{
  ConnectionIterator, new_iterator, collect, all_leaves,
}
use rest_diameter_bridge.Transport.Balance.FailOver.{
  SendResult, sent, failed, no_connection, all_failed, first_accepting, ==-ne,
}
use rest_diameter_bridge.Base.{
  suc, [], ◌∷◌, false, refl, Bool-cases, inl, inr, ◌||◌, ℕ, ◌+◌, ◌%◌, ◌^◌, ◌<◌, ◌≡◌, Bool, List,
  ◌++◌, Option, none, some, length, arith, ap, ◌∙◌, sym, ◌==◌, if◌then◌else◌,
}

pub record RoundRobinConnection {ℓ} (A : Type ℓ) : Type ℓ where
  pub connections : List A
  pub index : ℕ

-- The `for` of `send`: the first connection that accepts ends it.
abbrev pub result_of : Option ℕ → SendResult
result_of none = failed all_failed
result_of (some i) = sent

module _ {ℓ} {A : Type ℓ} where
  unfoldable pub new_round_robin : List A → RoundRobinConnection A
  new_round_robin xs = record { connections = xs; index = 0 }

  unfoldable pub join : A → RoundRobinConnection A → RoundRobinConnection A
  join a g = record g { connections = push_connection a g.connections }

  unfoldable pub leave : (A → A → Bool) → A → RoundRobinConnection A → RoundRobinConnection A
  leave same a g = record g { connections = retain_other same a g.connections }

  -- `index.fetch_add(1)`.
  unfoldable pub advance : RoundRobinConnection A → RoundRobinConnection A
  advance g = record g { index = (g.index + 1) % 2 ^ 64 }

  unfoldable pub iter_of :
      RoundRobinConnection A → Option (ConnectionIterator A) × RoundRobinConnection A
  iter_of g = (
    if length g.connections == 0
        then none
        else some (new_iterator g.connections (g.index % length g.connections)),
    advance g,
  )

  -- `get_connections`, which pushes onto the caller's list.
  unfoldable pub list_connections :
      RoundRobinConnection A → List A → List A × RoundRobinConnection A
  list_connections g into =
      (into ++ rotate_from g.connections g.index (length g.connections) 0, advance g)

module _ {ℓ} {A : Type ℓ} (is_container : A → Bool) (iter : A → Option (List A)) where
  abbrev send_along : (ℕ → A → Bool) → ℕ → Option (ConnectionIterator A) → SendResult
  send_along accepts fuel none = failed no_connection
  send_along accepts fuel (some it) =
      result_of (first_accepting accepts 0 (collect is_container iter fuel it))

  -- Whether one of the leaves accepts, each at its own attempt.
  abbrev pub some_accepts : (ℕ → A → Bool) → ℕ → List A → Bool
  some_accepts accepts i [] = false
  some_accepts accepts i (c ∷ cs) = accepts i c || some_accepts accepts (suc i) cs

  -- The iterator is walked on fuel.
  unfoldable pub send_in_turn :
      (ℕ → A → Bool) → ℕ → RoundRobinConnection A → SendResult × RoundRobinConnection A
  send_in_turn accepts fuel g = let found = iter_of g in (send_along accepts fuel found.0, found.1)

  result_of-accepted :
      (accepts : ℕ → A → Bool) (i : ℕ) (cs : List A)
      → result_of (first_accepting accepts i cs)
        ≡ (if some_accepts accepts i cs then sent else failed all_failed)
  result_of-accepted accepts i [] = refl
  result_of-accepted accepts i (c ∷ cs) =
      let ih = result_of-accepted accepts (suc i) cs in
      elim (Bool-cases (accepts i c)) [
        | inl t ↦ ground (arith, ih, t)
        | inr u ↦ ground (arith, ih, u)
      ]

  -- On a group that is not empty, with more fuel than there are leaves, send succeeds if one of
  -- the leaves accepts at its own attempt, where they are tried from those of the connection at
  -- the index, modulo the number of connections, on and round, and otherwise fails after all;
  -- either way the index is moved on by one, modulo 2 ^ 64.
  pub send_in_turn-rotation :
      (accepts : ℕ → A → Bool) (fuel : ℕ) (g : RoundRobinConnection A)
      → 0 < length g.connections
      → length
          (all_leaves is_container iter (rotation (g.index % length g.connections) g.connections))
        < fuel
      → send_in_turn accepts fuel g ≡ (
        if some_accepts accepts 0 (
              all_leaves is_container iter
                (rotation (g.index % length g.connections) g.connections))
            then sent
            else failed all_failed,
        record { connections = g.connections; index = (g.index + 1) % 2 ^ 64 },
      )
  unfolding send_in_turn iter_of advance
  send_in_turn-rotation accepts fuel g p h =
      ap
        (λ b. (
          send_along accepts fuel (
              if b
              then none
              else some (new_iterator g.connections (g.index % length g.connections))),
          advance g,
        ))
        (==-ne (length g.connections) p)
      ∙ ap (λ ys. (result_of (first_accepting accepts 0 ys), advance g))
          (collect-rotation is_container iter g.connections fuel (g.index % length g.connections)
            (mod-lt g.index p) h)
      ∙ ap (λ r. (r, advance g))
          (result_of-accepted accepts 0 (
            all_leaves is_container iter (rotation (g.index % length g.connections) g.connections)))

pub list_connections-rotation {ℓ} :
    {A : Type ℓ} (g : RoundRobinConnection A) (into : List A)
    → 0 < length g.connections
    → list_connections g into
      ≡ (into ++ rotation (g.index % length g.connections) g.connections, advance g)
unfolding list_connections
list_connections-rotation g into p =
    let xs = g.connections in
    let i = g.index in
    ap (λ ys. (into ++ ys, advance g))
      (sym (
          step_walk-rotate_from xs i (length xs) 0 i
            (ap (λ m. m % length xs) {y = i + 0} (omega arith)))
        ∙ step_walk-rotate_from xs (i % length xs) (length xs) 0 i (
            sym (mod-mod i (length xs))
            ∙ ap (λ m. m % length xs) {y = i % length xs + 0} (omega arith))
        ∙ rotate_from-rotation xs (i % length xs) (mod-lt i p))
