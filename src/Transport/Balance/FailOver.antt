-- ===== src/Transport/Balance/FailOver.antt =====
-- src/transport/failover_connect.rs. `accepts i c` stands for `c.send(command)` when it is the
-- attempt `i` of a command: whether it returns `Ok`. No other task moves the index meanwhile.
use native.Mathlib.Nat.{mod-lt, mod-eq_of_lt}
use rest_diameter_bridge.Transport.Balance.Rotation.{
  push_connection, retain_other, rotate_from, rotation, rotate_from-rotation, get_in,
}
use rest_diameter_bridge.Base.{
  ℕ, zero, suc, ◌+◌, ◌%◌, ◌<◌, ◌≡◌, refl, Bool, false, List, [], ◌∷◌, Option, none, some, length,
  get_elem?, ◌==◌, if◌then◌else◌, ◌++◌, Bool-cases, inl, inr, arith, ap, ◌∙◌, take, drop,
  take-append-drop, sym, true,
}

pub record FailOverConnection {ℓ} (A : Type ℓ) : Type ℓ where
  pub connections : List A
  pub index : ℕ

-- The two error strings of `send`.
pub data SendError : Type 0 where
  no_connection : SendError
  all_failed : SendError

pub data SendResult : Type 0 where
  sent : SendResult
  failed : SendError → SendResult

pub ==-ne : (n : ℕ) → 0 < n → (n == 0) ≡ false
==-ne n h = ground arith

abbrev verdict : Bool → SendResult
verdict true = sent
verdict false = failed all_failed

verdict_lem : (b : Bool) → verdict b ≡ (if b then sent else failed all_failed)
verdict_lem true = refl
verdict_lem false = refl

or_comm : (a b : Bool) → (if a then true else b) ≡ (if b then true else a)
or_comm true true = refl
or_comm true false = refl
or_comm false true = refl
or_comm false false = refl

module _ {ℓ} {A : Type ℓ} where
  unfoldable pub new_failover : List A → FailOverConnection A
  new_failover xs = record { connections = xs; index = 0 }

  unfoldable pub add_connection : A → FailOverConnection A → FailOverConnection A
  add_connection a f = record f { connections = push_connection a f.connections }

  unfoldable pub remove_connection :
      (A → A → Bool) → A → FailOverConnection A → FailOverConnection A
  remove_connection same a f = record f { connections = retain_other same a f.connections }

  -- `connections[index]` is in range for an index taken `% n`.
  abbrev pub try_one : (A → Bool) → Option A → Bool
  try_one accepts none = false
  try_one accepts (some c) = accepts c

  -- `for i in 0..n`, from `i` on with `k` attempts left.
  unfoldable pub try_from :
      (ℕ → A → Bool) → FailOverConnection A → ℕ → ℕ → SendResult × FailOverConnection A
  try_from accepts f zero i = (failed all_failed, f)
  try_from accepts f (suc k) i =
      let n = length f.connections in
      let at = (f.index + i) % n in
      let rest = try_from accepts f k (suc i) in
      if try_one (accepts i) (get_elem? f.connections at)
      then (sent, record f { index = (at + 1) % n })
      else rest

  unfoldable pub send : (ℕ → A → Bool) → FailOverConnection A → SendResult × FailOverConnection A
  send accepts f =
      if length f.connections == 0
      then (failed no_connection, f)
      else try_from accepts f (length f.connections) 0

  -- `get_connections` pushes its list onto the caller's.
  unfoldable pub get_connections : FailOverConnection A → List A → List A
  get_connections f into =
      if length f.connections == 0
      then into
      else into ++ rotate_from f.connections f.index (length f.connections) 0

  -- The first connection of a list that accepts: how many the code tried before it.
  abbrev pub first_accepting : (ℕ → A → Bool) → ℕ → List A → Option ℕ
  first_accepting accepts i [] = none
  first_accepting accepts i (c ∷ cs) =
      if accepts i c then some i else first_accepting accepts (suc i) cs

  -- What `send` promises for the first that accepts.
  abbrev pub outcome : FailOverConnection A → Option ℕ → SendResult × FailOverConnection A
  outcome f none = (failed all_failed, f)
  outcome f (some i) =
      (sent, record f { index = ((f.index + i) % length f.connections + 1) % length f.connections })

  try_from_lem :
      (accepts : ℕ → A → Bool) (f : FailOverConnection A) (k i : ℕ)
      → 0 < length f.connections
      → try_from accepts f k i
        ≡ outcome f (first_accepting accepts i (rotate_from f.connections f.index k i))
  unfolding try_from rotate_from
  try_from_lem accepts f zero i h = refl
  try_from_lem accepts f (suc k) i h =
      let (a, e) =
        get_in f.connections ((f.index + i) % length f.connections) (mod-lt (f.index + i) h) in
      let ih = try_from_lem accepts f k (suc i) h in
      elim (Bool-cases (accepts i a)) [
        | inl t ↦ ground (arith, e, ih, t)
        | inr u ↦ ground (arith, e, ih, u)
      ]

  -- With the index within the group, send tries the connections from the index on and round to
  -- the one before it, stops at the first that accepts and leaves the index behind that one, and
  -- otherwise fails with the group unchanged.
  pub send-rotation :
      (accepts : ℕ → A → Bool) (f : FailOverConnection A)
      → f.index < length f.connections
      → send accepts f ≡ outcome f (first_accepting accepts 0 (rotation f.index f.connections))
  unfolding send
  send-rotation accepts f h =
      let lt : 0 < length f.connections = omega arith in
      ap (λ b. if b then (failed no_connection, f) else try_from accepts f (length f.connections) 0)
        (==-ne (length f.connections) lt)
      ∙ try_from_lem accepts f (length f.connections) 0 lt
      ∙ ap (λ order. outcome f (first_accepting accepts 0 order))
          (rotate_from-rotation f.connections f.index h)

  abbrev pub any : (A → Bool) → List A → Bool
  any p [] = false
  any p (x ∷ xs) = if p x then true else any p xs

  any-append :
      (p : A → Bool) (xs ys : List A) → any p (xs ++ ys) ≡ (if any p xs then true else any p ys)
  any-append p [] ys = refl
  any-append p (x ∷ xs) ys =
      let ih = any-append p xs ys in
      elim (Bool-cases (p x)) [ inl t ↦ ground (arith, ih, t) | inr u ↦ ground (arith, ih, u) ]

  any-rotation : (p : A → Bool) (i : ℕ) (xs : List A) → any p (rotation i xs) ≡ any p xs
  any-rotation p i xs =
      any-append p (drop i xs) (take i xs)
      ∙ or_comm (any p (drop i xs)) (any p (take i xs))
      ∙ sym (any-append p (take i xs) (drop i xs))
      ∙ ap (any p) (take-append-drop i xs)

  outcome-any :
      (p : A → Bool) (f : FailOverConnection A) (i : ℕ) (xs : List A)
      → (outcome f (first_accepting (λ _. p) i xs)).0 ≡ verdict (any p xs)
  outcome-any p f i [] = refl
  outcome-any p f i (x ∷ xs) =
      let ih = outcome-any p f (suc i) xs in
      elim (Bool-cases (p x)) [ inl t ↦ ground (arith, ih, t) | inr u ↦ ground (arith, ih, u) ]

  -- With the index within the group, and connections that accept or refuse whatever the attempt,
  -- send succeeds if some connection of the group accepts, and otherwise fails after trying all.
  pub send-any :
      (p : A → Bool) (f : FailOverConnection A)
      → f.index < length f.connections
      → (send (λ _. p) f).0 ≡ (if any p f.connections then sent else failed all_failed)
  send-any p f h =
      ap (λ o. o.0) (send-rotation (λ _. p) f h)
      ∙ outcome-any p f 0 (rotation f.index f.connections)
      ∙ ap verdict (any-rotation p f.index f.connections)
      ∙ verdict_lem (any p f.connections)

  drop_head :
      (xs : List A) (i : ℕ) (c : A) → get_elem? xs i ≡ some c → drop i xs ≡ c ∷ drop (suc i) xs
  drop_head [] i c e = ground (arith, e)
  drop_head (x ∷ xs) zero c e = ap (λ y. y ∷ xs) (cc e)
  drop_head (x ∷ xs) (suc i) c e = drop_head xs i c e

  first_head :
      (accepts : ℕ → A → Bool) (i : ℕ) (c : A) (cs : List A)
      → accepts i c ≡ true
      → first_accepting accepts i (c ∷ cs) ≡ some i
  first_head accepts i c cs t = ground (arith, t)

  -- If the connection at the index accepts the first attempt, send succeeds and moves the index
  -- to the next connection, which the next command then tries first.
  pub send_moves_on :
      (accepts : ℕ → A → Bool) (f : FailOverConnection A) (c : A)
      → get_elem? f.connections f.index ≡ some c
      → f.index < length f.connections
      → accepts 0 c ≡ true
      → send accepts f ≡ (sent, record f { index = (f.index + 1) % length f.connections })
  send_moves_on accepts f c e h t =
      send-rotation accepts f h
      ∙ ap (λ ys. outcome f (first_accepting accepts 0 (ys ++ take f.index f.connections)))
          (drop_head f.connections f.index c e)
      ∙ ap (outcome f) (
          first_head accepts 0 c (drop (suc f.index) f.connections ++ take f.index f.connections) t)
      ∙ ap (λ i. (sent, record f { index = (i + 1) % length f.connections }))
          (ap (λ i. i % length f.connections) {y = f.index} (omega arith) ∙ mod-eq_of_lt h)
