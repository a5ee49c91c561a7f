-- ===== src/Transport/IdGenerator.antt =====
-- src/transport/id_generator.rs: the counter of hop-by-hop identifiers, an `AtomicU32`.
use rest_diameter_bridge.Base.Bytes.{IsU32}
use rest_diameter_bridge.Base.{ℕ, zero, suc, ◌+◌, ◌%◌, ◌^◌, ◌<◌, ◌≡◌, ◌∙◌, ◌≢◌, arith}

pub record IdGenerator : Type 0 where
  pub current_id : ℕ

abbrev pub new_generator : IdGenerator
new_generator = record { current_id = 0 }

-- `fetch_add(1)`: the previous value is returned, and the counter wraps.
unfoldable pub next_id : IdGenerator → ℕ × IdGenerator
next_id g = (g.current_id, record { current_id = (g.current_id + 1) % 2 ^ 32 })

-- The generator after `n` calls, whichever tasks made them.
unfoldable pub after : ℕ → IdGenerator → IdGenerator
after zero g = g
after (suc n) g = after n (next_id g).1

-- The identifier that the call after `n` others returns.
abbrev pub nth_id : ℕ → IdGenerator → ℕ
nth_id n g = (next_id (after n g)).0

nth_id_lem :
    (n : ℕ) (g : IdGenerator) → IsU32 g.current_id → nth_id n g ≡ (g.current_id + n) % 2 ^ 32
unfolding next_id after
nth_id_lem zero g h = omega arith
nth_id_lem (suc n) g h = nth_id_lem n (next_id g).1 (omega arith) ∙ omega arith

-- From any 32-bit state of the generator, two calls that are fewer than 2 ^ 32 calls apart return
-- different identifiers.
pub nth_id_distinct :
    (i j : ℕ) (g : IdGenerator)
    → IsU32 g.current_id
    → i < j
    → j < i + 2 ^ 32
    → nth_id i g ≢ nth_id j g
nth_id_distinct i j g h lo hi = omega (arith, nth_id_lem i g h, nth_id_lem j g h)
