-- ===== src/Transport/HopByHop.antt =====
-- src/transport/hop_by_hop_id_mapper.rs: the hop-by-hop id that a forwarded request had before.
-- Instants are nanoseconds. An operation is given the readings of the clock that it makes; `retain`
-- reads it once for each entry, so it is given a reading for each key.
pub mod Laws
use rest_diameter_bridge.Base.Map.{Map, empty_map, insert, remove, retain, nat_key}
use rest_diameter_bridge.Base.{ltb, if◌then◌else◌, ℕ, ◌+◌, ◌*◌, not, Option, none, some}

abbrev pub seconds : ℕ → ℕ
seconds n = n * 1_000_000_000

pub record Mapping : Type 0 where
  pub original_id : ℕ
  pub timeout : ℕ

pub record HopByHopIdMapper : Type 0 where
  pub mappings : Map ℕ Mapping
  pub next_cleanup_time : ℕ

unfoldable pub new_mapper : ℕ → HopByHopIdMapper
new_mapper now = record { mappings = empty_map; next_cleanup_time = now + seconds 30 }

-- `clean_expired_entries`: at most every 30 seconds, entries before their reading are dropped.
unfoldable pub clean_mappings : ℕ → (ℕ → ℕ) → HopByHopIdMapper → HopByHopIdMapper
clean_mappings now reading m = if ltb now m.next_cleanup_time then m else record {
  mappings = retain (λ k e. not (ltb e.timeout (reading k))) m.mappings;
  next_cleanup_time = now + seconds 30;
}

-- The last reading is that of the insertion.
unfoldable pub add_mapping : ℕ → (ℕ → ℕ) → ℕ → ℕ → ℕ → HopByHopIdMapper → HopByHopIdMapper
add_mapping now reading now' new_id original_id m =
    let cleaned = clean_mappings now reading m in
    record cleaned {
      mappings =
          insert new_id (record { original_id = original_id; timeout = now' + seconds 300 })
            cleaned.mappings;
    }

-- `None` for an entry that is past its timeout.
abbrev pub live_id : ℕ → Option Mapping → Option ℕ
live_id now none = none
live_id now (some e) = if ltb e.timeout now then none else some e.original_id

unfoldable pub remove_mapping : ℕ → ℕ → HopByHopIdMapper → Option ℕ × HopByHopIdMapper
remove_mapping now new_id m =
    (live_id now (m.mappings new_id), record m { mappings = remove new_id m.mappings })

unfoldable pub get_original_id : ℕ → ℕ → HopByHopIdMapper → Option ℕ
get_original_id now new_id m = live_id now (m.mappings new_id)
