-- ===== src/Transport/HopByHop/Laws.antt =====
-- What a client sees of the mapper: an id is given back once, and in time.
use rest_diameter_bridge.Base.{ltb, ◌==◌, if◌then◌else◌, ℕ, ◌+◌, ◌≤◌, ◌≡◌, refl, none, some, arith}
use rest_diameter_bridge.Transport.HopByHop.{
  HopByHopIdMapper, add_mapping, get_original_id, remove_mapping, clean_mappings, seconds, live_id,
}

-- Cleaning up does not change what get_original_id gives for an id at the reading for that id or
-- later.
pub get_original_id-clean :
    (m : HopByHopIdMapper) (now : ℕ) (reading : ℕ → ℕ) (id time : ℕ)
    → reading id ≤ time
    → get_original_id time id (clean_mappings now reading m) ≡ get_original_id time id m
unfolding get_original_id clean_mappings
get_original_id-clean m now reading id time h = ground arith

-- At a time not before the reading that cleaned the entry of an id, an id that was added gives
-- its original id until 300 seconds after it was added and nothing later, and every other id
-- gives what it gave before.
pub get_original_id-add :
    (m : HopByHopIdMapper) (now : ℕ) (reading : ℕ → ℕ) (now' new original id time : ℕ)
    → reading id ≤ time
    → get_original_id time id (add_mapping now reading now' new original m) ≡ (
        if id == new
        then if ltb (now' + seconds 300) time then none else some original
        else get_original_id time id m)
unfolding add_mapping get_original_id
get_original_id-add m now reading now' new original id time h = ground (arith, same)
  where
    same : live_id time ((clean_mappings now reading m).mappings id) ≡ live_id time (m.mappings id)
    same = unfold get_original_id in get_original_id-clean m now reading id time h

-- remove_mapping returns what get_original_id gives at that time; afterwards the id gives
-- nothing, and every other id what it gave before.
pub remove_mapping_lem :
    (m : HopByHopIdMapper) (new id now time : ℕ)
    → ((remove_mapping now new m).0 ≡ get_original_id now new m)
      × (get_original_id time id (remove_mapping now new m).1
          ≡ (if id == new then none else get_original_id time id m))
unfolding remove_mapping get_original_id
remove_mapping_lem m new id now time = (refl, ground arith)

-- The identifier that was just added, within its time.
pub get_original_id-added :
    (m : HopByHopIdMapper) (now : ℕ) (reading : ℕ → ℕ) (now' new original time : ℕ)
    → time ≤ now' + seconds 300
    → get_original_id time new (add_mapping now reading now' new original m) ≡ some original
unfolding add_mapping get_original_id
get_original_id-added m now reading now' new original time h = ground arith
