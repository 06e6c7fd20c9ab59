-- ===== src/Examples/Shards.antt =====
-- The reference catalog with a cache that holds one of two parents.
use donut_server.Prelude.{
  ℕ, ◌+◌, ◌≡◌, ◌⊎◌, refl, true, false, Option, some, [], ◌∷◌, lookup, put, move_to_end, erase,
}
use donut_server.Bytes.{list_eqb}
use donut_server.Refcat.{
  Children, Cache, Store, Timing, update, total_rows, empty_store, load_from, load_and_reshard,
  ensure_loop, ensure_shards, ensure,
}
use donut_server.Refcat.Cached.{IsFaithful, shards_of, ensure_shards-load_and_reshard, ensure-Holds}

-- a parent has one child, which holds its parent's id as a number of rows
abbrev read_parent : ℕ → Option (Children ℕ)
read_parent i = some ((i, i) ∷ [])

abbrev warm : Cache ℕ
warm = (7, (7, 7) ∷ []) ∷ []

warm-IsFaithful : IsFaithful read_parent warm
warm-IsFaithful = (refl, tt)

ensure_shards-load_and_reshard_example :
    (shards_of read_parent (ensure_shards read_parent (7 ∷ 9 ∷ []) warm).0
      ≡ load_and_reshard read_parent (7 ∷ 9 ∷ []))
    × IsFaithful read_parent (ensure_shards read_parent (7 ∷ 9 ∷ []) warm).1
ensure_shards-load_and_reshard_example =
    ensure_shards-load_and_reshard read_parent (7 ∷ 9 ∷ []) warm warm-IsFaithful

both_read : (ensure_shards read_parent (7 ∷ 9 ∷ []) warm).0 ≡ some ((7, 7) ∷ (9, 9) ∷ [], 1)
unfolding ensure_shards ensure_loop update lookup put move_to_end erase
both_read = refl

abbrev filled : Store ℕ
filled = record { shard_ids = 7 ∷ 9 ∷ []; shards = (7, 7) ∷ (9, 9) ∷ []; n_rows = 16 }

abbrev cold_timing : Timing
cold_timing = record {
  reused = false;
  n_level5_files = 2;
  n_level7_shards = 2;
  rows_held = 16;
  n_shards_loaded = 1;
  n_shards_reused = 1;
}

ensured_both :
    (ensure read_parent (λ n. n) (7 ∷ 9 ∷ []) (empty_store ℕ) warm).0 ≡ some (cold_timing, filled)
unfolding ensure ensure_shards ensure_loop update lookup put move_to_end erase total_rows
    empty_store list_eqb
ensured_both = refl

nothing_read : load_and_reshard read_parent (empty_store ℕ).shard_ids ≡ some (empty_store ℕ).shards
unfolding load_and_reshard load_from empty_store
nothing_read = refl

nothing_counted : (empty_store ℕ).n_rows ≡ total_rows (λ n. n) (empty_store ℕ).shards
unfolding total_rows empty_store
nothing_counted = refl

ensure-Holds_example :
    (filled.shard_ids ≡ 7 ∷ 9 ∷ [])
    × (load_and_reshard read_parent (7 ∷ 9 ∷ []) ≡ some filled.shards)
    × (filled.n_rows ≡ total_rows (λ n. n) filled.shards)
    × ((cold_timing.reused ≡ true)
        ⊎ (cold_timing.n_shards_loaded + cold_timing.n_shards_reused ≡ 2))
ensure-Holds_example =
    ensure-Holds read_parent (λ n. n) (7 ∷ 9 ∷ []) (empty_store ℕ) warm cold_timing filled
      warm-IsFaithful nothing_read nothing_counted ensured_both
