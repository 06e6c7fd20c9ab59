-- ===== src/Refcat.antt =====
-- refcat_store.py (python/lsst/ts/donut_server/refcat_store.py): the level-5 parents kept in a
-- shared cache, and the store of one pointing. Reading and splitting a file (`_reshard_one`) goes
-- through FITS and HTM libraries, so it is a parameter: `none` is the exception it raises.
pub mod Cached
use donut_server.Prelude.{
  ℕ, zero, suc, ◌+◌, ◌-◌, Bool, true, false, not, Option, none, some, List, [], ◌∷◌, ◌++◌, eqb,
  if◌then◌else◌, length, keep_if, lookup, put, evict, move_to_end, nat_eq, Eq, ◌==◌,
}
use donut_server.Bytes.{name_eq, list_eqb}

-- SHARD_CACHE_CAP
abbrev pub shard_cache_cap : ℕ
shard_cache_cap = 24

unfoldable pub member : ℕ → List ℕ → Bool
member j [] = false
member j (i ∷ is) = if eqb i j then true else member j is

-- range(begin, end), by how many numbers are left
unfoldable pub count_up : ℕ → ℕ → List ℕ
count_up begin zero = []
count_up begin (suc n) = begin ∷ count_up (begin + 1) n

-- `_range_set_ids`: half-open pairs, flattened
unfoldable pub range_set_ids : List (ℕ × ℕ) → List ℕ
range_set_ids [] = []
range_set_ids ((begin, end) ∷ ranges) = count_up begin (end - begin) ++ range_set_ids ranges

module _ {Catalog : Type 0} where
  -- dict.update
  unfoldable pub update : List (ℕ × Catalog) → List (ℕ × Catalog) → List (ℕ × Catalog)
  update shards [] = shards
  update shards ((i, c) ∷ children) = update (put i c shards) children

  module _ (rows : Catalog → ℕ) where
    -- sum(len(catalog) for catalog in shards.values())
    unfoldable pub total_rows : List (ℕ × Catalog) → ℕ
    total_rows [] = 0
    total_rows ((i, c) ∷ shards) = rows c + total_rows shards

abbrev pub Children : Type 0 → Type 0
Children Catalog = List (ℕ × Catalog)

-- `_SHARD_CACHE`
abbrev pub Cache : Type 0 → Type 0
Cache Catalog = List (ℕ × Children Catalog)

-- `RefCatStore`. The wanted set of ids is a sorted list, so that equal sets are equal lists.
pub record Store (Catalog : Type 0) : Type 0 where
  pub shard_ids : List ℕ
  pub shards : Children Catalog
  pub n_rows : ℕ

-- what `ensure` reports, but for the elapsed time and the boresight that it was given
pub record Timing : Type 0 where
  pub reused : Bool
  pub n_level5_files : ℕ
  pub n_level7_shards : ℕ
  pub rows_held : ℕ
  pub n_shards_loaded : ℕ
  pub n_shards_reused : ℕ

unfoldable pub empty_store : (Catalog : Type 0) → Store Catalog
empty_store Catalog = record { shard_ids = []; shards = []; n_rows = 0 }

-- needed - self.shard_ids
unfoldable pub uncovered : {Catalog : Type 0} → List ℕ → Store Catalog → List ℕ
uncovered needed store = keep_if (λ i. not (member i store.shard_ids)) needed

module _ {Catalog : Type 0} (reshard_one : ℕ → Option (Children Catalog)) where
  -- the uncached reading
  unfoldable pub load_from : List ℕ → Children Catalog → Option (Children Catalog)
  load_from [] shards = some shards
  load_from (shard_id ∷ ids) shards = elim (reshard_one shard_id) [
    | none ↦ none
    | some children ↦ load_from ids (update shards children)
  ]

  unfoldable pub load_and_reshard : List ℕ → Option (Children Catalog)
  unfolding load_from
  load_and_reshard ids = load_from ids []

  -- The loop of `_ensure_shards`: the shards and the count of parents read, and the cache, which
  -- stays changed when a read raises.
  unfoldable pub ensure_loop :
      List ℕ → Children Catalog → ℕ → Cache Catalog → Option (Children Catalog × ℕ) × Cache Catalog
  ensure_loop [] shards loaded cache = (some (shards, loaded), cache)
  ensure_loop (shard_id ∷ ids) shards loaded cache = elim (lookup shard_id cache) [
    | none ↦ elim (reshard_one shard_id) [
      | none ↦ (none, cache)
      | some children ↦
          ensure_loop ids (update shards children) (loaded + 1) (put shard_id children cache)
    ]
    | some children ↦ ensure_loop ids (update shards children) loaded (move_to_end shard_id cache)
  ]

  abbrev pub evict_if {ℓ} : {A : Type ℓ} → Option A → Cache Catalog → Cache Catalog
  evict_if none cache = cache
  evict_if (some _) cache = evict shard_cache_cap cache

  unfoldable pub ensure_shards :
      List ℕ → Cache Catalog → Option (Children Catalog × ℕ) × Cache Catalog
  unfolding ensure_loop
  ensure_shards wanted cache =
      let (r, cache') = ensure_loop wanted [] 0 cache in (r, evict_if r cache')

  module _ (rows : Catalog → ℕ) where
    abbrev report : Bool → ℕ → ℕ → Store Catalog → Timing
    report reused loaded n store = record {
      reused = reused;
      n_level5_files = length store.shard_ids;
      n_level7_shards = length store.shards;
      rows_held = store.n_rows;
      n_shards_loaded = loaded;
      n_shards_reused = if reused then 0 else n - loaded;
    }

    -- the rest of `ensure` after the call of `_ensure_shards`
    abbrev pub rebind :
        List ℕ → Store Catalog → Option (Children Catalog × ℕ) → Option (Timing × Store Catalog)
    rebind wanted store none = none
    rebind wanted store (some (shards, loaded)) =
        let store' : Store Catalog = record {
          shard_ids = wanted;
          shards = shards;
          n_rows = total_rows rows shards;
        } in
        some (report false loaded (length wanted) store', store')

    -- `RefCatStore.ensure` for the ids of a pointing; `none` leaves the store as it was
    unfoldable pub ensure :
        List ℕ → Store Catalog → Cache Catalog → Option (Timing × Store Catalog) × Cache Catalog
    unfolding ensure_shards
    ensure wanted store cache =
        let (r, cache') = ensure_shards wanted cache in
        if list_eqb wanted store.shard_ids
        then (some (report true 0 (length wanted) store, store), cache)
        else (rebind wanted store r, cache')
