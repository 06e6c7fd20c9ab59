-- ===== src/Refcat/Cached.antt =====
-- The cached reading against the uncached one, and the bounds of the cache.
use donut_server.Prelude.{
  ℕ, ◌+◌, ◌≤◌, ◌≡◌, refl, ap, sym, ◌∙◌, true, Option, none, some, List, [], ◌∷◌, ◌⊎◌, ◌↔◌, inl, inr,
  if◌then◌else◌, length, lookup, put, move_to_end, nat_eq, arith, All, All-put, All-move_to_end,
  All-evict, lookup-All, length-evict-le, Option-cases, Bool-cases,
}
use donut_server.Bytes.{list_eqb, list_eqb_iff}
use donut_server.Refcat.{
  Children, Cache, Store, Timing, shard_cache_cap, update, load_from, load_and_reshard, ensure_loop,
  ensure_shards, ensure, evict_if, total_rows, member, uncovered,
}

module _ {Catalog : Type 0} (reshard_one : ℕ → Option (Children Catalog)) where
  -- every cached parent holds what a read of its file would give
  abbrev pub IsFaithful : Cache Catalog → Type 0
  IsFaithful cache = All (λ e. reshard_one e.0 ≡ some e.1) cache

  abbrev pub shards_of {ℓ} :
      {A : Type ℓ} → Option (Children Catalog × A) → Option (Children Catalog)
  shards_of none = none
  shards_of (some (shards, _)) = some shards

  ensure_loop-load_from :
      (ids : List ℕ) (shards : Children Catalog) (loaded : ℕ) (cache : Cache Catalog)
      → IsFaithful cache
      → (shards_of (ensure_loop reshard_one ids shards loaded cache).0
          ≡ load_from reshard_one ids shards)
        × IsFaithful (ensure_loop reshard_one ids shards loaded cache).1
  unfolding ensure_loop load_from
  ensure_loop-load_from [] shards loaded cache v = (refl, v)
  ensure_loop-load_from (i ∷ ids) shards loaded cache v = elim (Option-cases (lookup i cache)) [
    | inl missing ↦ elim (Option-cases (reshard_one i)) [
      | inl broken ↦ rw (missing, broken, ensure_loop, load_from) (refl, v)
      | inr got ↦
          let (children, e) = got in
          rw (missing, e, ensure_loop, load_from)
            (ensure_loop-load_from ids (update shards children) (loaded + 1) (put i children cache)
              (All-put _ i children cache v e))
    ]
    | inr held ↦
        let (children, e) = held in
        let read : reshard_one i ≡ some children = lookup-All _ i children cache v e in
        rw (e, read, ensure_loop, load_from)
          (ensure_loop-load_from ids (update shards children) loaded (move_to_end i cache)
            (All-move_to_end _ i cache v))
  ]

  evict_if-IsFaithful {ℓ} :
      {A : Type ℓ} (r : Option A) (cache : Cache Catalog)
      → IsFaithful cache
      → IsFaithful (evict_if reshard_one r cache)
  evict_if-IsFaithful none cache v = v
  evict_if-IsFaithful (some a) cache v = All-evict _ shard_cache_cap cache v

  -- With a faithful cache, whatever it holds, the cached reading gives the shards of the uncached
  -- one, or fails with it, and leaves a faithful cache.
  pub ensure_shards-load_and_reshard :
      (wanted : List ℕ) (cache : Cache Catalog)
      → IsFaithful cache
      → (shards_of (ensure_shards reshard_one wanted cache).0 ≡ load_and_reshard reshard_one wanted)
        × IsFaithful (ensure_shards reshard_one wanted cache).1
  unfolding ensure_shards load_and_reshard
  ensure_shards-load_and_reshard wanted cache v =
      let (same, kept) = ensure_loop-load_from wanted [] 0 cache v in
      (same, evict_if-IsFaithful (ensure_loop reshard_one wanted [] 0 cache).0 _ kept)

  -- A successful call leaves at most 24 parents in the cache.
  length-ensure_shards-le :
      (wanted : List ℕ) (cache : Cache Catalog) {r : Children Catalog × ℕ}
      → (ensure_shards reshard_one wanted cache).0 ≡ some r
      → length (ensure_shards reshard_one wanted cache).1 ≤ shard_cache_cap
  unfolding ensure_shards
  length-ensure_shards-le wanted cache h =
      rw h (length-evict-le shard_cache_cap (ensure_loop reshard_one wanted [] 0 cache).1)

  ensure_loop-loaded :
      (ids : List ℕ) (shards : Children Catalog) (loaded : ℕ) (cache : Cache Catalog)
      (r : Children Catalog × ℕ)
      → (ensure_loop reshard_one ids shards loaded cache).0 ≡ some r
      → (loaded ≤ r.1) × (r.1 ≤ loaded + length ids)
  unfolding ensure_loop
  ensure_loop-loaded [] shards loaded cache r h = ground arith
  ensure_loop-loaded (i ∷ ids) shards loaded cache r h = elim (Option-cases (lookup i cache)) [
    | inl missing ↦ elim (Option-cases (reshard_one i)) [
      | inl broken ↦ absurd (ground arith)
      | inr got ↦
          let (children, e) = got in
          omega (
            arith,
            ensure_loop-loaded ids (update shards children) (loaded + 1) (put i children cache) r
                (rw (missing, e, ensure_loop) at h),
          )
    ]
    | inr held ↦
        let (children, e) = held in
        omega (
          arith,
          ensure_loop-loaded ids (update shards children) loaded (move_to_end i cache) r
              (rw (e, ensure_loop) at h),
        )
  ]

  ensure_shards-loaded :
      (wanted : List ℕ) (cache : Cache Catalog) (r : Children Catalog × ℕ)
      → (ensure_shards reshard_one wanted cache).0 ≡ some r
      → r.1 ≤ length wanted
  unfolding ensure_shards
  ensure_shards-loaded wanted cache r h =
      omega (arith, (ensure_loop-loaded wanted [] 0 cache r h).1)

  module _ (rows : Catalog → ℕ) where
    pub ensure-IsFaithful :
        (wanted : List ℕ) (store : Store Catalog) (cache : Cache Catalog)
        → IsFaithful cache
        → IsFaithful (ensure reshard_one rows wanted store cache).1
    unfolding ensure
    ensure-IsFaithful wanted store cache v = elim (Bool-cases (list_eqb wanted store.shard_ids)) [
      | inl same ↦ rw (same, if◌then◌else◌) v
      | inr other ↦ rw (other, if◌then◌else◌) (ensure_shards-load_and_reshard wanted cache v).1
    ]

    -- With a faithful cache, and from a store that holds the shards of its own ids and their count of
    -- rows, an `ensure` that returns leaves a store with the wanted ids, what an uncached read of them
    -- gives, and its count of rows; the parents it loaded and those it reused are as many as the
    -- wanted ids, unless the whole store was reused.
    pub ensure-Holds :
        (wanted : List ℕ) (store : Store Catalog) (cache : Cache Catalog) (t : Timing)
        (store' : Store Catalog)
        → IsFaithful cache
        → (load_and_reshard reshard_one store.shard_ids ≡ some store.shards)
        → (store.n_rows ≡ total_rows rows store.shards)
        → (ensure reshard_one rows wanted store cache).0 ≡ some (t, store')
        → (store'.shard_ids ≡ wanted)
          × (load_and_reshard reshard_one wanted ≡ some store'.shards)
          × (store'.n_rows ≡ total_rows rows store'.shards)
          × ((t.reused ≡ true) ⊎ (t.n_shards_loaded + t.n_shards_reused ≡ length wanted))
    unfolding ensure
    ensure-Holds wanted store cache t store' v read counted h =
        elim (Bool-cases (list_eqb wanted store.shard_ids)) [
          | inl same ↦
              let e : wanted ≡ store.shard_ids = (list_eqb_iff wanted store.shard_ids).0 same in
              ground arith
          | inr other ↦ elim (Option-cases (ensure_shards reshard_one wanted cache).0) [
            | inl failed ↦ absurd (ground arith)
            | inr got ↦
                let ((shards, loaded), e) = got in
                let (full, _) = ensure_shards-load_and_reshard wanted cache v in
                let few = ensure_shards-loaded wanted cache (shards, loaded) e in
                let all : load_and_reshard reshard_one wanted ≡ some shards =
                  sym full ∙ ap shards_of e in
                ground arith
          ]
        ]

-- Nothing is uncovered exactly when every needed parent is one of the store's.
uncovered_iff :
    {Catalog : Type 0} (needed : List ℕ) (store : Store Catalog)
    → (uncovered needed store ≡ []) ↔ All (λ i. member i store.shard_ids ≡ true) needed
unfolding uncovered
uncovered_iff [] store = (λ h. tt, λ h. refl)
uncovered_iff (i ∷ needed) store = elim (Bool-cases (member i store.shard_ids)) [
  | inl there ↦
      rw there
        ((λ h. (refl, (uncovered_iff needed store).0 h)), (λ h. (uncovered_iff needed store).1 h.1))
  | inr missing ↦ rw missing ((λ h. absurd (cc)), (λ h. absurd (cc h.0)))
]
