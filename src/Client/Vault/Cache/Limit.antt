-- ===== src/Client/Vault/Cache/Limit.antt =====
-- How far an eviction goes.
use scrigno.Prelude.{
  ℕ, ◌-◌, ◌*◌, ◌≤◌, ◌≡◌, refl, ◌∙◌, sym, true, false, Option, none, some, List, [], ◌∷◌, leb,
  leb→le, ◌==◌, arith, All, Bool-cases, Option-cases, ◌⊎◌, inl, inr,
}
use scrigno.Server.{Uuid}
use scrigno.Client.{CacheRow}
use scrigno.Client.Store.{
  Store, cache_get, cache_remove, cache_total_size, cache_evictable_by_lru, remove_file, pinned,
  find_cached,
}
use scrigno.Client.Store.Tables.{cache_get-forget, cache_remove-row}
use scrigno.Client.Store.Cached.{
  UniqueKeys, UniqueKeys-forget, cache_total_size-forget, cache_evictable_by_lru-misses,
  cache_evictable_by_lru-current, find_cached-nil, find_cached-cons,
}
use scrigno.Client.Vault.{UnlockedVault}
use scrigno.Client.Vault.Cache.{cache_limit_mb, evict_blob, evict_loop, evict_cache_over_limit}
use scrigno.Client.Vault.Cache.Eviction.{evict_blob-keeps}

-- A row of the list is still that of its blob, or the blob is gone.
Rows : Store → List CacheRow → Type 0
Rows s rows = All (λ r. (cache_get r.blob_id s ≡ none) ⊎ (cache_get r.blob_id s ≡ some r)) rows

Rows-forget :
    (blob : Uuid) (s : Store) (rows : List CacheRow)
    → Rows s rows
    → Rows (remove_file blob (cache_remove blob s).1) rows
unfolding Rows
Rows-forget blob s [] h = tt
Rows-forget blob s (r ∷ rows) (e, h) = (
  elim (Bool-cases (blob == r.blob_id)) [
    | inl t ↦ inl (rw (cache_get-forget r.blob_id blob s, t) refl)
    | inr t ↦ rw (cache_get-forget r.blob_id blob s, t) e
  ],
  Rows-forget blob s rows h,
)

-- The loop ended below the limit, or without the blob.
Done : ℕ → Uuid → UnlockedVault → Type 0
Done limit id v = (cache_total_size v.store ≤ limit) ⊎ (cache_get id v.store ≡ none)

-- The blob is cached only if it is in the list.
Covered : Uuid → List CacheRow → Store → Type 0
Covered id rows s = find_cached id rows ≡ none → cache_get id s ≡ none

Covered-gone :
    (id : Uuid) (c : CacheRow) (rows : List CacheRow) (s : Store)
    → cache_get c.blob_id s ≡ none
    → Covered id (c ∷ rows) s
    → Covered id rows s
unfolding Covered
Covered-gone id c rows s gone cov h = elim (Bool-cases (c.blob_id == id)) [
  | inl e ↦ rw (← eq_of c.blob_id id e) gone
  | inr e ↦ cov (rw (find_cached-cons id c rows, e) h)
]
  where
    eq_of : (a b : ℕ) → (a == b) ≡ true → a ≡ b
    eq_of a b e = ground arith

Covered-forget :
    (id : Uuid) (c : CacheRow) (rows : List CacheRow) (s : Store)
    → Covered id (c ∷ rows) s
    → Covered id rows (remove_file c.blob_id (cache_remove c.blob_id s).1)
unfolding Covered
Covered-forget id c rows s cov h = elim (Bool-cases (c.blob_id == id)) [
  | inl e ↦ rw (cache_get-forget id c.blob_id s, e) refl
  | inr e ↦ rw (cache_get-forget id c.blob_id s, e) (cov (rw (find_cached-cons id c rows, e) h))
]

evict_loop-Done :
    (limit total : ℕ) (id : Uuid) (rows : List CacheRow) (v : UnlockedVault)
    → UniqueKeys v.store.cache
    → Rows v.store rows
    → total ≡ cache_total_size v.store
    → Covered id rows v.store
    → Done limit id (evict_loop limit total rows v)
unfolding evict_loop Done Covered Rows
evict_loop-Done limit total id [] v u r t cov = inr (cov (find_cached-nil id))
evict_loop-Done limit total id (c ∷ rows) v u (rc, r) t cov = elim (Bool-cases (leb total limit)) [
  | inl e ↦ rw (evict_loop, e) (inl (rw (← t) (leb→le total limit e)))
  | inr e ↦ elim (Option-cases (cache_remove c.blob_id v.store).0) [
    | inl f ↦
        let gone = sym (cache_remove-row c.blob_id v.store) ∙ f in
        rw (evict_loop, e, f)
          (evict_loop-Done limit total id rows v u r t (Covered-gone id c rows v.store gone cov))
    | inr (row, f) ↦
        let v' = evict_blob c.blob_id v in
        let s' = (evict_blob-keeps c.blob_id v).0 in
        let here : cache_get c.blob_id v.store ≡ some c =
          still rc (sym (cache_remove-row c.blob_id v.store) ∙ f) in
        rw (evict_loop, e, f)
          (evict_loop-Done limit (total - c.size) id rows v'
            (rw s' (UniqueKeys-forget c.blob_id v.store u))
            (rw s' (Rows-forget c.blob_id v.store rows r))
            (rw (s', t) (sym (cache_total_size-forget c.blob_id v.store c u here)))
            (rw s' (Covered-forget id c rows v.store cov)))
  ]
]
  where
    still :
        {o : Option CacheRow} {c row : CacheRow}
        → (o ≡ none) ⊎ (o ≡ some c)
        → o ≡ some row
        → o ≡ some c
    still (inl n) h = cc
    still (inr e) h = e

-- An eviction ends with a total below the limit or without the blob, for every blob that no document
-- pins, in a cache with a row for each key.
pub evict_cache_over_limit-Done :
    (v : UnlockedVault) (id : Uuid)
    → UniqueKeys v.store.cache
    → pinned id v.store.documents ≡ false
    → (cache_total_size (evict_cache_over_limit v).store ≤ cache_limit_mb v.store * 1024 * 1024)
      ⊎ (cache_get id (evict_cache_over_limit v).store ≡ none)
unfolding evict_cache_over_limit Rows Covered Done
evict_cache_over_limit-Done v id u p =
    elim (Bool-cases (leb (cache_total_size v.store) (cache_limit_mb v.store * 1024 * 1024))) [
      | inl e ↦ rw (evict_cache_over_limit, e) (inl (leb→le _ _ e))
      | inr e ↦
          rw (evict_cache_over_limit, e)
            (evict_loop-Done (cache_limit_mb v.store * 1024 * 1024) (cache_total_size v.store) id
              (cache_evictable_by_lru v.store) v u (cache_evictable_by_lru-current v.store u) refl
              (cache_evictable_by_lru-misses id v.store p))
    ]
