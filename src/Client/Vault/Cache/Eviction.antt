-- ===== src/Client/Vault/Cache/Eviction.antt =====
-- What an eviction keeps, and how far it goes.
use scrigno.Prelude.{
  ℕ, ◌-◌, ◌*◌, ◌≡◌, refl, ◌∙◌, ap, true, false, none, List, [], ◌∷◌, leb, ◌==◌, if◌then◌else◌,
  arith, All, Bool-cases, Option-cases, inl, inr, ◌≢◌,
}
use scrigno.Server.{Uuid}
use scrigno.Client.{DocumentRow, CacheRow}
use scrigno.Client.Store.{
  Store, get_document, list_documents, cache_get, read_file, cache_remove, cache_total_size,
  cache_evictable_by_lru, same_id, remove_file, pinned,
}
use scrigno.Client.Store.Tables.{
  cache_get-forget, read_file-forget, cache_evictable_by_lru-All, forget-keeps,
}
use scrigno.Client.Vault.{UnlockedVault}
use scrigno.Client.Vault.Cache.{
  cache_limit_mb, refresh_cached_flag, refresh_rows, refresh_cached_flag_by_blob, evict_blob,
  evict_loop, evict_cache_over_limit,
}

pub refresh_cached_flag-keeps :
    (id : Uuid) (v : UnlockedVault)
    → ((refresh_cached_flag id v).store ≡ v.store) × ((refresh_cached_flag id v).mk ≡ v.mk)
unfolding refresh_cached_flag
refresh_cached_flag-keeps id v = elim (Option-cases (get_document id v.store)) [
  | inl e ↦ (rw (refresh_cached_flag, e) refl, rw (refresh_cached_flag, e) refl)
  | inr (row, e) ↦ (rw (refresh_cached_flag, e) refl, rw (refresh_cached_flag, e) refl)
]

refresh_rows-keeps :
    (blob_id : Uuid) (rows : List DocumentRow) (v : UnlockedVault)
    → ((refresh_rows blob_id rows v).store ≡ v.store) × ((refresh_rows blob_id rows v).mk ≡ v.mk)
unfolding refresh_rows
refresh_rows-keeps blob_id [] v = (refl, refl)
refresh_rows-keeps blob_id (row ∷ rows) v =
    let next = if same_id row.blob_id blob_id then refresh_cached_flag row.id v else v in
    let (s, m) = refresh_rows-keeps blob_id rows next in (s ∙ (keep row).0, m ∙ (keep row).1)
  where
    keep :
        (row : DocumentRow)
        → ((if same_id row.blob_id blob_id then refresh_cached_flag row.id v else v).store
            ≡ v.store)
          × ((if same_id row.blob_id blob_id then refresh_cached_flag row.id v else v).mk ≡ v.mk)
    keep row = elim (Bool-cases (same_id row.blob_id blob_id)) [
      | inl e ↦ rw e (refresh_cached_flag-keeps row.id v)
      | inr e ↦ rw e (refl, refl)
    ]

pub evict_blob-keeps :
    (blob_id : Uuid) (v : UnlockedVault)
    → ((evict_blob blob_id v).store ≡ remove_file blob_id (cache_remove blob_id v.store).1)
      × ((evict_blob blob_id v).mk ≡ v.mk)
unfolding evict_blob refresh_cached_flag_by_blob
evict_blob-keeps blob_id v =
    let v' : UnlockedVault = record v {
      store = remove_file blob_id (cache_remove blob_id v.store).1;
    } in
    refresh_rows-keeps blob_id (list_documents v'.store) v'

-- What every step of the loop keeps: the documents, the settings, the key, the pinned blobs.
Kept : UnlockedVault → UnlockedVault → Type 0
Kept v w =
    (w.store.documents ≡ v.store.documents)
    × (w.store.kv ≡ v.store.kv)
    × (w.mk ≡ v.mk)
    × ((id : Uuid)
        → pinned id v.store.documents ≡ true
        → (cache_get id w.store ≡ cache_get id v.store)
          × (read_file id w.store ≡ read_file id v.store))

Kept-trans : (u v w : UnlockedVault) → Kept u v → Kept v w → Kept u w
unfolding Kept
Kept-trans u v w (d, k, m, p) (d', k', m', p') = (
  d' ∙ d,
  k' ∙ k,
  m' ∙ m,
  λ id h. ((p' id (rw d h)).0 ∙ (p id h).0, (p' id (rw d h)).1 ∙ (p id h).1),
)

Kept-refl : (v : UnlockedVault) → Kept v v
unfolding Kept
Kept-refl v = (refl, refl, refl, λ id h. (refl, refl))

Kept-documents : (v w : UnlockedVault) → Kept v w → w.store.documents ≡ v.store.documents
unfolding Kept
Kept-documents v w k = k.0

evict_blob-Kept :
    (blob_id : Uuid) (v : UnlockedVault)
    → pinned blob_id v.store.documents ≡ false
    → Kept v (evict_blob blob_id v)
unfolding Kept
evict_blob-Kept blob_id v h =
    let (s, m) = evict_blob-keeps blob_id v in
    let (d, k, c) = forget-keeps blob_id v.store in
    (
      ap Store.documents s ∙ d,
      ap Store.kv s ∙ k,
      m,
      λ id pin. (
        ap (cache_get id) s
            ∙ cache_get-forget id blob_id v.store
            ∙ other id pin none (cache_get id v.store),
        ap (read_file id) s
            ∙ read_file-forget id blob_id v.store
            ∙ other id pin none (read_file id v.store),
      ),
    )
  where
    apart : (id : Uuid) → pinned id v.store.documents ≡ true → blob_id ≢ id
    apart id pin e = cc

    other :
        {A : Type 0} (id : Uuid)
        → pinned id v.store.documents ≡ true
        → (x y : A) → (if blob_id == id then x else y) ≡ y
    other id pin x y = elim (Bool-cases (blob_id == id)) [
      | inl e ↦ absurd (apart id pin (ground (arith, e)))
      | inr e ↦ rw e refl
    ]

evict_loop-Kept :
    (limit total : ℕ) (rows : List CacheRow) (v : UnlockedVault)
    → All (λ c. pinned c.blob_id v.store.documents ≡ false) rows
    → Kept v (evict_loop limit total rows v)
unfolding evict_loop
evict_loop-Kept limit total [] v h = Kept-refl v
evict_loop-Kept limit total (c ∷ rows) v (hc, h) = elim (Bool-cases (leb total limit)) [
  | inl e ↦ rw (evict_loop, e) (Kept-refl v)
  | inr e ↦ elim (Option-cases (cache_remove c.blob_id v.store).0) [
    | inl f ↦ rw (evict_loop, e, f) (evict_loop-Kept limit total rows v h)
    | inr (row, f) ↦
        let first = evict_blob-Kept c.blob_id v hc in
        rw (evict_loop, e, f)
          (Kept-trans v (evict_blob c.blob_id v)
            (evict_loop limit (total - c.size) rows (evict_blob c.blob_id v)) first
            (evict_loop-Kept limit (total - c.size) rows (evict_blob c.blob_id v)
              (rw (Kept-documents v (evict_blob c.blob_id v) first) h)))
  ]
]

evict_cache_over_limit-Kept : (v : UnlockedVault) → Kept v (evict_cache_over_limit v)
unfolding evict_cache_over_limit
evict_cache_over_limit-Kept v =
    elim (Bool-cases (leb (cache_total_size v.store) (cache_limit_mb v.store * 1024 * 1024))) [
      | inl e ↦ rw (evict_cache_over_limit, e) (Kept-refl v)
      | inr e ↦
          rw (evict_cache_over_limit, e)
            (evict_loop-Kept (cache_limit_mb v.store * 1024 * 1024) (cache_total_size v.store)
              (cache_evictable_by_lru v.store) v (cache_evictable_by_lru-All v.store))
    ]

-- An eviction keeps the documents, and the row and the file of every blob that is pinned by a document
-- that is dirty or kept offline.
pub cache_get-evict_cache_over_limit :
    (id : Uuid) (v : UnlockedVault)
    → pinned id v.store.documents ≡ true
    → ((evict_cache_over_limit v).store.documents ≡ v.store.documents)
      × (cache_get id (evict_cache_over_limit v).store ≡ cache_get id v.store)
      × (read_file id (evict_cache_over_limit v).store ≡ read_file id v.store)
unfolding Kept
cache_get-evict_cache_over_limit id v h =
    let (d, k, m, p) = evict_cache_over_limit-Kept v in (d, (p id h).0, (p id h).1)

pub evict_cache_over_limit-keeps :
    (v : UnlockedVault)
    → ((evict_cache_over_limit v).store.documents ≡ v.store.documents)
      × ((evict_cache_over_limit v).store.kv ≡ v.store.kv)
      × ((evict_cache_over_limit v).mk ≡ v.mk)
unfolding Kept
evict_cache_over_limit-keeps v = let (d, k, m, p) = evict_cache_over_limit-Kept v in (d, k, m)
