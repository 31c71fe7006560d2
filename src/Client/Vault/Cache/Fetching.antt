-- ===== src/Client/Vault/Cache/Fetching.antt =====
-- What `ensure_cached` does to the state, with and without a download.
use mathlib.Core.Option
use scrigno.Prelude.{
  ℕ, ◌<◌, ◌^◌, ◌≡◌, refl, ◌∙◌, some, length, ok, false, Result-cases, Option-cases, inl, inr,
}
use scrigno.Prelude.Bytes.{Bytes, same_bytes_refl}
use scrigno.Server.{Uuid}
use scrigno.Client.{CacheRow, DocumentRow}
use scrigno.Client.Store.{
  Store, cache_get, read_file, cache_put, write_file, kv_get, kv_set, get_document,
}
use scrigno.Client.Store.Tables.{cached-documents, cache_get-blob_id, kv_get-keeps, kv_get-kv_set}
use scrigno.Client.Store.Numbers.{to_string, parse_i64-to_string}
use scrigno.Client.Vault.{UnlockedVault, openable, live_row, kv_cache_limit_mb}
use scrigno.Client.Vault.Cache.{
  BlobSource, BlobReader, open_doc, ensure_cached, record_cached, refresh_cached_flag,
  cache_limit_mb, set_cache_limit_mb, evict_cache_over_limit,
}
use scrigno.Client.Vault.Cache.Eviction.{evict_cache_over_limit-keeps, refresh_cached_flag-keeps}

record_cached-keeps :
    (blob_id : Uuid) (bytes : Bytes) (now : ℕ) (v : UnlockedVault)
    → ((record_cached blob_id bytes now v).store.documents ≡ v.store.documents)
      × ((record_cached blob_id bytes now v).mk ≡ v.mk)
unfolding record_cached
record_cached-keeps blob_id bytes now v =
    let (d, k, m) = evict_cache_over_limit-keeps (record v {
      store = cache_put blob_id (length bytes) now (write_file blob_id bytes v.store);
    }) in
    (d ∙ cached-documents blob_id bytes (length bytes) now v.store, m)

-- The limit of the cache that is read is the one that was set, when it fits in an i64.
pub cache_limit_mb-set_cache_limit_mb :
    (mb : ℕ) (v : UnlockedVault) → mb < 2 ^ 63 → cache_limit_mb (set_cache_limit_mb mb v).store ≡ mb
unfolding set_cache_limit_mb cache_limit_mb Option.bind
cache_limit_mb-set_cache_limit_mb mb v h =
    let next : UnlockedVault = record v {
      store = kv_set kv_cache_limit_mb (to_string mb) v.store;
    } in
    let (d, k, m) = evict_cache_over_limit-keeps next in
    let found : kv_get kv_cache_limit_mb (evict_cache_over_limit next).store ≡ some (to_string mb) =
      kv_get-keeps kv_cache_limit_mb (evict_cache_over_limit next).store next.store k
      ∙ kv_get-kv_set kv_cache_limit_mb kv_cache_limit_mb (to_string mb) v.store
      ∙ rw (same_bytes_refl kv_cache_limit_mb) refl in
    rw (found, parse_i64-to_string mb h) refl

openable-live :
    (id blob_id : ℕ) (s : Store) (row : DocumentRow)
    → get_document id s ≡ some row
    → row.deleted ≡ false
    → row.blob_id ≡ some blob_id
    → openable id s ≡ ok (row, blob_id)
unfolding openable live_row
openable-live id blob_id s row found live has = simp (found, live, has)

module _ {Remote : Type 0} (source : BlobSource Remote) where
  pub ensure_cached-keeps :
      (blob_id : Uuid) (now : ℕ) (v : UnlockedVault) (r : Remote)
      → ((ensure_cached source blob_id now (v, r)).1.0.store.documents ≡ v.store.documents)
        × ((ensure_cached source blob_id now (v, r)).1.0.mk ≡ v.mk)
  unfolding ensure_cached
  ensure_cached-keeps blob_id now v r =
      elim (Option-cases
        (Option.bind (cache_get blob_id v.store) (λ row. read_file row.blob_id v.store))) [
          | inr (bytes, e) ↦ (rw (ensure_cached, e) refl, rw (ensure_cached, e) refl)
          | inl e ↦ elim (Result-cases (source.get_blob_to_file blob_id r).0) [
            | inl (x, f) ↦ (rw (ensure_cached, e, f) refl, rw (ensure_cached, e, f) refl)
            | inr (bytes, f) ↦ rw (ensure_cached, e, f) (record_cached-keeps blob_id bytes now v)
          ]
        ]

  -- A cached blob whose file is there.
  pub ensure_cached-there :
      (blob_id : Uuid) (now : ℕ) (v : UnlockedVault) (r : Remote) (row : CacheRow) (bytes : Bytes)
      → cache_get blob_id v.store ≡ some row
      → read_file row.blob_id v.store ≡ some bytes
      → ensure_cached source blob_id now (v, r) ≡ (ok blob_id, (v, r))
  unfolding ensure_cached Option.bind
  ensure_cached-there blob_id now v r row bytes found there = rw (ensure_cached, found, there) refl

  -- What a download leaves of the server's state, it leaves.
  pub ensure_cached-remote :
      (f : Remote → ℕ)
      → ((id : Uuid) (r : Remote) → f (source.get_blob_to_file id r).1 ≡ f r)
      → (blob_id : Uuid) (now : ℕ) (v : UnlockedVault) (r : Remote)
      → f (ensure_cached source blob_id now (v, r)).1.1 ≡ f r
  unfolding ensure_cached
  ensure_cached-remote f same blob_id now v r =
      elim (Option-cases
        (Option.bind (cache_get blob_id v.store) (λ row. read_file row.blob_id v.store))) [
          | inr (bytes, e) ↦ rw (ensure_cached, e) refl
          | inl e ↦ elim (Result-cases (source.get_blob_to_file blob_id r).0) [
            | inl (x, g) ↦ rw (ensure_cached, e, g) (same blob_id r)
            | inr (bytes, g) ↦ rw (ensure_cached, e, g) (same blob_id r)
          ]
        ]

  -- A document whose blob is cached: its content is what the cached file decrypts to.
  pub open_doc-cached :
      (reader : BlobReader) (id blob_id now : ℕ) (v : UnlockedVault) (r : Remote)
      (row : DocumentRow) (crow : CacheRow) (bytes plain : Bytes)
      → get_document id v.store ≡ some row
      → row.deleted ≡ false
      → row.blob_id ≡ some blob_id
      → cache_get blob_id v.store ≡ some crow
      → read_file blob_id v.store ≡ some bytes
      → reader.decrypt v.mk (record { uuid = row.id }) bytes ≡ ok plain
      → (open_doc source reader id now (v, r)).0 ≡ ok plain
  unfolding open_doc
  open_doc-cached reader id blob_id now v r row crow bytes plain found live has cached there
        opened =
      let target = openable-live id blob_id v.store row found live has in
      let file : read_file crow.blob_id v.store ≡ some bytes =
        rw (cache_get-blob_id blob_id v.store crow cached) there in
      let fetched = ensure_cached-there blob_id now v r crow bytes cached file in
      let (s, m) = refresh_cached_flag-keeps id v in
      let opened' : reader.decrypt (refresh_cached_flag id v).mk (record { uuid = row.id }) bytes
          ≡ ok plain =
        rw m opened in
      rw (open_doc, target, fetched, there, opened') refl
