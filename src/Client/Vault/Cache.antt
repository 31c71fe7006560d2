-- ===== src/Client/Vault/Cache.antt =====
-- vault.rs: the local cache of blobs, its limit and its eviction, and the methods that fill and read
-- it. Limits stay below 2 ^ 43 MiB, where their product fits in an `i64`.
pub mod Eviction
pub mod Limit
pub mod Fetching
use mathlib.Core.Option
use scrigno.Prelude.{
  ℕ, ◌+◌, ◌-◌, ◌*◌, Bool, true, false, not, Option, none, some, List, [], ◌∷◌, length, leb,
  if◌then◌else◌, Result, ok, err, ok_or, map_err,
}
use scrigno.Prelude.Bytes.{Bytes}
use scrigno.Server.{Uuid}
use scrigno.Core
use scrigno.Core.{MasterKey, DocId}
use scrigno.Client.{
  DocumentRow, CacheRow, DocSummary, ClientError, not_found, crypto, storage, Outcome, ◌>>=◌,
}
use scrigno.Client.Store.{
  Store, get_document, list_documents, kv_get, kv_set, cache_get, cache_put, cache_touch,
  cache_remove, cache_total_size, cache_evictable_by_lru, same_id, read_file, remove_file,
  write_file,
}
use scrigno.Client.Store.Numbers.{parse_i64, to_string}
use scrigno.Client.Vault.{
  UnlockedVault, kv_cache_limit_mb, default_cache_limit_mb, is_cached, update_slot, openable,
}

pub cache_limit_mb : Store → ℕ
cache_limit_mb store =
    Option.get_or (Option.bind (kv_get kv_cache_limit_mb store) parse_i64) default_cache_limit_mb

set_cached : Bool → DocSummary → DocSummary
set_cached cached slot = record slot { cached = cached }

pub refresh_cached_flag : Uuid → UnlockedVault → UnlockedVault
unfolding set_cached
refresh_cached_flag id vault = elim (get_document id vault.store) [
  | none ↦ vault
  | some row ↦ record vault {
    index = update_slot id (set_cached (is_cached vault.store row)) vault.index;
  }
]

refresh_rows : Uuid → List DocumentRow → UnlockedVault → UnlockedVault
unfolding refresh_cached_flag
refresh_rows blob_id [] vault = vault
refresh_rows blob_id (row ∷ rows) vault =
    refresh_rows blob_id rows
      (if same_id row.blob_id blob_id then refresh_cached_flag row.id vault else vault)

pub refresh_cached_flag_by_blob : Uuid → UnlockedVault → UnlockedVault
unfolding refresh_rows
refresh_cached_flag_by_blob blob_id vault = refresh_rows blob_id (list_documents vault.store) vault

-- One eviction: the row, the file and the flags.
pub evict_blob : Uuid → UnlockedVault → UnlockedVault
unfolding refresh_cached_flag_by_blob
evict_blob blob_id vault =
    refresh_cached_flag_by_blob blob_id
      (record vault { store = remove_file blob_id (cache_remove blob_id vault.store).1 })

-- The loop over the rows that may go, oldest access first.
evict_loop : ℕ → ℕ → List CacheRow → UnlockedVault → UnlockedVault
unfolding evict_blob
evict_loop limit total [] vault = vault
evict_loop limit total (row ∷ rows) vault =
    if leb total limit then vault else elim (cache_remove row.blob_id vault.store).0 [
      | none ↦ evict_loop limit total rows vault
      | some _ ↦ evict_loop limit (total - row.size) rows (evict_blob row.blob_id vault)
    ]

pub evict_cache_over_limit : UnlockedVault → UnlockedVault
unfolding evict_loop cache_limit_mb
evict_cache_over_limit vault =
    let limit_bytes = cache_limit_mb vault.store * 1024 * 1024 in
    let total = cache_total_size vault.store in
    if leb total limit_bytes
    then vault
    else evict_loop limit_bytes total (cache_evictable_by_lru vault.store) vault

pub set_cache_limit_mb : ℕ → UnlockedVault → UnlockedVault
unfolding evict_cache_over_limit
set_cache_limit_mb mb vault =
    evict_cache_over_limit
      (record vault { store = kv_set kv_cache_limit_mb (to_string mb) vault.store })

-- The transaction that records a blob whose file is in place, and the eviction after it.
pub record_cached : Uuid → Bytes → ℕ → UnlockedVault → UnlockedVault
unfolding evict_cache_over_limit
record_cached blob_id bytes now vault = evict_cache_over_limit (record vault {
  store = cache_put blob_id (length bytes) now (write_file blob_id bytes vault.store);
})

-- What the vault asks of the server, which has a state.
pub record BlobSource (Remote : Type 0) : Type 0 where
  pub get_blob_to_file : Uuid → Remote → Result ClientError Bytes × Remote

-- `blob::Decryptor` over a whole file: what it gives, or `storage`, which every error of `std::io`
-- becomes.
pub record BlobReader : Type 0 where
  pub decrypt : MasterKey → DocId → Bytes → Result ClientError Bytes

module _ {Remote : Type 0} (source : BlobSource Remote) where
  -- The cached file is there: nothing is fetched.
  pub ensure_cached : Uuid → ℕ → UnlockedVault × Remote → Outcome Uuid (UnlockedVault × Remote)
  unfolding record_cached
  ensure_cached blob_id now (vault, remote) =
      elim (Option.bind (cache_get blob_id vault.store)
        (λ row. read_file row.blob_id vault.store)) [
          | some _ ↦ (ok blob_id, (vault, remote))
          | none ↦
              let (answer, remote') = source.get_blob_to_file blob_id remote in
              elim answer [
                | ok bytes ↦ (ok blob_id, (record_cached blob_id bytes now vault, remote'))
                | err e ↦ (err e, (vault, remote'))
              ]
        ]

  -- The content of a document: what is written to the `writer`.
  pub open_doc :
      BlobReader → Uuid → ℕ → UnlockedVault × Remote → Outcome Bytes (UnlockedVault × Remote)
  unfolding ensure_cached refresh_cached_flag openable
  open_doc reader id now (vault, remote) = do
    ((row, blob_id), (vault, remote)) ← (openable id vault.store, (vault, remote))
    (path, (vault, remote)) ← ensure_cached blob_id now (vault, remote)
    (bytes, (vault, remote)) ←
        (ok_or (read_file path vault.store) storage, (refresh_cached_flag id vault, remote))
    (plain, (vault, remote)) ←
        (reader.decrypt vault.mk (record { uuid = row.id }) bytes, (vault, remote))
    (ok plain, (record vault { store = cache_touch blob_id now vault.store }, remote))
