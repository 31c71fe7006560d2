-- ===== src/Client/Vault.antt =====
-- vault.rs: the unlocked vault, its index of summaries, and what reads them. The HTTP client is not in
-- the record: it is an argument of the methods that use the network.
pub mod Cache
pub mod Edit
pub mod Index
pub mod Bootstrap
pub mod Thumbnail
pub mod Sealed
use scrigno.Prelude.{
  ℕ, ◌+◌, ◌-◌, ◌^◌, min, Bool, true, false, not, Option, none, some, List, [], ◌∷◌, ◌++◌, ltb, ◌==◌,
  if◌then◌else◌, Result, ok, err, ok_or, map_err, ◌>>=◌,
}
use scrigno.Prelude.Bytes.{Bytes, codes}
use scrigno.Server.{Uuid}
use scrigno.Core.{MasterKey, DocId, Aead}
use scrigno.Core.Meta.{DocMeta, Json, EncMeta, from_bytes, open_meta}
use scrigno.Client.{DocumentRow, DocSummary, ClientError, crypto, not_found}
use scrigno.Client.Store.{Store, get_document, list_documents, cache_get}

abbrev pub kv_cursor : Bytes
kv_cursor = codes "cursor"

abbrev pub kv_cache_limit_mb : Bytes
kv_cache_limit_mb = codes "cache_limit_mb"

abbrev pub default_cache_limit_mb : ℕ
default_cache_limit_mb = 512

-- A vault whose master key is in memory.
pub record UnlockedVault : Type 0 where
  pub store : Store
  pub vault_id : Uuid
  pub mk : MasterKey
  pub index : List DocSummary
  pub unreadable_at_unlock : List Uuid

-- `u32::try_from(row.version).unwrap_or(u32::MAX)`.
unfoldable pub doc_version_of : DocumentRow → ℕ
doc_version_of row = if ltb row.version (2 ^ 32) then row.version else 2 ^ 32 - 1

-- The match that `row_to_summary`, `update_meta` and `refresh_cached_flag` make.
pub is_cached : Store → DocumentRow → Bool
is_cached store row = elim row.blob_id [
  | none ↦ false
  | some blob_id ↦ elim (cache_get blob_id store) [ none ↦ false | some _ ↦ true ]
]

pub doc_meta_to_summary : DocumentRow → DocMeta → Bool → DocSummary
doc_meta_to_summary row meta cached = record {
  id = row.id;
  title = meta.title;
  tags = meta.tags;
  note = meta.note;
  mime = meta.mime;
  size = min meta.size (2 ^ 63 - 1);
  content_hash = meta.content_hash;
  original_name = meta.original_name;
  created_at = meta.created_at;
  version = row.version;
  dirty = row.dirty;
  keep_offline = row.keep_offline;
  blob_size = row.blob_size;
  cached = cached;
}

-- `index.iter().find(...)`.
unfoldable pub find_summary : Uuid → List DocSummary → Option DocSummary
find_summary id [] = none
find_summary id (s ∷ ss) = if s.id == id then some s else find_summary id ss

-- `index.iter_mut().find(...)`, and the assignments to what it finds.
unfoldable pub update_slot : Uuid → (DocSummary → DocSummary) → List DocSummary → List DocSummary
update_slot id f [] = []
update_slot id f (s ∷ ss) = if s.id == id then f s ∷ ss else s ∷ update_slot id f ss

-- `index.retain(|s| s.id != id)`.
unfoldable pub remove_summary : Uuid → List DocSummary → List DocSummary
remove_summary id [] = []
remove_summary id (s ∷ ss) =
    let rest = remove_summary id ss in if s.id == id then rest else s ∷ rest

-- The row of a document that is not a tombstone.
pub live_row : Uuid → Store → Result ClientError DocumentRow
live_row id store = do
  row ← ok_or (get_document id store) not_found
  if row.deleted then err not_found else ok row

-- The row of a document that can be read, with the id of its blob.
pub openable : Uuid → Store → Result ClientError (DocumentRow × Uuid)
unfolding live_row
openable id store = do
  row ← live_row id store
  blob_id ← ok_or row.blob_id not_found
  ok (row, blob_id)

module _ (aead : Aead) (json : Json) where
  -- The metadata of a row, opened under its version.
  unfoldable pub open_row : MasterKey → DocId → DocumentRow → Result ClientError DocMeta
  unfolding doc_version_of
  open_row mk doc_id row = do
    enc ← map_err (from_bytes row.enc_meta) crypto
    map_err (open_meta aead json mk doc_id (doc_version_of row) enc) crypto

  pub row_to_summary : Store → MasterKey → DocumentRow → Result ClientError DocSummary
  unfolding open_row doc_meta_to_summary is_cached
  row_to_summary store mk row = do
    plain ← open_row mk (record { uuid = row.id }) row
    ok (doc_meta_to_summary row plain (is_cached store row))

  index_rows : Store → MasterKey → List DocumentRow → List DocSummary × List Uuid
  unfolding row_to_summary
  index_rows store mk [] = ([], [])
  index_rows store mk (row ∷ rows) =
      let rest = index_rows store mk rows in
      if row.deleted then rest else elim (row_to_summary store mk row) [
        | ok summary ↦ (summary ∷ rest.0, rest.1)
        | err _ ↦ (rest.0, row.id ∷ rest.1)
      ]

  -- The index, and the ids that were skipped.
  pub rebuild_index : Store → MasterKey → List DocSummary × List Uuid
  unfolding index_rows
  rebuild_index store mk = index_rows store mk (list_documents store)

  pub get_meta : Uuid → UnlockedVault → Result ClientError DocMeta
  unfolding open_row live_row
  get_meta id vault = do
    row ← live_row id vault.store
    open_row vault.mk (record { uuid = row.id }) row

-- The index is emptied, and the store is kept.
pub lock : UnlockedVault → Store
lock vault = vault.store
