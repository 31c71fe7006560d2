-- ===== src/Client/Vault/Edit.antt =====
-- vault.rs: the methods that change a document: `add`, `update_meta`, `delete`, `set_keep_offline`.
-- Random draws, new ids and the time are arguments.
pub mod Rows
pub mod Readable
pub mod Creation
pub mod Content
pub mod Preview
use scrigno.Prelude.{
  ℕ, ◌+◌, ◌^◌, Bool, true, false, Option, none, some, List, [], ◌∷◌, length, if◌then◌else◌, Result,
  ok, err, ok_or, map_err, ◌>>=◌, ◌++◌,
}
use scrigno.Prelude.Bytes.{Bytes, codes, starts_with}
use scrigno.Server.{Uuid}
use scrigno.Core
use scrigno.Core.{MasterKey, DocId, Aead}
use scrigno.Core.Meta.{DocMeta, Json, EncMeta, seal}
use scrigno.Client.{DocumentRow, DocSummary, ClientError, not_found, crypto}
use scrigno.Client.Store.{Store, get_document, upsert_document, cache_put, write_file}
use scrigno.Client.Vault.{
  UnlockedVault, doc_version_of, doc_meta_to_summary, is_cached, find_summary, update_slot,
  remove_summary, live_row, open_row,
}
use scrigno.Client.Vault.Thumbnail.{Images, generate_thumbnail}
use scrigno.Client.Vault.Cache.{evict_cache_over_limit}

pub record NewDocFields : Type 0 where
  pub title : Bytes
  pub tags : List Bytes
  pub note : Bytes
  pub mime : Bytes
  pub original_name : Bytes
  pub keep_offline : Bool

-- `blob::Encryptor` over a whole content, on a draw, with the errors that it becomes here; BLAKE3 in
-- hexadecimal; the crate `image`, over its own type of images.
pub record BlobWriter : Type 1 where
  pub Image : Type 0
  pub encrypt : MasterKey → DocId → Option Bytes → Bytes → Result ClientError Bytes
  pub blake3_hex : Bytes → Bytes
  pub images : Images Image

-- What a method draws and asks the clock for.
pub record Draws : Type 0 where
  pub doc_id : Uuid
  pub blob_id : Uuid
  pub blob : Option Bytes
  pub nonce : Option Bytes
  pub now : ℕ
  pub now_text : Bytes

-- Errors leave the state as it was.
or_unchanged {ℓ} :
    {A : Type ℓ}
    → UnlockedVault
    → Result ClientError (A × UnlockedVault)
    → Result ClientError A × UnlockedVault
or_unchanged vault (ok (a, vault')) = (ok a, vault')
or_unchanged vault (err e) = (err e, vault)

-- The summary that an edit or a deletion starts from.
current_of : Uuid → UnlockedVault → Result ClientError (DocumentRow × DocSummary)
unfolding live_row
current_of id vault = do
  row ← live_row id vault.store
  current ← ok_or (find_summary id vault.index) not_found
  ok (row, current)

-- The row after an edit: the version is the one that the server will assign.
pub edited_row : ℕ → DocumentRow → DocumentRow
edited_row now row = record row { version = row.base_version + 1; dirty = true; updated_at = now }

-- And after a deletion.
pub tombstone_row : ℕ → DocumentRow → DocumentRow
unfolding edited_row
tombstone_row now row = record (edited_row now row) {
  deleted = true;
  blob_id = none;
  blob_size = 0;
}

-- The metadata of an edit keeps what only the content decides, and the thumbnail.
unfoldable pub edited_meta : DocSummary → Bytes → List Bytes → Bytes → Option Bytes → DocMeta
edited_meta current title tags note thumb = record {
  v = 1;
  title = title;
  tags = tags;
  note = note;
  mime = current.mime;
  size = current.size;
  content_hash = current.content_hash;
  original_name = current.original_name;
  created_at = current.created_at;
  thumb = thumb;
}

set_offline : Bool → DocSummary → DocSummary
set_offline keep_offline slot = record slot { keep_offline = keep_offline }

module _ (aead : Aead) (json : Json) where
  -- The row with the metadata sealed under its version.
  pub seal_row :
      MasterKey → DocId → Option Bytes → DocMeta → DocumentRow → Result ClientError DocumentRow
  unfolding doc_version_of
  seal_row mk doc_id nonce meta row = do
    enc_meta ← map_err (seal aead json mk doc_id (doc_version_of row) meta nonce) crypto
    ok (record row { enc_meta = enc_meta.bytes })

  pub update_meta :
      Uuid
      → Bytes
      → List Bytes
      → Bytes
      → Draws
      → UnlockedVault
      → Result ClientError DocSummary × UnlockedVault
  unfolding or_unchanged current_of edited_row edited_meta seal_row
  update_meta id title tags note draws vault = or_unchanged vault (do
    (row, current) ← current_of id vault
    existing_meta ← open_row aead json vault.mk (record { uuid = id }) row
    let meta = edited_meta current title tags note existing_meta.thumb
    row' ← seal_row vault.mk (record { uuid = id }) draws.nonce meta (edited_row draws.now row)
    let store = upsert_document row' vault.store
    let summary = doc_meta_to_summary row' meta (is_cached store row')
    ok (summary, record vault { store = store; index = update_slot id (λ _. summary) vault.index }))

  pub delete : Uuid → Draws → UnlockedVault → Result ClientError (Unit {0}) × UnlockedVault
  unfolding or_unchanged current_of tombstone_row edited_meta seal_row
  delete id draws vault = or_unchanged vault (do
    (row, current) ← current_of id vault
    let meta = edited_meta current current.title current.tags current.note none
    row' ← seal_row vault.mk (record { uuid = id }) draws.nonce meta (tombstone_row draws.now row)
    ok (
      tt,
      record vault {
        store = upsert_document row' vault.store;
        index = remove_summary id vault.index;
      },
    ))

  module _ (writer : BlobWriter) where
    -- `HashingWriter` stands below the encryptor, so size and hash are those of the ciphertext.
    unfoldable pub new_meta : NewDocFields → Bytes → Bytes → Bytes → DocMeta
    new_meta fields content bytes created_at = record {
      v = 1;
      title = fields.title;
      tags = fields.tags;
      note = fields.note;
      mime = fields.mime;
      size = length bytes;
      content_hash = writer.blake3_hex bytes;
      original_name = fields.original_name;
      created_at = created_at;
      thumb =
          if starts_with (codes "image/") fields.mime
          then generate_thumbnail writer.images content
          else none;
    }

    pub new_row : DocId → NewDocFields → Draws → Bytes → DocumentRow
    new_row doc_id fields draws bytes = record {
      id = doc_id.uuid;
      version = 1;
      base_version = 0;
      blob_id = some draws.blob_id;
      blob_size = length bytes;
      enc_meta = [];
      deleted = false;
      dirty = true;
      keep_offline = fields.keep_offline;
      updated_at = draws.now;
    }

    -- A failure to seal the metadata comes after the file is in place.
    pub encrypt_new_document :
        DocId
        → Bytes
        → NewDocFields
        → Draws
        → UnlockedVault
        → Result ClientError (DocumentRow × DocMeta) × UnlockedVault
    unfolding new_meta new_row seal_row
    encrypt_new_document doc_id content fields draws vault =
        elim (writer.encrypt vault.mk doc_id draws.blob content) [
          | err e ↦ (err e, vault)
          | ok bytes ↦
              let store = write_file draws.blob_id bytes vault.store in
              let meta = new_meta fields content bytes draws.now_text in
              elim (seal_row vault.mk doc_id draws.nonce meta (new_row doc_id fields draws bytes)) [
                | err e ↦ (err e, record vault { store = store })
                | ok row ↦ (
                  ok (row, meta),
                  evict_cache_over_limit (record vault {
                    store =
                        cache_put draws.blob_id (length bytes) draws.now
                          (upsert_document row store);
                  }),
                )
              ]
        ]

    pub add :
        Bytes → NewDocFields → Draws → UnlockedVault → Result ClientError DocSummary × UnlockedVault
    unfolding encrypt_new_document
    add content fields draws vault =
        let fields' = record fields { keep_offline = false } in
        let (made, vault') =
          encrypt_new_document (record { uuid = draws.doc_id }) content fields' draws vault in
        elim made [
          | err e ↦ (err e, vault')
          | ok (row, meta) ↦
              let summary = doc_meta_to_summary row meta true in
              (ok summary, record vault' { index = vault'.index ++ summary ∷ [] })
        ]

pub set_keep_offline : Uuid → Bool → UnlockedVault → Result ClientError (Unit {0}) × UnlockedVault
unfolding or_unchanged set_offline
set_keep_offline id keep_offline vault = or_unchanged vault (do
  row ← ok_or (get_document id vault.store) not_found
  ok (
    tt,
    record vault {
      store = upsert_document (record row { keep_offline = keep_offline }) vault.store;
      index = update_slot id (set_offline keep_offline) vault.index;
    },
  ))
