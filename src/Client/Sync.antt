-- ===== src/Client/Sync.antt =====
-- sync.rs: pull, push and prefetch. The server, the clock and the generator of random numbers are an
-- environment with a state; a counter never reaches 2 ^ 32.
pub mod Rounds
pub mod Records
use mathlib.Core.Option
use scrigno.Prelude.{
  ℕ, zero, suc, ◌+◌, Bool, true, false, not, ◌&&◌, Option, none, some, List, [], ◌∷◌, ◌++◌, take,
  ltb, if◌then◌else◌, Result, ok, err, ok_or,
}
use scrigno.Prelude.Bytes.{Bytes, codes}
use scrigno.Server.{Uuid, DocumentRecord, PutDocRequest}
use scrigno.Server.Changes.{ChangesPage}
use scrigno.Core.{Aead}
use scrigno.Core.Meta.{Json}
use scrigno.Client.{
  DocumentRow, DocSummary, SyncWarning, rollback, SyncReport, ClientError, contention, storage,
  Outcome, ◌>>=◌,
}
use scrigno.Client.Store.{
  Store, kv_get, kv_set, get_document, upsert_document, list_documents, list_dirty_documents,
  cache_get, cache_remove, read_file, remove_file, same_id,
}
use scrigno.Client.Store.Numbers.{parse_i64, to_string}
use scrigno.Client.Vault.{
  UnlockedVault, kv_cursor, doc_meta_to_summary, row_to_summary, find_summary, update_slot,
  remove_summary,
}
use scrigno.Client.Vault.Cache.{BlobSource, BlobReader, ensure_cached, refresh_cached_flag}
use scrigno.Client.Vault.Edit.{BlobWriter, Draws, NewDocFields, encrypt_new_document}

abbrev pub page_limit : ℕ
page_limit = 200

abbrev pub max_rounds : ℕ
max_rounds = 3

-- `PutOutcome`.
pub data PutOutcome : Type 0 where
  applied : DocumentRecord → PutOutcome
  conflict : PutOutcome

-- The calls of the HTTP client, and what is drawn between them.
pub record Environment (Remote : Type 0) : Type 0 where
  pub source : BlobSource Remote
  pub get_changes : ℕ → ℕ → Remote → Result ClientError ChangesPage × Remote
  pub http_put_blob : Uuid → Bytes → Remote → Result ClientError (Unit {0}) × Remote
  pub http_put_doc : Uuid → ℕ → PutDocRequest → Remote → Result ClientError PutOutcome × Remote
  pub http_delete_doc : Uuid → ℕ → Remote → Result ClientError PutOutcome × Remote
  pub draw : Remote → Draws × Remote

-- The cached blob of a row that points at another one now.
drop_stale : Option Uuid → Option Uuid → Store → Store
drop_stale none new store = store
drop_stale (some old) new store =
    if same_id new old then store else elim (cache_remove old store).0 [
      | none ↦ (cache_remove old store).1
      | some _ ↦ remove_file old (cache_remove old store).1
    ]

-- The local row of a record of the server.
unfoldable pub pulled_row : Bool → ℕ → DocumentRecord → DocumentRow
pulled_row keep_offline now item = record {
  id = item.id;
  version = item.version;
  base_version = item.version;
  blob_id = item.blob_id;
  blob_size = item.blob_size;
  enc_meta = item.enc_meta;
  deleted = item.deleted;
  dirty = false;
  keep_offline = keep_offline;
  updated_at = now;
}

blob_of : Option DocumentRow → Option Uuid
blob_of none = none
blob_of (some row) = row.blob_id

unfoldable pub kept_offline : Option DocumentRow → Bool
kept_offline none = false
kept_offline (some row) = row.keep_offline

-- The row after the server has applied its push.
unfoldable pub pushed_row : DocumentRecord → DocumentRow → DocumentRow
pushed_row item row = record row {
  dirty = false;
  base_version = item.version;
  version = item.version;
  blob_id = item.blob_id;
  blob_size = item.blob_size;
  deleted = item.deleted;
}

unfoldable pub pushed_slot : ℕ → DocSummary → DocSummary
pushed_slot version slot = record slot { dirty = false; version = version }

unfoldable pub conflict_title : Bytes → Bytes → Bytes
conflict_title title now_text =
    title ++ codes " (copia in conflitto " ++ take 10 now_text ++ codes ")"

-- Whether a record that was pulled meets a local edit.
pub data Meeting : Type 0 where
  clash : DocumentRow → Meeting
  pending overwrite : Meeting

meet : Option DocumentRow → DocumentRecord → Meeting
meet none item = overwrite
meet (some row) item =
    if row.dirty
    then (if ltb row.base_version item.version then clash row else pending)
    else overwrite

-- The version went back behind the cursor.
pub rollback_warning : ℕ → DocumentRecord → List SyncWarning
rollback_warning cursor item =
    if ltb item.server_seq cursor then rollback item.id cursor item.server_seq ∷ [] else []

unfoldable pub cursor_of : Store → ℕ
cursor_of store = Option.get_or (Option.bind (kv_get kv_cursor store) parse_i64) 0

module _ (aead : Aead) (json : Json) where
  -- The summary of a row that was written.
  index_row : DocumentRow → UnlockedVault → Outcome (Unit {0}) UnlockedVault
  index_row row vault =
      if row.deleted
      then (ok tt, vault)
      else elim (row_to_summary aead json vault.store vault.mk row) [
        | err e ↦ (err e, vault)
        | ok summary ↦ (ok tt, record vault { index = vault.index ++ summary ∷ [] })
      ]

  unfoldable pub apply_pulled_record :
      ℕ → DocumentRecord → UnlockedVault → Outcome (Unit {0}) UnlockedVault
  unfolding drop_stale pulled_row blob_of kept_offline index_row
  apply_pulled_record now item vault =
      let existing = get_document item.id vault.store in
      let row = pulled_row (kept_offline existing) now item in
      index_row row (record vault {
        store = upsert_document row (drop_stale (blob_of existing) item.blob_id vault.store);
        index = remove_summary item.id vault.index;
      })

  module _ {Remote : Type 0} (env : Environment Remote) (reader : BlobReader)
      (writer : BlobWriter) where
    abbrev pub Session : Type 0
    Session = UnlockedVault × Remote

    -- The local edit as a new document, from the old content.
    copy_content : DocumentRow → DocSummary → Uuid → Session → Outcome (Unit {0}) Session
    unfolding conflict_title
    copy_content old summary blob_id (vault, remote) =
        let (draws, remote) = env.draw remote in
        do
          (path, (vault, remote)) ← ensure_cached env.source blob_id draws.now (vault, remote)
          (bytes, (vault, remote)) ← (ok_or (read_file path vault.store) storage, (vault, remote))
          (plain, (vault, remote)) ←
              (reader.decrypt vault.mk (record { uuid = old.id }) bytes, (vault, remote))
          let fields : NewDocFields = record {
            title = conflict_title summary.title draws.now_text;
            tags = summary.tags;
            note = summary.note;
            mime = summary.mime;
            original_name = summary.original_name;
            keep_offline = old.keep_offline;
          }
          let (made, vault) =
              encrypt_new_document aead json writer (record { uuid = draws.doc_id }) plain fields
                draws vault
          ((row, meta), (vault, remote)) ← (made, (vault, remote))
          (
            ok tt,
            (
              record vault { index = vault.index ++ doc_meta_to_summary row meta true ∷ [] },
              remote,
            ),
          )

    pub create_conflict_copy :
        DocumentRow → Option DocSummary → Session → Outcome (Unit {0}) Session
    unfolding copy_content
    create_conflict_copy old none session = (ok tt, session)
    create_conflict_copy old (some summary) session =
        if old.deleted then (ok tt, session) else elim old.blob_id [
          | none ↦ (ok tt, session)
          | some blob_id ↦ copy_content old summary blob_id session
        ]
