-- ===== src/Client/Sync/Rounds.antt =====
-- sync.rs: the loops of `sync`. The pages that the server may give are the fuel of the pull.
pub mod Pulling
pub mod Copying
pub mod Conflict
pub mod Settling
pub mod Pushing
pub mod Finished
pub mod Termination
use scrigno.Prelude.{
  ℕ, zero, suc, ◌+◌, Bool, true, false, not, ◌&&◌, ◌||◌, Option, none, some, List, [], ◌∷◌, ◌++◌,
  map, if◌then◌else◌, Result, ok, err, ok_or,
}
use scrigno.Prelude.Bytes.{Bytes}
use scrigno.Server.{Uuid, DocumentRecord, PutDocRequest}
use scrigno.Server.Changes.{ChangesPage}
use scrigno.Core.{Aead}
use scrigno.Core.Meta.{Json}
use scrigno.Client.{
  DocumentRow, SyncWarning, SyncReport, ClientError, contention, storage, network, Outcome, ◌>>=◌,
}
use scrigno.Client.Store.{
  Store, kv_set, get_document, upsert_document, list_documents, list_dirty_documents, cache_get,
  read_file,
}
use scrigno.Client.Store.Numbers.{to_string}
use scrigno.Client.Vault.{UnlockedVault, kv_cursor, find_summary, update_slot}
use scrigno.Client.Vault.Cache.{BlobReader, ensure_cached, refresh_cached_flag}
use scrigno.Client.Vault.Edit.{BlobWriter}
use scrigno.Client.Sync.{
  page_limit, max_rounds, PutOutcome, applied, conflict, Environment, pushed_row, pushed_slot,
  Meeting, clash, pending, overwrite, meet, rollback_warning, cursor_of, apply_pulled_record,
  create_conflict_copy,
}

-- Records pulled, conflicts and warnings.
pub record Pulled : Type 0 where
  pub pulled : ℕ
  pub conflicts : ℕ
  pub warnings : List SyncWarning

abbrev no_pulled : Pulled
no_pulled = record { pulled = 0; conflicts = 0; warnings = [] }

unfoldable pub add_pulled : Pulled → Pulled → Pulled
add_pulled p q = record {
  pulled = p.pulled + q.pulled;
  conflicts = p.conflicts + q.conflicts;
  warnings = p.warnings ++ q.warnings;
}

unfoldable pub doc_ids : List DocumentRow → List Uuid
doc_ids [] = []
doc_ids (row ∷ rows) = row.id ∷ doc_ids rows

-- What `prefetch_keep_offline` filters.
wanted : List DocumentRow → List DocumentRow
wanted [] = []
wanted (row ∷ rows) =
    let rest = wanted rows in if row.keep_offline && not row.deleted then row ∷ rest else rest

body_of : Uuid → DocumentRow → PutDocRequest
body_of blob_id row = record {
  blob_id = blob_id;
  blob_size = row.blob_size;
  enc_meta = row.enc_meta;
}

-- The row and the slot of a push that was applied.
pub accept : DocumentRow → DocumentRecord → UnlockedVault → UnlockedVault
accept row item vault = record vault {
  store = upsert_document (pushed_row item row) vault.store;
  index = update_slot row.id (pushed_slot item.version) vault.index;
}

-- Whether one more was pushed, and whether one met a conflict.
pub settle :
    {S : Type 0}
    → DocumentRow
    → Outcome PutOutcome (UnlockedVault × S)
    → Outcome (ℕ × Bool) (UnlockedVault × S)
unfolding accept
settle row (err e, s) = (err e, s)
settle row (ok conflict, s) = (ok (0, true), s)
settle row (ok (applied item), (vault, remote)) = (ok (1, false), (accept row item vault, remote))

-- The counts of a page before those of the pages after it.
after : {S : Type 0} → Pulled → Option (Outcome Pulled S) → Option (Outcome Pulled S)
after p none = none
after p (some (err e, session)) = some (err e, session)
after p (some (ok q, session)) = some (ok (add_pulled p q), session)

module _ (aead : Aead) (json : Json) {Remote : Type 0} (env : Environment Remote)
    (reader : BlobReader) (writer : BlobWriter) where
  abbrev Session : Type 0
  Session = UnlockedVault × Remote

  -- One record of a page.
  unfoldable pub pull_item : ℕ → DocumentRecord → Session → Outcome Pulled Session
  unfolding meet rollback_warning
  pull_item cursor item (vault, remote) =
      let (draws, remote) = env.draw remote in
      let seen : Pulled = record {
        pulled = 1;
        conflicts = 0;
        warnings = rollback_warning cursor item;
      } in
      let old_summary = find_summary item.id vault.index in
      elim (meet (get_document item.id vault.store) item) [
        | pending ↦ (ok seen, (vault, remote))
        | overwrite ↦
            let (done, vault) = apply_pulled_record aead json draws.now item vault in
            do (done, session) ← (done, (vault, remote)); (ok seen, session)
        | clash row ↦
            let (done, vault) = apply_pulled_record aead json draws.now item vault in
            do
              (done, (vault, remote)) ← (done, (vault, remote))
              (done, session) ←
                  create_conflict_copy aead json env reader writer row old_summary (vault, remote)
              (ok (record seen { conflicts = 1 }), session)
      ]

  unfoldable pub pull_items : ℕ → List DocumentRecord → Session → Outcome Pulled Session
  pull_items cursor [] session = (ok no_pulled, session)
  pull_items cursor (item ∷ items) session = do
    (p, session) ← pull_item cursor item session
    (q, session) ← pull_items cursor items session
    (ok (add_pulled p q), session)

  -- The pages from a cursor on; `none` when there are more than the fuel.
  unfoldable pub pull_pages : ℕ → ℕ → Session → Option (Outcome Pulled Session)
  unfolding after
  pull_pages zero cursor session = none
  pull_pages (suc fuel) cursor (vault, remote) =
      let (answer, remote) = env.get_changes cursor page_limit remote in
      elim answer [
        | err e ↦ some (err e, (vault, remote))
        | ok page ↦
            let (seen, (vault, remote)) = pull_items cursor page.items (vault, remote) in
            elim seen [
              | err e ↦ some (err e, (vault, remote))
              | ok p ↦
                  let store = kv_set kv_cursor (to_string page.next_since) vault.store in
                  let session : Session = (record vault { store = store }, remote) in
                  if page.has_more
                  then after p (pull_pages fuel page.next_since session)
                  else some (ok p, session)
            ]
      ]

  unfoldable pub pull : ℕ → Session → Option (Outcome Pulled Session)
  pull fuel (vault, remote) = pull_pages fuel (cursor_of vault.store) (vault, remote)

  -- A row that was never pushed has its blob sent first.
  send_blob : DocumentRow → Uuid → Session → Outcome (Unit {0}) Session
  send_blob row blob_id (vault, remote) = elim row.base_version [
    | suc _ ↦ (ok tt, (vault, remote))
    | zero ↦ elim (read_file blob_id vault.store) [
      | none ↦ (err storage, (vault, remote))
      | some bytes ↦
          let (done, remote) = env.http_put_blob blob_id bytes remote in (done, (vault, remote))
    ]
  ]

  push_edit : DocumentRow → Uuid → Session → Outcome PutOutcome Session
  unfolding send_blob body_of
  push_edit row blob_id session = do
    (done, (vault, remote)) ← send_blob row blob_id session
    let (outcome, remote) = env.http_put_doc row.id row.base_version (body_of blob_id row) remote
    (outcome, (vault, remote))

  push_deletion : DocumentRow → Session → Outcome PutOutcome Session
  push_deletion row (vault, remote) =
      let (outcome, remote) = env.http_delete_doc row.id row.base_version remote in
      (outcome, (vault, remote))

  -- A dirty row.
  unfoldable pub push_row : DocumentRow → Session → Outcome (ℕ × Bool) Session
  unfolding push_edit push_deletion settle
  push_row row session =
      if row.deleted then settle row (push_deletion row session) else elim row.blob_id [
        | none ↦ (ok (0, false), session)
        | some blob_id ↦ settle row (push_edit row blob_id session)
      ]

  -- One id of the list: its row is read again.
  unfoldable pub push_id : Uuid → Session → Outcome (ℕ × Bool) Session
  push_id id (vault, remote) = elim (get_document id vault.store) [
    | none ↦ (ok (0, false), (vault, remote))
    | some row ↦
        if row.dirty then push_row row (vault, remote) else (ok (0, false), (vault, remote))
  ]

  unfoldable pub push_ids : List Uuid → Session → Outcome (ℕ × Bool) Session
  push_ids [] session = (ok (0, false), session)
  push_ids (id ∷ ids) session = do
    ((pushed, met), session) ← push_id id session
    ((pushed', met'), session) ← push_ids ids session
    (ok (pushed + pushed', met || met'), session)

  unfoldable pub push_once : Session → Outcome (ℕ × Bool) Session
  unfolding doc_ids
  push_once (vault, remote) = push_ids (doc_ids (list_dirty_documents vault.store)) (vault, remote)

  unfoldable pub fetch_row : DocumentRow → Session → Outcome (Unit {0}) Session
  fetch_row row (vault, remote) = elim row.blob_id [
    | none ↦ (ok tt, (vault, remote))
    | some blob_id ↦ elim (cache_get blob_id vault.store) [
      | some _ ↦ (ok tt, (vault, remote))
      | none ↦
          let (draws, remote) = env.draw remote in
          do
            (path, (vault, remote)) ← ensure_cached env.source blob_id draws.now (vault, remote)
            (ok tt, (refresh_cached_flag row.id vault, remote))
    ]
  ]

  unfoldable pub fetch_rows : List DocumentRow → Session → Outcome (Unit {0}) Session
  fetch_rows [] session = (ok tt, session)
  fetch_rows (row ∷ rows) session = do
    (done, session) ← fetch_row row session
    fetch_rows rows session

  unfoldable pub prefetch_keep_offline : Session → Outcome (Unit {0}) Session
  unfolding wanted
  prefetch_keep_offline (vault, remote) =
      fetch_rows (wanted (list_documents vault.store)) (vault, remote)

  report_of : Pulled → ℕ → SyncReport
  report_of p pushed = record {
    pulled = p.pulled;
    pushed = pushed;
    conflicts = p.conflicts;
    warnings = p.warnings;
  }

  -- The rounds that are left, with what the earlier ones counted.
  unfoldable pub sync_rounds : ℕ → ℕ → Pulled → ℕ → Session → Option (Outcome SyncReport Session)
  unfolding report_of
  sync_rounds fuel zero p pushed session = some (err contention, session)
  sync_rounds fuel (suc rounds) p pushed session = elim (pull fuel session) [
    | none ↦ none
    | some (err e, session) ↦ some (err e, session)
    | some (ok q, session) ↦
        let (sent, session) = push_once session in
        elim sent [
          | err e ↦ some (err e, session)
          | ok (n, true) ↦ sync_rounds fuel rounds (add_pulled p q) (pushed + n) session
          | ok (n, false) ↦ some (do
            (done, session) ← prefetch_keep_offline session
            (ok (report_of (add_pulled p q) (pushed + n)), session))
        ]
  ]

  unfoldable pub sync : ℕ → Session → Option (Outcome SyncReport Session)
  sync fuel session = sync_rounds fuel max_rounds no_pulled 0 session
