-- ===== src/Client/Vault/Edit/Readable.antt =====
-- Edits and deletions: what can be read after them.
use scrigno.Prelude.{
  ℕ, ◌^◌, ◌<◌, ◌≡◌, refl, ◌∙◌, ap, Bool, true, false, none, some, List, [], ◌∷◌, length, ok, err,
  arith, ◌==◌, if◌then◌else◌,
}
use scrigno.Prelude.Bytes.{Bytes}
use scrigno.Server.{Uuid}
use scrigno.Core.{MasterKey, DocId, Aead, AeadLaws}
use scrigno.Core.Meta.{DocMeta, Json, JsonLaws, nonce_len}
use scrigno.Core.Meta.Sealing.{open_meta-seal}
use scrigno.Client.{DocumentRow, DocSummary, not_found}
use scrigno.Client.Store.{Store, get_document, upsert_document}
use scrigno.Client.Store.Tables.{get_document-upsert_document, get_document-id}
use scrigno.Client.Vault.{
  UnlockedVault, doc_version_of, is_cached, row_to_summary, doc_meta_to_summary, find_summary,
  remove_summary, live_row, open_row, get_meta,
}
use scrigno.Client.Vault.Edit.{
  Draws, or_unchanged, current_of, edited_row, tombstone_row, edited_meta, seal_row, update_meta,
  delete, set_keep_offline,
}
use scrigno.Client.Vault.Edit.Rows.{
  EditedRow, EditedMeta, edited_row-EditedRow, edited_meta-EditedMeta,
}

==-id : {a b : Uuid} → a ≡ b → (a == b) ≡ true
==-id h = ground (arith, h)

edited_row-id :
    (now : ℕ) (row : DocumentRow) {id : Uuid} → row.id ≡ id → (edited_row now row).id ≡ id
unfolding edited_row
edited_row-id now row e = e

tombstone_row-id :
    (now : ℕ) (row : DocumentRow) {id : Uuid} → row.id ≡ id → (tombstone_row now row).id ≡ id
unfolding tombstone_row edited_row
tombstone_row-id now row e = e

tombstone_row-deleted : (now : ℕ) (row : DocumentRow) → (tombstone_row now row).deleted ≡ true
unfolding tombstone_row
tombstone_row-deleted now row = refl

find_summary-remove_summary :
    (id : Uuid) (ss : List DocSummary) → find_summary id (remove_summary id ss) ≡ none
unfolding find_summary remove_summary
find_summary-remove_summary id [] = refl
find_summary-remove_summary id (s ∷ ss) = ground (arith, find_summary-remove_summary id ss)

edited_row-deleted : (now : ℕ) (row : DocumentRow) → (edited_row now row).deleted ≡ row.deleted
unfolding edited_row
edited_row-deleted now row = refl

module _ (aead : Aead) (laws : AeadLaws aead) (json : Json) (json_laws : JsonLaws json) where
  -- Sealed metadata is what the row opens to.
  pub open_row-seal_row :
      (mk : MasterKey) (doc_id : DocId) (nonce plain : Bytes) (meta : DocMeta) (row : DocumentRow)
      → json.to_vec meta ≡ some plain
      → length plain < 2 ^ 32
      → length nonce ≡ nonce_len
      → (enc : Bytes) × (seal_row aead json mk doc_id (some nonce) meta row
          ≡ ok (record row { enc_meta = enc }))
        × (open_row aead json mk doc_id (record row { enc_meta = enc }) ≡ ok meta)
  unfolding seal_row open_row
  open_row-seal_row mk doc_id nonce plain meta row hp hl hn =
      let (enc, sealed, parsed, opened) =
        open_meta-seal aead laws json json_laws mk doc_id (doc_version_of row) meta plain nonce hp
          hl hn in
      (enc.bytes, rw sealed refl, rw (parsed, opened))

  -- A row whose metadata opens has a summary.
  pub row_to_summary-open_row :
      (store : Store) (mk : MasterKey) (row : DocumentRow) (meta : DocMeta)
      → open_row aead json mk (record { uuid = row.id }) row ≡ ok meta
      → row_to_summary aead json store mk row
        ≡ ok (doc_meta_to_summary row meta (is_cached store row))
  unfolding row_to_summary
  row_to_summary-open_row store mk row meta h = rw h refl

  pub get_meta-found :
      (id : Uuid) (vault : UnlockedVault) (row : DocumentRow)
      → get_document id vault.store ≡ some row
      → row.deleted ≡ false
      → get_meta aead json id vault ≡ open_row aead json vault.mk (record { uuid = id }) row
  unfolding get_meta live_row
  get_meta-found id vault row found live =
      rw (found, live, get_document-id id vault.store row found) refl

  get_meta-tombstone :
      (id : Uuid) (vault : UnlockedVault) (row : DocumentRow)
      → get_document id vault.store ≡ some row
      → row.deleted ≡ true
      → get_meta aead json id vault ≡ err not_found
  unfolding get_meta live_row
  get_meta-tombstone id vault row found gone = rw (found, gone) refl

  get_document-upsert_same :
      (id : Uuid) (row : DocumentRow) (s : Store)
      → row.id ≡ id
      → get_document id (upsert_document row s) ≡ some row
  get_document-upsert_same id row s e = rw (get_document-upsert_document id row s, ==-id e) refl

  module _ (id : Uuid) (draws : Draws) (vault : UnlockedVault) (row : DocumentRow)
      (current : DocSummary) (nonce plain : Bytes) (found : get_document id vault.store ≡ some row)
      (live : row.deleted ≡ false) (listed : find_summary id vault.index ≡ some current)
      (drawn : draws.nonce ≡ some nonce) (len : length nonce ≡ nonce_len) where
    current_of-found : current_of id vault ≡ ok (row, current)
    unfolding current_of live_row
    current_of-found = rw (found, live, listed) refl

    update_meta-sealed :
        (title note : Bytes) (tags : List Bytes) (old : DocMeta) (row' : DocumentRow)
        → open_row aead json vault.mk (record { uuid = id }) row ≡ ok old
        → seal_row aead json vault.mk
            (record { uuid = id })
            draws.nonce
            (edited_meta current title tags note old.thumb)
            (edited_row draws.now row)
          ≡ ok row'
        → ((update_meta aead json id title tags note draws vault).1.store
            ≡ upsert_document row' vault.store)
          × ((update_meta aead json id title tags note draws vault).1.mk ≡ vault.mk)
    unfolding update_meta or_unchanged
    update_meta-sealed title note tags old row' opened sealed =
        (rw (current_of-found, opened, sealed) refl, rw (current_of-found, opened, sealed) refl)

    -- update_meta of a live and listed document whose metadata opens, with new metadata of less than
    -- 2 ^ 32 bytes on a draw of 24: get_meta gives the new title, tags and note, the MIME type, size,
    -- hash, original name and time of creation that were listed, and the thumbnail of before; and the
    -- row is dirty, at the version after its base, with the base, the blob and the flags of before.
    pub get_meta-update_meta :
        (title note : Bytes) (tags : List Bytes) (old : DocMeta)
        → open_row aead json vault.mk (record { uuid = id }) row ≡ ok old
        → json.to_vec (edited_meta current title tags note old.thumb) ≡ some plain
        → length plain < 2 ^ 32
        → (meta : DocMeta) × (new : DocumentRow) × (get_meta aead json id
              (update_meta aead json id title tags note draws vault).1
            ≡ ok meta)
          × EditedMeta current title tags note old.thumb meta
          × (get_document id (update_meta aead json id title tags note draws vault).1.store
              ≡ some new)
          × EditedRow row draws.now new
    get_meta-update_meta title note tags old opened hp hl =
        let meta = edited_meta current title tags note old.thumb in
        let (enc, sealed, again) =
          open_row-seal_row vault.mk (record { uuid = id }) nonce plain meta
            (edited_row draws.now row) hp hl len in
        let new : DocumentRow = record (edited_row draws.now row) { enc_meta = enc } in
        let (store, mk) = update_meta-sealed title note tags old new opened (rw drawn sealed) in
        let kept =
          get_document-upsert_same id new vault.store
            (edited_row-id draws.now row (get_document-id id vault.store row found)) in
        let stored : get_document id (update_meta aead json id title tags note draws vault).1.store
            ≡ some new =
          rw store kept in
        (
          meta,
          new,
          get_meta-found id (update_meta aead json id title tags note draws vault).1 new stored
                (edited_row-deleted draws.now row ∙ live)
              ∙ rw mk again,
          edited_meta-EditedMeta current title tags note old.thumb,
          stored,
          edited_row-EditedRow draws.now row enc,
        )

    delete-sealed :
        (row' : DocumentRow)
        → seal_row aead json vault.mk
            (record { uuid = id })
            draws.nonce
            (edited_meta current current.title current.tags current.note none)
            (tombstone_row draws.now row)
          ≡ ok row'
        → delete aead json id draws vault ≡ (
          ok tt,
          record vault {
            store = upsert_document row' vault.store;
            index = remove_summary id vault.index;
          },
        )
    unfolding delete or_unchanged
    delete-sealed row' sealed = rw (current_of-found, sealed) refl

    -- delete of a live and listed document, with metadata of less than 2 ^ 32 bytes on a draw of 24:
    -- get_meta gives not_found, the document is no longer listed, and its row is a dirty tombstone at
    -- the version after its base, without a blob, whose metadata opens to that of before without the
    -- thumbnail.
    pub delete-NotFound :
        json.to_vec (edited_meta current current.title current.tags current.note none) ≡ some plain
        → length plain < 2 ^ 32
        → (get_meta aead json id (delete aead json id draws vault).1 ≡ err not_found)
          × (find_summary id (delete aead json id draws vault).1.index ≡ none)
          × (enc : Bytes) × (get_document id (delete aead json id draws vault).1.store
              ≡ some (record (tombstone_row draws.now row) { enc_meta = enc }))
          × (open_row aead json vault.mk
                (record { uuid = id })
                (record (tombstone_row draws.now row) { enc_meta = enc })
              ≡ ok (edited_meta current current.title current.tags current.note none))
    delete-NotFound hp hl =
        let meta = edited_meta current current.title current.tags current.note none in
        let (enc, sealed, again) =
          open_row-seal_row vault.mk (record { uuid = id }) nonce plain meta
            (tombstone_row draws.now row) hp hl len in
        let new : DocumentRow = record (tombstone_row draws.now row) { enc_meta = enc } in
        let done = delete-sealed new (rw drawn sealed) in
        let kept =
          get_document-upsert_same id new vault.store
            (tombstone_row-id draws.now row (get_document-id id vault.store row found)) in
        let stored : get_document id (delete aead json id draws vault).1.store ≡ some new =
          rw done kept in
        (
          get_meta-tombstone id (delete aead json id draws vault).1 new stored
              (tombstone_row-deleted draws.now row),
          rw done (find_summary-remove_summary id vault.index),
          enc,
          stored,
          again,
        )

-- Only the flag of the row moves.
pub get_document-set_keep_offline :
    (id : Uuid) (keep : Bool) (v : UnlockedVault) (row : DocumentRow)
    → get_document id v.store ≡ some row
    → get_document id (set_keep_offline id keep v).1.store
      ≡ some (record row { keep_offline = keep })
unfolding set_keep_offline or_unchanged
get_document-set_keep_offline id keep v row found =
    let new : DocumentRow = record row { keep_offline = keep } in
    let kept : (if row.id == id then some new else get_document id v.store) ≡ some new =
      rw (==-id (get_document-id id v.store row found)) refl in
    let done : (set_keep_offline id keep v).1.store ≡ upsert_document new v.store =
      rw (set_keep_offline, found) refl in
    ap (get_document id) done ∙ get_document-upsert_document id new v.store ∙ kept
