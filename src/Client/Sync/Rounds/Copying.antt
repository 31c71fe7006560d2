-- ===== src/Client/Sync/Rounds/Copying.antt =====
-- The new document that a conflict copy is: what `create_conflict_copy` of sync.rs leaves.
use scrigno.Prelude.{
  ◌^◌, ◌<◌, ◌≡◌, refl, ◌∙◌, ap, false, none, some, ◌++◌, take, length, ok, ◌==◌, if◌then◌else◌,
}
use scrigno.Prelude.Bytes.{Bytes, codes, starts_with}
use scrigno.Server.{Uuid}
use scrigno.Core.{Aead, AeadLaws, DocId}
use scrigno.Core.Meta.{DocMeta, Json, JsonLaws, nonce_len}
use scrigno.Client.{DocumentRow, CacheRow, DocSummary}
use scrigno.Client.Store.{Store, get_document, cache_get, read_file}
use scrigno.Client.Store.Tables.{cache_get-blob_id}
use scrigno.Client.Vault.{UnlockedVault, open_row}
use scrigno.Client.Vault.Cache.{BlobReader}
use scrigno.Client.Vault.Cache.Fetching.{ensure_cached-there}
use scrigno.Client.Vault.Edit.{
  BlobWriter, Draws, NewDocFields, encrypt_new_document, new_meta, new_row,
}
use scrigno.Client.Vault.Edit.Rows.{NewRow, new_row-NewRow}
use scrigno.Client.Vault.Edit.Creation.{encrypt_new_document-stored}
use scrigno.Client.Vault.Edit.Content.{read_file-encrypt_new_document}
use scrigno.Client.Vault.Thumbnail.{generate_thumbnail}
use scrigno.Client.Sync.{Environment, conflict_title, copy_content, create_conflict_copy}

-- The metadata of the copy: the edit's words with the title of a conflict copy, and what the copied
-- content decides.
abbrev pub CopyMeta : BlobWriter → DocSummary → Bytes → Bytes → Bytes → DocMeta → Type 0
CopyMeta writer summary content bytes now_text meta =
    (meta.v ≡ 1)
    × (meta.title ≡ summary.title ++ codes " (copia in conflitto " ++ take 10 now_text ++ codes ")")
    × (meta.tags ≡ summary.tags)
    × (meta.note ≡ summary.note)
    × (meta.mime ≡ summary.mime)
    × (meta.size ≡ length bytes)
    × (meta.content_hash ≡ writer.blake3_hex bytes)
    × (meta.original_name ≡ summary.original_name)
    × (meta.created_at ≡ now_text)
    × (meta.thumb ≡ (
        if starts_with (codes "image/") summary.mime
        then generate_thumbnail writer.images content
        else none))

-- What the copy takes from the edit.
unfoldable pub copy_fields : DocumentRow → DocSummary → Draws → NewDocFields
copy_fields old summary draws = record {
  title = conflict_title summary.title draws.now_text;
  tags = summary.tags;
  note = summary.note;
  mime = summary.mime;
  original_name = summary.original_name;
  keep_offline = old.keep_offline;
}

new_meta-CopyMeta :
    (aead : Aead) (json : Json) (writer : BlobWriter) (row : DocumentRow) (summary : DocSummary)
    (content bytes : Bytes) (copy : Draws)
    → CopyMeta writer summary content bytes copy.now_text
        (new_meta aead json writer (copy_fields row summary copy) content bytes copy.now_text)
unfolding new_meta copy_fields conflict_title
new_meta-CopyMeta aead json writer row summary content bytes copy =
    (refl, refl, refl, refl, refl, refl, refl, refl, refl, refl)

new_row-copy_fields :
    (aead : Aead) (json : Json) (writer : BlobWriter) (row : DocumentRow) (summary : DocSummary)
    (bytes enc : Bytes) (copy : Draws)
    → NewRow copy.doc_id copy.blob_id
        (length bytes)
        row.keep_offline
        copy.now
        (record (new_row aead json writer
          (record { uuid = copy.doc_id })
          (copy_fields row summary copy)
          copy
          bytes) { enc_meta = enc })
unfolding copy_fields
new_row-copy_fields aead json writer row summary bytes enc copy =
    new_row-NewRow aead json writer (record { uuid = copy.doc_id }) (copy_fields row summary copy)
      copy bytes enc

module _ (aead : Aead) (json : Json) {Remote : Type 0} (env : Environment Remote)
    (reader : BlobReader) (writer : BlobWriter) where
  -- The content is at hand and the new document is made.
  copy_content-made :
      (old : DocumentRow) (summary : DocSummary) (blob_id : Uuid) (v : UnlockedVault) (r : Remote)
      (crow : CacheRow) (sealed content : Bytes) (made : DocumentRow × DocMeta)
      → cache_get blob_id v.store ≡ some crow
      → read_file blob_id v.store ≡ some sealed
      → reader.decrypt v.mk (record { uuid = old.id }) sealed ≡ ok content
      → (encrypt_new_document aead json writer
          (record { uuid = (env.draw r).0.doc_id })
          content
          (copy_fields old summary (env.draw r).0)
          (env.draw r).0
          v).0
        ≡ ok made
      → ((copy_content aead json env reader writer old summary blob_id (v, r)).0 ≡ ok tt)
        × ((copy_content aead json env reader writer old summary blob_id (v, r)).1.0.store
            ≡ (encrypt_new_document aead json writer
                (record { uuid = (env.draw r).0.doc_id })
                content
                (copy_fields old summary (env.draw r).0)
                (env.draw r).0
                v).1.store)
  unfolding copy_content copy_fields
  copy_content-made old summary blob_id v r crow sealed content made cached there opened done =
      let file : read_file crow.blob_id v.store ≡ some sealed =
        rw (cache_get-blob_id blob_id v.store crow cached) there in
      let fetched =
        ensure_cached-there env.source blob_id (env.draw r).0.now v (env.draw r).1 crow sealed
          cached file in
      (
        rw (copy_content, fetched, there, opened, done) refl,
        rw (copy_content, fetched, there, opened, done) refl,
      )

  -- The store of a new document, by the draw that made it.
  store_of :
      (d copy : Draws)
      → d ≡ copy
      → (row : DocumentRow) (summary : DocSummary) (content : Bytes) (v : UnlockedVault) {s : Store}
      → s
        ≡ (encrypt_new_document aead json writer
            (record { uuid = d.doc_id })
            content
            (copy_fields row summary d)
            d
            v).1.store
      → s
        ≡ (encrypt_new_document aead json writer
            (record { uuid = copy.doc_id })
            content
            (copy_fields row summary copy)
            copy
            v).1.store
  store_of d copy e row summary content v h =
      h
      ∙ ap
          (λ x.
            (encrypt_new_document aead json writer (record { uuid = x.doc_id }) content
              (copy_fields row summary x) x v).1.store)
          e

  create_conflict_copy-live :
      (old : DocumentRow) (summary : DocSummary) (blob_id : Uuid) (v : UnlockedVault) (r : Remote)
      → old.deleted ≡ false
      → old.blob_id ≡ some blob_id
      → create_conflict_copy aead json env reader writer old (some summary) (v, r)
        ≡ copy_content aead json env reader writer old summary blob_id (v, r)
  unfolding create_conflict_copy
  create_conflict_copy-live old summary blob_id v r live e = simp (create_conflict_copy, live, e)

  -- The copy of an edit whose content is at hand: its document is written, and no other.
  pub create_conflict_copy-made :
      (laws : AeadLaws aead) (json_laws : JsonLaws json) (row : DocumentRow) (summary : DocSummary)
      (blob_id : Uuid) (v : UnlockedVault) (r : Remote) (crow : CacheRow)
      (sealed content bytes nonce plain : Bytes) (copy : Draws)
      → row.deleted ≡ false
      → row.blob_id ≡ some blob_id
      → cache_get blob_id v.store ≡ some crow
      → read_file blob_id v.store ≡ some sealed
      → reader.decrypt v.mk (record { uuid = row.id }) sealed ≡ ok content
      → (env.draw r).0 ≡ copy
      → writer.encrypt v.mk (record { uuid = copy.doc_id }) copy.blob content ≡ ok bytes
      → copy.nonce ≡ some nonce
      → length nonce ≡ nonce_len
      → json.to_vec
          (new_meta aead json writer (copy_fields row summary copy) content bytes copy.now_text)
        ≡ some plain
      → length plain < 2 ^ 32
      → ((create_conflict_copy aead json env reader writer row (some summary) (v, r)).0 ≡ ok tt)
        × (made : DocumentRow) × ((id : Uuid)
            → get_document id
                (create_conflict_copy aead json env reader writer row
                  (some summary)
                  (v, r)).1.0.store
              ≡ (if copy.doc_id == id then some made else get_document id v.store))
        × NewRow copy.doc_id copy.blob_id (length bytes) row.keep_offline copy.now made
        × (read_file copy.blob_id
              (create_conflict_copy aead json env reader writer row (some summary) (v, r)).1.0.store
            ≡ some bytes)
        × (meta : DocMeta) × (open_row aead json v.mk (record { uuid = copy.doc_id }) made
            ≡ ok meta)
        × CopyMeta writer summary content bytes copy.now_text meta
  create_conflict_copy-made laws json_laws row summary blob_id v r crow sealed content bytes nonce
        plain copy live old cached there opened drawn encrypted hn hl hp hb =
      let fields = copy_fields row summary copy in
      let doc_id : DocId = record { uuid = copy.doc_id } in
      let meta = new_meta aead json writer fields content bytes copy.now_text in
      let (enc, answer, mk, documents, reads) =
        encrypt_new_document-stored aead json writer laws json_laws doc_id content bytes nonce plain
          fields copy v encrypted hn hl hp hb in
      let made : DocumentRow = record (new_row aead json writer doc_id fields copy bytes) {
        enc_meta = enc;
      } in
      let blob =
        read_file-encrypt_new_document aead json writer laws json_laws doc_id content bytes nonce
          plain fields copy v encrypted hn hl hp hb in
      let (fine, store) =
        copy_content-made row summary blob_id v r crow sealed content (made, meta) cached there
          opened (rw drawn answer) in
      let same = create_conflict_copy-live row summary blob_id v r live old in
      let final =
        ap (λ x. x.1.0.store) same
        ∙ store_of (env.draw r).0 copy drawn row summary content v store in
      (
        ap (λ x. x.0) same ∙ fine,
        made,
        λ id. ap (get_document id) final ∙ documents id,
        new_row-copy_fields aead json writer row summary bytes enc copy,
        ap (read_file copy.blob_id) final ∙ blob,
        meta,
        reads,
        new_meta-CopyMeta aead json writer row summary content bytes copy,
      )
