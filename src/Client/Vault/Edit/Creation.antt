-- ===== src/Client/Vault/Edit/Creation.antt =====
-- New documents: their rows, and what can be read of them.
use scrigno.Prelude.{
  ◌^◌, ◌<◌, ◌≡◌, refl, ◌∙◌, ap, sym, ◌≢◌, inl, inr, Result-cases, map_err, true, false, Option,
  some, length, Result, ok, err, ◌==◌, if◌then◌else◌, ==_refl,
}
use scrigno.Prelude.Bytes.{Bytes}
use scrigno.Server.{Uuid}
use scrigno.Core.{MasterKey, DocId, Aead, AeadLaws}
use scrigno.Core.Meta.{DocMeta, Json, JsonLaws, nonce_len, seal}
use scrigno.Client.{DocumentRow, ClientError, crypto}
use scrigno.Client.Store.{get_document, upsert_document, cache_put, write_file}
use scrigno.Client.Store.Tables.{
  get_document-upsert_document, get_document-keeps, get_document-cache_put, get_document-write_file,
}
use scrigno.Client.Vault.{UnlockedVault, doc_version_of, open_row, get_meta, doc_meta_to_summary}
use scrigno.Client.Vault.Cache.{evict_cache_over_limit}
use scrigno.Client.Vault.Cache.Eviction.{evict_cache_over_limit-keeps}
use scrigno.Client.Vault.Edit.{
  Draws, NewDocFields, BlobWriter, seal_row, new_meta, new_row, encrypt_new_document, add,
}
use scrigno.Client.Vault.Edit.Readable.{open_row-seal_row, get_meta-found}

module _ (aead : Aead) (json : Json) (writer : BlobWriter) where
  -- The state once the metadata is sealed.
  unfoldable pub recorded : Draws → Bytes → DocumentRow → UnlockedVault → UnlockedVault
  recorded draws bytes row vault = record vault {
    store =
        cache_put draws.blob_id (length bytes) draws.now
          (upsert_document row (write_file draws.blob_id bytes vault.store));
  }

  pub encrypt_new_document-sealed :
      (doc_id : DocId) (content bytes : Bytes) (fields : NewDocFields) (draws : Draws)
      (vault : UnlockedVault) (row : DocumentRow)
      → writer.encrypt vault.mk doc_id draws.blob content ≡ ok bytes
      → seal_row aead json vault.mk doc_id draws.nonce
          (new_meta aead json writer fields content bytes draws.now_text)
          (new_row aead json writer doc_id fields draws bytes)
        ≡ ok row
      → encrypt_new_document aead json writer doc_id content fields draws vault ≡ (
        ok (row, new_meta aead json writer fields content bytes draws.now_text),
        evict_cache_over_limit (recorded draws bytes row vault),
      )
  unfolding encrypt_new_document recorded
  encrypt_new_document-sealed doc_id content bytes fields draws vault row encrypted sealed =
      rw (encrypt_new_document, encrypted, sealed) refl

  pub recorded-mk :
      (draws : Draws) (bytes : Bytes) (row : DocumentRow) (vault : UnlockedVault)
      → (evict_cache_over_limit (recorded draws bytes row vault)).mk ≡ vault.mk
  unfolding recorded
  recorded-mk draws bytes row vault =
      (evict_cache_over_limit-keeps (recorded draws bytes row vault)).2

  pub get_document-recorded :
      (id : Uuid) (draws : Draws) (bytes : Bytes) (row : DocumentRow) (vault : UnlockedVault)
      → get_document id (evict_cache_over_limit (recorded draws bytes row vault)).store
        ≡ (if row.id == id then some row else get_document id vault.store)
  unfolding recorded
  get_document-recorded id draws bytes row vault =
      let kept = evict_cache_over_limit-keeps (recorded draws bytes row vault) in
      get_document-keeps id (evict_cache_over_limit (recorded draws bytes row vault)).store
        (recorded draws bytes row vault).store kept.0
      ∙ get_document-cache_put id draws.blob_id (length bytes) draws.now
          (upsert_document row (write_file draws.blob_id bytes vault.store))
      ∙ get_document-upsert_document id row (write_file draws.blob_id bytes vault.store)
      ∙ rw (get_document-write_file id draws.blob_id bytes vault.store) refl

  pub new_row-fields :
      (doc_id : DocId) (fields : NewDocFields) (draws : Draws) (bytes enc : Bytes) {id : Uuid}
      → doc_id.uuid ≡ id
      → ((record (new_row aead json writer doc_id fields draws bytes) { enc_meta = enc }).id ≡ id)
        × ((record (new_row aead json writer doc_id fields draws bytes) { enc_meta = enc }).deleted
            ≡ false)
  unfolding new_row
  new_row-fields doc_id fields draws bytes enc e = (e, refl)

  seal_row-id :
      (mk : MasterKey) (doc_id : DocId) (nonce : Option Bytes) (meta : DocMeta)
      (row row' : DocumentRow)
      → seal_row aead json mk doc_id nonce meta row ≡ ok row'
      → row'.id ≡ row.id
  unfolding seal_row
  seal_row-id mk doc_id nonce meta row row' h =
      elim (Result-cases
        (map_err (seal aead json mk doc_id (doc_version_of row) meta nonce) crypto)) [
          | inl (x, e) ↦ absurd (err-ne-ok (rw (seal_row, e) at h))
          | inr (enc, e) ↦ sym (ap DocumentRow.id (ok_inj (rw (seal_row, e) at h)))
        ]
    where
      err-ne-ok : {x : ClientError} {r : DocumentRow} → err x ≢ ok r
      err-ne-ok h = cc

      ok_inj : {r s : DocumentRow} → Path (Result ClientError DocumentRow) (ok r) (ok s) → r ≡ s
      ok_inj h = cc

  -- Only the new document's row is written, whatever the answer is.
  pub encrypt_new_document-others :
      (id : Uuid) (doc_id : DocId) (content : Bytes) (fields : NewDocFields) (draws : Draws)
      (vault : UnlockedVault)
      → (doc_id.uuid == id) ≡ false
      → get_document id
          (encrypt_new_document aead json writer doc_id content fields draws vault).1.store
        ≡ get_document id vault.store
  unfolding encrypt_new_document
  encrypt_new_document-others id doc_id content fields draws vault apart =
      elim (Result-cases (writer.encrypt vault.mk doc_id draws.blob content)) [
        | inl (x, e) ↦ rw (encrypt_new_document, e) refl
        | inr (bytes, e) ↦
            let meta = new_meta aead json writer fields content bytes draws.now_text in
            let row = new_row aead json writer doc_id fields draws bytes in
            elim (Result-cases (seal_row aead json vault.mk doc_id draws.nonce meta row)) [
              | inl (x, f) ↦
                  rw (encrypt_new_document, e, f)
                    (get_document-write_file id draws.blob_id bytes vault.store)
              | inr (row', f) ↦
                  let done =
                    encrypt_new_document-sealed doc_id content bytes fields draws vault row' e f in
                  let same : row'.id ≡ doc_id.uuid =
                    seal_row-id vault.mk doc_id draws.nonce meta row row' f
                    ∙ (new_row-fields doc_id fields draws bytes row.enc_meta refl).0 in
                  let other : (if row'.id == id then some row' else get_document id vault.store)
                      ≡ get_document id vault.store =
                    rw (same, apart) refl in
                  ap (λ r. get_document id r.1.store) done
                  ∙ get_document-recorded id draws bytes row' vault
                  ∙ other
            ]
      ]

  module _ (laws : AeadLaws aead) (json_laws : JsonLaws json) where
    -- The new document is stored, the others are as before, and its metadata opens.
    pub encrypt_new_document-stored :
        (doc_id : DocId) (content bytes nonce plain : Bytes) (fields : NewDocFields) (draws : Draws)
        (vault : UnlockedVault)
        → writer.encrypt vault.mk doc_id draws.blob content ≡ ok bytes
        → draws.nonce ≡ some nonce
        → length nonce ≡ nonce_len
        → json.to_vec (new_meta aead json writer fields content bytes draws.now_text) ≡ some plain
        → length plain < 2 ^ 32
        → (enc : Bytes) × ((encrypt_new_document aead json writer doc_id content fields draws
              vault).0
            ≡ ok (
              record (new_row aead json writer doc_id fields draws bytes) { enc_meta = enc },
              new_meta aead json writer fields content bytes draws.now_text,
            ))
          × ((encrypt_new_document aead json writer doc_id content fields draws vault).1.mk
              ≡ vault.mk)
          × ((id : Uuid)
              → get_document id
                  (encrypt_new_document aead json writer doc_id content fields draws vault).1.store
                ≡ (if doc_id.uuid == id
                    then some (record (new_row aead json writer doc_id fields draws bytes) {
                      enc_meta = enc;
                    })
                    else get_document id vault.store))
          × (open_row aead json vault.mk doc_id
                (record (new_row aead json writer doc_id fields draws bytes) { enc_meta = enc })
              ≡ ok (new_meta aead json writer fields content bytes draws.now_text))
    unfolding new_row
    encrypt_new_document-stored doc_id content bytes nonce plain fields draws vault he hn hl hp hb =
        let meta = new_meta aead json writer fields content bytes draws.now_text in
        let (enc, sealed, opened) =
          open_row-seal_row aead laws json json_laws vault.mk doc_id nonce plain meta
            (new_row aead json writer doc_id fields draws bytes) hp hb hl in
        let row : DocumentRow = record (new_row aead json writer doc_id fields draws bytes) {
          enc_meta = enc;
        } in
        let done =
          encrypt_new_document-sealed doc_id content bytes fields draws vault row he
            (rw hn sealed) in
        let same = (new_row-fields doc_id fields draws bytes enc refl).0 in
        (
          enc,
          ap (λ r. r.0) done,
          ap (λ r. r.1.mk) done ∙ recorded-mk draws bytes row vault,
          λ id.
              ap (λ r. get_document id r.1.store) done
              ∙ get_document-recorded id draws bytes row vault
              ∙ rw same refl,
          opened,
        )

    pub add-made :
        (content : Bytes) (fields : NewDocFields) (draws : Draws) (vault : UnlockedVault)
        (row : DocumentRow) (meta : DocMeta)
        → (encrypt_new_document aead json writer
            (record { uuid = draws.doc_id })
            content
            (record fields { keep_offline = false })
            draws
            vault).0
          ≡ ok (row, meta)
        → ((add aead json writer content fields draws vault).0
            ≡ ok (doc_meta_to_summary row meta true))
          × ((add aead json writer content fields draws vault).1.store
              ≡ (encrypt_new_document aead json writer
                  (record { uuid = draws.doc_id })
                  content
                  (record fields { keep_offline = false })
                  draws
                  vault).1.store)
          × ((add aead json writer content fields draws vault).1.mk
              ≡ (encrypt_new_document aead json writer
                  (record { uuid = draws.doc_id })
                  content
                  (record fields { keep_offline = false })
                  draws
                  vault).1.mk)
    unfolding add
    add-made content fields draws vault row meta e =
        (rw (add, e) refl, rw (add, e) refl, rw (add, e) refl)

    -- After add, on a content that encrypts, a draw of 24 bytes and metadata of less than 2 ^ 32 bytes,
    -- get_meta of the new id gives the metadata: the given fields, and the size and hash of the
    -- ciphertext.
    pub get_meta-add :
        (content bytes nonce plain : Bytes) (fields : NewDocFields) (draws : Draws)
        (vault : UnlockedVault)
        → writer.encrypt vault.mk (record { uuid = draws.doc_id }) draws.blob content ≡ ok bytes
        → draws.nonce ≡ some nonce
        → length nonce ≡ nonce_len
        → json.to_vec (
            new_meta aead json writer
              (record fields { keep_offline = false })
              content
              bytes
              draws.now_text)
          ≡ some plain
        → length plain < 2 ^ 32
        → get_meta aead json draws.doc_id (add aead json writer content fields draws vault).1
          ≡ ok (
              new_meta aead json writer
                (record fields { keep_offline = false })
                content
                bytes
                draws.now_text)
    get_meta-add content bytes nonce plain fields draws vault he hn hl hp hb =
        let fields' : NewDocFields = record fields { keep_offline = false } in
        let doc_id : DocId = record { uuid = draws.doc_id } in
        let (enc, answer, mk, documents, opened) =
          encrypt_new_document-stored doc_id content bytes nonce plain fields' draws vault he hn hl
            hp hb in
        let row : DocumentRow = record (new_row aead json writer doc_id fields' draws bytes) {
          enc_meta = enc;
        } in
        let meta = new_meta aead json writer fields' content bytes draws.now_text in
        let (summary, store, key) = add-made content fields draws vault row meta answer in
        let after = (add aead json writer content fields draws vault).1 in
        let stored : get_document draws.doc_id after.store ≡ some row =
          ap (get_document draws.doc_id) store
          ∙ documents draws.doc_id
          ∙ rw (==_refl draws.doc_id) refl in
        get_meta-found aead laws json json_laws draws.doc_id after row stored
          (new_row-fields doc_id fields' draws bytes enc refl).1
        ∙ rw (key, mk) opened
