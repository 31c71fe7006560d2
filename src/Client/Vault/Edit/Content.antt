-- ===== src/Client/Vault/Edit/Content.antt =====
-- The content of a new document is read back.
use scrigno.Prelude.{ℕ, ◌^◌, ◌<◌, ◌≡◌, refl, ◌∙◌, ap, true, false, some, length, ok, ==_refl}
use scrigno.Prelude.Bytes.{Bytes}
use scrigno.Core.{DocId, Aead, AeadLaws}
use scrigno.Core.Meta.{Json, JsonLaws, nonce_len}
use scrigno.Client.{DocumentRow}
use scrigno.Client.Store.{get_document, cache_get, read_file, upsert_document, write_file}
use scrigno.Client.Store.Tables.{
  cache_get-cache_put, read_file-cache_put, read_file-write_file, upsert_document-keeps,
  pinned-upsert_document,
}
use scrigno.Client.Vault.{UnlockedVault}
use scrigno.Client.Vault.Cache.{BlobSource, BlobReader, open_doc, evict_cache_over_limit}
use scrigno.Client.Vault.Cache.Eviction.{cache_get-evict_cache_over_limit}
use scrigno.Client.Vault.Cache.Fetching.{open_doc-cached}
use scrigno.Client.Vault.Edit.{
  BlobWriter, Draws, NewDocFields, new_meta, new_row, encrypt_new_document, add,
}
use scrigno.Client.Vault.Edit.Readable.{open_row-seal_row}
use scrigno.Client.Vault.Edit.Creation.{
  recorded, encrypt_new_document-sealed, recorded-mk, get_document-recorded, add-made,
}

module _ (aead : Aead) (json : Json) (writer : BlobWriter) where
  recorded-cached :
      (draws : Draws) (bytes : Bytes) (row : DocumentRow) (vault : UnlockedVault)
      → row.blob_id ≡ some draws.blob_id
      → row.dirty ≡ true
      → (cache_get draws.blob_id
            (evict_cache_over_limit (recorded aead json writer draws bytes row vault)).store
          ≡ some (record { blob_id = draws.blob_id; size = length bytes; last_access = draws.now }))
        × (read_file draws.blob_id
              (evict_cache_over_limit (recorded aead json writer draws bytes row vault)).store
            ≡ some bytes)
  unfolding recorded
  recorded-cached draws bytes row vault has dirty =
      let b = draws.blob_id in
      let before = upsert_document row (write_file b bytes vault.store) in
      let v = recorded aead json writer draws bytes row vault in
      let (d, c, f) = cache_get-evict_cache_over_limit b v (
        pinned-upsert_document b (length bytes) draws.now row (write_file b bytes vault.store) has
          dirty) in
      (
        c ∙ cache_get-cache_put b b (length bytes) draws.now before ∙ rw (==_refl b) refl,
        f
            ∙ read_file-cache_put b b (length bytes) draws.now before
            ∙ (upsert_document-keeps b row (write_file b bytes vault.store)).1
            ∙ read_file-write_file b bytes vault.store,
      )

  -- The ciphertext of a new document is kept under its blob's id: no eviction takes it.
  pub read_file-encrypt_new_document :
      (laws : AeadLaws aead) (json_laws : JsonLaws json) (doc_id : DocId)
      (content bytes nonce plain : Bytes) (fields : NewDocFields) (draws : Draws)
      (vault : UnlockedVault)
      → writer.encrypt vault.mk doc_id draws.blob content ≡ ok bytes
      → draws.nonce ≡ some nonce
      → length nonce ≡ nonce_len
      → json.to_vec (new_meta aead json writer fields content bytes draws.now_text) ≡ some plain
      → length plain < 2 ^ 32
      → read_file draws.blob_id
          (encrypt_new_document aead json writer doc_id content fields draws vault).1.store
        ≡ some bytes
  unfolding new_row
  read_file-encrypt_new_document laws json_laws doc_id content bytes nonce plain fields draws vault
        he hn hl hp hb =
      let meta = new_meta aead json writer fields content bytes draws.now_text in
      let (enc, sealed, opened) =
        open_row-seal_row aead laws json json_laws vault.mk doc_id nonce plain meta
          (new_row aead json writer doc_id fields draws bytes) hp hb hl in
      let row : DocumentRow = record (new_row aead json writer doc_id fields draws bytes) {
        enc_meta = enc;
      } in
      let done =
        encrypt_new_document-sealed aead json writer doc_id content bytes fields draws vault row he
          (rw hn sealed) in
      ap (λ r. read_file draws.blob_id r.1.store) done
      ∙ (recorded-cached draws bytes row vault refl refl).1

  module _ (laws : AeadLaws aead) (json_laws : JsonLaws json) {Remote : Type 0}
      (source : BlobSource Remote) (reader : BlobReader) where
    -- A document that is added is opened at once to its content, whatever the limit of the cache and the
    -- answers of the server, where the cipher decrypts what it encrypted, on a draw of 24 bytes and
    -- metadata of less than 2 ^ 32 bytes.
    pub open_doc-add :
        (content bytes nonce plain : Bytes) (fields : NewDocFields) (draws : Draws) (now : ℕ)
        (vault : UnlockedVault) (remote : Remote)
        → writer.encrypt vault.mk (record { uuid = draws.doc_id }) draws.blob content ≡ ok bytes
        → reader.decrypt vault.mk (record { uuid = draws.doc_id }) bytes ≡ ok content
        → draws.nonce ≡ some nonce
        → length nonce ≡ nonce_len
        → json.to_vec (
            new_meta aead json writer
              (record fields { keep_offline = false })
              content
              bytes
              draws.now_text)
          ≡ some plain
        → length plain < 2 ^ 32
        → (open_doc source reader draws.doc_id now
            ((add aead json writer content fields draws vault).1, remote)).0
          ≡ ok content
    unfolding new_row
    open_doc-add content bytes nonce plain fields draws now vault remote he hd hn hl hp hb =
        let fields' : NewDocFields = record fields { keep_offline = false } in
        let doc_id : DocId = record { uuid = draws.doc_id } in
        let meta = new_meta aead json writer fields' content bytes draws.now_text in
        let (enc, sealed, opened) =
          open_row-seal_row aead laws json json_laws vault.mk doc_id nonce plain meta
            (new_row aead json writer doc_id fields' draws bytes) hp hb hl in
        let row : DocumentRow = record (new_row aead json writer doc_id fields' draws bytes) {
          enc_meta = enc;
        } in
        let done =
          encrypt_new_document-sealed aead json writer doc_id content bytes fields' draws vault row
            he (rw hn sealed) in
        let (summary, store, key) =
          add-made aead json writer laws json_laws content fields draws vault row meta
            (ap (λ r. r.0) done) in
        let after = (add aead json writer content fields draws vault).1 in
        let same = store ∙ ap (λ r. r.1.store) done in
        let (c, f) = recorded-cached draws bytes row vault refl refl in
        let stored = get_document-recorded aead json writer draws.doc_id draws bytes row vault in
        open_doc-cached source reader draws.doc_id draws.blob_id now after remote row
          (record { blob_id = draws.blob_id; size = length bytes; last_access = draws.now }) bytes
          content (ap (get_document draws.doc_id) same ∙ stored ∙ rw (==_refl draws.doc_id) refl)
          refl refl (ap (cache_get draws.blob_id) same ∙ c) (ap (read_file draws.blob_id) same ∙ f)
          (rw (key, ap (λ r. r.1.mk) done, recorded-mk aead json writer draws bytes row vault) hd)
