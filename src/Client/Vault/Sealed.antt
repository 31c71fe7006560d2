-- ===== src/Client/Vault/Sealed.antt =====
-- vault.rs with the blob cipher of blob.rs: the writer and the reader of blobs that the vault takes.
-- Files are written to a `Writer` and read by a `Reader`; `chunks` and `sizes` are the pieces in which
-- `std::io::copy` moves a content, and one draw has the bytes of all three of the encryptor's.
use scrigno.Prelude.{
  ℕ, suc, ◌^◌, ◌<◌, ◌≡◌, sym, ap, ◌∙◌, subst, false, Option, none, some, List, [], ◌++◌, length,
  take, drop, length-take, length-drop, Result, ok, err, arith,
}
use scrigno.Prelude.Bytes.{Bytes, join}
use scrigno.Core.{DocId, MasterKey, Aead, AeadLaws}
use scrigno.Core.Meta.{Json, JsonLaws, nonce_len}
use scrigno.Core.Stream.{IoError, Stream, StreamLaws, Writer, Collects, Reader, Supplies}
use scrigno.Core.Blob.{BlobDraws}
use scrigno.Core.Blob.Writing.{Fits}
use scrigno.Core.Blob.Encrypting.{IsBlob, encrypt_parts, encrypt_parts-IsBlob}
use scrigno.Core.Blob.RoundTrip.{decrypt_all, decrypt_all-IsBlob}
use scrigno.Core.Blob.Sizes.{length-IsBlob}
use scrigno.Client.{ClientError, storage}
use scrigno.Client.Vault.{UnlockedVault}
use scrigno.Client.Vault.Thumbnail.{Images}
use scrigno.Client.Vault.Cache.{BlobSource, BlobReader, open_doc}
use scrigno.Client.Vault.Edit.{BlobWriter, Draws, NewDocFields, new_meta, add}
use scrigno.Client.Vault.Edit.Content.{open_doc-add}

-- `ClientError::from` an error of `std::io`.
abbrev pub from_io : {A : Type 0} → Result IoError A → Result ClientError A
from_io (ok a) = ok a
from_io (err e) = err storage

abbrev pub split_draw : Option Bytes → BlobDraws
split_draw none = record { dek = none; nonce = none; prefix = none }
split_draw (some bytes) = record {
  dek = some (take 32 bytes);
  nonce = some (take 24 (drop 32 bytes));
  prefix = some (drop 56 bytes);
}

abbrev pub written_bytes : {W : Type 0} → (W → Bytes) → Result IoError W → Result IoError Bytes
written_bytes contents (ok w) = ok (contents w)
written_bytes contents (err e) = err e

module _ {SealState OpenState W R : Type 0} (aead : Aead) (streams : Stream SealState OpenState)
    (output : Writer W) (input : Reader R) where
  unfoldable pub sealed_writer :
      {Image : Type 0}
      → Images Image
      → (Bytes → Bytes)
      → (Bytes → List Bytes)
      → W
      → (W → Bytes)
      → BlobWriter
  sealed_writer {Image} images blake3_hex chunks new_file contents = record {
    Image = Image;
    encrypt = λ mk doc_id draw content. from_io (
        written_bytes contents (
          encrypt_parts aead streams output new_file mk doc_id (split_draw draw) (chunks content)));
    blake3_hex = blake3_hex;
    images = images;
  }

  -- A read of a file takes a byte at least, so that one read more than its bytes is enough.
  unfoldable pub sealed_reader : (ℕ → ℕ) → (Bytes → R) → BlobReader
  sealed_reader sizes open_file = record {
    decrypt = λ mk doc_id bytes.
        from_io
          (decrypt_all aead streams input (suc (length bytes)) sizes (open_file bytes) mk doc_id);
  }

  module _ (aead_laws : AeadLaws aead) (laws : StreamLaws streams) (col : Collects output)
      (sup : Supplies input) where
    -- What is written is read.
    decrypt-encrypt :
        (new_file : W) (open_file : Bytes → R) (sizes : ℕ → ℕ) (parts : List Bytes) (drawn : Bytes)
        (mk : MasterKey) (doc_id : DocId)
        → length drawn ≡ 75
        → Fits (join parts)
        → col.contents new_file ≡ []
        → ((bytes : Bytes) → sup.contents (open_file bytes) ≡ bytes)
        → ((k : ℕ) → 0 < sizes k)
        → (bytes : Bytes) × (from_io (
              written_bytes col.contents (
                encrypt_parts aead streams output new_file mk doc_id
                  (split_draw (some drawn))
                  parts))
            ≡ ok bytes)
          × (decrypt_all aead streams input (suc (length bytes)) sizes (open_file bytes) mk doc_id
              ≡ ok (join parts))
    decrypt-encrypt new_file open_file sizes parts drawn mk doc_id len fits empty same positive =
        let key = take 32 drawn in
        let nonce = take 24 (drop 32 drawn) in
        let prefix' = drop 56 drawn in
        let (wrapped, written, blob, done, all, is_blob, valid, _, opened) =
          encrypt_parts-IsBlob aead streams output laws col aead_laws new_file mk doc_id key nonce
            prefix' (omega (arith, length-take 32 drawn))
            (omega (arith, length-take 24 (drop 32 drawn), length-drop 32 drawn)) parts fits in
        let held : col.contents written ≡ blob = all ∙ ap (λ x. x ++ blob) empty in
        let there = sym (same (col.contents written) ∙ held) in
        (
          col.contents written,
          ap (λ r. from_io (written_bytes col.contents r)) done,
          decrypt_all-IsBlob aead streams input laws sup sizes positive
              (suc (length (col.contents written))) (open_file (col.contents written)) mk doc_id
              wrapped key prefix' (join parts)
              (subst (IsBlob streams doc_id wrapped key prefix' (join parts)) there is_blob) valid
              opened (omega (arith, length-drop 56 drawn))
              (omega (
                arith,
                ap length held,
                length-IsBlob streams laws doc_id wrapped key prefix' (join parts) blob is_blob,
              )),
        )

    module _ (json : Json) (json_laws : JsonLaws json) {Image Remote : Type 0}
        (images : Images Image) (blake3_hex : Bytes → Bytes) (chunks : Bytes → List Bytes)
        (sizes : ℕ → ℕ) (new_file : W) (open_file : Bytes → R) (source : BlobSource Remote) where
      -- A document that is added is opened at once to its content, through the encryptor, the cache and
      -- the decryptor. The content fits a blob, the pieces make it up and are not empty, the draws are
      -- of their lengths, the metadata is of less than 2 ^ 32 bytes, the ciphers and the JSON keep their
      -- laws, and files neither fail nor change between.
      pub open_doc-add_sealed :
          (content drawn nonce : Bytes) (fields : NewDocFields) (draws : Draws) (now : ℕ)
          (vault : UnlockedVault) (remote : Remote)
          → draws.blob ≡ some drawn
          → length drawn ≡ 75
          → draws.nonce ≡ some nonce
          → length nonce ≡ nonce_len
          → Fits content
          → join (chunks content) ≡ content
          → col.contents new_file ≡ []
          → ((bytes : Bytes) → sup.contents (open_file bytes) ≡ bytes)
          → ((k : ℕ) → 0 < sizes k)
          → ((bytes : Bytes)
              → (plain : Bytes) × (json.to_vec (
                    new_meta aead json
                      (sealed_writer images blake3_hex chunks new_file col.contents)
                      (record fields { keep_offline = false })
                      content
                      bytes
                      draws.now_text)
                  ≡ some plain)
                × (length plain < 2 ^ 32))
          → (open_doc source (sealed_reader sizes open_file) draws.doc_id now (
            (add aead json
                (sealed_writer images blake3_hex chunks new_file col.contents)
                content
                fields
                draws
                vault).1,
            remote,
          )).0
            ≡ ok content
      unfolding sealed_writer sealed_reader
      open_doc-add_sealed content drawn nonce fields draws now vault remote blob len hn hl fits
            whole empty same positive meta =
          let (bytes, written, read) =
            decrypt-encrypt new_file open_file sizes (chunks content) drawn vault.mk
              (record { uuid = draws.doc_id }) len (subst Fits (sym whole) fits) empty same
              positive in
          let (plain, printed, short) = meta bytes in
          open_doc-add aead json (sealed_writer images blake3_hex chunks new_file col.contents)
            aead_laws json_laws source (sealed_reader sizes open_file) content bytes nonce plain
            fields draws now vault remote (rw blob written) (ap from_io (read ∙ ap ok whole)) hn hl
            printed short
