-- ===== src/Core/Blob/RoundTrip.antt =====
-- A blob is read back: any writes, then any reads.
use scrigno.Prelude.{
  ℕ, suc, zero, ◌<◌, ◌≡◌, refl, sym, ap, ◌∙◌, subst, false, none, some, List, [], ◌∷◌, ◌++◌, length,
  length-append, take-append_exact, drop-append_exact, List-cases, eq-nil_of_length, inl, inr,
  Result, ok, err, ◌>>=◌, arith,
}
use scrigno.Prelude.Bytes.{Bytes, join, same_bytes}
use scrigno.Core.{DocId, MasterKey, Dek, Aead, AeadLaws}
use scrigno.Core.Wrap.{WrappedKey, IsValid, as_bytes, unwrap_dek}
use scrigno.Core.Wrap.Envelope.{from_slice-as_bytes}
use scrigno.Core.Stream.{
  IoError, Stream, StreamLaws, Writer, Collects, Reader, Supplies, read_exact,
}
use scrigno.Core.Blob.{
  Decryptor, BlobDraws, build_header, build_aad, parse_header, new_decryptor, read, header_len,
  stream_nonce_prefix_len,
}
use scrigno.Core.Blob.Writing.{Fits}
use scrigno.Core.Blob.Encrypting.{IsBlob, encrypt_parts, encrypt_parts-IsBlob}
use scrigno.Core.Blob.Reading.{read_exact-take}
use scrigno.Core.Blob.Decrypting.{Remains}
use scrigno.Core.Blob.Consuming.{read-Given}

module _ {SealState OpenState R : Type 0} (aead : Aead) (streams : Stream SealState OpenState)
    (io : Reader R) where
  -- Reads into buffers of the given sizes until a read gives nothing.
  unfoldable pub read_all : ℕ → (ℕ → ℕ) → Decryptor OpenState R → Result IoError Bytes
  read_all zero sizes self = ok []
  read_all (suc fuel) sizes self =
      let (answer, self') = read streams io (sizes fuel) self in
      let rest = read_all fuel sizes self' in
      elim answer [
        | err x ↦ err x
        | ok [] ↦ ok []
        | ok (b ∷ bs) ↦ elim rest [ err x ↦ err x | ok more ↦ ok (b ∷ bs ++ more) ]
      ]

  unfoldable pub decrypt_all : ℕ → (ℕ → ℕ) → R → MasterKey → DocId → Result IoError Bytes
  unfolding read_all
  decrypt_all fuel sizes reader mk doc_id = do
    self ← new_decryptor streams io aead reader mk doc_id
    read_all fuel sizes self

  length-build_header :
      (wrapped : WrappedKey) (prefix' : Bytes)
      → IsValid wrapped
      → length prefix' ≡ stream_nonce_prefix_len
      → length (build_header wrapped prefix') ≡ header_len
  unfolding build_header
  length-build_header wrapped prefix' v h =
      omega (arith, length-append (as_bytes wrapped) prefix', (from_slice-as_bytes wrapped v).1)

  parse_header-build_header :
      (mk : MasterKey) (doc_id : DocId) (wrapped : WrappedKey) (dek : Dek) (prefix' : Bytes)
      → IsValid wrapped
      → unwrap_dek aead mk doc_id wrapped ≡ ok dek
      → parse_header streams io aead mk doc_id (build_header wrapped prefix') ≡ ok (dek, prefix')
  unfolding parse_header build_header same_bytes
  parse_header-build_header mk doc_id wrapped dek prefix' v opened =
      let (back, len) = from_slice-as_bytes wrapped v in
      rw (
        take-append_exact 73 (as_bytes wrapped) prefix' len,
        back,
        opened,
        drop-append_exact 73 (as_bytes wrapped) prefix' len,
      )

  module _ (laws : StreamLaws streams) (sup : Supplies io) (sizes : ℕ → ℕ)
      (positive : (k : ℕ) → 0 < sizes k) where
    read_all-Remains :
        (fuel : ℕ) (text : Bytes) (self : Decryptor OpenState R)
        → length text < fuel
        → Remains streams laws io sup text self
        → read_all fuel sizes self ≡ ok text
    unfolding read_all
    read_all-Remains zero text self h r = absurd (omega arith)
    read_all-Remains (suc fuel) text self h r =
        let g = read-Given streams laws io sup (sizes fuel) text self r in
        elim (List-cases g.bytes) [
          | inl n ↦
              let done : text ≡ [] =
                eq-nil_of_length text
                  (ground (arith, positive fuel, g.some_bytes (positive fuel), ap length n)) in
              rw (read_all, g.given ∙ ap ok n) (ap ok (sym done))
          | inr (b, bs, n) ↦
              let whole : text ≡ b ∷ bs ++ g.text' = g.whole ∙ ap (λ x. x ++ g.text') n in
              let rest =
                read_all-Remains fuel g.text' (read streams io (sizes fuel) self).1
                  (omega (arith, ap length whole, length-append bs g.text')) g.remains in
              rw (read_all, g.given ∙ ap ok n, rest) (ap ok (sym whole))
        ]

    -- A reader that holds a blob gives its text.
    pub decrypt_all-IsBlob :
        (fuel : ℕ) (reader : R) (mk : MasterKey) (doc_id : DocId) (wrapped : WrappedKey)
        (key prefix' text : Bytes)
        → IsBlob streams doc_id wrapped key prefix' text (sup.contents reader)
        → IsValid wrapped
        → unwrap_dek aead mk doc_id wrapped ≡ ok (record { bytes = key })
        → length prefix' ≡ stream_nonce_prefix_len
        → length text < fuel
        → decrypt_all fuel sizes reader mk doc_id ≡ ok text
    unfolding decrypt_all new_decryptor
    decrypt_all-IsBlob fuel reader mk doc_id wrapped key prefix' text blob valid opened len enough =
        let header = build_header wrapped prefix' in
        let (p, q) =
          read_exact-take io sup header_len header blob.body reader (omega arith)
            (length-build_header wrapped prefix' valid len) blob.parts in
        let parsed =
          parse_header-build_header mk doc_id wrapped (record { bytes = key }) prefix' valid
            opened in
        let self : Decryptor OpenState R = record {
          reader = (read_exact io header_len reader).1;
          stream = some (streams.new_decryptor key prefix');
          aad = build_aad header doc_id;
          out_buf = [];
          out_pos = 0;
          pending = none;
          finished = false;
        } in
        let s = blob.seals in
        let remains : Remains streams laws io sup text self = record {
          later = text;
          whole = refl;
          rest = inr (record {
            enc = streams.new_encryptor key prefix';
            dec = streams.new_decryptor key prefix';
            chunks = s.chunks;
            last = s.last;
            body = blob.body;
            stream = refl;
            paired = laws.Paired-new key prefix';
            full = s.full;
            short = s.short;
            whole = s.whole;
            sealed = s.sealed;
            left = q;
            unfinished = refl;
          });
        } in
        rw (decrypt_all, new_decryptor, p, parsed) (read_all-Remains fuel text self enough remains)

module _ {SealState OpenState R W : Type 0} (aead : Aead) (streams : Stream SealState OpenState)
    (output : Writer W) (input : Reader R) (aead_laws : AeadLaws aead) (laws : StreamLaws streams)
    (col : Collects output) (sup : Supplies input) where
  -- What is written to an empty file by any writes is read back by any reads. The draws succeed with
  -- bytes of their lengths, the text fits the stream, the buffers of the reads are not empty, there
  -- are more reads than bytes, the ciphers keep their laws, and the file neither fails nor changes
  -- between.
  pub decrypt_all-encrypt_parts :
      (writer : W) (mk : MasterKey) (doc_id : DocId) (draws : BlobDraws) (key nonce prefix' : Bytes)
      (parts : List Bytes) (reopen : W → R) (fuel : ℕ) (sizes : ℕ → ℕ)
      → draws ≡ record { dek = some key; nonce = some nonce; prefix = some prefix' }
      → length key ≡ 32
      → length nonce ≡ 24
      → length prefix' ≡ stream_nonce_prefix_len
      → Fits (join parts)
      → col.contents writer ≡ []
      → ((w : W) → sup.contents (reopen w) ≡ col.contents w)
      → ((k : ℕ) → 0 < sizes k)
      → length (join parts) < fuel
      → (written : W) × (encrypt_parts aead streams output writer mk doc_id draws parts
          ≡ ok written)
        × (decrypt_all aead streams input fuel sizes (reopen written) mk doc_id ≡ ok (join parts))
  decrypt_all-encrypt_parts writer mk doc_id draws key nonce prefix' parts reopen fuel sizes drawn
        hk hn hp fits empty same positive enough =
      let (wrapped, written, blob, done, all, is_blob, valid, _, opened) =
        encrypt_parts-IsBlob aead streams output laws col aead_laws writer mk doc_id key nonce
          prefix' hk hn parts fits in
      let held : blob ≡ sup.contents (reopen written) =
        sym (same written ∙ all ∙ ap (λ x. x ++ blob) empty) in
      (
        written,
        ap (λ d. encrypt_parts aead streams output writer mk doc_id d parts) drawn ∙ done,
        decrypt_all-IsBlob aead streams input laws sup sizes positive fuel (reopen written) mk
            doc_id wrapped key prefix' (join parts)
            (subst (IsBlob streams doc_id wrapped key prefix' (join parts)) held is_blob) valid
            opened hp enough,
      )
