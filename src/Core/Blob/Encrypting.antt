-- ===== src/Core/Blob/Encrypting.antt =====
-- A whole run of the encryptor: `new`, any writes, `finish`.
use scrigno.Prelude.{
  ◌≡◌, refl, sym, ap, ◌∙◌, subst, some, List, [], ◌∷◌, ◌++◌, length, length-append, append_assoc,
  append-nil, Result, ok, err, ok-eq-ok, ◌>>=◌, arith,
}
use scrigno.Prelude.Bytes.{Bytes, join}
use scrigno.Core.{DocId, MasterKey, Dek, Aead, AeadLaws, generate_dek}
use scrigno.Core.Wrap.{WrappedKey, IsValid, wrap_dek, unwrap_dek}
use scrigno.Core.Wrap.Keys.{unwrap_dek-wrap_dek}
use scrigno.Core.Stream.{IoError, Stream, StreamLaws, Writer, Collects}
use scrigno.Core.Blob.{
  Encryptor, BlobDraws, build_header, build_aad, new_encryptor, from_parts, write, finish,
}
use scrigno.Core.Blob.Segments.{Seals, seal_chunks, Seals-unique}
use scrigno.Core.Blob.Writing.{Fits, Wrote, write-Wrote, finish-Seals}

-- The header of a blob, and the sealed text behind it.
pub record IsBlob {SealState OpenState : Type 0} (streams : Stream SealState OpenState)
    (doc_id : DocId) (wrapped : WrappedKey) (dek prefix' text blob : Bytes) : Type 0 where
  pub body : Bytes
  pub parts : blob ≡ build_header wrapped prefix' ++ body
  pub seals :
      Seals streams
        (build_aad (build_header wrapped prefix') doc_id)
        (streams.new_encryptor dek prefix')
        text
        body

IsBlob-unique :
    {SealState OpenState : Type 0} (streams : Stream SealState OpenState) (doc_id : DocId)
    (wrapped : WrappedKey) (dek prefix' text s t : Bytes)
    → IsBlob streams doc_id wrapped dek prefix' text s
    → IsBlob streams doc_id wrapped dek prefix' text t
    → s ≡ t
IsBlob-unique streams doc_id wrapped dek prefix' text s t x y =
    let header = build_header wrapped prefix' in
    let same =
      Seals-unique streams (build_aad header doc_id) (streams.new_encryptor dek prefix') text x.body
        y.body x.seals y.seals in
    x.parts ∙ ap (λ z. header ++ z) same ∙ sym y.parts

module _ {SealState OpenState W : Type 0} (aead : Aead) (streams : Stream SealState OpenState)
    (io : Writer W) where
  -- A caller's writes, one after another.
  unfoldable pub writes :
      List Bytes → Encryptor SealState W → Result IoError (Encryptor SealState W)
  writes [] self = ok self
  writes (p ∷ ps) self =
      let (answer, self') = write streams io p self in
      elim answer [ err x ↦ err x | ok n ↦ writes ps self' ]

  unfoldable pub encrypt_parts : W → MasterKey → DocId → BlobDraws → List Bytes → Result IoError W
  unfolding writes
  encrypt_parts writer mk doc_id draws ps = do
    self ← new_encryptor streams io aead writer mk doc_id draws
    self' ← writes ps self
    finish streams io self'

  module _ (laws : StreamLaws streams) (col : Collects io) where
    writes-Wrote :
        (start : SealState) (aad header text : Bytes) (ps : List Bytes)
        (self : Encryptor SealState W)
        → Wrote streams laws io col start aad header text self
        → Fits (text ++ join ps)
        → (self' : Encryptor SealState W) × (writes ps self ≡ ok self')
          × Wrote streams laws io col start aad header (text ++ join ps) self'
    unfolding writes join
    writes-Wrote start aad header text [] self w fits = (
      self,
      refl,
      subst (λ t. Wrote streams laws io col start aad header t self) (sym (append-nil text)) w,
    )
    writes-Wrote start aad header text (p ∷ ps) self w fits =
        let split : (text ++ p) ++ join ps ≡ text ++ (p ++ join ps) =
          append_assoc text p (join ps) in
        let fits' : Fits ((text ++ p) ++ join ps) = subst Fits (sym split) fits in
        let (done, w') =
          write-Wrote streams laws io col start aad header text p self w
            (omega (arith, length-append (text ++ p) (join ps))) in
        let (self', rest, w'') =
          writes-Wrote start aad header (text ++ p) ps (write streams io p self).1 w' fits' in
        (
          self',
          rw (writes, done) rest,
          subst (λ t. Wrote streams laws io col start aad header t self') split w'',
        )

    from_parts-Wrote :
        (writer : W) (header : Bytes) (dek : Dek) (prefix' : Bytes) (doc_id : DocId)
        → Wrote streams laws io col
            (streams.new_encryptor dek.bytes prefix')
            (build_aad header doc_id)
            (col.contents writer)
            []
            (from_parts streams io writer header dek prefix' doc_id)
    unfolding from_parts
    from_parts-Wrote writer header dek prefix' doc_id = record {
      holds = record {
        chunks = [];
        done = [];
        state = streams.new_encryptor dek.bytes prefix';
        full = tt;
        stream = refl;
        same_aad = refl;
        whole = unfold join in refl;
        sealed = unfold seal_chunks in refl;
        written = sym (append-nil (col.contents writer));
        counted = unfold join in rw (laws.position-new dek.bytes prefix') refl;
      };
      short = omega arith;
    }

    module _ (aead_laws : AeadLaws aead) (writer : W) (mk : MasterKey) (doc_id : DocId)
        (key nonce prefix' : Bytes) (key_length : length key ≡ 32)
        (nonce_length : length nonce ≡ 24) where
      abbrev drawn : BlobDraws
      drawn = record { dek = some key; nonce = some nonce; prefix = some prefix' }

      new_encryptor-Wrote :
          (wrapped : WrappedKey) × (self : Encryptor SealState W) × (wrap_dek aead mk doc_id
              (record { bytes = key })
              (some nonce)
            ≡ ok wrapped)
          × (unwrap_dek aead mk doc_id wrapped ≡ ok (record { bytes = key }))
          × IsValid wrapped
          × (new_encryptor streams io aead writer mk doc_id drawn ≡ ok self)
          × Wrote streams laws io col
              (streams.new_encryptor key prefix')
              (build_aad (build_header wrapped prefix') doc_id)
              (col.contents writer ++ build_header wrapped prefix')
              []
              self
      unfolding new_encryptor generate_dek
      new_encryptor-Wrote =
          let (wrapped, made, opened, valid) =
            unwrap_dek-wrap_dek aead aead_laws mk doc_id (record { bytes = key }) nonce key_length
              nonce_length in
          let header = build_header wrapped prefix' in
          let writer' = (io.write_all header writer).1 in
          (
            wrapped,
            from_parts streams io writer' header (record { bytes = key }) prefix' doc_id,
            made,
            opened,
            valid,
            rw (new_encryptor, made, col.write_all-ok header writer) refl,
            subst
                (λ c.
                  Wrote streams laws io col (streams.new_encryptor key prefix')
                    (build_aad header doc_id) c []
                    (from_parts streams io writer' header (record { bytes = key }) prefix' doc_id))
                (col.contents-write_all header writer)
                (from_parts-Wrote writer' header (record { bytes = key }) prefix' doc_id),
          )

      pub encrypt_parts-IsBlob :
          (ps : List Bytes)
          → Fits (join ps)
          → (wrapped : WrappedKey) × (writer' : W) × (blob : Bytes) × (encrypt_parts writer mk
                doc_id drawn ps
              ≡ ok writer')
            × (col.contents writer' ≡ col.contents writer ++ blob)
            × IsBlob streams doc_id wrapped key prefix' (join ps) blob
            × IsValid wrapped
            × (wrap_dek aead mk doc_id (record { bytes = key }) (some nonce) ≡ ok wrapped)
            × (unwrap_dek aead mk doc_id wrapped ≡ ok (record { bytes = key }))
      unfolding encrypt_parts
      encrypt_parts-IsBlob ps fits =
          let (wrapped, self, made, opened, valid, new, w) = new_encryptor-Wrote in
          let header = build_header wrapped prefix' in
          let start = streams.new_encryptor key prefix' in
          let aad = build_aad header doc_id in
          let (self', written, w') =
            writes-Wrote start aad (col.contents writer ++ header) [] ps self w fits in
          let (writer', body, finished, all, seals) =
            finish-Seals streams laws io col start aad (col.contents writer ++ header) (join ps)
              self' w' in
          (
            wrapped,
            writer',
            header ++ body,
            rw (encrypt_parts, new, written, finished) refl,
            all ∙ append_assoc (col.contents writer) header body,
            record { body = body; parts = refl; seals = seals },
            valid,
            made,
            opened,
          )

      -- However the writes split a text that fits the stream, the run succeeds and the bytes written
      -- are those of one write, given the draws and their lengths, the laws of the ciphers and a
      -- writer that does not fail.
      pub encrypt_parts-join :
          (ps : List Bytes)
          → Fits (join ps)
          → (a : W) × (b : W) × (encrypt_parts writer mk doc_id drawn ps ≡ ok a)
            × (encrypt_parts writer mk doc_id drawn (join ps ∷ []) ≡ ok b)
            × (col.contents a ≡ col.contents b)
      encrypt_parts-join ps fits =
          let one : join (join ps ∷ []) ≡ join ps = unfold join in append-nil (join ps) in
          let (wrapped, a, blob, ra, ca, x, _, ma, _) = encrypt_parts-IsBlob ps fits in
          let (wrapped', b, blob', rb, cb, y, _, mb, _) =
            encrypt_parts-IsBlob (join ps ∷ []) (subst Fits (sym one) fits) in
          let key_same : wrapped ≡ wrapped' = ok-eq-ok (sym ma ∙ mb) in
          let y' : IsBlob streams doc_id wrapped key prefix' (join ps) blob' =
            subst (λ w. IsBlob streams doc_id w key prefix' (join ps) blob') (sym key_same)
              (subst (λ t. IsBlob streams doc_id wrapped' key prefix' t blob') one y) in
          (
            a,
            b,
            ra,
            rb,
            ca
                ∙ ap (λ z. col.contents writer ++ z)
                    (IsBlob-unique streams doc_id wrapped key prefix' (join ps) blob blob' x y')
                ∙ sym cb,
          )
