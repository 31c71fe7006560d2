-- ===== src/Core/Meta/Sealing.antt =====
-- Sealing and opening the metadata of a document.
use scrigno.Prelude.{
  ℕ, suc, ◌+◌, ◌^◌, ◌<◌, ◌≡◌, refl, sym, ◌∙◌, some, ◌∷◌, ◌++◌, length, length-append, append_inj,
  take-append_exact, drop-append_exact, ok, arith, ltb, false,
}
use scrigno.Prelude.Bytes.{Bytes, length-be_bytes, be_bytes_inj}
use scrigno.Core.{DocId, MasterKey, Aead, AeadLaws, uuid_bytes}
use scrigno.Core.Meta.{
  DocMeta, Json, JsonLaws, EncMeta, from_bytes, build_aad, aad_prefix, seal, open_meta, nonce_len,
}

-- The associated data names the document and its version.
pub build_aad_binds :
    (d d' : DocId) (version version' : ℕ)
    → d.uuid < 256 ^ 16
    → d'.uuid < 256 ^ 16
    → version < 2 ^ 32
    → version' < 2 ^ 32
    → build_aad d version ≡ build_aad d' version'
    → (d ≡ d') × (version ≡ version')
unfolding build_aad
build_aad_binds d d' n n' hd hd' hn hn' e =
    let ids = (append_inj aad_prefix aad_prefix refl e).1 in
    let parts =
      append_inj (uuid_bytes d.uuid) (uuid_bytes d'.uuid)
        (length-be_bytes 16 d.uuid ∙ sym (length-be_bytes 16 d'.uuid)) ids in
    let same : d.uuid ≡ d'.uuid = be_bytes_inj 16 d.uuid d'.uuid hd hd' parts.0 in
    (λ i. record { uuid = same i }, be_bytes_inj 4 n n' hn hn' parts.1)

module _ (aead : Aead) (laws : AeadLaws aead) (json : Json) (json_laws : JsonLaws json) where
  -- Metadata that serializes to less than 2 ^ 32 bytes is sealed on every draw of 24 bytes; the
  -- envelope passes the parser, and opens to the metadata for the same document and version.
  pub open_meta-seal :
      (mk : MasterKey) (doc_id : DocId) (doc_version : ℕ) (meta : DocMeta) (plain nonce : Bytes)
      → json.to_vec meta ≡ some plain
      → length plain < 2 ^ 32
      → length nonce ≡ nonce_len
      → (enc : EncMeta) × (seal aead json mk doc_id doc_version meta (some nonce) ≡ ok enc)
        × (from_bytes enc.bytes ≡ ok enc)
        × (open_meta aead json mk doc_id doc_version enc ≡ ok meta)
  unfolding seal open_meta from_bytes
  open_meta-seal mk d n meta plain nonce hp hl hn =
      let aad = build_aad d n in
      let (sealed, e) = laws.encrypts mk.bytes nonce aad plain hl in
      let len : length (nonce ++ sealed) ≡ length plain + 40 = omega (
        arith,
        length-append nonce sealed,
        laws.length-encrypt mk.bytes nonce aad plain sealed e,
      ) in
      let full : ltb (suc (length (nonce ++ sealed))) 41 ≡ false = ground (arith, len) in
      (
        record { bytes = 1 ∷ nonce ++ sealed },
        rw (hp, e),
        rw full,
        rw (
          full,
          take-append_exact 24 nonce sealed hn,
          drop-append_exact 24 nonce sealed hn,
          laws.decrypt-encrypt mk.bytes nonce aad plain sealed e,
          json_laws.from_slice-to_vec meta plain hp,
        ),
      )
