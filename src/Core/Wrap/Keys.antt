-- ===== src/Core/Wrap/Keys.antt =====
-- Wrapping and unwrapping the master key and the document keys.
use scrigno.Prelude.{
  ℕ, ◌^◌, ◌<◌, ◌≡◌, ◌≢◌, refl, ap, sym, ◌∙◌, some, length, length-append, append_inj, ok, arith,
}
use scrigno.Prelude.Bytes.{Bytes, length-be_bytes, be_bytes_inj}
use scrigno.Core.{VaultId, DocId, KeyslotId, MasterKey, Dek, Kek, Aead, AeadLaws, uuid_bytes}
use scrigno.Core.Wrap.{
  WrappedKey, IsValid, mk_aad, dek_aad, mk_aad_prefix, dek_aad_prefix, seal, open_wrapped, wrap_mk,
  unwrap_mk, wrap_dek, unwrap_dek, nonce_len,
}

abbrev pub IsUuid : ℕ → Type 0
IsUuid id = id < 256 ^ 16

-- The associated data of a wrapped master key names its vault and its keyslot, that of a document
-- key its document, and the two kinds never meet.
pub aad_binds :
    (v v' : VaultId) (k k' : KeyslotId) (d d' : DocId)
    → IsUuid v.uuid
    → IsUuid v'.uuid
    → IsUuid k.uuid
    → IsUuid k'.uuid
    → IsUuid d.uuid
    → IsUuid d'.uuid
    → (mk_aad v k ≡ mk_aad v' k' → (v ≡ v') × (k ≡ k'))
      × (dek_aad d ≡ dek_aad d' → d ≡ d')
      × (mk_aad v k ≢ dek_aad d)
unfolding mk_aad dek_aad
aad_binds v v' k k' d d' hv hv' hk hk' hd hd' = (
  λ e.
      let ids = (append_inj mk_aad_prefix mk_aad_prefix refl e).1 in
      let parts =
        append_inj (uuid_bytes v.uuid) (uuid_bytes v'.uuid)
          (length-be_bytes 16 v.uuid ∙ sym (length-be_bytes 16 v'.uuid)) ids in
      let hv : v.uuid ≡ v'.uuid = be_bytes_inj 16 v.uuid v'.uuid hv hv' parts.0 in
      let hk : k.uuid ≡ k'.uuid = be_bytes_inj 16 k.uuid k'.uuid hk hk' parts.1 in
      (λ i. record { uuid = hv i }, λ i. record { uuid = hk i }),
  λ e.
      let ids = (append_inj dek_aad_prefix dek_aad_prefix refl e).1 in
      let hd : d.uuid ≡ d'.uuid = be_bytes_inj 16 d.uuid d'.uuid hd hd' ids in
      λ i. record { uuid = hd i },
  λ e. absurd (
      omega (
        arith,
        ap length e,
        length-append (uuid_bytes v.uuid) (uuid_bytes k.uuid),
        length-be_bytes 16 v.uuid,
        length-be_bytes 16 k.uuid,
        length-be_bytes 16 d.uuid,
      )),
)

module _ (aead : Aead) (laws : AeadLaws aead) where
  seal-open :
      (key aad text nonce : Bytes)
      → length text ≡ 32
      → length nonce ≡ nonce_len
      → (w : WrappedKey) × (seal aead key aad text (some nonce) ≡ ok w)
        × (open_wrapped aead key aad w ≡ ok text)
        × IsValid w
  unfolding seal open_wrapped
  seal-open key aad text nonce ht hn =
      let (sealed, e) = laws.encrypts key nonce aad text (omega arith) in
      let len : length sealed ≡ 48 =
        omega (arith, laws.length-encrypt key nonce aad text sealed e) in
      (
        record { nonce = nonce; ciphertext = sealed },
        rw (e, len),
        rw (laws.decrypt-encrypt key nonce aad text sealed e, ht),
        record { nonce_length = hn; ciphertext_length = len },
      )

  -- Wrapping a 32-byte master key succeeds on every draw of 24 bytes, and the well-formed result
  -- unwraps to that key under the same key-encryption key, vault and keyslot.
  pub unwrap_mk-wrap_mk :
      (kek : Kek) (vault_id : VaultId) (keyslot_id : KeyslotId) (mk : MasterKey) (nonce : Bytes)
      → length mk.bytes ≡ 32
      → length nonce ≡ nonce_len
      → (w : WrappedKey) × (wrap_mk aead kek vault_id keyslot_id mk (some nonce) ≡ ok w)
        × (unwrap_mk aead kek vault_id keyslot_id w ≡ ok mk)
        × IsValid w
  unfolding wrap_mk unwrap_mk
  unwrap_mk-wrap_mk kek v k mk nonce hm hn =
      let (w, s, o, valid) = seal-open kek.bytes (mk_aad v k) mk.bytes nonce hm hn in
      (w, s, rw o, valid)

  -- A document key of 32 bytes, wrapped under a master key for a document with any 24-byte nonce,
  -- is read back by unwrapping it under the same key for the same document, given the laws of the
  -- cipher.
  pub unwrap_dek-wrap_dek :
      (mk : MasterKey) (doc_id : DocId) (dek : Dek) (nonce : Bytes)
      → length dek.bytes ≡ 32
      → length nonce ≡ nonce_len
      → (w : WrappedKey) × (wrap_dek aead mk doc_id dek (some nonce) ≡ ok w)
        × (unwrap_dek aead mk doc_id w ≡ ok dek)
        × IsValid w
  unfolding wrap_dek unwrap_dek
  unwrap_dek-wrap_dek mk d dek nonce hm hn =
      let (w, s, o, valid) = seal-open mk.bytes (dek_aad d) dek.bytes nonce hm hn in
      (w, s, rw o, valid)
