-- ===== src/Core/Wrap.antt =====
-- crates/scrigno-core/src/wrap.rs.
pub mod Envelope
pub mod Keys
use scrigno.Prelude.{
  ℕ, ◌+◌, ◌≡◌, Bool, true, false, Option, none, some, List, [], ◌∷◌, ◌++◌, length, take, drop,
  head?, ◌==◌, if◌then◌else◌, Result, ok, err, ok_or, map_err, ◌>>=◌,
}
use scrigno.Prelude.Bytes.{Bytes, codes}
use scrigno.Core.{
  Error, malformed, authentication, internal, VaultId, DocId, KeyslotId, MasterKey, Dek, Kek, Aead,
  uuid_bytes, fill_random, check_version,
}
use scrigno.Codec.Base64.{base64_encode, base64_decode}

abbrev pub version : ℕ
version = 0x01

abbrev pub nonce_len : ℕ
nonce_len = 24

abbrev pub ciphertext_len : ℕ
ciphertext_len = 48

abbrev pub wrapped_key_len : ℕ
wrapped_key_len = 1 + nonce_len + ciphertext_len

abbrev pub mk_aad_prefix : Bytes
mk_aad_prefix = codes "scrigno/mk/v1"

abbrev pub dek_aad_prefix : Bytes
dek_aad_prefix = codes "scrigno/dek/v1"

pub record WrappedKey : Type 0 where
  pub nonce : Bytes
  pub ciphertext : Bytes

-- The lengths that the array types of the source give.
pub record IsValid (w : WrappedKey) : Type 0 where
  pub nonce_length : length w.nonce ≡ nonce_len
  pub ciphertext_length : length w.ciphertext ≡ ciphertext_len

pub as_bytes : WrappedKey → Bytes
as_bytes w = version ∷ w.nonce ++ w.ciphertext

-- `&bytes[1..=NONCE_LEN]` and `&bytes[1 + NONCE_LEN..]`.
unfoldable pub from_slice : Bytes → Result Error WrappedKey
unfolding check_version
from_slice bytes = do
  tt ← check_version (head? bytes)
  if length bytes == wrapped_key_len
      then ok (record {
        nonce = take nonce_len (drop 1 bytes);
        ciphertext = drop (1 + nonce_len) bytes;
      })
      else err malformed

-- The JSON string of a wrapped key; the two messages of `Deserialize` are one error here.
pub serialize : WrappedKey → Bytes
serialize w = base64_encode (as_bytes w)

pub deserialize : Bytes → Result Error WrappedKey
deserialize s = do bytes ← ok_or (base64_decode s) malformed; map_err (from_slice bytes) malformed

pub mk_aad : VaultId → KeyslotId → Bytes
mk_aad vault_id keyslot_id = mk_aad_prefix ++ uuid_bytes vault_id.uuid ++ uuid_bytes keyslot_id.uuid

pub dek_aad : DocId → Bytes
dek_aad doc_id = dek_aad_prefix ++ uuid_bytes doc_id.uuid

module _ (aead : Aead) where
  seal_with_nonce : Bytes → Bytes → Bytes → Bytes → Result Error WrappedKey
  seal_with_nonce key aad plaintext nonce = do
    buffer ← ok_or (aead.encrypt key nonce aad plaintext) internal
    if length buffer == ciphertext_len
        then ok (record { nonce = nonce; ciphertext = buffer })
        else err internal

  seal : Bytes → Bytes → Bytes → Option Bytes → Result Error WrappedKey
  unfolding seal_with_nonce
  seal key aad plaintext draw = do nonce ← fill_random draw; seal_with_nonce key aad plaintext nonce

  unfoldable pub open_wrapped : Bytes → Bytes → WrappedKey → Result Error Bytes
  open_wrapped key aad wrapped = do
    buffer ← ok_or (aead.decrypt key wrapped.nonce aad wrapped.ciphertext) authentication
    if length buffer == 32 then ok buffer else err internal

  pub wrap_mk : Kek → VaultId → KeyslotId → MasterKey → Option Bytes → Result Error WrappedKey
  unfolding seal
  wrap_mk kek vault_id keyslot_id mk draw =
      seal kek.bytes (mk_aad vault_id keyslot_id) mk.bytes draw

  unfoldable pub unwrap_mk : Kek → VaultId → KeyslotId → WrappedKey → Result Error MasterKey
  unfolding open_wrapped
  unwrap_mk kek vault_id keyslot_id wrapped = do
    bytes ← open_wrapped kek.bytes (mk_aad vault_id keyslot_id) wrapped
    ok (record { bytes = bytes })

  pub wrap_dek : MasterKey → DocId → Dek → Option Bytes → Result Error WrappedKey
  unfolding seal
  wrap_dek mk doc_id dek draw = seal mk.bytes (dek_aad doc_id) dek.bytes draw

  unfoldable pub unwrap_dek : MasterKey → DocId → WrappedKey → Result Error Dek
  unfolding open_wrapped
  unwrap_dek mk doc_id wrapped = do
    bytes ← open_wrapped mk.bytes (dek_aad doc_id) wrapped
    ok (record { bytes = bytes })
