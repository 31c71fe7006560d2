-- ===== src/Core/Meta.antt =====
-- crates/scrigno-core/src/meta.rs. `serde_json` is a parameter.
pub mod Sealing
use scrigno.Prelude.{
  ℕ, ◌+◌, ◌≡◌, Option, none, some, List, [], ◌∷◌, ◌++◌, length, take, drop, head?, ltb, Bool, true,
  false, if◌then◌else◌, Result, ok, err, ok_or, ◌>>=◌,
}
use scrigno.Prelude.Bytes.{Bytes, codes, be_bytes}
use scrigno.Core.{
  Error, malformed, authentication, internal, DocId, MasterKey, Aead, uuid_bytes, fill_random,
  check_version,
}

abbrev pub version : ℕ
version = 0x01

abbrev pub nonce_len : ℕ
nonce_len = 24

abbrev pub header_len : ℕ
header_len = 1 + nonce_len

abbrev pub tag_len : ℕ
tag_len = 16

abbrev pub aad_prefix : Bytes
aad_prefix = codes "scrigno/meta/v1"

pub record DocMeta : Type 0 where
  pub v : ℕ
  pub title : Bytes
  pub tags : List Bytes
  pub note : Bytes
  pub mime : Bytes
  pub size : ℕ
  pub content_hash : Bytes
  pub original_name : Bytes
  pub created_at : Bytes
  pub thumb : Option Bytes

-- `serde_json::to_vec` and `serde_json::from_slice` at `DocMeta`.
pub record Json : Type 0 where
  pub to_vec : DocMeta → Option Bytes
  pub from_slice : Bytes → Option DocMeta

pub record JsonLaws (j : Json) : Type 0 where
  pub from_slice-to_vec :
      (meta : DocMeta) (bytes : Bytes) → j.to_vec meta ≡ some bytes → j.from_slice bytes ≡ some meta

pub record EncMeta : Type 0 where
  pub bytes : Bytes

pub from_bytes : Bytes → Result Error EncMeta
unfolding check_version
from_bytes bytes = do
  tt ← check_version (head? bytes)
  if ltb (length bytes) (header_len + tag_len) then err malformed else ok (record { bytes = bytes })

pub build_aad : DocId → ℕ → Bytes
build_aad doc_id doc_version = aad_prefix ++ uuid_bytes doc_id.uuid ++ be_bytes 4 doc_version

module _ (aead : Aead) (json : Json) where
  seal_with_nonce : MasterKey → DocId → ℕ → DocMeta → Bytes → Result Error EncMeta
  seal_with_nonce mk doc_id doc_version meta nonce = do
    plain ← ok_or (json.to_vec meta) internal
    buffer ← ok_or (aead.encrypt mk.bytes nonce (build_aad doc_id doc_version) plain) internal
    ok (record { bytes = version ∷ nonce ++ buffer })

  pub seal : MasterKey → DocId → ℕ → DocMeta → Option Bytes → Result Error EncMeta
  unfolding seal_with_nonce
  seal mk doc_id doc_version meta draw = do
    nonce ← fill_random draw
    seal_with_nonce mk doc_id doc_version meta nonce

  pub open_meta : MasterKey → DocId → ℕ → EncMeta → Result Error DocMeta
  unfolding check_version
  open_meta mk doc_id doc_version enc =
      if ltb (length enc.bytes) (header_len + tag_len) then err malformed else do
        tt ← check_version (head? enc.bytes)
        let nonce = take nonce_len (drop 1 enc.bytes)
        let buffer = drop header_len enc.bytes
        plain ←
            ok_or (aead.decrypt mk.bytes nonce (build_aad doc_id doc_version) buffer) authentication
        ok_or (json.from_slice plain) malformed
