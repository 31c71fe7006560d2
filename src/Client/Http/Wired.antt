-- ===== src/Client/Http/Wired.antt =====
-- The HTTP client as what the sync engine and the vault call. The clock and the random generator
-- remain parameters.
use scrigno.Prelude.{
  ◌≡◌, ap, sym, ◌∙◌, true, Option, none, some, Result-cases, inl, inr, Result, ok, err, ok-eq-ok,
}
use scrigno.Prelude.Bytes.{Bytes, join}
use scrigno.Server.{Uuid}
use scrigno.Client.{ClientError, storage}
use scrigno.Client.Vault.Cache.{BlobSource}
use scrigno.Client.Vault.Edit.{Draws}
use scrigno.Client.Vault.Bootstrap.{VaultApi}
use scrigno.Client.Sync.{Environment}
use scrigno.Client.Http.{
  Response, Transport, Wire, is_success, http_get_changes, http_put_doc, http_delete_doc,
  http_create_vault,
}
use scrigno.Client.Http.Transfers.{get_blob_to_file, http_put_blob, hex_encode, trim_matches}
use scrigno.Client.Http.Transfers.Verified.{get_blob_to_file-Verified}

-- The file of a download that succeeded.
abbrev downloaded : {A : Type 0} → Result ClientError A → Option Bytes → Result ClientError Bytes
downloaded (err e) file = err e
downloaded (ok a) none = err storage
downloaded (ok a) (some content) = ok content

abbrev without_answer : {A : Type 0} → Result ClientError A → Result ClientError (Unit {0})
without_answer (err e) = err e
without_answer (ok a) = ok tt

module _ {Remote : Type 0} (net : Transport Remote) (wire : Wire) (sha256 : Bytes → Bytes) where
  unfoldable pub http_source : BlobSource Remote
  http_source = record {
    get_blob_to_file = λ id remote.
        let ((result, file), remote') = get_blob_to_file net wire sha256 id remote in
        (downloaded result file, remote');
  }

  unfoldable pub http_environment : (Remote → Draws × Remote) → Environment Remote
  http_environment draw = record {
    source = http_source;
    get_changes = http_get_changes net wire;
    http_put_blob = λ id content remote.
        let (result, remote') = http_put_blob net wire sha256 id (some content) remote in
        (without_answer result, remote');
    http_put_doc = http_put_doc net wire;
    http_delete_doc = http_delete_doc net wire;
    draw = draw;
  }

  pub http_vault_api : (Bytes → Result ClientError (Unit {0})) → VaultApi Remote
  http_vault_api http_new = record { http_new = http_new; post_vault = http_create_vault net wire }

  -- The bytes that the vault caches are the body whose digest the response's tag states.
  pub http_source-Verified :
      (id : Uuid) (remote : Remote) (bytes : Bytes)
      → (http_source.get_blob_to_file id remote).0 ≡ ok bytes
      → (resp : Response) × (tag : Bytes) × (is_success resp.status ≡ true)
        × (resp.etag ≡ some tag)
        × (bytes ≡ join resp.chunks)
        × (hex_encode (sha256 bytes) ≡ trim_matches b'"' tag)
  unfolding http_source
  http_source-Verified id remote bytes h =
      let got = get_blob_to_file net wire sha256 id remote in
      elim (Result-cases got.0.0) [
        | inl (e, r) ↦ cc (rw (http_source, r) at h)
        | inr ((size, sha), r) ↦
            let v = get_blob_to_file-Verified net wire sha256 id remote size sha r in
            let same : bytes ≡ join v.response.chunks =
              sym (ok-eq-ok (rw (http_source, r, v.written) at h)) in
            (
              v.response,
              v.tag,
              v.success,
              v.tagged,
              same,
              ap (λ b. hex_encode (sha256 b)) same ∙ sym v.digest ∙ v.stated,
            )
      ]
