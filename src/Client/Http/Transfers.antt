-- ===== src/Client/Http/Transfers.antt =====
-- http.rs: blobs up and down. A transfer has three attempts, like a retried call, and is checked by
-- its SHA-256.
pub mod Verified
pub mod Keeps
use scrigno.Prelude.{
  ℕ, zero, suc, ◌+◌, ◌-◌, ◌^◌, Bool, true, false, ◌&&◌, Option, none, some, List, [], ◌∷◌, ◌++◌,
  length, take, ltb, leb, ◌==◌, if◌then◌else◌, Result, ok, err,
}
use mathlib.Core.List.{reverse}
use scrigno.Prelude.Bytes.{Bytes, same_bytes}
use scrigno.Server.{Uuid}
use scrigno.Server.Blobs.Upload.{to_hex}
use scrigno.Client.{ClientError, network, crypto, storage, server_contract}
use scrigno.Client.Http.{
  Call, put_blob, get_blob, Response, Transport, Wire, is_success, is_server_error, retry_attempts,
  backoff, map_error_response, parse_json_ok,
}

-- `hex_encode` writes what the server's `to_hex` writes.
abbrev pub hex_encode : Bytes → Bytes
hex_encode = to_hex

abbrev i64_max : ℕ
i64_max = 2 ^ 63 - 1

trim_start : ℕ → Bytes → Bytes
trim_start c [] = []
trim_start c (b ∷ bs) = if b == c then trim_start c bs else b ∷ bs

-- `str::trim_matches` of one character.
pub trim_matches : ℕ → Bytes → Bytes
unfolding trim_start
trim_matches c text = reverse (trim_start c (reverse (trim_start c text)))

-- The chunks of a body, written to the new file one after another; the hasher's state is the bytes it
-- was given.
drain_loop : List Bytes → ℕ → Bytes → Bytes → ℕ × Bytes × Bytes
drain_loop [] total hashed file = (total, hashed, file)
drain_loop (chunk ∷ chunks) total hashed file =
    drain_loop chunks (total + length chunk) (hashed ++ chunk) (file ++ chunk)

-- One attempt of `get_blob_to_file` ends the loop with an answer and the temporary file, or asks for
-- another attempt with the file as it is.
pub data Attempt : Type 0 where
  done : Result ClientError (ℕ × Bytes) → Option Bytes → Attempt
  again : Option Bytes → Attempt

module _ {Remote : Type 0} (net : Transport Remote) (wire : Wire) (sha256 : Bytes → Bytes) where
  -- The answer, and the file.
  pub drain_to_file : Response → Result ClientError (ℕ × Bytes) × Bytes
  unfolding drain_loop
  drain_to_file resp =
      let (total, hashed, file) = drain_loop resp.chunks 0 [] [] in
      if resp.broken
      then (err network, file)
      else (ok (if leb total i64_max then total else i64_max, hex_encode (sha256 hashed)), file)

  checked : Bool → Bytes → Response → Attempt
  unfolding drain_to_file
  checked more expected_sha resp =
      let (drained, file) = drain_to_file resp in
      elim drained [
        | ok (size, sha) ↦
            if same_bytes sha expected_sha
            then done (ok (size, sha)) (some file)
            else done (err crypto) none
        | err e ↦ if more then again none else done (err e) (some file)
      ]

  -- `more` is whether another attempt is left.
  pub download_attempt : Bool → Option Response → Option Bytes → Attempt
  unfolding checked trim_matches
  download_attempt more none tmp = if more then again tmp else done (err network) tmp
  download_attempt more (some resp) tmp =
      if is_success resp.status
      then elim resp.etag [
        | none ↦ done (err server_contract) tmp
        | some tag ↦ checked more (trim_matches b'"' tag) resp
      ]
      else if is_server_error resp.status && more
      then again tmp
      else done (err (map_error_response wire resp)) tmp

  download_from :
      ℕ
      → ℕ
      → Uuid
      → Option Bytes
      → Remote
      → (Result ClientError (ℕ × Bytes) × Option Bytes) × Remote
  download_from zero attempt id tmp remote = ((err network, tmp), remote)
  download_from (suc left) attempt id tmp remote =
      let (answer, remote') = net.send (get_blob id) remote in
      elim (download_attempt (ltb (attempt + 1) retry_attempts) answer tmp) [
        | done result tmp' ↦ ((result, tmp'), remote')
        | again tmp' ↦ download_from left (attempt + 1) id tmp' (backoff net attempt remote')
      ]

  -- The size and the digest, and the temporary file.
  pub get_blob_to_file : Uuid → Remote → (Result ClientError (ℕ × Bytes) × Option Bytes) × Remote
  unfolding download_from download_attempt
  get_blob_to_file id remote = download_from retry_attempts 0 id none remote

  -- One attempt of `put_blob`, on what was read from the file.
  pub upload_attempt : Bool → Bytes → Option Response → Option (Result ClientError Bytes)
  upload_attempt more content none = if more then none else some (err network)
  upload_attempt more content (some resp) =
      if is_success resp.status
      then (let sent_sha = hex_encode (sha256 (take resp.taken content)) in
          some (elim (parse_json_ok wire wire.parse_blob resp) [
            | err e ↦ err e
            | ok sha ↦ if same_bytes sha sent_sha then ok sha else err crypto
          ]))
      else if is_server_error resp.status && more
      then none
      else some (err (map_error_response wire resp))

  upload_from : ℕ → ℕ → Uuid → Bytes → Remote → Result ClientError Bytes × Remote
  upload_from zero attempt id content remote = (err network, remote)
  upload_from (suc left) attempt id content remote =
      let (answer, remote') = net.send (put_blob id content) remote in
      elim (upload_attempt (ltb (attempt + 1) retry_attempts) content answer) [
        | some result ↦ (result, remote')
        | none ↦ upload_from left (attempt + 1) id content (backoff net attempt remote')
      ]

  -- Of the response the digest is kept; `none` is a file that cannot be opened.
  pub http_put_blob : Uuid → Option Bytes → Remote → Result ClientError Bytes × Remote
  unfolding upload_from upload_attempt
  http_put_blob id none remote = (err storage, remote)
  http_put_blob id (some content) remote = upload_from retry_attempts 0 id content remote
