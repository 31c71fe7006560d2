-- ===== src/Client/Http.antt =====
-- http.rs: the HTTP client. The crate `reqwest`, the clock and serde_json are parameters; progress
-- callbacks are left out, and the files of the device do not fail.
pub mod Transfers
pub mod Retries
pub mod Wired
pub mod Answers
use scrigno.Prelude.{
  ℕ, zero, suc, ◌+◌, ◌*◌, ◌^◌, Bool, true, false, ◌&&◌, Option, none, some, List, [], ◌∷◌, ltb, leb,
  ◌==◌, if◌then◌else◌, Result, ok, err, ok_or,
}
use scrigno.Prelude.Bytes.{Bytes, codes, join, same_bytes}
use scrigno.Server
use scrigno.Server.{Uuid, DocumentRecord, PutDocRequest}
use scrigno.Server.Vault.{NewKeyslot, Vault}
use scrigno.Server.Changes.{ChangesPage}
use scrigno.Client.{
  ClientError, network, unauthorized, vault_exists, vault_not_initialised, not_found, invalid_input,
  server_contract,
}
use scrigno.Client.Sync.{PutOutcome, applied, conflict}

abbrev pub retry_attempts : ℕ
retry_attempts = 3

-- In milliseconds.
abbrev pub retry_base_delay : ℕ
retry_base_delay = 200

-- A call, under the client's base URL and with its token as bearer; blobs go by another pool of
-- connections, which has no timeout for the whole request.
pub data Call : Type 0 where
  get_vault : Call
  post_vault : Uuid → NewKeyslot → Call
  post_keyslot : NewKeyslot → Call
  get_changes : ℕ → ℕ → Call
  put_doc : Uuid → ℕ → PutDocRequest → Call
  delete_doc : Uuid → ℕ → Call
  put_blob : Uuid → Bytes → Call
  get_blob : Uuid → Call

-- An answer: its status, its `ETag` where it is text, the chunks of its body and whether the
-- connection broke behind them; `taken` is how much of a request's streamed body was read.
pub record Response : Type 0 where
  pub status : ℕ
  pub etag : Option Bytes
  pub chunks : List Bytes
  pub broken : Bool
  pub taken : ℕ

-- `none` is an error of the transport.
pub record Transport (Remote : Type 0) : Type 0 where
  pub send : Call → Remote → Option Response × Remote
  pub sleep : ℕ → Remote → Remote

-- serde_json at the types of the answers; of an error's body only the code is used.
pub record Wire : Type 0 where
  pub parse_vault : Bytes → Option Vault
  pub parse_keyslot : Bytes → Option Server.Keyslot
  pub parse_page : Bytes → Option ChangesPage
  pub parse_record : Bytes → Option DocumentRecord
  pub parse_blob : Bytes → Option Bytes
  pub parse_error : Bytes → Option Bytes

abbrev pub is_success : ℕ → Bool
is_success status = leb 200 status && ltb status 300

abbrev pub is_server_error : ℕ → Bool
is_server_error status = leb 500 status && ltb status 600

-- `resp.json().await.ok()`.
abbrev pub json_body : {A : Type 0} → (Bytes → Option A) → Response → Option A
json_body parse resp = if resp.broken then none else parse (join resp.chunks)

-- The table of `map_error_response`; `code` is that of the error's body, where it has one.
error_of : ℕ → Option Bytes → ClientError
error_of status code =
    if status == 404
    then elim code [
      | none ↦ not_found
      | some c ↦
          if same_bytes c (codes "vault_not_initialised") then vault_not_initialised else not_found
    ]
    else if status == 409
    then elim code [
      | none ↦ server_contract
      | some c ↦ if same_bytes c (codes "vault_exists") then vault_exists else server_contract
    ]
    else if status == 400
    then invalid_input
    else server_contract

module _ (wire : Wire) where
  pub map_error_response : Response → ClientError
  unfolding error_of
  map_error_response resp =
      if resp.status == 401
      then unauthorized
      else error_of resp.status (json_body wire.parse_error resp)

  pub parse_json_ok : {A : Type 0} → (Bytes → Option A) → Response → Result ClientError A
  parse_json_ok parse resp =
      if is_success resp.status
      then ok_or (json_body parse resp) server_contract
      else err (map_error_response resp)

  pub parse_doc_write : Response → Result ClientError PutOutcome
  parse_doc_write resp =
      if resp.status == 412
      then elim (json_body wire.parse_record resp) [
        | none ↦ err server_contract
        | some record' ↦ ok conflict
      ]
      else if is_success resp.status
      then elim (json_body wire.parse_record resp) [
        | none ↦ err server_contract
        | some record' ↦ ok (applied record')
      ]
      else err (map_error_response resp)

module _ {Remote : Type 0} (net : Transport Remote) where
  pub backoff : ℕ → Remote → Remote
  backoff attempt remote = net.sleep (retry_base_delay * 2 ^ attempt) remote

  -- The loop of `with_retry`: what an attempt ends with, and whether there is another one.
  retry_from : ℕ → ℕ → Call → Remote → Result ClientError Response × Remote
  retry_from zero attempt call remote = (err network, remote)
  retry_from (suc left) attempt call remote =
      let (answer, remote') = net.send call remote in
      let again = retry_from left (attempt + 1) call (backoff attempt remote') in
      elim answer [
        | some resp ↦
            if is_server_error resp.status && ltb (attempt + 1) retry_attempts
            then again
            else (ok resp, remote')
        | none ↦ if ltb (attempt + 1) retry_attempts then again else (err network, remote')
      ]

  pub with_retry : Call → Remote → Result ClientError Response × Remote
  unfolding retry_from
  with_retry call remote = retry_from retry_attempts 0 call remote

  -- `send().await.map_err(map_reqwest_err)`, once.
  pub send_once : Call → Remote → Result ClientError Response × Remote
  send_once call remote =
      let (answer, remote') = net.send call remote in (ok_or answer network, remote')

-- An answer's response, read.
abbrev pub read_with :
    {A R : Type 0}
    → (Response → Result ClientError A)
    → Result ClientError Response × R
    → Result ClientError A × R
read_with parse (ok resp, remote) = (parse resp, remote)
read_with parse (err e, remote) = (err e, remote)

module _ {Remote : Type 0} (net : Transport Remote) (wire : Wire) where
  pub http_get_vault : Remote → Result ClientError Vault × Remote
  http_get_vault remote =
      read_with (parse_json_ok wire wire.parse_vault) (with_retry net get_vault remote)

  pub http_create_vault : Uuid → NewKeyslot → Remote → Result ClientError Vault × Remote
  http_create_vault id keyslot remote =
      read_with (parse_json_ok wire wire.parse_vault) (send_once net (post_vault id keyslot) remote)

  pub http_add_keyslot : NewKeyslot → Remote → Result ClientError Server.Keyslot × Remote
  http_add_keyslot keyslot remote =
      read_with (parse_json_ok wire wire.parse_keyslot)
        (send_once net (post_keyslot keyslot) remote)

  pub http_get_changes : ℕ → ℕ → Remote → Result ClientError ChangesPage × Remote
  http_get_changes since limit remote =
      read_with (parse_json_ok wire wire.parse_page)
        (with_retry net (get_changes since limit) remote)

  pub http_put_doc : Uuid → ℕ → PutDocRequest → Remote → Result ClientError PutOutcome × Remote
  http_put_doc id if_match body remote =
      read_with (parse_doc_write wire) (send_once net (put_doc id if_match body) remote)

  pub http_delete_doc : Uuid → ℕ → Remote → Result ClientError PutOutcome × Remote
  http_delete_doc id if_match remote =
      read_with (parse_doc_write wire) (send_once net (delete_doc id if_match) remote)
