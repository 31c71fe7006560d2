-- ===== src/Client/Served.antt =====
-- The client against the server: the handlers of crates/scrigno-server as the transport that http.rs
-- calls. The token is the right one, the connection does not break, requests follow one another, and
-- serde_json prints what the other side parses.
pub mod Dwindles
use scrigno.Prelude.{
  ℕ, zero, suc, ◌+◌, ◌≤◌, ◌<◌, ◌≡◌, refl, sym, ap, ◌∙◌, Bool, true, false, Option, none, some, List,
  [], ◌∷◌, ◌++◌, length, leb, ltb, Bool-cases, Result-cases, inl, inr, Result, ok, err, ok-eq-ok,
  arith,
}
use scrigno.Prelude.Integers.{pos}
use scrigno.Prelude.Bytes.{Bytes, codes, join}
use scrigno.Server
use scrigno.Server.{
  ApiError, ErrorBody, empty, current, envelope, into_response, Uuid, DocumentRecord, Db,
}
use scrigno.Server.Vault
use scrigno.Server.Vault.{Vault}
use scrigno.Server.Docs
use scrigno.Server.Docs.{Reply}
use scrigno.Server.Changes.{ChangesPage, list_changes, page, changed_after}
use scrigno.Server.Changes.Shrinking.{changed_count, page-shrinks}
use scrigno.Server.Blobs.{State, Digest}
use scrigno.Server.Blobs.Upload
use scrigno.Server.Blobs.Upload.{BlobPutResponse, Outside}
use scrigno.Server.Blobs.Download
use scrigno.Server.Blobs.Download.{Download}
use scrigno.Client.Store.Numbers.{to_string}
use scrigno.Client.Vault.Edit.{Draws}
use scrigno.Client.Sync.{Environment}
use scrigno.Client.Sync.Rounds.Termination.{Dwindling}
use scrigno.Client.Http.{
  Call, get_vault, post_vault, post_keyslot, get_changes, put_doc, delete_doc, put_blob, get_blob,
  Response, Transport, Wire,
}
use scrigno.Client.Http.Wired.{http_environment}

-- serde_json on the server's side.
pub record Printer : Type 0 where
  pub print_vault : Vault → Bytes
  pub print_keyslot : Server.Keyslot → Bytes
  pub print_page : ChangesPage → Bytes
  pub print_record : DocumentRecord → Bytes
  pub print_blob : BlobPutResponse → Bytes
  pub print_error : Bytes → Bytes

-- The server, its clock, and what the client draws from.
pub record Served (Seed : Type 0) : Type 0 where
  pub state : State
  pub now : ℕ
  pub seed : Seed

-- `outside` says how the object store and the clock behave for an upload that starts at a time.
pub record Site : Type 1 where
  pub digest : Digest
  pub max_blob_bytes : ℕ
  pub is_object : Bytes → Bool
  pub outside : ℕ → Outside

abbrev plain : ℕ → Bytes → Response
plain status text = record {
  status = status;
  etag = none;
  chunks = text ∷ [];
  broken = false;
  taken = 0;
}

module _ (printer : Printer) where
  abbrev written : ErrorBody → List Bytes
  written empty = []
  written (current row) = printer.print_record row ∷ []
  written (envelope code) = printer.print_error (codes code) ∷ []

  unfoldable pub refusal : ApiError → Response
  refusal e = record {
    status = (into_response e).0;
    etag = none;
    chunks = written (into_response e).1;
    broken = false;
    taken = 0;
  }

  abbrev answered : {A : Type 0} → (A → Response) → Result ApiError A → Response
  answered reply (ok a) = reply a
  answered reply (err e) = refusal e

  reply_of : Reply → Response
  reply_of reply = plain reply.status (printer.print_record reply.body)

  uploaded : ℕ → BlobPutResponse → Response
  uploaded taken answer = record (plain answer.status (printer.print_blob answer)) { taken = taken }

  downloaded : Download → Response
  downloaded file = record (plain file.status file.body) {
    etag = some (b'"' ∷ (file.etag ++ b'"' ∷ []));
  }

  module _ (set : Site) {Seed : Type 0} where
    abbrev on_db :
        {A : Type 0}
        → (A → Response)
        → (Db → Result ApiError A × Db)
        → Served Seed
        → Option Response × Served Seed
    on_db reply handler r =
        let (answer, db) = handler r.state.db in
        (some (answered reply answer), record r { state = record r.state { db = db } })

    unfoldable pub serve : Call → Served Seed → Option Response × Served Seed
    unfolding refusal reply_of uploaded downloaded
    serve get_vault r = on_db (λ v. plain 200 (printer.print_vault v)) Server.Vault.get_vault r
    serve (post_vault id slot) r =
        on_db (λ v. plain 201 (printer.print_vault v))
          (Server.Vault.create_vault set.is_object (record { id = id; keyslot = slot }) r.now r.now)
          r
    serve (post_keyslot slot) r =
        on_db (λ s. plain 201 (printer.print_keyslot s))
          (Server.Vault.add_keyslot set.is_object slot r.now) r
    serve (get_changes since limit) r = (
      some (
          answered (λ p. plain 200 (printer.print_page p))
            (list_changes (some (pos since)) (some (pos limit)) r.state.db)),
      r,
    )
    serve (put_doc id if_match body) r =
        on_db reply_of (Server.Docs.put_doc id (some (to_string if_match)) body r.now) r
    serve (delete_doc id if_match) r =
        on_db reply_of (Server.Docs.delete_doc id (some (to_string if_match)) r.now) r
    serve (put_blob id content) r =
        let (answer, state) =
          Server.Blobs.Upload.put_blob set.digest set.max_blob_bytes id
            (some (to_string (length content))) (ok content ∷ []) (set.outside r.now) r.state in
        (some (answered (uploaded (length content)) answer), record r { state = state })
    serve (get_blob id) r =
        (some (answered downloaded (Server.Blobs.Download.get_blob id none r.state)), r)

    unfoldable pub served : Transport (Served Seed)
    served = record {
      send = serve;
      sleep = λ milliseconds r. record r { now = r.now + milliseconds };
    }
