-- ===== src/Server/Docs.antt =====
-- routes/docs.rs.
pub mod Concurrency
pub mod Preserves
pub mod Deletion
use mathlib.Core.Option
use scrigno.Prelude.{
  ℕ, ◌+◌, ◌-◌, ◌^◌, ◌≡◌, Bool, true, false, Option, none, some, List, [], ◌∷◌, ◌++◌, ltb, ◌==◌,
  if◌then◌else◌, Result, ok, err, ok_or, ◌>>=◌,
}
use scrigno.Prelude.Bytes.{Bytes}
use scrigno.Server.{
  Uuid, DocumentRecord, PutDocRequest, Db, ApiError, vault_not_initialised, not_found,
  blob_not_found, version_mismatch, internal, Handler,
}
use scrigno.Server.Rows.{find_doc, replace_doc, find_blob}
use scrigno.Server.Headers.{require_if_match}

-- 200 or 201, with the record.
pub record Reply : Type 0 where
  pub status : ℕ
  pub body : DocumentRecord

pub get_doc : Uuid → Handler Reply
get_doc id db = (
  do
    record' ← ok_or (find_doc id db.documents) not_found
    ok (record { status = 200; body = record' }),
  db,
)

-- `version_mismatch`: the current record, or a sentinel.
mismatch : Uuid → Option DocumentRecord → ℕ → ApiError
mismatch id current now = version_mismatch (
    Option.get_or current (record {
      id = id;
      version = 0;
      blob_id = none;
      blob_size = 0;
      enc_meta = [];
      deleted = false;
      server_seq = 0;
      updated_at = now;
    }))

-- The `INSERT ... ON CONFLICT (id) DO NOTHING`; the sequence has moved on also where it did nothing.
insert_doc : Uuid → PutDocRequest → ℕ → Handler Reply
unfolding mismatch
insert_doc id body now db = elim (find_doc id db.documents) [
  | some current ↦ (err (mismatch id (some current) now), record db { next_seq = db.next_seq + 1 })
  | none ↦
      let row : DocumentRecord = record {
        id = id;
        version = 1;
        blob_id = some body.blob_id;
        blob_size = body.blob_size;
        enc_meta = body.enc_meta;
        deleted = false;
        server_seq = db.next_seq;
        updated_at = now;
      } in
      (
        ok (record { status = 201; body = row }),
        record db { documents = db.documents ++ row ∷ []; next_seq = db.next_seq + 1 },
      )
]

-- `if_match + 1` is computed in `i32`: past its range the new version violates the table's CHECK.
abbrev max_version : ℕ
max_version = 2 ^ 31 - 1

-- The row that is written, with the new version, sequence number and time put in.
unfoldable pub stamp : DocumentRecord → ℕ → ℕ → ℕ → DocumentRecord
stamp row version seq now = record row { version = version; server_seq = seq; updated_at = now }

write_row : DocumentRecord → ℕ → Handler Reply
write_row row now db = (
  ok (record { status = 200; body = row }),
  record db { documents = replace_doc row db.documents; next_seq = db.next_seq + 1 },
)

-- `UPDATE document SET ... WHERE id = $1 AND version = if_match`, for the new row that `change`
-- makes of the old one.
pub update_doc :
    Uuid
    → ℕ
    → ℕ
    → (DocumentRecord → DocumentRecord)
    → (Option DocumentRecord → ApiError)
    → Handler Reply
unfolding stamp write_row
update_doc id if_match now change refused db = elim (find_doc id db.documents) [
  | none ↦ (err (refused none), db)
  | some old ↦
      if old.version == if_match
      then (if ltb if_match max_version
          then write_row (stamp (change old) (if_match + 1) db.next_seq now) now db
          else (err internal, record db { next_seq = db.next_seq + 1 }))
      else (err (refused (some old)), db)
]

-- What a `PUT` changes of a row, and what a `DELETE` does.
put_content : PutDocRequest → DocumentRecord → DocumentRecord
put_content body old = record old {
  blob_id = some body.blob_id;
  blob_size = body.blob_size;
  enc_meta = body.enc_meta;
  deleted = false;
}

unfoldable pub tombstone : DocumentRecord → DocumentRecord
tombstone old = record old { blob_id = none; blob_size = 0; deleted = true }

pub put_checked : Uuid → ℕ → PutDocRequest → ℕ → Handler Reply
unfolding insert_doc update_doc mismatch put_content
put_checked id if_match body now db =
    if if_match == 0
    then insert_doc id body now db
    else update_doc id if_match now (put_content body) (λ current. mismatch id current now) db

-- The checks before the transaction writes: the header, the vault, the blob.
pub put_guard : Option Bytes → PutDocRequest → Db → Result ApiError ℕ
put_guard if_match_header body db = do
  if_match ← require_if_match if_match_header
  vault_row ← ok_or db.vault vault_not_initialised
  blob ← ok_or (find_blob body.blob_id db.blobs) blob_not_found
  ok if_match

unfoldable pub put_doc : Uuid → Option Bytes → PutDocRequest → ℕ → Handler Reply
unfolding put_guard put_checked
put_doc id if_match_header body now db = elim (put_guard if_match_header body db) [
  | err e ↦ (err e, db)
  | ok if_match ↦ put_checked id if_match body now db
]

unfoldable pub missing_or_stale : Option DocumentRecord → ApiError
missing_or_stale none = not_found
missing_or_stale (some doc) = version_mismatch doc

unfoldable pub delete_doc : Uuid → Option Bytes → ℕ → Handler Reply
unfolding update_doc tombstone missing_or_stale
delete_doc id if_match_header now db = elim (require_if_match if_match_header) [
  | err e ↦ (err e, db)
  | ok if_match ↦ update_doc id if_match now tombstone missing_or_stale db
]
