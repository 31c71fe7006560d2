-- ===== src/Server/Tests.antt =====
-- The theorems of the server crate at concrete inputs: a vault with two blobs, one document.
mod Storage
use scrigno.Prelude.{
  ℕ, ◌+◌, ◌-◌, ◌≡◌, ◌≢◌, ◌≤◌, ◌<◌, refl, sym, ap, ◌∙◌, arith, Bool, true, false, Option, none, some,
  List, [], ◌∷◌, ◌++◌, map, length, length-append, take, drop, ltb, Result, ok, err, All, ◌⊎◌, inl,
  inr,
}
use scrigno.Prelude.Bytes.{Bytes, codes}
use scrigno.Server.{
  unauthorized, Uuid, DocumentRecord, PutDocRequest, BlobRow, VaultRow, Keyslot, Db, ApiError,
  version_mismatch, not_found, blob_mismatch, payload_too_large,
}
use scrigno.Server.Rows.{find_doc, replace_doc, find_blob}
use scrigno.Server.Headers.{require_if_match}
use scrigno.Server.Access.{bearer_prefix, require_token, require_token_guards}
use scrigno.Server.Headers.{is_text}
use scrigno.Server.Docs.{Reply, put_doc, delete_doc, missing_or_stale, stamp, tombstone}
use scrigno.Server.Docs.Concurrency.{
  Accepted, PutRow, put_doc-Accepted, put_doc_refused, put_doc-put_doc,
}
use scrigno.Server.Docs.Deletion.{TombstoneRow, delete_doc-Accepted, delete_doc_refused}
use scrigno.Server.Invariant.{WellFormed, Distinct, Fresh, GoodRow, Stored, is_none}
use scrigno.Server.Docs.Preserves.{put_doc-WellFormed, delete_doc-WellFormed}

abbrev blob_5 : BlobRow
blob_5 = record { id = 5; size = 3; sha256 = 3 ∷ []; created_at = 0 }

abbrev blob_6 : BlobRow
blob_6 = record { id = 6; size = 2; sha256 = 2 ∷ []; created_at = 0 }

abbrev db_0 : Db
db_0 = record {
  vault = some (record { id = 1; created_at = 0 });
  keyslots = [];
  blobs = blob_5 ∷ blob_6 ∷ [];
  documents = [];
  next_seq = 1;
}

abbrev put_5 : PutDocRequest
put_5 = record { blob_id = 5; blob_size = 3; enc_meta = 7 ∷ [] }

abbrev put_6 : PutDocRequest
put_6 = record { blob_id = 6; blob_size = 2; enc_meta = 8 ∷ [] }

abbrev doc_9 : DocumentRecord
doc_9 = record {
  id = 9;
  version = 1;
  blob_id = some 5;
  blob_size = 3;
  enc_meta = 7 ∷ [];
  deleted = false;
  server_seq = 1;
  updated_at = 100;
}

abbrev db_1 : Db
db_1 = record db_0 { documents = doc_9 ∷ []; next_seq = 2 }

abbrev create : Option Bytes
create = some (codes "0")

abbrev version_1 : Option Bytes
version_1 = some (codes "1")

put_doc-Accepted_example :
    (if_match : ℕ) × (require_if_match create ≡ ok if_match)
    × Accepted 9 8 if_match db_0 db_1 doc_9
    × PutRow 9 if_match put_5 100 db_0 doc_9
    × (find_blob 5 db_0.blobs ≢ none)
unfolding put_doc require_if_match find_doc find_blob
put_doc-Accepted_example =
    put_doc-Accepted 9 8 create put_5 100 db_0 db_1 (record { status = 201; body = doc_9 }) refl

put_doc-put_doc_example : (put_doc 9 create put_6 200 db_1).0 ≡ err (version_mismatch doc_9)
unfolding put_doc require_if_match find_doc find_blob
put_doc-put_doc_example =
    put_doc-put_doc 9 create put_5 put_6 100 200 db_0 db_1 (record { status = 201; body = doc_9 })
      refl (λ e. ground arith)

abbrev tombstone_9 : DocumentRecord
tombstone_9 = record doc_9 {
  version = 2;
  blob_id = none;
  blob_size = 0;
  deleted = true;
  server_seq = 2;
  updated_at = 300;
}

abbrev db_2 : Db
db_2 = record db_0 { documents = tombstone_9 ∷ []; next_seq = 3 }

delete_doc-Accepted_example :
    (if_match : ℕ) × (old : DocumentRecord) × (require_if_match version_1 ≡ ok if_match)
    × (find_doc 9 db_1.documents ≡ some old)
    × Accepted 9 8 if_match db_1 db_2 tombstone_9
    × TombstoneRow 9 if_match old 300 db_1 tombstone_9
unfolding delete_doc require_if_match find_doc replace_doc
delete_doc-Accepted_example =
    delete_doc-Accepted 9 8 version_1 300 db_1 db_2 (record { status = 200; body = tombstone_9 })
      refl

db_0-WellFormed : WellFormed db_0
unfolding Distinct
db_0-WellFormed = record { rows = tt; distinct = tt }

db_1-WellFormed : WellFormed db_1
unfolding Distinct Fresh Stored is_none find_blob
db_1-WellFormed = record {
  rows = ((omega arith, omega arith, refl, λ e. ground arith), tt);
  distinct = (tt, tt);
}

put_doc-WellFormed_example : WellFormed (put_doc 9 create put_5 100 db_0).1
put_doc-WellFormed_example = put_doc-WellFormed 9 create put_5 100 db_0 db_0-WellFormed
