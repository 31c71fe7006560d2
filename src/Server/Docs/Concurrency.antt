-- ===== src/Server/Docs/Concurrency.antt =====
-- Optimistic concurrency: what a conditional write does on each branch.
use mathlib.Core.Option
use scrigno.Prelude.{
  if◌then◌else◌, ℕ, ◌+◌, ◌≤◌, ◌≡◌, ◌≢◌, refl, ap, false, Option, none, some, ◌==◌, ok, err, arith,
  inl, inr, Option-cases, Bool-cases, Result-cases,
}
use scrigno.Prelude.Bytes.{Bytes}
use scrigno.Server.{Uuid, DocumentRecord, PutDocRequest, Db, ApiError, version_mismatch}
use scrigno.Server.Rows.{find_doc, find_blob, find_doc-replace_doc, id-find_doc, find_doc-concat}
use scrigno.Server.Headers.{require_if_match}
use scrigno.Server.Docs.{
  Reply, insert_doc, update_doc, stamp, write_row, put_content, put_checked, put_guard, put_doc,
  mismatch,
}

-- The row that an accepted `PUT` leaves.
abbrev pub PutRow : Uuid → ℕ → PutDocRequest → ℕ → Db → DocumentRecord → Type 0
PutRow id if_match body now db row =
    (row.id ≡ id)
    × (row.version ≡ if_match + 1)
    × (row.blob_id ≡ some body.blob_id)
    × (row.blob_size ≡ body.blob_size)
    × (row.enc_meta ≡ body.enc_meta)
    × (row.deleted ≡ false)
    × (row.server_seq ≡ db.next_seq)
    × (row.updated_at ≡ now)

-- What an accepted conditional write has done to the tables.
pub record Accepted (id other : Uuid) (if_match : ℕ) (db db' : Db) (row : DocumentRecord)
    : Type 0 where
  pub matched : Option.get_or (Option.map (λ d. d.version) (find_doc id db.documents)) 0 ≡ if_match
  pub stored : find_doc id db'.documents ≡ some row
  pub others :
      find_doc other db'.documents ≡ (if other == id then some row else find_doc other db.documents)
  pub numbered : row.server_seq ≡ db.next_seq
  pub versioned : row.version ≡ if_match + 1
  pub sequence : db'.next_seq ≡ db.next_seq + 1
  pub frame : db' ≡ record db { documents = db'.documents; next_seq = db'.next_seq }

insert_doc-Accepted :
    (id other : Uuid) (body : PutDocRequest) (now : ℕ) (db db' : Db) (r : Reply)
    → insert_doc id body now db ≡ (ok r, db')
    → Accepted id other 0 db db' r.body × PutRow id 0 body now db r.body
unfolding insert_doc
insert_doc-Accepted id other body now db db' r h =
    ground
      (arith, find_doc-concat r.body id db.documents, find_doc-concat r.body other db.documents)

pub update_doc-Accepted :
    (id other : Uuid) (if_match now : ℕ) (change : DocumentRecord → DocumentRecord)
    (refused : Option DocumentRecord → ApiError) (db db' : Db) (r : Reply)
    → ((d : DocumentRecord) → (change d).id ≡ d.id)
    → update_doc id if_match now change refused db ≡ (ok r, db')
    → Accepted id other if_match db db' r.body
unfolding update_doc stamp write_row
update_doc-Accepted id other if_match now change refused db db' r keeps h =
    elim (Option-cases (find_doc id db.documents)) [
      | inl e ↦ ground arith
      | inr (old, e) ↦ ground (
        arith,
        id-find_doc id db.documents old e,
        keeps old,
        find_doc-replace_doc r.body id db.documents,
        find_doc-replace_doc r.body other db.documents,
      )
    ]

pub put_guard-ok :
    (header : Option Bytes) (body : PutDocRequest) (db : Db) (if_match : ℕ)
    → put_guard header body db ≡ ok if_match
    → (require_if_match header ≡ ok if_match)
      × (db.vault ≢ none)
      × (find_blob body.blob_id db.blobs ≢ none)
unfolding put_guard
put_guard-ok header body db if_match h = ground arith

put_guard_passes :
    (header : Option Bytes) (body : PutDocRequest) (db : Db) (if_match : ℕ)
    → require_if_match header ≡ ok if_match
    → db.vault ≢ none
    → find_blob body.blob_id db.blobs ≢ none
    → put_guard header body db ≡ ok if_match
unfolding put_guard
put_guard_passes header body db if_match h hv hb = ground arith

pub put_doc-ok :
    (id : Uuid) (header : Option Bytes) (body : PutDocRequest) (now : ℕ) (db db' : Db) (r : Reply)
    → put_doc id header body now db ≡ (ok r, db')
    → (if_match : ℕ) × (put_guard header body db ≡ ok if_match)
      × (put_checked id if_match body now db ≡ (ok r, db'))
unfolding put_doc
put_doc-ok id header body now db db' r h = elim (Result-cases (put_guard header body db)) [
  | inl (e, he) ↦ ground arith
  | inr (v, hv) ↦ ground arith
]

pub update_doc_row :
    (id : Uuid) (if_match now : ℕ) (change : DocumentRecord → DocumentRecord)
    (refused : Option DocumentRecord → ApiError) (db db' : Db) (r : Reply)
    → update_doc id if_match now change refused db ≡ (ok r, db')
    → (old : DocumentRecord) × (find_doc id db.documents ≡ some old)
      × (r.body ≡ stamp (change old) (if_match + 1) db.next_seq now)
unfolding update_doc write_row
update_doc_row id if_match now change refused db db' r h =
    elim (Option-cases (find_doc id db.documents)) [
      | inl e ↦ ground arith
      | inr (old, e) ↦ ground arith
    ]

put_update_row :
    (id : Uuid) (if_match : ℕ) (body : PutDocRequest) (now : ℕ) (db db' : Db) (r : Reply)
    → update_doc id if_match now (put_content body) (λ current. mismatch id current now) db
      ≡ (ok r, db')
    → PutRow id if_match body now db r.body
unfolding put_content stamp
put_update_row id if_match body now db db' r h =
    let (old, found, row) =
      update_doc_row id if_match now (put_content body) (λ current. mismatch id current now) db db'
        r h in
    ground (arith, id-find_doc id db.documents old found)

put_doc-put_guard :
    (id : Uuid) (header : Option Bytes) (body : PutDocRequest) (now : ℕ) (db : Db) (if_match : ℕ)
    → put_guard header body db ≡ ok if_match
    → put_doc id header body now db ≡ put_checked id if_match body now db
unfolding put_doc
put_doc-put_guard id header body now db if_match h = ground arith

pub put_checked-Accepted :
    (id other : Uuid) (if_match : ℕ) (body : PutDocRequest) (now : ℕ) (db db' : Db) (r : Reply)
    → put_checked id if_match body now db ≡ (ok r, db')
    → Accepted id other if_match db db' r.body × PutRow id if_match body now db r.body
unfolding put_checked put_content
put_checked-Accepted id other if_match body now db db' r h = elim (Bool-cases (if_match == 0)) [
  | inl z ↦
      let t : if_match ≡ 0 = ground arith in
      let h' : insert_doc id body now db ≡ (ok r, db') = ground arith in
      rw t (insert_doc-Accepted id other body now db db' r h')
  | inr nz ↦
      let h' : update_doc id if_match now (put_content body) (λ current. mismatch id current now) db
          ≡ (ok r, db') =
        ground arith in
      (
        update_doc-Accepted id other if_match now (put_content body)
            (λ current. mismatch id current now) db db' r (λ d. refl) h',
        put_update_row id if_match body now db db' r h',
      )
]

-- An accepted `PUT`: the version the caller sent is the version stored (0 where there is none), the
-- new row answers the request with the next version and a fresh sequence number, every other
-- document and every other table is as it was, and the blob it names exists.
pub put_doc-Accepted :
    (id other : Uuid) (header : Option Bytes) (body : PutDocRequest) (now : ℕ) (db db' : Db)
    (r : Reply)
    → put_doc id header body now db ≡ (ok r, db')
    → (if_match : ℕ) × (require_if_match header ≡ ok if_match)
      × Accepted id other if_match db db' r.body
      × PutRow id if_match body now db r.body
      × (find_blob body.blob_id db.blobs ≢ none)
put_doc-Accepted id other header body now db db' r h =
    let (v, g, c) = put_doc-ok id header body now db db' r h in
    let (hh, hv, hb) = put_guard-ok header body db v g in
    let (a, p) = put_checked-Accepted id other v body now db db' r c in (v, hh, a, p, hb)

-- A refused `PUT`, whatever the error, leaves every table as it was; only the sequence may have
-- moved on.
pub put_doc_refused :
    (id : Uuid) (header : Option Bytes) (body : PutDocRequest) (now : ℕ) (db db' : Db)
    (e : ApiError)
    → put_doc id header body now db ≡ (err e, db')
    → (db' ≡ record db { next_seq = db'.next_seq }) × (db.next_seq ≤ db'.next_seq)
unfolding put_doc put_checked insert_doc update_doc write_row
put_doc_refused id header body now db db' e h = ground arith

put_checked_stale :
    (id : Uuid) (if_match : ℕ) (body : PutDocRequest) (now : ℕ) (db : Db) (row : DocumentRecord)
    → find_doc id db.documents ≡ some row
    → row.version ≢ if_match
    → (put_checked id if_match body now db).0 ≡ err (version_mismatch row)
unfolding put_checked insert_doc update_doc mismatch
put_checked_stale id if_match body now db row h hv = ground arith

-- No lost update: of two `PUT`s of a document with the same `If-Match`, one after the other, where
-- the first is accepted and the second names a stored blob, the second is refused with the record
-- that the first one wrote.
pub put_doc-put_doc :
    (id : Uuid) (header : Option Bytes) (body body' : PutDocRequest) (now now' : ℕ) (db db' : Db)
    (r : Reply)
    → put_doc id header body now db ≡ (ok r, db')
    → find_blob body'.blob_id db.blobs ≢ none
    → (put_doc id header body' now' db').0 ≡ err (version_mismatch r.body)
put_doc-put_doc id header body body' now now' db db' r h hb =
    let (v, g, c) = put_doc-ok id header body now db db' r h in
    let (hh, hv, _) = put_guard-ok header body db v g in
    let (a, _) = put_checked-Accepted id id v body now db db' r c in
    let vault : db'.vault ≡ db.vault = ap (λ d. d.vault) a.frame in
    let blobs : db'.blobs ≡ db.blobs = ap (λ d. d.blobs) a.frame in
    let versioned : r.body.version ≡ v + 1 = a.versioned in
    let g' = put_guard_passes header body' db' v hh (rw vault hv) (rw blobs hb) in
    rw (put_doc-put_guard id header body' now' db' v g')
      (put_checked_stale id v body' now' db' r.body a.stored (omega arith))
