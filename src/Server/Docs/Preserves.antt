-- ===== src/Server/Docs/Preserves.antt =====
-- The document handlers keep the tables well formed.
use scrigno.Prelude.{
  ℕ, ◌+◌, ◌≡◌, ◌≢◌, refl, Option, none, arith, ltb, ◌==◌, All-append, Option-cases, Bool-cases,
  Result-cases, inl, inr,
}
use scrigno.Prelude.Bytes.{Bytes}
use scrigno.Server.{Uuid, DocumentRecord, PutDocRequest, Db, ApiError}
use scrigno.Server.Rows.{find_doc, find_blob}
use scrigno.Server.Headers.{require_if_match}
use scrigno.Server.Docs.{
  insert_doc, update_doc, stamp, write_row, put_content, tombstone, put_checked, put_guard, put_doc,
  delete_doc, mismatch, missing_or_stale, max_version,
}
use scrigno.Server.Docs.Concurrency.{put_guard-ok}
use scrigno.Server.Invariant.{
  WellFormed, GoodRow, Stored, is_none, GoodRow-next_seq, Fresh-next_seq, replace_doc-GoodRow,
  replace_doc-Distinct, append-Distinct,
}

write_row-WellFormed :
    (row : DocumentRecord) (now : ℕ) (db : Db)
    → row.server_seq ≡ db.next_seq
    → GoodRow db.blobs (db.next_seq + 1) row
    → WellFormed db
    → WellFormed (write_row row now db).1
unfolding write_row
write_row-WellFormed row now db s g h = record {
  rows =
      replace_doc-GoodRow db.blobs (db.next_seq + 1) row db.documents g
        (GoodRow-next_seq db.blobs db.next_seq (db.next_seq + 1) db.documents (omega arith) h.rows);
  distinct =
      replace_doc-Distinct row db.documents
        (rw s (Fresh-next_seq db.blobs db.next_seq db.documents h.rows)) h.distinct;
}

moved_on-WellFormed :
    (db : Db) → WellFormed db → WellFormed (record db { next_seq = db.next_seq + 1 })
moved_on-WellFormed db h = record {
  rows = GoodRow-next_seq db.blobs db.next_seq (db.next_seq + 1) db.documents (omega arith) h.rows;
  distinct = h.distinct;
}

insert_doc-WellFormed :
    (id : Uuid) (body : PutDocRequest) (now : ℕ) (db : Db)
    → find_blob body.blob_id db.blobs ≢ none
    → WellFormed db
    → WellFormed (insert_doc id body now db).1
unfolding insert_doc Stored is_none
insert_doc-WellFormed id body now db hb h = elim (Option-cases (find_doc id db.documents)) [
  | inl e ↦
      rw (e, insert_doc)
        (record {
          rows =
              All-append (GoodRow db.blobs (db.next_seq + 1)) db.documents _
                (GoodRow-next_seq db.blobs db.next_seq (db.next_seq + 1) db.documents (omega arith)
                  h.rows)
                ((omega arith, omega arith, refl, hb), tt);
          distinct =
              append-Distinct _ db.documents
                (Fresh-next_seq db.blobs db.next_seq db.documents h.rows) h.distinct;
        })
  | inr (d, e) ↦ rw (e, insert_doc) (moved_on-WellFormed db h)
]

update_doc-WellFormed :
    (id : Uuid) (if_match now : ℕ) (change : DocumentRecord → DocumentRecord)
    (refused : Option DocumentRecord → ApiError) (db : Db)
    → ((d : DocumentRecord) → (change d).deleted ≡ is_none (change d).blob_id)
    → ((d : DocumentRecord) → Stored db.blobs (change d).blob_id)
    → WellFormed db
    → WellFormed (update_doc id if_match now change refused db).1
unfolding update_doc stamp
update_doc-WellFormed id if_match now change refused db hd hs h =
    elim (Option-cases (find_doc id db.documents)) [
      | inl e ↦ rw (e, update_doc) h
      | inr (old, e) ↦
          let w =
            write_row-WellFormed (stamp (change old) (if_match + 1) db.next_seq now) now db refl
              (omega arith, omega arith, hd old, hs old) h in
          let m = moved_on-WellFormed db h in
          rw (e, update_doc)
            (elim (Bool-cases (old.version == if_match)) [
              | inl t ↦ (elim (Bool-cases (ltb if_match max_version)) [
                | inl u ↦ rw (t, u) w
                | inr u ↦ rw (t, u) m
              ])
              | inr t ↦ rw t h
            ])
    ]

put_checked-WellFormed :
    (id : Uuid) (if_match : ℕ) (body : PutDocRequest) (now : ℕ) (db : Db)
    → find_blob body.blob_id db.blobs ≢ none
    → WellFormed db
    → WellFormed (put_checked id if_match body now db).1
unfolding put_checked put_content Stored is_none
put_checked-WellFormed id if_match body now db hb h = elim (Bool-cases (if_match == 0)) [
  | inl z ↦ rw (z, put_checked) (insert_doc-WellFormed id body now db hb h)
  | inr z ↦
      rw (z, put_checked)
        (update_doc-WellFormed id if_match now (put_content body)
          (λ current. mismatch id current now) db (λ d. refl) (λ d. hb) h)
]

-- A `PUT` of a document keeps the tables well formed, on every branch: sequence numbers are
-- distinct and below the next one, versions are at least 1, and a document has a blob, a stored
-- one, exactly where it is not a tombstone.
pub put_doc-WellFormed :
    (id : Uuid) (header : Option Bytes) (body : PutDocRequest) (now : ℕ) (db : Db)
    → WellFormed db
    → WellFormed (put_doc id header body now db).1
unfolding put_doc
put_doc-WellFormed id header body now db h = elim (Result-cases (put_guard header body db)) [
  | inl (e, he) ↦ rw (he, put_doc) h
  | inr (v, hv) ↦
      rw (hv, put_doc)
        (put_checked-WellFormed id v body now db (put_guard-ok header body db v hv).2 h)
]

-- A `DELETE` of a document keeps the tables well formed, on every branch.
pub delete_doc-WellFormed :
    (id : Uuid) (header : Option Bytes) (now : ℕ) (db : Db)
    → WellFormed db
    → WellFormed (delete_doc id header now db).1
unfolding delete_doc tombstone Stored is_none
delete_doc-WellFormed id header now db h = elim (Result-cases (require_if_match header)) [
  | inl (e, he) ↦ rw (he, delete_doc) h
  | inr (v, hv) ↦
      rw (hv, delete_doc)
        (update_doc-WellFormed id v now tombstone missing_or_stale db (λ d. refl) (λ d. tt) h)
]
