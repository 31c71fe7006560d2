-- ===== src/Server/Docs/Deletion.antt =====
-- What `delete_doc` of routes/docs.rs does on each branch.
use mathlib.Core.Option
use scrigno.Prelude.{
  ℕ, ◌+◌, ◌≡◌, ◌≢◌, refl, subst, sym, true, Option, none, some, ok, err, arith, inl, inr,
  Option-cases, Result-cases,
}
use scrigno.Prelude.Bytes.{Bytes}
use scrigno.Server.{Uuid, DocumentRecord, Db}
use scrigno.Server.Rows.{find_doc, id-find_doc}
use scrigno.Server.Headers.{require_if_match}
use scrigno.Server.Docs.{Reply, update_doc, stamp, tombstone, delete_doc, missing_or_stale}
use scrigno.Server.Docs.Concurrency.{Accepted, update_doc-Accepted, update_doc_row}

-- The row that an accepted `DELETE` leaves of the row `old`.
abbrev pub TombstoneRow : Uuid → ℕ → DocumentRecord → ℕ → Db → DocumentRecord → Type 0
TombstoneRow id if_match old now db row =
    (row.id ≡ id)
    × (row.version ≡ if_match + 1)
    × (row.blob_id ≡ none)
    × (row.blob_size ≡ 0)
    × (row.enc_meta ≡ old.enc_meta)
    × (row.deleted ≡ true)
    × (row.server_seq ≡ db.next_seq)
    × (row.updated_at ≡ now)

stamp-TombstoneRow :
    (id if_match now : ℕ) (old : DocumentRecord) (db : Db)
    → old.id ≡ id
    → TombstoneRow id if_match old now db (stamp (tombstone old) (if_match + 1) db.next_seq now)
unfolding stamp tombstone
stamp-TombstoneRow id if_match now old db e = (e, refl, refl, refl, refl, refl, refl, refl)

-- An accepted `DELETE`: the version the caller sent is the version stored, the row is marked deleted,
-- with the next version and a fresh sequence number, without its blob and with its metadata kept, and
-- every other document and every other table is as it was.
pub delete_doc-Accepted :
    (id other : Uuid) (header : Option Bytes) (now : ℕ) (db db' : Db) (r : Reply)
    → delete_doc id header now db ≡ (ok r, db')
    → (if_match : ℕ) × (old : DocumentRecord) × (require_if_match header ≡ ok if_match)
      × (find_doc id db.documents ≡ some old)
      × Accepted id other if_match db db' r.body
      × TombstoneRow id if_match old now db r.body
unfolding delete_doc
delete_doc-Accepted id other header now db db' r h = elim (Result-cases (require_if_match header)) [
  | inl (e, he) ↦ ground arith
  | inr (v, hv) ↦
      let h' : update_doc id v now tombstone missing_or_stale db ≡ (ok r, db') = ground arith in
      let (old, found, row) = update_doc_row id v now tombstone missing_or_stale db db' r h' in
      let a =
        update_doc-Accepted id other v now tombstone missing_or_stale db db' r (λ d. refl) h' in
      let made = stamp-TombstoneRow id v now old db (id-find_doc id db.documents old found) in
      (v, old, hv, found, a, subst (TombstoneRow id v old now db) (sym row) made)
]

-- A `DELETE` whose version is not that of a stored document leaves every table as it was, and is
-- refused: with 404 where the document never existed, with the current record where its version is
-- another.
pub delete_doc_refused :
    (id : Uuid) (header : Option Bytes) (now if_match : ℕ) (db : Db)
    → require_if_match header ≡ ok if_match
    → Option.map (λ d. d.version) (find_doc id db.documents) ≢ some if_match
    → delete_doc id header now db ≡ (err (missing_or_stale (find_doc id db.documents)), db)
unfolding delete_doc update_doc missing_or_stale
delete_doc_refused id header now if_match db h ne = elim (Option-cases (find_doc id db.documents)) [
  | inl e ↦ ground arith
  | inr (old, e) ↦ ground arith
]
