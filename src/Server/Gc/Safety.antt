-- ===== src/Server/Gc/Safety.antt =====
-- The sweep takes what nobody needs, and nothing else.
use scrigno.Prelude.{
  ℕ, ◌+◌, ◌≡◌, ◌≤◌, refl, Bool, true, false, Option, none, some, List, [], ◌∷◌, ◌==◌, ok, length,
  arith, All, Bool-cases, Option-cases, inl, inr, ◌⊎◌,
}
use scrigno.Server.{Uuid, DocumentRecord, BlobRow, Db}
use scrigno.Server.Rows.{find_blob, find_doc}
use scrigno.Server.Invariant.{WellFormed, GoodRow, Stored, is_none}
use scrigno.Server.Gc.{
  grace, refers_to, in_use, candidate, candidates, remaining, referenced, any_referenced, sweep,
}

-- A document that refers to a blob is live, so a blob with a reference is in use.
in_use-referenced :
    (blobs : List BlobRow) (n : ℕ) (b : Uuid) (ds : List DocumentRecord)
    → All (GoodRow blobs n) ds
    → referenced b ds ≡ true
    → in_use b ds ≡ true
unfolding referenced in_use refers_to is_none
in_use-referenced blobs n b [] h r = r
in_use-referenced blobs n b (d ∷ ds) ((_, _, e, _), h) r = elim (Option-cases d.blob_id) [
  | inl o ↦ ground (arith, in_use-referenced blobs n b ds)
  | inr (id, o) ↦ ground (arith, in_use-referenced blobs n b ds)
]

any_referenced-candidates :
    (locked : Uuid → Bool) (now : ℕ) (db : Db) (bs : List BlobRow)
    → WellFormed db
    → any_referenced (candidates (candidate locked now db) bs) db.documents ≡ false
unfolding candidates any_referenced candidate
any_referenced-candidates locked now db [] h = refl
any_referenced-candidates locked now db (b ∷ bs) h = ground (
  arith,
  any_referenced-candidates locked now db bs h,
  in_use-referenced db.blobs db.next_seq b.id db.documents h.rows,
)

length-remaining :
    (p : BlobRow → Bool) (bs : List BlobRow)
    → length (candidates p bs) + length (remaining p bs) ≡ length bs
unfolding candidates remaining
length-remaining p [] = refl
length-remaining p (b ∷ bs) = ground (arith, length-remaining p bs)

in_use-cons :
    (b : Uuid) (d : DocumentRecord) (ds : List DocumentRecord)
    → in_use b ds ≡ true
    → in_use b (d ∷ ds) ≡ true
unfolding in_use
in_use-cons b d ds h = ground arith

find_blob-remaining :
    (locked : Uuid → Bool) (now : ℕ) (db : Db) (id : Uuid) (bs : List BlobRow)
    → in_use id db.documents ≡ true
    → find_blob id (remaining (candidate locked now db) bs) ≡ find_blob id bs
unfolding find_blob remaining candidate
find_blob-remaining locked now db id [] u = refl
find_blob-remaining locked now db id (b ∷ bs) u =
    ground (arith, find_blob-remaining locked now db id bs u)

-- A reference to a stored blob outlives the sweep where the document is live.
Stored-remaining :
    (locked : Uuid → Bool) (now : ℕ) (db : Db) (o : Option Uuid)
    → ((b : Uuid) → o ≡ some b → in_use b db.documents ≡ true)
    → Stored db.blobs o
    → Stored (remaining (candidate locked now db) db.blobs) o
unfolding Stored
Stored-remaining locked now db none u h = h
Stored-remaining locked now db (some b) u h =
    rw (find_blob-remaining locked now db b db.blobs (u b refl)) h

in_use_head :
    (b : Uuid) (d : DocumentRecord) (ds : List DocumentRecord)
    → d.deleted ≡ is_none d.blob_id
    → d.blob_id ≡ some b
    → in_use b (d ∷ ds) ≡ true
unfolding in_use refers_to is_none
in_use_head b d ds e s = rw (e, s) (ground arith)

in_use-find_doc :
    (id b : Uuid) (ds : List DocumentRecord) (d : DocumentRecord)
    → find_doc id ds ≡ some d
    → d.deleted ≡ false
    → d.blob_id ≡ some b
    → in_use b ds ≡ true
unfolding find_doc in_use refers_to
in_use-find_doc id b [] d h l s = ground arith
in_use-find_doc id b (c ∷ ds) d h l s = elim (Bool-cases (c.id == id)) [
  | inl t ↦ (let e : c ≡ d = ground arith in rw (e, s, l) (ground arith))
  | inr t ↦ ground (arith, in_use-find_doc id b ds d)
]

All-remaining :
    (locked : Uuid → Bool) (now : ℕ) (db : Db) (bs : List BlobRow)
    → All
        (λ b.
          (in_use b.id db.documents ≡ true) ⊎ ((now ≤ b.created_at + grace) ⊎ (locked b.id ≡ true)))
        (remaining (candidate locked now db) bs)
unfolding remaining candidate
All-remaining locked now db [] = tt
All-remaining locked now db (b ∷ bs) = elim (Bool-cases (candidate locked now db b)) [
  | inl t ↦ rw t (All-remaining locked now db bs)
  | inr t ↦ rw t (ground arith, All-remaining locked now db bs)
]

-- In well-formed tables the foreign key never refuses the sweep, which answers with the rows that it
-- took: what is left and what was counted make up the table.
pub sweep-ok :
    (locked : Uuid → Bool) (now : ℕ) (db : Db)
    → WellFormed db
    → (n : ℕ) × ((sweep locked now db).0 ≡ ok n)
      × (n + length (sweep locked now db).1.blobs ≡ length db.blobs)
unfolding sweep
sweep-ok locked now db h = (
  length (candidates (candidate locked now db) db.blobs),
  rw (any_referenced-candidates locked now db db.blobs h) refl,
  rw (any_referenced-candidates locked now db db.blobs h)
      (length-remaining (candidate locked now db) db.blobs),
)

-- A live document that is found under its id keeps its blob through a sweep, whatever its age and
-- whatever is locked.
pub sweep_keeps :
    (locked : Uuid → Bool) (now : ℕ) (db : Db) (id b : Uuid) (d : DocumentRecord)
    → find_doc id db.documents ≡ some d
    → d.deleted ≡ false
    → d.blob_id ≡ some b
    → find_blob b (sweep locked now db).1.blobs ≡ find_blob b db.blobs
unfolding sweep
sweep_keeps locked now db id b d h l s =
    let u = in_use-find_doc id b db.documents d h l s in
    ground (arith, find_blob-remaining locked now db b db.blobs u)

-- Every blob that a sweep of well-formed tables leaves is referred to by a live document, not older
-- than the grace period, or locked.
pub sweep_collects :
    (locked : Uuid → Bool) (now : ℕ) (db : Db)
    → WellFormed db
    → All
        (λ b.
          (in_use b.id db.documents ≡ true) ⊎ ((now ≤ b.created_at + grace) ⊎ (locked b.id ≡ true)))
        (sweep locked now db).1.blobs
unfolding sweep
sweep_collects locked now db h =
    rw (any_referenced-candidates locked now db db.blobs h) (All-remaining locked now db db.blobs)

remaining-GoodRow :
    (locked : Uuid → Bool) (now : ℕ) (db : Db) (ds : List DocumentRecord)
    → ((b : Uuid) → in_use b ds ≡ true → in_use b db.documents ≡ true)
    → All (GoodRow db.blobs db.next_seq) ds
    → All (GoodRow (remaining (candidate locked now db) db.blobs) db.next_seq) ds
remaining-GoodRow locked now db [] k h = tt
remaining-GoodRow locked now db (d ∷ ds) k ((s, v, e, g), h) = (
  (s, v, e, Stored-remaining locked now db d.blob_id (λ b o. k b (in_use_head b d ds e o)) g),
  remaining-GoodRow locked now db ds (λ b u. k b (in_use-cons b d ds u)) h,
)

-- A sweep keeps the tables well formed: in particular no live document loses its blob.
pub sweep-WellFormed :
    (locked : Uuid → Bool) (now : ℕ) (db : Db) → WellFormed db → WellFormed (sweep locked now db).1
unfolding sweep
sweep-WellFormed locked now db h = rw (any_referenced-candidates locked now db db.blobs h) (record {
  rows = remaining-GoodRow locked now db db.documents (λ b u. u) h.rows;
  distinct = h.distinct;
})
