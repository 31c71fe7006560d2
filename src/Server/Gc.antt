-- ===== src/Server/Gc.antt =====
-- gc.rs: the sweep of the blobs that no live document refers to.
pub mod Safety
use scrigno.Prelude.{
  ℕ, ◌+◌, ◌*◌, ◌≡◌, Bool, true, false, not, ◌&&◌, ◌||◌, Option, none, some, List, [], ◌∷◌, ltb,
  ◌==◌, if◌then◌else◌, Result, ok, err, length,
}
use scrigno.Server.{Uuid, DocumentRecord, BlobRow, Db, ApiError, internal, Handler}

-- Times are in microseconds.
abbrev pub grace : ℕ
grace = 24 * 3600 * 1000000

pub refers_to : Uuid → DocumentRecord → Bool
refers_to b d = elim d.blob_id [ none ↦ false | some id ↦ id == b ]

-- `EXISTS (SELECT 1 FROM document d WHERE d.blob_id = b.id AND d.deleted = false)`.
pub in_use : Uuid → List DocumentRecord → Bool
unfolding refers_to
in_use b [] = false
in_use b (d ∷ ds) = refers_to b d && not d.deleted || in_use b ds

-- `FOR UPDATE SKIP LOCKED`: `locked` says which rows another transaction holds.
candidate : (Uuid → Bool) → ℕ → Db → BlobRow → Bool
unfolding in_use
candidate locked now db b =
    not (in_use b.id db.documents) && ltb (b.created_at + grace) now && not (locked b.id)

candidates : (BlobRow → Bool) → List BlobRow → List BlobRow
candidates p [] = []
candidates p (b ∷ bs) = if p b then b ∷ candidates p bs else candidates p bs

remaining : (BlobRow → Bool) → List BlobRow → List BlobRow
remaining p [] = []
remaining p (b ∷ bs) = if p b then remaining p bs else b ∷ remaining p bs

-- Some document, deleted or not, has the blob's id: the foreign key refuses the `DELETE`.
referenced : Uuid → List DocumentRecord → Bool
unfolding refers_to
referenced b [] = false
referenced b (d ∷ ds) = refers_to b d || referenced b ds

any_referenced : List BlobRow → List DocumentRecord → Bool
unfolding referenced
any_referenced [] ds = false
any_referenced (b ∷ bs) ds = referenced b.id ds || any_referenced bs ds

-- The sweep of the tables; it answers how many rows it deleted.
unfoldable pub sweep : (Uuid → Bool) → ℕ → Handler ℕ
unfolding candidate candidates remaining any_referenced
sweep locked now db =
    let found = candidates (candidate locked now db) db.blobs in
    if any_referenced found db.documents
    then (err internal, db)
    else (ok (length found), record db { blobs = remaining (candidate locked now db) db.blobs })
