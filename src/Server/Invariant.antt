-- ===== src/Server/Invariant.antt =====
-- What holds of the tables between two requests, and lemmas on writing one row.
use scrigno.Prelude.{
  ℕ, ◌≡◌, ◌≢◌, ◌≤◌, ◌<◌, sym, Bool, true, false, Option, none, some, List, [], ◌∷◌, ◌++◌, arith,
  ◌==◌, All, Bool-cases, inl, inr,
}
use scrigno.Server.{Uuid, DocumentRecord, BlobRow, Db}
use scrigno.Server.Rows.{find_doc, replace_doc, find_blob}

-- No row has the sequence number `n`, and no two rows have the same one (the column is UNIQUE).
unfoldable pub Fresh : ℕ → List DocumentRecord → Type 0
Fresh n [] = Unit
Fresh n (d ∷ ds) = (d.server_seq ≢ n) × Fresh n ds

unfoldable pub Distinct : List DocumentRecord → Type 0
unfolding Fresh
Distinct [] = Unit
Distinct (d ∷ ds) = Fresh d.server_seq ds × Distinct ds

unfoldable pub is_none : Option Uuid → Bool
is_none none = true
is_none (some _) = false

-- The foreign key from `document.blob_id` to `blob`.
unfoldable pub Stored : List BlobRow → Option Uuid → Type 0
Stored blobs none = Unit
Stored blobs (some b) = find_blob b blobs ≢ none

-- A document's number was drawn from the sequence, its version is at least 1, and it has a blob, a
-- stored one, exactly where it is not a tombstone.
abbrev pub GoodRow : List BlobRow → ℕ → DocumentRecord → Type 0
GoodRow blobs next_seq d =
    (d.server_seq < next_seq)
    × (1 ≤ d.version)
    × (d.deleted ≡ is_none d.blob_id)
    × Stored blobs d.blob_id

pub record WellFormed (db : Db) : Type 0 where
  pub rows : All (GoodRow db.blobs db.next_seq) db.documents
  pub distinct : Distinct db.documents

pub GoodRow-next_seq :
    (blobs : List BlobRow) (m n : ℕ) (ds : List DocumentRecord)
    → m ≤ n
    → All (GoodRow blobs m) ds
    → All (GoodRow blobs n) ds
GoodRow-next_seq blobs m n [] l h = h
GoodRow-next_seq blobs m n (d ∷ ds) l ((s, v, e, g), h) =
    ((omega arith, v, e, g), GoodRow-next_seq blobs m n ds l h)

pub Fresh-next_seq :
    (blobs : List BlobRow) (n : ℕ) (ds : List DocumentRecord)
    → All (GoodRow blobs n) ds
    → Fresh n ds
unfolding Fresh
Fresh-next_seq blobs n [] h = tt
Fresh-next_seq blobs n (d ∷ ds) ((s, v, e, g), h) = (omega arith, Fresh-next_seq blobs n ds h)

pub replace_doc-GoodRow :
    (blobs : List BlobRow) (n : ℕ) (new : DocumentRecord) (ds : List DocumentRecord)
    → GoodRow blobs n new
    → All (GoodRow blobs n) ds
    → All (GoodRow blobs n) (replace_doc new ds)
unfolding replace_doc
replace_doc-GoodRow blobs n new [] g h = h
replace_doc-GoodRow blobs n new (d ∷ ds) g (gd, h) = elim (Bool-cases (d.id == new.id)) [
  | inl e ↦ rw e (g, h)
  | inr e ↦ rw e (gd, replace_doc-GoodRow blobs n new ds g h)
]

replace_doc-Fresh :
    (n : ℕ) (new : DocumentRecord) (ds : List DocumentRecord)
    → new.server_seq ≢ n
    → Fresh n ds
    → Fresh n (replace_doc new ds)
unfolding replace_doc Fresh
replace_doc-Fresh n new [] g h = h
replace_doc-Fresh n new (d ∷ ds) g h = ground (arith, replace_doc-Fresh n new ds)

pub replace_doc-Distinct :
    (new : DocumentRecord) (ds : List DocumentRecord)
    → Fresh new.server_seq ds
    → Distinct ds
    → Distinct (replace_doc new ds)
unfolding replace_doc Fresh Distinct
replace_doc-Distinct new [] f h = h
replace_doc-Distinct new (d ∷ ds) f h =
    ground (arith, replace_doc-Distinct new ds, replace_doc-Fresh d.server_seq new ds)

append-Fresh :
    (n : ℕ) (row : DocumentRecord) (ds : List DocumentRecord)
    → row.server_seq ≢ n
    → Fresh n ds
    → Fresh n (ds ++ row ∷ [])
unfolding Fresh
append-Fresh n row [] g h = (g, tt)
append-Fresh n row (d ∷ ds) g (h, hs) = (h, append-Fresh n row ds g hs)

pub append-Distinct :
    (row : DocumentRecord) (ds : List DocumentRecord)
    → Fresh row.server_seq ds
    → Distinct ds
    → Distinct (ds ++ row ∷ [])
unfolding Fresh Distinct
append-Distinct row [] f h = (tt, tt)
append-Distinct row (d ∷ ds) (f, fs) (h, hs) =
    (append-Fresh d.server_seq row ds (ground arith) h, append-Distinct row ds fs hs)

pub find_doc-GoodRow :
    (blobs : List BlobRow) (n : ℕ) (id : Uuid) (ds : List DocumentRecord) (d : DocumentRecord)
    → All (GoodRow blobs n) ds
    → find_doc id ds ≡ some d
    → GoodRow blobs n d
unfolding find_doc
find_doc-GoodRow blobs n id [] d h e = ground arith
find_doc-GoodRow blobs n id (c ∷ ds) d (g, h) e = elim (Bool-cases (c.id == id)) [
  | inl t ↦ (let s : c ≡ d = ground arith in rw (sym s) g)
  | inr t ↦ find_doc-GoodRow blobs n id ds d h (ground arith)
]
