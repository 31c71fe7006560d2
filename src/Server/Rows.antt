-- ===== src/Server/Rows.antt =====
-- The queries on `document` and `blob` that several handlers make.
use mathlib.Core.Option
use scrigno.Prelude.{◌≡◌, Option, none, some, List, [], ◌∷◌, ◌++◌, arith, ◌==◌, if◌then◌else◌}
use scrigno.Server.{Uuid, DocumentRecord, BlobRow}

-- `SELECT ... FROM document WHERE id = $1`.
unfoldable pub find_doc : Uuid → List DocumentRecord → Option DocumentRecord
find_doc id [] = none
find_doc id (d ∷ ds) = if d.id == id then some d else find_doc id ds

-- The row with the key of `new` is replaced by `new` (an `UPDATE` whose condition holds).
unfoldable pub replace_doc : DocumentRecord → List DocumentRecord → List DocumentRecord
replace_doc new [] = []
replace_doc new (d ∷ ds) = if d.id == new.id then new ∷ ds else d ∷ replace_doc new ds

-- `SELECT ... FROM blob WHERE id = $1`.
unfoldable pub find_blob : Uuid → List BlobRow → Option BlobRow
find_blob id [] = none
find_blob id (b ∷ bs) = if b.id == id then some b else find_blob id bs

pub find_doc-replace_doc :
    (new : DocumentRecord) (id : Uuid) (ds : List DocumentRecord)
    → find_doc id (replace_doc new ds)
      ≡ (if id == new.id then Option.map (λ _. new) (find_doc id ds) else find_doc id ds)
unfolding find_doc replace_doc
find_doc-replace_doc new id [] = ground arith
find_doc-replace_doc new id (d ∷ ds) = ground (arith, find_doc-replace_doc new id ds)

-- A row that is found has the key that was asked for.
pub id-find_doc :
    (id : Uuid) (ds : List DocumentRecord) (d : DocumentRecord)
    → find_doc id ds ≡ some d
    → d.id ≡ id
unfolding find_doc
id-find_doc id [] d h = cc
id-find_doc id (e ∷ ds) d h = ground (arith, id-find_doc id ds d)

pub find_doc-concat :
    (row : DocumentRecord) (id : Uuid) (ds : List DocumentRecord)
    → find_doc id (ds ++ row ∷ [])
      ≡ elim (find_doc id ds) [ some d ↦ some d | none ↦ if row.id == id then some row else none ]
unfolding find_doc
find_doc-concat row id [] = ground arith
find_doc-concat row id (d ∷ ds) = ground (arith, find_doc-concat row id ds)
