-- ===== src/Client/Store/Tables/Listing.antt =====
-- The rows that the queries list.
use scrigno.Prelude.{◌≡◌, refl, ◌∙◌, Bool, true, false, ◌||◌, some, List, [], ◌∷◌, ◌==◌, arith}
use scrigno.Server.{Uuid}
use scrigno.Client.{DocumentRow}
use scrigno.Client.Store.{
  Store, find_row, get_document, insert_by_update, by_update, dirty_rows, list_dirty_documents,
}

-- A dirty row is listed.
unfoldable pub listed : Uuid → List DocumentRow → Bool
listed id [] = false
listed id (d ∷ ds) = d.id == id || listed id ds

listed-insert_by_update :
    (id : Uuid) (d : DocumentRow) (ds : List DocumentRow)
    → listed id (insert_by_update d ds) ≡ (d.id == id || listed id ds)
unfolding listed insert_by_update
listed-insert_by_update id d [] = refl
listed-insert_by_update id d (e ∷ ds) = ground (arith, listed-insert_by_update id d ds)

listed-by_update : (id : Uuid) (ds : List DocumentRow) → listed id (by_update ds) ≡ listed id ds
unfolding listed by_update
listed-by_update id [] = refl
listed-by_update id (d ∷ ds) =
    listed-insert_by_update id d (by_update ds) ∙ rw (listed-by_update id ds) refl

listed-dirty_rows :
    (id : Uuid) (ds : List DocumentRow) (d : DocumentRow)
    → find_row id ds ≡ some d
    → d.dirty ≡ true
    → listed id (dirty_rows ds) ≡ true
unfolding listed find_row dirty_rows
listed-dirty_rows id [] d h dirty = cc
listed-dirty_rows id (e ∷ ds) d h dirty = ground (arith, listed-dirty_rows id ds d)

pub list_dirty_documents-listed :
    (id : Uuid) (s : Store) (d : DocumentRow)
    → get_document id s ≡ some d
    → d.dirty ≡ true
    → listed id (list_dirty_documents s) ≡ true
unfolding list_dirty_documents get_document
list_dirty_documents-listed id s d h dirty =
    listed-by_update id (dirty_rows s.documents) ∙ listed-dirty_rows id s.documents d h dirty
