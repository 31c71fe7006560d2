-- ===== src/Client/Vault/Index.antt =====
-- The index after an unlock and after a lock.
use scrigno.Prelude.{
  ℕ, suc, ◌+◌, ◌≡◌, refl, List, [], ◌∷◌, length, if◌then◌else◌, arith, Bool-cases, Result-cases,
  inl, inr,
}
use scrigno.Core.{MasterKey, Aead}
use scrigno.Core.Meta.{Json}
use scrigno.Client.{DocumentRow}
use scrigno.Client.Store.{Store, list_documents}
use scrigno.Client.Vault.{UnlockedVault, row_to_summary, index_rows, rebuild_index, lock}

-- The rows that are no tombstones, counted.
live_rows : List DocumentRow → ℕ
live_rows [] = 0
live_rows (row ∷ rows) = let rest = live_rows rows in if row.deleted then rest else suc rest

module _ (aead : Aead) (json : Json) where
  index_rows_complete :
      (store : Store) (mk : MasterKey) (rows : List DocumentRow)
      → length (index_rows aead json store mk rows).0
          + length (index_rows aead json store mk rows).1
        ≡ live_rows rows
  unfolding index_rows live_rows
  index_rows_complete store mk [] = omega arith
  index_rows_complete store mk (row ∷ rows) =
      let rest = index_rows_complete store mk rows in
      elim (Bool-cases row.deleted) [
        | inl d ↦ simp (index_rows, live_rows, d) rest
        | inr d ↦ elim (Result-cases (row_to_summary aead json store mk row)) [
          | inl (x, e) ↦ simp (index_rows, live_rows, d, e) (omega (arith, rest))
          | inr (s, e) ↦ simp (index_rows, live_rows, d, e) (omega (arith, rest))
        ]
      ]

  -- Every live document is in the index or among the skipped ones.
  rebuild_index_complete :
      (store : Store) (mk : MasterKey)
      → length (rebuild_index aead json store mk).0 + length (rebuild_index aead json store mk).1
        ≡ live_rows (list_documents store)
  unfolding rebuild_index
  rebuild_index_complete store mk = index_rows_complete store mk (list_documents store)

-- A lock gives the store back.
lock-store : (v : UnlockedVault) → lock v ≡ v.store
unfolding lock
lock-store v = refl
