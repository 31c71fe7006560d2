-- ===== src/Client/Sync/Rounds/Settling.antt =====
-- The answer to the push of one row.
use scrigno.Prelude.{
  ℕ, zero, suc, ◌≡◌, refl, ◌∙◌, ap, false, Option, none, some, ok, err, ◌==◌, if◌then◌else◌, arith,
  Bool-cases, Option-cases, Result-cases, ◌⊎◌, inl, inr,
}
use scrigno.Server.{Uuid, DocumentRecord}
use scrigno.Core.{Aead}
use scrigno.Core.Meta.{Json}
use scrigno.Client.{DocumentRow, Outcome}
use scrigno.Client.Store.{Store, get_document, read_file}
use scrigno.Client.Store.Tables.{get_document-upsert_document}
use scrigno.Client.Vault.{UnlockedVault}
use scrigno.Client.Vault.Cache.{BlobReader}
use scrigno.Client.Vault.Edit.{BlobWriter}
use scrigno.Client.Sync.{PutOutcome, applied, conflict, Environment, pushed_row}
use scrigno.Client.Sync.Rounds.{accept, settle, send_blob, push_edit, push_deletion, push_row}

-- No edit of the document waits, or its row has no blob to send.
pub Settled : Uuid → Store → Type 0
Settled id s =
    (get_document id s ≡ none)
    ⊎ ((row : DocumentRow) × (get_document id s ≡ some row)
        × ((row.dirty ≡ false) ⊎ ((row.deleted ≡ false) × (row.blob_id ≡ none))))

accept-document :
    (id : Uuid) (row : DocumentRow) (item : DocumentRecord) (v : UnlockedVault)
    → get_document id (accept row item v).store
      ≡ (if row.id == id then some (pushed_row item row) else get_document id v.store)
unfolding accept pushed_row
accept-document id row item v = get_document-upsert_document id (pushed_row item row) v.store

pushed_row-clean : (item : DocumentRecord) (row : DocumentRow) → (pushed_row item row).dirty ≡ false
unfolding pushed_row
pushed_row-clean item row = refl

pub Settled-intro :
    (id : Uuid) (s : Store)
    → (get_document id s ≡ none)
      ⊎ ((row : DocumentRow) × (get_document id s ≡ some row)
          × ((row.dirty ≡ false) ⊎ ((row.deleted ≡ false) × (row.blob_id ≡ none))))
    → Settled id s
unfolding Settled
Settled-intro id s h = h

pub Settled-elim :
    (id : Uuid) (s : Store)
    → Settled id s
    → (get_document id s ≡ none)
      ⊎ ((row : DocumentRow) × (get_document id s ≡ some row)
          × ((row.dirty ≡ false) ⊎ ((row.deleted ≡ false) × (row.blob_id ≡ none))))
unfolding Settled
Settled-elim id s h = h

pub Settled-subst :
    (id : Uuid) (s t : Store) → get_document id t ≡ get_document id s → Settled id s → Settled id t
unfolding Settled
Settled-subst id s t e h = rw e h

module _ (aead : Aead) (json : Json) {Remote : Type 0} (env : Environment Remote)
    (reader : BlobReader) (writer : BlobWriter) where
  -- The calls to the server change nothing here.
  push_edit-vault :
      (row : DocumentRow) (blob_id : Uuid) (v : UnlockedVault) (r : Remote)
      → (push_edit aead json env reader writer row blob_id (v, r)).1.0 ≡ v
  unfolding push_edit send_blob
  push_edit-vault row blob_id v r = elim (zero-or-suc row.base_version) [
    | inr (n, e) ↦ simp (push_edit, send_blob, e)
    | inl e ↦ elim (Option-cases (read_file blob_id v.store)) [
      | inl f ↦ simp (push_edit, send_blob, e, f)
      | inr (bytes, f) ↦ elim (Result-cases (env.http_put_blob blob_id bytes r).0) [
        | inl (x, g) ↦ simp (push_edit, send_blob, e, f, g)
        | inr (u, g) ↦ simp (push_edit, send_blob, e, f, g)
      ]
    ]
  ]
    where
      zero-or-suc : (n : ℕ) → (n ≡ 0) ⊎ ((m : ℕ) × (n ≡ suc m))
      zero-or-suc zero = inl refl
      zero-or-suc (suc m) = inr (m, refl)

  -- One answer of the server: the row is as it was, or it is the server's.
  settle-document :
      (id : Uuid) (row : DocumentRow) (answer : Outcome PutOutcome (UnlockedVault × Remote))
      → ((settle row answer).1.0.store ≡ answer.1.0.store)
        ⊎ ((item : DocumentRecord) × ((settle row answer).1.0 ≡ accept row item answer.1.0))
  unfolding settle
  settle-document id row (err e, s) = inl refl
  settle-document id row (ok conflict, s) = inl refl
  settle-document id row (ok (applied item), (v, r)) = inr (item, refl)

  pub settle-accepted :
      (row : DocumentRow) (answer : Outcome PutOutcome (UnlockedVault × Remote)) (n : ℕ)
      → (settle row answer).0 ≡ ok (n, false)
      → (item : DocumentRecord) × ((settle row answer).1.0 ≡ accept row item answer.1.0)
  unfolding settle
  settle-accepted row (err e, s) n h = cc
  settle-accepted row (ok conflict, s) n h = cc
  settle-accepted row (ok (applied item), (v, r)) n h = (item, refl)

  pub accept-Settled :
      (row : DocumentRow) (item : DocumentRecord) (v w : UnlockedVault)
      → w ≡ accept row item v
      → Settled row.id w.store
  unfolding Settled
  accept-Settled row item v w e = inr (
    pushed_row item row,
    ap (λ x. get_document row.id x.store) e ∙ accept-document row.id row item v ∙ same row.id _ _,
    inl (pushed_row-clean item row),
  )
    where
      same : (a : Uuid) (x y : Option DocumentRow) → (if a == a then x else y) ≡ x
      same a x y = ground arith

  accept-others :
      (id : Uuid) (row : DocumentRow) (item : DocumentRecord) (v w : UnlockedVault)
      → w ≡ accept row item v
      → (row.id == id) ≡ false
      → get_document id w.store ≡ get_document id v.store
  accept-others id row item v w e apart =
      let other : (if row.id == id then some (pushed_row item row) else get_document id v.store)
          ≡ get_document id v.store =
        rw apart refl in
      ap (λ x. get_document id x.store) e ∙ accept-document id row item v ∙ other

  pub settle-others :
      (id : Uuid) (row : DocumentRow) (v : UnlockedVault)
      (answer : Outcome PutOutcome (UnlockedVault × Remote))
      → answer.1.0 ≡ v
      → (row.id == id) ≡ false
      → get_document id (settle row answer).1.0.store ≡ get_document id v.store
  settle-others id row v answer same apart = elim (settle-document id row answer) [
    | inl e ↦ ap (get_document id) e ∙ ap (λ x. get_document id x.store) same
    | inr (item, e) ↦
        accept-others id row item answer.1.0 (settle row answer).1.0 e apart
        ∙ ap (λ x. get_document id x.store) same
  ]

  push_deletion-vault :
      (row : DocumentRow) (v : UnlockedVault) (r : Remote)
      → (push_deletion aead json env reader writer row (v, r)).1.0 ≡ v
  unfolding push_deletion
  push_deletion-vault row v r = refl

  -- What a row's push comes to.
  pub push_row-cases :
      (row : DocumentRow) (v : UnlockedVault) (r : Remote)
      → ((answer : Outcome PutOutcome (UnlockedVault × Remote)) × (answer.1.0 ≡ v)
          × (push_row aead json env reader writer row (v, r) ≡ settle row answer))
        ⊎ ((row.deleted ≡ false)
            × (row.blob_id ≡ none)
            × (push_row aead json env reader writer row (v, r) ≡ (ok (0, false), (v, r))))
  unfolding push_row
  push_row-cases row v r = elim (Bool-cases row.deleted) [
    | inl d ↦ inl (
      push_deletion aead json env reader writer row (v, r),
      push_deletion-vault row v r,
      simp (push_row, d),
    )
    | inr d ↦ elim (Option-cases row.blob_id) [
      | inl e ↦ inr (d, e, simp (push_row, d, e))
      | inr (blob_id, e) ↦ inl (
        push_edit aead json env reader writer row blob_id (v, r),
        push_edit-vault row blob_id v r,
        simp (push_row, d, e),
      )
    ]
  ]

  pub push_row-blobless :
      (row : DocumentRow) (v : UnlockedVault) (r : Remote)
      → row.deleted ≡ false
      → row.blob_id ≡ none
      → push_row aead json env reader writer row (v, r) ≡ (ok (0, false), (v, r))
  unfolding push_row
  push_row-blobless row v r d e = simp (push_row, d, e)
