-- ===== src/Client/Sync/Rounds/Pulling.antt =====
-- What a pull does to the documents that have a pending edit.
use scrigno.Prelude.{
  ℕ, ◌≤◌, ◌≡◌, ◌≢◌, refl, ◌∙◌, true, false, Option, none, some, List, [], ◌∷◌, All, ok, ◌==◌, arith,
  ==_iff, Bool-cases, Option-cases, Result-cases, ◌⊎◌, inl, inr,
}
use scrigno.Server.{Uuid, DocumentRecord}
use scrigno.Core.{Aead}
use scrigno.Core.Meta.{Json}
use scrigno.Client.{DocumentRow, DocSummary}
use scrigno.Client.Store.{Store, get_document, read_file}
use scrigno.Client.Store.Tables.{get_document-keeps}
use scrigno.Client.Vault.{UnlockedVault, find_summary}
use scrigno.Client.Vault.Cache.{BlobReader, ensure_cached}
use scrigno.Client.Vault.Cache.Fetching.{ensure_cached-keeps}
use scrigno.Client.Vault.Edit.{BlobWriter, NewDocFields, encrypt_new_document}
use scrigno.Client.Vault.Edit.Creation.{encrypt_new_document-others}
use scrigno.Client.Sync.{
  Environment, conflict_title, copy_content, create_conflict_copy, apply_pulled_record, meet,
  Meeting, clash, pending, overwrite, rollback_warning,
}
use scrigno.Client.Sync.Records.{get_document-apply_pulled_record}
use scrigno.Client.Sync.Rounds.{pull_item, pull_items}

pub Meeting-cases :
    (m : Meeting) → ((row : DocumentRow) × (m ≡ clash row)) ⊎ ((m ≡ pending) ⊎ (m ≡ overwrite))
Meeting-cases (clash row) = inl (row, refl)
Meeting-cases pending = inr (inl refl)
Meeting-cases overwrite = inr (inr refl)

module _ (aead : Aead) (json : Json) {Remote : Type 0} (env : Environment Remote)
    (reader : BlobReader) (writer : BlobWriter) where
  copy_content-others :
      (id : Uuid) (old : DocumentRow) (summary : DocSummary) (blob_id : Uuid) (v : UnlockedVault)
      (r : Remote)
      → ((env.draw r).0.doc_id == id) ≡ false
      → get_document id
          (copy_content aead json env reader writer old summary blob_id (v, r)).1.0.store
        ≡ get_document id v.store
  unfolding copy_content
  copy_content-others id old summary blob_id v r fresh =
      let draws = (env.draw r).0 in
      let r1 = (env.draw r).1 in
      let fetched = ensure_cached env.source blob_id draws.now (v, r1) in
      let kept : get_document id fetched.1.0.store ≡ get_document id v.store =
        get_document-keeps id fetched.1.0.store v.store
          (ensure_cached-keeps env.source blob_id draws.now v r1).0 in
      elim (Result-cases fetched.0) [
        | inl (x, e) ↦ rw (copy_content, e) kept
        | inr (path, e) ↦ elim (Option-cases (read_file path fetched.1.0.store)) [
          | inl f ↦ rw (copy_content, e, f) kept
          | inr (bytes, f) ↦
              elim (Result-cases (reader.decrypt fetched.1.0.mk (record { uuid = old.id }) bytes)) [
                | inl (x, g) ↦ rw (copy_content, e, f, g) kept
                | inr (plain, g) ↦
                    let fields : NewDocFields = record {
                      title = conflict_title summary.title draws.now_text;
                      tags = summary.tags;
                      note = summary.note;
                      mime = summary.mime;
                      original_name = summary.original_name;
                      keep_offline = old.keep_offline;
                    } in
                    let made =
                      encrypt_new_document aead json writer (record { uuid = draws.doc_id }) plain
                        fields draws fetched.1.0 in
                    let rest =
                      encrypt_new_document-others aead json writer id
                        (record { uuid = draws.doc_id }) plain fields draws fetched.1.0 fresh
                      ∙ kept in
                    elim (Result-cases made.0) [
                      | inl (x, h) ↦ rw (copy_content, e, f, g, h) rest
                      | inr (row, h) ↦ rw (copy_content, e, f, g, h) rest
                    ]
              ]
        ]
      ]

  create_conflict_copy-others :
      (id : Uuid) (old : DocumentRow) (summary : Option DocSummary) (v : UnlockedVault) (r : Remote)
      → ((env.draw r).0.doc_id == id) ≡ false
      → get_document id
          (create_conflict_copy aead json env reader writer old summary (v, r)).1.0.store
        ≡ get_document id v.store
  unfolding create_conflict_copy
  create_conflict_copy-others id old none v r fresh = refl
  create_conflict_copy-others id old (some summary) v r fresh = elim (Bool-cases old.deleted) [
    | inl d ↦ simp (create_conflict_copy, d)
    | inr d ↦ elim (Option-cases old.blob_id) [
      | inl e ↦ simp (create_conflict_copy, d, e)
      | inr (blob_id, e) ↦
          simp (create_conflict_copy, d, e) (copy_content-others id old summary blob_id v r fresh)
    ]
  ]

  -- A record of another document, or one that is no newer than the base of a pending edit.
  pull_item-others :
      (id cursor : ℕ) (item : DocumentRecord) (v : UnlockedVault) (r : Remote)
      → (item.id == id) ≡ false
      → ((r : Remote) → ((env.draw r).0.doc_id == id) ≡ false)
      → get_document id (pull_item aead json env reader writer cursor item (v, r)).1.0.store
        ≡ get_document id v.store
  unfolding pull_item
  pull_item-others id cursor item v r apart fresh =
      let now = (env.draw r).0.now in
      let r1 = (env.draw r).1 in
      let old = find_summary item.id v.index in
      let done = apply_pulled_record aead json now item v in
      let kept : get_document id done.1.store ≡ get_document id v.store =
        get_document-apply_pulled_record aead json id now item v ∙ rw apart refl in
      elim (Meeting-cases (meet (get_document item.id v.store) item)) [
        | inl (row, e) ↦ elim (Result-cases done.0) [
          | inl (x, f) ↦ rw (pull_item, e, f) kept
          | inr (u, f) ↦
              let copied = create_conflict_copy aead json env reader writer row old (done.1, r1) in
              let rest = create_conflict_copy-others id row old done.1 r1 (fresh r1) ∙ kept in
              elim (Result-cases copied.0) [
                | inl (x, g) ↦ rw (pull_item, e, f, g) rest
                | inr (u', g) ↦ rw (pull_item, e, f, g) rest
              ]
        ]
        | inr (inl e) ↦ rw (pull_item, e) refl
        | inr (inr e) ↦ elim (Result-cases done.0) [
          | inl (x, f) ↦ rw (pull_item, e, f) kept
          | inr (u, f) ↦ rw (pull_item, e, f) kept
        ]
      ]

  meet-pending :
      (id : Uuid) (item : DocumentRecord) (s : Store) (row : DocumentRow)
      → get_document id s ≡ some row
      → row.dirty ≡ true
      → item.version ≤ row.base_version
      → meet (get_document id s) item ≡ pending
  unfolding meet
  meet-pending id item s row found dirty old = rw found (ground arith)

  -- A record that is no newer than the base of a pending edit changes nothing in the vault.
  pub pull_item-Pending :
      (cursor : ℕ) (item : DocumentRecord) (v : UnlockedVault) (r : Remote) (row : DocumentRow)
      → get_document item.id v.store ≡ some row
      → row.dirty ≡ true
      → item.version ≤ row.base_version
      → pull_item aead json env reader writer cursor item (v, r) ≡ (
        ok (record { pulled = 1; conflicts = 0; warnings = rollback_warning cursor item }),
        (v, (env.draw r).1),
      )
  unfolding pull_item
  pull_item-Pending cursor item v r row found dirty old =
      rw (pull_item, meet-pending item.id item v.store row found dirty old) refl

  -- The row of a document with a pending edit is the same after a page of records, none of which is
  -- newer than the base of the edit, whatever the answer, where no draw gives the document's id to a
  -- conflict copy.
  pub pull_items-Pending :
      (id cursor : ℕ) (items : List DocumentRecord) (v : UnlockedVault) (r : Remote)
      (row : DocumentRow)
      → get_document id v.store ≡ some row
      → row.dirty ≡ true
      → All (λ item. (item.id ≢ id) ⊎ (item.version ≤ row.base_version)) items
      → ((r : Remote) → (env.draw r).0.doc_id ≢ id)
      → get_document id (pull_items aead json env reader writer cursor items (v, r)).1.0.store
        ≡ some row
  unfolding pull_items
  pull_items-Pending id cursor [] v r row found dirty h fresh = found
  pull_items-Pending id cursor (item ∷ items) v r row found dirty (hi, h) fresh =
      let first = pull_item aead json env reader writer cursor item (v, r) in
      let kept : get_document id first.1.0.store ≡ some row = one in
      let rest = pull_items-Pending id cursor items first.1.0 first.1.1 row kept dirty h fresh in
      elim (Result-cases first.0) [
        | inl (x, e) ↦ rw (pull_items, e) kept
        | inr (p, e) ↦
            elim (Result-cases (pull_items aead json env reader writer cursor items first.1).0) [
              | inl (x, f) ↦ rw (pull_items, e, f) rest
              | inr (q, f) ↦ rw (pull_items, e, f) rest
            ]
      ]
    where
      apart : {a b : Uuid} → a ≢ b → (a == b) ≡ false
      apart {a} {b} n = ground (arith, ==_iff a b)

      same_row :
          item.id ≡ id
          → item.version ≤ row.base_version
          → get_document id (pull_item aead json env reader writer cursor item (v, r)).1.0.store
            ≡ some row
      same_row e old = rw (pull_item-Pending cursor item v r row (rw e found) dirty old) found

      one :
          get_document id (pull_item aead json env reader writer cursor item (v, r)).1.0.store
          ≡ some row
      one = elim (Bool-cases (item.id == id)) [
        | inr e ↦ pull_item-others id cursor item v r e (λ r. apart (fresh r)) ∙ found
        | inl e ↦ elim hi [
          | inl n ↦ absurd (n ((==_iff item.id id).0 e))
          | inr old ↦ same_row ((==_iff item.id id).0 e) old
        ]
      ]
