-- ===== src/Client/Sync/Rounds/Termination.antt =====
-- The pull ends, when the pages of the server do.
use scrigno.Prelude.{
  ℕ, zero, suc, ◌<◌, ◌≡◌, refl, ◌∙◌, true, Option, none, some, List, [], ◌∷◌, ok, err, arith,
  Bool-cases, Option-cases, Result-cases, inl, inr,
}
use scrigno.Server.{Uuid, DocumentRecord}
use scrigno.Server.Changes.{ChangesPage}
use scrigno.Core.{Aead}
use scrigno.Core.Meta.{Json}
use scrigno.Client.{DocumentRow, DocSummary, Outcome}
use scrigno.Client.Store.{get_document, read_file, kv_set}
use scrigno.Client.Store.Numbers.{to_string}
use scrigno.Client.Vault.{UnlockedVault, find_summary, kv_cursor}
use scrigno.Client.Vault.Cache.{BlobReader}
use scrigno.Client.Vault.Cache.Fetching.{ensure_cached-remote}
use scrigno.Client.Vault.Cache.{ensure_cached}
use scrigno.Client.Vault.Edit.{BlobWriter, encrypt_new_document}
use scrigno.Client.Sync.{
  Environment, conflict_title, copy_content, create_conflict_copy, apply_pulled_record, meet,
  page_limit, cursor_of,
}
use scrigno.Client.Sync.Rounds.{Pulled, pull_item, pull_items, pull_pages, pull, after}
use scrigno.Client.Sync.Rounds.Pulling.{Meeting-cases}

-- What is left of the changes after a cursor: a page that is not the last leaves less, and nothing
-- that a pull does between two pages adds to it.
pub record Dwindling {Remote : Type 0} (env : Environment Remote) : Type 0 where
  pub rest : ℕ → Remote → ℕ
  pub less :
      (cursor limit : ℕ) (r : Remote) (page : ChangesPage)
      → (env.get_changes cursor limit r).0 ≡ ok page
      → page.has_more ≡ true
      → rest page.next_since (env.get_changes cursor limit r).1 < rest cursor r
  pub draw-same : (cursor : ℕ) (r : Remote) → rest cursor (env.draw r).1 ≡ rest cursor r
  pub get_blob_to_file-same :
      (cursor : ℕ) (id : Uuid) (r : Remote)
      → rest cursor (env.source.get_blob_to_file id r).1 ≡ rest cursor r

module _ (aead : Aead) (json : Json) {Remote : Type 0} (env : Environment Remote)
    (reader : BlobReader) (writer : BlobWriter) (law : Dwindling env) where
  copy_content-rest :
      (cursor : ℕ) (old : DocumentRow) (summary : DocSummary) (blob_id : Uuid) (v : UnlockedVault)
      (r : Remote)
      → law.rest cursor (copy_content aead json env reader writer old summary blob_id (v, r)).1.1
        ≡ law.rest cursor r
  unfolding copy_content
  copy_content-rest cursor old summary blob_id v r =
      let draws = (env.draw r).0 in
      let fetched = ensure_cached env.source blob_id draws.now (v, (env.draw r).1) in
      let kept : law.rest cursor fetched.1.1 ≡ law.rest cursor r =
        ensure_cached-remote env.source (law.rest cursor) (law.get_blob_to_file-same cursor) blob_id
          draws.now v (env.draw r).1
        ∙ law.draw-same cursor r in
      elim (Result-cases fetched.0) [
        | inl (x, e) ↦ rw (copy_content, e) kept
        | inr (path, e) ↦ elim (Option-cases (read_file path fetched.1.0.store)) [
          | inl f ↦ rw (copy_content, e, f) kept
          | inr (bytes, f) ↦
              elim (Result-cases (reader.decrypt fetched.1.0.mk (record { uuid = old.id }) bytes)) [
                | inl (x, g) ↦ rw (copy_content, e, f, g) kept
                | inr (plain, g) ↦
                    let made =
                      encrypt_new_document aead json writer (record { uuid = draws.doc_id }) plain
                        (record {
                          title = conflict_title summary.title draws.now_text;
                          tags = summary.tags;
                          note = summary.note;
                          mime = summary.mime;
                          original_name = summary.original_name;
                          keep_offline = old.keep_offline;
                        })
                        draws fetched.1.0 in
                    elim (Result-cases made.0) [
                      | inl (x, h) ↦ rw (copy_content, e, f, g, h) kept
                      | inr (row, h) ↦ rw (copy_content, e, f, g, h) kept
                    ]
              ]
        ]
      ]

  create_conflict_copy-rest :
      (cursor : ℕ) (old : DocumentRow) (summary : Option DocSummary) (v : UnlockedVault)
      (r : Remote)
      → law.rest cursor (create_conflict_copy aead json env reader writer old summary (v, r)).1.1
        ≡ law.rest cursor r
  unfolding create_conflict_copy
  create_conflict_copy-rest cursor old none v r = refl
  create_conflict_copy-rest cursor old (some summary) v r = elim (Bool-cases old.deleted) [
    | inl d ↦ simp (create_conflict_copy, d)
    | inr d ↦ elim (Option-cases old.blob_id) [
      | inl e ↦ simp (create_conflict_copy, d, e)
      | inr (blob_id, e) ↦
          simp (create_conflict_copy, d, e) (copy_content-rest cursor old summary blob_id v r)
    ]
  ]

  pull_item-rest :
      (since cursor : ℕ) (item : DocumentRecord) (v : UnlockedVault) (r : Remote)
      → law.rest since (pull_item aead json env reader writer cursor item (v, r)).1.1
        ≡ law.rest since r
  unfolding pull_item
  pull_item-rest since cursor item v r =
      let now = (env.draw r).0.now in
      let r1 = (env.draw r).1 in
      let done = apply_pulled_record aead json now item v in
      let kept = law.draw-same since r in
      elim (Meeting-cases (meet (get_document item.id v.store) item)) [
        | inl (row, e) ↦ elim (Result-cases done.0) [
          | inl (x, f) ↦ rw (pull_item, e, f) kept
          | inr (u, f) ↦
              let old = find_summary item.id v.index in
              let copied = create_conflict_copy aead json env reader writer row old (done.1, r1) in
              let both = create_conflict_copy-rest since row old done.1 r1 ∙ kept in
              elim (Result-cases copied.0) [
                | inl (x, g) ↦ rw (pull_item, e, f, g) both
                | inr (u', g) ↦ rw (pull_item, e, f, g) both
              ]
        ]
        | inr (inl e) ↦ rw (pull_item, e) kept
        | inr (inr e) ↦ elim (Result-cases done.0) [
          | inl (x, f) ↦ rw (pull_item, e, f) kept
          | inr (u, f) ↦ rw (pull_item, e, f) kept
        ]
      ]

  pull_items-rest :
      (since cursor : ℕ) (items : List DocumentRecord) (v : UnlockedVault) (r : Remote)
      → law.rest since (pull_items aead json env reader writer cursor items (v, r)).1.1
        ≡ law.rest since r
  unfolding pull_items
  pull_items-rest since cursor [] v r = refl
  pull_items-rest since cursor (item ∷ items) v r =
      let first = pull_item aead json env reader writer cursor item (v, r) in
      let kept = pull_item-rest since cursor item v r in
      let both = pull_items-rest since cursor items first.1.0 first.1.1 ∙ kept in
      elim (Result-cases first.0) [
        | inl (x, e) ↦ rw (pull_items, e) kept
        | inr (p, e) ↦
            elim (Result-cases (pull_items aead json env reader writer cursor items first.1).0) [
              | inl (x, f) ↦ rw (pull_items, e, f) both
              | inr (q, f) ↦ rw (pull_items, e, f) both
            ]
      ]

  after-some :
      {S : Type 0} (p : Pulled) (x : Option (Outcome Pulled S))
      → (o : Outcome Pulled S) × (x ≡ some o)
      → (o : Outcome Pulled S) × (after p x ≡ some o)
  unfolding after
  after-some p none (o, e) = cc
  after-some p (some (err x, s)) (o, e) = ((err x, s), refl)
  after-some p (some (ok q, s)) (o, e) = (_, refl)

  pull_pages-Ends :
      (fuel cursor : ℕ) (v : UnlockedVault) (r : Remote)
      → law.rest cursor r < fuel
      → (o : Outcome Pulled (UnlockedVault × Remote)) × (pull_pages aead json env reader writer fuel
            cursor
            (v, r)
          ≡ some o)
  unfolding pull_pages
  pull_pages-Ends zero cursor v r h = absurd (omega arith)
  pull_pages-Ends (suc fuel) cursor v r h =
      let asked = env.get_changes cursor page_limit r in
      elim (Result-cases asked.0) [
        | inl (x, e) ↦ ((err x, (v, asked.1)), rw (pull_pages, e) refl)
        | inr (page, e) ↦
            let seen = pull_items aead json env reader writer cursor page.items (v, asked.1) in
            elim (Result-cases seen.0) [
              | inl (x, f) ↦ ((err x, seen.1), rw (pull_pages, e, f) refl)
              | inr (p, f) ↦
                  let w : UnlockedVault = record seen.1.0 {
                    store = kv_set kv_cursor (to_string page.next_since) seen.1.0.store;
                  } in
                  elim (Bool-cases page.has_more) [
                    | inr m ↦ ((ok p, (w, seen.1.1)), rw (pull_pages, e, f, m) refl)
                    | inl m ↦
                        let smaller : law.rest page.next_since seen.1.1 < fuel = omega (
                          arith,
                          law.less cursor page_limit r page e m,
                          pull_items-rest page.next_since cursor page.items v asked.1,
                        ) in
                        let (o, g) = pull_pages-Ends fuel page.next_since w seen.1.1 smaller in
                        let (o', g') =
                          after-some p
                            (pull_pages aead json env reader writer fuel page.next_since
                              (w, seen.1.1))
                            (o, g) in
                        (o', rw (pull_pages, e, f, m) g')
                  ]
            ]
      ]

  -- The pull from the stored cursor ends, with an answer or an error, on fuel for more pages than what
  -- the server has left, where a page that says has_more leaves less.
  pub pull-Ends :
      (fuel : ℕ) (v : UnlockedVault) (r : Remote)
      → law.rest (cursor_of v.store) r < fuel
      → (o : Outcome Pulled (UnlockedVault × Remote)) × (pull aead json env reader writer fuel
            (v, r)
          ≡ some o)
  unfolding pull
  pull-Ends fuel v r h = pull_pages-Ends fuel (cursor_of v.store) v r h
