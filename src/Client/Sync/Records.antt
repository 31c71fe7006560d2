-- ===== src/Client/Sync/Records.antt =====
-- What a record of the server does to the local rows.
use mathlib.Core.Option
use scrigno.Prelude.{
  ℕ, ◌≡◌, refl, subst, ◌∙◌, sym, ap, Bool, false, Option, none, some, ok, ◌==◌, if◌then◌else◌,
  Bool-cases, Option-cases, Result-cases, inl, inr,
}
use scrigno.Server.{Uuid, DocumentRecord}
use scrigno.Core.{Aead, AeadLaws}
use scrigno.Core.Meta.{Json, JsonLaws, DocMeta}
use scrigno.Client.{DocumentRow}
use scrigno.Client.Store.{
  Store, get_document, upsert_document, cache_remove, cache_get, same_id, read_file,
}
use scrigno.Client.Store.Tables.{
  get_document-upsert_document, get_document-keeps, forget-keeps, cache_remove-keeps, same_id_refl,
  upsert_document-keeps,
}
use scrigno.Client.Vault.{UnlockedVault, row_to_summary, remove_summary, open_row}
use scrigno.Client.Vault.Edit.Readable.{row_to_summary-open_row}
use scrigno.Client.Sync.{
  drop_stale, pulled_row, blob_of, kept_offline, apply_pulled_record, index_row,
}

-- The local row that stands for a record of the server.
abbrev pub PulledRow : DocumentRecord → ℕ → Bool → DocumentRow → Type 0
PulledRow item now keep row =
    (row.id ≡ item.id)
    × (row.version ≡ item.version)
    × (row.base_version ≡ item.version)
    × (row.blob_id ≡ item.blob_id)
    × (row.blob_size ≡ item.blob_size)
    × (row.enc_meta ≡ item.enc_meta)
    × (row.deleted ≡ item.deleted)
    × (row.dirty ≡ false)
    × (row.keep_offline ≡ keep)
    × (row.updated_at ≡ now)

pub pulled_row-PulledRow :
    (keep : Bool) (now : ℕ) (item : DocumentRecord)
    → PulledRow item now keep (pulled_row keep now item)
unfolding pulled_row
pulled_row-PulledRow keep now item = (refl, refl, refl, refl, refl, refl, refl, refl, refl, refl)

kept_offline_lem :
    (old : Option DocumentRow)
    → kept_offline old ≡ Option.get_or (Option.map (λ r. r.keep_offline) old) false
unfolding kept_offline
kept_offline_lem none = refl
kept_offline_lem (some row) = refl

drop_stale-documents :
    (old new : Option Uuid) (s : Store) → (drop_stale old new s).documents ≡ s.documents
unfolding drop_stale
drop_stale-documents none new s = refl
drop_stale-documents (some b) new s = elim (Bool-cases (same_id new b)) [
  | inl e ↦ rw e refl
  | inr e ↦ elim (Option-cases (cache_remove b s).0) [
    | inl f ↦ rw (drop_stale, e, f) (cache_remove-keeps b s)
    | inr (row, f) ↦ rw (drop_stale, e, f) ((forget-keeps b s).0)
  ]
]

drop_stale-same :
    (blob : Uuid) (row : DocumentRow) (s : Store)
    → row.blob_id ≡ some blob
    → drop_stale (blob_of (some row)) (some blob) s ≡ s
unfolding drop_stale blob_of
drop_stale-same blob row s e = rw (e, drop_stale, same_id_refl blob) refl

module _ (aead : Aead) (json : Json) where
  index_row-keeps :
      (row : DocumentRow) (v : UnlockedVault)
      → ((index_row aead json row v).1.store ≡ v.store) × ((index_row aead json row v).1.mk ≡ v.mk)
  unfolding index_row
  index_row-keeps row v = elim (Bool-cases row.deleted) [
    | inl e ↦ (rw (index_row, e) refl, rw (index_row, e) refl)
    | inr e ↦ elim (Result-cases (row_to_summary aead json v.store v.mk row)) [
      | inl (x, f) ↦ (rw (index_row, f, e) refl, rw (index_row, f, e) refl)
      | inr (x, f) ↦ (rw (index_row, f, e) refl, rw (index_row, f, e) refl)
    ]
  ]

  -- The state of the tables after a record, whatever the answer is.
  apply_pulled_record-store :
      (now : ℕ) (item : DocumentRecord) (v : UnlockedVault)
      → ((apply_pulled_record aead json now item v).1.store
          ≡ upsert_document
              (pulled_row (kept_offline (get_document item.id v.store)) now item)
              (drop_stale (blob_of (get_document item.id v.store)) item.blob_id v.store))
        × ((apply_pulled_record aead json now item v).1.mk ≡ v.mk)
  unfolding apply_pulled_record
  apply_pulled_record-store now item v =
      let row = pulled_row (kept_offline (get_document item.id v.store)) now item in
      index_row-keeps row (record v {
        store =
            upsert_document row
              (drop_stale (blob_of (get_document item.id v.store)) item.blob_id v.store);
        index = remove_summary item.id v.index;
      })

  pulled_row-id :
      (keep : Bool) (now : ℕ) (item : DocumentRecord) → (pulled_row keep now item).id ≡ item.id
  unfolding pulled_row
  pulled_row-id keep now item = refl

  pub get_document-apply_pulled_record :
      (id now : ℕ) (item : DocumentRecord) (v : UnlockedVault)
      → get_document id (apply_pulled_record aead json now item v).1.store ≡ (
          if item.id == id
          then some (pulled_row (kept_offline (get_document item.id v.store)) now item)
          else get_document id v.store)
  get_document-apply_pulled_record id now item v =
      let old = get_document item.id v.store in
      let row = pulled_row (kept_offline old) now item in
      let s = drop_stale (blob_of old) item.blob_id v.store in
      let known : (if row.id == id then some row else get_document id s)
          ≡ (if item.id == id then some row else get_document id v.store) =
        rw
          (
            pulled_row-id (kept_offline old) now item,
            get_document-keeps id s v.store
                (drop_stale-documents (blob_of old) item.blob_id v.store),
          )
          refl in
      ap (get_document id) (apply_pulled_record-store now item v).0
      ∙ get_document-upsert_document id row s
      ∙ known

  -- After a record is applied, with any answer, its document's row has the record's version, also as its
  -- base, the record's blob, metadata and mark of deletion, is clean, and has the flag keep_offline of
  -- the row before, or none where there was no row; every other document's row is as it was.
  pub apply_pulled_record-PulledRow :
      (id now : ℕ) (item : DocumentRecord) (v : UnlockedVault)
      → (row : DocumentRow) × PulledRow item now
          (Option.get_or (Option.map (λ r. r.keep_offline) (get_document item.id v.store)) false)
          row
        × (get_document id (apply_pulled_record aead json now item v).1.store
            ≡ (if item.id == id then some row else get_document id v.store))
  apply_pulled_record-PulledRow id now item v =
      let old = get_document item.id v.store in
      (
        pulled_row (kept_offline old) now item,
        rw (← kept_offline_lem old) (pulled_row-PulledRow (kept_offline old) now item),
        get_document-apply_pulled_record id now item v,
      )

  -- The blob of the record is that of the row: what is cached of it stays.
  pub apply_pulled_record-same_blob :
      (blob now : ℕ) (item : DocumentRecord) (v : UnlockedVault) (row : DocumentRow)
      → get_document item.id v.store ≡ some row
      → row.blob_id ≡ some blob
      → item.blob_id ≡ some blob
      → (cache_get blob (apply_pulled_record aead json now item v).1.store ≡ cache_get blob v.store)
        × (read_file blob (apply_pulled_record aead json now item v).1.store
            ≡ read_file blob v.store)
        × ((apply_pulled_record aead json now item v).1.mk ≡ v.mk)
  apply_pulled_record-same_blob blob now item v row found old new =
      let (s, m) = apply_pulled_record-store now item v in
      let next = pulled_row (kept_offline (get_document item.id v.store)) now item in
      let stays : drop_stale (blob_of (get_document item.id v.store)) item.blob_id v.store
          ≡ v.store =
        rw (found, new) (drop_stale-same blob row v.store old) in
      let (c, f) = upsert_document-keeps blob next v.store in
      (
        ap (cache_get blob) s ∙ ap (λ t. cache_get blob (upsert_document next t)) stays ∙ c,
        ap (read_file blob) s ∙ ap (λ t. read_file blob (upsert_document next t)) stays ∙ f,
        m,
      )

  -- The record's metadata opens.
  pub apply_pulled_record-opens :
      (now : ℕ) (item : DocumentRecord) (v : UnlockedVault) (meta : DocMeta)
      → (laws : AeadLaws aead) → (json_laws : JsonLaws json)
      → open_row aead json v.mk
          (record { uuid = item.id })
          (pulled_row (kept_offline (get_document item.id v.store)) now item)
        ≡ ok meta
      → (apply_pulled_record aead json now item v).0 ≡ ok tt
  unfolding apply_pulled_record index_row
  apply_pulled_record-opens now item v meta laws json_laws h =
      index_row-opens (pulled_row (kept_offline (get_document item.id v.store)) now item) _
        (pulled_row-id (kept_offline (get_document item.id v.store)) now item) h
    where
      index_row-opens :
          (row : DocumentRow) (w : UnlockedVault)
          → row.id ≡ item.id
          → open_row aead json w.mk (record { uuid = item.id }) row ≡ ok meta
          → (index_row aead json row w).0 ≡ ok tt
      index_row-opens row w e h = elim (Bool-cases row.deleted) [
        | inl d ↦ simp (index_row, d)
        | inr d ↦
            let summed = row_to_summary-open_row aead laws json json_laws w.store w.mk row meta (
              subst (λ i. open_row aead json w.mk (record { uuid = i }) row ≡ ok meta) (sym e) h) in
            simp (index_row, d, summed)
      ]
