-- ===== src/Client/Vault/Edit/Rows.antt =====
-- The rows and the metadata that the methods of vault.rs write, field by field.
use scrigno.Prelude.{ℕ, ◌+◌, ◌≡◌, refl, Bool, true, false, Option, some, List, length}
use scrigno.Prelude.Bytes.{Bytes}
use scrigno.Server.{Uuid}
use scrigno.Core.{DocId, Aead}
use scrigno.Core.Meta.{DocMeta, Json}
use scrigno.Client.{DocumentRow, DocSummary}
use scrigno.Client.Vault.Edit.{Draws, NewDocFields, BlobWriter, edited_row, edited_meta, new_row}

-- The row after an edit of the metadata: it waits to be pushed, over the same base and content.
abbrev pub EditedRow : DocumentRow → ℕ → DocumentRow → Type 0
EditedRow before now row =
    (row.id ≡ before.id)
    × (row.version ≡ before.base_version + 1)
    × (row.base_version ≡ before.base_version)
    × (row.blob_id ≡ before.blob_id)
    × (row.blob_size ≡ before.blob_size)
    × (row.deleted ≡ before.deleted)
    × (row.dirty ≡ true)
    × (row.keep_offline ≡ before.keep_offline)
    × (row.updated_at ≡ now)

pub edited_row-EditedRow :
    (now : ℕ) (row : DocumentRow) (enc : Bytes)
    → EditedRow row now (record (edited_row now row) { enc_meta = enc })
unfolding edited_row
edited_row-EditedRow now row enc = (refl, refl, refl, refl, refl, refl, refl, refl, refl)

-- The metadata after an edit: what the content decides is that of the summary `current`.
abbrev pub EditedMeta : DocSummary → Bytes → List Bytes → Bytes → Option Bytes → DocMeta → Type 0
EditedMeta current title tags note thumb meta =
    (meta.v ≡ 1)
    × (meta.title ≡ title)
    × (meta.tags ≡ tags)
    × (meta.note ≡ note)
    × (meta.mime ≡ current.mime)
    × (meta.size ≡ current.size)
    × (meta.content_hash ≡ current.content_hash)
    × (meta.original_name ≡ current.original_name)
    × (meta.created_at ≡ current.created_at)
    × (meta.thumb ≡ thumb)

pub edited_meta-EditedMeta :
    (current : DocSummary) (title : Bytes) (tags : List Bytes) (note : Bytes) (thumb : Option Bytes)
    → EditedMeta current title tags note thumb (edited_meta current title tags note thumb)
unfolding edited_meta
edited_meta-EditedMeta current title tags note thumb =
    (refl, refl, refl, refl, refl, refl, refl, refl, refl, refl)

-- The row of a new document: live, never pushed, and waiting to be.
abbrev pub NewRow : Uuid → Uuid → ℕ → Bool → ℕ → DocumentRow → Type 0
NewRow id blob_id size keep now row =
    (row.id ≡ id)
    × (row.version ≡ 1)
    × (row.base_version ≡ 0)
    × (row.blob_id ≡ some blob_id)
    × (row.blob_size ≡ size)
    × (row.deleted ≡ false)
    × (row.dirty ≡ true)
    × (row.keep_offline ≡ keep)
    × (row.updated_at ≡ now)

pub new_row-NewRow :
    (aead : Aead) (json : Json) (writer : BlobWriter) (doc_id : DocId) (fields : NewDocFields)
    (draws : Draws) (bytes enc : Bytes)
    → NewRow doc_id.uuid draws.blob_id
        (length bytes)
        fields.keep_offline
        draws.now
        (record (new_row aead json writer doc_id fields draws bytes) { enc_meta = enc })
unfolding new_row
new_row-NewRow aead json writer doc_id fields draws bytes enc =
    (refl, refl, refl, refl, refl, refl, refl, refl, refl)
