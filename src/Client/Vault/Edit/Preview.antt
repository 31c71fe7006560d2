-- ===== src/Client/Vault/Edit/Preview.antt =====
-- vault.rs: the thumbnail that a new document's record carries.
use scrigno.Prelude.{◌≡◌, ◌≢◌, ◌≤◌, true, none, some, length, Bool-cases, inl, inr}
use scrigno.Prelude.Bytes.{Bytes, codes, starts_with}
use scrigno.Core.{Aead}
use scrigno.Core.Meta.{Json}
use scrigno.Client.Vault.Thumbnail.{thumb_max_bytes, generate_thumbnail_fits}
use scrigno.Client.Vault.Edit.{BlobWriter, NewDocFields, new_meta}

module _ (aead : Aead) (json : Json) (writer : BlobWriter) where
  -- The record carries a thumbnail only for a type that starts with `image/`, and of 24 KiB at most.
  new_meta_thumb_fits :
      (fields : NewDocFields) (content bytes created_at b64 : Bytes)
      → (new_meta aead json writer fields content bytes created_at).thumb ≡ some b64
      → (starts_with (codes "image/") fields.mime ≡ true) × (length b64 ≤ thumb_max_bytes)
  unfolding new_meta
  new_meta_thumb_fits fields content bytes created_at b64 h =
      elim (Bool-cases (starts_with (codes "image/") fields.mime)) [
        | inl e ↦ (e, generate_thumbnail_fits writer.images content b64 (rw e at h))
        | inr e ↦ absurd (none-ne-some (rw e at h))
      ]
    where
      none-ne-some : none ≢ some b64
      none-ne-some g = cc
