-- ===== src/Client/Store/Tables/Files.antt =====
-- The files of blobs, the blobs that are pinned, and the times of their last access.
use mathlib.Core.Option
use scrigno.Prelude.{
  ℕ, ◌≡◌, refl, Bool, true, false, ◌||◌, none, some, List, [], ◌∷◌, ◌==◌, if◌then◌else◌, arith,
  ==_refl, Bool-cases, inl, inr,
}
use scrigno.Prelude.Bytes.{Bytes}
use scrigno.Server.{Uuid}
use scrigno.Client.{DocumentRow, CacheRow, BlobFile}
use scrigno.Client.Store.{
  Store, upsert_row, upsert_document, find_cached, cache_get, cache_put, cache_remove, touch_cached,
  cache_touch, pinned, remove_file, write_file, read_file, same_id, find_file, drop_file,
}

find_file-drop_file :
    (id blob : Uuid) (fs : List BlobFile)
    → find_file id (drop_file blob fs) ≡ (if blob == id then none else find_file id fs)
unfolding find_file drop_file
find_file-drop_file id blob [] = ground arith
find_file-drop_file id blob (f ∷ fs) = ground (arith, find_file-drop_file id blob fs)

pub read_file-forget :
    (id blob : Uuid) (s : Store)
    → read_file id (remove_file blob (cache_remove blob s).1)
      ≡ (if blob == id then none else read_file id s)
unfolding remove_file read_file cache_remove
read_file-forget id blob s = find_file-drop_file id blob s.files

pub read_file-cache_put :
    (id blob size now : ℕ) (s : Store) → read_file id (cache_put blob size now s) ≡ read_file id s
unfolding read_file cache_put
read_file-cache_put id blob size now s = refl

pub read_file-write_file :
    (id : Uuid) (bytes : Bytes) (s : Store) → read_file id (write_file id bytes s) ≡ some bytes
unfolding read_file write_file find_file
read_file-write_file id bytes s = ground arith

-- The blob of a dirty row is pinned.
pinned-upsert_row :
    (blob : Uuid) (row : DocumentRow) (ds : List DocumentRow)
    → row.blob_id ≡ some blob
    → row.dirty ≡ true
    → pinned blob (upsert_row row ds) ≡ true
unfolding pinned upsert_row same_id
pinned-upsert_row blob row [] e d = rw (e, d, ==_refl blob) (or-true row.keep_offline)
  where
    or-true : (b : Bool) → ((b || true) || false) ≡ true
    or-true b = ground arith
pinned-upsert_row blob row (x ∷ ds) e d = elim (Bool-cases (x.id == row.id)) [
  | inl t ↦ simp (t, e, d, ==_refl blob) (or-true row.keep_offline (pinned blob ds))
  | inr t ↦ simp (t, pinned-upsert_row blob row ds e d) (or-right _)
]
  where
    or-true : (b c : Bool) → ((b || true) || c) ≡ true
    or-true b c = ground arith

    or-right : (b : Bool) → (b || true) ≡ true
    or-right b = ground arith

pub pinned-upsert_document :
    (blob size now : ℕ) (row : DocumentRow) (s : Store)
    → row.blob_id ≡ some blob
    → row.dirty ≡ true
    → pinned blob (cache_put blob size now (upsert_document row s)).documents ≡ true
unfolding upsert_document cache_put
pinned-upsert_document blob size now row s e d = pinned-upsert_row blob row s.documents e d

find_cached-touch_cached :
    (id blob now : ℕ) (cs : List CacheRow)
    → find_cached id (touch_cached blob now cs) ≡ (
        if blob == id
        then Option.map {A = CacheRow} (λ c. record c { last_access = now }) (find_cached id cs)
        else find_cached id cs)
unfolding find_cached touch_cached
find_cached-touch_cached id blob now [] = ground arith
find_cached-touch_cached id blob now (c ∷ cs) =
    ground (arith, find_cached-touch_cached id blob now cs)

-- Only the time of the blob's last access moves.
pub cache_get-cache_touch :
    (id blob now : ℕ) (s : Store)
    → cache_get id (cache_touch blob now s) ≡ (
        if blob == id
        then Option.map {A = CacheRow} (λ c. record c { last_access = now }) (cache_get id s)
        else cache_get id s)
unfolding cache_get cache_touch
cache_get-cache_touch id blob now s = find_cached-touch_cached id blob now s.cache
