-- ===== src/Client/Store/Tables.antt =====
-- What the queries find after each write, for the row that was written and for every other one.
mod Listing
mod Files
unfoldable pub use Listing.*
pub use Files.*
use mathlib.Core.Option
use scrigno.Prelude.{
  ℕ, ◌≡◌, refl, ap, ◌∙◌, Bool, true, false, ◌||◌, none, some, List, [], ◌∷◌, leb, ◌==◌,
  if◌then◌else◌, arith, All, ==_refl, Bool-cases, inl, inr,
}
use scrigno.Prelude.Bytes.{Bytes, same_bytes, same_bytes-eq, same_bytes_refl}
use scrigno.Server.{Uuid}
use scrigno.Client.{DocumentRow, CacheRow, BlobFile}
use scrigno.Client.Store.{
  Store, Setting, find_setting, set_setting, kv_get, kv_set, upsert_row, upsert_document, find_row,
  get_document, find_cached, cache_get, put_cached, cache_put, drop_cached, cache_remove,
  touch_cached, cache_touch, pinned, evictable, cache_evictable_by_lru, remove_file, write_file,
  read_file, same_id, find_file, drop_file, insert_by_access, insert_by_update, by_update,
  dirty_rows, list_dirty_documents,
}

find_row-upsert_row :
    (id : Uuid) (row : DocumentRow) (ds : List DocumentRow)
    → find_row id (upsert_row row ds) ≡ (if row.id == id then some row else find_row id ds)
unfolding find_row upsert_row
find_row-upsert_row id row [] = refl
find_row-upsert_row id row (d ∷ ds) = ground (arith, find_row-upsert_row id row ds)

pub get_document-upsert_document :
    (id : Uuid) (row : DocumentRow) (s : Store)
    → get_document id (upsert_document row s)
      ≡ (if row.id == id then some row else get_document id s)
unfolding get_document upsert_document
get_document-upsert_document id row s = find_row-upsert_row id row s.documents

find_row-id :
    (id : Uuid) (ds : List DocumentRow) (d : DocumentRow) → find_row id ds ≡ some d → d.id ≡ id
unfolding find_row
find_row-id id [] d h = cc
find_row-id id (e ∷ ds) d h = ground (arith, find_row-id id ds d)

pub get_document-id :
    (id : Uuid) (s : Store) (d : DocumentRow) → get_document id s ≡ some d → d.id ≡ id
unfolding get_document
get_document-id id s d h = find_row-id id s.documents d h

find_setting-set_setting :
    (key : Bytes) (new : Setting) (ss : List Setting)
    → find_setting key (set_setting new ss)
      ≡ (if same_bytes new.key key then some new.value else find_setting key ss)
unfolding find_setting set_setting
find_setting-set_setting key new [] = refl
find_setting-set_setting key new (s ∷ ss) = ground (
  arith,
  find_setting-set_setting key new ss,
  same_bytes-eq s.key new.key,
  same_bytes-eq s.key key,
  same_bytes-eq new.key key,
  same_bytes_refl key,
)

pub kv_get-kv_set :
    (key other value : Bytes) (s : Store)
    → kv_get key (kv_set other value s)
      ≡ (if same_bytes other key then some value else kv_get key s)
unfolding kv_get kv_set
kv_get-kv_set key other value s =
    find_setting-set_setting key (record { key = other; value = value }) s.kv

find_cached-put_cached :
    (id : Uuid) (row : CacheRow) (cs : List CacheRow)
    → find_cached id (put_cached row cs)
      ≡ (if row.blob_id == id then some row else find_cached id cs)
unfolding find_cached put_cached
find_cached-put_cached id row [] = refl
find_cached-put_cached id row (c ∷ cs) = ground (arith, find_cached-put_cached id row cs)

pub cache_get-cache_put :
    (id blob size now : ℕ) (s : Store)
    → cache_get id (cache_put blob size now s) ≡ (
        if blob == id
        then some (record { blob_id = blob; size = size; last_access = now })
        else cache_get id s)
unfolding cache_get cache_put
cache_get-cache_put id blob size now s =
    find_cached-put_cached id (record { blob_id = blob; size = size; last_access = now }) s.cache

find_cached-drop_cached :
    (id blob : Uuid) (cs : List CacheRow)
    → find_cached id (drop_cached blob cs) ≡ (if blob == id then none else find_cached id cs)
unfolding find_cached drop_cached
find_cached-drop_cached id blob [] = ground arith
find_cached-drop_cached id blob (c ∷ cs) = ground (arith, find_cached-drop_cached id blob cs)

pub cache_get-cache_remove :
    (id blob : Uuid) (s : Store)
    → cache_get id (cache_remove blob s).1 ≡ (if blob == id then none else cache_get id s)
unfolding cache_get cache_remove
cache_get-cache_remove id blob s = find_cached-drop_cached id blob s.cache

-- A row that may be evicted is of no pinned blob.
evictable-All :
    (ds : List DocumentRow) (cs : List CacheRow)
    → All (λ c. pinned c.blob_id ds ≡ false) (evictable ds cs)
unfolding evictable
evictable-All ds [] = tt
evictable-All ds (c ∷ cs) = elim (Bool-cases (pinned c.blob_id ds)) [
  | inl e ↦ rw e (evictable-All ds cs)
  | inr e ↦ rw e (insert_by_access-All ds c (evictable ds cs) e (evictable-All ds cs))
]
  where
    insert_by_access-All :
        (ds : List DocumentRow) (c : CacheRow) (es : List CacheRow)
        → pinned c.blob_id ds ≡ false
        → All (λ c. pinned c.blob_id ds ≡ false) es
        → All (λ c. pinned c.blob_id ds ≡ false) (insert_by_access c es)
    insert_by_access-All ds c [] e h = (e, tt)
    insert_by_access-All ds c (f ∷ es) e (hf, h) =
        elim (Bool-cases (leb c.last_access f.last_access)) [
          | inl t ↦ rw t (e, (hf, h))
          | inr t ↦ rw t (hf, insert_by_access-All ds c es e h)
        ]

pub cache_evictable_by_lru-All :
    (s : Store) → All (λ c. pinned c.blob_id s.documents ≡ false) (cache_evictable_by_lru s)
unfolding cache_evictable_by_lru
cache_evictable_by_lru-All s = evictable-All s.documents s.cache

pub cache_remove-row : (id : Uuid) (s : Store) → (cache_remove id s).0 ≡ cache_get id s
unfolding cache_remove cache_get
cache_remove-row id s = refl

-- A blob is forgotten: the other tables stay, and the other blobs stay cached.
pub forget-keeps :
    (id : Uuid) (s : Store)
    → ((remove_file id (cache_remove id s).1).documents ≡ s.documents)
      × ((remove_file id (cache_remove id s).1).kv ≡ s.kv)
      × ((remove_file id (cache_remove id s).1).cache ≡ (cache_remove id s).1.cache)
unfolding remove_file cache_remove
forget-keeps id s = (refl, refl, refl)

pub cache_remove-keeps : (id : Uuid) (s : Store) → (cache_remove id s).1.documents ≡ s.documents
unfolding cache_remove
cache_remove-keeps id s = refl

pub cache_get-forget :
    (id blob : Uuid) (s : Store)
    → cache_get id (remove_file blob (cache_remove blob s).1)
      ≡ (if blob == id then none else cache_get id s)
unfolding remove_file cache_get cache_remove
cache_get-forget id blob s = find_cached-drop_cached id blob s.cache

pub get_document-keeps :
    (id : Uuid) (s t : Store) → s.documents ≡ t.documents → get_document id s ≡ get_document id t
unfolding get_document
get_document-keeps id s t e = ap (find_row id) e

pub kv_get-keeps : (key : Bytes) (s t : Store) → s.kv ≡ t.kv → kv_get key s ≡ kv_get key t
unfolding kv_get
kv_get-keeps key s t e = ap (find_setting key) e

-- A file and its row are added: the documents are those of before.
pub get_document-cache_put :
    (id blob size now : ℕ) (s : Store)
    → get_document id (cache_put blob size now s) ≡ get_document id s
unfolding get_document cache_put
get_document-cache_put id blob size now s = refl

pub get_document-write_file :
    (id blob : Uuid) (bytes : Bytes) (s : Store)
    → get_document id (write_file blob bytes s) ≡ get_document id s
unfolding get_document write_file
get_document-write_file id blob bytes s = refl

pub cached-documents :
    (blob : Uuid) (bytes : Bytes) (size now : ℕ) (s : Store)
    → (cache_put blob size now (write_file blob bytes s)).documents ≡ s.documents
unfolding cache_put write_file
cached-documents blob bytes size now s = refl

pub upsert_document-keeps :
    (id : Uuid) (row : DocumentRow) (s : Store)
    → (cache_get id (upsert_document row s) ≡ cache_get id s)
      × (read_file id (upsert_document row s) ≡ read_file id s)
unfolding cache_get read_file upsert_document
upsert_document-keeps id row s = (refl, refl)

pub cache_get-blob_id :
    (id : Uuid) (s : Store) (c : CacheRow) → cache_get id s ≡ some c → c.blob_id ≡ id
unfolding cache_get find_cached
cache_get-blob_id id s c h = find_cached-blob_id id s.cache c h
  where
    find_cached-blob_id :
        (id : Uuid) (cs : List CacheRow) (c : CacheRow)
        → find_cached id cs ≡ some c
        → c.blob_id ≡ id
    find_cached-blob_id id [] c h = cc
    find_cached-blob_id id (d ∷ cs) c h = ground (arith, find_cached-blob_id id cs c)

pub same_id_refl : (id : Uuid) → same_id (some id) id ≡ true
unfolding same_id
same_id_refl id = ==_refl id
