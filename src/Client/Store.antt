-- ===== src/Client/Store.antt =====
-- store.rs: the three tables of the local database, as lists of rows, and the directory of blobs.
-- SQLite and the file system do not fail here.
pub mod Tables
pub mod Numbers
pub mod Cached
use scrigno.Prelude.{
  ℕ, zero, suc, ◌+◌, ◌/◌, ◌%◌, Bool, true, false, not, ◌&&◌, ◌||◌, Option, none, some, List, [],
  ◌∷◌, ◌++◌, ltb, leb, ◌==◌, if◌then◌else◌,
}
use scrigno.Prelude.Bytes.{Bytes, same_bytes}
use scrigno.Server.{Uuid}
use scrigno.Client.{DocumentRow, CacheRow, BlobFile}

pub record Setting : Type 0 where
  pub key : Bytes
  pub value : Bytes

-- The tables `kv`, `document` and `blob_cache`, and the files of `blobs_dir`.
pub record Store : Type 0 where
  pub kv : List Setting
  pub documents : List DocumentRow
  pub cache : List CacheRow
  pub files : List BlobFile

find_setting : Bytes → List Setting → Option Bytes
find_setting key [] = none
find_setting key (s ∷ ss) = if same_bytes s.key key then some s.value else find_setting key ss

unfoldable pub kv_get : Bytes → Store → Option Bytes
unfolding find_setting
kv_get key store = find_setting key store.kv

set_setting : Setting → List Setting → List Setting
set_setting new [] = new ∷ []
set_setting new (s ∷ ss) = if same_bytes s.key new.key then new ∷ ss else s ∷ set_setting new ss

unfoldable pub kv_set : Bytes → Bytes → Store → Store
unfolding set_setting
kv_set key value store = record store {
  kv = set_setting (record { key = key; value = value }) store.kv;
}

upsert_row : DocumentRow → List DocumentRow → List DocumentRow
upsert_row new [] = new ∷ []
upsert_row new (d ∷ ds) = if d.id == new.id then new ∷ ds else d ∷ upsert_row new ds

unfoldable pub upsert_document : DocumentRow → Store → Store
unfolding upsert_row
upsert_document row store = record store { documents = upsert_row row store.documents }

find_row : Uuid → List DocumentRow → Option DocumentRow
find_row id [] = none
find_row id (d ∷ ds) = if d.id == id then some d else find_row id ds

unfoldable pub get_document : Uuid → Store → Option DocumentRow
unfolding find_row
get_document id store = find_row id store.documents

-- `ORDER BY updated_at ASC`.
insert_by_update : DocumentRow → List DocumentRow → List DocumentRow
insert_by_update d [] = d ∷ []
insert_by_update d (e ∷ es) =
    if leb d.updated_at e.updated_at then d ∷ e ∷ es else e ∷ insert_by_update d es

by_update : List DocumentRow → List DocumentRow
unfolding insert_by_update
by_update [] = []
by_update (d ∷ ds) = insert_by_update d (by_update ds)

dirty_rows : List DocumentRow → List DocumentRow
dirty_rows [] = []
dirty_rows (d ∷ ds) = if d.dirty then d ∷ dirty_rows ds else dirty_rows ds

unfoldable pub list_documents : Store → List DocumentRow
unfolding by_update
list_documents store = by_update store.documents

unfoldable pub list_dirty_documents : Store → List DocumentRow
unfolding by_update dirty_rows
list_dirty_documents store = by_update (dirty_rows store.documents)

pub find_cached : Uuid → List CacheRow → Option CacheRow
find_cached id [] = none
find_cached id (c ∷ cs) = if c.blob_id == id then some c else find_cached id cs

unfoldable pub cache_get : Uuid → Store → Option CacheRow
unfolding find_cached
cache_get id store = find_cached id store.cache

put_cached : CacheRow → List CacheRow → List CacheRow
put_cached new [] = new ∷ []
put_cached new (c ∷ cs) = if c.blob_id == new.blob_id then new ∷ cs else c ∷ put_cached new cs

pub cache_put : Uuid → ℕ → ℕ → Store → Store
unfolding put_cached
cache_put id size now store = record store {
  cache = put_cached (record { blob_id = id; size = size; last_access = now }) store.cache;
}

touch_cached : Uuid → ℕ → List CacheRow → List CacheRow
touch_cached id now [] = []
touch_cached id now (c ∷ cs) =
    if c.blob_id == id then record c { last_access = now } ∷ cs else c ∷ touch_cached id now cs

pub cache_touch : Uuid → ℕ → Store → Store
unfolding touch_cached
cache_touch id now store = record store { cache = touch_cached id now store.cache }

-- `DELETE ... WHERE blob_id = ?1`; the key is unique.
pub drop_cached : Uuid → List CacheRow → List CacheRow
drop_cached id [] = []
drop_cached id (c ∷ cs) = let rest = drop_cached id cs in if c.blob_id == id then rest else c ∷ rest

unfoldable pub cache_remove : Uuid → Store → Option CacheRow × Store
unfolding drop_cached find_cached
cache_remove id store =
    (find_cached id store.cache, record store { cache = drop_cached id store.cache })

pub total_size : List CacheRow → ℕ
total_size [] = 0
total_size (c ∷ cs) = c.size + total_size cs

pub cache_total_size : Store → ℕ
unfolding total_size
cache_total_size store = total_size store.cache

pub same_id : Option Uuid → Uuid → Bool
same_id none id = false
same_id (some b) id = b == id

-- `EXISTS (SELECT 1 FROM document d WHERE d.blob_id = ... AND (d.keep_offline = 1 OR d.dirty = 1))`.
unfoldable pub pinned : Uuid → List DocumentRow → Bool
unfolding same_id
pinned id [] = false
pinned id (d ∷ ds) = same_id d.blob_id id && (d.keep_offline || d.dirty) || pinned id ds

-- `ORDER BY last_access ASC`.
insert_by_access : CacheRow → List CacheRow → List CacheRow
insert_by_access c [] = c ∷ []
insert_by_access c (e ∷ es) =
    if leb c.last_access e.last_access then c ∷ e ∷ es else e ∷ insert_by_access c es

evictable : List DocumentRow → List CacheRow → List CacheRow
unfolding insert_by_access pinned
evictable ds [] = []
evictable ds (c ∷ cs) =
    let rest = evictable ds cs in if pinned c.blob_id ds then rest else insert_by_access c rest

pub cache_evictable_by_lru : Store → List CacheRow
unfolding evictable
cache_evictable_by_lru store = evictable store.documents store.cache

find_file : Uuid → List BlobFile → Option Bytes
find_file id [] = none
find_file id (f ∷ fs) = if f.id == id then some f.bytes else find_file id fs

drop_file : Uuid → List BlobFile → List BlobFile
drop_file id [] = []
drop_file id (f ∷ fs) = let rest = drop_file id fs in if f.id == id then rest else f ∷ rest

unfoldable pub read_file : Uuid → Store → Option Bytes
unfolding find_file
read_file id store = find_file id store.files

-- `std::fs::remove_file`, and the rename of a finished temporary file over `id`.
pub remove_file : Uuid → Store → Store
unfolding drop_file
remove_file id store = record store { files = drop_file id store.files }

pub write_file : Uuid → Bytes → Store → Store
unfolding drop_file
write_file id bytes store = record store {
  files = record { id = id; bytes = bytes } ∷ drop_file id store.files;
}
