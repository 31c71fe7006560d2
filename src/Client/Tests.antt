-- ===== src/Client/Tests.antt =====
-- The theorems of the client at concrete inputs: a vault of one document, a toy serializer, and a
-- server with a number as its state.
mod Syncing
mod Bootstrapping
mod Joining
mod Requests
mod Sealing
mod Serving
use mathlib.Core.Logic.{ite, if_pos, if_neg}
use native.Mathlib.Decide.{ℕ_discrete}
use scrigno.Prelude.{
  ℕ, ◌+◌, ◌*◌, ◌≤◌, ◌^◌, ◌≡◌, ◌⊎◌, refl, sym, ap, ◌∙◌, arith, Bool, true, false, Option, none, some,
  List, [], ◌∷◌, ◌++◌, length, Result, ok, err, ==_refl, ◌==◌, if◌then◌else◌,
}
use scrigno.Prelude.Bytes.{Bytes, codes, starts_with}
use scrigno.Prelude.Options.{some-eq-some}
use scrigno.Server.{Uuid, DocumentRecord}
use scrigno.Core.{DocId, MasterKey}
use scrigno.Core.Tests.{toy_aead, toy_laws, zeros}
use scrigno.Core.Meta.{DocMeta, Json, JsonLaws}
use scrigno.Client.{DocumentRow, CacheRow, DocSummary, ClientError, not_found}
use scrigno.Client.Store.{
  Store, get_document, cache_get, read_file, cache_total_size, pinned, upsert_document,
}
use scrigno.Client.Store.Cached.{UniqueKeys}
use scrigno.Client.Vault.{UnlockedVault, find_summary, get_meta, open_row}
use scrigno.Client.Vault.Cache.{evict_cache_over_limit, cache_limit_mb}
use scrigno.Client.Vault.Cache.Eviction.{cache_get-evict_cache_over_limit}
use scrigno.Client.Vault.Cache.Limit.{evict_cache_over_limit-Done}
use scrigno.Client.Vault.Edit.{
  Draws, NewDocFields, BlobWriter, update_meta, delete, add, edited_meta, edited_row, tombstone_row,
  new_meta,
}
use scrigno.Client.Vault.Edit.Rows.{EditedRow, EditedMeta}
use scrigno.Client.Vault.Edit.Readable.{open_row-seal_row, get_meta-update_meta, delete-NotFound}
use scrigno.Client.Vault.Edit.Creation.{get_meta-add}
use scrigno.Client.Sync.{apply_pulled_record, pulled_row, kept_offline}
use scrigno.Client.Sync.Records.{PulledRow, apply_pulled_record-PulledRow}

-- Metadata with a title and a size.
abbrev pub titled : Bytes → ℕ → DocMeta
titled title n = record {
  v = 1;
  title = title;
  tags = [];
  note = [];
  mime = [];
  size = n;
  content_hash = [];
  original_name = [];
  created_at = [];
  thumb = none;
}

pub DocMeta_discrete : Discrete DocMeta
DocMeta_discrete = hlevel ℕ_discrete

abbrev to_vec_titled : DocMeta → Option Bytes
to_vec_titled meta =
    ite (DocMeta_discrete meta (titled meta.title meta.size)) (some (meta.size ∷ meta.title)) none

abbrev from_slice_titled : Bytes → Option DocMeta
from_slice_titled [] = none
from_slice_titled (n ∷ title) = some (titled title n)

abbrev pub titled_json : Json
titled_json = record { to_vec = to_vec_titled; from_slice = from_slice_titled }

pub titled_json_laws : JsonLaws titled_json
titled_json_laws = record {
  from_slice-to_vec = λ meta bytes h. elim (DocMeta_discrete meta (titled meta.title meta.size)) [
    | yes e ↦
        let bs : meta.size ∷ meta.title ≡ bytes =
          some-eq-some
            (sym (if_pos (DocMeta_discrete meta (titled meta.title meta.size)) e _ _) ∙ h) in
        rw (← bs) (ap some (sym e))
    | no other ↦ cc (
      if_neg (DocMeta_discrete meta (titled meta.title meta.size)) other
          (some (meta.size ∷ meta.title)) none,
      h,
    )
  ];
}

pub to_vec_titled_lem : (title : Bytes) (n : ℕ) → to_vec_titled (titled title n) ≡ some (n ∷ title)
to_vec_titled_lem title n = if_pos (DocMeta_discrete (titled title n) (titled title n)) refl _ _

abbrev pub mk : MasterKey
mk = record { bytes = [] }

abbrev pub draws_of : Uuid → Draws
draws_of id = record {
  doc_id = id;
  blob_id = id + 1;
  blob = some [];
  nonce = some (zeros 24);
  now = 50;
  now_text = [];
}

abbrev pub base_row : DocumentRow
base_row = record {
  id = 7;
  version = 2;
  base_version = 1;
  blob_id = some 9;
  blob_size = 3;
  enc_meta = [];
  deleted = false;
  dirty = true;
  keep_offline = false;
  updated_at = 40;
}

abbrev pub enc : Bytes
enc =
    (open_row-seal_row toy_aead toy_laws titled_json titled_json_laws mk (record { uuid = 7 })
      (zeros 24) (3 ∷ codes "Visura") (titled (codes "Visura") 3) base_row
      (to_vec_titled_lem (codes "Visura") 3) (omega arith) refl).0

abbrev pub row : DocumentRow
row = record base_row { enc_meta = enc }

pub row_opens :
    open_row toy_aead titled_json mk (record { uuid = 7 }) row ≡ ok (titled (codes "Visura") 3)
row_opens =
    (open_row-seal_row toy_aead toy_laws titled_json titled_json_laws mk (record { uuid = 7 })
      (zeros 24) (3 ∷ codes "Visura") (titled (codes "Visura") 3) base_row
      (to_vec_titled_lem (codes "Visura") 3) (omega arith) refl).2

abbrev pub summary : DocSummary
summary = record {
  id = 7;
  title = codes "Visura";
  tags = [];
  note = [];
  mime = [];
  size = 3;
  content_hash = [];
  original_name = [];
  created_at = [];
  version = 2;
  dirty = true;
  keep_offline = false;
  blob_size = 3;
  cached = true;
}

-- The document is pinned by its pending edit; the blob 11 may go.
abbrev pub vault : UnlockedVault
vault = record {
  store = record {
    kv = record { key = codes "cache_limit_mb"; value = codes "0" } ∷ [];
    documents = row ∷ [];
    cache =
        record { blob_id = 9; size = 3; last_access = 1 }
        ∷ record { blob_id = 11; size = 5; last_access = 2 }
        ∷ [];
    files = record { id = 9; bytes = codes "abc" } ∷ [];
  };
  vault_id = 1;
  mk = mk;
  index = summary ∷ [];
  unreadable_at_unlock = [];
}

abbrev pub writer : BlobWriter
writer = record {
  encrypt = λ mk doc_id draw content. ok content;
  blake3_hex = λ bytes. [];
  Image = ℕ;
  images = record {
    load_from_memory = λ content. none;
    width = λ img. img;
    height = λ img. img;
    resize = λ w h img. w;
    to_rgb8 = λ img. img;
    encode_jpeg = λ quality img. none;
  };
}

get_meta-update_meta_example :
    (meta : DocMeta) × (new : DocumentRow) × (get_meta toy_aead titled_json 7
        (update_meta toy_aead titled_json 7 (codes "Visura 2") [] [] (draws_of 20) vault).1
      ≡ ok meta)
    × EditedMeta summary (codes "Visura 2") [] [] none meta
    × (get_document 7
          (update_meta toy_aead titled_json 7 (codes "Visura 2") [] [] (draws_of 20) vault).1.store
        ≡ some new)
    × EditedRow row 50 new
unfolding get_document find_summary edited_meta
get_meta-update_meta_example =
    get_meta-update_meta toy_aead toy_laws titled_json titled_json_laws 7 (draws_of 20) vault row
      summary (zeros 24) (3 ∷ codes "Visura 2") refl refl refl refl refl (codes "Visura 2") [] []
      (titled (codes "Visura") 3) row_opens (to_vec_titled_lem (codes "Visura 2") 3) (omega arith)

abbrev pub bill : NewDocFields
bill = record {
  title = codes "Bolletta";
  tags = [];
  note = [];
  mime = [];
  original_name = [];
  keep_offline = false;
}

evict_cache_over_limit-Done_example :
    (cache_total_size (evict_cache_over_limit vault).store
      ≤ cache_limit_mb vault.store * 1024 * 1024)
    ⊎ (cache_get 11 (evict_cache_over_limit vault).store ≡ none)
unfolding UniqueKeys pinned cache_get
evict_cache_over_limit-Done_example = evict_cache_over_limit-Done vault 11 (refl, (refl, tt)) refl

cache_get-evict_cache_over_limit_example :
    ((evict_cache_over_limit vault).store.documents ≡ vault.store.documents)
    × (cache_get 9 (evict_cache_over_limit vault).store ≡ cache_get 9 vault.store)
    × (read_file 9 (evict_cache_over_limit vault).store ≡ read_file 9 vault.store)
unfolding pinned
cache_get-evict_cache_over_limit_example = cache_get-evict_cache_over_limit 9 vault refl

abbrev pub pulled_item : DocumentRecord
pulled_item = record {
  id = 7;
  version = 2;
  blob_id = some 9;
  blob_size = 3;
  enc_meta = enc;
  deleted = false;
  server_seq = 4;
  updated_at = 30;
}

apply_pulled_record-PulledRow_example :
    (new : DocumentRow) × PulledRow pulled_item 60 false new
    × (get_document 7 (apply_pulled_record toy_aead titled_json 60 pulled_item vault).1.store
        ≡ some new)
unfolding get_document
apply_pulled_record-PulledRow_example =
    apply_pulled_record-PulledRow toy_aead titled_json 7 60 pulled_item vault
