-- ===== src/Server/Tests/Storage.antt =====
-- The feed, the keyslots, the sweep and the blobs at concrete inputs.
use scrigno.Prelude.{
  ℕ, ◌+◌, ◌≡◌, ◌≤◌, ◌<◌, refl, ap, ◌∙◌, arith, Bool, true, false, none, some, List, [], ◌∷◌, map,
  length, length-append, ok,
}
use scrigno.Prelude.Bytes.{join, Bytes, codes}
use scrigno.Server.{Uuid, DocumentRecord, BlobRow, Keyslot, Db}
use scrigno.Server.Rows.{find_doc, find_blob}
use scrigno.Server.Headers.{parse_unsigned}
use scrigno.Server.Tests.{db_0, db_1, doc_9, db_1-WellFormed, blob_5, blob_6}
use scrigno.Server.Invariant.{WellFormed, Distinct, Fresh}
use scrigno.Server.Changes.{changed_after}
use scrigno.Server.Changes.Paging.{follow, follow-changed_after}
use scrigno.Server.Vault.{NewKeyslot, delete_keyslot, is_kind}
use scrigno.Server.Vault.Keyslots.{exists_vault, Openable, delete_keyslot-Openable}
use scrigno.Server.Gc.{grace, sweep}
use scrigno.Server.Gc.Safety.{sweep_keeps, sweep-WellFormed}
use scrigno.Server.Blobs.{State, Digest, DigestLaws, absorb, find_object, Sound}
use scrigno.Server.Blobs.Range.{parse_range, parse_range-bounds}
use scrigno.Server.Blobs.Upload.{Chunk, Outside, BlobPutResponse, put_blob, to_hex}
use scrigno.Server.Blobs.Upload.Atomic.{put_blob_stores}
use scrigno.Server.Blobs.Upload.Stores.{put_blob-Sound}
use scrigno.Server.Blobs.Download.{Download, slice, get_blob}
use scrigno.Server.Blobs.Download.RoundTrip.{Faithful, get_blob-Faithful, get_blob-put_blob}

-- Three documents, not in the order of their numbers.
abbrev docs : List DocumentRecord
docs =
    record doc_9 { id = 7; server_seq = 4 } ∷ doc_9 ∷ record doc_9 { id = 8; server_seq = 2 } ∷ []

docs-Distinct : Distinct docs
unfolding Distinct Fresh
docs-Distinct = ((ground arith, (ground arith, tt)), ((ground arith, tt), (tt, tt)))

follow-changed_after_example : follow 4 0 2 docs ≡ changed_after 0 docs
unfolding changed_after
follow-changed_after_example =
    follow-changed_after 4 0 2 docs docs-Distinct (omega arith) (omega arith)

abbrev any_object : Bytes → Bool
any_object s = true

abbrev slot_3 : NewKeyslot
slot_3 = record { id = 3; kind = codes "passphrase"; kdf = codes "{}"; wrapped_mk = 1 ∷ [] }

abbrev fresh_db : Db
fresh_db = record { vault = none; keyslots = []; blobs = []; documents = []; next_seq = 1 }

fresh_db-Openable : Openable any_object fresh_db
unfolding exists_vault
fresh_db-Openable = record { slots = refl; good = tt }

abbrev stored_3 : Keyslot
stored_3 = record {
  id = 3;
  kind = codes "passphrase";
  kdf = codes "{}";
  wrapped_mk = 1 ∷ [];
  created_at = 50;
}

abbrev one_slot : Db
one_slot = record fresh_db {
  vault = some (record { id = 1; created_at = 0 });
  keyslots = stored_3 ∷ [];
}

one_slot-Openable : Openable any_object one_slot
unfolding is_kind exists_vault
one_slot-Openable = record { slots = refl; good = ((refl, omega arith, refl), tt) }

abbrev two_slots : Db
two_slots = record one_slot { keyslots = stored_3 ∷ (record stored_3 { id = 4 }) ∷ [] }

two_slots-Openable : Openable any_object two_slots
unfolding is_kind exists_vault
two_slots-Openable = record {
  slots = refl;
  good = ((refl, omega arith, refl), ((refl, omega arith, refl), tt));
}

delete_keyslot-Openable_example : Openable any_object (delete_keyslot 3 two_slots).1
delete_keyslot-Openable_example = delete_keyslot-Openable any_object 3 two_slots two_slots-Openable

abbrev unlocked : Uuid → Bool
unlocked id = false

sweep_keeps_example : find_blob 5 (sweep unlocked (grace + 1) db_1).1.blobs ≡ find_blob 5 db_1.blobs
unfolding find_doc
sweep_keeps_example = sweep_keeps unlocked (grace + 1) db_1 9 5 doc_9 refl refl refl

sweep-WellFormed_example : WellFormed (sweep unlocked (grace + 1) db_1).1
sweep-WellFormed_example = sweep-WellFormed unlocked (grace + 1) db_1 db_1-WellFormed

parse_range-bounds_example : (2 ≤ 4) × (4 < 10)
unfolding parse_range parse_unsigned
parse_range-bounds_example = parse_range-bounds (codes "bytes=2-4") 10 2 4 refl

-- A digest that is the length of the text.
abbrev toy_digest : Digest
toy_digest = record { Hasher = ℕ; new = 0; update = λ n c. n + length c; finalize = λ n. n ∷ [] }

abbrev toy_hash : Bytes → Bytes
toy_hash s = length s ∷ []

absorb-toy_digest : (n : ℕ) (cs : List Bytes) → absorb toy_digest n cs ≡ n + length (join cs)
unfolding absorb join
absorb-toy_digest n [] = omega arith
absorb-toy_digest n (c ∷ cs) =
    omega (arith, absorb-toy_digest (n + length c) cs, length-append c (join cs))

toy_digest-Laws : DigestLaws toy_digest toy_hash
unfolding DigestLaws
toy_digest-Laws cs = ap (λ n. n ∷ []) (absorb-toy_digest 0 cs ∙ omega arith)

abbrev outside : Outside
outside = record { opens = true; calls_left = 9; completes = true; now = 700 }

abbrev body : List Chunk
body = ok (1 ∷ 2 ∷ []) ∷ ok (3 ∷ 4 ∷ []) ∷ []

abbrev state : State
state = record {
  db = db_0;
  objects =
      (record { id = 5; content = 9 ∷ 9 ∷ 9 ∷ [] })
      ∷ (record { id = 6; content = 8 ∷ 8 ∷ [] })
      ∷ [];
}

state-Sound : Sound toy_hash state
unfolding Sound find_object
state-Sound = ((9 ∷ 9 ∷ 9 ∷ [], refl, refl, refl), ((8 ∷ 8 ∷ [], refl, refl, refl), tt))

abbrev created : BlobPutResponse
created = record { status = 201; id = 7; size = 4; sha256 = codes "04" }

abbrev stored : State
stored = record {
  db = record db_0 {
    blobs = blob_5 ∷ blob_6 ∷ (record { id = 7; size = 4; sha256 = 4 ∷ []; created_at = 700 }) ∷ [];
  };
  objects =
      (record { id = 5; content = 9 ∷ 9 ∷ 9 ∷ [] })
      ∷ (record { id = 6; content = 8 ∷ 8 ∷ [] })
      ∷ (record { id = 7; content = 1 ∷ 2 ∷ 3 ∷ 4 ∷ [] })
      ∷ [];
}

put_blob_stores_example :
    (bs : List Bytes) × (row : BlobRow) × (body ≡ map ok bs)
    × (length (join bs) ≤ 10)
    × (find_blob 7 stored.db.blobs ≡ some row)
    × (row.size ≡ length (join bs))
    × (row.sha256 ≡ toy_hash (join bs))
    × (created.sha256 ≡ to_hex (toy_hash (join bs)))
unfolding put_blob find_blob parse_unsigned join
put_blob_stores_example =
    put_blob_stores toy_digest toy_hash 10 7 (some (codes "4")) body outside state stored created
      toy_digest-Laws refl

put_blob-Sound_example :
    Sound toy_hash (put_blob toy_digest 10 7 (some (codes "4")) body outside state).1
put_blob-Sound_example =
    put_blob-Sound toy_digest toy_hash 10 7 (some (codes "4")) body outside state toy_digest-Laws
      state-Sound

abbrev part : Download
part = record {
  status = 206;
  content_length = 2;
  content_range = some (1, 2, 3);
  etag = codes "03";
  body = 9 ∷ 9 ∷ [];
}

get_blob-Faithful_example :
    (content : Bytes) × (find_object 5 state.objects ≡ some content)
    × Faithful toy_hash content part
unfolding get_blob find_blob find_object parse_range parse_unsigned slice to_hex
get_blob-Faithful_example =
    get_blob-Faithful toy_hash 5 (some (codes "bytes=1-")) state part state-Sound refl

get_blob-put_blob_example :
    (bs : List Bytes) × (d : Download) × (body ≡ map ok bs)
    × (get_blob 7 none stored ≡ ok d)
    × (toy_hash d.body ≡ toy_hash (join bs))
    × (length d.body ≡ length (join bs))
    × (d.etag ≡ created.sha256)
unfolding put_blob find_blob parse_unsigned join
get_blob-put_blob_example =
    get_blob-put_blob toy_digest toy_hash 10 7 (some (codes "4")) body outside state stored created
      toy_digest-Laws state-Sound refl
