-- ===== src/Server/Blobs/Upload/Atomic.antt =====
-- An upload stores the whole body under its size and digest, or nothing.
use scrigno.Prelude.{
  ℕ, ◌≡◌, ◌≢◌, ◌≤◌, refl, ap, ◌∙◌, Option, none, some, List, [], ◌∷◌, ◌++◌, ok, err, map, length,
  arith, Result-cases, Option-cases, inl, inr,
}
use scrigno.Prelude.Bytes.{join, Bytes, same_bytes-eq}
use scrigno.Server.{Uuid, BlobRow, ApiError}
use scrigno.Server.Rows.{find_blob}
use scrigno.Server.Blobs.{State, Digest, DigestLaws}
use scrigno.Server.Blobs.Upload.{
  Upload, Chunk, Outside, BlobPutResponse, stream_into_upload, record_blob, put_blob, to_hex,
}
use scrigno.Server.Blobs.Upload.Stream.{stream_into_upload-ok}

find_blob-append :
    (row : BlobRow) (bs : List BlobRow)
    → find_blob row.id bs ≡ none
    → find_blob row.id (bs ++ row ∷ []) ≡ some row
unfolding find_blob
find_blob-append row [] h = ground arith
find_blob-append row (b ∷ bs) h = ground (arith, find_blob-append row bs)

record_blob-ok :
    (id total : ℕ) (sha256 : Bytes) (u : Upload) (o : Outside) (s s' : State) (r : BlobPutResponse)
    → record_blob id total sha256 u o s ≡ (ok r, s')
    → (row : BlobRow) × (find_blob id s'.db.blobs ≡ some row)
      × (row.size ≡ total)
      × (row.sha256 ≡ sha256)
      × (r.sha256 ≡ to_hex sha256)
unfolding record_blob
record_blob-ok id total sha256 u o s s' r h = elim (Option-cases (find_blob id s.db.blobs)) [
  | inl e ↦
      (let row : BlobRow = record { id = id; size = total; sha256 = sha256; created_at = o.now } in
        (row, ground (arith, find_blob-append row s.db.blobs), refl, refl, ground arith))
  | inr (row, e) ↦ (
    row,
    ground arith,
    ground arith,
    ground (arith, same_bytes-eq row.sha256 sha256),
    ground (arith, same_bytes-eq row.sha256 sha256),
  )
]

pub put_blob-ok :
    (D : Digest) (max_blob_bytes : ℕ) (id : Uuid) (content_length : Option Bytes)
    (body : List Chunk) (o : Outside) (s s' : State) (r : BlobPutResponse)
    → put_blob D max_blob_bytes id content_length body o s ≡ (ok r, s')
    → (total : ℕ) × (sha256 : Bytes) × (u : Upload) × (stream_into_upload D max_blob_bytes body
          (record { parts = []; calls_left = o.calls_left })
        ≡ ok (total, sha256, u))
      × (record_blob id total sha256 u o s ≡ (ok r, s'))
unfolding put_blob
put_blob-ok D max_blob_bytes id content_length body o s s' r h =
    elim (Result-cases (
      stream_into_upload D max_blob_bytes body
        (record { parts = []; calls_left = o.calls_left }))) [
          | inl (e, he) ↦ ground arith
          | inr ((total, sha256, u), hu) ↦ (total, sha256, u, hu, ground arith)
        ]

-- An accepted upload, new or repeated, given the law of the digest: no chunk was an error, the
-- body is not longer than the limit, and the row that is found under the id, and the digest in the
-- answer, have the size and the hash of the whole body.
pub put_blob_stores :
    (D : Digest) (hash : Bytes → Bytes) (max_blob_bytes : ℕ) (id : Uuid)
    (content_length : Option Bytes) (body : List Chunk) (o : Outside) (s s' : State)
    (r : BlobPutResponse)
    → DigestLaws D hash
    → put_blob D max_blob_bytes id content_length body o s ≡ (ok r, s')
    → (bs : List Bytes) × (row : BlobRow) × (body ≡ map ok bs)
      × (length (join bs) ≤ max_blob_bytes)
      × (find_blob id s'.db.blobs ≡ some row)
      × (row.size ≡ length (join bs))
      × (row.sha256 ≡ hash (join bs))
      × (r.sha256 ≡ to_hex (hash (join bs)))
unfolding put_blob
put_blob_stores D hash max_blob_bytes id content_length body o s s' r laws h =
    let (total, sha256, u, up, k) =
      put_blob-ok D max_blob_bytes id content_length body o s s' r h in
    let (bs, hb, ht, hm, hh, _) =
      stream_into_upload-ok D hash max_blob_bytes body _ u total sha256 laws up in
    let (row, hr, hz, hs, hx) = record_blob-ok id total sha256 u o s s' r k in
    (bs, row, hb, omega arith, hr, hz ∙ ht, hs ∙ hh, hx ∙ ap to_hex hh)

-- A refused upload, whatever the error, leaves the tables and the objects as they were.
pub put_blob_refused :
    (D : Digest) (max_blob_bytes : ℕ) (id : Uuid) (content_length : Option Bytes)
    (body : List Chunk) (o : Outside) (s s' : State) (e : ApiError)
    → put_blob D max_blob_bytes id content_length body o s ≡ (err e, s')
    → s' ≡ s
unfolding put_blob record_blob
put_blob_refused D max_blob_bytes id content_length body o s s' e h = ground arith

pub put_blob_vault :
    (D : Digest) (max_blob_bytes : ℕ) (id : Uuid) (content_length : Option Bytes)
    (body : List Chunk) (o : Outside) (s s' : State) (r : BlobPutResponse)
    → put_blob D max_blob_bytes id content_length body o s ≡ (ok r, s')
    → s'.db.vault ≢ none
unfolding put_blob record_blob
put_blob_vault D max_blob_bytes id content_length body o s s' r h = ground arith
