-- ===== src/Server/Blobs/Download/RoundTrip.antt =====
-- The objects agree with the rows, and a download gives back what was uploaded.
use scrigno.Prelude.{
  ℕ, ◌+◌, ◌-◌, ◌≡◌, ◌≢◌, ◌≤◌, ◌<◌, refl, sym, ap, ◌∙◌, subst, Option, none, some, List, [], ◌∷◌,
  map, ◌==◌, ok, err, length, length-take, length-drop, drop, arith, All, Bool-cases, Option-cases,
  inl, inr,
}
use scrigno.Prelude.Bytes.{join, Bytes}
use scrigno.Server.{Uuid, BlobRow}
use scrigno.Server.Rows.{find_blob}
use scrigno.Server.Blobs.{State, Object, Digest, DigestLaws, find_object, Agrees, Sound}
use scrigno.Server.Blobs.Range.{Outcome, parse_range-bounds}
use scrigno.Server.Blobs.Upload.{put_blob, Chunk, Outside, BlobPutResponse, to_hex}
use scrigno.Server.Blobs.Upload.Atomic.{put_blob_stores, put_blob_vault}
use scrigno.Server.Blobs.Upload.Stores.{put_blob-Sound}
use scrigno.Server.Blobs.Download.{Download, slice, respond, requested, get_blob}

length-slice :
    (start end : ℕ) (content : Bytes)
    → start ≤ end
    → end < length content
    → length (slice start (end + 1) content) ≡ end - start + 1
unfolding slice
length-slice start end content h k =
    omega (arith, length-take (end + 1 - start) (drop start content), length-drop start content)

find_blob-Agrees :
    (hash : Bytes → Bytes) (objects : List Object) (id : Uuid) (bs : List BlobRow) (row : BlobRow)
    → All (Agrees hash objects) bs
    → find_blob id bs ≡ some row
    → Agrees hash objects row × (row.id ≡ id)
unfolding find_blob
find_blob-Agrees hash objects id [] row h e = ground arith
find_blob-Agrees hash objects id (b ∷ bs) row (a, h) e = elim (Bool-cases (b.id == id)) [
  | inl t ↦ (let q : b ≡ row = ground arith in rw (sym q) (a, ground arith))
  | inr t ↦ find_blob-Agrees hash objects id bs row h (ground arith)
]

-- What a download answers: the object's digest, a `Content-Length` that is the length of the body, and
-- a body that is the object, or the part of it that `Content-Range` names.
pub Faithful : (Bytes → Bytes) → Bytes → Download → Type 0
Faithful hash content d =
    (d.etag ≡ to_hex (hash content)) × (length d.body ≡ d.content_length) × (elim d.content_range [
      | none ↦ d.body ≡ content
      | some (start, end, size) ↦
          (d.body ≡ slice start (end + 1) content)
          × (start ≤ end)
          × (end < size)
          × (size ≡ length content)
    ])

requested-bounds :
    (range : Option Bytes) (size s e : ℕ)
    → requested range size ≡ some (ok (s, e))
    → (s ≤ e) × (e < size)
unfolding requested
requested-bounds none size s e h = cc
requested-bounds (some raw) size s e h = parse_range-bounds raw size s e h

respond-Faithful :
    (hash : Bytes → Bytes) (row : BlobRow) (content : Bytes) (o : Outcome) (d : Download)
    → row.size ≡ length content
    → row.sha256 ≡ hash content
    → ((s e : ℕ) → o ≡ some (ok (s, e)) → (s ≤ e) × (e < row.size))
    → respond row (some content) o ≡ ok d
    → Faithful hash content d
unfolding respond Faithful
respond-Faithful hash row content none d z x b h =
    let q : record {
      status = 200;
      content_length = row.size;
      content_range = none;
      etag = to_hex row.sha256;
      body = content;
    }
        ≡ d =
      cc in
    subst (λ d. Faithful hash content d) q (ap to_hex x, sym z, refl)
respond-Faithful hash row content (some (err u)) d z x b h = cc
respond-Faithful hash row content (some (ok (start, end))) d z x b h =
    let (l, k) = b start end refl in
    let q : record {
      status = 206;
      content_length = end - start + 1;
      content_range = some (start, end, row.size);
      etag = to_hex row.sha256;
      body = slice start (end + 1) content;
    }
        ≡ d =
      cc in
    subst (λ d. Faithful hash content d) q
      (ap to_hex x, length-slice start end content l (omega arith), (refl, l, k, z))

get_blob-respond :
    (id : Uuid) (range : Option Bytes) (s : State) (row : BlobRow) (content : Bytes) (d : Download)
    → find_blob id s.db.blobs ≡ some row
    → find_object id s.objects ≡ some content
    → get_blob id range s ≡ ok d
    → respond row (some content) (requested range row.size) ≡ ok d
unfolding get_blob
get_blob-respond id range s row content d e f g = ground arith

-- A download that is answered, from a state whose objects agree with its rows: the tag is the
-- digest of the stored object, the `Content-Length` is the length of the body, and the body is the
-- whole object or, where there is a `Content-Range`, the part of it that the header names.
pub get_blob-Faithful :
    (hash : Bytes → Bytes) (id : Uuid) (range : Option Bytes) (s : State) (d : Download)
    → Sound hash s
    → get_blob id range s ≡ ok d
    → (content : Bytes) × (find_object id s.objects ≡ some content) × Faithful hash content d
unfolding Sound get_blob
get_blob-Faithful hash id range s d h g = elim (Option-cases (find_blob id s.db.blobs)) [
  | inl e ↦ ground arith
  | inr (row, e) ↦
      (let ((content, f, z, x), i) = find_blob-Agrees hash s.objects id s.db.blobs row h e in
        (
          content,
          rw (sym i) f,
          respond-Faithful hash row content (requested range row.size) d z x
              (requested-bounds range row.size)
              (get_blob-respond id range s row content d e (rw (sym i) f) g),
        ))
]

get_blob_whole :
    (id : Uuid) (s : State) (row : BlobRow) (content : Bytes)
    → s.db.vault ≢ none
    → find_blob id s.db.blobs ≡ some row
    → find_object id s.objects ≡ some content
    → get_blob id none s
      ≡ ok (record {
        status = 200;
        content_length = row.size;
        content_range = none;
        etag = to_hex row.sha256;
        body = content;
      })
unfolding get_blob respond requested
get_blob_whole id s row content v e f = ground arith

-- What was uploaded is downloaded: after an accepted upload, new or repeated, to a state whose
-- objects agree with its rows, a download without a range answers a body with the length and the
-- digest of the chunks that were sent, and with the tag that the upload answered.
pub get_blob-put_blob :
    (D : Digest) (hash : Bytes → Bytes) (max_blob_bytes : ℕ) (id : Uuid)
    (content_length : Option Bytes) (body : List Chunk) (o : Outside) (s s' : State)
    (r : BlobPutResponse)
    → DigestLaws D hash
    → Sound hash s
    → put_blob D max_blob_bytes id content_length body o s ≡ (ok r, s')
    → (bs : List Bytes) × (d : Download) × (body ≡ map ok bs)
      × (get_blob id none s' ≡ ok d)
      × (hash d.body ≡ hash (join bs))
      × (length d.body ≡ length (join bs))
      × (d.etag ≡ r.sha256)
unfolding Sound
get_blob-put_blob D hash max_blob_bytes id content_length body o s s' r laws sound h =
    let (bs, row, hb, _, hr, hz, hs, hx) =
      put_blob_stores D hash max_blob_bytes id content_length body o s s' r laws h in
    let sound' =
      subst (λ t. Sound hash t) (ap (λ p. p.1) h)
        (put_blob-Sound D hash max_blob_bytes id content_length body o s laws sound) in
    let ((content, f, z, x), i) = find_blob-Agrees hash s'.objects id s'.db.blobs row sound' hr in
    let v = put_blob_vault D max_blob_bytes id content_length body o s s' r h in
    (
      bs,
      _,
      hb,
      get_blob_whole id s' row content v hr (rw (sym i) f),
      sym x ∙ hs,
      sym z ∙ hz,
      ap to_hex hs ∙ sym hx,
    )
