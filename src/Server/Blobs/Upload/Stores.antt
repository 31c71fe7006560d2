-- ===== src/Server/Blobs/Upload/Stores.antt =====
-- Uploads keep the objects in agreement with the rows.
use scrigno.Prelude.{
  ℕ, ◌≡◌, sym, ap, ◌∙◌, Option, none, some, List, [], ◌∷◌, ◌==◌, ◌&&◌, subst, if◌then◌else◌, ok,
  err, length, arith, All, All-append, Bool-cases, Option-cases, Result-cases, inl, inr,
}
use scrigno.Prelude.Bytes.{join, Bytes, same_bytes}
use scrigno.Server.{Uuid, BlobRow}
use scrigno.Server.Rows.{find_blob}
use scrigno.Server.Blobs.{State, Object, Digest, DigestLaws, find_object, Agrees, Sound}
use scrigno.Server.Blobs.Upload.{put_object, put_blob, record_blob, Chunk, Outside, Upload}
use scrigno.Server.Blobs.Upload.Atomic.{put_blob-ok, put_blob_refused}
use scrigno.Server.Blobs.Upload.Stream.{stream_into_upload-ok}

find_object-put_object :
    (id : Uuid) (new : Object) (os : List Object)
    → find_object id (put_object new os)
      ≡ (if new.id == id then some new.content else find_object id os)
unfolding find_object put_object
find_object-put_object id new [] = ground arith
find_object-put_object id new (o ∷ os) = ground (arith, find_object-put_object id new os)

put_object-Agrees :
    (hash : Bytes → Bytes) (new : Object) (objects : List Object) (bs : List BlobRow)
    → find_blob new.id bs ≡ none
    → All (Agrees hash objects) bs
    → All (Agrees hash (put_object new objects)) bs
unfolding find_blob
put_object-Agrees hash new objects [] n h = tt
put_object-Agrees hash new objects (b ∷ bs) n ((content, f, z, x), h) = (
  (content, ground (arith, find_object-put_object b.id new objects), z, x),
  put_object-Agrees hash new objects bs (ground arith) h,
)

record_blob-Sound :
    (hash : Bytes → Bytes) (id total : ℕ) (sha256 : Bytes) (u : Upload) (o : Outside) (s : State)
    → total ≡ length (join u.parts)
    → sha256 ≡ hash (join u.parts)
    → Sound hash s
    → Sound hash (record_blob id total sha256 u o s).1
unfolding record_blob Sound
record_blob-Sound hash id total sha256 u o s z x h = elim (Option-cases (find_blob id s.db.blobs)) [
  | inl e ↦
      (let new : Object = record { id = id; content = join u.parts } in
        elim (Bool-cases o.completes) [
          | inl c ↦
              rw (e, c, record_blob)
                (All-append (Agrees hash (put_object new s.objects)) s.db.blobs _
                  (put_object-Agrees hash new s.objects s.db.blobs e h)
                  (
                    (join u.parts, ground (arith, find_object-put_object id new s.objects), z, x),
                    tt,
                  ))
          | inr c ↦ rw (e, c, record_blob) h
        ])
  | inr (row, e) ↦ elim (Bool-cases (row.size == total && same_bytes row.sha256 sha256)) [
    | inl c ↦ rw (e, c, record_blob) h
    | inr c ↦ rw (e, c, record_blob) h
  ]
]

split_pair : {A B : Type 0} (p : A × B) (a : A) → p.0 ≡ a → p ≡ (a, p.1)
split_pair p a h = ap (λ t. (t, p.1)) h

-- An upload, whatever the answer, keeps every row in agreement with its object: the object is
-- there, with the row's size and digest.
pub put_blob-Sound :
    (D : Digest) (hash : Bytes → Bytes) (max_blob_bytes : ℕ) (id : Uuid)
    (content_length : Option Bytes) (body : List Chunk) (o : Outside) (s : State)
    → DigestLaws D hash
    → Sound hash s
    → Sound hash (put_blob D max_blob_bytes id content_length body o s).1
unfolding join
put_blob-Sound D hash max_blob_bytes id content_length body o s laws h =
    elim (Result-cases (put_blob D max_blob_bytes id content_length body o s).0) [
      | inl (e, he) ↦
          rw
            (put_blob_refused D max_blob_bytes id content_length body o s _ e
              (split_pair (put_blob D max_blob_bytes id content_length body o s) (err e) he))
            h
      | inr (r, hr) ↦
          (let (total, sha256, u, up, k) =
              put_blob-ok D max_blob_bytes id content_length body o s _ r
                (split_pair (put_blob D max_blob_bytes id content_length body o s) (ok r) hr) in
            let (bs, hb, ht, hm, hh, hj) =
              stream_into_upload-ok D hash max_blob_bytes body _ u total sha256 laws up in
            subst (λ t. Sound hash t) (ap (λ p. p.1) k)
              (record_blob-Sound hash id total sha256 u o s (ht ∙ ap length (sym hj))
                (hh ∙ ap hash (sym hj)) h))
    ]
