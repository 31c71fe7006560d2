-- ===== src/Server/Blobs/Upload.antt =====
-- `put_blob` and `stream_into_upload` of routes/blobs.rs.
pub mod Stream
pub mod Atomic
pub mod Stores
use scrigno.Prelude.{
  ℕ, zero, suc, ◌+◌, ◌*◌, ◌-◌, ◌^◌, ◌/◌, ◌%◌, ◌≡◌, ◌≢◌, Bool, true, false, Option, none, some, List,
  [], ◌∷◌, ◌++◌, ltb, leb, ◌==◌, ◌&&◌, not, if◌then◌else◌, Result, ok, err, length, arith,
}
use scrigno.Prelude.Options.{◌>>=◌}
use scrigno.Prelude.Bytes.{join, Bytes, same_bytes}
use scrigno.Server.{
  Uuid, BlobRow, Db, ApiError, vault_not_initialised, bad_request, payload_too_large, blob_mismatch,
  internal,
}
use scrigno.Server.Rows.{find_blob}
use scrigno.Server.Headers.{parse_unsigned}
use scrigno.Server.Blobs.{State, Object, Digest, absorb}

abbrev pub part_buffer_bytes : ℕ
part_buffer_bytes = 8 * 1024 * 1024

abbrev pub max_u64 : ℕ
max_u64 = 2 ^ 64 - 1

-- One item of the request's body: a chunk, or the error of a broken connection.
abbrev pub Chunk : Type 0
Chunk = Result (Unit {0}) Bytes

-- The upload so far: the parts that the store has, and how many more calls of `put_part` succeed.
pub record Upload : Type 0 where
  pub parts : List Bytes
  pub calls_left : ℕ

put_part : Bytes → Upload → Result ApiError Upload
put_part part u = elim u.calls_left [
  | zero ↦ err internal
  | suc n ↦ ok (record { parts = u.parts ++ part ∷ []; calls_left = n })
]

-- Handing over the buffer once it is full, or, at the end, once it holds something.
flush : ℕ → Bytes → Upload → Result ApiError (Bytes × Upload)
unfolding put_part
flush limit buffer u =
    if leb limit (length buffer)
    then (elim (put_part buffer u) [ err e ↦ err e | ok u' ↦ ok ([], u') ])
    else ok (buffer, u)

-- The loop over the body: the bytes seen, the hasher, the buffer and the upload.
pub stream_loop :
    (D : Digest)
    → ℕ
    → List Chunk
    → ℕ
    → D.Hasher
    → Bytes
    → Upload
    → Result ApiError (ℕ × D.Hasher × Bytes × Upload)
unfolding flush
stream_loop D max_bytes [] total hasher buffer u = ok (total, hasher, buffer, u)
stream_loop D max_bytes (err _ ∷ cs) total hasher buffer u =
    err (bad_request "error reading request body")
stream_loop D max_bytes (ok c ∷ cs) total hasher buffer u =
    if ltb max_u64 (total + length c)
    then err payload_too_large
    else (if ltb max_bytes (total + length c)
        then err payload_too_large
        else (elim (flush part_buffer_bytes (buffer ++ c) u) [
          | err e ↦ err e
          | ok (buffer', u') ↦
              stream_loop D max_bytes cs (total + length c) (D.update hasher c) buffer' u'
        ]))

-- The size and the digest, and the upload with its last part.
finish : (D : Digest) → ℕ → D.Hasher → Bytes → Upload → Result ApiError (ℕ × Bytes × Upload)
unfolding flush
finish D total hasher buffer u = elim (flush 1 buffer u) [
  | err e ↦ err e
  | ok (_, u') ↦ ok (total, D.finalize hasher, u')
]

pub stream_into_upload :
    (D : Digest) → ℕ → List Chunk → Upload → Result ApiError (ℕ × Bytes × Upload)
unfolding stream_loop finish
stream_into_upload D max_bytes body u = elim (stream_loop D max_bytes body 0 D.new [] u) [
  | err e ↦ err e
  | ok (total, hasher, buffer, u') ↦ finish D total hasher buffer u'
]

pub hex_digit : ℕ → ℕ
hex_digit n = if ltb n 10 then b'0' + n else b'a' + (n - 10)

unfoldable pub to_hex : Bytes → Bytes
unfolding hex_digit
to_hex [] = []
to_hex (b ∷ bs) = hex_digit (b / 16) ∷ hex_digit (b % 16) ∷ to_hex bs

pub record BlobPutResponse : Type 0 where
  pub status : ℕ
  pub id : Uuid
  pub size : ℕ
  pub sha256 : Bytes

-- A new object takes the place of what the store had under its id.
pub put_object : Object → List Object → List Object
put_object new [] = new ∷ []
put_object new (o ∷ os) = if o.id == new.id then new ∷ os else o ∷ put_object new os

-- What the outside of a request decides: whether the store opens the upload, the calls of `put_part` that succeed, whether `complete`
-- does, and the time.
pub record Outside : Type 0 where
  pub opens : Bool
  pub calls_left : ℕ
  pub completes : Bool
  pub now : ℕ

-- After the upload: a new row, an idempotent answer, or a refusal. A write that is not completed is
-- aborted, and leaves no object.
pub record_blob :
    Uuid → ℕ → Bytes → Upload → Outside → State → Result ApiError BlobPutResponse × State
unfolding to_hex same_bytes put_object join
record_blob id total sha256 u o s = elim (find_blob id s.db.blobs) [
  | none ↦
      if o.completes
      then (
        ok (record { status = 201; id = id; size = total; sha256 = to_hex sha256 }),
        record {
          db = record s.db {
            blobs =
                s.db.blobs
                ++ (record { id = id; size = total; sha256 = sha256; created_at = o.now }) ∷ [];
          };
          objects = put_object (record { id = id; content = join u.parts }) s.objects;
        },
      )
      else (err internal, s)
  | some row ↦
      if row.size == total && same_bytes row.sha256 sha256
      then (ok (record { status = 200; id = id; size = row.size; sha256 = to_hex row.sha256 }), s)
      else (err blob_mismatch, s)
]

-- `content_length` is the header's text, where it is one.
unfoldable pub put_blob :
    (D : Digest)
    → ℕ
    → Uuid
    → Option Bytes
    → List Chunk
    → Outside
    → State
    → Result ApiError BlobPutResponse × State
unfolding stream_into_upload record_blob
put_blob D max_blob_bytes id content_length body o s = elim s.db.vault [
  | none ↦ (err vault_not_initialised, s)
  | some _ ↦ elim (content_length >>= parse_unsigned max_u64) [
    | none ↦ (err (bad_request "Content-Length header is required"), s)
    | some declared ↦
        if ltb max_blob_bytes declared
        then (err payload_too_large, s)
        else (elim (if o.opens
            then stream_into_upload D max_blob_bytes body
                (record { parts = []; calls_left = o.calls_left })
            else err internal) [
              | err e ↦ (err e, s)
              | ok (total, sha256, u) ↦
                  if not (total == declared)
                  then (err (bad_request "actual body size did not match Content-Length"), s)
                  else record_blob id total sha256 u o s
            ])
  ]
]

pub hex_digit-ne-quote : (n : ℕ) → hex_digit n ≢ b'"'
unfolding hex_digit
hex_digit-ne-quote n = ground arith
