-- ===== src/Server/Blobs/Download.antt =====
-- `get_blob` of routes/blobs.rs.
pub mod RoundTrip
use scrigno.Prelude.{
  ℕ, ◌+◌, ◌-◌, ◌≡◌, Option, none, some, List, [], ◌∷◌, Result, ok, err, ok_or, ◌>>=◌, length, take,
  drop,
}
use scrigno.Prelude.Bytes.{Bytes}
use scrigno.Server.{Uuid, BlobRow, Db, ApiError, not_found, internal, range_not_satisfiable}
use scrigno.Server.Rows.{find_blob}
use scrigno.Server.Blobs.{State, find_object}
use scrigno.Server.Blobs.Range.{Outcome, parse_range}
use scrigno.Server.Blobs.Upload.{to_hex}

-- `content_range` is the first byte, the last byte and the size; `etag` is without its quotes.
pub record Download : Type 0 where
  pub status : ℕ
  pub content_length : ℕ
  pub content_range : Option (ℕ × ℕ × ℕ)
  pub etag : Bytes
  pub body : Bytes

-- `store.get_opts` with a bounded range; the end is exclusive.
unfoldable pub slice : ℕ → ℕ → Bytes → Bytes
slice start end content = take (end - start) (drop start content)

-- The answer, for the object that the store has and what the `Range` header asked. An unsatisfiable
-- range is refused before the object is asked for.
respond : BlobRow → Option Bytes → Outcome → Result ApiError Download
unfolding slice
respond row object (some (err _)) = err (range_not_satisfiable row.size)
respond row none none = err internal
respond row none (some (ok _)) = err internal
respond row (some content) none = ok (record {
  status = 200;
  content_length = row.size;
  content_range = none;
  etag = to_hex row.sha256;
  body = content;
})
respond row (some content) (some (ok (start, end))) = ok (record {
  status = 206;
  content_length = end - start + 1;
  content_range = some (start, end, row.size);
  etag = to_hex row.sha256;
  body = slice start (end + 1) content;
})

requested : Option Bytes → ℕ → Outcome
requested none size = none
requested (some raw_range) size = parse_range raw_range size

unfoldable pub get_blob : Uuid → Option Bytes → State → Result ApiError Download
unfolding respond requested
get_blob id range s = do
  vault_row ← ok_or s.db.vault not_found
  row ← ok_or (find_blob id s.db.blobs) not_found
  respond row (find_object id s.objects) (requested range row.size)
