-- ===== src/Client/Tests/Requests.antt =====
-- The HTTP client against a transport that counts its calls and always answers with one blob.
use scrigno.Prelude.{
  ℕ, ◌+◌, ◌≤◌, ◌≡◌, refl, ap, false, none, some, [], ◌∷◌, ◌++◌, length, ok, arith,
}
use scrigno.Prelude.Bytes.{Bytes, codes, join}
use scrigno.Server.{PutDocRequest}
use scrigno.Server.Vault.{NewKeyslot}
use scrigno.Server.Blobs.Upload.{to_hex}
use scrigno.Client.Http.{
  Response, Transport, Wire, http_put_doc, http_delete_doc, http_create_vault, http_add_keyslot,
  http_get_vault, http_get_changes,
}
use scrigno.Client.Http.Retries.{Counts, calls_bounds}
use scrigno.Client.Http.Transfers.{get_blob_to_file}
use scrigno.Client.Http.Transfers.Verified.{
  Verified, get_blob_to_file-Verified, get_blob_to_file-served,
}

abbrev digest_of : Bytes → Bytes
digest_of bytes = length bytes ∷ 7 ∷ []

abbrev served : Response
served = record {
  status = 200;
  etag = some (b'"' ∷ (to_hex (digest_of (codes "scrigno")) ++ b'"' ∷ []));
  chunks = codes "scri" ∷ codes "gno" ∷ [];
  broken = false;
  taken = 0;
}

abbrev net : Transport ℕ
net = record { send = λ call n. (some served, n + 1); sleep = λ time n. n }

abbrev wire : Wire
wire = record {
  parse_vault = λ text. none;
  parse_keyslot = λ text. none;
  parse_page = λ text. none;
  parse_record = λ text. none;
  parse_blob = λ text. none;
  parse_error = λ text. none;
}

counts : Counts net
counts = record { sent = λ n. n; sent-send = λ call n. refl; sent-sleep = λ time n. refl }

abbrev keyslot : NewKeyslot
keyslot = record { id = 2; kind = codes "recovery"; kdf = codes "{}"; wrapped_mk = [] }

abbrev request : PutDocRequest
request = record { blob_id = 4; blob_size = 3; enc_meta = [] }

calls_bounds_example :
    ((http_put_doc net wire 1 0 request 5).1 ≡ 6)
    × ((http_delete_doc net wire 1 0 5).1 ≡ 6)
    × ((http_create_vault net wire 1 keyslot 5).1 ≡ 6)
    × ((http_add_keyslot net wire keyslot 5).1 ≡ 6)
    × (6 ≤ (http_get_vault net wire 5).1)
    × ((http_get_vault net wire 5).1 ≤ 8)
    × (6 ≤ (http_get_changes net wire 0 200 5).1)
    × ((http_get_changes net wire 0 200 5).1 ≤ 8)
unfolding counts
calls_bounds_example = calls_bounds net counts wire 1 keyslot 0 200 request 5

get_blob_to_file-served_example :
    (get_blob_to_file net wire digest_of 9 0).0
    ≡ (ok (7, to_hex (digest_of (codes "scrigno"))), some (codes "scrigno"))
unfolding join
get_blob_to_file-served_example =
    get_blob_to_file-served net wire digest_of 9 0 served refl refl refl refl (omega arith)

get_blob_to_file-Verified_example :
    Verified net wire digest_of 7
      (to_hex (digest_of (codes "scrigno")))
      (get_blob_to_file net wire digest_of 9 0).0.1
unfolding join
get_blob_to_file-Verified_example =
    get_blob_to_file-Verified net wire digest_of 9 0 7 (to_hex (digest_of (codes "scrigno"))) (
      ap (λ x. x.0)
        (get_blob_to_file-served net wire digest_of 9 0 served refl refl refl refl (omega arith)))
