-- ===== src/Server.antt =====
-- crates/scrigno-server/src: models.rs, error.rs, and the tables of migrations/0001_init.sql as the
-- state of the handlers. Rows are kept in lists; `now` and new timestamps are arguments.
pub mod Rows
pub mod Headers
pub mod Docs
pub mod Changes
pub mod Vault
pub mod Invariant
pub mod Gc
pub mod Blobs
pub mod Access
mod Tests
use scrigno.Prelude.{ℕ, ◌≡◌, Bool, true, false, Option, none, some, List, [], Result, ok, err}
use Prim.Native.String.{String}
use scrigno.Prelude.Bytes.{Bytes}

-- A `Uuid` is its 128-bit number.
abbrev pub Uuid : Type 0
Uuid = ℕ

-- A row of `document`, and its JSON. `blob_size` is opaque to the server, and never negative here.
pub record DocumentRecord : Type 0 where
  pub id : Uuid
  pub version : ℕ
  pub blob_id : Option Uuid
  pub blob_size : ℕ
  pub enc_meta : Bytes
  pub deleted : Bool
  pub server_seq : ℕ
  pub updated_at : ℕ

pub record PutDocRequest : Type 0 where
  pub blob_id : Uuid
  pub blob_size : ℕ
  pub enc_meta : Bytes

-- A row of `keyslot`; `kdf` is a JSON value, as its text.
pub record Keyslot : Type 0 where
  pub id : Uuid
  pub kind : Bytes
  pub kdf : Bytes
  pub wrapped_mk : Bytes
  pub created_at : ℕ

-- A row of `blob`.
pub record BlobRow : Type 0 where
  pub id : Uuid
  pub size : ℕ
  pub sha256 : Bytes
  pub created_at : ℕ

pub record VaultRow : Type 0 where
  pub id : Uuid
  pub created_at : ℕ

-- The database: the singleton `vault`, the tables, and the next value of `document_change_seq`.
-- There is one vault, so the columns `vault_id` are not kept.
pub record Db : Type 0 where
  pub vault : Option VaultRow
  pub keyslots : List Keyslot
  pub blobs : List BlobRow
  pub documents : List DocumentRecord
  pub next_seq : ℕ

pub data ApiError : Type 0 where
  unauthorized vault_not_initialised vault_exists last_keyslot not_found blob_not_found : ApiError
  blob_mismatch payload_too_large internal : ApiError
  version_mismatch : DocumentRecord → ApiError
  bad_request : String → ApiError
  range_not_satisfiable : ℕ → ApiError

-- A handler answers and leaves a state; what was not committed is not in it.
abbrev pub Handler : Type 0 → Type 0
Handler A = Db → Result ApiError A × Db

-- `ApiError::code`.
pub code : ApiError → String
code unauthorized = "unauthorized"
code vault_not_initialised = "vault_not_initialised"
code vault_exists = "vault_exists"
code last_keyslot = "last_keyslot"
code not_found = "not_found"
code (version_mismatch _) = "version_mismatch"
code blob_not_found = "blob_not_found"
code blob_mismatch = "blob_mismatch"
code (bad_request _) = "bad_request"
code payload_too_large = "payload_too_large"
code (range_not_satisfiable _) = "range_not_satisfiable"
code internal = "internal_error"

-- `ApiError::status`.
unfoldable pub status : ApiError → ℕ
status unauthorized = 401
status vault_not_initialised = 404
status not_found = 404
status blob_not_found = 404
status vault_exists = 409
status last_keyslot = 409
status blob_mismatch = 409
status (version_mismatch _) = 412
status (bad_request _) = 400
status payload_too_large = 413
status (range_not_satisfiable _) = 416
status internal = 500

-- The body of an error response: nothing, the current record, or the code of the JSON envelope.
pub data ErrorBody : Type 0 where
  empty : ErrorBody
  current : DocumentRecord → ErrorBody
  envelope : String → ErrorBody

-- `into_response`: the status and the body; the message of the envelope is not kept.
unfoldable pub into_response : ApiError → ℕ × ErrorBody
unfolding code status
into_response unauthorized = (401, empty)
into_response (version_mismatch record') = (412, current record')
into_response e = (status e, envelope (code e))
