-- ===== src/Client.antt =====
-- crates/scrigno-client/src: error.rs, types.rs and the rows of store.rs. Texts are byte strings, ids
-- and times are numbers, and a `Uuid` and its text are not told apart.
pub mod Store
pub mod Vault
pub mod Sync
pub mod Http
pub mod Served
mod Tests
use scrigno.Prelude.{ℕ, Bool, Option, List, Result, ok, err}
use scrigno.Prelude.Bytes.{Bytes}
use scrigno.Server.{Uuid}

pub data ClientError : Type 0 where
  network unauthorized locked wrong_passphrase contention server_rollback storage crypto :
      ClientError
  vault_exists vault_not_initialised not_found invalid_input server_contract : ClientError

-- A row of the local table `document`.
pub record DocumentRow : Type 0 where
  pub id : Uuid
  pub version : ℕ
  pub base_version : ℕ
  pub blob_id : Option Uuid
  pub blob_size : ℕ
  pub enc_meta : Bytes
  pub deleted : Bool
  pub dirty : Bool
  pub keep_offline : Bool
  pub updated_at : ℕ

-- A file of the directory of blobs, whose name is the id.
pub record BlobFile : Type 0 where
  pub id : Uuid
  pub bytes : Bytes

-- A row of `blob_cache`; the path is that of the blob's id in the directory of blobs.
pub record CacheRow : Type 0 where
  pub blob_id : Uuid
  pub size : ℕ
  pub last_access : ℕ

pub record DocSummary : Type 0 where
  pub id : Uuid
  pub title : Bytes
  pub tags : List Bytes
  pub note : Bytes
  pub mime : Bytes
  pub size : ℕ
  pub content_hash : Bytes
  pub original_name : Bytes
  pub created_at : Bytes
  pub version : ℕ
  pub dirty : Bool
  pub keep_offline : Bool
  pub blob_size : ℕ
  pub cached : Bool

pub data SyncWarning : Type 0 where
  rollback : Uuid → ℕ → ℕ → SyncWarning

pub record SyncReport : Type 0 where
  pub pulled : ℕ
  pub pushed : ℕ
  pub conflicts : ℕ
  pub warnings : List SyncWarning

-- What a method answers, and the state it leaves: an error keeps what was done before it.
abbrev pub Outcome {ℓ} : Type ℓ → Type 0 → Type ℓ
Outcome A S = Result ClientError A × S

infixl 5 ◌>>=◌
abbrev pub ◌>>=◌ : {A B S : Type 0} → Outcome A S → (A × S → Outcome B S) → Outcome B S
(ok a, s) >>= f = f (a, s)
(err e, s) >>= f = (err e, s)
