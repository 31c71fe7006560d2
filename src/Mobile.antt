-- ===== src/Mobile.antt =====
-- apps/mobile/src-tauri/src: error.rs and what state.rs keeps.
pub mod QuickUnlock
pub mod Session
mod Tests
use scrigno.Prelude.{ℕ, Bool, Option}
use scrigno.Prelude.Bytes.{Bytes, codes}
use scrigno.Client.{
  ClientError, network, unauthorized, locked, wrong_passphrase, contention, server_rollback,
  storage, crypto, vault_exists, vault_not_initialised, not_found, invalid_input, server_contract,
}

-- An `AppError` is told by its code; each has one message. `from_client` is the conversion of the
-- client's errors, `invalid_request_input` is `invalid_input` with a message of the command's.
pub data AppError : Type 0 where
  from_client : ClientError → AppError
  quick_unlock_unavailable quick_unlock_reauth_required biometric_failed not_unlocked : AppError
  already_unlocked no_saved_credentials config_error io_error invalid_request : AppError
  invalid_request_input not_implemented internal_state : AppError

client_code : ClientError → Bytes
client_code network = codes "network_error"
client_code unauthorized = codes "unauthorized"
client_code locked = codes "vault_locked"
client_code wrong_passphrase = codes "wrong_passphrase"
client_code contention = codes "sync_contention"
client_code server_rollback = codes "server_rollback"
client_code storage = codes "storage_error"
client_code crypto = codes "crypto_error"
client_code vault_exists = codes "vault_exists"
client_code vault_not_initialised = codes "vault_not_initialised"
client_code not_found = codes "not_found"
client_code invalid_input = codes "invalid_input"
client_code server_contract = codes "server_contract_error"

-- The field `code` of an error.
pub code_of : AppError → Bytes
unfolding client_code
code_of (from_client e) = client_code e
code_of quick_unlock_unavailable = codes "quick_unlock_unavailable"
code_of quick_unlock_reauth_required = codes "quick_unlock_reauth_required"
code_of biometric_failed = codes "biometric_failed"
code_of not_unlocked = codes "vault_locked"
code_of already_unlocked = codes "already_unlocked"
code_of no_saved_credentials = codes "no_saved_credentials"
code_of config_error = codes "config_error"
code_of io_error = codes "io_error"
code_of invalid_request = codes "invalid_request"
code_of invalid_request_input = codes "invalid_input"
code_of not_implemented = codes "not_implemented"
code_of internal_state = codes "internal_error"

pub record QuickUnlockMeta : Type 0 where
  pub last_passphrase_auth_unix : Option ℕ
  pub failed_biometric_attempts : ℕ

-- `AppConfig`: config.json.
pub record AppConfig : Type 0 where
  pub server_url : Bytes
  pub token : Bytes
  pub auto_lock_minutes : ℕ

-- The directory of the application's data: the file of the device secret, the snapshot of Stronghold,
-- quick_unlock.json and config.json where they are there and can be parsed, and whether files can be
-- written.
pub record DataDir : Type 0 where
  pub device_secret : Option Bytes
  pub snapshot : Option Bytes
  pub meta : Option QuickUnlockMeta
  pub config : Option AppConfig
  pub writable : Bool
