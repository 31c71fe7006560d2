-- ===== src/Mobile/Session.antt =====
-- state.rs, commands.rs, config.rs and lifecycle.rs of the mobile application, as they are built for a
-- phone: the slot of the vault and the commands that open and lock it; Commands has those on an
-- unlocked vault, Quick the quick unlock, Locking what locks the vault. A command
-- is one step: those that give the slot back earlier only record the activity, save the settings or
-- enrol the quick unlock after that. Events for the user interface are left out; times are seconds.
pub mod Commands
pub mod Locking
pub mod Quick
pub mod Events
use scrigno.Prelude.{
  ℕ, ◌+◌, ◌-◌, ◌*◌, Bool, true, false, not, ◌||◌, Option, none, some, List, ltb, leb, min, max,
  if◌then◌else◌, Result, ok, err,
}
use scrigno.Prelude.Bytes.{Bytes, codes}
use scrigno.Core.Meta.{DocMeta}
use scrigno.Client.{ClientError, DocSummary, SyncReport}
use scrigno.Mobile.{
  AppError, from_client, quick_unlock_unavailable, biometric_failed, not_unlocked, already_unlocked,
  no_saved_credentials, config_error, invalid_request_input, internal_state, AppConfig, DataDir,
}
use scrigno.Mobile.QuickUnlock.{
  Strongholds, is_enabled, enable, forget, load_passphrase, record_passphrase_auth,
  record_failed_biometric_attempt,
}

abbrev min_auto_lock_minutes : ℕ
min_auto_lock_minutes = 1

abbrev max_auto_lock_minutes : ℕ
max_auto_lock_minutes = 30

abbrev default_cache_limit_mb : ℕ
default_cache_limit_mb = 512

abbrev default_server_url : Bytes
default_server_url = codes "http://127.0.0.1:8787"

abbrev pub background_lock_threshold : ℕ
background_lock_threshold = 30

-- The calls of the client crate. `create`, `join` and `unlock` take the locked vault and give, beside
-- their answer, what `Vault::open` on the same directory gives after them.
pub record VaultOps (Locked Unlocked : Type 0) : Type 0 where
  pub is_initialised : Locked → Result ClientError Bool
  pub create : Bytes → Bytes → Bytes → Locked → Result ClientError Unlocked × Option Locked
  pub join : Bytes → Bytes → Bytes → Locked → Result ClientError Unlocked × Option Locked
  pub unlock : Bytes → Bytes → Locked → Result ClientError Unlocked × Option Locked
  pub lock : Unlocked → Locked
  pub add_recovery_keyslot : Unlocked → Result ClientError Bytes × Unlocked
  pub list : Unlocked → List DocSummary
  pub parse_uuid : Bytes → Option ℕ
  pub get_meta : ℕ → Unlocked → Result ClientError DocMeta
  pub open_doc : ℕ → Unlocked → Result ClientError Bytes × Unlocked
  pub update_meta :
      ℕ → Bytes → List Bytes → Bytes → Unlocked → Result ClientError DocSummary × Unlocked
  pub set_keep_offline : ℕ → Bool → Unlocked → Result ClientError (Unit {0}) × Unlocked
  pub delete : ℕ → Unlocked → Result ClientError (Unit {0}) × Unlocked
  pub sync : Unlocked → Result ClientError SyncReport × Unlocked
  pub cache_limit_mb : Unlocked → Result ClientError ℕ
  pub set_cache_limit_mb : ℕ → Unlocked → Result ClientError (Unit {0}) × Unlocked

pub data VaultSlot (Locked Unlocked : Type 0) : Type 0 where
  locked : Locked → VaultSlot Locked Unlocked
  unlocked : Unlocked → VaultSlot Locked Unlocked

pub record AppState (Locked Unlocked : Type 0) : Type 0 where
  pub slot : Option (VaultSlot Locked Unlocked)
  pub last_activity : ℕ
  pub auto_lock_minutes : ℕ
  pub data_dir : DataDir
  pub background_since : Option ℕ

pub data VaultStatus : Type 0 where
  uninitialised locked unlocked : VaultStatus

pub record Settings : Type 0 where
  pub auto_lock_minutes : ℕ
  pub cache_limit_mb : ℕ
  pub server_url : Bytes
  pub quick_unlock_enabled : Bool

-- `config::save`; `config::load` is the field.
pub config_save : AppConfig → DataDir → Result AppError (Unit {0}) × DataDir
config_save config dir =
    if dir.writable then (ok tt, record dir { config = some config }) else (err config_error, dir)

module _ {Locked Unlocked : Type 0} (ops : VaultOps Locked Unlocked) where
  abbrev State : Type 0
  State = AppState Locked Unlocked

  abbrev Answer : Type 0 → Type 0
  Answer A = Result AppError A × State

  abbrev relocked : Option Locked → Option (VaultSlot Locked Unlocked)
  relocked none = none
  relocked (some v) = some (VaultSlot.locked v)

  pub vault_status : State → Result AppError VaultStatus
  vault_status s = elim s.slot [
    | none ↦ err internal_state
    | some (unlocked u) ↦ ok VaultStatus.unlocked
    | some (locked v) ↦ elim (ops.is_initialised v) [
      | err e ↦ err (from_client e)
      | ok initialised ↦ ok (if initialised then VaultStatus.locked else VaultStatus.uninitialised)
    ]
  ]

  -- The end of `vault_create` and `vault_join`: the vault is unlocked even where its credentials
  -- cannot be saved.
  established :
      Bytes → Bytes → ℕ → Result ClientError Unlocked × Option Locked → State → Answer (Unit {0})
  established server_url token now (err e, left) s =
      (err (from_client e), record s { slot = relocked left })
  established server_url token now (ok u, left) s =
      let (saved, dir) =
        config_save
          (record {
            server_url = server_url;
            token = token;
            auto_lock_minutes = s.auto_lock_minutes;
          })
          s.data_dir in
      (
        saved,
        record s {
          slot = some (VaultSlot.unlocked u);
          last_activity = now;
          data_dir = (record_passphrase_auth now dir).1;
        },
      )

  pub vault_create : Bytes → Bytes → Bytes → ℕ → State → Answer (Unit {0})
  unfolding established config_save
  vault_create server_url token passphrase now s = elim s.slot [
    | none ↦ (err internal_state, s)
    | some (unlocked u) ↦ (err already_unlocked, s)
    | some (locked v) ↦
        established server_url token now (ops.create server_url token passphrase v) s
  ]

  pub vault_join : Bytes → Bytes → Bytes → ℕ → State → Answer (Unit {0})
  unfolding established config_save
  vault_join server_url token passphrase now s = elim s.slot [
    | none ↦ (err internal_state, s)
    | some (unlocked u) ↦ (err already_unlocked, s)
    | some (locked v) ↦ established server_url token now (ops.join server_url token passphrase v) s
  ]

  unfoldable pub vault_unlock : Bytes → ℕ → State → Answer (Unit {0})
  vault_unlock passphrase now s = elim s.slot [
    | none ↦ (err internal_state, s)
    | some (unlocked u) ↦ (ok tt, s)
    | some (locked v) ↦ elim s.data_dir.config [
      | none ↦ (err no_saved_credentials, s)
      | some config ↦
          let (opened, left) = ops.unlock passphrase config.token v in
          elim opened [
            | err e ↦ (err (from_client e), record s { slot = relocked left })
            | ok u ↦ (
              ok tt,
              record s {
                slot = some (VaultSlot.unlocked u);
                last_activity = now;
                data_dir = (record_passphrase_auth now s.data_dir).1;
              },
            )
          ]
    ]
  ]

  pub vault_lock : State → Answer (Unit {0})
  vault_lock s = elim s.slot [
    | none ↦ (err internal_state, s)
    | some (unlocked u) ↦ (ok tt, record s { slot = some (VaultSlot.locked (ops.lock u)) })
    | some (locked v) ↦ (ok tt, s)
  ]
