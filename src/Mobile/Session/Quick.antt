-- ===== src/Mobile/Session/Quick.antt =====
-- commands.rs: the commands of the quick unlock.
pub mod Fresh
use scrigno.Prelude.{
  ℕ, ◌+◌, ◌-◌, ◌*◌, Bool, true, false, not, ◌||◌, Option, none, some, List, ltb, leb, min, max,
  if◌then◌else◌, Result, ok, err,
}
use scrigno.Prelude.Bytes.{Bytes, codes}
use scrigno.Core.Meta.{DocMeta}
use scrigno.Client.{ClientError, DocSummary, SyncReport}
use scrigno.Mobile.{
  AppError, from_client, quick_unlock_unavailable, biometric_failed, not_unlocked, already_unlocked,
  no_saved_credentials, config_error, invalid_request_input, internal_state, AppConfig, DataDir,
}
use scrigno.Mobile.QuickUnlock.{
  Strongholds, is_enabled, enable, forget, load_passphrase, record_passphrase_auth,
  record_failed_biometric_attempt,
}
use scrigno.Mobile.Session.{
  min_auto_lock_minutes, max_auto_lock_minutes, default_cache_limit_mb, default_server_url,
  background_lock_threshold, VaultOps, VaultSlot, AppState, Settings, config_save, State, Answer,
  relocked,
}

module _ {Locked Unlocked : Type 0} (ops : VaultOps Locked Unlocked) where
  module _ {Handle : Type 0} (strongholds : Strongholds Handle) where
    -- `authenticated` is the answer of the biometric prompt.
    unfoldable pub vault_unlock_quick : Bool → Option Bytes → ℕ → State ops → Answer ops (Unit {0})
    vault_unlock_quick authenticated drawn now s = elim s.slot [
      | none ↦ (err internal_state, s)
      | some (VaultSlot.unlocked u) ↦ (ok tt, s)
      | some (VaultSlot.locked v) ↦ elim s.data_dir.config [
        | none ↦ (err no_saved_credentials, s)
        | some config ↦
            let (loaded, dir) = load_passphrase strongholds drawn now s.data_dir in
            elim loaded [
              | err e ↦ (err e, record s { data_dir = dir })
              | ok passphrase ↦
                  if not authenticated
                  then (
                    err biometric_failed,
                    record s { data_dir = (record_failed_biometric_attempt dir).1 },
                  )
                  else (let (opened, left) = ops.unlock passphrase config.token v in
                      elim opened [
                        | err e ↦ (
                          err (from_client e),
                          record s { slot = relocked ops left; data_dir = dir },
                        )
                        | ok u ↦ (
                          ok tt,
                          record s {
                            slot = some (VaultSlot.unlocked u);
                            last_activity = now;
                            data_dir = dir;
                          },
                        )
                      ])
            ]
      ]
    ]

    unfoldable pub vault_enable_quick_unlock :
        Option Bytes → Bytes → ℕ → State ops → Answer ops (Unit {0})
    vault_enable_quick_unlock drawn passphrase now s = elim s.slot [
      | none ↦ (err not_unlocked, s)
      | some (VaultSlot.locked v) ↦ (err not_unlocked, s)
      | some (VaultSlot.unlocked u) ↦
          let (enabled, dir) = enable strongholds drawn now passphrase s.data_dir in
          elim enabled [
            | err e ↦ (err e, record s { data_dir = dir })
            | ok done ↦ (ok tt, record s { data_dir = dir; last_activity = now })
          ]
    ]

  unfoldable pub vault_forget_quick_unlock : State ops → Answer ops (Unit {0})
  vault_forget_quick_unlock s = (ok tt, record s { data_dir = forget s.data_dir })
