-- ===== src/Mobile/Session/Events.antt =====
-- Sequences of commands, ticks of the auto-lock and changes of focus.
pub mod Opening
use scrigno.Prelude.{
  ℕ, ◌+◌, ◌-◌, ◌*◌, ◌≤◌, ◌<◌, ◌≡◌, ◌≢◌, refl, ap, sym, ◌∙◌, Bool, true, false, not, ◌||◌, Option,
  none, some, List, [], ◌∷◌, ltb, leb, if◌then◌else◌, Bool-cases, Option-cases, Result-cases, ◌⊎◌,
  inl, inr, Result, ok, err, arith,
}
use scrigno.Prelude.Bytes.{Bytes}
use scrigno.Client.{ClientError}
use scrigno.Mobile.{AppError, DataDir, AppConfig}
use scrigno.Mobile.QuickUnlock.{Strongholds}
use scrigno.Mobile.Session.{
  VaultOps, VaultSlot, AppState, Settings, State, relocked, established, vault_create, vault_join,
  vault_unlock, vault_lock,
}
use scrigno.Mobile.Session.Commands.{
  with_unlocked, with_document, vault_add_recovery_code, docs_list, doc_get_meta, doc_open,
  doc_update_meta, doc_set_keep_offline, doc_delete, sync_now, settings_set,
}
use scrigno.Mobile.Session.Locking.{auto_lock, auto_lock_due, auto_lock_tick, on_focus_changed}
use scrigno.Mobile.Session.Quick.{
  vault_unlock_quick, vault_enable_quick_unlock, vault_forget_quick_unlock,
}

pub data Event : Type 0 where
  create join : Bytes → Bytes → Bytes → Event
  unlock : Bytes → Event
  unlock_quick : Bool → Option Bytes → Event
  enable_quick : Option Bytes → Bytes → Event
  forget_quick lock recovery list_documents sync tick : Event
  get_meta open_document delete : Bytes → Event
  update_meta : Bytes → Bytes → List Bytes → Bytes → Event
  keep_offline : Bytes → Bool → Event
  settings : Settings → Event
  focus : Bool → Event

module _ {Locked Unlocked Handle : Type 0} (ops : VaultOps Locked Unlocked)
    (strongholds : Strongholds Handle) where
  -- The state after an event at a time.
  unfoldable pub step : Event → ℕ → AppState Locked Unlocked → AppState Locked Unlocked
  step (create url token passphrase) now s = (vault_create ops url token passphrase now s).1
  step (join url token passphrase) now s = (vault_join ops url token passphrase now s).1
  step (unlock passphrase) now s = (vault_unlock ops passphrase now s).1
  step (unlock_quick authenticated drawn) now s =
      (vault_unlock_quick ops strongholds authenticated drawn now s).1
  step (enable_quick drawn passphrase) now s =
      (vault_enable_quick_unlock ops strongholds drawn passphrase now s).1
  step forget_quick now s = (vault_forget_quick_unlock ops s).1
  step lock now s = (vault_lock ops s).1
  step recovery now s = (vault_add_recovery_code ops now s).1
  step list_documents now s = (docs_list ops now s).1
  step sync now s = (sync_now ops now s).1
  step tick now s = auto_lock_tick ops now s
  step (get_meta id) now s = (doc_get_meta ops id now s).1
  step (open_document id) now s = (doc_open ops id now s).1
  step (delete id) now s = (doc_delete ops id now s).1
  step (update_meta id title tags note) now s = (doc_update_meta ops id title tags note now s).1
  step (keep_offline id keep) now s = (doc_set_keep_offline ops id keep now s).1
  step (settings values) now s = (settings_set ops values now s).1
  step (focus focused) now s = on_focus_changed ops focused now s

  unfoldable pub run : List (Event × ℕ) → AppState Locked Unlocked → AppState Locked Unlocked
  unfolding step
  run [] s = s
  run ((e, now) ∷ rest) s = run rest (step e now s)
