-- ===== src/Mobile/Session/Commands.antt =====
-- commands.rs: what the user interface does with an unlocked vault, and the settings.
use scrigno.Prelude.{ℕ, Bool, Option, none, some, List, min, max, Result, ok, err}
use scrigno.Prelude.Bytes.{Bytes}
use scrigno.Core.Meta.{DocMeta}
use scrigno.Client.{ClientError, DocSummary, SyncReport}
use scrigno.Mobile.{AppError, from_client, not_unlocked, invalid_request_input, AppConfig, DataDir}
use scrigno.Mobile.QuickUnlock.{is_enabled}
use scrigno.Mobile.Session.{
  min_auto_lock_minutes, max_auto_lock_minutes, default_cache_limit_mb, default_server_url,
  VaultOps, VaultSlot, Settings, config_save, State, Answer,
}

module _ {Locked Unlocked : Type 0} (ops : VaultOps Locked Unlocked) where
  -- What the commands on an unlocked vault share: an error leaves the time of the last activity.
  unfoldable pub with_unlocked :
      {A : Type 0} → (Unlocked → Result ClientError A × Unlocked) → ℕ → State ops → Answer ops A
  with_unlocked op now s = elim s.slot [
    | none ↦ (err not_unlocked, s)
    | some (VaultSlot.locked v) ↦ (err not_unlocked, s)
    | some (VaultSlot.unlocked u) ↦
        let (answer, u') = op u in
        elim answer [
          | err e ↦ (err (from_client e), record s { slot = some (VaultSlot.unlocked u') })
          | ok a ↦ (ok a, record s { slot = some (VaultSlot.unlocked u'); last_activity = now })
        ]
  ]

  -- The commands on a document read its identifier first.
  unfoldable pub with_document :
      {A : Type 0}
      → Bytes
      → (ℕ → Unlocked → Result ClientError A × Unlocked)
      → ℕ
      → State ops
      → Answer ops A
  unfolding with_unlocked
  with_document id op now s = elim (ops.parse_uuid id) [
    | none ↦ (err invalid_request_input, s)
    | some doc_id ↦ with_unlocked (op doc_id) now s
  ]

  unfoldable pub vault_add_recovery_code : ℕ → State ops → Answer ops Bytes
  unfolding with_unlocked
  vault_add_recovery_code now s = with_unlocked ops.add_recovery_keyslot now s

  unfoldable pub docs_list : ℕ → State ops → Answer ops (List DocSummary)
  unfolding with_unlocked
  docs_list now s = with_unlocked (λ u. (ok (ops.list u), u)) now s

  unfoldable pub doc_get_meta : Bytes → ℕ → State ops → Answer ops DocMeta
  unfolding with_document
  doc_get_meta id now s = with_document id (λ doc_id u. (ops.get_meta doc_id u, u)) now s

  unfoldable pub doc_open : Bytes → ℕ → State ops → Answer ops Bytes
  unfolding with_document
  doc_open id now s = with_document id ops.open_doc now s

  unfoldable pub doc_update_meta :
      Bytes → Bytes → List Bytes → Bytes → ℕ → State ops → Answer ops DocSummary
  unfolding with_document
  doc_update_meta id title tags note now s =
      with_document id (λ doc_id. ops.update_meta doc_id title tags note) now s

  unfoldable pub doc_set_keep_offline : Bytes → Bool → ℕ → State ops → Answer ops (Unit {0})
  unfolding with_document
  doc_set_keep_offline id keep_offline now s =
      with_document id (λ doc_id. ops.set_keep_offline doc_id keep_offline) now s

  unfoldable pub doc_delete : Bytes → ℕ → State ops → Answer ops (Unit {0})
  unfolding with_document
  doc_delete id now s = with_document id ops.delete now s

  unfoldable pub sync_now : ℕ → State ops → Answer ops SyncReport
  unfolding with_unlocked
  sync_now now s = with_unlocked ops.sync now s

  abbrev url_of : Option AppConfig → Bytes
  url_of none = default_server_url
  url_of (some config) = config.server_url

  abbrev shown_cache_limit : Option (VaultSlot Locked Unlocked) → Result ClientError ℕ
  shown_cache_limit (some (VaultSlot.unlocked u)) = ops.cache_limit_mb u
  shown_cache_limit (some (VaultSlot.locked v)) = ok default_cache_limit_mb
  shown_cache_limit none = ok default_cache_limit_mb

  unfoldable pub settings_get : State ops → Result AppError Settings
  settings_get s = elim (shown_cache_limit s.slot) [
    | err e ↦ err (from_client e)
    | ok limit ↦ ok (record {
      auto_lock_minutes = s.auto_lock_minutes;
      cache_limit_mb = limit;
      server_url = url_of s.data_dir.config;
      quick_unlock_enabled = is_enabled s.data_dir;
    })
  ]

  -- Writes the minutes into the configuration, where there is one.
  unfoldable pub with_minutes : ℕ → DataDir → Result AppError (Unit {0}) × DataDir
  with_minutes minutes dir = elim dir.config [
    | none ↦ (ok tt, dir)
    | some config ↦ config_save (record config { auto_lock_minutes = minutes }) dir
  ]

  unfoldable pub settings_set : Settings → ℕ → State ops → Answer ops Settings
  unfolding with_minutes config_save
  settings_set settings now s = elim s.slot [
    | none ↦ (err not_unlocked, s)
    | some (VaultSlot.locked v) ↦ (err not_unlocked, s)
    | some (VaultSlot.unlocked u) ↦
        let (written, u') = ops.set_cache_limit_mb settings.cache_limit_mb u in
        let s' = record s { slot = some (VaultSlot.unlocked u') } in
        elim written [
          | err e ↦ (err (from_client e), s')
          | ok done ↦ elim (ops.cache_limit_mb u') [
            | err e ↦ (err (from_client e), s')
            | ok limit ↦
                let minutes =
                  min max_auto_lock_minutes
                    (max min_auto_lock_minutes settings.auto_lock_minutes) in
                let (saved, dir) = with_minutes minutes s.data_dir in
                let s'' = record s' {
                  auto_lock_minutes = minutes;
                  last_activity = now;
                  data_dir = dir;
                } in
                elim saved [
                  | err e ↦ (err e, s'')
                  | ok d ↦ (
                    ok (record {
                      auto_lock_minutes = minutes;
                      cache_limit_mb = limit;
                      server_url = url_of dir.config;
                      quick_unlock_enabled = is_enabled dir;
                    }),
                    s'',
                  )
                ]
          ]
        ]
  ]
