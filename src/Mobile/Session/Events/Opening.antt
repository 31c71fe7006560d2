-- ===== src/Mobile/Session/Events/Opening.antt =====
-- What opens the vault, and that the slot is never lost.
use scrigno.Prelude.{
  ℕ, min, max, ◌≡◌, refl, Bool, true, false, Option, none, some, Bool-cases, Option-cases,
  Result-cases, inl, inr, Result, ok, err,
}
use scrigno.Prelude.Bytes.{Bytes}
use scrigno.Client.{ClientError}
use scrigno.Mobile.QuickUnlock.{Strongholds, enable, load_passphrase}
use scrigno.Mobile.Session.{
  VaultOps, VaultSlot, AppState, Settings, relocked, established, vault_create, vault_join,
  vault_unlock, vault_lock,
}
use scrigno.Mobile.Session.Commands.{
  with_minutes, with_unlocked, with_document, vault_add_recovery_code, docs_list, doc_get_meta,
  doc_open, doc_update_meta, doc_set_keep_offline, doc_delete, sync_now, settings_set,
}
use scrigno.Mobile.Session.Locking.{auto_lock, auto_lock_due, auto_lock_tick, on_focus_changed}
use scrigno.Mobile.Session.Quick.{
  vault_unlock_quick, vault_enable_quick_unlock, vault_forget_quick_unlock,
}
use scrigno.Mobile.Session.Events.{
  Event, create, join, unlock, unlock_quick, enable_quick, forget_quick, lock, recovery,
  list_documents, sync, tick, get_meta, open_document, delete, update_meta, keep_offline, settings,
  focus, step,
}

data SlotCases {Locked Unlocked : Type 0} (a : Option (VaultSlot Locked Unlocked)) : Type 0 where
  none_there : a ≡ none → SlotCases a
  locked_there : (v : Locked) → a ≡ some (VaultSlot.locked v) → SlotCases a
  unlocked_there : (u : Unlocked) → a ≡ some (VaultSlot.unlocked u) → SlotCases a

Slot-cases : {Locked Unlocked : Type 0} (a : Option (VaultSlot Locked Unlocked)) → SlotCases a
Slot-cases none = none_there refl
Slot-cases (some (VaultSlot.locked v)) = locked_there v refl
Slot-cases (some (VaultSlot.unlocked u)) = unlocked_there u refl

module _ {Locked Unlocked : Type 0} (ops : VaultOps Locked Unlocked) where
  -- The calls that open a locked vault.
  pub data Opening (v : Locked) (r : Result ClientError Unlocked × Option Locked) : Type 0 where
    created : (url token passphrase : Bytes) → r ≡ ops.create url token passphrase v → Opening v r
    joined : (url token passphrase : Bytes) → r ≡ ops.join url token passphrase v → Opening v r
    unlocked_by : (passphrase token : Bytes) → r ≡ ops.unlock passphrase token v → Opening v r

  -- What may become of the slot: it stays, a call works on the unlocked vault, the vault is locked, or
  -- an opening call succeeds or fails.
  pub data SlotStep (a b : Option (VaultSlot Locked Unlocked)) : Type 0 where
    stays : b ≡ a → SlotStep a b
    works :
        (u u' : Unlocked)
        → a ≡ some (VaultSlot.unlocked u)
        → b ≡ some (VaultSlot.unlocked u')
        → SlotStep a b
    closes :
        (u : Unlocked)
        → a ≡ some (VaultSlot.unlocked u)
        → b ≡ some (VaultSlot.locked (ops.lock u))
        → SlotStep a b
    opens :
        (v : Locked) (u : Unlocked) (r : Result ClientError Unlocked × Option Locked)
        → a ≡ some (VaultSlot.locked v)
        → Opening v r
        → r.0 ≡ ok u
        → b ≡ some (VaultSlot.unlocked u)
        → SlotStep a b
    fails :
        (v : Locked) (e : ClientError) (r : Result ClientError Unlocked × Option Locked)
        → a ≡ some (VaultSlot.locked v)
        → Opening v r
        → r.0 ≡ err e
        → b ≡ relocked ops r.1
        → SlotStep a b

  with_unlocked-SlotStep :
      {A : Type 0} (op : Unlocked → Result ClientError A × Unlocked) (now : ℕ)
      (s : AppState Locked Unlocked)
      → SlotStep s.slot (with_unlocked ops op now s).1.slot
  unfolding with_unlocked
  with_unlocked-SlotStep op now s = elim (Slot-cases s.slot) [
    | none_there h ↦ stays (simp (with_unlocked, h))
    | locked_there v h ↦ stays (simp (with_unlocked, h))
    | unlocked_there u h ↦ elim (Result-cases (op u).0) [
      | inl (e, r) ↦ works u (op u).1 h (simp (with_unlocked, h, r))
      | inr (a, r) ↦ works u (op u).1 h (simp (with_unlocked, h, r))
    ]
  ]

  with_document-SlotStep :
      {A : Type 0} (id : Bytes) (op : ℕ → Unlocked → Result ClientError A × Unlocked) (now : ℕ)
      (s : AppState Locked Unlocked)
      → SlotStep s.slot (with_document ops id op now s).1.slot
  unfolding with_document
  with_document-SlotStep id op now s = elim (Option-cases (ops.parse_uuid id)) [
    | inl n ↦ stays (rw (with_document, n) refl)
    | inr (doc_id, n) ↦ rw (with_document, n) (with_unlocked-SlotStep (op doc_id) now s)
  ]

  established-SlotStep :
      (url token : Bytes) (now : ℕ) (v : Locked) (r : Result ClientError Unlocked × Option Locked)
      (s : AppState Locked Unlocked)
      → s.slot ≡ some (VaultSlot.locked v)
      → Opening v r
      → SlotStep s.slot (established ops url token now r s).1.slot
  unfolding established
  established-SlotStep url token now v (err e, left) s h by = fails v e (err e, left) h by refl refl
  established-SlotStep url token now v (ok u, left) s h by = opens v u (ok u, left) h by refl refl

  vault_create-SlotStep :
      (url token passphrase : Bytes) (now : ℕ) (s : AppState Locked Unlocked)
      → SlotStep s.slot (vault_create ops url token passphrase now s).1.slot
  unfolding vault_create
  vault_create-SlotStep url token passphrase now s = elim (Slot-cases s.slot) [
    | none_there h ↦ stays (simp (vault_create, h))
    | unlocked_there u h ↦ stays (simp (vault_create, h))
    | locked_there v h ↦
        rw (vault_create, h)
          (rw (← h) (
            established-SlotStep url token now v (ops.create url token passphrase v) s h
              (created url token passphrase refl)))
  ]

  vault_join-SlotStep :
      (url token passphrase : Bytes) (now : ℕ) (s : AppState Locked Unlocked)
      → SlotStep s.slot (vault_join ops url token passphrase now s).1.slot
  unfolding vault_join
  vault_join-SlotStep url token passphrase now s = elim (Slot-cases s.slot) [
    | none_there h ↦ stays (simp (vault_join, h))
    | unlocked_there u h ↦ stays (simp (vault_join, h))
    | locked_there v h ↦
        rw (vault_join, h)
          (rw (← h) (
            established-SlotStep url token now v (ops.join url token passphrase v) s h
              (joined url token passphrase refl)))
  ]

  vault_unlock-SlotStep :
      (passphrase : Bytes) (now : ℕ) (s : AppState Locked Unlocked)
      → SlotStep s.slot (vault_unlock ops passphrase now s).1.slot
  unfolding vault_unlock
  vault_unlock-SlotStep passphrase now s = elim (Slot-cases s.slot) [
    | none_there h ↦ stays (simp (vault_unlock, h))
    | unlocked_there u h ↦ stays (simp (vault_unlock, h))
    | locked_there v h ↦ elim (Option-cases s.data_dir.config) [
      | inl c ↦ stays (simp (vault_unlock, h, c))
      | inr (config, c) ↦
          let r = ops.unlock passphrase config.token v in
          let by = unlocked_by passphrase config.token refl in
          elim (Result-cases r.0) [
            | inl (e, x) ↦ fails v e r h by x (simp (vault_unlock, h, c, x))
            | inr (u, x) ↦ opens v u r h by x (simp (vault_unlock, h, c, x))
          ]
    ]
  ]

  vault_lock-SlotStep : (s : AppState Locked Unlocked) → SlotStep s.slot (vault_lock ops s).1.slot
  unfolding vault_lock
  vault_lock-SlotStep s = elim (Slot-cases s.slot) [
    | none_there h ↦ stays (simp (vault_lock, h))
    | locked_there v h ↦ stays (simp (vault_lock, h))
    | unlocked_there u h ↦ closes u h (simp (vault_lock, h))
  ]

  pub auto_lock-SlotStep : (s : AppState Locked Unlocked) → SlotStep s.slot (auto_lock ops s).slot
  unfolding auto_lock
  auto_lock-SlotStep s = elim (Slot-cases s.slot) [
    | none_there h ↦ stays (simp (auto_lock, h))
    | locked_there v h ↦ stays (simp (auto_lock, h))
    | unlocked_there u h ↦ closes u h (simp (auto_lock, h))
  ]

  auto_lock_tick-SlotStep :
      (now : ℕ) (s : AppState Locked Unlocked) → SlotStep s.slot (auto_lock_tick ops now s).slot
  unfolding auto_lock_tick
  auto_lock_tick-SlotStep now s = elim (Bool-cases (auto_lock_due ops now s)) [
    | inl d ↦ rw (auto_lock_tick, d) (auto_lock-SlotStep s)
    | inr d ↦ rw (auto_lock_tick, d) (stays refl)
  ]

  settings_set-SlotStep :
      (values : Settings) (now : ℕ) (s : AppState Locked Unlocked)
      → SlotStep s.slot (settings_set ops values now s).1.slot
  unfolding settings_set
  settings_set-SlotStep values now s = elim (Slot-cases s.slot) [
    | none_there h ↦ stays (simp (settings_set, h))
    | locked_there v h ↦ stays (simp (settings_set, h))
    | unlocked_there u h ↦
        let u' = (ops.set_cache_limit_mb values.cache_limit_mb u).1 in
        elim (Result-cases (ops.set_cache_limit_mb values.cache_limit_mb u).0) [
          | inl (e, x) ↦ works u u' h (simp (settings_set, h, x))
          | inr (d, x) ↦ elim (Result-cases (ops.cache_limit_mb u')) [
            | inl (e, y) ↦ works u u' h (simp (settings_set, h, x, y))
            | inr (limit, y) ↦
                let minutes = min 30 (max 1 values.auto_lock_minutes) in
                elim (Result-cases (with_minutes ops minutes s.data_dir).0) [
                  | inl (e, z) ↦ works u u' h (simp (settings_set, h, x, y, z))
                  | inr (k, z) ↦ works u u' h (simp (settings_set, h, x, y, z))
                ]
          ]
        ]
  ]

  on_focus_changed-SlotStep :
      (focused : Bool) (now : ℕ) (s : AppState Locked Unlocked)
      → SlotStep s.slot (on_focus_changed ops focused now s).slot
  unfolding on_focus_changed
  on_focus_changed-SlotStep false now s = stays refl
  on_focus_changed-SlotStep true now s = elim (Slot-cases s.slot) [
    | none_there h ↦ stays (simp (on_focus_changed, h))
    | locked_there v h ↦ stays (simp (on_focus_changed, h))
    | unlocked_there u h ↦ elim (Result-cases (ops.sync u).0) [
      | inl (e, r) ↦ works u (ops.sync u).1 h (simp (on_focus_changed, h, r))
      | inr (a, r) ↦ works u (ops.sync u).1 h (simp (on_focus_changed, h, r))
    ]
  ]

  module _ {Handle : Type 0} (strongholds : Strongholds Handle) where
    vault_unlock_quick-SlotStep :
        (authenticated : Bool) (drawn : Option Bytes) (now : ℕ) (s : AppState Locked Unlocked)
        → SlotStep s.slot (vault_unlock_quick ops strongholds authenticated drawn now s).1.slot
    unfolding vault_unlock_quick
    vault_unlock_quick-SlotStep authenticated drawn now s = elim (Slot-cases s.slot) [
      | none_there h ↦ stays (simp (vault_unlock_quick, h))
      | unlocked_there u h ↦ stays (simp (vault_unlock_quick, h))
      | locked_there v h ↦ elim (Option-cases s.data_dir.config) [
        | inl c ↦ stays (simp (vault_unlock_quick, h, c))
        | inr (config, c) ↦
            elim (Result-cases (load_passphrase strongholds drawn now s.data_dir).0) [
              | inl (e, l) ↦ stays (simp (vault_unlock_quick, h, c, l))
              | inr (passphrase, l) ↦
                  let r = ops.unlock passphrase config.token v in
                  let by = unlocked_by passphrase config.token refl in
                  elim (Bool-cases authenticated) [
                    | inr a ↦ stays (simp (vault_unlock_quick, h, c, l, a))
                    | inl a ↦ elim (Result-cases r.0) [
                      | inl (e, x) ↦ fails v e r h by x (simp (vault_unlock_quick, h, c, l, a, x))
                      | inr (u, x) ↦ opens v u r h by x (simp (vault_unlock_quick, h, c, l, a, x))
                    ]
                  ]
            ]
      ]
    ]

    vault_enable_quick_unlock-SlotStep :
        (drawn : Option Bytes) (passphrase : Bytes) (now : ℕ) (s : AppState Locked Unlocked)
        → SlotStep s.slot (vault_enable_quick_unlock ops strongholds drawn passphrase now s).1.slot
    unfolding vault_enable_quick_unlock
    vault_enable_quick_unlock-SlotStep drawn passphrase now s = elim (Slot-cases s.slot) [
      | none_there h ↦ stays (simp (vault_enable_quick_unlock, h))
      | locked_there v h ↦ stays (simp (vault_enable_quick_unlock, h))
      | unlocked_there u h ↦
          elim (Result-cases (enable strongholds drawn now passphrase s.data_dir).0) [
            | inl (e, x) ↦ stays (simp (vault_enable_quick_unlock, h, x))
            | inr (d, x) ↦ stays (simp (vault_enable_quick_unlock, h, x))
          ]
    ]

    -- Whatever happens to the application, the slot makes a step of the abstract machine: a locked vault
    -- is opened only by a call of create, join or unlock that succeeds, and an unlocked vault is left
    -- only for what locking it gives.
    pub step-SlotStep :
        (e : Event) (now : ℕ) (s : AppState Locked Unlocked)
        → SlotStep s.slot (step ops strongholds e now s).slot
    unfolding step vault_forget_quick_unlock vault_add_recovery_code docs_list sync_now doc_get_meta
        doc_open doc_delete doc_update_meta doc_set_keep_offline
    step-SlotStep (create url token passphrase) now s =
        vault_create-SlotStep url token passphrase now s
    step-SlotStep (join url token passphrase) now s = vault_join-SlotStep url token passphrase now s
    step-SlotStep (unlock passphrase) now s = vault_unlock-SlotStep passphrase now s
    step-SlotStep (unlock_quick authenticated drawn) now s =
        vault_unlock_quick-SlotStep authenticated drawn now s
    step-SlotStep (enable_quick drawn passphrase) now s =
        vault_enable_quick_unlock-SlotStep drawn passphrase now s
    step-SlotStep forget_quick now s = stays refl
    step-SlotStep lock now s = vault_lock-SlotStep s
    step-SlotStep recovery now s = with_unlocked-SlotStep ops.add_recovery_keyslot now s
    step-SlotStep list_documents now s = with_unlocked-SlotStep (λ u. (ok (ops.list u), u)) now s
    step-SlotStep sync now s = with_unlocked-SlotStep ops.sync now s
    step-SlotStep tick now s = auto_lock_tick-SlotStep now s
    step-SlotStep (get_meta id) now s =
        with_document-SlotStep id (λ doc_id u. (ops.get_meta doc_id u, u)) now s
    step-SlotStep (open_document id) now s = with_document-SlotStep id ops.open_doc now s
    step-SlotStep (delete id) now s = with_document-SlotStep id ops.delete now s
    step-SlotStep (update_meta id title tags note) now s =
        with_document-SlotStep id (λ doc_id. ops.update_meta doc_id title tags note) now s
    step-SlotStep (keep_offline id keep) now s =
        with_document-SlotStep id (λ doc_id. ops.set_keep_offline doc_id keep) now s
    step-SlotStep (settings values) now s = settings_set-SlotStep values now s
    step-SlotStep (focus focused) now s = on_focus_changed-SlotStep focused now s
