-- ===== src/Mobile/Session/Quick/Fresh.antt =====
-- What a quick unlock that succeeds needs.
use scrigno.Prelude.{
  ℕ, ◌≡◌, Bool, true, Option, some, Bool-cases, Option-cases, Result-cases, inl, inr, ok,
}
use scrigno.Prelude.Bytes.{Bytes}
use scrigno.Mobile.QuickUnlock.{Strongholds, is_enabled, load_passphrase}
use scrigno.Mobile.QuickUnlock.Expiry.{IsFresh, load_passphrase-IsFresh, load_passphrase-meta}
use scrigno.Mobile.Session.{VaultOps, VaultSlot, AppState}
use scrigno.Mobile.Session.Quick.{vault_unlock_quick}

module _ {Locked Unlocked Handle : Type 0} (ops : VaultOps Locked Unlocked)
    (strongholds : Strongholds Handle) where
  -- A locked vault is unlocked by biometrics only where the prompt succeeds, the quick unlock is enabled
  -- and the passphrase was entered less than seven days ago, with fewer than five failed attempts since;
  -- and the time of the passphrase and the attempts stay, so that quick unlocks do not prolong themselves.
  pub vault_unlock_quick-IsFresh :
      (authenticated : Bool) (drawn : Option Bytes) (now : ℕ) (s : AppState Locked Unlocked)
      (v : Locked)
      → s.slot ≡ some (VaultSlot.locked v)
      → (vault_unlock_quick ops strongholds authenticated drawn now s).0 ≡ ok tt
      → (authenticated ≡ true)
        × (is_enabled s.data_dir ≡ true)
        × IsFresh now s.data_dir
        × ((vault_unlock_quick ops strongholds authenticated drawn now s).1.data_dir.meta
            ≡ s.data_dir.meta)
  unfolding vault_unlock_quick
  vault_unlock_quick-IsFresh authenticated drawn now s v h done =
      elim (Option-cases s.data_dir.config) [
        | inl c ↦ cc (simp (vault_unlock_quick, h, c) at done)
        | inr (config, c) ↦
            elim (Result-cases (load_passphrase strongholds drawn now s.data_dir).0) [
              | inl (e, l) ↦ cc (simp (vault_unlock_quick, h, c, l) at done)
              | inr (passphrase, l) ↦
                  let r = ops.unlock passphrase config.token v in
                  let (enabled, fresh) =
                    load_passphrase-IsFresh strongholds drawn now s.data_dir passphrase l in
                  let kept = load_passphrase-meta strongholds drawn now s.data_dir passphrase l in
                  elim (Bool-cases authenticated) [
                    | inr a ↦ cc (simp (vault_unlock_quick, h, c, l, a) at done)
                    | inl a ↦ elim (Result-cases r.0) [
                      | inl (e, x) ↦ cc (simp (vault_unlock_quick, h, c, l, a, x) at done)
                      | inr (u, x) ↦
                          (a, enabled, fresh, simp (vault_unlock_quick, h, c, l, a, x) kept)
                    ]
                  ]
            ]
      ]
