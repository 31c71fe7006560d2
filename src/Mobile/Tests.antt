-- ===== src/Mobile/Tests.antt =====
-- The quick unlock and the session at concrete inputs: a Stronghold that keeps one value, and a vault
-- that counts how often it was opened.
use scrigno.Prelude.{
  ℕ, ◌≡◌, refl, ap, sym, length, true, false, Option, none, some, [], Result, ok, err, ◌+◌, ◌==◌,
  if◌then◌else◌, arith,
}
use scrigno.Prelude.Options.{some-eq-some}
use scrigno.Prelude.Bytes.{Bytes, codes}
use scrigno.Client.{ClientError, network, locked, wrong_passphrase, vault_exists, not_found}
use scrigno.Mobile.{quick_unlock_unavailable, QuickUnlockMeta, DataDir}
use scrigno.Mobile.QuickUnlock.{Strongholds, is_enabled, enable, load_passphrase}
use scrigno.Mobile.QuickUnlock.Expiry.{
  IsFresh, load_passphrase-forget, fail_times, fail_times-disabled,
}
use scrigno.Mobile.QuickUnlock.RoundTrip.{StrongholdLaws, load_passphrase-enable}
use scrigno.Mobile.Session.{VaultOps, VaultSlot, AppState}
use scrigno.Mobile.Session.Events.{unlock, step}
use scrigno.Mobile.Session.Quick.{vault_unlock_quick}
use scrigno.Mobile.Session.Quick.Fresh.{vault_unlock_quick-IsFresh}
use scrigno.Mobile.Session.Events.Opening.{SlotStep, step-SlotStep}

abbrev one_value : Strongholds (Option Bytes)
one_value = record {
  open_snapshot = λ snapshot secret. some snapshot;
  create_client = λ name h. some h;
  load_client = λ name h. some h;
  insert = λ key value h. some (some value);
  get = λ key h. some h;
  save = λ h. h;
  is_utf8 = λ bytes. true;
}

one_value-Laws : StrongholdLaws one_value
one_value-Laws = record {
  open-save = λ snapshot secret name key value saved h c c' a made i s.
      (some saved, some saved, refl, refl, some-eq-some' c' i s);
}
  where
    some-eq-some' :
        {value saved : Bytes} (c' : Option Bytes)
        → some (some value) ≡ some c'
        → c' ≡ some saved
        → some (some saved) ≡ some (some value)
    some-eq-some' c' i s = cc

abbrev fresh_meta : QuickUnlockMeta
fresh_meta = record { last_passphrase_auth_unix = some 1000; failed_biometric_attempts = 0 }

abbrev secret_32 : Bytes
secret_32 = codes "0123456789abcdef0123456789abcdef"

abbrev fresh_dir : DataDir
fresh_dir = record {
  device_secret = some secret_32;
  snapshot = some (codes "correct horse");
  meta = some fresh_meta;
  config = some (record {
    server_url = codes "http://10.0.0.2:8787";
    token = codes "t";
    auto_lock_minutes = 5;
  });
  writable = true;
}

load_passphrase-forget_example :
    (is_enabled (load_passphrase one_value none 700000 fresh_dir).1 ≡ false)
    × ((load_passphrase one_value none 700001 (load_passphrase one_value none 700000 fresh_dir).1).0
        ≡ err quick_unlock_unavailable)
load_passphrase-forget_example =
    load_passphrase-forget one_value none none 700000 700001 fresh_dir refl
      (unfold load_passphrase in refl)

fail_times-disabled_example : is_enabled (fail_times 6 fresh_dir) ≡ false
fail_times-disabled_example =
    fail_times-disabled 6 fresh_dir fresh_meta refl refl (omega arith) (omega arith)

abbrev empty_dir : DataDir
empty_dir = record {
  device_secret = none;
  snapshot = none;
  meta = none;
  config = none;
  writable = true;
}

drawn_long : (bytes : Bytes) → some secret_32 ≡ some bytes → length bytes ≡ 32
drawn_long bytes h = ap length (sym (some-eq-some h))

load_passphrase-enable_example :
    load_passphrase one_value none 2000
      (enable one_value (some secret_32) 1000 (codes "correct horse") empty_dir).1
    ≡ (
      ok (codes "correct horse"),
      (enable one_value (some secret_32) 1000 (codes "correct horse") empty_dir).1,
    )
load_passphrase-enable_example =
    load_passphrase-enable one_value one_value-Laws (some secret_32) none 1000 2000
      (codes "correct horse") empty_dir drawn_long refl (unfold enable in refl) (omega arith)

abbrev opened : Result ClientError ℕ → Result ClientError ℕ × Option ℕ
opened r = (r, some 0)

-- The number is how often the vault was opened; the passphrase of one character is the right one.
abbrev counting : VaultOps ℕ ℕ
counting = record {
  is_initialised = λ v. ok true;
  create = λ url token passphrase v. (err vault_exists, some v);
  join = λ url token passphrase v. (ok (v + 1), some v);
  unlock = λ passphrase token v.
      (if length passphrase == 1 then ok (v + 1) else err wrong_passphrase, some v);
  lock = λ u. u;
  add_recovery_keyslot = λ u. (err locked, u);
  list = λ u. [];
  parse_uuid = λ id. none;
  get_meta = λ id u. err not_found;
  open_doc = λ id u. (err not_found, u);
  update_meta = λ id title tags note u. (err not_found, u);
  set_keep_offline = λ id keep u. (err not_found, u);
  delete = λ id u. (err not_found, u);
  sync = λ u. (err network, u);
  cache_limit_mb = λ u. ok 512;
  set_cache_limit_mb = λ limit u. (ok tt, u);
}

abbrev closed : AppState ℕ ℕ
closed = record {
  slot = some (VaultSlot.locked 3);
  last_activity = 0;
  auto_lock_minutes = 5;
  data_dir = fresh_dir;
  background_since = none;
}

step-SlotStep_example :
    SlotStep counting
      (some (VaultSlot.locked 3))
      (step counting one_value (unlock (codes "x")) 900 closed).slot
step-SlotStep_example = step-SlotStep counting one_value (unlock (codes "x")) 900 closed

-- Every passphrase is the right one.
abbrev any_passphrase : VaultOps ℕ ℕ
any_passphrase = record counting { unlock = λ passphrase token v. (ok (v + 1), some v) }

vault_unlock_quick-IsFresh_example :
    (true ≡ true)
    × (is_enabled fresh_dir ≡ true)
    × IsFresh 900 fresh_dir
    × ((vault_unlock_quick any_passphrase one_value true none 900 closed).1.data_dir.meta
        ≡ some fresh_meta)
vault_unlock_quick-IsFresh_example =
    vault_unlock_quick-IsFresh any_passphrase one_value true none 900 closed 3 refl
      (unfold vault_unlock_quick load_passphrase in refl)
