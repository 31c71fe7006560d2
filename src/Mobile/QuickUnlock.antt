-- ===== src/Mobile/QuickUnlock.antt =====
-- quick_unlock.rs: the passphrase kept behind biometrics. The plugin Stronghold, the clock and the
-- generator are parameters; a function gives its answer and the directory it leaves.
pub mod Expiry
pub mod RoundTrip
use scrigno.Prelude.{
  ℕ, ◌+◌, ◌-◌, ◌*◌, ◌%◌, ◌^◌, Bool, true, false, not, ◌&&◌, ◌||◌, Option, none, some, length, ltb,
  leb, ◌==◌, if◌then◌else◌, Result, ok, err, ok_or,
}
use scrigno.Prelude.Bytes.{Bytes, codes}
use scrigno.Mobile.{
  AppError, config_error, quick_unlock_unavailable, quick_unlock_reauth_required, QuickUnlockMeta,
  DataDir,
}

abbrev stronghold_client : Bytes
stronghold_client = codes "scrigno-quick-unlock"

abbrev store_key_passphrase : Bytes
store_key_passphrase = codes "passphrase"

abbrev pub reauth_max_age_secs : ℕ
reauth_max_age_secs = 7 * 24 * 3600

abbrev pub max_failed_attempts : ℕ
max_failed_attempts = 5

-- `Stronghold`: opened on a snapshot, where there is one, with a key; clients by name, and the store
-- of a client.
pub record Strongholds (Handle : Type 0) : Type 0 where
  pub open_snapshot : Option Bytes → Bytes → Option Handle
  pub create_client : Bytes → Handle → Option Handle
  pub load_client : Bytes → Handle → Option Handle
  pub insert : Bytes → Bytes → Handle → Option Handle
  pub get : Bytes → Handle → Option (Option Bytes)
  pub save : Handle → Option Bytes
  pub is_utf8 : Bytes → Bool

-- A missing file and one that cannot be parsed are the default.
load_meta : DataDir → QuickUnlockMeta
load_meta dir = elim dir.meta [
  | none ↦ record { last_passphrase_auth_unix = none; failed_biometric_attempts = 0 }
  | some meta ↦ meta
]

save_meta : QuickUnlockMeta → DataDir → Result AppError (Unit {0}) × DataDir
save_meta meta dir =
    if dir.writable then (ok tt, record dir { meta = some meta }) else (err config_error, dir)

write_secret : Option Bytes → DataDir → Result AppError Bytes × DataDir
write_secret none dir = (err config_error, dir)
write_secret (some secret) dir =
    if dir.writable
    then (ok secret, record dir { device_secret = some secret })
    else (err config_error, dir)

-- The draw is of 32 bytes, `none` where the generator fails.
pub load_or_create_device_secret : Option Bytes → DataDir → Result AppError Bytes × DataDir
unfolding write_secret
load_or_create_device_secret drawn dir = elim dir.device_secret [
  | none ↦ write_secret drawn dir
  | some bytes ↦ if length bytes == 32 then (ok bytes, dir) else write_secret drawn dir
]

abbrev present : Option Bytes → Bool
present none = false
present (some bytes) = true

unfoldable pub is_enabled : DataDir → Bool
is_enabled dir = present dir.device_secret && present dir.snapshot

pub record_passphrase_auth : ℕ → DataDir → Result AppError (Unit {0}) × DataDir
unfolding load_meta save_meta
record_passphrase_auth now dir =
    save_meta (record { last_passphrase_auth_unix = some now; failed_biometric_attempts = 0 }) dir

-- The three files; config.json stays. A file that cannot be removed is left, without an error.
pub forget : DataDir → DataDir
forget dir =
    if dir.writable then record dir { device_secret = none; snapshot = none; meta = none } else dir

-- `unwrap_or(false)` of the age; `saturating_sub` is the subtraction of the model.
recent : ℕ → Option ℕ → Bool
recent now none = false
recent now (some t) = ltb (now - t) reauth_max_age_secs

module _ {Handle : Type 0} (strongholds : Strongholds Handle) where
  -- The part of `enable` that Stronghold does.
  sealed_snapshot : Bytes → Bytes → Option Bytes → Option Bytes
  sealed_snapshot passphrase secret snapshot = elim (strongholds.open_snapshot snapshot secret) [
    | none ↦ none
    | some h ↦
        let client : Option Handle = elim (strongholds.create_client stronghold_client h) [
          | none ↦ strongholds.load_client stronghold_client h
          | some c ↦ some c
        ] in
        elim client [
          | none ↦ none
          | some c ↦ elim (strongholds.insert store_key_passphrase passphrase c) [
            | none ↦ none
            | some c' ↦ strongholds.save c'
          ]
        ]
  ]

  unfoldable pub enable : Option Bytes → ℕ → Bytes → DataDir → Result AppError (Unit {0}) × DataDir
  unfolding load_or_create_device_secret sealed_snapshot record_passphrase_auth
  enable drawn now passphrase dir =
      let (loaded, dir') = load_or_create_device_secret drawn dir in
      elim loaded [
        | err e ↦ (err e, dir')
        | ok secret ↦ elim (sealed_snapshot passphrase secret dir'.snapshot) [
          | none ↦ (err config_error, dir')
          | some snapshot ↦
              if dir'.writable
              then record_passphrase_auth now (record dir' { snapshot = some snapshot })
              else (err config_error, dir')
        ]
      ]

  -- The passphrase of a snapshot.
  opened_passphrase : Bytes → Option Bytes → Result AppError Bytes
  opened_passphrase secret snapshot = elim (strongholds.open_snapshot snapshot secret) [
    | none ↦ err config_error
    | some h ↦ elim (strongholds.load_client stronghold_client h) [
      | none ↦ err quick_unlock_unavailable
      | some c ↦ elim (strongholds.get store_key_passphrase c) [
        | none ↦ err quick_unlock_unavailable
        | some none ↦ err quick_unlock_unavailable
        | some (some bytes) ↦
            if strongholds.is_utf8 bytes then ok bytes else err quick_unlock_unavailable
      ]
    ]
  ]

  unfoldable pub load_passphrase : Option Bytes → ℕ → DataDir → Result AppError Bytes × DataDir
  unfolding is_enabled load_meta recent forget load_or_create_device_secret opened_passphrase
  load_passphrase drawn now dir =
      if not (is_enabled dir)
      then (err quick_unlock_unavailable, dir)
      else if not (recent now (load_meta dir).last_passphrase_auth_unix)
          || leb max_failed_attempts (load_meta dir).failed_biometric_attempts
      then (err quick_unlock_reauth_required, forget dir)
      else (let (loaded, dir') = load_or_create_device_secret drawn dir in
          elim loaded [
            | err e ↦ (err e, dir')
            | ok secret ↦ (opened_passphrase secret dir'.snapshot, dir')
          ])

-- The counter is a `u32`.
pub record_failed_biometric_attempt : DataDir → Result AppError (Unit {0}) × DataDir
unfolding load_meta save_meta forget
record_failed_biometric_attempt dir =
    let meta = load_meta dir in
    let attempts = (meta.failed_biometric_attempts + 1) % 2 ^ 32 in
    let (saved, dir') = save_meta (record meta { failed_biometric_attempts = attempts }) dir in
    elim saved [
      | err e ↦ (err e, dir')
      | ok u ↦ if leb max_failed_attempts attempts then (ok tt, forget dir') else (ok tt, dir')
    ]
