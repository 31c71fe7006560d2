-- ===== src/Mobile/QuickUnlock/Expiry.antt =====
-- When the quick unlock is given, and when it is gone.
use scrigno.Prelude.{
  ℕ, zero, suc, ◌+◌, ◌-◌, ◌%◌, ◌^◌, ◌<◌, ◌≤◌, ◌≡◌, ◌≢◌, refl, ap, ◌∙◌, true, false, not, ◌||◌,
  Option, none, some, ltb, leb, if◌then◌else◌, Bool-cases, Option-cases, Result-cases, inl, inr, ok,
  err, arith,
}
use scrigno.Prelude.Bytes.{Bytes}
use scrigno.Mobile.{
  quick_unlock_unavailable, quick_unlock_reauth_required, QuickUnlockMeta, DataDir,
}
use scrigno.Mobile.QuickUnlock.{
  Strongholds, reauth_max_age_secs, max_failed_attempts, is_enabled, stronghold_client,
  store_key_passphrase, opened_passphrase, load_or_create_device_secret, write_secret, load_meta,
  recent, forget, load_passphrase, record_failed_biometric_attempt, save_meta,
}

-- The passphrase was entered less than seven days ago, and fewer than five attempts have failed since.
pub record IsFresh (now : ℕ) (dir : DataDir) : Type 0 where
  pub meta : QuickUnlockMeta
  pub time : ℕ
  pub kept : dir.meta ≡ some meta
  pub entered : meta.last_passphrase_auth_unix ≡ some time
  pub age : now - time < reauth_max_age_secs
  pub attempts : meta.failed_biometric_attempts < max_failed_attempts

module _ {Handle : Type 0} (strongholds : Strongholds Handle) where
  -- A passphrase is given only where the quick unlock is enabled and fresh.
  pub load_passphrase-IsFresh :
      (drawn : Option Bytes) (now : ℕ) (dir : DataDir) (passphrase : Bytes)
      → (load_passphrase strongholds drawn now dir).0 ≡ ok passphrase
      → (is_enabled dir ≡ true) × IsFresh now dir
  unfolding load_passphrase load_meta
  load_passphrase-IsFresh drawn now dir passphrase h = elim (Bool-cases (is_enabled dir)) [
    | inr e ↦ cc (simp (load_passphrase, e) at h)
    | inl e ↦ elim (Option-cases dir.meta) [
      | inl m ↦ cc (simp (load_passphrase, e, m, recent) at h)
      | inr (meta, m) ↦ elim (Option-cases meta.last_passphrase_auth_unix) [
        | inl t ↦ cc (simp (load_passphrase, e, m, t, recent) at h)
        | inr (time, t) ↦ elim (Bool-cases (ltb (now - time) reauth_max_age_secs)) [
          | inr a ↦ cc (simp (load_passphrase, e, m, t, recent, a) at h)
          | inl a ↦ elim (Bool-cases (leb max_failed_attempts meta.failed_biometric_attempts)) [
            | inl f ↦ cc (simp (load_passphrase, e, m, t, recent, a, f) at h)
            | inr f ↦ (
              e,
              record {
                meta = meta;
                time = time;
                kept = m;
                entered = t;
                age = ground arith;
                attempts = ground arith;
              },
            )
          ]
        ]
      ]
    ]
  ]

  load_passphrase-disabled :
      (drawn : Option Bytes) (now : ℕ) (dir : DataDir)
      → is_enabled dir ≡ false
      → (load_passphrase strongholds drawn now dir).0 ≡ err quick_unlock_unavailable
  unfolding load_passphrase
  load_passphrase-disabled drawn now dir e = simp (load_passphrase, e)

  -- Only the check of age and attempts answers so.
  opened-ne-reauth :
      (secret : Bytes) (snapshot : Option Bytes)
      → opened_passphrase strongholds secret snapshot ≢ err quick_unlock_reauth_required
  unfolding opened_passphrase
  opened-ne-reauth secret snapshot h =
      elim (Option-cases (strongholds.open_snapshot snapshot secret)) [
        | inl a ↦ cc (rw (opened_passphrase, a) at h)
        | inr (handle, a) ↦ elim (Option-cases (strongholds.load_client stronghold_client handle)) [
          | inl b ↦ cc (rw (opened_passphrase, a, b) at h)
          | inr (c, b) ↦ elim (Option-cases (strongholds.get store_key_passphrase c)) [
            | inl d ↦ cc (rw (opened_passphrase, a, b, d) at h)
            | inr (found, d) ↦ elim (Option-cases found) [
              | inl f ↦ cc (rw (opened_passphrase, a, b, d ∙ ap some f) at h)
              | inr (bytes, f) ↦ elim (Bool-cases (strongholds.is_utf8 bytes)) [
                | inl u ↦ cc (rw (opened_passphrase, a, b, d ∙ ap some f, u) at h)
                | inr u ↦ cc (rw (opened_passphrase, a, b, d ∙ ap some f, u) at h)
              ]
            ]
          ]
        ]
      ]

  secret-ne-reauth :
      (drawn : Option Bytes) (dir : DataDir)
      → (load_or_create_device_secret drawn dir).0 ≢ err quick_unlock_reauth_required
  unfolding load_or_create_device_secret write_secret
  secret-ne-reauth drawn dir h = ground arith

  load_passphrase-stale :
      (drawn : Option Bytes) (now : ℕ) (dir : DataDir)
      → (load_passphrase strongholds drawn now dir).0 ≡ err quick_unlock_reauth_required
      → (load_passphrase strongholds drawn now dir).1 ≡ forget dir
  unfolding load_passphrase
  load_passphrase-stale drawn now dir h = elim (Bool-cases (is_enabled dir)) [
    | inr e ↦ cc (simp (load_passphrase, e) at h)
    | inl e ↦
        elim (Bool-cases (
          not (recent now (load_meta dir).last_passphrase_auth_unix)
          || leb max_failed_attempts (load_meta dir).failed_biometric_attempts)) [
            | inl s ↦ simp (load_passphrase, e, s)
            | inr s ↦ elim (Result-cases (load_or_create_device_secret drawn dir).0) [
              | inl (x, l) ↦
                  absurd (secret-ne-reauth drawn dir (l ∙ (simp (load_passphrase, e, s, l) at h)))
              | inr (secret, l) ↦ absurd (
                  opened-ne-reauth secret (load_or_create_device_secret drawn dir).1.snapshot
                    (simp (load_passphrase, e, s, l) at h))
            ]
          ]
  ]

  secret-meta :
      (drawn : Option Bytes) (dir : DataDir)
      → (load_or_create_device_secret drawn dir).1.meta ≡ dir.meta
  unfolding load_or_create_device_secret write_secret
  secret-meta drawn dir = ground arith

  -- Giving the passphrase does not make the quick unlock fresh again.
  pub load_passphrase-meta :
      (drawn : Option Bytes) (now : ℕ) (dir : DataDir) (passphrase : Bytes)
      → (load_passphrase strongholds drawn now dir).0 ≡ ok passphrase
      → (load_passphrase strongholds drawn now dir).1.meta ≡ dir.meta
  unfolding load_passphrase
  load_passphrase-meta drawn now dir passphrase h = elim (Bool-cases (is_enabled dir)) [
    | inr e ↦ cc (simp (load_passphrase, e) at h)
    | inl e ↦
        elim (Bool-cases (
          not (recent now (load_meta dir).last_passphrase_auth_unix)
          || leb max_failed_attempts (load_meta dir).failed_biometric_attempts)) [
            | inl s ↦ cc (simp (load_passphrase, e, s) at h)
            | inr s ↦ elim (Result-cases (load_or_create_device_secret drawn dir).0) [
              | inl (x, l) ↦ simp (load_passphrase, e, s, l) (secret-meta drawn dir)
              | inr (secret, l) ↦ simp (load_passphrase, e, s, l) (secret-meta drawn dir)
            ]
          ]
  ]

  -- A refusal for age or failed attempts on a directory that can be written ends the quick unlock:
  -- every later call finds it not enabled.
  pub load_passphrase-forget :
      (drawn drawn' : Option Bytes) (now later : ℕ) (dir : DataDir)
      → dir.writable ≡ true
      → (load_passphrase strongholds drawn now dir).0 ≡ err quick_unlock_reauth_required
      → (is_enabled (load_passphrase strongholds drawn now dir).1 ≡ false)
        × ((load_passphrase strongholds drawn' later
              (load_passphrase strongholds drawn now dir).1).0
            ≡ err quick_unlock_unavailable)
  unfolding forget is_enabled
  load_passphrase-forget drawn drawn' now later dir w h =
      let after = load_passphrase-stale drawn now dir h in
      let gone : is_enabled (load_passphrase strongholds drawn now dir).1 ≡ false =
        ap is_enabled after ∙ simp (forget, w) in
      (
        gone,
        load_passphrase-disabled drawn' later (load_passphrase strongholds drawn now dir).1 gone,
      )

-- The failed attempts of biometrics, one after another.
unfoldable pub fail_times : ℕ → DataDir → DataDir
fail_times zero dir = dir
fail_times (suc n) dir = fail_times n (record_failed_biometric_attempt dir).1

failed_once :
    (dir : DataDir) (meta : QuickUnlockMeta)
    → dir.writable ≡ true
    → dir.meta ≡ some meta
    → meta.failed_biometric_attempts < max_failed_attempts
    → (record_failed_biometric_attempt dir).1 ≡ (
        if leb max_failed_attempts (meta.failed_biometric_attempts + 1)
        then record dir { device_secret = none; snapshot = none; meta = none }
        else record dir {
          meta =
              some (record meta { failed_biometric_attempts = meta.failed_biometric_attempts + 1 });
        })
unfolding record_failed_biometric_attempt
failed_once dir meta w m few =
    let small : (meta.failed_biometric_attempts + 1) % 2 ^ 32 ≡ meta.failed_biometric_attempts + 1 =
      omega arith in
    elim (Bool-cases (leb max_failed_attempts (meta.failed_biometric_attempts + 1))) [
      | inl f ↦ simp (record_failed_biometric_attempt, load_meta, save_meta, forget, m, w, small, f)
      | inr f ↦ simp (record_failed_biometric_attempt, load_meta, save_meta, forget, m, w, small, f)
    ]

failed-disabled :
    (dir : DataDir)
    → dir.device_secret ≡ none
    → (record_failed_biometric_attempt dir).1.device_secret ≡ none
unfolding record_failed_biometric_attempt
failed-disabled dir h = ground arith

disabled_stays :
    (n : ℕ) (dir : DataDir) → dir.device_secret ≡ none → (fail_times n dir).device_secret ≡ none
unfolding fail_times
disabled_stays zero dir h = h
disabled_stays (suc n) dir h =
    disabled_stays n (record_failed_biometric_attempt dir).1 (failed-disabled dir h)

without_secret :
    (n : ℕ) (dir : DataDir) (meta : QuickUnlockMeta)
    → dir.writable ≡ true
    → dir.meta ≡ some meta
    → meta.failed_biometric_attempts < max_failed_attempts
    → max_failed_attempts ≤ meta.failed_biometric_attempts + n
    → (fail_times n dir).device_secret ≡ none
unfolding fail_times
without_secret zero dir meta w m few enough = absurd (omega arith)
without_secret (suc n) dir meta w m few enough =
    let once = failed_once dir meta w m few in
    let more : QuickUnlockMeta = record meta {
      failed_biometric_attempts = meta.failed_biometric_attempts + 1;
    } in
    let gone : DataDir = record dir { device_secret = none; snapshot = none; meta = none } in
    let counted : DataDir = record dir { meta = some more } in
    elim (Bool-cases (leb max_failed_attempts (meta.failed_biometric_attempts + 1))) [
      | inl f ↦
          let after : (record_failed_biometric_attempt dir).1 ≡ gone = once ∙ rw f in
          ap (λ d. (fail_times n d).device_secret) after ∙ disabled_stays n gone refl
      | inr f ↦
          let after : (record_failed_biometric_attempt dir).1 ≡ counted = once ∙ rw f in
          ap (λ d. (fail_times n d).device_secret) after
          ∙ without_secret n counted more w refl (ground arith) (omega arith)
    ]

-- Once five attempts have failed since the passphrase was entered, the quick unlock is gone, however
-- many fail after them, where the directory can be written.
pub fail_times-disabled :
    (n : ℕ) (dir : DataDir) (meta : QuickUnlockMeta)
    → dir.writable ≡ true
    → dir.meta ≡ some meta
    → meta.failed_biometric_attempts < max_failed_attempts
    → max_failed_attempts ≤ meta.failed_biometric_attempts + n
    → is_enabled (fail_times n dir) ≡ false
unfolding is_enabled
fail_times-disabled n dir meta w m few enough = rw (without_secret n dir meta w m few enough) refl
