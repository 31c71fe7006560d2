-- ===== src/Mobile/QuickUnlock/RoundTrip.antt =====
-- The passphrase that was stored is given back while the quick unlock is fresh.
use scrigno.Prelude.{
  ℕ, ◌-◌, ◌<◌, ◌≡◌, refl, ap, sym, ◌∙◌, true, false, Option, none, some, ltb, leb, length, ◌==◌,
  ◌⊎◌, Bool-cases, Option-cases, Result-cases, inl, inr, ok, ok-eq-ok, arith,
}
use scrigno.Prelude.Bytes.{Bytes}
use scrigno.Mobile.{DataDir}
use scrigno.Mobile.QuickUnlock.{
  Strongholds, stronghold_client, store_key_passphrase, reauth_max_age_secs, max_failed_attempts,
  is_enabled, load_meta, recent, load_or_create_device_secret, write_secret, sealed_snapshot,
  opened_passphrase, enable, load_passphrase,
}

-- What the plugin's documentation says: what was put into a client's store is there after the snapshot
-- is saved and opened again with its key.
pub record StrongholdLaws {Handle : Type 0} (s : Strongholds Handle) : Type 0 where
  pub open-save :
      (snapshot : Option Bytes) (secret name key value saved : Bytes) (h c c' : Handle)
      → s.open_snapshot snapshot secret ≡ some h
      → (s.create_client name h ≡ some c) ⊎ (s.load_client name h ≡ some c)
      → s.insert key value c ≡ some c'
      → s.save c' ≡ some saved
      → (h' : Handle) × (c'' : Handle) × (s.open_snapshot (some saved) secret ≡ some h')
        × (s.load_client name h' ≡ some c'')
        × (s.get key c'' ≡ some (some value))

secret_written :
    (drawn : Option Bytes) (dir : DataDir) (secret : Bytes)
    → (write_secret drawn dir).0 ≡ ok secret
    → (drawn ≡ some secret) × ((write_secret drawn dir).1.device_secret ≡ some secret)
unfolding write_secret
secret_written none dir secret h = cc
secret_written (some bytes) dir secret h = elim (Bool-cases dir.writable) [
  | inl w ↦
      let same : bytes ≡ secret = ok-eq-ok (simp (write_secret, w) at h) in
      (ap some same, simp (write_secret, w, same))
  | inr w ↦ cc (simp (write_secret, w) at h)
]

-- The secret that is used is the one in the directory.
secret_kept :
    (drawn : Option Bytes) (dir : DataDir) (secret : Bytes)
    → ((bytes : Bytes) → drawn ≡ some bytes → length bytes ≡ 32)
    → (load_or_create_device_secret drawn dir).0 ≡ ok secret
    → ((load_or_create_device_secret drawn dir).1.device_secret ≡ some secret)
      × (length secret ≡ 32)
unfolding load_or_create_device_secret
secret_kept drawn dir secret long h = elim (Option-cases dir.device_secret) [
  | inl n ↦
      let (d, k) = secret_written drawn dir secret (simp (load_or_create_device_secret, n) at h) in
      (simp (load_or_create_device_secret, n) k, long secret d)
  | inr (bytes, n) ↦ elim (Bool-cases (length bytes == 32)) [
    | inl e ↦
        let same : bytes ≡ secret = ok-eq-ok (simp (load_or_create_device_secret, n, e) at h) in
        (
          simp (load_or_create_device_secret, n, e) (ap some same),
          omega (arith, ap length same, length_32 bytes e),
        )
    | inr e ↦
        let (d, k) =
          secret_written drawn dir secret (simp (load_or_create_device_secret, n, e) at h) in
        (simp (load_or_create_device_secret, n, e) k, long secret d)
  ]
]
  where
    length_32 : (bytes : Bytes) → (length bytes == 32) ≡ true → length bytes ≡ 32
    length_32 bytes e = ground arith

-- A secret of 32 bytes that is there is used as it is.
secret_found :
    (drawn : Option Bytes) (dir : DataDir) (secret : Bytes)
    → dir.device_secret ≡ some secret
    → length secret ≡ 32
    → load_or_create_device_secret drawn dir ≡ (ok secret, dir)
unfolding load_or_create_device_secret
secret_found drawn dir secret h l =
    let e : length secret == 32 ≡ true = ground arith in simp (load_or_create_device_secret, h, e)

-- A directory with fresh files.
load_fresh :
    {Handle : Type 0} (strongholds : Strongholds Handle) (drawn : Option Bytes) (now : ℕ)
    (dir : DataDir) (secret passphrase : Bytes)
    → is_enabled dir ≡ true
    → recent now (load_meta dir).last_passphrase_auth_unix ≡ true
    → leb max_failed_attempts (load_meta dir).failed_biometric_attempts ≡ false
    → load_or_create_device_secret drawn dir ≡ (ok secret, dir)
    → opened_passphrase strongholds secret dir.snapshot ≡ ok passphrase
    → load_passphrase strongholds drawn now dir ≡ (ok passphrase, dir)
unfolding load_passphrase
load_fresh strongholds drawn now dir secret passphrase a b c d e =
    simp (load_passphrase, a, b, c, d, e)

module _ {Handle : Type 0} (strongholds : Strongholds Handle)
    (laws : StrongholdLaws strongholds) where
  snapshot-opens :
      (passphrase secret saved : Bytes) (snapshot : Option Bytes)
      → sealed_snapshot strongholds passphrase secret snapshot ≡ some saved
      → strongholds.is_utf8 passphrase ≡ true
      → opened_passphrase strongholds secret (some saved) ≡ ok passphrase
  unfolding sealed_snapshot opened_passphrase
  snapshot-opens passphrase secret saved snapshot h utf8 =
      elim (Option-cases (strongholds.open_snapshot snapshot secret)) [
        | inl a ↦ cc (rw (sealed_snapshot, a) at h)
        | inr (handle, a) ↦
            elim (Option-cases (strongholds.create_client stronghold_client handle)) [
              | inl b ↦ elim (Option-cases (strongholds.load_client stronghold_client handle)) [
                | inl d ↦ cc (rw (sealed_snapshot, a, b, d) at h)
                | inr (c, d) ↦
                    inserted passphrase secret saved snapshot handle c utf8 a (inr d)
                      (rw (sealed_snapshot, a, b, d) at h)
              ]
              | inr (c, b) ↦
                  inserted passphrase secret saved snapshot handle c utf8 a (inl b)
                    (rw (sealed_snapshot, a, b) at h)
            ]
      ]
    where
      inserted :
          (passphrase secret saved : Bytes) (snapshot : Option Bytes) (handle c : Handle)
          → strongholds.is_utf8 passphrase ≡ true
          → strongholds.open_snapshot snapshot secret ≡ some handle
          → (strongholds.create_client stronghold_client handle ≡ some c)
            ⊎ (strongholds.load_client stronghold_client handle ≡ some c)
          → (elim (strongholds.insert store_key_passphrase passphrase c) as (λ _. Option Bytes) [
            | none ↦ none
            | some c' ↦ strongholds.save c'
          ])
            ≡ some saved
          → opened_passphrase strongholds secret (some saved) ≡ ok passphrase
      inserted passphrase secret saved snapshot handle c utf8 a made h =
          elim (Option-cases (strongholds.insert store_key_passphrase passphrase c)) [
            | inl i ↦ cc (rw i at h)
            | inr (c', i) ↦
                let (h', c'', p, q, r) =
                  laws.open-save snapshot secret stronghold_client store_key_passphrase passphrase
                    saved handle c c' a made i (rw i at h) in
                rw (opened_passphrase, p, q, r, utf8) refl
          ]

  -- A passphrase of UTF-8 that was stored is given back for seven days, and later calls see the same.
  -- The device secret is of 32 bytes where it is drawn, and Stronghold keeps its law.
  pub load_passphrase-enable :
      (drawn drawn' : Option Bytes) (now later : ℕ) (passphrase : Bytes) (dir : DataDir)
      → ((bytes : Bytes) → drawn ≡ some bytes → length bytes ≡ 32)
      → strongholds.is_utf8 passphrase ≡ true
      → (enable strongholds drawn now passphrase dir).0 ≡ ok tt
      → later - now < reauth_max_age_secs
      → load_passphrase strongholds drawn' later (enable strongholds drawn now passphrase dir).1
        ≡ (ok passphrase, (enable strongholds drawn now passphrase dir).1)
  unfolding enable load_passphrase
  load_passphrase-enable drawn drawn' now later passphrase dir long utf8 h fresh =
      let dir' = (load_or_create_device_secret drawn dir).1 in
      elim (Result-cases (load_or_create_device_secret drawn dir).0) [
        | inl (x, l) ↦ cc (simp (enable, l) at h)
        | inr (secret, l) ↦
            elim (Option-cases (sealed_snapshot strongholds passphrase secret dir'.snapshot)) [
              | inl s ↦ cc (simp (enable, l, s) at h)
              | inr (saved, s) ↦ elim (Bool-cases dir'.writable) [
                | inr w ↦ cc (simp (enable, l, s, w) at h)
                | inl w ↦
                    let (kept, size) = secret_kept drawn dir secret long l in
                    let after : DataDir = record dir' {
                      snapshot = some saved;
                      meta = some (record {
                        last_passphrase_auth_unix = some now;
                        failed_biometric_attempts = 0;
                      });
                    } in
                    let enabled : (enable strongholds drawn now passphrase dir).1 ≡ after =
                      simp (enable, l, s, w) in
                    let young : ltb (later - now) reauth_max_age_secs ≡ true = ground arith in
                    let found = secret_found drawn' after secret kept size in
                    let opens = snapshot-opens passphrase secret saved dir'.snapshot s utf8 in
                    let loads =
                      load_fresh strongholds drawn' later after secret passphrase
                        (unfold is_enabled in rw kept refl) (unfold recent load_meta in young)
                        (unfold load_meta in refl) found opens in
                    ap (load_passphrase strongholds drawn' later) enabled
                    ∙ loads
                    ∙ ap (λ d. (ok passphrase, d)) (sym enabled)
              ]
            ]
      ]
