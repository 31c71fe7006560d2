-- ===== src/Client/Vault/Bootstrap/Unlocks.antt =====
-- A vault that was created is unlocked by its passphrase.
use scrigno.Prelude.{◌≡◌, refl, ◌∙◌, ap, false, none, some, length, ok, if◌then◌else◌}
use scrigno.Prelude.Bytes.{Bytes, codes, same_bytes, same_bytes_refl}
use scrigno.Server
use scrigno.Server.{Uuid}
use scrigno.Server.Vault.{NewKeyslot, Vault}
use scrigno.Core.{MasterKey, VaultId, KeyslotId, Kek, Aead, AeadLaws, generate_master_key}
use scrigno.Core.Kdf.{KdfParams, Argon2, generate_default, derive_kek}
use scrigno.Core.Wrap.{WrappedKey, wrap_mk, unwrap_mk, as_bytes, nonce_len}
use scrigno.Core.Wrap.Keys.{unwrap_mk-wrap_mk}
use scrigno.Core.Meta.{Json}
use scrigno.Client.Store.{Store, kv_get, kv_set}
use scrigno.Client.Store.Numbers.{to_string}
use scrigno.Client.Store.Tables.{kv_get-kv_set}
use scrigno.Client.Vault.{UnlockedVault, kv_cursor, kv_cache_limit_mb, default_cache_limit_mb}
use scrigno.Client.Vault.Bootstrap.{
  kv_vault_id, kv_server_url, kv_keyslot_id, kv_keyslot_json, kv_device_id, Keyslot, Texts,
  TextLaws, VaultApi, Seeds, NewSlot, find_slot, persist_ids, persist_rest, persist_bootstrap,
  build_new_keyslot, new_vault, prepare, local_keyslot, create, stored_key, server_url_of, unlocked,
  unlock,
}

kv_get-same : (key value : Bytes) (s : Store) → kv_get key (kv_set key value s) ≡ some value
kv_get-same key value s = kv_get-kv_set key key value s ∙ rw (same_bytes_refl key) refl

kv_get-other :
    (key other value : Bytes) (s : Store)
    → same_bytes other key ≡ false
    → kv_get key (kv_set other value s) ≡ kv_get key s
kv_get-other key other value s apart =
    let known : (if same_bytes other key then some value else kv_get key s) ≡ kv_get key s =
      rw apart refl in
    kv_get-kv_set key other value s ∙ known

-- What is read back of a bootstrap.
pub persisted :
    (texts : Texts) (vault_id device_id : Uuid) (keyslot : Keyslot) (url text : Bytes) (s : Store)
    → (kv_get kv_vault_id
          (persist_rest texts text device_id (persist_ids texts vault_id keyslot url s))
        ≡ some (texts.uuid_text vault_id))
      × (kv_get kv_keyslot_json
            (persist_rest texts text device_id (persist_ids texts vault_id keyslot url s))
          ≡ some text)
      × (kv_get kv_server_url
            (persist_rest texts text device_id (persist_ids texts vault_id keyslot url s))
          ≡ some url)
unfolding persist_ids persist_rest same_bytes
persisted texts vault_id device_id keyslot url text s =
    let s1 = kv_set kv_vault_id (texts.uuid_text vault_id) s in
    let s2 = kv_set kv_server_url url s1 in
    let s3 = kv_set kv_keyslot_id (texts.uuid_text keyslot.id.uuid) s2 in
    let s4 = kv_set kv_keyslot_json text s3 in
    let s5 = kv_set kv_cursor (codes "0") s4 in
    let s6 = kv_set kv_device_id (texts.uuid_text device_id) s5 in
    let limit = to_string default_cache_limit_mb in
    (
      kv_get-other kv_vault_id kv_cache_limit_mb limit s6 refl
          ∙ kv_get-other kv_vault_id kv_device_id (texts.uuid_text device_id) s5 refl
          ∙ kv_get-other kv_vault_id kv_cursor (codes "0") s4 refl
          ∙ kv_get-other kv_vault_id kv_keyslot_json text s3 refl
          ∙ kv_get-other kv_vault_id kv_keyslot_id (texts.uuid_text keyslot.id.uuid) s2 refl
          ∙ kv_get-other kv_vault_id kv_server_url url s1 refl
          ∙ kv_get-same kv_vault_id (texts.uuid_text vault_id) s,
      kv_get-other kv_keyslot_json kv_cache_limit_mb limit s6 refl
          ∙ kv_get-other kv_keyslot_json kv_device_id (texts.uuid_text device_id) s5 refl
          ∙ kv_get-other kv_keyslot_json kv_cursor (codes "0") s4 refl
          ∙ kv_get-same kv_keyslot_json text s3,
      kv_get-other kv_server_url kv_cache_limit_mb limit s6 refl
          ∙ kv_get-other kv_server_url kv_device_id (texts.uuid_text device_id) s5 refl
          ∙ kv_get-other kv_server_url kv_cursor (codes "0") s4 refl
          ∙ kv_get-other kv_server_url kv_keyslot_json text s3 refl
          ∙ kv_get-other kv_server_url kv_keyslot_id (texts.uuid_text keyslot.id.uuid) s2 refl
          ∙ kv_get-same kv_server_url url s1,
    )

pub persist_bootstrap-written :
    (texts : Texts) (vault_id device_id : Uuid) (keyslot : Keyslot) (url text : Bytes) (s : Store)
    → texts.keyslot_text keyslot ≡ some text
    → persist_bootstrap texts vault_id keyslot url device_id s
      ≡ (ok tt, persist_rest texts text device_id (persist_ids texts vault_id keyslot url s))
unfolding persist_bootstrap
persist_bootstrap-written texts vault_id device_id keyslot url text s h =
    rw (persist_bootstrap, h) refl

module _ (aead : Aead) (json : Json) (argon2 : Argon2) (texts : Texts) where
  pub stored_key-found :
      (secret text : Bytes) (vault_id : Uuid) (keyslot : Keyslot) (kek : Kek) (mk : MasterKey)
      (s : Store)
      → kv_get kv_vault_id s ≡ some (texts.uuid_text vault_id)
      → texts.parse_uuid (texts.uuid_text vault_id) ≡ some vault_id
      → kv_get kv_keyslot_json s ≡ some text
      → texts.parse_keyslot text ≡ some keyslot
      → derive_kek argon2 secret keyslot.kdf ≡ ok kek
      → unwrap_mk aead kek (record { uuid = vault_id }) keyslot.id keyslot.wrapped_mk ≡ ok mk
      → stored_key aead json argon2 texts secret s ≡ ok (vault_id, mk)
  unfolding stored_key
  stored_key-found secret text vault_id keyslot kek mk s a b c d e f = rw (a, b, c, d, e, f) refl

  pub unlock-found :
      {Remote : Type 0} (api : VaultApi Remote) (secret url : Bytes) (vault_id : Uuid)
      (mk : MasterKey) (s : Store)
      → stored_key aead json argon2 texts secret s ≡ ok (vault_id, mk)
      → kv_get kv_server_url s ≡ some url
      → api.http_new url ≡ ok tt
      → (w : UnlockedVault) × ((unlock aead json argon2 texts api secret none s).0 ≡ ok w)
        × (w.mk ≡ mk)
        × (w.vault_id ≡ vault_id)
        × (w.store ≡ s)
  unfolding unlock server_url_of unlocked
  unlock-found api secret url vault_id mk s found address http = (
    unlocked aead json argon2 texts vault_id mk s,
    rw (unlock, found, address, http) refl,
    refl,
    refl,
    refl,
  )

  build_new_keyslot-made :
      (secret kind value : Bytes) (vault_id : Uuid) (mk : MasterKey) (seeds : Seeds)
      (kdf : KdfParams) (kek : Kek) (wrapped : WrappedKey)
      → generate_default seeds.salt ≡ ok kdf
      → derive_kek argon2 secret kdf ≡ ok kek
      → wrap_mk aead kek
          (record { uuid = vault_id })
          (record { uuid = seeds.keyslot_id })
          mk
          seeds.nonce
        ≡ ok wrapped
      → texts.kdf_value kdf ≡ some value
      → build_new_keyslot aead json argon2 texts secret vault_id mk kind seeds
        ≡ ok (record {
          id = record { uuid = seeds.keyslot_id };
          kdf = kdf;
          wrapped_mk = wrapped;
          wire = record {
            id = seeds.keyslot_id;
            kind = kind;
            kdf = value;
            wrapped_mk = as_bytes wrapped;
          };
        })
  unfolding build_new_keyslot
  build_new_keyslot-made secret kind value vault_id mk seeds kdf kek wrapped a b c d =
      rw (a, b, c, d) refl

  prepare-made :
      {Remote : Type 0} (api : VaultApi Remote) (url secret : Bytes) (seeds : Seeds)
      (mk : MasterKey) (slot : NewSlot)
      → generate_master_key seeds.key ≡ ok mk
      → build_new_keyslot aead json argon2 texts secret seeds.vault_id mk (codes "passphrase") seeds
        ≡ ok slot
      → api.http_new url ≡ ok tt
      → prepare aead json argon2 texts api url secret seeds ≡ ok (mk, slot)
  unfolding prepare
  prepare-made api url secret seeds mk slot a b c = rw (a, b, c) refl

  create-made :
      {Remote : Type 0} (api : VaultApi Remote) (url secret text : Bytes) (seeds : Seeds)
      (store : Store) (remote : Remote) (mk : MasterKey) (slot : NewSlot) (response : Vault)
      (server_slot : Server.Keyslot)
      → kv_get kv_vault_id store ≡ none
      → prepare aead json argon2 texts api url secret seeds ≡ ok (mk, slot)
      → (api.post_vault seeds.vault_id slot.wire remote).0 ≡ ok response
      → find_slot slot.id.uuid response.keyslots ≡ some server_slot
      → texts.keyslot_text (local_keyslot aead json argon2 texts slot server_slot) ≡ some text
      → ((create aead json argon2 texts api url secret seeds (store, remote)).0
          ≡ ok (
              new_vault aead json argon2 texts mk seeds.vault_id (
                persist_rest texts text seeds.device_id (
                  persist_ids texts seeds.vault_id
                    (local_keyslot aead json argon2 texts slot server_slot)
                    url
                    store))))
        × ((create aead json argon2 texts api url secret seeds (store, remote)).1.0
            ≡ persist_rest texts text seeds.device_id (
                persist_ids texts seeds.vault_id
                  (local_keyslot aead json argon2 texts slot server_slot)
                  url
                  store))
  unfolding create
  create-made api url secret text seeds store remote mk slot response server_slot a b c d e =
      let kept =
        persist_bootstrap-written texts seeds.vault_id seeds.device_id
          (local_keyslot aead json argon2 texts slot server_slot) url text store e in
      (
        rw (create, a, b, c, d, ap (λ x. x.0) kept, ap (λ x. x.1) kept) refl,
        rw (create, a, b, c, d, ap (λ x. x.0) kept, ap (λ x. x.1) kept) refl,
      )

  module _ (laws : AeadLaws aead) (text_laws : TextLaws texts) {Remote : Type 0}
      (api : VaultApi Remote) where
    -- A data directory without a vault, where the HTTP client can be made, on draws of 32 and 24 bytes, a
    -- key derivation that works and a server that answers with the keyslot: create succeeds, and unlock
    -- with the same passphrase then succeeds without the server, with the same master key and the same
    -- vault, given that the texts of identifiers and keyslots are read back.
    pub unlock-create :
        (url secret nonce value : Bytes) (seeds : Seeds) (store : Store) (remote : Remote)
        (mk : MasterKey) (kdf : KdfParams) (kek : Kek) (response : Vault)
        (server_slot : Server.Keyslot)
        → kv_get kv_vault_id store ≡ none
        → generate_master_key seeds.key ≡ ok mk
        → length mk.bytes ≡ 32
        → generate_default seeds.salt ≡ ok kdf
        → derive_kek argon2 secret kdf ≡ ok kek
        → seeds.nonce ≡ some nonce
        → length nonce ≡ nonce_len
        → texts.kdf_value kdf ≡ some value
        → api.http_new url ≡ ok tt
        → ((wire : NewKeyslot) → (api.post_vault seeds.vault_id wire remote).0 ≡ ok response)
        → find_slot seeds.keyslot_id response.keyslots ≡ some server_slot
        → (v : UnlockedVault) × (w : UnlockedVault) × ((create aead json argon2 texts api url secret
              seeds
              (store, remote)).0
            ≡ ok v)
          × ((unlock aead json argon2 texts api secret none
                (create aead json argon2 texts api url secret seeds (store, remote)).1.0).0
              ≡ ok w)
          × (v.mk ≡ mk)
          × (w.mk ≡ mk)
          × (v.vault_id ≡ seeds.vault_id)
          × (w.vault_id ≡ seeds.vault_id)
    unfolding new_vault local_keyslot
    unlock-create url secret nonce value seeds store remote mk kdf kek response server_slot fresh hk
          lk hd hkek hn ln hv http answers found =
        let vault_id : VaultId = record { uuid = seeds.vault_id } in
        let keyslot_id : KeyslotId = record { uuid = seeds.keyslot_id } in
        let (wrapped, wraps, unwraps, valid) =
          unwrap_mk-wrap_mk aead laws kek vault_id keyslot_id mk nonce lk ln in
        let slot : NewSlot = record {
          id = keyslot_id;
          kdf = kdf;
          wrapped_mk = wrapped;
          wire = record {
            id = seeds.keyslot_id;
            kind = codes "passphrase";
            kdf = value;
            wrapped_mk = as_bytes wrapped;
          };
        } in
        let built =
          build_new_keyslot-made secret (codes "passphrase") value seeds.vault_id mk seeds kdf kek
            wrapped hd hkek (ap (wrap_mk aead kek vault_id keyslot_id mk) hn ∙ wraps) hv in
        let prepared = prepare-made api url secret seeds mk slot hk built http in
        let keyslot = local_keyslot aead json argon2 texts slot server_slot in
        let (text, written) = text_laws.keyslot_text-some keyslot in
        let (made, left) =
          create-made api url secret text seeds store remote mk slot response server_slot fresh
            prepared (answers slot.wire) found written in
        let s =
          persist_rest texts text seeds.device_id
            (persist_ids texts seeds.vault_id keyslot url store) in
        let (a, b, c) = persisted texts seeds.vault_id seeds.device_id keyslot url text store in
        let key =
          stored_key-found secret text seeds.vault_id keyslot kek mk s a
            (text_laws.parse_uuid-uuid_text seeds.vault_id) b
            (text_laws.parse_keyslot-keyslot_text keyslot text written) hkek unwraps in
        let (w, opened, same, id, _) = unlock-found api secret url seeds.vault_id mk s key c http in
        (
          new_vault aead json argon2 texts mk seeds.vault_id s,
          w,
          made,
          ap (λ x. (unlock aead json argon2 texts api secret none x).0) left ∙ opened,
          refl,
          same,
          refl,
          id,
        )
