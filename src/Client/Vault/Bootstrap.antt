-- ===== src/Client/Vault/Bootstrap.antt =====
-- vault.rs and crates/scrigno-core/src/keyslot.rs: creating a vault and unlocking it. The texts of
-- uuid and serde_json, the HTTP client and the random draws are parameters.
pub mod Unlocks
pub mod Joining
use scrigno.Prelude.{
  ℕ, ◌≡◌, Bool, true, false, Option, none, some, List, [], ◌∷◌, ◌==◌, if◌then◌else◌, Result, ok,
  err, ok_or, map_err, ◌>>=◌,
}
use scrigno.Prelude.Bytes.{Bytes, codes, same_bytes}
use scrigno.Server
use scrigno.Server.{Uuid}
use scrigno.Server.Vault.{NewKeyslot, Vault}
use scrigno.Core.{MasterKey, VaultId, KeyslotId, Aead, generate_master_key}
use scrigno.Core.Kdf.{KdfParams, Argon2, generate_default, derive_kek}
use scrigno.Core.Wrap.{WrappedKey, wrap_mk, unwrap_mk, as_bytes}
use scrigno.Core.Meta.{Json}
use scrigno.Client.{
  ClientError, locked, storage, crypto, wrong_passphrase, invalid_input, server_contract,
}
use scrigno.Client.Store.{Store, kv_get, kv_set}
use scrigno.Client.Store.Numbers.{to_string}
use scrigno.Client.Vault.{
  UnlockedVault, rebuild_index, kv_cursor, kv_cache_limit_mb, default_cache_limit_mb,
}

abbrev pub kv_vault_id : Bytes
kv_vault_id = codes "vault_id"

abbrev pub kv_server_url : Bytes
kv_server_url = codes "server_url"

abbrev pub kv_keyslot_id : Bytes
kv_keyslot_id = codes "keyslot_id_in_use"

abbrev pub kv_keyslot_json : Bytes
kv_keyslot_json = codes "keyslot_json"

abbrev pub kv_device_id : Bytes
kv_device_id = codes "device_id"

pub data KeyslotKind : Type 0 where
  passphrase recovery : KeyslotKind

pub record Keyslot : Type 0 where
  pub id : KeyslotId
  pub kind : KeyslotKind
  pub kdf : KdfParams
  pub wrapped_mk : WrappedKey
  pub created_at : ℕ

-- The texts of identifiers and records.
pub record Texts : Type 0 where
  pub uuid_text : Uuid → Bytes
  pub parse_uuid : Bytes → Option Uuid
  pub keyslot_text : Keyslot → Option Bytes
  pub parse_keyslot : Bytes → Option Keyslot
  pub kdf_value : KdfParams → Option Bytes

pub record TextLaws (t : Texts) : Type 0 where
  pub parse_uuid-uuid_text : (id : Uuid) → t.parse_uuid (t.uuid_text id) ≡ some id
  pub parse_keyslot-keyslot_text :
      (k : Keyslot) (text : Bytes) → t.keyslot_text k ≡ some text → t.parse_keyslot text ≡ some k
  pub keyslot_text-some : (k : Keyslot) → (text : Bytes) × (t.keyslot_text k ≡ some text)

-- `HttpClient::new` and `POST /v1/vault`.
pub record VaultApi (Remote : Type 0) : Type 0 where
  pub http_new : Bytes → Result ClientError (Unit {0})
  pub post_vault : Uuid → NewKeyslot → Remote → Result ClientError Vault × Remote

-- The draws of `create`.
pub record Seeds : Type 0 where
  pub vault_id : Uuid
  pub keyslot_id : Uuid
  pub device_id : Uuid
  pub key : Option Bytes
  pub salt : Option Bytes
  pub nonce : Option Bytes

pub record NewSlot : Type 0 where
  pub id : KeyslotId
  pub kdf : KdfParams
  pub wrapped_mk : WrappedKey
  pub wire : NewKeyslot

-- `keyslots.find(|s| s.id == keyslot_id)`.
unfoldable pub find_slot : Uuid → List Server.Keyslot → Option Server.Keyslot
find_slot id [] = none
find_slot id (s ∷ ss) = if s.id == id then some s else find_slot id ss

-- What `persist_bootstrap` writes before the keyslot's text, and after it.
pub persist_ids : Texts → Uuid → Keyslot → Bytes → Store → Store
persist_ids texts vault_id keyslot server_url store =
    kv_set kv_keyslot_id (texts.uuid_text keyslot.id.uuid)
      (kv_set kv_server_url server_url (kv_set kv_vault_id (texts.uuid_text vault_id) store))

pub persist_rest : Texts → Bytes → Uuid → Store → Store
persist_rest texts text device_id store =
    kv_set kv_cache_limit_mb (to_string default_cache_limit_mb) (
      kv_set kv_device_id (texts.uuid_text device_id)
        (kv_set kv_cursor (codes "0") (kv_set kv_keyslot_json text store)))

pub persist_bootstrap :
    Texts → Uuid → Keyslot → Bytes → Uuid → Store → Result ClientError (Unit {0}) × Store
unfolding persist_ids persist_rest
persist_bootstrap texts vault_id keyslot server_url device_id store =
    let begun = persist_ids texts vault_id keyslot server_url store in
    elim (texts.keyslot_text keyslot) [
      | none ↦ (err storage, begun)
      | some text ↦ (ok tt, persist_rest texts text device_id begun)
    ]

module _ (aead : Aead) (json : Json) (argon2 : Argon2) (texts : Texts) where
  pub build_new_keyslot : Bytes → Uuid → MasterKey → Bytes → Seeds → Result ClientError NewSlot
  build_new_keyslot secret vault_id mk kind seeds = do
    kdf ← map_err (generate_default seeds.salt) crypto
    kek ← map_err (derive_kek argon2 secret kdf) crypto
    wrapped_mk ←
        map_err
          (wrap_mk aead kek (record { uuid = vault_id }) (record { uuid = seeds.keyslot_id }) mk
            seeds.nonce)
          crypto
    value ← ok_or (texts.kdf_value kdf) crypto
    ok (record {
      id = record { uuid = seeds.keyslot_id };
      kdf = kdf;
      wrapped_mk = wrapped_mk;
      wire = record {
        id = seeds.keyslot_id;
        kind = kind;
        kdf = value;
        wrapped_mk = as_bytes wrapped_mk;
      };
    })

  pub new_vault : MasterKey → Uuid → Store → UnlockedVault
  new_vault mk vault_id store = record {
    store = store;
    vault_id = vault_id;
    mk = mk;
    index = [];
    unreadable_at_unlock = [];
  }

  -- The key and the keyslot, and the HTTP client.
  prepare :
      {Remote : Type 0}
      → VaultApi Remote
      → Bytes
      → Bytes
      → Seeds
      → Result ClientError (MasterKey × NewSlot)
  unfolding build_new_keyslot
  prepare api server_url secret seeds = do
    mk ← map_err (generate_master_key seeds.key) crypto
    slot ← build_new_keyslot secret seeds.vault_id mk (codes "passphrase") seeds
    tt ← api.http_new server_url
    ok (mk, slot)

  local_keyslot : NewSlot → Server.Keyslot → Keyslot
  local_keyslot slot server_slot = record {
    id = slot.id;
    kind = KeyslotKind.passphrase;
    kdf = slot.kdf;
    wrapped_mk = slot.wrapped_mk;
    created_at = server_slot.created_at;
  }

  pub create :
      {Remote : Type 0}
      → VaultApi Remote
      → Bytes
      → Bytes
      → Seeds
      → Store × Remote
      → Result ClientError UnlockedVault × (Store × Remote)
  unfolding new_vault
  create api server_url secret seeds (store, remote) = elim (kv_get kv_vault_id store) [
    | some _ ↦ (err invalid_input, (store, remote))
    | none ↦ elim (prepare api server_url secret seeds) [
      | err e ↦ (err e, (store, remote))
      | ok (mk, slot) ↦
          let (response, remote') = api.post_vault seeds.vault_id slot.wire remote in
          elim (response >>= λ v. ok_or (find_slot slot.id.uuid v.keyslots) server_contract) [
            | err e ↦ (err e, (store, remote'))
            | ok server_slot ↦
                let (done, store') =
                  persist_bootstrap texts seeds.vault_id (local_keyslot slot server_slot) server_url
                    seeds.device_id store in
                elim done [
                  | err e ↦ (err e, (store', remote'))
                  | ok u ↦ (ok (new_vault mk seeds.vault_id store'), (store', remote'))
                ]
          ]
    ]
  ]

  -- The key of the stored keyslot.
  pub stored_key : Bytes → Store → Result ClientError (Uuid × MasterKey)
  stored_key secret store = do
    vault_id_text ← ok_or (kv_get kv_vault_id store) locked
    vault_id ← ok_or (texts.parse_uuid vault_id_text) storage
    keyslot_json ← ok_or (kv_get kv_keyslot_json store) locked
    keyslot ← ok_or (texts.parse_keyslot keyslot_json) storage
    kek ← map_err (derive_kek argon2 secret keyslot.kdf) crypto
    mk ←
        map_err (unwrap_mk aead kek (record { uuid = vault_id }) keyslot.id keyslot.wrapped_mk)
          wrong_passphrase
    ok (vault_id, mk)

  -- The address to use, which an override also stores.
  server_url_of : Option Bytes → Store → Result ClientError Bytes × Store
  server_url_of (some url) store = (ok url, kv_set kv_server_url url store)
  server_url_of none store = (ok_or (kv_get kv_server_url store) locked, store)

  unlocked : Uuid → MasterKey → Store → UnlockedVault
  unlocked vault_id mk store =
      let (index, unreadable) = rebuild_index aead json store mk in
      record {
        store = store;
        vault_id = vault_id;
        mk = mk;
        index = index;
        unreadable_at_unlock = unreadable;
      }

  pub unlock :
      {Remote : Type 0}
      → VaultApi Remote
      → Bytes
      → Option Bytes
      → Store
      → Result ClientError UnlockedVault × Store
  unfolding stored_key server_url_of unlocked
  unlock api secret server_url_override store = elim (stored_key secret store) [
    | err e ↦ (err e, store)
    | ok (vault_id, mk) ↦
        let (found, store') = server_url_of server_url_override store in
        elim (found >>= api.http_new) [
          | err e ↦ (err e, store')
          | ok u ↦ (ok (unlocked vault_id mk store'), store')
        ]
  ]
