-- ===== src/Client/Vault/Bootstrap/Joining.antt =====
-- vault.rs: joining a vault from a second device, and a keyslot for a recovery code.
use scrigno.Prelude.{
  ◌≡◌, refl, ◌∙◌, ap, Option, none, some, List, [], ◌∷◌, if◌then◌else◌, Result, ok, err, ok_or,
  map_err, ◌>>=◌, Result-cases, inl, inr,
}
use scrigno.Prelude.Bytes.{Bytes, codes, same_bytes}
use scrigno.Server
use scrigno.Server.{Uuid}
use scrigno.Server.Vault.{NewKeyslot, Vault}
use scrigno.Core.{MasterKey, Kek, Aead}
use scrigno.Core.Kdf.{KdfParams, Argon2, derive_kek}
use scrigno.Core.Wrap.{WrappedKey, unwrap_mk, from_slice}
use scrigno.Core.Recovery.{generate_code}
use scrigno.Core.Meta.{Json}
use scrigno.Client.{ClientError, crypto, wrong_passphrase, invalid_input, server_contract}
use scrigno.Client.Store.{Store, kv_get}
use scrigno.Client.Vault.{UnlockedVault}
use scrigno.Client.Vault.Bootstrap.{
  KeyslotKind, Keyslot, Texts, TextLaws, VaultApi, Seeds, NewSlot, kv_vault_id, persist_ids,
  persist_rest, persist_bootstrap, build_new_keyslot, new_vault, unlock,
}
use scrigno.Client.Vault.Bootstrap.Unlocks.{
  persisted, persist_bootstrap-written, stored_key-found, unlock-found,
}

-- `GET /v1/vault`, `POST /v1/vault/keyslots`, and `serde_json::from_value` at `KdfParams`.
pub record JoinApi (Remote : Type 0) : Type 0 where
  pub fetch_vault : Remote → Result ClientError Vault × Remote
  pub post_keyslot : NewKeyslot → Remote → Result ClientError (Unit {0}) × Remote
  pub parse_kdf : Bytes → Option KdfParams

-- `keyslots.find(|s| s.kind == "passphrase")`.
unfoldable pub find_passphrase : List Server.Keyslot → Option Server.Keyslot
find_passphrase [] = none
find_passphrase (s ∷ ss) =
    if same_bytes s.kind (codes "passphrase") then some s else find_passphrase ss

module _ (aead : Aead) (json : Json) (argon2 : Argon2) (texts : Texts) {Remote : Type 0}
    (api : VaultApi Remote) (join_api : JoinApi Remote) where
  unwrap_with_slot : Bytes → Uuid → Server.Keyslot → Result ClientError (Keyslot × MasterKey)
  unwrap_with_slot secret vault_id slot = do
    kdf ← ok_or (join_api.parse_kdf slot.kdf) server_contract
    wrapped_mk ← map_err (from_slice slot.wrapped_mk) server_contract
    kek ← map_err (derive_kek argon2 secret kdf) crypto
    mk ←
        map_err
          (unwrap_mk aead kek (record { uuid = vault_id }) (record { uuid = slot.id }) wrapped_mk)
          wrong_passphrase
    ok (
      record {
        id = record { uuid = slot.id };
        kind =
            if same_bytes slot.kind (codes "recovery")
            then KeyslotKind.recovery
            else KeyslotKind.passphrase;
        kdf = kdf;
        wrapped_mk = wrapped_mk;
        created_at = slot.created_at;
      },
      mk,
    )

  -- The keyslot of a vault that the passphrase opens.
  opened_slot : Bytes → Vault → Result ClientError (Keyslot × MasterKey)
  opened_slot secret remote_vault = do
    slot ← ok_or (find_passphrase remote_vault.keyslots) invalid_input
    unwrap_with_slot secret remote_vault.id slot

  pub join :
      Bytes → Bytes → Uuid → Store × Remote → Result ClientError UnlockedVault × (Store × Remote)
  join server_url secret device_id (store, remote) = elim (kv_get kv_vault_id store) [
    | some _ ↦ (err invalid_input, (store, remote))
    | none ↦ elim (api.http_new server_url) [
      | err e ↦ (err e, (store, remote))
      | ok u ↦
          let (answer, remote') = join_api.fetch_vault remote in
          elim answer [
            | err e ↦ (err e, (store, remote'))
            | ok found ↦ elim (opened_slot secret found) [
              | err e ↦ (err e, (store, remote'))
              | ok (keyslot, mk) ↦
                  let (done, store') =
                    persist_bootstrap texts found.id keyslot server_url device_id store in
                  elim done [
                    | err e ↦ (err e, (store', remote'))
                    | ok w ↦ (
                      ok (new_vault aead json argon2 texts mk found.id store'),
                      (store', remote'),
                    )
                  ]
            ]
          ]
    ]
  ]

  -- `none` is a draw that failed; the code is the answer.
  pub add_recovery_keyslot :
      Option Bytes
      → Seeds
      → UnlockedVault × Remote
      → Result ClientError Bytes × (UnlockedVault × Remote)
  add_recovery_keyslot drawn seeds (vault, remote) =
      let made : Result ClientError (Bytes × NewSlot) = do
        code ← map_err (generate_code drawn) crypto
        slot ←
            build_new_keyslot aead json argon2 texts code vault.vault_id vault.mk (codes "recovery")
              seeds
        ok (code, slot)
      in elim made [
        | err e ↦ (err e, (vault, remote))
        | ok (code, slot) ↦
            let (answer, remote') = join_api.post_keyslot slot.wire remote in
            elim answer [ err e ↦ (err e, (vault, remote')) | ok u ↦ (ok code, (vault, remote')) ]
      ]

  join-made :
      (url secret text : Bytes) (device_id : Uuid) (store : Store) (remote : Remote) (found : Vault)
      (keyslot : Keyslot) (mk : MasterKey)
      → kv_get kv_vault_id store ≡ none
      → api.http_new url ≡ ok tt
      → (join_api.fetch_vault remote).0 ≡ ok found
      → opened_slot secret found ≡ ok (keyslot, mk)
      → texts.keyslot_text keyslot ≡ some text
      → ((join url secret device_id (store, remote)).0
          ≡ ok (
              new_vault aead json argon2 texts mk found.id
                (persist_rest texts text device_id (persist_ids texts found.id keyslot url store))))
        × ((join url secret device_id (store, remote)).1.0
            ≡ persist_rest texts text device_id (persist_ids texts found.id keyslot url store))
  unfolding join
  join-made url secret text device_id store remote found keyslot mk a b c d e =
      let kept = persist_bootstrap-written texts found.id device_id keyslot url text store e in
      (
        rw (join, a, b, c, d, ap (λ x. x.0) kept, ap (λ x. x.1) kept) refl,
        rw (join, a, b, c, d, ap (λ x. x.0) kept, ap (λ x. x.1) kept) refl,
      )

  opened_slot-made :
      (secret : Bytes) (found : Vault) (slot : Server.Keyslot) (kdf : KdfParams)
      (wrapped : WrappedKey) (kek : Kek) (mk : MasterKey)
      → find_passphrase found.keyslots ≡ some slot
      → join_api.parse_kdf slot.kdf ≡ some kdf
      → from_slice slot.wrapped_mk ≡ ok wrapped
      → derive_kek argon2 secret kdf ≡ ok kek
      → unwrap_mk aead kek (record { uuid = found.id }) (record { uuid = slot.id }) wrapped ≡ ok mk
      → (kind : KeyslotKind) × (opened_slot secret found
          ≡ ok (
            record {
              id = record { uuid = slot.id };
              kind = kind;
              kdf = kdf;
              wrapped_mk = wrapped;
              created_at = slot.created_at;
            },
            mk,
          ))
  unfolding opened_slot unwrap_with_slot find_passphrase
  opened_slot-made secret found slot kdf wrapped kek mk a b c d e = (
    if same_bytes slot.kind (codes "recovery")
        then KeyslotKind.recovery
        else KeyslotKind.passphrase,
    rw (a, b, c, d, e) refl,
  )

  -- On a store without a vault, where the HTTP client can be made, the server answers with a vault,
  -- its first passphrase keyslot has readable parameters and a well-formed wrapped key, and the
  -- secret's key unwraps the master key from it: joining succeeds, and unlocking the store it leaves
  -- with the same secret, without the server, gives that master key and the server's vault id, given
  -- that the texts of identifiers and keyslots are read back.
  pub unlock-join :
      (text_laws : TextLaws texts) (url secret : Bytes) (device_id : Uuid) (store : Store)
      (remote : Remote) (found : Vault) (slot : Server.Keyslot) (kdf : KdfParams)
      (wrapped : WrappedKey) (kek : Kek) (mk : MasterKey)
      → kv_get kv_vault_id store ≡ none
      → api.http_new url ≡ ok tt
      → (join_api.fetch_vault remote).0 ≡ ok found
      → find_passphrase found.keyslots ≡ some slot
      → join_api.parse_kdf slot.kdf ≡ some kdf
      → from_slice slot.wrapped_mk ≡ ok wrapped
      → derive_kek argon2 secret kdf ≡ ok kek
      → unwrap_mk aead kek (record { uuid = found.id }) (record { uuid = slot.id }) wrapped ≡ ok mk
      → (v : UnlockedVault) × (w : UnlockedVault) × ((join url secret device_id (store, remote)).0
          ≡ ok v)
        × ((unlock aead json argon2 texts api secret none
              (join url secret device_id (store, remote)).1.0).0
            ≡ ok w)
        × (w.mk ≡ mk)
        × (w.vault_id ≡ found.id)
  unlock-join text_laws url secret device_id store remote found slot kdf wrapped kek mk fresh http
        fetched has hk hw hkek hmk =
      let (kind, opened) =
        opened_slot-made secret found slot kdf wrapped kek mk has hk hw hkek hmk in
      let keyslot : Keyslot = record {
        id = record { uuid = slot.id };
        kind = kind;
        kdf = kdf;
        wrapped_mk = wrapped;
        created_at = slot.created_at;
      } in
      let (text, written) = text_laws.keyslot_text-some keyslot in
      let (made, left) =
        join-made url secret text device_id store remote found keyslot mk fresh http fetched opened
          written in
      let s = persist_rest texts text device_id (persist_ids texts found.id keyslot url store) in
      let (a, b, c) = persisted texts found.id device_id keyslot url text store in
      let key =
        stored_key-found aead json argon2 texts secret text found.id keyslot kek mk s a
          (text_laws.parse_uuid-uuid_text found.id) b
          (text_laws.parse_keyslot-keyslot_text keyslot text written) hkek hmk in
      let (w, done, same, id, _) =
        unlock-found aead json argon2 texts api secret url found.id mk s key c http in
      (
        new_vault aead json argon2 texts mk found.id s,
        w,
        made,
        ap (λ x. (unlock aead json argon2 texts api secret none x).0) left ∙ done,
        same,
        id,
      )

  -- A recovery keyslot changes nothing on the device.
  add_recovery_keyslot_keeps :
      (drawn : Option Bytes) (seeds : Seeds) (vault : UnlockedVault) (remote : Remote)
      → (add_recovery_keyslot drawn seeds (vault, remote)).1.0 ≡ vault
  unfolding add_recovery_keyslot
  add_recovery_keyslot_keeps drawn seeds vault remote =
      elim (Result-cases (map_err (generate_code drawn) crypto)) [
        | inl (x, e) ↦ rw (add_recovery_keyslot, e) refl
        | inr (code, e) ↦
            elim (Result-cases (
              build_new_keyslot aead json argon2 texts code vault.vault_id vault.mk
                (codes "recovery") seeds)) [
                  | inl (x, f) ↦ rw (add_recovery_keyslot, e, f) refl
                  | inr (slot, f) ↦ elim (Result-cases (join_api.post_keyslot slot.wire remote).0) [
                    | inl (x, g) ↦ rw (add_recovery_keyslot, e, f, g) refl
                    | inr (u, g) ↦ rw (add_recovery_keyslot, e, f, g) refl
                  ]
                ]
      ]
