-- ===== src/Client/Tests/Joining.antt =====
-- A second device joins the vault of a server and unlocks its copy.
use scrigno.Prelude.{ℕ, ◌≡◌, refl, none, some, [], ◌∷◌, ok}
use scrigno.Prelude.Bytes.{codes, same_bytes}
use scrigno.Server
use scrigno.Server.Vault.{Vault}
use scrigno.Core.Tests.{toy_aead, zeros}
use scrigno.Core.Kdf.{KdfParams, argon2id, derive_kek}
use scrigno.Core.Wrap.{WrappedKey, from_slice, unwrap_mk, open_wrapped}
use scrigno.Client.Store.{kv_get}
use scrigno.Client.Tests.{titled_json}
use scrigno.Client.Tests.Bootstrapping.{texts, text_laws, argon2, api, empty_store}
use scrigno.Client.Vault.{UnlockedVault}
use scrigno.Client.Vault.Bootstrap.{unlock}
use scrigno.Client.Vault.Bootstrap.Joining.{JoinApi, join, find_passphrase, unlock-join}

abbrev kdf : KdfParams
kdf = record { alg = argon2id; m_kib = 65536; t = 3; p = 1; salt = record { bytes = zeros 16 } }

abbrev wrapped : WrappedKey
wrapped = record { nonce = zeros 24; ciphertext = zeros 48 }

abbrev recovery_slot : Server.Keyslot
recovery_slot = record {
  id = 4;
  kind = codes "recovery";
  kdf = codes "{}";
  wrapped_mk = [];
  created_at = 6;
}

abbrev passphrase_slot : Server.Keyslot
passphrase_slot = record {
  id = 2;
  kind = codes "passphrase";
  kdf = codes "{}";
  wrapped_mk = 1 ∷ zeros 72;
  created_at = 7;
}

abbrev remote_vault : Vault
remote_vault = record { id = 1; created_at = 7; keyslots = recovery_slot ∷ passphrase_slot ∷ [] }

abbrev join_api : JoinApi ℕ
join_api = record {
  fetch_vault = λ r. (ok remote_vault, r);
  post_keyslot = λ wire r. (ok tt, r);
  parse_kdf = λ text. some kdf;
}

unlock-join_example :
    (v : UnlockedVault) × (w : UnlockedVault) × ((join toy_aead titled_json argon2 texts api
        join_api
        (codes "http://nas")
        (codes "segreto")
        5
        (empty_store, 0)).0
      ≡ ok v)
    × ((unlock toy_aead titled_json argon2 texts api
          (codes "segreto")
          none
          (join toy_aead titled_json argon2 texts api join_api
            (codes "http://nas")
            (codes "segreto")
            5
            (empty_store, 0)).1.0).0
        ≡ ok w)
    × (w.mk ≡ record { bytes = zeros 32 })
    × (w.vault_id ≡ 1)
unfolding kv_get find_passphrase from_slice unwrap_mk open_wrapped derive_kek same_bytes
unlock-join_example =
    unlock-join toy_aead titled_json argon2 texts api join_api text_laws (codes "http://nas")
      (codes "segreto") 5 empty_store 0 remote_vault passphrase_slot kdf wrapped
      (record { bytes = codes "segreto" }) (record { bytes = zeros 32 }) refl refl refl refl refl
      refl refl refl
