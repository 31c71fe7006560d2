-- ===== src/Client/Tests/Bootstrapping.antt =====
-- Creating and unlocking a vault at a concrete input: texts are lists of numbers with their lengths,
-- and the key derivation is a copy.
use scrigno.Prelude.{
  ℕ, ◌≡◌, refl, ap, ◌∙◌, subst, true, Option, none, some, [], ◌∷◌, ◌++◌, length, take, drop,
  take-append_exact, drop-append_exact, ok,
}
use scrigno.Prelude.Bytes.{Bytes, codes}
use scrigno.Prelude.Options.{some-eq-some}
use scrigno.Server
use scrigno.Server.Vault.{Vault}
use scrigno.Core.{generate_master_key}
use scrigno.Core.Tests.{toy_aead, toy_laws, zeros}
use scrigno.Core.Kdf.{
  KdfAlgorithm, argon2id, Argon2, generate_default, generate_for_new_slot, derive_kek,
}
use scrigno.Client.Store.{Store, kv_get}
use scrigno.Client.Tests.{titled_json}
use scrigno.Client.Vault.{UnlockedVault}
use scrigno.Client.Vault.Bootstrap.{
  KeyslotKind, Keyslot, Texts, TextLaws, VaultApi, Seeds, find_slot, create, unlock,
}
use scrigno.Client.Vault.Bootstrap.Unlocks.{unlock-create}

abbrev kind_code : KeyslotKind → ℕ
kind_code KeyslotKind.passphrase = 0
kind_code KeyslotKind.recovery = 1

abbrev kind_of : ℕ → KeyslotKind
kind_of ℕ.zero = KeyslotKind.passphrase
kind_of (ℕ.suc n) = KeyslotKind.recovery

kind_of-kind_code : (k : KeyslotKind) → kind_of (kind_code k) ≡ k
kind_of-kind_code KeyslotKind.passphrase = refl
kind_of-kind_code KeyslotKind.recovery = refl

only_argon2id : (a : KdfAlgorithm) → argon2id ≡ a
only_argon2id argon2id = refl

abbrev write_slot : Keyslot → Bytes
write_slot k =
    k.id.uuid
    ∷ kind_code k.kind
    ∷ k.kdf.m_kib
    ∷ k.kdf.t
    ∷ k.kdf.p
    ∷ k.created_at
    ∷ length k.kdf.salt.bytes
    ∷ length k.wrapped_mk.nonce
    ∷ (k.kdf.salt.bytes ++ (k.wrapped_mk.nonce ++ k.wrapped_mk.ciphertext))

abbrev read_slot : Bytes → Option Keyslot
read_slot (id ∷ kind ∷ m ∷ t ∷ p ∷ c ∷ s ∷ n ∷ rest) = some (record {
  id = record { uuid = id };
  kind = kind_of kind;
  kdf = record { alg = argon2id; m_kib = m; t = t; p = p; salt = record { bytes = take s rest } };
  wrapped_mk = record { nonce = take n (drop s rest); ciphertext = drop n (drop s rest) };
  created_at = c;
})
read_slot _ = none

abbrev read_id : Bytes → Option ℕ
read_id [] = none
read_id (id ∷ rest) = some id

abbrev pub texts : Texts
texts = record {
  uuid_text = λ id. id ∷ [];
  parse_uuid = read_id;
  keyslot_text = λ k. some (write_slot k);
  parse_keyslot = read_slot;
  kdf_value = λ kdf. some (codes "{}");
}

slot_of : (id kind m t p c s n : ℕ) → Bytes → Keyslot
slot_of id kind m t p c s n rest = record {
  id = record { uuid = id };
  kind = kind_of kind;
  kdf = record { alg = argon2id; m_kib = m; t = t; p = p; salt = record { bytes = take s rest } };
  wrapped_mk = record { nonce = take n (drop s rest); ciphertext = drop n (drop s rest) };
  created_at = c;
}

slot_of-slot :
    (k : Keyslot)
    → slot_of k.id.uuid
        (kind_code k.kind)
        k.kdf.m_kib
        k.kdf.t
        k.kdf.p
        k.created_at
        (length k.kdf.salt.bytes)
        (length k.wrapped_mk.nonce)
        (k.kdf.salt.bytes ++ (k.wrapped_mk.nonce ++ k.wrapped_mk.ciphertext))
      ≡ k
unfolding slot_of
slot_of-slot k =
    let salt = k.kdf.salt.bytes in
    let nonce = k.wrapped_mk.nonce in
    let rest = nonce ++ k.wrapped_mk.ciphertext in
    let n = length nonce in
    let behind = drop-append_exact (length salt) salt rest refl in
    let same_nonce = ap (take n) behind ∙ take-append_exact n nonce k.wrapped_mk.ciphertext refl in
    let same_text = ap (drop n) behind ∙ drop-append_exact n nonce k.wrapped_mk.ciphertext refl in
    λ i. record {
      id = k.id;
      kind = kind_of-kind_code k.kind i;
      kdf = record {
        alg = only_argon2id k.kdf.alg i;
        m_kib = k.kdf.m_kib;
        t = k.kdf.t;
        p = k.kdf.p;
        salt = record { bytes = take-append_exact (length salt) salt rest refl i };
      };
      wrapped_mk = record { nonce = same_nonce i; ciphertext = same_text i };
      created_at = k.created_at;
    }

read_slot-write_slot : (k : Keyslot) → read_slot (write_slot k) ≡ some k
unfolding slot_of
read_slot-write_slot k = ap some (slot_of-slot k)

pub text_laws : TextLaws texts
text_laws = record {
  parse_uuid-uuid_text = λ id. refl;
  parse_keyslot-keyslot_text =
      λ k text h. subst (λ t. read_slot t ≡ some k) (some-eq-some h) (read_slot-write_slot k);
  keyslot_text-some = λ k. (write_slot k, refl);
}

abbrev pub argon2 : Argon2
argon2 = record { accepts = λ m t p n. true; hash = λ m t p secret salt. some secret }

abbrev server_slot : Server.Keyslot
server_slot = record {
  id = 2;
  kind = codes "passphrase";
  kdf = codes "{}";
  wrapped_mk = [];
  created_at = 7;
}

abbrev response : Vault
response = record { id = 1; created_at = 7; keyslots = server_slot ∷ [] }

abbrev pub api : VaultApi ℕ
api = record { http_new = λ url. ok tt; post_vault = λ id wire r. (ok response, r) }

abbrev seeds : Seeds
seeds = record {
  vault_id = 1;
  keyslot_id = 2;
  device_id = 3;
  key = some (zeros 32);
  salt = some (zeros 16);
  nonce = some (zeros 24);
}

abbrev pub empty_store : Store
empty_store = record { kv = []; documents = []; cache = []; files = [] }

unlock-create_example :
    (v : UnlockedVault) × (w : UnlockedVault) × ((create toy_aead titled_json argon2 texts api
        (codes "http://nas")
        (codes "segreto")
        seeds
        (empty_store, 0)).0
      ≡ ok v)
    × ((unlock toy_aead titled_json argon2 texts api
          (codes "segreto")
          none
          (create toy_aead titled_json argon2 texts api
            (codes "http://nas")
            (codes "segreto")
            seeds
            (empty_store, 0)).1.0).0
        ≡ ok w)
    × (v.mk ≡ record { bytes = zeros 32 })
    × (w.mk ≡ record { bytes = zeros 32 })
    × (v.vault_id ≡ 1)
    × (w.vault_id ≡ 1)
unfolding kv_get generate_master_key generate_default generate_for_new_slot derive_kek find_slot
unlock-create_example =
    unlock-create toy_aead titled_json argon2 texts toy_laws text_laws api (codes "http://nas")
      (codes "segreto") (zeros 24) (codes "{}") seeds empty_store 0 (record { bytes = zeros 32 })
      (record { alg = argon2id; m_kib = 65536; t = 3; p = 1; salt = record { bytes = zeros 16 } })
      (record { bytes = codes "segreto" }) response server_slot refl refl refl refl refl refl refl
      refl refl (λ wire. refl) refl
