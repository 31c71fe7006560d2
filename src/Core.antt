-- ===== src/Core.antt =====
-- crates/scrigno-core/src: error.rs, ids.rs, keys.rs, rng.rs, and what the crate takes from others.
-- The cipher XChaCha20-Poly1305 is a parameter, and so is each draw of `OsRng` (`none`: it failed).
pub mod Recovery
pub mod Kdf
pub mod Wrap
pub mod Meta
pub mod Stream
pub mod Blob
pub mod Tests
use scrigno.Prelude.{ℕ, ◌+◌, ◌^◌, ◌<◌, ◌≡◌, Option, none, some, length, Result, ok, err, ok_or}
use Prim.Native.Nat.{compare, Ordering}
use scrigno.Prelude.Bytes.{Bytes, be_bytes}

pub data Error : Type 0 where
  unsupported_version malformed authentication kdf_params_too_weak invalid_kdf_params : Error
  invalid_recovery_code internal : Error

-- A `Uuid` is its 128-bit number.
abbrev pub Uuid : Type 0
Uuid = ℕ

pub record VaultId : Type 0 where
  pub uuid : Uuid

pub record DocId : Type 0 where
  pub uuid : Uuid

pub record KeyslotId : Type 0 where
  pub uuid : Uuid

-- `as_bytes` of an identifier.
abbrev pub uuid_bytes : Uuid → Bytes
uuid_bytes = be_bytes 16

pub record MasterKey : Type 0 where
  pub bytes : Bytes

pub record Dek : Type 0 where
  pub bytes : Bytes

pub record Kek : Type 0 where
  pub bytes : Bytes

-- `fill_random`.
abbrev pub fill_random : Option Bytes → Result Error Bytes
fill_random draw = ok_or draw internal

-- `MasterKey::generate` and `Dek::generate`.
unfoldable pub generate_master_key : Option Bytes → Result Error MasterKey
generate_master_key none = err internal
generate_master_key (some bytes) = ok (record { bytes = bytes })

pub generate_dek : Option Bytes → Result Error Dek
generate_dek none = err internal
generate_dek (some bytes) = ok (record { bytes = bytes })

-- The check of the first byte that `WrappedKey::from_slice` and `EncMeta::from_bytes` make.
unfoldable pub check_version : Option ℕ → Result Error (Unit {0})
check_version none = err malformed
check_version (some b) = elim (compare b 1) [ Ordering.eq ↦ ok tt | _ ↦ err unsupported_version ]

-- The AEAD in place: key, nonce, associated data, text.
pub record Aead : Type 0 where
  pub encrypt : Bytes → Bytes → Bytes → Bytes → Option Bytes
  pub decrypt : Bytes → Bytes → Bytes → Bytes → Option Bytes

-- What its documentation says: a sealed text opens under the same key, nonce and associated data,
-- it is 16 bytes longer, and sealing fails only on texts past the counter's range.
pub record AeadLaws (a : Aead) : Type 0 where
  pub decrypt-encrypt :
      (key nonce aad text sealed : Bytes)
      → a.encrypt key nonce aad text ≡ some sealed
      → a.decrypt key nonce aad sealed ≡ some text
  pub length-encrypt :
      (key nonce aad text sealed : Bytes)
      → a.encrypt key nonce aad text ≡ some sealed
      → length sealed ≡ length text + 16
  pub encrypts :
      (key nonce aad text : Bytes)
      → length text < 2 ^ 32
      → (sealed : Bytes) × (a.encrypt key nonce aad text ≡ some sealed)
