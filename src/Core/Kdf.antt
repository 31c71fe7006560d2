-- ===== src/Core/Kdf.antt =====
-- crates/scrigno-core/src/kdf.rs. Argon2 is a parameter: the check of its parameters, and the hash.
pub mod Floor
use scrigno.Prelude.{
  ℕ, ◌≡◌, Bool, true, false, ◌||◌, Option, none, some, length, ltb, ◌==◌, if◌then◌else◌, Result, ok,
  err, ok_or, ◌>>=◌,
}
use scrigno.Prelude.Bytes.{Bytes}
use scrigno.Core.{
  Error, kdf_params_too_weak, invalid_kdf_params, internal, Kek, fill_random, malformed,
}
use scrigno.Codec.Base64.{base64_encode, base64_decode}

abbrev pub default_m_kib : ℕ
default_m_kib = 65536

abbrev pub default_t : ℕ
default_t = 3

abbrev pub default_p : ℕ
default_p = 1

abbrev pub floor_m_kib : ℕ
floor_m_kib = 19456

abbrev pub floor_t : ℕ
floor_t = 2

abbrev pub floor_p : ℕ
floor_p = 1

abbrev pub salt_len : ℕ
salt_len = 16

abbrev pub kek_len : ℕ
kek_len = 32

pub record Salt : Type 0 where
  pub bytes : Bytes

-- `Salt::generate`.
generate_salt : Option Bytes → Result Error Salt
generate_salt draw = do bytes ← fill_random draw; ok (record { bytes = bytes })

-- The JSON string of a salt, and what `Deserialize` accepts; its two messages are one error here.
pub serialize_salt : Salt → Bytes
serialize_salt salt = base64_encode salt.bytes

pub deserialize_salt : Bytes → Result Error Salt
deserialize_salt s = do
  bytes ← ok_or (base64_decode s) malformed
  if length bytes == salt_len then ok (record { bytes = bytes }) else err malformed

pub data KdfAlgorithm : Type 0 where
  argon2id : KdfAlgorithm

pub record KdfParams : Type 0 where
  pub alg : KdfAlgorithm
  pub m_kib : ℕ
  pub t : ℕ
  pub p : ℕ
  pub salt : Salt

unfoldable pub generate_for_new_slot : ℕ → ℕ → ℕ → Option Bytes → Result Error KdfParams
unfolding generate_salt
generate_for_new_slot m_kib t p draw =
    if ltb m_kib floor_m_kib || ltb t floor_t || ltb p floor_p then err kdf_params_too_weak else do
      salt ← generate_salt draw
      ok (record { alg = argon2id; m_kib = m_kib; t = t; p = p; salt = salt })

unfoldable pub generate_default : Option Bytes → Result Error KdfParams
generate_default = generate_for_new_slot default_m_kib default_t default_p

-- `Params::new` accepts its numbers or not; `hash_password_into` may fail.
pub record Argon2 : Type 0 where
  pub accepts : ℕ → ℕ → ℕ → ℕ → Bool
  pub hash : ℕ → ℕ → ℕ → Bytes → Bytes → Option Bytes

unfoldable pub derive_kek : Argon2 → Bytes → KdfParams → Result Error Kek
derive_kek argon2 passphrase params =
    if argon2.accepts params.m_kib params.t params.p kek_len
    then (do
      out ← ok_or (argon2.hash params.m_kib params.t params.p passphrase params.salt.bytes) internal
      ok (record { bytes = out }))
    else err invalid_kdf_params
