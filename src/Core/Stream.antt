-- ===== src/Core/Stream.antt =====
-- What blob.rs takes from others: the STREAM cipher of the crate `aead_stream` over
-- XChaCha20-Poly1305, and `std::io`'s writers and readers.
use scrigno.Prelude.{
  ℕ, ◌+◌, ◌-◌, ◌^◌, ◌≤◌, ◌<◌, ◌≡◌, Option, some, [], ◌++◌, length, min, ltb, true, false, ◌==◌,
  if◌then◌else◌, suc, zero, ◌∷◌, Result, ok, err,
}
use scrigno.Prelude.Bytes.{Bytes}
use scrigno.Core.{Error}

-- An `io::Error`: one of the crate's errors, a failure of the stream cipher, a stream that was
-- finished, a reader that ended early, any other failure of the inner reader or writer; `panic` is
-- a subtraction that overflows.
pub data IoError : Type 0 where
  core : Error → IoError
  stream_failed finished_stream unexpected_eof device panic : IoError

-- `map_err(to_io_err)`.
abbrev pub to_io {ℓ} : {A : Type ℓ} → Result Error A → Result IoError A
to_io (ok a) = ok a
to_io (err e) = err (core e)

-- `EncryptorBE32` and `DecryptorBE32`, by a key of 32 bytes and a prefix of 19; a step takes the
-- associated data and a text and gives the other text and the next state.
pub record Stream (SealState OpenState : Type 0) : Type 0 where
  pub new_encryptor : Bytes → Bytes → SealState
  pub encrypt_next : SealState → Bytes → Bytes → Option (Bytes × SealState)
  pub encrypt_last : SealState → Bytes → Bytes → Option Bytes
  pub new_decryptor : Bytes → Bytes → OpenState
  pub decrypt_next : OpenState → Bytes → Bytes → Option (Bytes × OpenState)
  pub decrypt_last : OpenState → Bytes → Bytes → Option Bytes

-- What its documentation says. `position` counts the segments; the last value of the counter is kept
-- for the last segment. A segment is 16 bytes longer than its text, and a decryptor at the same
-- position of the same stream opens it. A text that opens is what that encryptor seals.
pub record StreamLaws {SealState OpenState : Type 0} (s : Stream SealState OpenState) : Type 1 where
  pub Paired : SealState → OpenState → Type 0
  pub position : SealState → ℕ
  pub Paired-new :
      (key prefix' : Bytes) → Paired (s.new_encryptor key prefix') (s.new_decryptor key prefix')
  pub position-new : (key prefix' : Bytes) → position (s.new_encryptor key prefix') ≡ 0
  pub encrypts_next :
      (e : SealState) (aad text : Bytes)
      → position e < 2 ^ 32 - 1
      → length text < 2 ^ 32
      → (sealed : Bytes) × (e' : SealState) × (s.encrypt_next e aad text ≡ some (sealed, e'))
  pub encrypts_last :
      (e : SealState) (aad text : Bytes)
      → length text < 2 ^ 32
      → (sealed : Bytes) × (s.encrypt_last e aad text ≡ some sealed)
  pub encrypt_next_steps :
      (e e' : SealState) (aad text sealed : Bytes)
      → s.encrypt_next e aad text ≡ some (sealed, e')
      → (position e' ≡ position e + 1) × (length sealed ≡ length text + 16)
  pub length-encrypt_last :
      (e : SealState) (aad text sealed : Bytes)
      → s.encrypt_last e aad text ≡ some sealed
      → length sealed ≡ length text + 16
  pub decrypt_next-encrypt_next :
      (e e' : SealState) (d : OpenState) (aad text sealed : Bytes)
      → Paired e d
      → s.encrypt_next e aad text ≡ some (sealed, e')
      → (d' : OpenState) × (s.decrypt_next d aad sealed ≡ some (text, d')) × Paired e' d'
  pub decrypt_last-encrypt_last :
      (e : SealState) (d : OpenState) (aad text sealed : Bytes)
      → Paired e d
      → s.encrypt_last e aad text ≡ some sealed
      → s.decrypt_last d aad sealed ≡ some text
  pub encrypt_next-decrypt_next :
      (e : SealState) (d d' : OpenState) (aad text sealed : Bytes)
      → Paired e d
      → s.decrypt_next d aad sealed ≡ some (text, d')
      → (e' : SealState) × (s.encrypt_next e aad text ≡ some (sealed, e')) × Paired e' d'
  pub encrypt_last-decrypt_last :
      (e : SealState) (d : OpenState) (aad text sealed : Bytes)
      → Paired e d
      → s.decrypt_last d aad sealed ≡ some text
      → s.encrypt_last e aad text ≡ some sealed

-- `std::io::Write`: the answer, and the writer it leaves.
pub record Writer (W : Type 0) : Type 0 where
  pub write_all : Bytes → W → Result IoError (Unit {0}) × W
  pub flush : W → Result IoError (Unit {0}) × W

-- A writer that does not fail, and what was written to it.
pub record Collects {W : Type 0} (w : Writer W) : Type 0 where
  pub contents : W → Bytes
  pub write_all-ok : (bytes : Bytes) (s : W) → (w.write_all bytes s).0 ≡ ok tt
  pub contents-write_all :
      (bytes : Bytes) (s : W) → contents (w.write_all bytes s).1 ≡ contents s ++ bytes
  pub flush-ok : (s : W) → (w.flush s).0 ≡ ok tt
  pub contents-flush : (s : W) → contents (w.flush s).1 ≡ contents s

-- `std::io::Read`: a call for at most so many bytes.
pub record Reader (R : Type 0) : Type 0 where
  pub read : ℕ → R → Result IoError Bytes × R

-- A reader that does not fail, and what is left in it: a call gives bytes from the front, at most as
-- many as asked for, and none only at the end or where none is asked for.
pub record Supplies {R : Type 0} (r : Reader R) : Type 0 where
  pub contents : R → Bytes
  pub reads :
      (n : ℕ) (s : R)
      → (bytes : Bytes) × ((r.read n s).0 ≡ ok bytes)
        × (contents s ≡ bytes ++ contents (r.read n s).1)
        × (length bytes ≤ n)
        × (0 < n → 0 < length (contents s) → 0 < length bytes)

module _ {R : Type 0} (reader : Reader R) where
  -- Reads on until `target` bytes are held or the reader ends, at most `limit` bytes at a time. Each
  -- round but the last reads a byte, so that `target` rounds are enough.
  unfoldable pub read_up_to : ℕ → ℕ → ℕ → Bytes → R → Result IoError Bytes × R
  read_up_to zero target limit held r = (ok held, r)
  read_up_to (suc fuel) target limit held r = elim (ltb (length held) target) [
    | false ↦ (ok held, r)
    | true ↦
        let (answer, r') = reader.read (min (target - length held) limit) r in
        elim answer [
          | err e ↦ (err e, r')
          | ok [] ↦ (ok held, r')
          | ok (b ∷ bs) ↦ read_up_to fuel target limit (held ++ b ∷ bs) r'
        ]
  ]

  -- `Read::read_exact`.
  unfoldable pub read_exact : ℕ → R → Result IoError Bytes × R
  unfolding read_up_to
  read_exact n r =
      let (answer, r') = read_up_to n n n [] r in
      elim answer [
        | err e ↦ (err e, r')
        | ok bytes ↦ if length bytes == n then (ok bytes, r') else (err unexpected_eof, r')
      ]
