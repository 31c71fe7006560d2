-- ===== src/Core/Wrap/Envelope.antt =====
-- The 73-byte envelope and its JSON string.
use scrigno.Prelude.{
  ℕ, ◌≡◌, ◌≢◌, refl, [], ◌∷◌, ◌++◌, length, length-append, take, drop, take-append_exact,
  drop-append_exact, take-append-drop, length-take, length-drop, ok, err, arith, All-append,
}
use scrigno.Prelude.Bytes.{Bytes, IsByte, IsBytes}
use scrigno.Core.{unsupported_version, malformed}
use scrigno.Codec.Base64.RoundTrip.{base64_decode-encode}
use scrigno.Core.Wrap.{
  WrappedKey, IsValid, as_bytes, from_slice, serialize, deserialize, wrapped_key_len, version,
}

-- A well-formed key is written as 73 bytes and read back.
pub from_slice-as_bytes :
    (w : WrappedKey)
    → IsValid w
    → (from_slice (as_bytes w) ≡ ok w) × (length (as_bytes w) ≡ wrapped_key_len)
unfolding from_slice as_bytes
from_slice-as_bytes w v =
    let whole : length (w.nonce ++ w.ciphertext) ≡ 72 =
      omega (arith, length-append w.nonce w.ciphertext, v.nonce_length, v.ciphertext_length) in
    (
      rw (
        whole,
        take-append_exact 24 w.nonce w.ciphertext v.nonce_length,
        drop-append_exact 24 w.nonce w.ciphertext v.nonce_length,
      ),
      rw whole,
    )

from_slice_parts :
    (b : ℕ) (bytes : Bytes) (w : WrappedKey)
    → from_slice (b ∷ bytes) ≡ ok w
    → (b ≡ 1) × (length bytes ≡ 72) × (w.nonce ≡ take 24 bytes) × (w.ciphertext ≡ drop 24 bytes)
unfolding from_slice
from_slice_parts b bytes w h = ground arith

-- What `from_slice` accepts is the 73 bytes of a well-formed key, and no other text has that key.
pub from_slice_sound :
    (bytes : Bytes) (w : WrappedKey) → from_slice bytes ≡ ok w → IsValid w × (as_bytes w ≡ bytes)
unfolding as_bytes
from_slice_sound [] w h = unfold from_slice in cc
from_slice_sound (b ∷ bytes) w h =
    let p = from_slice_parts b bytes w h in
    (
      record {
        nonce_length = rw p.2 (omega (arith, length-take 24 bytes, p.1));
        ciphertext_length = rw p.3 (omega (arith, length-drop 24 bytes, p.1));
      },
      rw (p.0, p.2, p.3, take-append-drop 24 bytes),
    )

-- The errors: an empty text and a text of another length are malformed, but a wrong first byte is
-- reported before the length is looked at.
pub from_slice_errors :
    (b : ℕ) (bytes : Bytes)
    → (from_slice [] ≡ err malformed)
      × (b ≢ version → from_slice (b ∷ bytes) ≡ err unsupported_version)
      × (b ≡ version
          → length (b ∷ bytes) ≢ wrapped_key_len
          → from_slice (b ∷ bytes) ≡ err malformed)
unfolding from_slice
from_slice_errors b bytes = (refl, λ h. ground arith, λ h k. ground arith)

-- The JSON string of a well-formed key of bytes is read back.
pub deserialize-serialize :
    (w : WrappedKey)
    → IsValid w
    → IsBytes w.nonce
    → IsBytes w.ciphertext
    → deserialize (serialize w) ≡ ok w
unfolding deserialize serialize
deserialize-serialize w v hn hc =
    let bytes : IsBytes (as_bytes w) =
      unfold as_bytes in (omega arith, All-append IsByte w.nonce w.ciphertext hn hc) in
    rw (base64_decode-encode (as_bytes w) bytes, (from_slice-as_bytes w v).0)
