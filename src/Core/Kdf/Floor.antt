-- ===== src/Core/Kdf/Floor.antt =====
-- The floor on new keyslots, and the JSON string of a salt.
use scrigno.Prelude.{ℕ, ◌≤◌, ◌≡◌, Option, none, some, length, ok, arith, ◌↔◌}
use scrigno.Prelude.Bytes.{Bytes, IsBytes}
use scrigno.Codec.Base64.RoundTrip.{base64_decode-encode}
use scrigno.Core.Kdf.{
  floor_m_kib, floor_t, floor_p, salt_len, Salt, KdfParams, generate_for_new_slot, serialize_salt,
  deserialize_salt,
}

abbrev pub MeetsFloor : KdfParams → Type 0
MeetsFloor q = (floor_m_kib ≤ q.m_kib) × (floor_t ≤ q.t) × (floor_p ≤ q.p)

-- Parameters for a new keyslot are made exactly from numbers on or above the floor, and keep them
-- with the fresh salt; below the floor they are refused, whatever the generator does.
pub generate_for_new_slot_floor :
    (m t p : ℕ) (draw : Option Bytes) (q : KdfParams)
    → (generate_for_new_slot m t p draw ≡ ok q)
      ↔ (MeetsFloor q × (draw ≡ some q.salt.bytes) × (q.m_kib ≡ m) × (q.t ≡ t) × (q.p ≡ p))
unfolding generate_for_new_slot
generate_for_new_slot_floor m t p none q = (λ h. ground arith, λ h. ground arith)
generate_for_new_slot_floor m t p (some salt) q = (λ h. ground arith, λ h. ground arith)

-- A 16-byte salt is read back from its JSON string.
pub deserialize_salt-serialize :
    (salt : Salt)
    → IsBytes salt.bytes
    → length salt.bytes ≡ salt_len
    → deserialize_salt (serialize_salt salt) ≡ ok salt
unfolding deserialize_salt serialize_salt
deserialize_salt-serialize salt hb hl = rw (base64_decode-encode salt.bytes hb) (ground arith)
