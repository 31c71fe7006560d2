-- ===== src/Codec/Base64/Shape.antt =====
-- The length of an encoding, and what a decoder returns on any input.

use scrigno.Prelude.{
  ℕ, ◌+◌, ◌*◌, ◌/◌, ◌%◌, ◌<◌, ◌≤◌, ◌≡◌, refl, some, List, [], ◌∷◌, ◌++◌, length, length-append,
  ◌==◌, arith, Bool-cases, ==_iff, inl, inr, All-append,
}
use scrigno.Prelude.Bytes.{Bytes, IsByte, IsBytes}
use scrigno.Codec.Base64.{
  base64_encode, encode_chunk, decode_chunk, chunk_values, chunk_bytes, decode_chunks,
  base64_decode,
}
use scrigno.Prelude.Options.{>>=-eq-some, some-eq-some}

-- The encoding has four characters for every three bytes or part of three bytes.
pub length-base64_encode : (xs : Bytes) → length (base64_encode xs) ≡ (length xs + 2) / 3 * 4
unfolding base64_encode encode_chunk
length-base64_encode [] = refl
length-base64_encode (b0 ∷ []) = refl
length-base64_encode (b0 ∷ b1 ∷ []) = refl
length-base64_encode (b0 ∷ b1 ∷ b2 ∷ xs) = omega (arith, length-base64_encode xs)

-- What a chunk gives: one to three bytes.
chunk_bytes-IsBytes :
    (vals : List ℕ) (pad : ℕ) (bs : Bytes)
    → chunk_bytes vals pad ≡ some bs
    → IsBytes bs × (length bs < 4)
unfolding chunk_bytes
chunk_bytes-IsBytes vals pad bs h = ground arith

decode_chunk-IsBytes : (c bs : Bytes) → decode_chunk c ≡ some bs → IsBytes bs × (length bs < 4)
unfolding decode_chunk
decode_chunk-IsBytes c bs h =
    let (vp, _, e) = >>=-eq-some (chunk_values c 0) _ h in chunk_bytes-IsBytes vp.0 vp.1 bs e

-- A decoded group in front of the decoded rest.
joined-IsBytes :
    (n : ℕ) (bs out : Bytes)
    → IsBytes bs × (length bs < 4)
    → IsBytes out × (length out ≤ n / 4 * 3)
    → IsBytes (bs ++ out) × (length (bs ++ out) ≤ (n + 4) / 4 * 3)
joined-IsBytes n bs out hb ho =
    (All-append IsByte bs out hb.0 ho.0, omega (arith, length-append bs out, hb.1, ho.1))

decode_chunks-IsBytes :
    (s xs : Bytes) → decode_chunks s ≡ some xs → IsBytes xs × (length xs ≤ length s / 4 * 3)
unfolding decode_chunks
decode_chunks-IsBytes (c0 ∷ c1 ∷ c2 ∷ c3 ∷ rest) xs h =
    let (bs, e, h') = >>=-eq-some (decode_chunk (c0 ∷ c1 ∷ c2 ∷ c3 ∷ [])) _ h in
    let (out, e', eq) = >>=-eq-some (decode_chunks rest) _ h' in
    let j =
      joined-IsBytes (length rest) bs out (decode_chunk-IsBytes _ bs e)
        (decode_chunks-IsBytes rest out e') in
    let same : bs ++ out ≡ xs = some-eq-some eq in rw (← same) (j.0, omega (arith, j.1))
decode_chunks-IsBytes _ xs h = ground arith

-- Whatever text is decoded, its length is a multiple of four, and the result holds bytes only, at
-- most three for every four characters.
pub base64_decode_sound :
    (s xs : Bytes)
    → base64_decode s ≡ some xs
    → (length s % 4 ≡ 0) × IsBytes xs × (length xs ≤ length s / 4 * 3)
unfolding base64_decode
base64_decode_sound [] xs h = ground arith
base64_decode_sound (c ∷ cs) xs h = elim (Bool-cases (length (c ∷ cs) % 4 == 0)) [
  | inl e ↦ let d = decode_chunks-IsBytes (c ∷ cs) xs (rw e at h) in ((==_iff _ 0).0 e, d.0, d.1)
  | inr e ↦ cc (e, h)
]
