-- ===== src/Codec/Base64.antt =====
-- `base64_encode` and `base64_decode` of crates/scrigno-core/src/codec.rs. A string is the list of
-- its bytes. The operands of each `|` there have no bit in common, so `|` is `+`, and the shifted
-- bytes stay below 2 ^ 24, so nothing is lost from the `u32`.
pub mod RoundTrip
pub mod Shape
use scrigno.Prelude.{
  ℕ, suc, ◌+◌, ◌*◌, ◌/◌, ◌%◌, ◌^◌, ◌≡◌, refl, Bool, true, false, Option, none, some, List, [], ◌∷◌,
  ◌++◌, length, get_or, ltb, ◌==◌, if◌then◌else◌,
}
use scrigno.Prelude.Bytes.{Bytes, codes}
use scrigno.Prelude.Options.{◌>>=◌}
use scrigno.Codec.{position}
use mathlib.Core.Option

abbrev pub std_alphabet : Bytes
std_alphabet = codes "ABCDEFGHIJKLMNOPQRSTUVWXYZabcdefghijklmnopqrstuvwxyz0123456789+/"

-- `STD_ALPHABET[(n >> k) & 0x3f]`; the index is below 64, so the default is never read.
symbol : ℕ → ℕ
symbol i = get_or std_alphabet (i % 64) 0

-- One `chunk` of the encoder's loop.
encode_chunk : ℕ → Option ℕ → Option ℕ → Bytes
encode_chunk b0 b1 b2 =
    let n = b0 * 2 ^ 16 + Option.get_or b1 0 * 2 ^ 8 + Option.get_or b2 0 in
    symbol (n / 2 ^ 18)
    ∷ symbol (n / 2 ^ 12)
    ∷ elim b1 [ none ↦ b'=' | some _ ↦ symbol (n / 2 ^ 6) ]
    ∷ elim b2 [ none ↦ b'=' | some _ ↦ symbol n ]
    ∷ []

-- `input.chunks(3)`.
unfoldable pub base64_encode : Bytes → Bytes
unfolding encode_chunk symbol
base64_encode [] = []
base64_encode (b0 ∷ []) = encode_chunk b0 none none
base64_encode (b0 ∷ b1 ∷ []) = encode_chunk b0 (some b1) none
base64_encode (b0 ∷ b1 ∷ b2 ∷ rest) = encode_chunk b0 (some b1) (some b2) ++ base64_encode rest

base64_char_value : ℕ → Option ℕ
base64_char_value c = position c std_alphabet

-- The inner loop over a chunk: the values from here on, and the final count of `=`.
chunk_values : Bytes → ℕ → Option (List ℕ × ℕ)
chunk_values [] pad = some ([], pad)
chunk_values (c ∷ cs) pad = elim (c == b'=') [
  | true ↦ do (vals, total) ← chunk_values cs (pad + 1); some (0 ∷ vals, total)
  | false ↦
      if ltb 0 pad
      then none
      else do v ← base64_char_value c; (vals, total) ← chunk_values cs pad; some (v ∷ vals, total)
]

chunk_bytes : List ℕ → ℕ → Option Bytes
chunk_bytes vals pad =
    let n =
      get_or vals 0 0 * 2 ^ 18
      + get_or vals 1 0 * 2 ^ 12
      + get_or vals 2 0 * 2 ^ 6
      + get_or vals 3 0 in
    if ltb 2 pad
    then none
    else some (
        (n / 2 ^ 16 % 256) ∷ (if ltb pad 2 then (n / 2 ^ 8 % 256) ∷ [] else [])
        ++ (if ltb pad 1 then (n % 256) ∷ [] else []))

decode_chunk : Bytes → Option Bytes
unfolding chunk_values base64_char_value chunk_bytes
decode_chunk chunk = do (vals, pad) ← chunk_values chunk 0; chunk_bytes vals pad

-- `bytes.chunks(4)`, where the length is a multiple of 4.
decode_chunks : Bytes → Option Bytes
decode_chunks (c0 ∷ c1 ∷ c2 ∷ c3 ∷ rest) = do
  bs ← decode_chunk (c0 ∷ c1 ∷ c2 ∷ c3 ∷ [])
  out ← decode_chunks rest
  some (bs ++ out)
decode_chunks _ = some []

unfoldable pub base64_decode : Bytes → Option Bytes
unfolding decode_chunks decode_chunk
base64_decode [] = some []
base64_decode (c ∷ cs) = if length (c ∷ cs) % 4 == 0 then decode_chunks (c ∷ cs) else none
