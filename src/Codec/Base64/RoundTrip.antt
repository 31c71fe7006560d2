-- ===== src/Codec/Base64/RoundTrip.antt =====
-- Decoding what `base64_encode` wrote.
use Prim.Native.Nat.{◌<◌}
use scrigno.Prelude.{
  ℕ, ◌%◌, ◌≡◌, ◌≢◌, refl, ap, Bool, true, false, ◌&&◌, Option, none, some, [], ◌∷◌, ◌++◌,
  append_assoc, append-nil, length, length-append, get_or, ◌==◌, all_below, all_below_sound, arith,
  if◌then◌else◌, Option-cases, inl, inr,
}
use scrigno.Prelude.Bytes.{Bytes, IsBytes}
use scrigno.Codec.{position}
use scrigno.Codec.Base64.{
  std_alphabet, symbol, encode_chunk, base64_encode, base64_char_value, chunk_values, decode_chunk,
  decode_chunks, base64_decode,
}
use scrigno.Prelude.Options.{◌>>=◌}

abbrev finds : ℕ → Bool
finds i = elim (base64_char_value (symbol i)) [ none ↦ false | some j ↦ j == i ]

symbol_table : all_below 64 (λ i. finds i && (if symbol i == b'=' then false else true)) ≡ true
unfolding all_below base64_char_value symbol position
symbol_table = refl

char_value-symbol_lt :
    (i : ℕ) → i < 64 → (base64_char_value (symbol i) ≡ some i) × ((symbol i == b'=') ≡ false)
char_value-symbol_lt i h =
    let t = all_below_sound 64 _ symbol_table i h in (ground arith, ground arith)

symbol-mod : (i : ℕ) → symbol i ≡ symbol (i % 64)
unfolding symbol
symbol-mod i = let e : i % 64 ≡ i % 64 % 64 = omega arith in ap (λ k. get_or std_alphabet k 0) e

-- The value of a symbol that the encoder writes, and that it is no padding.
char_value-symbol : (i : ℕ) → base64_char_value (symbol i) ≡ some (i % 64)
char_value-symbol i = rw symbol-mod ((char_value-symbol_lt (i % 64) (omega arith)).0)

symbol-ne-pad : (i : ℕ) → (symbol i == b'=') ≡ false
symbol-ne-pad i = rw symbol-mod ((char_value-symbol_lt (i % 64) (omega arith)).1)

-- A symbol gives its six bits, as long as no padding was seen.
chunk_values-symbol :
    (i : ℕ) (cs : Bytes)
    → chunk_values (symbol i ∷ cs) 0
      ≡ (chunk_values cs 0 >>= λ (vals, total). some (i % 64 ∷ vals, total))
unfolding chunk_values
chunk_values-symbol i cs = ground (arith, symbol-ne-pad i, char_value-symbol i)

decode_chunk-three :
    (b0 b1 b2 : ℕ)
    → IsBytes (b0 ∷ b1 ∷ b2 ∷ [])
    → decode_chunk (encode_chunk b0 (some b1) (some b2)) ≡ some (b0 ∷ b1 ∷ b2 ∷ [])
unfolding encode_chunk
decode_chunk-three b0 b1 b2 h = unfold decode_chunk in simp chunk_values-symbol (ground arith)

decode_chunk-two :
    (b0 b1 : ℕ)
    → IsBytes (b0 ∷ b1 ∷ [])
    → decode_chunk (encode_chunk b0 (some b1) none) ≡ some (b0 ∷ b1 ∷ [])
unfolding encode_chunk
decode_chunk-two b0 b1 h = unfold decode_chunk in simp chunk_values-symbol (ground arith)

decode_chunk-one :
    (b0 : ℕ) → IsBytes (b0 ∷ []) → decode_chunk (encode_chunk b0 none none) ≡ some (b0 ∷ [])
unfolding encode_chunk
decode_chunk-one b0 h = unfold decode_chunk in simp chunk_values-symbol (ground arith)

abbrev prepend : Bytes → Option Bytes → Option Bytes
prepend bs o = o >>= λ out. some (bs ++ out)

-- A chunk in front is decoded by itself.
decode_chunks-chunk :
    (b0 : ℕ) (b1 b2 : Option ℕ) (bs rest : Bytes)
    → decode_chunk (encode_chunk b0 b1 b2) ≡ some bs
    → decode_chunks (encode_chunk b0 b1 b2 ++ rest) ≡ prepend bs (decode_chunks rest)
unfolding decode_chunks encode_chunk
decode_chunks-chunk b0 b1 b2 bs rest h = rw h

prepend-prepend :
    (bs cs : Bytes) (o : Option Bytes) → prepend bs (prepend cs o) ≡ prepend (bs ++ cs) o
prepend-prepend bs cs none = refl
prepend-prepend bs cs (some out) = rw append_assoc

decode_chunks-encode :
    (xs rest : Bytes)
    → IsBytes xs
    → decode_chunks (base64_encode xs ++ rest) ≡ prepend xs (decode_chunks rest)
unfolding base64_encode
decode_chunks-encode [] rest h = elim (Option-cases (decode_chunks rest)) [
  | inl e ↦ rw e
  | inr (out, e) ↦ rw e
]
decode_chunks-encode (b0 ∷ []) rest h =
    decode_chunks-chunk b0 none none _ rest (decode_chunk-one b0 h)
decode_chunks-encode (b0 ∷ b1 ∷ []) rest h =
    decode_chunks-chunk b0 (some b1) none _ rest (decode_chunk-two b0 b1 h)
decode_chunks-encode (b0 ∷ b1 ∷ b2 ∷ xs) rest h =
    rw
      (
        append_assoc,
        decode_chunks-chunk b0 (some b1) (some b2) (b0 ∷ b1 ∷ b2 ∷ []) _
            (decode_chunk-three b0 b1 b2 (h.0, (h.1.0, (h.1.1.0, tt)))),
        decode_chunks-encode xs rest h.1.1.1,
      )
      (prepend-prepend (b0 ∷ b1 ∷ b2 ∷ []) xs (decode_chunks rest))

base64_decode-chunks : (s : Bytes) → length s % 4 ≡ 0 → base64_decode s ≡ decode_chunks s
unfolding base64_decode
base64_decode-chunks [] h = refl
base64_decode-chunks (c ∷ cs) h = ground arith

base64_decode-misaligned : (s : Bytes) → length s % 4 ≢ 0 → base64_decode s ≡ none
unfolding base64_decode
base64_decode-misaligned [] h = absurd (omega arith)
base64_decode-misaligned (c ∷ cs) h = ground arith

length-encode_mod : (xs : Bytes) → length (base64_encode xs) % 4 ≡ 0
unfolding base64_encode encode_chunk
length-encode_mod [] = refl
length-encode_mod (b0 ∷ []) = refl
length-encode_mod (b0 ∷ b1 ∷ []) = refl
length-encode_mod (b0 ∷ b1 ∷ b2 ∷ xs) = omega (arith, length-encode_mod xs)

decode_chunks-encode_whole : (xs : Bytes) → IsBytes xs → decode_chunks (base64_encode xs) ≡ some xs
unfolding decode_chunks
decode_chunks-encode_whole xs h = simp append-nil at (decode_chunks-encode xs [] h)

-- The concatenation of two encodings of byte strings is decoded to the concatenation of the two,
-- also where the first encoding ends in padding: `=` is accepted at the end of every group of four.
pub base64_decode-append :
    (xs ys : Bytes)
    → IsBytes xs
    → IsBytes ys
    → base64_decode (base64_encode xs ++ base64_encode ys) ≡ some (xs ++ ys)
base64_decode-append xs ys hx hy =
    let aligned : length (base64_encode xs ++ base64_encode ys) % 4 ≡ 0 = omega (
      arith,
      length-append (base64_encode xs) (base64_encode ys),
      length-encode_mod xs,
      length-encode_mod ys,
    ) in
    rw (
      base64_decode-chunks _ aligned,
      decode_chunks-encode xs (base64_encode ys) hx,
      decode_chunks-encode_whole ys hy,
    )

-- Every byte string is decoded from its encoding.
pub base64_decode-encode : (xs : Bytes) → IsBytes xs → base64_decode (base64_encode xs) ≡ some xs
base64_decode-encode xs h =
    rw (base64_decode-chunks _ (length-encode_mod xs)) (decode_chunks-encode_whole xs h)
