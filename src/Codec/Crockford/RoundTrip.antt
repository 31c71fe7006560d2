-- ===== src/Codec/Crockford/RoundTrip.antt =====
-- Decoding what `crockford_encode` wrote.
use mathlib.Core.List.{map}
use scrigno.Prelude.{
  ℕ, zero, suc, ◌+◌, ◌-◌, ◌*◌, ◌/◌, ◌%◌, ◌^◌, ◌<◌, ◌≡◌, ◌∙◌, refl, ap, Bool, true, false, Option,
  none, some, [], ◌∷◌, get_or, leb, ◌==◌, all_below, all_below_sound, arith, if◌then◌else◌,
}
use scrigno.Prelude.Bytes.{Bytes, IsBytes}
use scrigno.Prelude.Options.{◌>>=◌}
use scrigno.Codec.{position}
use scrigno.Codec.Crockford.{
  crockford_alphabet, symbol, shift_in, encode_loop, crockford_encode, crockford_char_value,
  to_ascii_uppercase, decode_loop, crockford_decode,
}

abbrev finds : ℕ → Bool
finds i = elim (crockford_char_value (symbol i)) [ none ↦ false | some j ↦ j == i ]

symbol_table : all_below 32 finds ≡ true
unfolding all_below crockford_char_value symbol position
symbol_table = refl

char_value-symbol_lt : (i : ℕ) → i < 32 → crockford_char_value (symbol i) ≡ some i
char_value-symbol_lt i h = let t = all_below_sound 32 _ symbol_table i h in ground arith

pub symbol-mod : (i : ℕ) → symbol i ≡ symbol (i % 32)
unfolding symbol
symbol-mod i =
    let e : i % 32 ≡ i % 32 % 32 = omega arith in ap (λ k. get_or crockford_alphabet k 0) e

pub char_value-symbol : (i : ℕ) → crockford_char_value (symbol i) ≡ some (i % 32)
char_value-symbol i = rw symbol-mod (char_value-symbol_lt (i % 32) (omega arith))

-- One symbol of the encoder in front of the decoder's input.
decode_loop-short :
    (i : ℕ) (cs : Bytes) (bits bit_count : ℕ)
    → bit_count < 3
    → decode_loop (symbol i ∷ cs) bits bit_count
      ≡ decode_loop cs (shift_in bits 5 (i % 32)) (bit_count + 5)
unfolding decode_loop
decode_loop-short i cs bits bit_count h = rw char_value-symbol (ground arith)

decode_loop-byte :
    (i : ℕ) (cs : Bytes) (bits left bit_count : ℕ)
    → bit_count ≡ left + 3
    → decode_loop (symbol i ∷ cs) bits bit_count ≡ (
        decode_loop cs (shift_in bits 5 (i % 32)) left >>= λ out.
        some ((shift_in bits 5 (i % 32) / 2 ^ left % 256) ∷ out))
unfolding decode_loop
decode_loop-byte i cs bits left bit_count h =
    let e : bit_count + 5 - 8 ≡ left = omega arith in
    let t : leb 8 (bit_count + 5) ≡ true = ground arith in rw (char_value-symbol, t, e)

-- The decoder's bits when the encoder holds `c` of them: the two have read the same bytes, and
-- the last of these is split between them unless `c` is 0.
abbrev decoder_count : ℕ → ℕ
decoder_count c = (8 - c) % 8

abbrev pending : ℕ → ℕ → ℕ → Bytes → Bytes
pending c e d xs = if c == 0 then xs else (d % 2 ^ (8 - c) * 2 ^ c + e % 2 ^ c) ∷ xs

decode_loop-nil :
    (bits bit_count : ℕ) → bits % 2 ^ bit_count ≡ 0 → decode_loop [] bits bit_count ≡ some []
unfolding decode_loop
decode_loop-nil bits bit_count h = ground arith

decode_loop_last :
    (i bits left bit_count : ℕ)
    → bit_count ≡ left + 3
    → shift_in bits 5 (i % 32) % 2 ^ left ≡ 0
    → decode_loop (symbol i ∷ []) bits bit_count
      ≡ some ((shift_in bits 5 (i % 32) / 2 ^ left % 256) ∷ [])
decode_loop_last i bits left bit_count h z =
    rw (decode_loop-byte i [] bits left bit_count h, decode_loop-nil _ left z)

two_bytes :
    (a b c d : ℕ) (xs : Bytes)
    → a ≡ c
    → b ≡ d
    → ◌≡◌ {A = Option Bytes} (some (a ∷ b ∷ xs)) (some (c ∷ d ∷ xs))
two_bytes a b c d xs p q = cc

one_byte : (a c : ℕ) (xs : Bytes) → a ≡ c → ◌≡◌ {A = Option Bytes} (some (a ∷ xs)) (some (c ∷ xs))
one_byte a c xs p = cc

encode_loop_sync :
    (xs : Bytes) (c e d : ℕ)
    → IsBytes xs
    → c < 5
    → decode_loop (encode_loop xs e c) d (decoder_count c) ≡ some (pending c e d xs)
unfolding encode_loop
encode_loop_sync [] zero e d _ h = unfold decode_loop in refl
encode_loop_sync [] (suc zero) e d _ h =
    decode_loop_last (e % 2 * 16) d 4 7 refl (omega arith) ∙ one_byte _ _ [] (omega arith)
encode_loop_sync [] (suc (suc zero)) e d _ h =
    decode_loop_last (e % 4 * 8) d 3 6 refl (omega arith) ∙ one_byte _ _ [] (omega arith)
encode_loop_sync [] (suc (suc (suc zero))) e d _ h =
    decode_loop_last (e % 8 * 4) d 2 5 refl (omega arith) ∙ one_byte _ _ [] (omega arith)
encode_loop_sync [] (suc (suc (suc (suc zero)))) e d _ h =
    decode_loop_last (e % 16 * 2) d 1 4 refl (omega arith) ∙ one_byte _ _ [] (omega arith)
encode_loop_sync [] (suc (suc (suc (suc (suc c))))) e d _ h = absurd (omega arith)
encode_loop_sync (x ∷ xs) zero e d hx h =
    rw
      (
        decode_loop-short _ _ d 0 (omega arith),
        encode_loop_sync xs 3 (shift_in e 8 x) _ hx.1 (omega arith),
      )
      (one_byte _ _ xs (omega (arith, hx.0)))
encode_loop_sync (x ∷ xs) (suc zero) e d hx h =
    rw
      (decode_loop-byte _ _ d 4 7 refl, encode_loop_sync xs 4 (shift_in e 8 x) _ hx.1 (omega arith))
      (two_bytes _ _ _ _ xs (omega (arith, hx.0)) (omega (arith, hx.0)))
encode_loop_sync (x ∷ xs) (suc (suc zero)) e d hx h =
    rw
      (
        decode_loop-byte _ _ d 3 6 refl,
        decode_loop-byte _ _ _ 0 3 refl,
        encode_loop_sync xs 0 (shift_in e 8 x) _ hx.1 (omega arith),
      )
      (two_bytes _ _ _ _ xs (omega (arith, hx.0)) (omega (arith, hx.0)))
encode_loop_sync (x ∷ xs) (suc (suc (suc zero))) e d hx h =
    rw
      (
        decode_loop-byte _ _ d 2 5 refl,
        decode_loop-short _ _ _ 2 (omega arith),
        encode_loop_sync xs 1 (shift_in e 8 x) _ hx.1 (omega arith),
      )
      (two_bytes _ _ _ _ xs (omega (arith, hx.0)) (omega (arith, hx.0)))
encode_loop_sync (x ∷ xs) (suc (suc (suc (suc zero)))) e d hx h =
    rw
      (
        decode_loop-byte _ _ d 1 4 refl,
        decode_loop-short _ _ _ 1 (omega arith),
        encode_loop_sync xs 2 (shift_in e 8 x) _ hx.1 (omega arith),
      )
      (two_bytes _ _ _ _ xs (omega (arith, hx.0)) (omega (arith, hx.0)))
encode_loop_sync (x ∷ xs) (suc (suc (suc (suc (suc c))))) e d hx h = absurd (omega arith)

-- Every byte string is decoded from its encoding.
pub crockford_decode-encode :
    (xs : Bytes) → IsBytes xs → crockford_decode (crockford_encode xs) ≡ some xs
unfolding crockford_decode crockford_encode
crockford_decode-encode xs h = encode_loop_sync xs 0 0 0 h (omega arith)

to_ascii_uppercase_twice :
    (c : ℕ) → to_ascii_uppercase (to_ascii_uppercase c) ≡ to_ascii_uppercase c
to_ascii_uppercase_twice c = ground arith

decode_loop-uppercase :
    (cs : Bytes) (bits bit_count : ℕ)
    → decode_loop (map to_ascii_uppercase cs) bits bit_count ≡ decode_loop cs bits bit_count
unfolding decode_loop crockford_char_value
decode_loop-uppercase [] bits bit_count = refl
decode_loop-uppercase (c ∷ cs) bits bit_count =
    simp (to_ascii_uppercase_twice, decode_loop-uppercase cs)

-- Upper and lower case are decoded alike.
pub crockford_decode-uppercase :
    (cs : Bytes) → crockford_decode (map to_ascii_uppercase cs) ≡ crockford_decode cs
unfolding crockford_decode
crockford_decode-uppercase cs = decode_loop-uppercase cs 0 0
