-- ===== src/Codec/Crockford/Symbols.antt =====
-- The characters of an encoding, and its length.
use scrigno.Prelude.{
  ℕ, zero, suc, ◌+◌, ◌-◌, ◌*◌, ◌/◌, ◌%◌, ◌^◌, ◌<◌, ◌≡◌, Bool, true, [], ◌∷◌, length, length-append,
  leb, ltb, Bool-cases, inl, inr, all_below, all_below_sound, arith, All, All-append,
}
use scrigno.Prelude.Bytes.{Bytes}
use scrigno.Codec.Crockford.{symbol, emit, encode_loop, crockford_encode}
use scrigno.Codec.Crockford.RoundTrip.{symbol-mod}

-- What holds of the 32 characters of the alphabet holds of every symbol.
pub symbol_all :
    (p : ℕ → Bool) → all_below 32 (λ i. p (symbol i)) ≡ true → (i : ℕ) → p (symbol i) ≡ true
symbol_all p h i = rw symbol-mod (all_below_sound 32 (λ i. p (symbol i)) h (i % 32) (omega arith))

module _ (P : ℕ → Type 0) (holds : (i : ℕ) → P (symbol i)) where
  emit-All : (fuel bits bit_count : ℕ) → All P (emit fuel bits bit_count).0
  unfolding emit
  emit-All zero bits bit_count = tt
  emit-All (suc fuel) bits bit_count = elim (Bool-cases (leb 5 bit_count)) [
    | inl e ↦ rw e (holds (bits / 2 ^ (bit_count - 5)), emit-All fuel bits (bit_count - 5))
    | inr e ↦ rw e tt
  ]

  encode_loop-All : (xs : Bytes) (bits bit_count : ℕ) → All P (encode_loop xs bits bit_count)
  unfolding encode_loop
  encode_loop-All [] bits bit_count = elim (Bool-cases (ltb 0 bit_count)) [
    | inl e ↦ rw e (holds (bits % 2 ^ bit_count * 2 ^ (5 - bit_count)), tt)
    | inr e ↦ rw e tt
  ]
  encode_loop-All (x ∷ xs) bits bit_count =
      All-append P _ _ (emit-All (bit_count + 8) _ _) (encode_loop-All xs _ _)

  pub crockford_encode-All : (xs : Bytes) → All P (crockford_encode xs)
  unfolding crockford_encode
  crockford_encode-All xs = encode_loop-All xs 0 0

-- `while bit_count >= 5` ends by its test: the fuel is enough.
emit_left : (fuel bits bit_count : ℕ) → bit_count < fuel + 5 → (emit fuel bits bit_count).1 < 5
unfolding emit
emit_left zero bits bit_count h = omega arith
emit_left (suc fuel) bits bit_count h = ground (arith, emit_left fuel bits (bit_count - 5))

emit-length :
    (fuel bits bit_count : ℕ)
    → bit_count < fuel + 5
    → length (emit fuel bits bit_count).0 * 5 + (emit fuel bits bit_count).1 ≡ bit_count
unfolding emit
emit-length zero bits bit_count h = omega arith
emit-length (suc fuel) bits bit_count h = ground (arith, emit-length fuel bits (bit_count - 5))

encode_loop-length :
    (xs : Bytes) (bits bit_count : ℕ)
    → bit_count < 5
    → length (encode_loop xs bits bit_count) ≡ (length xs * 8 + bit_count + 4) / 5
unfolding encode_loop
encode_loop-length [] bits bit_count h = ground arith
encode_loop-length (x ∷ xs) bits bit_count h =
    let bits' : ℕ = bits * 2 ^ 8 % 2 ^ 32 + x in
    let pushed : Bytes × ℕ = emit (bit_count + 8) bits' (bit_count + 8) in
    let left : pushed.1 < 5 = emit_left (bit_count + 8) bits' (bit_count + 8) (omega arith) in
    omega (
      arith,
      length-append pushed.0 (encode_loop xs bits' pushed.1),
      emit-length (bit_count + 8) bits' (bit_count + 8) (omega arith),
      encode_loop-length xs bits' pushed.1 left,
    )

-- An encoding has one character for every five bits or part of five bits: 52 for 32 bytes.
pub length-crockford_encode : (xs : Bytes) → length (crockford_encode xs) ≡ (length xs * 8 + 4) / 5
unfolding crockford_encode
length-crockford_encode xs = omega (arith, encode_loop-length xs 0 0 (omega arith))
