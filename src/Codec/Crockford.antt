-- ===== src/Codec/Crockford.antt =====
-- `crockford_encode` and `crockford_decode` of crates/scrigno-core/src/codec.rs. `bits` is a `u32`:
-- `bits << k` drops what passes 2 ^ 32. A string is the list of its code points.
pub mod RoundTrip
pub mod Symbols
use scrigno.Prelude.{
  ℕ, zero, suc, ◌+◌, ◌-◌, ◌*◌, ◌/◌, ◌%◌, ◌^◌, Bool, true, false, ◌&&◌, Option, none, some, List, [],
  ◌∷◌, ◌++◌, get_or, ltb, leb, ◌==◌, if◌then◌else◌,
}
use scrigno.Prelude.Bytes.{Bytes, codes}
use scrigno.Prelude.Options.{◌>>=◌}
use scrigno.Codec.{position}

abbrev pub crockford_alphabet : Bytes
crockford_alphabet = codes "0123456789ABCDEFGHJKMNPQRSTVWXYZ"

-- `CROCKFORD_ALPHABET[i & 0x1f]`; the index is below 32, so the default is never read.
unfoldable pub symbol : ℕ → ℕ
symbol i = get_or crockford_alphabet (i % 32) 0

-- `bits << k`, with the new low bits put in by `|`.
abbrev pub shift_in : ℕ → ℕ → ℕ → ℕ
shift_in bits k low = bits * 2 ^ k % 2 ^ 32 + low

-- `while bit_count >= 5`, on fuel: the symbols pushed, and the bits that are left.
emit : ℕ → ℕ → ℕ → Bytes × ℕ
emit zero bits bit_count = ([], bit_count)
emit (suc fuel) bits bit_count =
    let left = bit_count - 5 in
    let rest = emit fuel bits left in
    if leb 5 bit_count then (symbol (bits / 2 ^ left) ∷ rest.0, rest.1) else ([], bit_count)

-- The `for` loop over the bytes, and the symbol of the bits that are left over at its end.
encode_loop : Bytes → ℕ → ℕ → Bytes
unfolding emit
encode_loop [] bits bit_count =
    if ltb 0 bit_count then symbol (bits % 2 ^ bit_count * 2 ^ (5 - bit_count)) ∷ [] else []
encode_loop (byte ∷ rest) bits bit_count =
    let bits' = shift_in bits 8 byte in
    let pushed = emit (bit_count + 8) bits' (bit_count + 8) in
    pushed.0 ++ encode_loop rest bits' pushed.1

unfoldable pub crockford_encode : Bytes → Bytes
unfolding encode_loop symbol
crockford_encode input = encode_loop input 0 0

-- `char::to_ascii_uppercase`.
abbrev pub to_ascii_uppercase : ℕ → ℕ
to_ascii_uppercase c = if leb b'a' c && leb c b'z' then c - 32 else c

pub crockford_char_value : ℕ → Option ℕ
crockford_char_value c = position (to_ascii_uppercase c) crockford_alphabet

-- The `for` loop over the characters; bits left over at its end must be zero.
decode_loop : Bytes → ℕ → ℕ → Option Bytes
decode_loop [] bits bit_count =
    if ltb 0 bit_count then (if bits % 2 ^ bit_count == 0 then some [] else none) else some []
decode_loop (c ∷ cs) bits bit_count = do
  val ← crockford_char_value c
  let bits' = shift_in bits 5 val
  if leb 8 (bit_count + 5)
      then (do
        out ← decode_loop cs bits' (bit_count + 5 - 8)
        some ((bits' / 2 ^ (bit_count + 5 - 8) % 256) ∷ out))
      else decode_loop cs bits' (bit_count + 5)

unfoldable pub crockford_decode : Bytes → Option Bytes
unfolding decode_loop crockford_char_value
crockford_decode input = decode_loop input 0 0
