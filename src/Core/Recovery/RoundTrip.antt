-- ===== src/Core/Recovery/RoundTrip.antt =====
-- What the user may type for a recovery code.
use mathlib.Core.List.{map}
use scrigno.Prelude.{
  ℕ, ◌+◌, ◌%◌, ◌≡◌, ◌∙◌, refl, sym, ap, Bool, true, false, ◌&&◌, some, [], ◌∷◌, ◌++◌, length, ltb,
  ◌==◌, if◌then◌else◌, ok, ◌>>=◌, arith, All, all_below,
}
use scrigno.Prelude.Bytes.{Bytes, IsBytes}
use scrigno.Codec.Crockford.Symbols.{symbol_all, crockford_encode-All}
use scrigno.Codec.Crockford.{symbol, to_ascii_uppercase, crockford_encode, crockford_decode}
use scrigno.Codec.Crockford.RoundTrip.{crockford_decode-encode, crockford_decode-uppercase}
use scrigno.Core.Recovery.{
  clean, is_kept, is_whitespace, format_from, format_grouped, generate_code, parse_code, code_len,
}

abbrev AllKept : Bytes → Type 0
AllKept = All (λ c. is_kept c ≡ true)

clean-dash : (cs : Bytes) → clean (b'-' ∷ cs) ≡ clean cs
unfolding clean is_whitespace
clean-dash cs = refl

clean-kept : (c : ℕ) (cs : Bytes) → is_kept c ≡ true → clean (c ∷ cs) ≡ c ∷ clean cs
unfolding clean
clean-kept c cs h = rw h

clean-separated : (b : Bool) (cs : Bytes) → clean ((if b then b'-' ∷ [] else []) ++ cs) ≡ clean cs
clean-separated true cs = clean-dash cs
clean-separated false cs = refl

clean-format_from : (i : ℕ) (cs : Bytes) → AllKept cs → clean (format_from i cs) ≡ cs
unfolding format_from
clean-format_from i [] h = unfold clean in refl
clean-format_from i (c ∷ cs) h =
    clean-separated (ltb 0 i && i % 4 == 0) (c ∷ format_from (i + 1) cs)
    ∙ clean-kept c (format_from (i + 1) cs) h.0
    ∙ ap (λ t. c ∷ t) (clean-format_from (i + 1) cs h.1)

-- Every character that the encoder writes is kept.
kept_table : all_below 32 (λ i. is_kept (symbol i)) ≡ true
unfolding all_below is_whitespace symbol
kept_table = refl

clean-format_grouped_encode :
    (xs : Bytes) → clean (format_grouped (crockford_encode xs)) ≡ crockford_encode xs
unfolding format_grouped
clean-format_grouped_encode xs =
    clean-format_from 0 (crockford_encode xs)
      (crockford_encode-All (λ c. is_kept c ≡ true) (symbol_all is_kept kept_table) xs)

-- A generated code is parsed back to the 32 random bytes that it was made from.
pub parse_code-generate_code :
    (bytes : Bytes)
    → IsBytes bytes
    → length bytes ≡ code_len
    → (generate_code (some bytes) >>= parse_code) ≡ ok bytes
unfolding generate_code parse_code
parse_code-generate_code bytes hb hl =
    rw (clean-format_grouped_encode bytes, crockford_decode-encode bytes hb) (ground arith)

-- `parse_code` reads a text only through its characters that are neither white space nor a dash, in
-- upper case: two texts that agree on those have the same result, whether a code or an error.
pub parse_code_typed :
    (s t : Bytes)
    → map to_ascii_uppercase (clean s) ≡ map to_ascii_uppercase (clean t)
    → parse_code s ≡ parse_code t
unfolding parse_code
parse_code_typed s t h =
    let same : crockford_decode (clean s) ≡ crockford_decode (clean t) =
      sym (crockford_decode-uppercase (clean s))
      ∙ ap crockford_decode h
      ∙ crockford_decode-uppercase (clean t) in
    rw same
