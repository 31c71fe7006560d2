-- ===== src/Core/Recovery.antt =====
-- crates/scrigno-core/src/recovery.rs. A string is the list of its code points.
pub mod RoundTrip
use scrigno.Prelude.{
  ℕ, zero, suc, ◌+◌, ◌%◌, Bool, true, false, not, ◌&&◌, ◌||◌, Option, none, some, List, [], ◌∷◌,
  ◌++◌, length, ltb, leb, ◌==◌, if◌then◌else◌, Result, ok, err, ok_or, ◌>>=◌,
}
use scrigno.Prelude.Bytes.{Bytes}
use scrigno.Core.{Error, invalid_recovery_code, fill_random}
use scrigno.Codec.Crockford.{crockford_encode, crockford_decode}

abbrev pub code_len : ℕ
code_len = 32

abbrev pub group_len : ℕ
group_len = 4

-- `char::is_whitespace`: the code points with the property White_Space.
unfoldable pub is_whitespace : ℕ → Bool
is_whitespace c =
    leb 9 c && leb c 13
    || c == 0x20
    || c == 0x85
    || c == 0xa0
    || c == 0x1680
    || leb 0x2000 c && leb c 0x200a
    || c == 0x2028
    || c == 0x2029
    || c == 0x202f
    || c == 0x205f
    || c == 0x3000

-- `filter(|c| !c.is_whitespace() && *c != '-')`.
abbrev pub is_kept : ℕ → Bool
is_kept c = not (is_whitespace c) && not (c == b'-')

unfoldable pub clean : Bytes → Bytes
clean [] = []
clean (c ∷ cs) = if is_kept c then c ∷ clean cs else clean cs

-- The loop of `format_grouped`, from the index `i` on.
format_from : ℕ → Bytes → Bytes
format_from i [] = []
format_from i (ch ∷ rest) =
    (if ltb 0 i && i % group_len == 0 then b'-' ∷ [] else []) ++ ch ∷ format_from (i + 1) rest

pub format_grouped : Bytes → Bytes
unfolding format_from
format_grouped raw = format_from 0 raw

pub generate_code : Option Bytes → Result Error Bytes
generate_code draw = do bytes ← fill_random draw; ok (format_grouped (crockford_encode bytes))

pub parse_code : Bytes → Result Error Bytes
parse_code code = do
  decoded ← ok_or (crockford_decode (clean code)) invalid_recovery_code
  if length decoded == code_len then ok decoded else err invalid_recovery_code
