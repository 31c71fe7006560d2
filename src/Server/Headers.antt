-- ===== src/Server/Headers.antt =====
-- `require_if_match` of routes/docs.rs, and the integer parsers of the standard library that the
-- routes call. A header is the list of its bytes.
use scrigno.Prelude.{
  ℕ, ◌+◌, ◌-◌, ◌*◌, ◌^◌, ◌≤◌, ◌≡◌, ◌≢◌, refl, Bool, true, ◌&&◌, ◌||◌, Option, none, some, [], ◌∷◌,
  ◌++◌, ltb, leb, ◌==◌, if◌then◌else◌, Result, err, ok_or, arith,
}
use mathlib.Core.List.{reverse}
use scrigno.Prelude.Bytes.{Bytes}
use scrigno.Server.{ApiError, bad_request}

-- The digits of a number, refused once the value passes `limit`.
unfoldable pub parse_digits : ℕ → Bytes → ℕ → Option ℕ
parse_digits limit [] n = some n
parse_digits limit (c ∷ cs) n =
    let n' = n * 10 + (c - b'0') in
    let rest = parse_digits limit cs n' in
    if leb b'0' c && leb c b'9' && leb n' limit then rest else none

-- `parse::<u64>` and the like: one `+` may stand in front of at least one digit.
unfoldable pub parse_unsigned : ℕ → Bytes → Option ℕ
unfolding parse_digits
parse_unsigned limit [] = none
parse_unsigned limit (c ∷ []) = parse_digits limit (c ∷ []) 0
parse_unsigned limit (c ∷ d ∷ cs) =
    if c == b'+' then parse_digits limit (d ∷ cs) 0 else parse_digits limit (c ∷ d ∷ cs) 0

-- `parse::<i32>().ok().filter(|v| *v >= 0)`: of the negative numbers only `-0` passes the filter.
parse_i32_nonneg : Bytes → Option ℕ
parse_i32_nonneg (c ∷ d ∷ cs) =
    if c == b'-' then parse_digits 0 (d ∷ cs) 0 else parse_unsigned (2 ^ 31 - 1) (c ∷ d ∷ cs)
parse_i32_nonneg s = parse_unsigned (2 ^ 31 - 1) s

-- `HeaderValue::to_str`: visible ASCII, blanks and tabs.
unfoldable pub is_text : Bytes → Bool
is_text [] = true
is_text (c ∷ cs) = (leb 32 c && ltb c 127 || c == 9) && is_text cs

-- `str::trim` on such a text.
trim_start : Bytes → Bytes
trim_start [] = []
trim_start (c ∷ cs) = if c == 32 || c == 9 then trim_start cs else c ∷ cs

trim : Bytes → Bytes
unfolding trim_start
trim s = reverse (trim_start (reverse (trim_start s)))

-- `str::strip_prefix`.
unfoldable pub strip_prefix : Bytes → Bytes → Option Bytes
strip_prefix [] s = some s
strip_prefix (p ∷ ps) [] = none
strip_prefix (p ∷ ps) (c ∷ s) = if p == c then strip_prefix ps s else none

unfoldable pub require_if_match : Option Bytes → Result ApiError ℕ
unfolding is_text trim parse_i32_nonneg parse_unsigned
require_if_match none = err (bad_request "If-Match header is required")
require_if_match (some raw) =
    if is_text raw
    then ok_or (parse_i32_nonneg (trim raw)) (bad_request "If-Match must be a non-negative integer")
    else err (bad_request "If-Match header is not valid UTF-8")

parse_digits-le :
    (limit : ℕ) (s : Bytes) (n v : ℕ) → n ≤ limit → parse_digits limit s n ≡ some v → v ≤ limit
unfolding parse_digits
parse_digits-le limit [] n v h e = ground arith
parse_digits-le limit (c ∷ cs) n v h e =
    ground (arith, parse_digits-le limit cs (n * 10 + (c - b'0')) v)

pub parse_unsigned-le :
    (limit : ℕ) (s : Bytes) (v : ℕ) → parse_unsigned limit s ≡ some v → v ≤ limit
unfolding parse_unsigned
parse_unsigned-le limit [] v e = cc
parse_unsigned-le limit (c ∷ []) v e = parse_digits-le limit (c ∷ []) 0 v (omega arith) e
parse_unsigned-le limit (c ∷ d ∷ cs) v e =
    ground (arith, parse_digits-le limit (d ∷ cs) 0 v, parse_digits-le limit (c ∷ d ∷ cs) 0 v)

pub strip_prefix-eq : (p s rest : Bytes) → strip_prefix p s ≡ some rest → s ≡ p ++ rest
unfolding strip_prefix
strip_prefix-eq [] s rest h = ground arith
strip_prefix-eq (c ∷ p) [] rest h = ground arith
strip_prefix-eq (c ∷ p) (d ∷ s) rest h = ground (arith, strip_prefix-eq p s rest)

pub strip_prefix-append : (p rest : Bytes) → strip_prefix p (p ++ rest) ≡ some rest
unfolding strip_prefix
strip_prefix-append [] rest = ground arith
strip_prefix-append (c ∷ p) rest = ground (arith, strip_prefix-append p rest)

pub parse_digits-append :
    (limit : ℕ) (s rest : Bytes) (n v : ℕ)
    → parse_digits limit s n ≡ some v
    → parse_digits limit (s ++ rest) n ≡ parse_digits limit rest v
unfolding parse_digits
parse_digits-append limit [] rest n v h = ground arith
parse_digits-append limit (c ∷ s) rest n v h =
    ground (arith, parse_digits-append limit s rest (n * 10 + (c - b'0')) v)

-- Digits alone are read as they stand.
pub parse_unsigned-parse_digits :
    (limit : ℕ) (s : Bytes) (v : ℕ)
    → s ≢ []
    → parse_digits limit s 0 ≡ some v
    → parse_unsigned limit s ≡ some v
unfolding parse_unsigned parse_digits
parse_unsigned-parse_digits limit [] v ne h = absurd (ne refl)
parse_unsigned-parse_digits limit (c ∷ []) v ne h = h
parse_unsigned-parse_digits limit (c ∷ d ∷ s) v ne h = ground arith
