-- ===== src/Client/Store/Numbers.antt =====
-- Numbers as the texts that the `kv` table holds: `to_string` and `parse`.
use scrigno.Prelude.{
  ℕ, zero, suc, ◌+◌, ◌-◌, ◌/◌, ◌%◌, ◌^◌, ◌≡◌, ◌≢◌, ◌≤◌, ◌<◌, Option, some, [], ◌∷◌, ◌++◌, ltb,
  if◌then◌else◌, arith,
}
use scrigno.Prelude.Bytes.{Bytes}
use scrigno.Server.Headers.{
  parse_unsigned, parse_digits, parse_digits-append, parse_unsigned-parse_digits,
}

-- The decimal digits, on fuel.
digits : ℕ → ℕ → Bytes
digits zero n = []
digits (suc fuel) n =
    let high = digits fuel (n / 10) in
    if ltb n 10 then (b'0' + n) ∷ [] else high ++ (b'0' + n % 10) ∷ []

unfoldable pub to_string : ℕ → Bytes
unfolding digits
to_string n = digits (n + 1) n

-- `parse::<i64>`, for the numbers that are not negative.
unfoldable pub parse_i64 : Bytes → Option ℕ
parse_i64 s = parse_unsigned (2 ^ 63 - 1) s

append-ne-nil : (s : Bytes) (c : ℕ) → s ++ c ∷ [] ≢ []
append-ne-nil [] c e = cc
append-ne-nil (d ∷ s) c e = cc

digits-ne-nil : (fuel n : ℕ) → digits (suc fuel) n ≢ []
unfolding digits
digits-ne-nil fuel n = ground (arith, append-ne-nil (digits fuel (n / 10)) (b'0' + n % 10))

parse_digits-digits :
    (fuel n limit : ℕ) → n < fuel → n ≤ limit → parse_digits limit (digits fuel n) 0 ≡ some n
unfolding digits parse_digits
parse_digits-digits zero n limit h l = absurd (omega arith)
parse_digits-digits (suc fuel) n limit h l = ground (
  arith,
  parse_digits-digits fuel (n / 10) limit,
  parse_digits-append limit (digits fuel (n / 10)) ((b'0' + n % 10) ∷ []) 0 (n / 10),
)

-- A number is read back from its text.
pub parse_i64-to_string : (n : ℕ) → n < 2 ^ 63 → parse_i64 (to_string n) ≡ some n
unfolding parse_i64 to_string
parse_i64-to_string n h = rw (suc_eq n) (
    parse_unsigned-parse_digits (2 ^ 63 - 1) (digits (suc n) n) n (digits-ne-nil n n)
      (parse_digits-digits (suc n) n (2 ^ 63 - 1) (omega arith) (omega arith)))
  where
    suc_eq : (n : ℕ) → n + 1 ≡ suc n
    suc_eq n = omega arith
