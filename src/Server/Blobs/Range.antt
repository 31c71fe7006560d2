-- ===== src/Server/Blobs/Range.antt =====
-- `parse_range` of routes/blobs.rs.
use scrigno.Prelude.{
  ℕ, ◌-◌, ◌^◌, ◌≡◌, ◌≤◌, ◌<◌, Bool, false, Option, none, some, [], ◌∷◌, ltb, leb, ◌==◌, ◌||◌,
  if◌then◌else◌, Result, ok, err, min, arith,
}
use scrigno.Prelude.Options.{◌>>=◌, >>=-eq-some}
use scrigno.Prelude.Bytes.{Bytes, codes}
use scrigno.Server.Headers.{parse_unsigned, strip_prefix}

contains : ℕ → Bytes → Bool
contains x [] = false
contains x (c ∷ s) = c == x || contains x s

-- `split_once`: what stands before the first `x`, and what stands after it.
split_once : ℕ → Bytes → Option (Bytes × Bytes)
split_once x [] = none
split_once x (c ∷ s) =
    let rest = split_once x s in
    if c == x then some ([], s) else rest >>= (λ p. some (c ∷ p.0, p.1))

-- `parse::<u64>`.
parse_u64 : Bytes → Option ℕ
parse_u64 s = parse_unsigned (2 ^ 64 - 1) s

-- `Some(Err(()))` is a range that cannot be satisfied, `None` no range at all.
abbrev pub Outcome : Type 0
Outcome = Option (Result (Unit {0}) (ℕ × ℕ))

suffix_range : Bytes → ℕ → Outcome
unfolding parse_u64
suffix_range end_str size = do
  suffix_len ← parse_u64 end_str
  if suffix_len == 0 || size == 0 then some (err tt) else some (ok (size - suffix_len, size - 1))

last_byte : Bytes → ℕ → Option ℕ
unfolding parse_u64
last_byte [] size = some (size - 1)
last_byte (c ∷ s) size = do end ← parse_u64 (c ∷ s); some (min end (size - 1))

bounded_range : Bytes → Bytes → ℕ → Outcome
unfolding parse_u64 last_byte
bounded_range start_str end_str size = do
  start ← parse_u64 start_str
  if leb size start then some (err tt) else (do
    end ← last_byte end_str size
    if ltb end start then some (err tt) else some (ok (start, end)))

spec_range : Bytes × Bytes → ℕ → Outcome
unfolding suffix_range bounded_range
spec_range ([], end_str) size = suffix_range end_str size
spec_range (c ∷ start_str, end_str) size = bounded_range (c ∷ start_str) end_str size

unfoldable pub parse_range : Bytes → ℕ → Outcome
unfolding strip_prefix contains split_once spec_range
parse_range header size = do
  spec ← strip_prefix (codes "bytes=") header
  if contains 44 spec then none else (do parts ← split_once 45 spec; spec_range parts size)

suffix_range-bounds :
    (end_str : Bytes) (size s e : ℕ)
    → suffix_range end_str size ≡ some (ok (s, e))
    → (s ≤ e) × (e < size)
unfolding suffix_range
suffix_range-bounds end_str size s e h = ground arith

bounded_range-bounds :
    (start_str end_str : Bytes) (size s e : ℕ)
    → bounded_range start_str end_str size ≡ some (ok (s, e))
    → (s ≤ e) × (e < size)
unfolding bounded_range last_byte
bounded_range-bounds start_str [] size s e h = ground arith
bounded_range-bounds start_str (c ∷ end_str) size s e h = ground arith

spec_range-bounds :
    (parts : Bytes × Bytes) (size s e : ℕ)
    → spec_range parts size ≡ some (ok (s, e))
    → (s ≤ e) × (e < size)
unfolding spec_range
spec_range-bounds ([], end_str) size s e h = suffix_range-bounds end_str size s e h
spec_range-bounds (c ∷ start_str, end_str) size s e h =
    bounded_range-bounds (c ∷ start_str) end_str size s e h

-- A range that `parse_range` accepts lies within the object and is not empty.
pub parse_range-bounds :
    (header : Bytes) (size s e : ℕ)
    → parse_range header size ≡ some (ok (s, e))
    → (s ≤ e) × (e < size)
unfolding parse_range
parse_range-bounds header size s e h =
    let (spec, _, h') = >>=-eq-some (strip_prefix (codes "bytes=") header) _ h in
    let h'' : (split_once 45 spec >>= (λ parts. spec_range parts size)) ≡ some (ok (s, e)) =
      ground arith in
    let (parts, _, g) = >>=-eq-some (split_once 45 spec) _ h'' in spec_range-bounds parts size s e g
