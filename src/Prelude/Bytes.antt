-- ===== src/Prelude/Bytes.antt =====
-- Byte strings, ASCII literals and big-endian numbers.
use Prim.Native.Char.{code}
use Prim.Native.String.{String}
use mathlib.Core.Bool.{Bool, true, false, ◌&&◌}
use scrigno.Prelude.Tests.{◌==◌}
use scrigno.Prelude.Lists.{length, length-append, All, append_inj}
use Prim.Native.Nat.{ℕ, zero, suc, ◌/◌, ◌%◌, ◌^◌, ◌<◌}
use native.Mathlib.Nat.{pow-suc}
use mathlib.Core.Path.{◌≡◌, refl, sym}
use mathlib.Core.List.{List, [], ◌∷◌, ◌++◌, append_assoc}
use native.Mathlib.Omega.{arith}

abbrev pub Bytes : Type 0
Bytes = List ℕ

abbrev pub IsByte : ℕ → Type 0
IsByte b = b < 256

abbrev pub IsBytes : Bytes → Type 0
IsBytes = All IsByte

-- The bytes of an ASCII literal.
abbrev pub codes : String → Bytes
codes String.[] = []
codes (String.◌∷◌ c s) = code c ∷ codes s

-- The `n` low bytes of a number, most significant first (`to_be_bytes`).
unfoldable pub be_bytes : ℕ → ℕ → Bytes
be_bytes zero v = []
be_bytes (suc n) v = be_bytes n (v / 256) ++ v % 256 ∷ []

pub length-be_bytes : (n v : ℕ) → length (be_bytes n v) ≡ n
unfolding be_bytes
length-be_bytes zero v = refl
length-be_bytes (suc n) v =
    omega (arith, length-append (be_bytes n (v / 256)) (v % 256 ∷ []), length-be_bytes n (v / 256))

be_bytes_inj_head : (v w : ℕ) → v / 256 ≡ w / 256 → v % 256 ≡ w % 256 → v ≡ w
be_bytes_inj_head v w p q = omega arith

div-lt_pow : (n v : ℕ) → v < 256 ^ suc n → v / 256 < 256 ^ n
div-lt_pow n v h = omega (arith, pow-suc 256 n)

-- Numbers that fit are told apart by their bytes.
pub be_bytes_inj : (n v w : ℕ) → v < 256 ^ n → w < 256 ^ n → be_bytes n v ≡ be_bytes n w → v ≡ w
unfolding be_bytes
be_bytes_inj zero v w hv hw e = omega arith
be_bytes_inj (suc n) v w hv hw e =
    let parts =
      append_inj (be_bytes n (v / 256)) (be_bytes n (w / 256))
        (omega (arith, length-be_bytes n (v / 256), length-be_bytes n (w / 256))) e in
    be_bytes_inj_head v w
      (be_bytes_inj n (v / 256) (w / 256) (div-lt_pow n v hv) (div-lt_pow n w hw) parts.0)
      (cc parts.1)

-- Equality of byte strings, as a test.
unfoldable pub same_bytes : Bytes → Bytes → Bool
same_bytes [] [] = true
same_bytes (a ∷ s) (b ∷ t) = a == b && same_bytes s t
same_bytes _ _ = false

pub same_bytes-eq : (s t : Bytes) → same_bytes s t ≡ true → s ≡ t
unfolding same_bytes
same_bytes-eq [] [] h = refl
same_bytes-eq [] (c ∷ t) h = ground arith
same_bytes-eq (c ∷ s) [] h = ground arith
same_bytes-eq (c ∷ s) (d ∷ t) h = ground (arith, same_bytes-eq s t)

pub same_bytes_refl : (s : Bytes) → same_bytes s s ≡ true
unfolding same_bytes
same_bytes_refl [] = refl
same_bytes_refl (c ∷ s) = ground (arith, same_bytes_refl s)

unfoldable pub starts_with : Bytes → Bytes → Bool
starts_with [] s = true
starts_with (c ∷ prefix') [] = false
starts_with (c ∷ prefix') (d ∷ s) = c == d && starts_with prefix' s

-- Byte strings one after another.
unfoldable pub join : List Bytes → Bytes
join [] = []
join (c ∷ cs) = c ++ join cs

pub join-append : (xs ys : List Bytes) → join (xs ++ ys) ≡ join xs ++ join ys
unfolding join
join-append [] ys = refl
join-append (x ∷ xs) ys = rw (join-append xs ys) (sym (append_assoc x (join xs) (join ys)))
