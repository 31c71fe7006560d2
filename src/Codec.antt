-- ===== src/Codec.antt =====
-- crates/scrigno-core/src/codec.rs: standard Base64 and Crockford Base32.
pub mod Base64
pub mod Crockford
mod Tests
use scrigno.Prelude.{ℕ, Option, none, some, List, [], ◌∷◌, suc, ◌==◌, if◌then◌else◌}
use mathlib.Core.Option

-- `iter().position(|&x| x == c)`.
unfoldable pub position : ℕ → List ℕ → Option ℕ
position c [] = none
position c (x ∷ xs) = if x == c then some 0 else Option.map suc (position c xs)
