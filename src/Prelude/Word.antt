-- ===== src/Prelude/Word.antt =====
-- Machine words as bit patterns: a value of `u64` or `i64` is a number below 2 ^ 64, of `u32` or
-- `i32` one below 2 ^ 32. Casts, signed order, and big-endian bytes.
use Prim.Native.Nat.{ℕ, ◌+◌, ◌-◌, ◌*◌, ◌/◌, ◌%◌, ◌^◌, ◌<◌}
use mathlib.Core.Path.{◌≡◌}
use mathlib.Core.Bool.{Bool}
use mathlib.Core.List.{List, [], ◌∷◌}
use native.Mathlib.Omega.{arith}
use paper_plane.Prelude.Tests.{ltb, leb, if◌then◌else◌}

abbrev pub add64 : ℕ → ℕ → ℕ
add64 a b = (a + b) % 2 ^ 64

-- `x as i32` of a u64, and `x as u64` of an i32, which extends the sign.
abbrev pub as_i32 : ℕ → ℕ
as_i32 x = x % 2 ^ 32

abbrev pub i32_as_u64 : ℕ → ℕ
i32_as_u64 x = if ltb x (2 ^ 31) then x else x + (2 ^ 64 - 2 ^ 32)

-- Signed order: adding half of the range puts the negative patterns first.
abbrev pub lt_i32 : ℕ → ℕ → Bool
lt_i32 a b = ltb ((a + 2 ^ 31) % 2 ^ 32) ((b + 2 ^ 31) % 2 ^ 32)

abbrev pub le_i64 : ℕ → ℕ → Bool
le_i64 a b = leb ((a + 2 ^ 63) % 2 ^ 64) ((b + 2 ^ 63) % 2 ^ 64)

-- `to_be_bytes` of a u16 and a u32, and `from_be_bytes`.
abbrev pub be16 : ℕ → List ℕ
be16 x = (x / 2 ^ 8 % 2 ^ 8) ∷ (x % 2 ^ 8) ∷ []

abbrev pub be32 : ℕ → List ℕ
be32 x = (x / 2 ^ 24 % 2 ^ 8) ∷ (x / 2 ^ 16 % 2 ^ 8) ∷ (x / 2 ^ 8 % 2 ^ 8) ∷ (x % 2 ^ 8) ∷ []

abbrev pub from_be16 : ℕ → ℕ → ℕ
from_be16 a b = a * 2 ^ 8 + b

abbrev pub from_be32 : ℕ → ℕ → ℕ → ℕ → ℕ
from_be32 a b c d = a * 2 ^ 24 + b * 2 ^ 16 + c * 2 ^ 8 + d

pub i32_round_trip : (x : ℕ) → x < 2 ^ 31 → i32_as_u64 (as_i32 x) ≡ x
i32_round_trip x h = ground arith
