-- ===== src/Base/BigEndian.antt =====
-- encoding/binary's BigEndian: fixed-width unsigned integers as bytes.
use dist_cache.Base.Tests.{Bytes}
use Prim.Native.Nat.{ℕ, ◌+◌, ◌*◌, ◌/◌, ◌%◌, ◌^◌, ◌<◌}
use mathlib.Core.Path.{◌≡◌}
use mathlib.Core.List.{[], ◌∷◌, ◌++◌}
use native.Mathlib.Omega.{arith}

-- `PutUint32` writes `uint32(n)`.
abbrev pub put_u32 : ℕ → Bytes
put_u32 n = (n / 2 ^ 24 % 256) ∷ (n / 2 ^ 16 % 256) ∷ (n / 2 ^ 8 % 256) ∷ (n % 256) ∷ []

abbrev pub put_u64 : ℕ → Bytes
put_u64 n = put_u32 (n / 2 ^ 32) ++ put_u32 n

-- The first bytes of a slice, which the callers have checked to be there.
abbrev pub get_u32 : Bytes → ℕ
get_u32 (a ∷ b ∷ c ∷ d ∷ _) = a * 2 ^ 24 + b * 2 ^ 16 + c * 2 ^ 8 + d
get_u32 _ = 0

abbrev pub get_u64 : Bytes → ℕ
get_u64 (a ∷ b ∷ c ∷ d ∷ rest) = get_u32 (a ∷ b ∷ c ∷ d ∷ []) * 2 ^ 32 + get_u32 rest
get_u64 _ = 0

pub get_u32-put_u32 : (n : ℕ) (rest : Bytes) → n < 2 ^ 32 → get_u32 (put_u32 n ++ rest) ≡ n
get_u32-put_u32 n rest h = omega arith

get_u32-put_u32_mod : (n : ℕ) (rest : Bytes) → get_u32 (put_u32 n ++ rest) ≡ n % 2 ^ 32
get_u32-put_u32_mod n rest = omega arith

pub get_u64-put_u64 : (n : ℕ) (rest : Bytes) → n < 2 ^ 64 → get_u64 (put_u64 n ++ rest) ≡ n
get_u64-put_u64 n rest h =
    omega (arith, get_u32-put_u32 (n / 2 ^ 32) [] (omega arith), get_u32-put_u32_mod n rest)
