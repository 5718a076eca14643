-- ===== src/Base/Decimal.antt =====
-- strconv on byte strings: `FormatInt(n, 10)` and `ParseInt(s, 10, 64)`.
pub mod Laws
use dist_cache.Base.Tests.{ltb, leb, ◌==◌, if◌then◌else◌, Bytes}
use dist_cache.Base.Int64.{ℤ, pos, negsuc}
use Prim.Native.Nat.{ℕ, zero, suc, ◌+◌, ◌-◌, ◌*◌, ◌/◌, ◌%◌, ◌^◌, ◌≤◌, ◌<◌}
use mathlib.Core.Path.{◌≡◌, refl, ap, ◌∙◌}
use mathlib.Core.Bool.{Bool, true, false, ◌&&◌}
use mathlib.Core.Option.{Option, none, some}
use mathlib.Core.List.{List, [], ◌∷◌, ◌++◌}
use native.Mathlib.Omega.{arith}

-- The decimal digits of `n`, with fuel for the number of digits.
unfoldable pub digits : ℕ → ℕ → Bytes
digits zero n = []
digits (suc f) n =
    let more = digits f (n / 10) in if ltb n 10 then (48 + n) ∷ [] else more ++ (48 + n % 10) ∷ []

-- A number below 2 ^ 64 has at most 20 digits.
unfoldable pub format_nat : ℕ → Bytes
unfolding digits
format_nat n = digits 20 n

unfoldable pub format_int : ℤ → Bytes
unfolding format_nat
format_int (pos n) = format_nat n
format_int (negsuc n) = b'-' ∷ format_nat (n + 1)

-- The value of a run of digits, read from the left.
unfoldable pub read_digits : ℕ → Bytes → Option ℕ
read_digits acc [] = some acc
read_digits acc (c ∷ cs) =
    if leb 48 c && leb c 57 then read_digits (acc * 10 + (c - 48)) cs else none

-- At least one digit.
unfoldable pub read_nat : Bytes → Option ℕ
unfolding read_digits
read_nat [] = none
read_nat (c ∷ cs) = read_digits 0 (c ∷ cs)

abbrev signed : Bool → Option ℕ → Option ℤ
signed neg none = none
signed false (some n) = if ltb n (2 ^ 63) then some (pos n) else none
signed true (some zero) = some (pos 0)
signed true (some (suc n)) = if ltb n (2 ^ 63) then some (negsuc n) else none

-- `none` is the syntax error and the range error alike.
unfoldable pub parse_int : Bytes → Option ℤ
unfolding read_nat
parse_int [] = none
parse_int (c ∷ cs) =
    if c == b'-'
    then signed true (read_nat cs)
    else if c == b'+'
    then signed false (read_nat cs)
    else signed false (read_nat (c ∷ cs))
