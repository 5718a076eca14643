-- ===== src/Base/Decimal/Laws.antt =====
-- What `format_int` writes: its length, and that `parse_int` reads it back.
use dist_cache.Base.Tests.{Bytes}
use dist_cache.Base.Lists.{length, length-append}
use dist_cache.Base.Int64.{ℤ, pos, negsuc, IsInt64}
use dist_cache.Base.Decimal.{digits, format_nat, format_int, read_digits, read_nat, parse_int}
use Prim.Native.Nat.{ℕ, zero, suc, ◌+◌, ◌-◌, ◌*◌, ◌/◌, ◌%◌, ◌^◌, ◌≤◌, ◌<◌}
use mathlib.Core.Path.{◌≡◌, refl, sym, ap, ◌∙◌}
use mathlib.Core.Option.{some}
use mathlib.Core.List.{[], ◌∷◌, ◌++◌}
use native.Mathlib.Omega.{arith}
use native.Mathlib.Nat.{pow-suc}
use native.Mathlib.Numerals.{add-one}
use native.Mathlib.Decide.{dec_lt}

length-digits-le : (f n : ℕ) → length (digits f n) ≤ f
unfolding digits
length-digits-le zero n = omega arith
length-digits-le (suc f) n =
    ground
      (arith, length-digits-le f (n / 10), length-append (digits f (n / 10)) ((48 + n % 10) ∷ []))

pub length-format_int-le : (a : ℤ) → length (format_int a) ≤ 21
unfolding format_int
length-format_int-le (pos n) = ground (arith, length-digits-le 20 n)
length-format_int-le (negsuc n) = ground (arith, length-digits-le 20 (n + 1))

read_digits-append :
    (acc m : ℕ) (cs ds : Bytes)
    → read_digits acc cs ≡ some m
    → read_digits acc (cs ++ ds) ≡ read_digits m ds
unfolding read_digits
read_digits-append acc m [] ds h = ground arith
read_digits-append acc m (c ∷ cs) ds h =
    ground (arith, read_digits-append (acc * 10 + (c - 48)) m cs ds)

digits_one : (f n : ℕ) → n < 10 → digits (suc f) n ≡ (48 + n) ∷ []
unfolding digits
digits_one f n h = ground arith

digits_more : (f n : ℕ) → 10 ≤ n → digits (suc f) n ≡ digits f (n / 10) ++ (48 + n % 10) ∷ []
unfolding digits
digits_more f n h = ground arith

read_one : (m d : ℕ) → d < 10 → read_digits m ((48 + d) ∷ []) ≡ some (m * 10 + d)
unfolding read_digits
read_one m d h = ground arith

tenth : (f n : ℕ) → n < 10 ^ suc (suc f) → n / 10 < 10 ^ suc f
tenth f n h = omega (arith, pow-suc 10 (suc f))

read_digits-digits : (f n : ℕ) → n < 10 ^ suc f → read_digits 0 (digits (suc f) n) ≡ some n
read_digits-digits zero n h =
    rw (digits_one 0 n (omega arith)) (read_one 0 n (omega arith) ∙ ap some (omega arith))
read_digits-digits (suc f) n h = elim (dec_lt n 10) [
  | yes small ↦ rw (digits_one (suc f) n small) (read_one 0 n small ∙ ap some (omega arith))
  | no large ↦ rw (digits_more (suc f) n (omega arith)) (
      read_digits-append 0 (n / 10) (digits (suc f) (n / 10)) ((48 + n % 10) ∷ [])
        (read_digits-digits f (n / 10) (tenth f n h))
      ∙ read_one (n / 10) (n % 10) (omega arith)
      ∙ ap some (omega arith))
]

-- The first byte of a number is a digit, so no sign is read.
digits_head : (f n : ℕ) → (c : ℕ) × (cs : Bytes) × (digits (suc f) n ≡ c ∷ cs) × (48 ≤ c) × (c ≤ 57)
digits_head zero n = elim (dec_lt n 10) [
  | yes small ↦ (48 + n, [], digits_one 0 n small, omega arith, omega arith)
  | no large ↦ (
    48 + n % 10,
    [],
    rw (digits_more 0 n (omega arith)) (unfold digits in refl),
    omega arith,
    omega arith,
  )
]
digits_head (suc f) n = elim (dec_lt n 10) [
  | yes small ↦ (48 + n, [], digits_one (suc f) n small, omega arith, omega arith)
  | no large ↦
      let (c, cs, e, lo, hi) = digits_head f (n / 10) in
      (c, cs ++ (48 + n % 10) ∷ [], rw (digits_more (suc f) n (omega arith), e), lo, hi)
]

read_nat_cons : (c : ℕ) (cs : Bytes) → read_nat (c ∷ cs) ≡ read_digits 0 (c ∷ cs)
unfolding read_nat
read_nat_cons c cs = refl

-- A run of digits is read back, whether or not a sign precedes it.
read_nat-format_nat : (n : ℕ) → n < 10 ^ 20 → read_nat (format_nat n) ≡ some n
unfolding format_nat
read_nat-format_nat n h =
    let (c, cs, e, lo, hi) = digits_head 19 n in
    ap read_nat e ∙ read_nat_cons c cs ∙ ap (read_digits 0) (sym e) ∙ read_digits-digits 19 n h

unsigned_head :
    (c : ℕ) (cs : Bytes) (n : ℕ)
    → 48 ≤ c
    → read_nat (c ∷ cs) ≡ some n
    → n < 2 ^ 63
    → parse_int (c ∷ cs) ≡ some (pos n)
unfolding parse_int
unsigned_head c cs n lo e h = ground arith

negative : (n : ℕ) → n < 2 ^ 63 → parse_int (b'-' ∷ format_nat (n + 1)) ≡ some (negsuc n)
unfolding parse_int
negative n h = rw (read_nat-format_nat (n + 1) (omega arith), add-one) (ground arith)

parse_int-unsigned : (n : ℕ) → n < 2 ^ 63 → parse_int (format_nat n) ≡ some (pos n)
unfolding format_nat
parse_int-unsigned n h =
    let (c, cs, e, lo, hi) = digits_head 19 n in
    let whole : read_nat (c ∷ cs) ≡ some n =
      ap read_nat (sym e) ∙ read_nat-format_nat n (omega arith) in
    rw e (unsigned_head c cs n lo whole h)

-- `ParseInt` reads back what `FormatInt` writes of an int64.
pub parse_int-format_int : (a : ℤ) → IsInt64 a → parse_int (format_int a) ≡ some a
unfolding format_int
parse_int-format_int (pos n) h = parse_int-unsigned n h
parse_int-format_int (negsuc n) h = negative n h
