-- ===== src/Base/Times.antt =====
-- The order of the texts of times. The tables hold times as texts in RFC 3339 with nanoseconds, in
-- UTC and with the zeros at the end of the fraction cut off, and the statements compare the texts.
-- A time here is in nanoseconds. Texts of different seconds are ordered as the times. Within a second
-- the first byte that differs decides, and `.` and the digits are before the `Z` that ends a text.
use Prim.Native.Nat.{ℕ, zero, suc, ◌+◌, ◌*◌, ◌/◌, ◌%◌, ◌≤◌, ◌<◌}
use mathlib.Core.Path.{◌≡◌}
use mathlib.Core.Bool.{Bool, true, false}
use native.Mathlib.Omega.{arith}
use watchpost.Base.Tests.{if◌then◌else◌, eqb, ltb, ltb→lt, ltb-false}

-- the digits of a fraction in base 11
unfoldable pub digits_key : ℕ → ℕ → ℕ
digits_key zero fraction = 0
digits_key (suc n) fraction = 11 * digits_key n (fraction / 10) + fraction % 10

-- the same without the zeros at the end, in whose place a `Z` follows, the digit 10
unfoldable pub fraction_key : ℕ → ℕ → ℕ
unfolding digits_key
fraction_key zero fraction = 0
fraction_key (suc n) fraction =
    let cut = fraction_key n (fraction / 10) in
    if eqb (fraction % 10) 0
    then 11 * cut + 10
    else 11 * digits_key n (fraction / 10) + fraction % 10

-- the place of the text of a time among the texts; the factor is 11 ^ 9
unfoldable pub text_key : ℕ → ℕ
unfolding fraction_key
text_key t = 2_357_947_691 * (t / 1_000_000_000) + fraction_key 9 (t % 1_000_000_000)

-- `a < b`, of the texts of two times
unfoldable pub text_before : ℕ → ℕ → Bool
unfolding text_key
text_before a b = ltb (text_key a) (text_key b)

abbrev power : ℕ → ℕ
power zero = 1
power (suc n) = 11 * power n

digits_key-lt : (n fraction : ℕ) → digits_key n fraction < power n
unfolding digits_key
digits_key-lt zero fraction = omega arith
digits_key-lt (suc n) fraction = omega (arith, digits_key-lt n (fraction / 10))

fraction_key-lt : (n fraction : ℕ) → fraction_key n fraction < power n
unfolding fraction_key
fraction_key-lt zero fraction = omega arith
fraction_key-lt (suc n) fraction =
    ground (arith, fraction_key-lt n (fraction / 10), digits_key-lt n (fraction / 10))

fraction_key-bound : (fraction : ℕ) → fraction_key 9 fraction < 2_357_947_691
fraction_key-bound fraction = fraction_key-lt 9 fraction

-- a second more outweighs every fraction
key_seconds :
    (a b x y : ℕ)
    → x < 2_357_947_691
    → y < 2_357_947_691
    → 2_357_947_691 * a + x ≤ 2_357_947_691 * b + y
    → a ≤ b
key_seconds a b x y small small' h = omega (arith, small, small', h)

text_key-le : (a b : ℕ) → text_key a ≤ text_key b → a < b + 1_000_000_000
unfolding text_key
text_key-le a b h =
    let seconds : a / 1_000_000_000 ≤ b / 1_000_000_000 =
      key_seconds (a / 1_000_000_000) (b / 1_000_000_000) (fraction_key 9 (a % 1_000_000_000))
        (fraction_key 9 (b % 1_000_000_000)) (fraction_key-bound (a % 1_000_000_000))
        (fraction_key-bound (b % 1_000_000_000)) h in
    omega (arith, seconds)

-- the order of the texts is that of the times up to a second
pub text_before-lt : (a b : ℕ) → text_before a b ≡ true → a < b + 1_000_000_000
unfolding text_before
text_before-lt a b h =
    let less = ltb→lt (text_key a) (text_key b) h in text_key-le a b (omega (arith, less))

pub text_before_not : (a b : ℕ) → text_before a b ≡ false → b < a + 1_000_000_000
unfolding text_before
text_before_not a b h = text_key-le b a (ltb-false (text_key a) (text_key b) h)
