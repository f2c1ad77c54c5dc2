-- ===== src/Base/Decimal.antt =====
-- `Number.parseFloat` and `Number` of a text that is a plain decimal, without an exponent; the rounding
-- to cents, and `toFixed(2)`. A number is the decimal that was read. A decimal of at most two places is
-- its own number of cents, which is what the code computes up to ten million million; one of more places
-- is rounded by way of the nearest double, as the code does it. Overflow to Infinity is left out.
use Prim.Native.Nat.{ℕ, zero, suc, ◌+◌, ◌-◌, ◌*◌, ◌/◌, ◌%◌, ◌^◌}
use Prim.Native.String.{String, ◌++◌}
use mathlib.Core.Bool.{Bool, true, false}
use mathlib.Core.Path.{◌≡◌, refl}
use mathlib.Core.Option.{Option, none, some}
use mathlib.Core.List.{List, [], ◌∷◌}
use dp_integrator.Base.Tests.{◌==◌, leb, ltb, if◌then◌else◌}
use dp_integrator.Base.Search.{codes, is_digit, is_space, skip_all}
use dp_integrator.Base.Value.{Value, num, nan}
use dp_integrator.Base.Int.{ℤ, pos, negsuc, sub_ℕ, abs, neg_part}
use dp_integrator.Base.Print.{decimal}
use dp_integrator.Base.Time.{padded}

-- What was read of a number: the digits so far, how many, how many behind the point, and the rest.
record Scan : Type 0 where
  digits : ℕ
  count : ℕ
  decimals : ℕ
  rest : List ℕ

-- Behind the point.
scan_fraction : List ℕ → Scan → Scan
scan_fraction [] s = record s { rest = [] }
scan_fraction (c ∷ cs) s =
    let more = scan_fraction cs (record s {
      digits = s.digits * 10 + (c - 48);
      count = suc s.count;
      decimals = suc s.decimals;
    }) in
    if is_digit c then more else record s { rest = c ∷ cs }

scan_whole : List ℕ → Scan → Scan
unfolding scan_fraction
scan_whole [] s = record s { rest = [] }
scan_whole (c ∷ cs) s =
    let more =
      scan_whole cs (record s { digits = s.digits * 10 + (c - 48); count = suc s.count }) in
    let fraction = scan_fraction cs s in
    if is_digit c then more else if c == b'.' then fraction else record s { rest = c ∷ cs }

scan : List ℕ → Scan
unfolding scan_whole
scan cs = scan_whole cs (record { digits = 0; count = 0; decimals = 0; rest = [] })

read_number : Bool → Scan → Value
read_number negative s = if s.count == 0 then nan else num negative s.digits s.decimals

signed_scan : (Bool → Scan → Value) → List ℕ → Value
unfolding scan
signed_scan k [] = nan
signed_scan k (c ∷ cs) =
    if c == b'-'
    then k true (scan cs)
    else if c == b'+'
    then k false (scan cs)
    else k false (scan (c ∷ cs))

-- `Number.parseFloat(s)`: the longest number at the start.
unfoldable pub parse_float : String → Value
unfolding signed_scan read_number
parse_float s = signed_scan read_number (skip_all is_space (codes s))

-- Nothing but spaces may follow.
whole_number : Bool → Scan → Value
unfolding read_number
whole_number negative s = elim (skip_all is_space s.rest) [
  | [] ↦ read_number negative s
  | (c ∷ cs) ↦ nan
]

-- `Number(s)`; the empty text is zero.
unfoldable pub number_of_text : String → Value
unfolding signed_scan whole_number
number_of_text s = elim (skip_all is_space (codes s)) [
  | [] ↦ num false 0 0
  | (c ∷ cs) ↦ signed_scan whole_number (c ∷ cs)
]

-- A positive double is a quotient of two numbers.
abbrev Double : Type 0
Double = ℕ × ℕ

-- The nearest whole number, and the even one of two.
half_even : ℕ → ℕ → ℕ
half_even p q =
    let whole = p / q in
    let twice = 2 * (p % q) in
    if ltb twice q then whole else if ltb q twice then suc whole else whole + whole % 2

-- `p / q` times a power of two, so that at least 53 binary digits are before the point, with the power.
scale_up : ℕ → ℕ → ℕ → ℕ → Double
scale_up zero p q power = (p, power)
scale_up (suc fuel) p q power = elim (ltb p (2 ^ 52 * q)) [
  | true ↦ scale_up fuel (p * 2) q (power * 2)
  | false ↦ (p, power)
]

-- The power of two by which at most 53 binary digits are before the point.
scale_down : ℕ → ℕ → ℕ → ℕ → ℕ
scale_down zero p q power = power
scale_down (suc fuel) p q power = elim (ltb p (2 ^ 53 * q * power)) [
  | true ↦ power
  | false ↦ scale_down fuel p q (power * 2)
]

-- The double nearest to `p / q`, which is at least one unit of the last decimal place: it takes at most 52
-- doublings and four for each place, and at most `p` halvings.
nearest : ℕ → ℕ → ℕ → Double
nearest places p q =
    let (scaled, power) = scale_up (52 + 4 * places) p q 1 in
    let unit = scale_down p scaled q 1 in (half_even scaled (q * unit) * unit, power)

-- `Math.round` of a double with a sign, where a half goes up.
round : Bool → Double → ℤ
round negative (p, q) =
    if negative then sub_ℕ 0 ((2 * p + (q - 1)) / (2 * q)) else pos ((2 * p + q) / (2 * q))

-- A number of more than two places.
double_of : ℕ → ℕ → Double
double_of digits places = nearest places digits (10 ^ places)

times_100 : Double → ℕ → Double
times_100 (p, q) places = nearest places (p * 100) q

-- `Math.round(n * 100)`.
unfoldable pub round_cents : Bool → ℕ → ℕ → ℤ
unfolding round times_100 double_of nearest scale_up scale_down half_even
round_cents negative digits zero =
    sub_ℕ (if negative then 0 else digits * 100) (if negative then digits * 100 else 0)
round_cents negative digits (suc zero) =
    sub_ℕ (if negative then 0 else digits * 10) (if negative then digits * 10 else 0)
round_cents negative digits (suc (suc zero)) =
    sub_ℕ (if negative then 0 else digits) (if negative then digits else 0)
round_cents negative zero (suc (suc (suc k))) = pos 0
round_cents negative (suc d) (suc (suc (suc k))) =
    let places = 3 + k in round negative (times_100 (double_of (suc d) places) places)

-- `n.toFixed(2)` of a number that is not negative, as cents: the nearest to the double.
hundredths : Double → ℕ
hundredths (p, q) = (200 * p + q) / (2 * q)

unfoldable pub fixed_cents : ℕ → ℕ → ℕ
unfolding hundredths double_of nearest scale_up scale_down half_even
fixed_cents digits zero = digits * 100
fixed_cents digits (suc zero) = digits * 10
fixed_cents digits (suc (suc zero)) = digits
fixed_cents zero (suc (suc (suc k))) = 0
fixed_cents (suc d) (suc (suc (suc k))) = hundredths (double_of (suc d) (3 + k))

-- `n.toFixed(2)` of a number of cents.
unfoldable pub fixed2 : ℤ → String
fixed2 c =
    (if leb (neg_part c) 0 then "" else "-")
    ++ (decimal (abs c / 100) ++ ("." ++ padded 2 (abs c % 100)))

-- `round2(n)` in cents, and `none` for NaN.
unfoldable pub cents_of : Value → Option ℤ
unfolding round_cents
cents_of (num negative digits decimals) = some (round_cents negative digits decimals)
cents_of v = none

-- A number of cents as a value.
abbrev pub value_of_cents : ℤ → Value
value_of_cents c = num (leb 1 (neg_part c)) (abs c) 2

reads :
    (parse_float " 12.345kg" ≡ num false 12345 3)
    × (parse_float "-3" ≡ num true 3 0)
    × (parse_float "x" ≡ nan)
    × (number_of_text "12 kg" ≡ nan)
    × (fixed2 (negsuc 4) ≡ "-0.05")
unfolding parse_float number_of_text fixed2 skip_all decimal signed_scan read_number whole_number
    scan scan_whole scan_fraction padded
reads = (refl, refl, refl, refl, refl)

-- What JavaScript gives for 1.005, -1.005, 1.115, -0.025 and 12.3456, and for `toFixed(2)` of 1.005,
-- 2.675 and 8.575.
rounds :
    (round_cents false 1005 3 ≡ pos 100)
    × (round_cents true 1005 3 ≡ negsuc 99)
    × (round_cents false 1115 3 ≡ pos 112)
    × (round_cents true 25 3 ≡ negsuc 1)
    × (round_cents false 123456 4 ≡ pos 1235)
    × (fixed_cents 1005 3 ≡ 100)
    × (fixed_cents 2675 3 ≡ 267)
    × (fixed_cents 8575 3 ≡ 857)
unfolding round_cents fixed_cents round hundredths double_of times_100 nearest scale_up scale_down
    half_even
rounds = (refl, refl, refl, refl, refl, refl, refl, refl)
