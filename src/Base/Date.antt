-- ===== src/Base/Date.antt =====
-- `new Date(text)` of an ISO date from 1970 on: a day, or a day with a time, with `Z` or an offset from UTC
-- behind it. A time without either is taken as UTC, the time zone of the host.
use Prim.Native.Nat.{ℕ, ◌+◌, ◌-◌, ◌*◌, ◌/◌}
use Prim.Native.String.{String}
use mathlib.Core.Path.{◌≡◌, refl}
use mathlib.Core.Bool.{◌&&◌}
use mathlib.Core.Option.{Option, none, some}
use mathlib.Core.List.{List, [], ◌∷◌}
use dp_integrator.Base.Tests.{◌==◌, ltb, leb, if◌then◌else◌}
use dp_integrator.Base.Search.{codes, is_digit, skip_all}

-- The days from 1970-01-01 to a day of the Gregorian calendar, with March as the first month.
unfoldable pub days_of : (year month day : ℕ) → ℕ
days_of year month day =
    let y = if leb month 2 then year - 1 else year in
    let m = if leb month 2 then month + 9 else month - 3 in
    y * 365 + y / 4 + y / 400 + (153 * m + 2) / 5 + day - (y / 100 + 719469)

two_digits : List ℕ → Option (ℕ × List ℕ)
two_digits (a ∷ b ∷ rest) =
    if is_digit a && is_digit b then some ((a - 48) * 10 + (b - 48), rest) else none
two_digits _ = none

-- A separator, and what follows it.
after : ℕ → List ℕ → Option (List ℕ)
after sep [] = none
after sep (c ∷ rest) = if c == sep then some rest else none

abbrev with_two : {B : Type 0} → List ℕ → (ℕ → List ℕ → Option B) → Option B
with_two cs k = elim (two_digits cs) [ none ↦ none | some (n, rest) ↦ k n rest ]

abbrev past : {B : Type 0} → ℕ → List ℕ → (List ℕ → Option B) → Option B
past sep cs k = elim (after sep cs) [ none ↦ none | some rest ↦ k rest ]

-- The offset from UTC, in minutes, of a time that is `ms` by the local clock.
zone : ℕ → List ℕ → Option ℕ
unfolding two_digits after
zone ms [] = some ms
zone ms (c ∷ rest) =
    if c == b'Z'
    then (elim rest [ [] ↦ some ms | d ∷ more ↦ none ])
    else with_two rest (λ h r. past b':' r (λ r'. with_two r' (λ m r''. elim r'' [
      | [] ↦
          if c == b'+'
          then some (ms - (h * 60 + m) * 60000)
          else if c == b'-'
          then some (ms + (h * 60 + m) * 60000)
          else none
      | d ∷ more ↦ none
    ])))

-- The milliseconds behind the seconds; digits after the third are passed over.
fraction : ℕ → List ℕ → Option ℕ
unfolding zone
fraction ms (c ∷ x ∷ y ∷ z ∷ rest) =
    if c == b'.' && (is_digit x && (is_digit y && is_digit z))
    then zone (ms + (x - 48) * 100 + (y - 48) * 10 + (z - 48)) (skip_all is_digit rest)
    else zone ms (c ∷ x ∷ y ∷ z ∷ rest)
fraction ms cs = zone ms cs

seconds : ℕ → List ℕ → Option ℕ
unfolding fraction two_digits zone
seconds ms [] = some ms
seconds ms (c ∷ rest) =
    if c == b':' then with_two rest (λ s r. fraction (ms + s * 1000) r) else zone ms (c ∷ rest)

time_of_day : ℕ → List ℕ → Option ℕ
unfolding seconds two_digits after
time_of_day ms [] = some ms
time_of_day ms (c ∷ rest) =
    if c == b'T'
    then with_two rest (λ h r. past b':' r (λ r'.
      with_two r'
        (λ m r''. if ltb h 24 && ltb m 60 then seconds (ms + (h * 60 + m) * 60000) r'' else none)))
    else none

-- `Date.parse(text)`, `none` for an invalid date.
unfoldable pub parse_date : String → Option ℕ
unfolding time_of_day two_digits after
parse_date text = with_two (codes text) (λ century r. with_two r (λ year r1. past b'-' r1 (λ r2.
    with_two r2 (λ month r3. past b'-' r3 (λ r4. with_two r4 (λ day r5.
      if leb 1970 (century * 100 + year)
        && (leb 1 month && (leb month 12 && (leb 1 day && leb day 31)))
      then time_of_day (days_of (century * 100 + year) month day * 86400000) r5
      else none))))))

parses :
    (parse_date "2024-02-29T12:34:56.789Z" ≡ some 1709210096789)
    × (parse_date "2024-01-01" ≡ some 1704067200000)
    × (parse_date "2023-12-31T19:00:00-05:00" ≡ some 1704067200000)
    × (parse_date "soon" ≡ none)
unfolding parse_date days_of time_of_day two_digits after seconds fraction zone skip_all
parses = (refl, refl, refl, refl)
