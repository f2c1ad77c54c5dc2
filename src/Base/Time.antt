-- ===== src/Base/Time.antt =====
-- What the code uses of `Date`, as milliseconds since 1970, and of `encodeURIComponent`.
use Prim.Native.Char.{Char, code}
use Prim.Native.Nat.{ℕ, zero, suc, ◌+◌, ◌-◌, ◌*◌, ◌/◌, ◌%◌}
use Prim.Native.String.{String, ◌++◌}
use mathlib.Core.Path.{◌≡◌, refl}
use mathlib.Core.Bool.{Bool}
use dp_integrator.Base.Tests.{ltb, leb, if◌then◌else◌}
use dp_integrator.Base.Text.{has_char}

-- The character of a text at a position, with the position past the end read as a blank.
char_at : ℕ → String → Char
char_at n String.[] = " "
char_at zero (String.◌∷◌ c s) = c
char_at (suc n) (String.◌∷◌ c s) = char_at n s

-- `String(n).padStart(width, '0')`, of the last `width` digits of `n`.
unfoldable pub padded : ℕ → ℕ → String
unfolding char_at
padded zero n = ""
padded (suc width) n = padded width (n / 10) ++ String.◌∷◌ (char_at (n % 10) "0123456789") ""

record Civil : Type 0 where
  year : ℕ
  month : ℕ
  day : ℕ

-- The proleptic Gregorian date of a day since 1970-01-01.
civil : ℕ → Civil
civil days =
    let z = days + 719468 in
    let doe = z % 146097 in
    let yoe = (doe - doe / 1460 + doe / 36524 - doe / 146096) / 365 in
    let doy = doe - (365 * yoe + yoe / 4 - yoe / 100) in
    let mp = (5 * doy + 2) / 153 in
    let m = if ltb mp 10 then mp + 3 else mp - 9 in
    record {
      year = yoe + z / 146097 * 400 + (if leb m 2 then 1 else 0);
      month = m;
      day = doy - (153 * mp + 2) / 5 + 1;
    }

-- `utcDayString`.
unfoldable pub utc_day : ℕ → String
unfolding padded civil
utc_day ms =
    let c = civil (ms / 86400000) in
    padded 4 c.year ++ ("-" ++ (padded 2 c.month ++ ("-" ++ padded 2 c.day)))

-- `toISOString`, of a year with four digits.
unfoldable pub to_iso : ℕ → String
unfolding utc_day
to_iso ms =
    utc_day ms
    ++ ("T"
        ++ (padded 2 (ms / 3600000 % 24)
            ++ (":"
                ++ (padded 2 (ms / 60000 % 60)
                    ++ (":"
                        ++ (padded 2 (ms / 1000 % 60)
                            ++ ("." ++ (padded 3 (ms % 1000) ++ "Z"))))))))

-- One byte as `%XX`.
percent : ℕ → String
unfolding char_at
percent b = String.◌∷◌ "%" (
    String.◌∷◌ (char_at (b / 16) "0123456789ABCDEF")
      (String.◌∷◌ (char_at (b % 16) "0123456789ABCDEF") ""))

is_unreserved : ℕ → Bool
is_unreserved c =
    has_char c "abcdefghijklmnopqrstuvwxyzABCDEFGHIJKLMNOPQRSTUVWXYZ0123456789-_.!~*'()"

-- The bytes of a character's UTF-8 form, each as `%XX`.
escaped : ℕ → String
unfolding percent
escaped c =
    if ltb c 128
    then percent c
    else if ltb c 2048
    then percent (192 + c / 64) ++ percent (128 + c % 64)
    else if ltb c 65536
    then percent (224 + c / 4096) ++ (percent (128 + c / 64 % 64) ++ percent (128 + c % 64))
    else percent (240 + c / 262144)
      ++ (percent (128 + c / 4096 % 64) ++ (percent (128 + c / 64 % 64) ++ percent (128 + c % 64)))

unfoldable pub encode_uri_component : String → String
unfolding escaped is_unreserved has_char
encode_uri_component String.[] = ""
encode_uri_component (String.◌∷◌ c s) =
    (if is_unreserved (code c) then String.◌∷◌ c "" else escaped (code c)) ++ encode_uri_component s

to_iso_test : to_iso 1709210096789 ≡ "2024-02-29T12:34:56.789Z"
unfolding to_iso
to_iso_test = refl

encode_uri_component_test : encode_uri_component "gid://é" ≡ "gid%3A%2F%2F%C3%A9"
unfolding encode_uri_component
encode_uri_component_test = refl
