-- ===== src/Base/Search.antt =====
-- Searches in text, over the code points of its characters: `includes`, and the pieces of the regular
-- expressions that the code uses.
use Prim.Native.Char.{code}
use Prim.Native.Nat.{ℕ, ◌+◌, ◌-◌, ◌*◌}
use Prim.Native.String.{String}
use mathlib.Core.Bool.{Bool, true, false, not, ◌&&◌, ◌||◌}
use mathlib.Core.Option.{Option, none, some}
use mathlib.Core.List.{List, [], ◌∷◌}
use dp_integrator.Base.Tests.{leb, ◌==◌, if◌then◌else◌, is_some}

abbrev pub codes : String → List ℕ
codes String.[] = []
codes (String.◌∷◌ c s) = code c ∷ codes s

-- What is left of a text behind a prefix.
unfoldable pub strip : List ℕ → List ℕ → Option (List ℕ)
strip [] s = some s
strip (p ∷ ps) [] = none
strip (p ∷ ps) (c ∷ s) = let rest = strip ps s in if p == c then rest else none

contains_codes : List ℕ → List ℕ → Bool
contains_codes p [] = is_some (strip p [])
contains_codes p (c ∷ s) = is_some (strip p (c ∷ s)) || contains_codes p s

-- `s.includes(p)`.
unfoldable pub contains : String → String → Bool
unfolding contains_codes strip
contains p s = contains_codes (codes p) (codes s)

unfoldable pub begins_with : String → String → Bool
unfolding strip
begins_with p s = is_some (strip (codes p) (codes s))

abbrev pub is_digit : ℕ → Bool
is_digit c = leb b'0' c && leb c b'9'

-- `\w`.
abbrev pub is_word : ℕ → Bool
is_word c = is_digit c || leb b'a' c && leb c b'z' || leb b'A' c && leb c b'Z' || c == b'_'

-- `\s`, of the ASCII characters.
abbrev pub is_space : ℕ → Bool
is_space c = c == 32 || leb 9 c && leb c 13

-- `\b` after a word character: the text ends or goes on with no word character.
abbrev pub ends_word : List ℕ → Bool
ends_word [] = true
ends_word (c ∷ s) = not (is_word c)

-- `(\d{3})`, with what follows.
unfoldable pub three_digits : List ℕ → Option (ℕ × List ℕ)
three_digits (a ∷ b ∷ c ∷ s) =
    if is_digit a && is_digit b && is_digit c
    then some ((a - 48) * 100 + (b - 48) * 10 + (c - 48), s)
    else none
three_digits _ = none

-- One or more characters of a class, as many as there are, with what follows.
unfoldable pub skip_all : (ℕ → Bool) → List ℕ → List ℕ
skip_all p [] = []
skip_all p (c ∷ s) = let rest = skip_all p s in if p c then rest else c ∷ s

unfoldable pub skip_some : (ℕ → Bool) → List ℕ → Option (List ℕ)
unfolding skip_all
skip_some p [] = none
skip_some p (c ∷ s) = if p c then some (skip_all p s) else none

-- The first match in a text. A try is told whether the character before it is a word character.
unfoldable pub first_match : (Bool → List ℕ → Option ℕ) → Bool → List ℕ → Option ℕ
first_match try_ before [] = try_ before []
first_match try_ before (c ∷ s) = elim (try_ before (c ∷ s)) [
  | none ↦ first_match try_ (is_word c) s
  | some n ↦ some n
]

-- The digits to the end of a text, of which there is one at least.
all_digits : String → Bool
all_digits String.[] = true
all_digits (String.◌∷◌ c s) = is_digit (code c) && all_digits s

is_number : String → Bool
unfolding all_digits
is_number String.[] = false
is_number (String.◌∷◌ c s) = all_digits (String.◌∷◌ c s)

-- `/\/(\d+)$/`.
unfoldable pub numeric_tail : String → Option String
unfolding is_number
numeric_tail String.[] = none
numeric_tail (String.◌∷◌ c s) =
    let rest = numeric_tail s in if code c == b'/' && is_number s then some s else rest
