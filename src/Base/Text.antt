-- ===== src/Base/Text.antt =====
-- Text as the code reads it: `join`, `includes` of one character, and a separator that splits a
-- text in one way only.
use Prim.Native.Char.{Char, code}
use Prim.Native.Nat.{ℕ}
use Prim.Native.String.{String, ◌++◌}
use mathlib.Core.Path.{◌≡◌, refl, ap, ap₂, sym, ◌∙◌}
use mathlib.Core.Bool.{Bool, true, false, ◌||◌, ◌&&◌}
use mathlib.Core.Option.{Option, none, some}
use mathlib.Core.List.{List, [], ◌∷◌}
use native.Mathlib.Omega.{arith}
use text.Mathlib.TextLemmas.{
  nil-append, cons-append, head-eq_of_cons-eq, tail-eq_of_cons-eq, append_cancel_left,
}
use dp_integrator.Base.Tests.{◌==◌, leb, if◌then◌else◌}

-- `s.includes(c)` for one character, given by its code point.
unfoldable pub has_char : ℕ → String → Bool
has_char c String.[] = false
has_char c (String.◌∷◌ d s) = code d == c || has_char c s

unfoldable pub is_empty : String → Bool
is_empty String.[] = true
is_empty (String.◌∷◌ c s) = false

-- `xs.join(sep)`.
unfoldable pub join : String → List String → String
join sep [] = ""
join sep (x ∷ []) = x
join sep (x ∷ y ∷ rest) = x ++ (sep ++ join sep (y ∷ rest))

module _ (c : Char) where
  abbrev sep : String
  sep = String.◌∷◌ c String.[]

  sep-append : (r : String) → sep ++ r ≡ String.◌∷◌ c r
  sep-append r = cons-append c String.[] r ∙ ap (String.◌∷◌ c) (nil-append r)

  head-ne : (d : Char) (t : String) → has_char (code c) (String.◌∷◌ d t) ≡ false → c ≡ d → ⊥
  unfolding has_char
  head-ne d t h p = ground (arith, ap code p)

  tail_free :
      (d : Char) (t : String)
      → has_char (code c) (String.◌∷◌ d t) ≡ false
      → has_char (code c) t ≡ false
  unfolding has_char
  tail_free d t h = ground arith

  -- The first separator ends the first part, so a text splits in one way only.
  pub split_unique :
      (s t r r' : String)
      → has_char (code c) s ≡ false
      → has_char (code c) t ≡ false
      → s ++ (sep ++ r) ≡ t ++ (sep ++ r')
      → (s ≡ t) × (r ≡ r')
  split_unique String.[] String.[] r r' hs ht e =
      (refl, append_cancel_left sep r r' (sym (nil-append _) ∙ e ∙ nil-append _))
  split_unique String.[] (String.◌∷◌ d t) r r' hs ht e = absurd (
      head-ne d t ht
        (head-eq_of_cons-eq (sym (nil-append _ ∙ sep-append r) ∙ e ∙ cons-append d t (sep ++ r'))))
  split_unique (String.◌∷◌ d s) String.[] r r' hs ht e = absurd (
      head-ne d s hs (
        head-eq_of_cons-eq
          (sym (nil-append _ ∙ sep-append r') ∙ sym e ∙ cons-append d s (sep ++ r))))
  split_unique (String.◌∷◌ d s) (String.◌∷◌ d' t) r r' hs ht e =
      let e' = sym (cons-append d s (sep ++ r)) ∙ e ∙ cons-append d' t (sep ++ r') in
      let (same, rest) =
        split_unique s t r r' (tail_free d s hs) (tail_free d' t ht) (tail-eq_of_cons-eq e') in
      (ap₂ String.◌∷◌ (head-eq_of_cons-eq e') same, rest)

-- `s.toLowerCase()`, for the ASCII letters; other characters stay as they are.
swap_letters : (from to : String) → Char → Char
swap_letters String.[] lower c = c
swap_letters (String.◌∷◌ u us) String.[] c = c
swap_letters (String.◌∷◌ u us) (String.◌∷◌ l ls) c =
    if code c == code u then l else swap_letters us ls c

unfoldable pub to_lower : String → String
unfolding swap_letters
to_lower String.[] = ""
to_lower (String.◌∷◌ c s) =
    String.◌∷◌ (swap_letters "ABCDEFGHIJKLMNOPQRSTUVWXYZ" "abcdefghijklmnopqrstuvwxyz" c)
      (to_lower s)

-- `s.toUpperCase()`, likewise.
unfoldable pub to_upper : String → String
unfolding swap_letters
to_upper String.[] = ""
to_upper (String.◌∷◌ c s) =
    String.◌∷◌ (swap_letters "abcdefghijklmnopqrstuvwxyz" "ABCDEFGHIJKLMNOPQRSTUVWXYZ" c)
      (to_upper s)

-- `s.trim()`, of the ASCII spaces.
abbrev is_blank : Char → Bool
is_blank c = code c == 32 || leb 9 (code c) && leb (code c) 13

trim_end : String → String
trim_end String.[] = ""
trim_end (String.◌∷◌ c s) =
    let rest = trim_end s in if is_empty rest && is_blank c then "" else String.◌∷◌ c rest

trim_start : String → String
trim_start String.[] = ""
trim_start (String.◌∷◌ c s) = let rest = trim_start s in if is_blank c then rest else String.◌∷◌ c s

unfoldable pub trim : String → String
unfolding trim_start trim_end
trim s = trim_end (trim_start s)

-- `s.split('/').pop()`.
unfoldable pub last_segment : String → String
last_segment String.[] = ""
last_segment (String.◌∷◌ c s) =
    let rest = last_segment s in if code c == b'/' || has_char b'/' s then rest else String.◌∷◌ c s

-- A text that is there and not empty.
abbrev pub truthy : Option String → Option String
truthy none = none
truthy (some s) = if is_empty s then none else some s

segments :
    (last_segment "gid://shopify/Customer/7" ≡ "7")
    × (last_segment "7" ≡ "7")
    × (trim " a b " ≡ "a b")
unfolding last_segment trim has_char is_empty
segments = (refl, refl, refl)
