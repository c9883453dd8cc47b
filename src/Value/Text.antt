-- ===== src/Value/Text.antt =====
-- Texts as Python sees them: sequences of code points, with `<`, `in` and `split(".")`.
use Prim.Native.Char.{Char, code}
use placement_assistant.Prelude.{
  ℕ, String, Bool, true, false, ◌||◌, ◌&&◌, List, [], ◌∷◌, ltb, ◌==◌, if◌then◌else◌,
}

-- How one value stands to another.
pub data Rank : Type 0 where
  less same more : Rank

unfoldable pub rank : ℕ → ℕ → Rank
rank a b = if ltb a b then less else if ltb b a then more else same

abbrev refine : Rank → Rank → Rank
refine less r = less
refine same r = r
refine more r = more

-- Lexicographic, by code points.
unfoldable pub text_order : String → String → Rank
unfolding rank
text_order String.[] String.[] = same
text_order String.[] (String.◌∷◌ d t) = less
text_order (String.◌∷◌ c s) String.[] = more
text_order (String.◌∷◌ c s) (String.◌∷◌ d t) = refine (rank (code c) (code d)) (text_order s t)

is_prefix : String → String → Bool
is_prefix String.[] t = true
is_prefix (String.◌∷◌ c s) String.[] = false
is_prefix (String.◌∷◌ c s) (String.◌∷◌ d t) = code c == code d && is_prefix s t

-- `s in t`
unfoldable pub is_infix : String → String → Bool
unfolding is_prefix
is_infix s String.[] = is_prefix s String.[]
is_infix s (String.◌∷◌ d t) = is_prefix s (String.◌∷◌ d t) || is_infix s t

abbrev add_char : Char → List String → List String
add_char c [] = String.◌∷◌ c String.[] ∷ []
add_char c (w ∷ ws) = String.◌∷◌ c w ∷ ws

-- path.split(".")
unfoldable pub split_dots : String → List String
split_dots String.[] = String.[] ∷ []
split_dots (String.◌∷◌ c s) =
    let rest = split_dots s in if code c == b'.' then String.[] ∷ rest else add_char c rest
