-- ===== src/Evidence/Canonical/Texts.antt =====
-- A text is read back from what Evidence.Canonical writes of it.
use Prim.Native.Char.{code}
use text.Mathlib.TextEquality.{Char-path}
use placement_assistant.Prelude.{
  ℕ, ◌+◌, ◌-◌, ◌*◌, String, Option, none, some, List, [], ◌∷◌, ◌≡◌, ◌≢◌, refl, ap, sym, ◌∙◌, arith,
  ltb, ◌==◌, if◌then◌else◌,
}
use placement_assistant.Evidence.Canonical.{write_char, write_text}

abbrev unnibble : ℕ → ℕ
unnibble c = if ltb c 58 then c - 48 else c - 87

abbrev read_escaped : List ℕ → Option (ℕ × List ℕ)
read_escaped [] = none
read_escaped (e ∷ rest) =
    if e == 110
    then some (10, rest)
    else if e == 114
    then some (13, rest)
    else if e == 116
    then some (9, rest)
    else if e == 102
    then some (12, rest)
    else if e == 98
    then some (8, rest)
    else if e == 117
    then read_hex rest
    else some (e, rest)
  where
    read_hex : List ℕ → Option (ℕ × List ℕ)
    read_hex (a ∷ b ∷ h ∷ l ∷ rest) = some (unnibble h * 16 + unnibble l, rest)
    read_hex _ = none

abbrev read_char : List ℕ → Option (ℕ × List ℕ)
read_char [] = none
read_char (c ∷ rest) = if c == 92 then read_escaped rest else some (c, rest)

read_char-write_char : (c : ℕ) (rest : List ℕ) → read_char (write_char c rest) ≡ some (c, rest)
unfolding write_char
read_char-write_char c rest = ground arith

-- What is written of a character does not begin with a quote.
write_char-quote : (c : ℕ) (rest tail : List ℕ) → write_char c rest ≢ 34 ∷ tail
unfolding write_char
write_char-quote c rest tail h = ground arith

write_char-injective :
    (c d : ℕ) (r s : List ℕ) → write_char c r ≡ write_char d s → (c ≡ d) × (r ≡ s)
write_char-injective c d r s h =
    let same : ◌≡◌ {A = Option (ℕ × List ℕ)} (some (c, r)) (some (d, s)) =
      sym (read_char-write_char c r) ∙ ap read_char h ∙ read_char-write_char d s in
    (cc same, cc same)

-- A text ends at its quote, and what follows it is what was written behind it.
pub write_text-injective :
    (s t : String) (r u : List ℕ) → write_text s r ≡ write_text t u → (s ≡ t) × (r ≡ u)
unfolding write_text
write_text-injective String.[] String.[] r u h = (refl, cc h)
write_text-injective String.[] (String.◌∷◌ d t) r u h =
    absurd (write_char-quote (code d) (write_text t u) r (sym h))
write_text-injective (String.◌∷◌ c s) String.[] r u h =
    absurd (write_char-quote (code c) (write_text s r) u h)
write_text-injective (String.◌∷◌ c s) (String.◌∷◌ d t) r u h =
    let (first, later) =
      write_char-injective (code c) (code d) (write_text s r) (write_text t u) h in
    let (rest, behind) = write_text-injective s t r u later in
    ((λ i. String.◌∷◌ (Char-path c d first i) (rest i)), behind)
