-- ===== src/Evidence/Text.antt =====
-- What Python's `strip`, `len` and `UUID.hex` say of a text or a number.
use Prim.Native.Nat.{◌/◌, ◌%◌}
use Prim.Native.Char.{Char, code}
use placement_assistant.Prelude.{
  ℕ, zero, suc, String, Bool, true, false, not, ◌&&◌, ◌||◌, leb, ◌==◌,
}

-- `len(text)`
unfoldable pub text_length : String → ℕ
text_length String.[] = 0
text_length (String.◌∷◌ c s) = suc (text_length s)

-- str.isspace, of one code point
unfoldable pub is_space : ℕ → Bool
is_space n =
    leb 9 n && leb n 13
    || leb 28 n && leb n 32
    || n == 133
    || n == 160
    || n == 5760
    || leb 8192 n && leb n 8202
    || n == 8232
    || n == 8233
    || n == 8239
    || n == 8287
    || n == 12288

-- `bool(text.strip())`
unfoldable pub is_present : String → Bool
unfolding is_space
is_present String.[] = false
is_present (String.◌∷◌ c s) = not (is_space (code c)) || is_present s

-- [0-9a-f]
unfoldable pub is_hex : ℕ → Bool
is_hex n = leb 48 n && leb n 57 || leb 97 n && leb n 102

unfoldable pub all_hex : String → Bool
unfolding is_hex
all_hex String.[] = true
all_hex (String.◌∷◌ c s) = is_hex (code c) && all_hex s

abbrev char_at : String → ℕ → Char
char_at String.[] n = "0"
char_at (String.◌∷◌ c s) zero = c
char_at (String.◌∷◌ c s) (suc n) = char_at s n

unfoldable pub hex_digit : ℕ → Char
hex_digit n = char_at "0123456789abcdef" n

unfoldable pub hex_digits : ℕ → ℕ → String → String
unfolding hex_digit
hex_digits zero n s = s
hex_digits (suc k) n s = hex_digits k (n / 16) (String.◌∷◌ (hex_digit (n % 16)) s)

-- UUID.hex: 32 digits
unfoldable pub hex : ℕ → String
unfolding hex_digits
hex n = hex_digits 32 n ""

infixl 60 ◌+++◌
-- `first + second`
unfoldable pub ◌+++◌ : String → String → String
String.[] +++ t = t
String.◌∷◌ c s +++ t = String.◌∷◌ c (s +++ t)
