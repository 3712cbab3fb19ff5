-- ===== src/Js/Text.antt =====
-- Lengths and character classes of texts. A text is a sequence of code points; `length` of
-- JavaScript counts UTF-16 units and `Buffer.byteLength` bytes of UTF-8.
use Prim.Native.Char.{code}
use nestjs_yalc.Prelude.{
  ℕ, ◌+◌, ◌≤◌, Bool, ◌&&◌, ◌||◌, String, List, [], ◌∷◌, leb, ltb, nat_eq, if◌then◌else◌, arith,
}

abbrev pub codes : String → List ℕ
codes String.[] = []
codes (String.◌∷◌ c s) = code c ∷ codes s

abbrev pub utf8_width : ℕ → ℕ
utf8_width c = if ltb c 0x80 then 1 else if ltb c 0x800 then 2 else if ltb c 0x10000 then 3 else 4

abbrev pub utf16_width : ℕ → ℕ
utf16_width c = if ltb c 0x10000 then 1 else 2

utf8_codes_length : List ℕ → ℕ
utf8_codes_length [] = 0
utf8_codes_length (c ∷ cs) = utf8_width c + utf8_codes_length cs

utf16_codes_length : List ℕ → ℕ
utf16_codes_length [] = 0
utf16_codes_length (c ∷ cs) = utf16_width c + utf16_codes_length cs

-- `Buffer.byteLength(text, 'utf8')`
unfoldable pub byte_length : String → ℕ
unfolding utf8_codes_length
byte_length s = utf8_codes_length (codes s)

-- `text.length`
unfoldable pub utf16_length : String → ℕ
unfolding utf16_codes_length
utf16_length s = utf16_codes_length (codes s)

abbrev pub is_digit : ℕ → Bool
is_digit c = leb b'0' c && leb c b'9'

abbrev pub is_upper : ℕ → Bool
is_upper c = leb b'A' c && leb c b'Z'

abbrev pub is_lower : ℕ → Bool
is_lower c = leb b'a' c && leb c b'z'

-- `[A-Za-z0-9_-]`
abbrev pub is_id_char : ℕ → Bool
is_id_char c = is_upper c || is_lower c || is_digit c || nat_eq c b'_' || nat_eq c b'-'

-- `[A-Za-z0-9_.-]`
abbrev pub is_token_char : ℕ → Bool
is_token_char c = is_id_char c || nat_eq c b'.'

-- `[a-f0-9]`
abbrev pub is_hex_char : ℕ → Bool
is_hex_char c = is_digit c || (leb b'a' c && leb c b'f')

-- Every text has at least as many UTF-8 bytes as UTF-16 units.
utf16-le-utf8 : (cs : List ℕ) → utf16_codes_length cs ≤ utf8_codes_length cs
unfolding utf16_codes_length utf8_codes_length
utf16-le-utf8 [] = omega arith
utf16-le-utf8 (c ∷ cs) = ground (arith, utf16-le-utf8 cs)

pub utf16_length-le-byte_length : (s : String) → utf16_length s ≤ byte_length s
unfolding utf16_length byte_length
utf16_length-le-byte_length s = utf16-le-utf8 (codes s)
