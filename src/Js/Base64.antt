-- ===== src/Js/Base64.antt =====
-- base64url without padding, as `Buffer.from(text, 'base64url')` reads it and
-- `toString('base64url')` writes it.
pub mod RoundTrip
use Prim.Native.Char.{Char}
use nestjs_yalc.Prelude.{
  ℕ, zero, suc, ◌+◌, ◌-◌, ◌*◌, ◌/◌, ◌%◌, Bool, String, List, [], ◌∷◌, nat_eq, if◌then◌else◌, ◌==◌,
}
use nestjs_yalc.Js.Text.{codes, is_upper, is_lower, is_digit}

abbrev alphabet : String
alphabet = "ABCDEFGHIJKLMNOPQRSTUVWXYZabcdefghijklmnopqrstuvwxyz0123456789-_"

nth_char : String → ℕ → Char
nth_char String.[] n = "_"
nth_char (String.◌∷◌ c s) zero = c
nth_char (String.◌∷◌ c s) (suc n) = nth_char s n

sextet_char : ℕ → Char
unfolding nth_char
sextet_char n = nth_char alphabet n

sextet_of : ℕ → ℕ
sextet_of c =
    if is_upper c
    then c - 65
    else if is_lower c
    then c - 71
    else if is_digit c
    then c + 4
    else if nat_eq c b'-'
    then 62
    else 63

-- Three bytes are four sextets; one or two bytes at the end are two or three.
sextets : List ℕ → List ℕ
sextets (a ∷ b ∷ c ∷ rest) =
    (a / 4) ∷ (a % 4 * 16 + b / 16) ∷ (b % 16 * 4 + c / 64) ∷ (c % 64) ∷ sextets rest
sextets (a ∷ b ∷ []) = (a / 4) ∷ (a % 4 * 16 + b / 16) ∷ (b % 16 * 4) ∷ []
sextets (a ∷ []) = (a / 4) ∷ (a % 4 * 16) ∷ []
sextets [] = []

octets : List ℕ → List ℕ
octets (p ∷ q ∷ r ∷ s ∷ rest) =
    (p * 4 + q / 16) ∷ (q % 16 * 16 + r / 4) ∷ (r % 4 * 64 + s) ∷ octets rest
octets (p ∷ q ∷ r ∷ []) = (p * 4 + q / 16) ∷ (q % 16 * 16 + r / 4) ∷ []
octets (p ∷ q ∷ []) = (p * 4 + q / 16) ∷ []
octets _ = []

text_of : List ℕ → String
unfolding sextet_char
text_of [] = String.[]
text_of (n ∷ ns) = String.◌∷◌ (sextet_char n) (text_of ns)

sextets_of : List ℕ → List ℕ
unfolding sextet_of
sextets_of [] = []
sextets_of (c ∷ cs) = sextet_of c ∷ sextets_of cs

-- `Buffer.from(bytes).toString('base64url')`
unfoldable pub base64url : List ℕ → String
unfolding sextets text_of
base64url bs = text_of (sextets bs)

-- `Buffer.from(text, 'base64url')`, at texts of the alphabet
unfoldable pub from_base64url : String → List ℕ
unfolding octets sextets_of
from_base64url s = octets (sextets_of (codes s))

-- `Buffer.from(text, 'base64url').toString('base64url') === text`
unfoldable pub is_canonical : String → Bool
unfolding base64url from_base64url
is_canonical s = base64url (from_base64url s) == s
