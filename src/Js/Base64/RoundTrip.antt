-- ===== src/Js/Base64/RoundTrip.antt =====
-- The way from bytes to base64url text and back.
use text.Mathlib.TextPositions.{eq_refl}
use Prim.Native.Char.{code}
use nestjs_yalc.Prelude.{
  ℕ, zero, suc, ◌+◌, ◌*◌, ◌/◌, ◌%◌, ◌<◌, ◌≡◌, refl, ap, ◌∙◌, Bool, true, ◌&&◌, List, [], ◌∷◌,
  nat_eq, length, all, arith,
}
use nestjs_yalc.Js.Text.{codes, is_id_char}
use nestjs_yalc.Js.Base64.{
  sextet_char, sextet_of, sextets, octets, text_of, sextets_of, base64url, from_base64url,
  is_canonical,
}

-- A test of every sextet, by evaluation.
passes : (ℕ → Bool) → ℕ → Bool
passes test zero = true
passes test (suc n) = passes test n && test n

passes-lt : (test : ℕ → Bool) (x n : ℕ) → passes test n ≡ true → x < n → test x ≡ true
unfolding passes
passes-lt test x zero e below = elim below [ ]
passes-lt test x (suc n) e below = ground (arith, passes-lt test x n)

abbrev pub AllBelow : ℕ → List ℕ → Type 0
AllBelow k [] = Unit {0}
AllBelow k (x ∷ xs) = (x < k) × AllBelow k xs

abbrev pub AreBytes : List ℕ → Type 0
AreBytes = AllBelow 256

sextet_table : passes (λ n. nat_eq (sextet_of (code (sextet_char n))) n) 64 ≡ true
unfolding passes sextet_of sextet_char
sextet_table = refl

sextet_of-sextet_char : (n : ℕ) → n < 64 → sextet_of (code (sextet_char n)) ≡ n
sextet_of-sextet_char n h =
    let e = passes-lt (λ n. nat_eq (sextet_of (code (sextet_char n))) n) n 64 sextet_table h in
    ground arith

id_char_table : passes (λ n. is_id_char (code (sextet_char n))) 64 ≡ true
unfolding passes sextet_char
id_char_table = refl

sextets-below : (bs : List ℕ) → AreBytes bs → AllBelow 64 (sextets bs)
unfolding sextets
sextets-below (a ∷ b ∷ c ∷ rest) h =
    (omega arith, (omega arith, (omega arith, (omega arith, sextets-below rest h.1.1.1))))
sextets-below (a ∷ b ∷ []) h = omega arith
sextets-below (a ∷ []) h = omega arith
sextets-below [] h = tt

sextets_of-text_of : (ns : List ℕ) → AllBelow 64 ns → sextets_of (codes (text_of ns)) ≡ ns
unfolding sextets_of text_of
sextets_of-text_of [] h = refl
sextets_of-text_of (n ∷ ns) h = cc (sextet_of-sextet_char n h.0, sextets_of-text_of ns h.1)

-- The three bytes of a group, from its four sextets.
octet_group :
    (a b c : ℕ) (rest rest' : List ℕ)
    → a < 256
    → b < 256
    → c < 256
    → rest ≡ rest'
    → (a / 4 * 4 + (a % 4 * 16 + b / 16) / 16)
        ∷ ((a % 4 * 16 + b / 16) % 16 * 16 + (b % 16 * 4 + c / 64) / 4)
        ∷ ((b % 16 * 4 + c / 64) % 4 * 64 + c % 64)
        ∷ rest
      ≡ a ∷ b ∷ c ∷ rest'
octet_group a b c rest rest' ha hb hc e =
    let e₁ : a / 4 * 4 + (a % 4 * 16 + b / 16) / 16 ≡ a = omega arith in
    let e₂ : (a % 4 * 16 + b / 16) % 16 * 16 + (b % 16 * 4 + c / 64) / 4 ≡ b = omega arith in
    let e₃ : (b % 16 * 4 + c / 64) % 4 * 64 + c % 64 ≡ c = omega arith in cc

octets-sextets : (bs : List ℕ) → AreBytes bs → octets (sextets bs) ≡ bs
unfolding octets sextets
octets-sextets (a ∷ b ∷ c ∷ rest) h =
    octet_group a b c _ rest h.0 h.1.0 h.1.1.0 (octets-sextets rest h.1.1.1)
octets-sextets (a ∷ b ∷ []) h = ground arith
octets-sextets (a ∷ []) h = ground arith
octets-sextets [] h = refl

pub from_base64url-base64url : (bs : List ℕ) → AreBytes bs → from_base64url (base64url bs) ≡ bs
unfolding from_base64url base64url
from_base64url-base64url bs h =
    ap octets (sextets_of-text_of (sextets bs) (sextets-below bs h)) ∙ octets-sextets bs h

pub base64url-is_canonical : (bs : List ℕ) → AreBytes bs → is_canonical (base64url bs) ≡ true
unfolding is_canonical
base64url-is_canonical bs h = rw (from_base64url-base64url bs h) (eq_refl (base64url bs))

text_of-id_chars : (ns : List ℕ) → AllBelow 64 ns → all is_id_char (codes (text_of ns)) ≡ true
unfolding text_of
text_of-id_chars [] h = refl
text_of-id_chars (n ∷ ns) h =
    rw (passes-lt (λ n. is_id_char (code (sextet_char n))) n 64 id_char_table h.0)
      (text_of-id_chars ns h.1)

pub base64url-id_chars : (bs : List ℕ) → AreBytes bs → all is_id_char (codes (base64url bs)) ≡ true
unfolding base64url
base64url-id_chars bs h = text_of-id_chars (sextets bs) (sextets-below bs h)

length-text_of : (ns : List ℕ) → length (codes (text_of ns)) ≡ length ns
unfolding text_of
length-text_of [] = refl
length-text_of (n ∷ ns) = ap suc (length-text_of ns)

-- Three more bytes are four more characters.
abbrev pub chars : ℕ → ℕ
chars n = (n * 8 + 5) / 6

length-sextets : (bs : List ℕ) → length (sextets bs) ≡ chars (length bs)
unfolding sextets
length-sextets (a ∷ b ∷ c ∷ rest) = omega (arith, length-sextets rest)
length-sextets (a ∷ b ∷ []) = refl
length-sextets (a ∷ []) = refl
length-sextets [] = refl

pub length-base64url : (bs : List ℕ) → length (codes (base64url bs)) ≡ chars (length bs)
unfolding base64url
length-base64url bs = length-text_of (sextets bs) ∙ length-sextets bs
