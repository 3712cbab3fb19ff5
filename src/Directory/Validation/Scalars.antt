-- ===== src/Directory/Validation/Scalars.antt =====
-- The validators of single values in auth/src/directory/directory-validation.ts.
pub mod Integers
use nestjs_yalc.Prelude.{
  ℕ, zero, suc, ◌+◌, ◌-◌, ◌*◌, ◌^◌, Bool, true, false, not, ◌&&◌, ◌||◌, Option, none, some, List,
  [], ◌∷◌, String, ◌==◌, ltb, leb, nat_eq, if◌then◌else◌, all, length, includes,
}
use nestjs_yalc.Js.Value.{Value, number, nat, string}
use nestjs_yalc.Js.Text.{
  codes, byte_length, utf16_length, is_id_char, is_token_char, is_hex_char, is_digit,
}
use nestjs_yalc.Js.Base64.{is_canonical}
use nestjs_yalc.Directory.Errors.{ErrorCode, Result, ok, err, fail, check, ◌>>=◌, ◌>>◌}

-- Number.MAX_SAFE_INTEGER
abbrev pub max_safe_integer : ℕ
max_safe_integer = 2 ^ 53 - 1

-- `text` of a string: not empty, at most `max` bytes and, if `ascii`, of token characters.
unfoldable pub fits : String → ℕ → Bool → Bool
unfolding utf16_length byte_length
fits s max ascii =
    ltb 0 (utf16_length s)
    && leb (byte_length s) max
    && (not ascii || (ltb 0 (length (codes s)) && all is_token_char (codes s)))

unfoldable pub text : Value → ℕ → ErrorCode → Bool → Result String
unfolding fits
text (string s) max code ascii = if fits s max ascii then ok s else fail code
text _ max code ascii = fail code

unfoldable pub short : Value → ErrorCode → Result String
unfolding text
short raw code = text raw 128 code true

unfoldable pub account : Value → ErrorCode → Result String
unfolding utf16_length
account (string s) code =
    if ltb 0 (utf16_length s) && leb (utf16_length s) 512 then ok s else fail code
account _ code = fail code

-- Every `min` in use is 0 or more, so a negative number is refused.
unfoldable pub integer : Value → ErrorCode → ℕ → ℕ → Result ℕ
integer (number (nat n)) code min max =
    if leb n max_safe_integer && leb min n && leb n max then ok n else fail code
integer _ code min max = fail code

unfoldable pub boolean : Value → ErrorCode → Result Bool
boolean (Value.boolean b) code = ok b
boolean _ code = fail code

unfoldable pub one_of : Value → List String → ErrorCode → Result String
one_of (string s) values code = if includes values s then ok s else fail code
one_of _ values code = fail code

-- `/^[A-Za-z0-9_-]{43}$/`
unfoldable pub is_id_text : String → Bool
is_id_text s = nat_eq (length (codes s)) 43 && all is_id_char (codes s)

unfoldable pub id : Value → ErrorCode → Result String
unfolding is_id_text is_canonical
id (string s) code = if is_id_text s && is_canonical s then ok s else fail code
id _ code = fail code

-- `/^[a-f0-9]{64}$/`
unfoldable pub digest_text : Value → ErrorCode → Result String
digest_text (string s) code =
    if nat_eq (length (codes s)) 64 && all is_hex_char (codes s) then ok s else fail code
digest_text _ code = fail code
