-- ===== src/Core/Validation.antt =====
-- The validators of auth/src/core/auth-validation.ts. A value that throws when it is looked at is
-- refused like any other, with the code of the validator.
pub mod Contexts
pub mod Identities
use nestjs_yalc.Prelude.{
  ℕ, suc, ◌+◌, Bool, true, false, not, ◌&&◌, ◌||◌, Option, none, some, List, [], ◌∷◌, String, ◌==◌,
  ltb, leb, nat_eq, if◌then◌else◌, all, length, includes, distinct,
}
use nestjs_yalc.Js.Value.{
  Value, undefined, string, number, nat, array, object, callable, Slots, nil, element, getter, hole,
  Properties, end, property, accessor, Key, named, symbol, Prototype, null_prototype,
  object_prototype, foreign,
}
use nestjs_yalc.Js.Text.{codes, byte_length, utf16_length, is_upper}
use nestjs_yalc.Directory.Validation.Scalars.{max_safe_integer}
use nestjs_yalc.Directory.Validation.Shapes.{Descriptor, holds, computes, descriptor, get}
use nestjs_yalc.Core.Errors.{
  AuthErrorCode, invalid_config, invalid_input, authentication_denied, csrf_denied, Result, ok, err,
  fail, check, ◌>>=◌, ◌>>◌,
}
use nestjs_yalc.Core.Types.{Transport, cookie, bearer, RequestContext, VerifiedIdentity}

unfoldable pub safe_time : Value → AuthErrorCode → Result ℕ
safe_time (number (nat n)) code = if leb n max_safe_integer then ok n else fail code
safe_time _ code = fail code

unfoldable pub plain_prototype : Prototype → Bool
plain_prototype null_prototype = true
plain_prototype object_prototype = true
plain_prototype (foreign p) =
    p.ends_chain && p.constructor_is_object && p.same_key_count && p.has_all_keys

-- The keys and values of an object whose own keys are texts that are allowed, with data properties.
unfoldable pub own_values :
    Properties → List String → AuthErrorCode → Result (List (String × Value))
own_values end allowed code = ok []
own_values (property (named k) e v ps) allowed code = do
  check (includes allowed k) code
  rest ← own_values ps allowed code
  ok ((k, v) ∷ rest)
own_values _ allowed code = fail code

abbrev pub is_present : Option Descriptor → Bool
is_present (some (holds e v)) = true
is_present _ = false

unfoldable pub all_present : List String → Properties → Bool
unfolding descriptor
all_present [] ps = true
all_present (k ∷ ks) ps = is_present (descriptor k ps) && all_present ks ps

unfoldable pub own_data :
    Value → List String → List String → AuthErrorCode → Result (List (String × Value))
unfolding plain_prototype own_values all_present
own_data (object prototype ps) allowed required code = do
  check (plain_prototype prototype) code
  values ← own_values ps allowed code
  check (all_present required ps) code
  ok values
own_data _ allowed required code = fail code

unfoldable pub exact_input : Value → List String → List String → Result (List (String × Value))
unfolding own_data
exact_input value keys required = own_data value keys required invalid_input

-- `value.length > 0 && Buffer.byteLength(value, 'utf8') <= max` of a text
unfoldable pub fits : String → ℕ → Bool
unfolding utf16_length byte_length
fits s max = ltb 0 (utf16_length s) && leb (byte_length s) max

unfoldable pub valid_text : Value → ℕ → Bool
unfolding fits
valid_text (string s) max = fits s max
valid_text _ max = false

-- A value that `validText` accepts, as the text that it is.
unfoldable pub text_of : Value → ℕ → AuthErrorCode → Result String
unfolding valid_text
text_of (string s) max code = if valid_text (string s) max then ok s else fail code
text_of _ max code = fail code

pub data Operation : Type 0 where
  login authenticate refresh logout : Operation

abbrev pub is_authenticate : Operation → Bool
is_authenticate authenticate = true
is_authenticate _ = false

unfoldable pub transport_of : Value → Result Transport
transport_of (string s) =
    if s == "cookie" then ok cookie else if s == "bearer" then ok bearer else fail invalid_input
transport_of _ = fail invalid_input

-- `/^[A-Z]+$/`
abbrev pub is_method : String → Bool
is_method s = ltb 0 (length (codes s)) && all is_upper (codes s)

unfoldable pub method_of : Value → Result String
method_of (string s) = if is_method s then ok s else fail invalid_input
method_of _ = fail invalid_input

-- `['GET', 'HEAD', 'OPTIONS'].includes(method)`
abbrev pub is_safe_method : String → Bool
is_safe_method method = includes ("GET" ∷ "HEAD" ∷ "OPTIONS" ∷ []) method

unfoldable pub optional_text : Value → Result (Option String)
optional_text undefined = ok none
optional_text (string s) = ok (some s)
optional_text _ = fail invalid_input

abbrev pub is_cookie : Transport → Bool
is_cookie cookie = true
is_cookie bearer = false

-- `origins.includes(data.origin as string)`
abbrev pub is_allowed : Option String → List String → Bool
is_allowed none origins = false
is_allowed (some origin) origins = includes origins origin

-- `data.secFetchSite === 'cross-site'`
abbrev pub is_cross_site : Option String → Bool
is_cross_site none = false
is_cross_site (some site) = site == "cross-site"

abbrev pub context_keys : List String
context_keys = "transport" ∷ "method" ∷ "origin" ∷ "secFetchSite" ∷ "csrf" ∷ []

unfoldable pub context_for : Value → Operation → List String → Result RequestContext
unfolding own_data transport_of method_of optional_text
context_for raw operation origins = do
  data' ← own_data raw context_keys ("transport" ∷ "method" ∷ []) invalid_input
  transport ← transport_of (get "transport" data')
  method ← method_of (get "method" data')
  check (is_authenticate operation || not (is_safe_method method)) invalid_input
  origin ← optional_text (get "origin" data')
  site ← optional_text (get "secFetchSite" data')
  csrf ← optional_text (get "csrf" data')
  check
      (not (is_cookie transport)
        || is_safe_method method
        || (is_allowed origin origins && not (is_cross_site site)))
      csrf_denied
  ok (record {
    transport = transport;
    method = method;
    origin = origin;
    sec_fetch_site = site;
    csrf = csrf;
  })

-- The value of a descriptor that has one.
unfoldable pub described : Option Descriptor → Result Value
described (some (holds e v)) = ok v
described _ = fail authentication_denied

unfoldable pub authentication_time : Value → ℕ → Result ℕ
authentication_time (number (nat n)) now =
    if leb n max_safe_integer && leb n now then ok n else fail authentication_denied
authentication_time _ now = fail authentication_denied

slots_length : Slots → ℕ
slots_length nil = 0
slots_length (element e v ss) = suc (slots_length ss)
slots_length (getter ss) = suc (slots_length ss)
slots_length (hole ss) = suc (slots_length ss)

-- The own keys of an array that are elements.
own_slots : Slots → ℕ
own_slots nil = 0
own_slots (element e v ss) = suc (own_slots ss)
own_slots (getter ss) = suc (own_slots ss)
own_slots (hole ss) = own_slots ss

unfoldable pub method_texts : Slots → Result (List String)
unfolding text_of
method_texts nil = ok []
method_texts (element e v ss) = do
  method ← text_of v 80 authentication_denied
  rest ← method_texts ss
  ok (method ∷ rest)
method_texts _ = fail authentication_denied

unfoldable pub methods_of : Value → Result (List String)
unfolding slots_length own_slots method_texts
methods_of (array others ss) = do
  check (leb 1 (slots_length ss) && leb (slots_length ss) 16) authentication_denied
  check (nat_eq (suc (others + own_slots ss)) (slots_length ss + 1)) authentication_denied
  method_texts ss
methods_of _ = fail authentication_denied

-- Keys beside the four are not looked at.
unfoldable pub verified_identity : Value → ℕ → Result VerifiedIdentity
unfolding plain_prototype descriptor described text_of authentication_time methods_of
verified_identity (object prototype ps) now = do
  check (plain_prototype prototype) authentication_denied
  issuer ← described (descriptor "issuer" ps)
  subject ← described (descriptor "subject" ps)
  auth_time ← described (descriptor "authTime" ps)
  methods ← described (descriptor "methods" ps)
  issuer ← text_of issuer 2048 authentication_denied
  subject ← text_of subject 512 authentication_denied
  auth_time ← authentication_time auth_time now
  methods ← methods_of methods
  ok (record { issuer = issuer; subject = subject; auth_time = auth_time; methods = methods })
verified_identity _ now = fail authentication_denied

unfoldable pub account_of : Value → Result String
unfolding utf16_length
account_of (string s) =
    if ltb 0 (utf16_length s) && leb (utf16_length s) 512 then ok s else fail authentication_denied
account_of _ = fail authentication_denied

unfoldable pub resolved_account : Value → Result String
unfolding own_data account_of
resolved_account raw = do
  value ← own_data raw ("accountId" ∷ []) ("accountId" ∷ []) authentication_denied
  account_of (get "accountId" value)
