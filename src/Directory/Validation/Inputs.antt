-- ===== src/Directory/Validation/Inputs.antt =====
-- The validators of what hosts and callers hand in, in auth/src/directory/directory-validation.ts.
-- `record` is `data` followed by one validator for each field, in the order of the fields.
pub mod Horizons
pub mod Quotes
pub mod Sessions
use Prim.Native.Char.{code as char_code}
use nestjs_yalc.Prelude.{
  ℕ, ◌+◌, ◌-◌, ◌*◌, Bool, true, false, ◌&&◌, Option, none, some, List, [], ◌∷◌, String, leb, ltb,
  nat_eq, if◌then◌else◌,
}
use nestjs_yalc.Js.Value.{
  Value, number, nat, string, object, object_prototype, Properties, end, property, named,
}
use nestjs_yalc.Js.Text.{byte_length, is_digit}
use nestjs_yalc.Js.Json.{canonical}
use nestjs_yalc.Directory.Errors.{
  ErrorCode, Result, ok, err, fail, check, ◌>>=◌, ◌>>◌, invalid_input, authentication_denied,
  command_expired, capacity_exceeded,
}
use nestjs_yalc.Directory.Types
use nestjs_yalc.Directory.Types.{
  Identity, SessionProfile, SessionBinding, ProofInput, SessionUse, Horizon, Quote,
}
use nestjs_yalc.Directory.Validation.Scalars.{
  text, short, account, integer, one_of, id, is_id_text, max_safe_integer,
}
use nestjs_yalc.Directory.Validation.Shapes.{data_of, get, array_of, snapshot, bytes}

unfoldable pub identity : Value → ℕ → ErrorCode → Result Identity
unfolding data_of array_of text integer
identity raw now code = do
  value ← data_of raw ("issuer" ∷ "subject" ∷ "authTime" ∷ "methods" ∷ []) code
  issuer ← text (get "issuer" value) 2048 code false
  subject ← text (get "subject" value) 512 code false
  auth_time ← integer (get "authTime" value) code 0 now
  methods ← array_of (get "methods" value) 16 (λ method. text method 80 code false) code 1
  ok (record { issuer = issuer; subject = subject; auth_time = auth_time; methods = methods })

-- The object that `Object.fromEntries` makes of some keys of `value`.
abbrev restrict : List String → List (String × Value) → Properties
restrict [] value = end
restrict (k ∷ ks) value = property (named k) true (get k value) (restrict ks value)

unfoldable pub profile : Value → ℕ → Result SessionProfile
unfolding identity account
profile raw now = do
  let code = authentication_denied
  value ←
      data_of raw
        ("accountId" ∷ "sessionId" ∷ "providerId" ∷ "issuer" ∷ "subject" ∷ "authTime" ∷ "methods"
          ∷ "expiresAt" ∷ [])
        code
  verified ←
      identity
        (object object_prototype
          (restrict ("issuer" ∷ "subject" ∷ "authTime" ∷ "methods" ∷ []) value))
        now code
  expires_at ← integer (get "expiresAt" value) code 0 max_safe_integer
  check (ltb now expires_at) code
  account_id ← account (get "accountId" value) code
  session_id ← text (get "sessionId" value) 512 code false
  provider_id ← text (get "providerId" value) 80 code true
  ok (record {
    issuer = verified.issuer;
    subject = verified.subject;
    auth_time = verified.auth_time;
    methods = verified.methods;
    account_id = account_id;
    session_id = session_id;
    provider_id = provider_id;
    expires_at = expires_at;
  })

unfoldable pub binding : Value → Result SessionBinding
unfolding data_of text account id integer
binding raw = do
  let code = authentication_denied
  value ←
      data_of raw
        ("namespace" ∷ "sessionId" ∷ "accountId" ∷ "issuer" ∷ "subject" ∷ "providerId" ∷ "linkId"
          ∷ "generation" ∷ [])
        code
  namespace ← text (get "namespace" value) 128 code false
  session_id ← text (get "sessionId" value) 512 code false
  account_id ← account (get "accountId" value) code
  issuer ← text (get "issuer" value) 2048 code false
  subject ← text (get "subject" value) 512 code false
  provider_id ← text (get "providerId" value) 80 code true
  link_id ← id (get "linkId" value) code
  generation ← integer (get "generation" value) code 1 max_safe_integer
  ok (record {
    namespace = namespace;
    session_id = session_id;
    account_id = account_id;
    issuer = issuer;
    subject = subject;
    provider_id = provider_id;
    link_id = link_id;
    generation = generation;
  })

proof_value : Value → Result Types.Proof
unfolding text bytes
proof_value (string s) = do t ← text (string s) 65536 invalid_input false; ok (Types.text t)
proof_value raw = do bs ← bytes raw 1 65536 invalid_input; ok (Types.bytes bs)

unfoldable pub proof : Value → Result ProofInput
unfolding data_of text proof_value
proof raw = do
  value ← data_of raw ("providerId" ∷ "proof" ∷ []) invalid_input
  provider_id ← text (get "providerId" value) 80 invalid_input true
  proof ← proof_value (get "proof" value)
  ok (record { provider_id = provider_id; proof = proof })

unfoldable pub session_use : Value → Result SessionUse
unfolding data_of snapshot canonical byte_length text
session_use raw = do
  value ← data_of raw ("token" ∷ "context" ∷ []) invalid_input
  context ← snapshot (get "context" value) invalid_input 0
  check (leb (byte_length (canonical context)) 65536) invalid_input
  token ← text (get "token" value) 4096 invalid_input false
  ok (record { token = token; context = context })

-- A run of digits, read as a number after `n`, and what follows it.
read_digits : ℕ → String → ℕ × String
read_digits n String.[] = (n, String.[])
read_digits n (String.◌∷◌ c s) =
    let rest = read_digits (n * 10 + (char_code c - 48)) s in
    if is_digit (char_code c) then rest else (n, String.◌∷◌ c s)

after_dot : ℕ → String → Option (ℕ × String)
unfolding is_id_text
after_dot n String.[] = none
after_dot n (String.◌∷◌ c s) =
    if nat_eq (char_code c) b'.' && is_id_text s then some (n, s) else none

-- `/^(0|[1-9][0-9]*)\.([A-Za-z0-9_-]{43})$/`: the number and the identifier.
unfoldable pub command_parts : String → Option (ℕ × String)
unfolding read_digits after_dot
command_parts String.[] = none
command_parts (String.◌∷◌ c s) =
    if nat_eq (char_code c) b'0'
    then after_dot 0 s
    else if is_digit (char_code c)
    then (let (n, rest) = read_digits (char_code c - 48) s in after_dot n rest)
    else none

abbrev matched : Option (ℕ × String) → ErrorCode → Result (ℕ × String)
matched none code = fail code
matched (some p) code = ok p

unfoldable pub horizon : Value → ℕ → ℕ → Result Horizon
unfolding text command_parts integer id
horizon raw now window = do
  command_id ← text raw 60 invalid_input false
  parts ← matched (command_parts command_id) invalid_input
  issued_at ← integer (number (nat parts.0)) invalid_input 0 now
  checked_id ← id (string parts.1) invalid_input
  deadline ← integer (number (nat (issued_at + window))) invalid_input 0 max_safe_integer
  check (ltb now deadline) command_expired
  ok (record { command_id = command_id; issued_at = issued_at; deadline = deadline })

unfoldable pub quote : Value → ℕ → ℕ → Result Quote
unfolding data_of short integer one_of
quote raw upper deadline = do
  let code = capacity_exceeded
  value ←
      data_of raw
        ("quoteId" ∷ "upperLogicalBytes" ∷ "admittedLifetimeUntil" ∷ "footprintVersion" ∷ []) code
  quote_id ← short (get "quoteId" value) code
  upper_logical_bytes ← integer (get "upperLogicalBytes" value) code 0 max_safe_integer
  admitted_lifetime_until ← integer (get "admittedLifetimeUntil" value) code 0 max_safe_integer
  footprint_version ← one_of (get "footprintVersion" value) ("auth-directory.rows.v3" ∷ []) code
  check (nat_eq upper_logical_bytes upper && leb deadline admitted_lifetime_until) code
  ok (record {
    quote_id = quote_id;
    upper_logical_bytes = upper_logical_bytes;
    admitted_lifetime_until = admitted_lifetime_until;
    footprint_version = footprint_version;
  })
