-- ===== src/Directory/Guards.antt =====
-- The clock, the routing of issuers to providers, and the checks of sessions, proofs, approvals and
-- consents in auth/src/directory/directory-core.ts.
pub mod Safety
pub mod Sessions
pub mod Clocks
pub mod Freshness
use nestjs_yalc.Prelude.{
  ℕ, ◌-◌, Bool, true, false, ◌&&◌, ◌||◌, not, Option, none, some, List, [], ◌∷◌, String, ◌==◌, leb,
  ltb, nat_eq, if◌then◌else◌,
}
use nestjs_yalc.Js.Value
use nestjs_yalc.Js.Value.{
  Value, Properties, Slots, object, object_prototype, string, property, named, end, is_null,
  byte_array,
}
use nestjs_yalc.Js.Json.{Json, Fields, field, number, null}
use nestjs_yalc.Directory.Errors.{
  ErrorCode, Fault, fresh, Result, ok, err, fail, invalid_input, provider_disabled,
  authorization_denied, authentication_denied, authentication_unavailable, consent_denied,
}
use nestjs_yalc.Directory.Types
use nestjs_yalc.Directory.Types.{
  Identity, ProofInput, SessionUse, SessionProfile, SessionBinding, Horizon, Action, profile_json,
  binding_json, identity_row_json,
}
use nestjs_yalc.Directory.Host.{Host, AuthorizedAction, ConsentTarget, guard as guarding}
use nestjs_yalc.Directory.Exec.{
  Closure, Exec, pure, lift, raise, require, ◌>>=◌, ◌>>◌, port, port_with, choose,
}
use nestjs_yalc.Directory.Atomic.{atomic}
use nestjs_yalc.Directory.Reads.{Actor, actor_row, some_and}
use nestjs_yalc.Directory.Validation.Scalars.{
  integer, text, short, account, boolean, max_safe_integer,
}
use nestjs_yalc.Directory.Validation.Shapes.{data_of, get, value_of}
use nestjs_yalc.Directory.Validation.Inputs

-- The validated values as the objects that are validated again on their way to a port.
pub session_use_value : SessionUse → Value
session_use_value use' = object object_prototype (
    property (named "token") true (string use'.token)
      (property (named "context") true (value_of use'.context) end))

proof_part : Types.Proof → Value
proof_part (Types.text t) = string t
proof_part (Types.bytes bs) = byte_array 0 bs

pub proof_input_value : ProofInput → Value
proof_input_value input = object object_prototype (
    property (named "providerId") true (string input.provider_id)
      (property (named "proof") true (proof_part input.proof) end))

pub actor_json : Actor → Json
actor_json a = Json.object (
    field "profile" (profile_json a.profile) (
      field "binding" (binding_json a.binding) (
        field "row" (identity_row_json a.row)
          (field "revision" (number (Value.nat a.revision)) Fields.end))))

-- A record of a boolean and a revision, as grants and provider states are.
flag : Value → String → ErrorCode → Result Bool
flag raw key code = elim (data_of raw (key ∷ "revision" ∷ []) code) [
  | err e ↦ err e
  | ok value ↦ elim (boolean (get key value) code) [
    | err e ↦ err e
    | ok b ↦ elim (short (get "revision" value) code) [ err e ↦ err e | ok r ↦ ok b ]
  ]
]

canonical_provider : Value → Result String
canonical_provider raw = elim (data_of raw ("providerId" ∷ "revision" ∷ []) provider_disabled) [
  | err e ↦ err e
  | ok value ↦ elim (text (get "providerId" value) 80 provider_disabled true) [
    | err e ↦ err e
    | ok p ↦ elim (short (get "revision" value) provider_disabled) [ err e ↦ err e | ok r ↦ ok p ]
  ]
]

-- A grant of an approval or a consent: account, its identifier, command and times.
pub record Grant : Type 0 where
  pub grant_id : String
  pub command_id : String
  pub issued_at : ℕ
  pub expires_at : ℕ

-- The fields that approvals and consents share, in the order in which they are validated.
grant_of : List (String × Value) → String → ErrorCode → Result Grant
grant_of value id_key code = elim (short (get id_key value) code) [
  | err e ↦ err e
  | ok grant_id ↦ elim (text (get "commandId" value) 60 code false) [
    | err e ↦ err e
    | ok command_id ↦ elim (integer (get "issuedAt" value) code 0 max_safe_integer) [
      | err e ↦ err e
      | ok issued_at ↦ elim (integer (get "expiresAt" value) code 0 max_safe_integer) [
        | err e ↦ err e
        | ok expires_at ↦ ok (record {
          grant_id = grant_id;
          command_id = command_id;
          issued_at = issued_at;
          expires_at = expires_at;
        })
      ]
    ]
  ]
]

-- A grant is for this command and for its whole time.
pub grants : Grant → Horizon → Bool
grants g horizon =
    g.command_id == horizon.command_id
    && nat_eq g.issued_at horizon.issued_at
    && nat_eq g.expires_at horizon.deadline

-- A clock reading that is a safe integer and not before the last one.
pub clock_reading : Option Value → ℕ → Option ℕ
clock_reading none last = none
clock_reading (some v) last = elim (integer v invalid_input 0 max_safe_integer) [
  | err e ↦ none
  | ok t ↦ if leb last t then some t else none
]

-- The session fields that the binding must repeat.
pub same_session : SessionBinding → SessionProfile → String → Bool
same_session binding profile namespace =
    binding.namespace == namespace
    && binding.account_id == profile.account_id
    && binding.session_id == profile.session_id
    && binding.issuer == profile.issuer
    && binding.subject == profile.subject
    && binding.provider_id == profile.provider_id

abbrev is_some {ℓ} : {A : Type ℓ} → Option A → Bool
is_some none = false
is_some (some a) = true

-- `providerId !== undefined && configured.providerId !== providerId`
abbrev other_provider : Option String → String → Bool
other_provider none configured = false
other_provider (some p) configured = not (configured == p)

abbrev pub Approved : Type 0
Approved = record { account_id : String; consent_id : String }

-- A reading that is not accepted fences the facade.
dated : {W : Type 0} → Option ℕ → Closure W → Result ℕ × Closure W
dated none c = (fail invalid_input, record c { fenced = true })
dated (some t) c = (ok t, record c { last_time = t })

module _ {W : Type 0} (h : Host W) where
  pub time : Exec W ℕ
  time c =
      let (answer, w) = h.now c.world in
      dated (clock_reading answer c.last_time) (record c { world = w })

  provider_enabled : String → Exec W Bool
  provider_enabled provider_id = do
    raw ← port (h.provider_state provider_id) provider_disabled
    lift (flag raw "enabled" provider_disabled)

  routed : Value → Option String → Exec W (Option String)
  routed raw provider_id = do
    configured ← lift (canonical_provider raw)
    let enabled = do on ← provider_enabled configured; pure (if on then some configured else none)
    choose (other_provider provider_id configured) (pure none) enabled

  -- The provider that serves the issuer now, if it is enabled and the one that is asked for.
  pub route : String → Option String → Exec W (Option String)
  route issuer provider_id = do
    raw ← port (h.canonical_provider_for_issuer issuer) provider_disabled
    choose (is_null raw) (pure none) (routed raw provider_id)

  pub require_route : String → String → Exec W (Unit {0})
  require_route issuer provider_id = do
    found ← route issuer (some provider_id)
    require (is_some found) provider_disabled

  pub authorize : AuthorizedAction → SessionProfile → Exec W (Unit {0})
  authorize action profile = do
    raw ← port (h.authorize action profile.account_id profile.session_id) authorization_denied
    allowed ← lift (flag raw "allowed" authorization_denied)
    require allowed authorization_denied

  pub session : SessionUse → Exec W (SessionProfile × SessionBinding)
  session use' = do
    answer ←
        port_with (Inputs.session_use (session_use_value use')) h.authenticate_session
          authentication_unavailable
    now ← time
    profile ← lift (Inputs.profile answer now)
    raw ← port (h.session_binding profile.session_id) authentication_denied
    binding ← lift (Inputs.binding raw)
    require (same_session binding profile h.namespace) authentication_denied
    authorize guarding profile
    require_route profile.issuer profile.provider_id
    pure (profile, binding)

  pub guard : SessionUse → Exec W Actor
  guard use' = do
    source ← session use'
    atomic actor_json h (λ tx. actor_row h tx source.0 source.1)

  -- `time() - authTime <= limits.maxFreshProofAgeMs`
  pub require_fresh : Identity → Exec W (Unit {0})
  require_fresh identity = do
    now ← time
    require (leb (now - identity.auth_time) h.limits.max_fresh_proof_age_ms) authentication_denied

  pub fresh_proof : ProofInput → Exec W Identity
  fresh_proof input = do
    raw ←
        port_with (Inputs.proof (proof_input_value input)) h.verify_proof authentication_unavailable
    now ← time
    result ← lift (Inputs.identity raw now authentication_denied)
    require_fresh result
    require_route result.issuer input.provider_id
    pure result

  -- The clock is read only if the rest of the test holds.
  pub require_granted : Grant → Horizon → ErrorCode → Exec W (Unit {0})
  require_granted grant horizon code = do
    require (grants grant horizon) code
    now ← time
    require (ltb now grant.expires_at) code

  pub approval : Identity → String → Horizon → Exec W Approved
  approval proof enrollment_ref horizon = do
    let code = authorization_denied
    raw ← port (h.provisioning_policy enrollment_ref proof horizon.command_id) code
    value ← lift (
        data_of raw ("accountId" ∷ "approvalId" ∷ "commandId" ∷ "issuedAt" ∷ "expiresAt" ∷ []) code)
    account_id ← lift (account (get "accountId" value) code)
    grant ← lift (grant_of value "approvalId" code)
    require_granted grant horizon code
    pure (record { account_id = account_id; consent_id = grant.grant_id })

  pub consent : String → Action → String → Horizon → ConsentTarget → Exec W String
  consent receipt action account_id horizon target = do
    let code = consent_denied
    raw ← port (h.verify_consent receipt action account_id horizon.command_id target) code
    value ← lift (data_of raw ("consentId" ∷ "commandId" ∷ "issuedAt" ∷ "expiresAt" ∷ []) code)
    grant ← lift (grant_of value "consentId" code)
    require_granted grant horizon code
    pure grant.grant_id

-- Opens the module, for runs.
unfoldable pub guards_opened : Unit {0}
unfolding session_use_value proof_part proof_input_value actor_json flag canonical_provider grant_of
    grants clock_reading same_session dated time provider_enabled routed route require_route
    authorize session guard require_fresh fresh_proof require_granted approval consent
    Inputs.binding Inputs.identity Inputs.profile Inputs.proof Inputs.session_use account atomic
    binding_json boolean data_of identity_row_json integer port port_with profile_json short
    value_of
guards_opened = tt
