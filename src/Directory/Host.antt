-- ===== src/Directory/Host.antt =====
-- What createIdentityDirectory of auth/src/directory/directory-core.ts is given: the ports of the
-- host, the store's transaction, and the functions of the platform. None of it is code of the
-- repository, so all of it is a parameter: a port answers in any way it likes, and its effects are
-- on a world W of any type. A port that throws answers `none`.
use nestjs_yalc.Prelude.{ℕ, Bool, Option, String}
use nestjs_yalc.Js.Value.{Value}
use nestjs_yalc.Js.Json.{Json}
use nestjs_yalc.Directory.Errors.{Result}
use nestjs_yalc.Directory.Types.{
  Identity, ProofInput, SessionUse, IdentityRow, CommandRow, ConsentRow, EventRow, Action, Quote,
}
use nestjs_yalc.Directory.Validation.Config.{Settings}

abbrev pub Port : Type 0 → Type 0
Port W = W → Option Value × W

pub record DirectoryTx (W : Type 0) : Type 0 where
  pub get_identity : String → String → Port W
  pub get_link : String → Port W
  pub list_links : String → ℕ → Port W
  pub get_account_revision : String → Port W
  pub get_command : String → Port W
  pub get_consent : String → Port W
  pub count_rows : Port W
  pub count_links : String → Port W
  pub count_commands : String → Port W
  pub count_pending_events : Port W
  pub insert_identity : IdentityRow → Port W
  pub update_identity : ℕ → IdentityRow → Port W
  pub insert_command : CommandRow → Port W
  pub insert_consent : ConsentRow → Port W
  pub put_account_revision : String → Option ℕ → ℕ → Port W
  pub insert_event : EventRow → Port W

-- The object that the store hands to the callback: which names are own data properties that are
-- functions, and the functions.
pub record RawTx (W : Type 0) : Type 0 where
  pub is_method : String → Bool
  pub methods : DirectoryTx W

-- One call of `directoryStore.transaction`: the store resolves to a value, throws, or invokes the
-- callback in some world and goes on by what the callback answered, any number of times.
pub data Run (W : Type 0) : Type 0 where
  resolves : Value → W → Run W
  throws : W → Run W
  invokes : RawTx W → W → (Result Json → W → Run W) → Run W

pub data AuthorizedAction : Type 0 where
  link unlink list reconcile guard : AuthorizedAction

-- The target of a consent: an identity to link, or a link to remove.
pub data ConsentTarget : Type 0 where
  identity : String → String → String → ConsentTarget
  link : String → String → ConsentTarget

pub record Host (W : Type 0) : Type 0 where
  pub settings : Settings
  pub open settings use *
  pub verify_proof : ProofInput → Port W
  pub canonical_provider_for_issuer : String → Port W
  pub authenticate_session : SessionUse → Port W
  pub session_binding : String → Port W
  pub provider_state : String → Port W
  -- action, account and session
  pub authorize : AuthorizedAction → String → String → Port W
  -- enrollment reference, verified identity and command
  pub provisioning_policy : String → Identity → String → Port W
  -- receipt, action, account, command and target
  pub verify_consent : String → Action → String → String → ConsentTarget → Port W
  -- account, command, digest, upper size of each of the five rows, and end of the replay window
  pub quote_growth : String → String → String → ℕ → ℕ → Port W
  pub reserve_growth : String → String → String → Quote → Port W
  pub settle : String → String → Port W
  pub release_confirmed_abort : String → String → Port W
  pub transaction : W → Run W
  pub now : Port W
  pub random_bytes : ℕ → Port W
  -- createHash('sha256').update(text).digest('hex') of node:crypto
  pub sha256_hex : String → String
