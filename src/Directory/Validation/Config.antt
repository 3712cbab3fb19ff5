-- ===== src/Directory/Validation/Config.antt =====
-- `config` of auth/src/directory/directory-validation.ts. The ports themselves are the record `Host`
-- of `Directory/Host`; here they are only checked to be there.
pub mod Limits
use nestjs_yalc.Prelude.{◌*◌, false, Option, some, List, [], ◌∷◌, String}
use nestjs_yalc.Js.Value.{Value, object, callable, number, nat}
use nestjs_yalc.Directory.Errors.{Result, ok, fail, ◌>>=◌, ◌>>◌, invalid_config}
use nestjs_yalc.Directory.Types.{DirectoryLimits}
use nestjs_yalc.Directory.Validation.Scalars.{text, integer, max_safe_integer}
use nestjs_yalc.Directory.Validation.Shapes.{data_of, get, Descriptor, holds, descriptor}

pub record Settings : Type 0 where
  pub namespace : String
  pub limits : DirectoryLimits

abbrev pub ceilings : DirectoryLimits
ceilings = record {
  max_fresh_proof_age_ms = 900000;
  max_links_per_account = 32;
  max_command_receipts_per_account = 4096;
  max_pending_events = 4096;
  max_record_bytes = 16384;
  max_concurrent_commands = 64;
  replay_window_ms = 2592000000;
  max_rows_per_namespace = 1000000;
}

unfoldable pub limits_of : Value → Result DirectoryLimits
unfolding data_of integer
limits_of raw = do
  let code = invalid_config
  value ←
      data_of raw
        ("maxFreshProofAgeMs" ∷ "maxLinksPerAccount" ∷ "maxCommandReceiptsPerAccount"
          ∷ "maxPendingEvents" ∷ "maxRecordBytes" ∷ "maxConcurrentCommands" ∷ "replayWindowMs"
          ∷ "maxRowsPerNamespace" ∷ [])
        code
  max_fresh_proof_age_ms ←
      integer (get "maxFreshProofAgeMs" value) code 1 ceilings.max_fresh_proof_age_ms
  max_links_per_account ←
      integer (get "maxLinksPerAccount" value) code 1 ceilings.max_links_per_account
  max_command_receipts_per_account ←
      integer (get "maxCommandReceiptsPerAccount" value) code 1
        ceilings.max_command_receipts_per_account
  max_pending_events ← integer (get "maxPendingEvents" value) code 1 ceilings.max_pending_events
  max_record_bytes ← integer (get "maxRecordBytes" value) code 1 ceilings.max_record_bytes
  max_concurrent_commands ←
      integer (get "maxConcurrentCommands" value) code 1 ceilings.max_concurrent_commands
  replay_window_ms ← integer (get "replayWindowMs" value) code 1 ceilings.replay_window_ms
  max_rows_per_namespace ←
      integer (get "maxRowsPerNamespace" value) code 1 ceilings.max_rows_per_namespace
  ok (record {
    max_fresh_proof_age_ms = max_fresh_proof_age_ms;
    max_links_per_account = max_links_per_account;
    max_command_receipts_per_account = max_command_receipts_per_account;
    max_pending_events = max_pending_events;
    max_record_bytes = max_record_bytes;
    max_concurrent_commands = max_concurrent_commands;
    replay_window_ms = replay_window_ms;
    max_rows_per_namespace = max_rows_per_namespace;
  })

-- `callable`: an own data property that is a function.
holds_callable : Option Descriptor → Result (Unit {0})
holds_callable (some (holds e callable)) = ok tt
holds_callable _ = fail invalid_config

callable_port : Value → String → Result (Unit {0})
unfolding holds_callable descriptor
callable_port (object prototype ps) key = holds_callable (descriptor key ps)
callable_port _ key = fail invalid_config

unfoldable pub callable_ports : Value → List String → Result (Unit {0})
unfolding callable_port
callable_ports owner [] = ok tt
callable_ports owner (key ∷ keys) = callable_port owner key >> callable_ports owner keys

unfoldable pub config : Value → Result Settings
unfolding data_of limits_of callable_ports text integer
config raw = do
  let code = invalid_config
  value ←
      data_of raw
        ("namespace" ∷ "limits" ∷ "verifyProof" ∷ "canonicalProviderForIssuer"
          ∷ "authenticateSession" ∷ "sessionBinding" ∷ "providerState" ∷ "authorize"
          ∷ "provisioningPolicy" ∷ "verifyConsent" ∷ "capacity" ∷ "directoryStore" ∷ "now"
          ∷ "randomBytes" ∷ [])
        code
  limits ← limits_of (get "limits" value)
  rows ←
      integer (number (nat (limits.max_rows_per_namespace * limits.max_record_bytes))) code 0
        max_safe_integer
  callable_ports (get "capacity" value) (
      "quoteGrowth" ∷ "reserveGrowth" ∷ "settle" ∷ "releaseConfirmedAbort" ∷ "reconcileUnknown"
      ∷ [])
  namespace ← text (get "namespace" value) 128 code false
  callable_ports raw (
      "verifyProof" ∷ "canonicalProviderForIssuer" ∷ "authenticateSession" ∷ "sessionBinding"
      ∷ "providerState" ∷ "authorize" ∷ "provisioningPolicy" ∷ "verifyConsent" ∷ "now"
      ∷ "randomBytes" ∷ [])
  callable_ports (get "directoryStore" value) ("transaction" ∷ [])
  ok (record { namespace = namespace; limits = limits })
