-- ===== src/Directory/Tests.antt =====
-- Runs of the directory on the host of `Directory/Sample`, and the theorems at concrete inputs.
use nestjs_yalc.Prelude.{
  ℕ, ◌+◌, ◌≤◌, ◌<◌, ◌≡◌, refl, true, false, none, some, List, [], ◌∷◌, String, ◌⊎◌,
}
use nestjs_yalc.Js.Value.{Value, string, byte_array}
use nestjs_yalc.Js.Json.{Json, Fields, field}
use nestjs_yalc.Directory.Errors.{ok, fail, commit_unknown, invalid_input}
use nestjs_yalc.Directory.Types
use nestjs_yalc.Directory.Types.{
  Identity, IdentityRow, ProofInput, SessionUse, SessionProfile, SessionBinding, CommandResult,
  Horizon, Action, provision, link, unlink, active, provisioned, linked, command_result_json,
}
use nestjs_yalc.Directory.Host.{DirectoryTx, ConsentTarget}
use nestjs_yalc.Directory.Exec.{Closure, Exec, pure, ◌>>=◌, require_unfenced, port_with}
use nestjs_yalc.Directory.Evolves.{Evolves}
use nestjs_yalc.Directory.Atomic.{atomic}
use nestjs_yalc.Directory.Atomic.Outcome.{Explained, atomic-Explained}
use nestjs_yalc.Directory.Atomic.Commits.{Committed, atomic-Committed}
use nestjs_yalc.Directory.Validation.Scalars.{id, max_safe_integer}
use nestjs_yalc.Directory.Validation.Shapes.{snapshot, value_of, bytes}
use nestjs_yalc.Directory.Validation.Shapes.Snapshots.{snapshot-value_of}
use nestjs_yalc.Directory.Validation.Inputs.{horizon}
use nestjs_yalc.Directory.Validation.Inputs.Horizons.{horizon_bounds}
use nestjs_yalc.Directory.Reads.{reads_opened, Actor}
use nestjs_yalc.Directory.Guards.{guards_opened, time, guard, fresh_proof, consent}
use nestjs_yalc.Directory.Guards.Sessions.{Guarded, guard-Guarded}
use nestjs_yalc.Directory.Guards.Freshness.{Proved, time_outcome, fresh_proof_age, consent_deadline}
use nestjs_yalc.Directory.Preflight.{preflight_opened, Target, Intent, Plan, plan_json, preflight}
use nestjs_yalc.Directory.Preflight.Outcome.{Planned, preflight_plan}
use nestjs_yalc.Directory.Mutate.{
  mutate_opened, Changes, changes, draw, require_other_method, write_all, conclude, mutate,
}
use nestjs_yalc.Directory.Mutate.Writes.{Wrote, five_writes, write_all-Wrote}
use nestjs_yalc.Directory.Mutate.Settlement.{Concluded, conclude-Concluded}
use nestjs_yalc.Directory.Mutate.Success.{Performed, mutate-Performed}
use nestjs_yalc.Directory.Mutate.Methods.{Remaining, Routed, other_method_remains}
use nestjs_yalc.Directory.Mutate.Draws.{draw-id}
use nestjs_yalc.Directory.Facade.{facade_opened, provision_identity, link_identity, unlink_identity}
use nestjs_yalc.Directory.Facade.Histories.{
  here, after, provisions, History-Evolves, fence_is_final,
}
use nestjs_yalc.Directory.Validation.Config.{limits_of, ceilings}
use nestjs_yalc.Directory.Facade.{Request, recheck}
use nestjs_yalc.Directory.Facade.Rechecks.{Confirmed, recheck-Confirmed}
use nestjs_yalc.Directory.Types.{Quote}
use nestjs_yalc.Directory.Validation.Inputs.{quote}
use nestjs_yalc.Directory.Validation.Inputs.Quotes.{quote_terms}
use nestjs_yalc.Directory.Sample.{num, Memory, sample, start, provision_input, memory_tx, obj}

opened : Unit {0}
unfolding ◌>>=◌ require_unfenced port_with reads_opened guards_opened preflight_opened mutate_opened
    facade_opened
opened = tt

abbrev provisioned_result : CommandResult
provisioned_result = record {
  status = provisioned;
  account_id = "acc";
  link_id = "AQEBAQEBAQEBAQEBAQEBAQEBAQEBAQEBAQEBAQEBAQE";
  revision = 1;
  replay = false;
}

provision_runs : (provision_identity sample provision_input start).0 ≡ ok provisioned_result
unfolding opened
provision_runs = refl

-- A command that provisions, and the pieces that its run passes through.
abbrev google_identity : Identity
google_identity = record {
  issuer = "google";
  subject = "ann";
  auth_time = 20;
  methods = "key" ∷ [];
}

abbrev sample_horizon : Horizon
sample_horizon = record {
  command_id = "10.AAAAAAAAAAAAAAAAAAAAAAAAAAAAAAAAAAAAAAAAAAA";
  issued_at = 10;
  deadline = 1010;
}

abbrev provision_command : Intent
provision_command = record {
  action = provision;
  horizon = sample_horizon;
  account_id = "acc";
  consent_id = "approval";
  digest = "0123456789abcdef0123456789abcdef0123456789abcdef0123456789abcdef";
  target = Target.identity google_identity;
  provider_id = "google";
  actor = none;
}

abbrev linked_row : String → String → IdentityRow
linked_row provider link_id = record {
  namespace = "ns";
  issuer = provider;
  subject = "ann";
  provider_id = provider;
  account_id = "acc";
  link_id = link_id;
  status = active;
  generation = 1;
  linked_at = 20;
  unlinked_at = none;
}

abbrev empty_plan : Plan
empty_plan = record { target = none; revision = none; receipt = none; links = [] }

abbrev after_provision : Closure Memory
after_provision = (provision_identity sample provision_input start).1

-- Witnesses of the theorems.
mutate_runs :
    mutate sample provision_command (pure tt) start
    ≡ (ok provisioned_result, (mutate sample provision_command (pure tt) start).1)
unfolding opened
mutate_runs = refl

mutate-Performed_example :
    Performed sample provision_command
      (pure tt)
      provisioned_result
      start
      (mutate sample provision_command (pure tt) start).1
mutate-Performed_example = mutate-Performed sample provision_command (pure tt) start mutate_runs

History-Evolves_example : Evolves start after_provision
History-Evolves_example = History-Evolves sample (after here (provisions provision_input))

abbrev fenced_start : Closure Memory
fenced_start = record start { fenced = true }

fence_is_final_example :
    (provision_identity sample provision_input fenced_start ≡ (fail commit_unknown, fenced_start))
    × (link_identity sample provision_input fenced_start ≡ (fail commit_unknown, fenced_start))
    × (unlink_identity sample provision_input fenced_start ≡ (fail commit_unknown, fenced_start))
fence_is_final_example = fence_is_final sample provision_input refl here

abbrev sample_preflight : DirectoryTx Memory → Exec Memory Plan
sample_preflight tx = preflight sample tx provision_command

atomic-Explained_example :
    Explained plan_json sample_preflight
      (sample.transaction start.world)
      start
      (atomic plan_json sample sample_preflight start).0
      (atomic plan_json sample sample_preflight start).1
atomic-Explained_example = atomic-Explained plan_json sample_preflight sample start

atomic_runs :
    atomic plan_json sample sample_preflight start
    ≡ (ok empty_plan, (atomic plan_json sample sample_preflight start).1)
unfolding opened
atomic_runs = refl

atomic-Committed_example :
    Committed plan_json sample_preflight
      (sample.transaction start.world)
      start
      empty_plan
      (atomic plan_json sample sample_preflight start).1
atomic-Committed_example = atomic-Committed plan_json sample_preflight sample start atomic_runs

conclude-Concluded_example :
    Concluded sample "reservation" "command"
      (pure provisioned_result)
      start
      (conclude sample "reservation" "command" (pure provisioned_result) start).0
      (conclude sample "reservation" "command" (pure provisioned_result) start).1
conclude-Concluded_example =
    conclude-Concluded sample "reservation" "command" (pure provisioned_result) start

preflight_runs :
    preflight sample memory_tx provision_command start
    ≡ (ok empty_plan, (preflight sample memory_tx provision_command start).1)
unfolding opened
preflight_runs = refl

preflight_plan_example :
    Planned sample memory_tx provision_command empty_plan start
      (preflight sample memory_tx provision_command start).1
preflight_plan_example = preflight_plan sample memory_tx provision_command start preflight_runs

abbrev sample_use : SessionUse
sample_use = record { token = "s1"; context = Json.object Fields.end }

abbrev sample_profile : SessionProfile
sample_profile = record {
  issuer = "google";
  subject = "ann";
  auth_time = 1;
  methods = "key" ∷ [];
  account_id = "acc";
  session_id = "s1";
  provider_id = "google";
  expires_at = 900;
}

abbrev first_link_id : String
first_link_id = "AQEBAQEBAQEBAQEBAQEBAQEBAQEBAQEBAQEBAQEBAQE"

abbrev sample_binding : SessionBinding
sample_binding = record {
  namespace = "ns";
  session_id = "s1";
  account_id = "acc";
  issuer = "google";
  subject = "ann";
  provider_id = "google";
  link_id = first_link_id;
  generation = 1;
}

abbrev sample_actor : Actor
sample_actor = record {
  profile = sample_profile;
  binding = sample_binding;
  row = linked_row "google" first_link_id;
  revision = 1;
}

guard_runs :
    guard sample sample_use after_provision
    ≡ (ok sample_actor, (guard sample sample_use after_provision).1)
unfolding opened
guard_runs = refl

guard-Guarded_example :
    Guarded sample sample_use sample_actor after_provision
      (guard sample sample_use after_provision).1
guard-Guarded_example = guard-Guarded sample sample_use after_provision guard_runs

abbrev two_links : Plan
two_links = record {
  target = some (linked_row "google" "a");
  revision = some 2;
  receipt = none;
  links = linked_row "google" "a" ∷ linked_row "github" "b" ∷ [];
}

abbrev unlink_command : Intent
unlink_command = record provision_command { action = unlink; target = Target.by_link "a" }

other_method_runs :
    require_other_method sample unlink_command two_links start
    ≡ (ok tt, (require_other_method sample unlink_command two_links start).1)
unfolding opened
other_method_runs = refl

other_method_remains_example :
    (row : IdentityRow) × Remaining sample (Target.by_link "a") row two_links.links
    × Routed sample row
other_method_remains_example =
    other_method_remains sample unlink_command two_links start refl other_method_runs

abbrev sample_proof : ProofInput
sample_proof = record { provider_id = "google"; proof = Types.text "ann" }

fresh_proof_runs :
    fresh_proof sample sample_proof start
    ≡ (ok google_identity, (fresh_proof sample sample_proof start).1)
unfolding opened
fresh_proof_runs = refl

fresh_proof_age_example :
    Proved sample sample_proof google_identity start (fresh_proof sample sample_proof start).1
fresh_proof_age_example = fresh_proof_age sample sample_proof start fresh_proof_runs

abbrev sample_consent : Exec Memory String
sample_consent =
    consent sample "receipt" Action.link "acc" sample_horizon (ConsentTarget.link "google" "a")

consent_runs : sample_consent start ≡ (ok "receipt", (sample_consent start).1)
unfolding opened
consent_runs = refl

consent_deadline_example :
    (0 ≤ (sample_consent start).1.last_time) × ((sample_consent start).1.last_time < 1010)
consent_deadline_example =
    consent_deadline sample "receipt" Action.link "acc" sample_horizon
      (ConsentTarget.link "google" "a") start consent_runs

time_outcome_example :
    ((t : ℕ) × ((time sample start).0 ≡ ok t)
      × (0 ≤ t)
      × ((time sample start).1.last_time ≡ t)
      × ((time sample start).1.fenced ≡ false))
    ⊎ (((time sample start).0 ≡ fail invalid_input) × ((time sample start).1.fenced ≡ true))
time_outcome_example = time_outcome sample start

abbrev sample_changes : Changes
sample_changes = changes "ns" provision_command (linked_row "google" "a") "a" "event" 1 20

write_all_runs :
    write_all sample memory_tx provision_command empty_plan sample_changes start
    ≡ (ok tt, (write_all sample memory_tx provision_command empty_plan sample_changes start).1)
unfolding opened
write_all_runs = refl

write_all-Wrote_example :
    Wrote
      (five_writes sample memory_tx provision_command empty_plan sample_changes)
      start.world
      (write_all sample memory_tx provision_command empty_plan sample_changes start).1.world
write_all-Wrote_example =
    write_all-Wrote sample memory_tx provision_command empty_plan sample_changes start
      write_all_runs

draw_runs : draw sample start ≡ (ok first_link_id, (draw sample start).1)
unfolding opened
draw_runs = refl

draw-id_example : id (string first_link_id) invalid_input ≡ ok first_link_id
draw-id_example = draw-id sample start invalid_input draw_runs

horizon_runs :
    horizon (string "10.AAAAAAAAAAAAAAAAAAAAAAAAAAAAAAAAAAAAAAAAAAA") 20 1000 ≡ ok sample_horizon
unfolding horizon
horizon_runs = refl

horizon_bounds_example : (10 ≤ 20) × (20 < 1010) × (1010 ≡ 10 + 1000) × (1010 ≤ max_safe_integer)
horizon_bounds_example =
    horizon_bounds (string "10.AAAAAAAAAAAAAAAAAAAAAAAAAAAAAAAAAAAAAAAAAAA") 20 1000 horizon_runs

abbrev small_json : Json
small_json = Json.object (field "ip" (Json.string "::1") Fields.end)

snapshot_runs : snapshot (obj (("ip", string "::1") ∷ [])) invalid_input 0 ≡ ok small_json
unfolding snapshot
snapshot_runs = refl

snapshot-value_of_example : snapshot (value_of small_json) commit_unknown 0 ≡ ok small_json
snapshot-value_of_example =
    snapshot-value_of (obj (("ip", string "::1") ∷ [])) invalid_input commit_unknown 0 small_json
      snapshot_runs

abbrev three_bytes : List ℕ
three_bytes = 1 ∷ 2 ∷ 255 ∷ []

bytes_runs : bytes (byte_array 0 three_bytes) 1 8 invalid_input ≡ ok three_bytes
unfolding bytes
bytes_runs = refl

abbrev sample_limits : Value
sample_limits = obj (
    ("maxFreshProofAgeMs", num 900000)
    ∷ ("maxLinksPerAccount", num 32)
    ∷ ("maxCommandReceiptsPerAccount", num 4096)
    ∷ ("maxPendingEvents", num 4096)
    ∷ ("maxRecordBytes", num 16384)
    ∷ ("maxConcurrentCommands", num 64)
    ∷ ("replayWindowMs", num 2592000000)
    ∷ ("maxRowsPerNamespace", num 1000000)
    ∷ [])

limits_of_runs : limits_of sample_limits ≡ ok ceilings
unfolding limits_of
limits_of_runs = refl

abbrev sample_request : Request
sample_request = record {
  horizon = sample_horizon;
  session_use = sample_use;
  secret = "receipt";
  actor = sample_actor;
  current = google_identity;
  target = Target.by_link first_link_id;
  provider_id = "google";
}

recheck_runs :
    recheck sample Action.unlink sample_request "receipt" after_provision
    ≡ (ok tt, (recheck sample Action.unlink sample_request "receipt" after_provision).1)
unfolding opened
recheck_runs = refl

recheck-Confirmed_example :
    Confirmed sample Action.unlink sample_request "receipt" after_provision
      (recheck sample Action.unlink sample_request "receipt" after_provision).1
recheck-Confirmed_example =
    recheck-Confirmed sample Action.unlink sample_request "receipt" after_provision recheck_runs

abbrev sample_quote : Value
sample_quote = obj (
    ("quoteId", string "q")
    ∷ ("upperLogicalBytes", num 81920)
    ∷ ("admittedLifetimeUntil", num 1200)
    ∷ ("footprintVersion", string "auth-directory.rows.v3")
    ∷ [])

abbrev accepted_quote : Quote
accepted_quote = record {
  quote_id = "q";
  upper_logical_bytes = 81920;
  admitted_lifetime_until = 1200;
  footprint_version = "auth-directory.rows.v3";
}

quote_runs : quote sample_quote 81920 1010 ≡ ok accepted_quote
unfolding quote
quote_runs = refl

quote_terms_example : (accepted_quote.upper_logical_bytes ≡ 81920) × (1010 ≤ 1200)
quote_terms_example = quote_terms sample_quote 81920 1010 quote_runs
