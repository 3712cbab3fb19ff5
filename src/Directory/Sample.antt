-- ===== src/Directory/Sample.antt =====
-- A host for tests: a store in memory, a clock that is read from the world, and services that agree
-- to everything that is asked of them in time.
use nestjs_yalc.Prelude.{
  ℕ, zero, suc, ◌+◌, Bool, true, false, ◌&&◌, Option, none, some, List, [], ◌∷◌, ◌++◌, String, ◌==◌,
  length, if◌then◌else◌,
}
use nestjs_yalc.Js.Value.{
  Value, Slots, Properties, object, object_prototype, string, named, property, end, nat, byte_array,
}
use nestjs_yalc.Directory.Errors.{ok, err}
use nestjs_yalc.Directory.Types
use nestjs_yalc.Directory.Types.{
  Identity, IdentityRow, CommandRow, ConsentRow, EventRow, ProofInput, LinkStatus, active, unlinked,
  identity_row_json, command_row_json, consent_row_json, identity_json,
}
use nestjs_yalc.Directory.Host.{Host, DirectoryTx, RawTx, Run, resolves, invokes, Port}
use nestjs_yalc.Directory.Exec.{Closure}
use nestjs_yalc.Directory.Validation.Shapes.{value_of}
use nestjs_yalc.Directory.Validation.Config.{ceilings}

pub record Memory : Type 0 where
  pub clock : ℕ
  pub draws : ℕ
  pub identities : List IdentityRow
  pub revisions : List (String × ℕ)
  pub commands : List CommandRow
  pub consents : List ConsentRow
  pub events : List EventRow

abbrev pub fields_of : List (String × Value) → Properties
fields_of [] = end
fields_of ((k, v) ∷ rest) = property (named k) true v (fields_of rest)

abbrev pub obj : List (String × Value) → Value
obj fields = object object_prototype (fields_of fields)

abbrev pub num : ℕ → Value
num n = Value.number (nat n)

abbrev answer : Value → Port Memory
answer v w = (some v, w)

abbrev find_row : (IdentityRow → Bool) → List IdentityRow → Option IdentityRow
find_row test [] = none
find_row test (r ∷ rs) = if test r then some r else find_row test rs

abbrev row_value : Option IdentityRow → Value
row_value none = Value.null
row_value (some r) = value_of (identity_row_json r)

abbrev rows_value : String → List IdentityRow → Slots
rows_value account [] = Slots.nil
rows_value account (r ∷ rs) =
    let rest = rows_value account rs in
    if r.account_id == account
    then Slots.element true (value_of (identity_row_json r)) rest
    else rest

abbrev revision_value : String → List (String × ℕ) → Value
revision_value account [] = Value.null
revision_value account ((a, n) ∷ rs) = if a == account then num n else revision_value account rs

abbrev command_value : String → List CommandRow → Value
command_value id [] = Value.null
command_value id (r ∷ rs) =
    if r.command_id == id then value_of (command_row_json r) else command_value id rs

abbrev consent_value : String → List ConsentRow → Value
consent_value id [] = Value.null
consent_value id (r ∷ rs) =
    if r.consent_id == id then value_of (consent_row_json r) else consent_value id rs

abbrev replaced : IdentityRow → List IdentityRow → List IdentityRow
replaced row [] = []
replaced row (r ∷ rs) = if r.link_id == row.link_id then row ∷ rs else r ∷ replaced row rs

abbrev pub memory_tx : DirectoryTx Memory
memory_tx = record {
  get_identity = λ issuer subject w. (
    some (row_value (find_row (λ r. r.issuer == issuer && r.subject == subject) w.identities)),
    w,
  );
  get_link = λ id w. (some (row_value (find_row (λ r. r.link_id == id) w.identities)), w);
  list_links = λ account limit w. (some (Value.array 0 (rows_value account w.identities)), w);
  get_account_revision = λ account w. (some (revision_value account w.revisions), w);
  get_command = λ id w. (some (command_value id w.commands), w);
  get_consent = λ id w. (some (consent_value id w.consents), w);
  count_rows = λ w. (some (num (length w.identities)), w);
  count_links = λ account w. (some (num (length w.identities)), w);
  count_commands = λ account w. (some (num (length w.commands)), w);
  count_pending_events = λ w. (some (num (length w.events)), w);
  insert_identity =
      λ row w. (some (Value.boolean true), record w { identities = w.identities ++ row ∷ [] });
  update_identity = λ expected row w.
      (some (Value.boolean true), record w { identities = replaced row w.identities });
  insert_command = λ row w. (some (Value.boolean true), record w { commands = row ∷ w.commands });
  insert_consent = λ row w. (some (Value.boolean true), record w { consents = row ∷ w.consents });
  put_account_revision = λ account expected next w.
      (some (Value.boolean true), record w { revisions = (account, next) ∷ w.revisions });
  insert_event = λ row w. (some (Value.boolean true), record w { events = row ∷ w.events });
}

abbrev raw_tx : RawTx Memory
raw_tx = record { is_method = λ name. true; methods = memory_tx }

-- Commits what the callback returns, and rolls back what it threw.
abbrev pub memory_transaction : Memory → Run Memory
memory_transaction w = invokes raw_tx w λ r w'. elim r [
  | ok j ↦ resolves (obj (("status", string "committed") ∷ ("value", value_of j) ∷ [])) w'
  | err e ↦ resolves (obj (("status", string "confirmed_abort") ∷ [])) w
]

abbrev proof_subject : Types.Proof → String
proof_subject (Types.text t) = t
proof_subject (Types.bytes bs) = "bytes"

abbrev first_link : List IdentityRow → String
first_link [] = ""
first_link (r ∷ rs) = r.link_id

abbrev repeated : ℕ → ℕ → List ℕ
repeated zero b = []
repeated (suc n) b = b ∷ repeated n b

abbrev window : ℕ
window = 1000

abbrev revision_field : String × Value
revision_field = ("revision", string "r1")

abbrev pub sample : Host Memory
sample = record {
  settings = record { namespace = "ns"; limits = record ceilings { replay_window_ms = window } };
  verify_proof = λ input w. (
    some (
        obj (
          ("issuer", string input.provider_id)
          ∷ ("subject", string (proof_subject input.proof))
          ∷ ("authTime", num w.clock)
          ∷ ("methods", Value.array 0 (Slots.element true (string "key") Slots.nil))
          ∷ [])),
    w,
  );
  canonical_provider_for_issuer =
      λ issuer. answer (obj (("providerId", string issuer) ∷ revision_field ∷ []));
  authenticate_session = λ use' w. (
    some (
        obj (
          ("accountId", string "acc")
          ∷ ("sessionId", string use'.token)
          ∷ ("providerId", string "google")
          ∷ ("issuer", string "google")
          ∷ ("subject", string "ann")
          ∷ ("authTime", num 1)
          ∷ ("methods", Value.array 0 (Slots.element true (string "key") Slots.nil))
          ∷ ("expiresAt", num 900)
          ∷ [])),
    w,
  );
  session_binding = λ session_id w. (
    some (
        obj (
          ("namespace", string "ns")
          ∷ ("sessionId", string session_id)
          ∷ ("accountId", string "acc")
          ∷ ("issuer", string "google")
          ∷ ("subject", string "ann")
          ∷ ("providerId", string "google")
          ∷ ("linkId", string (first_link w.identities))
          ∷ ("generation", num 1)
          ∷ [])),
    w,
  );
  provider_state =
      λ provider_id. answer (obj (("enabled", Value.boolean true) ∷ revision_field ∷ []));
  authorize = λ action account session.
      answer (obj (("allowed", Value.boolean true) ∷ revision_field ∷ []));
  provisioning_policy = λ enrollment identity command_id. answer (
      obj (
        ("accountId", string "acc")
        ∷ ("approvalId", string "approval")
        ∷ ("commandId", string command_id)
        ∷ ("issuedAt", num 10)
        ∷ ("expiresAt", num 1010)
        ∷ []));
  verify_consent = λ receipt action account command_id target. answer (
      obj (
        ("consentId", string receipt)
        ∷ ("commandId", string command_id)
        ∷ ("issuedAt", num 10)
        ∷ ("expiresAt", num 1010)
        ∷ []));
  quote_growth = λ account command_id digest upper until. answer (
      obj (
        ("quoteId", string "q")
        ∷ ("upperLogicalBytes", num 81920)
        ∷ ("admittedLifetimeUntil", num until)
        ∷ ("footprintVersion", string "auth-directory.rows.v3")
        ∷ []));
  reserve_growth = λ account command_id digest quote.
      answer (obj (("reservationId", string "reservation") ∷ []));
  settle = λ reservation_id command_id. answer Value.undefined;
  release_confirmed_abort = λ reservation_id command_id. answer Value.undefined;
  transaction = memory_transaction;
  now = λ w. (some (num w.clock), w);
  random_bytes =
      λ n w. (some (byte_array 0 (repeated n w.draws)), record w { draws = w.draws + 1 });
  sha256_hex = λ t. "0123456789abcdef0123456789abcdef0123456789abcdef0123456789abcdef";
}

abbrev pub start : Closure Memory
start = record {
  world = record {
    clock = 20;
    draws = 1;
    identities = [];
    revisions = [];
    commands = [];
    consents = [];
    events = [];
  };
  fenced = false;
  last_time = 0;
  concurrent = 0;
}

abbrev google_proof : Value
google_proof = obj (("providerId", string "google") ∷ ("proof", string "ann") ∷ [])

abbrev github_proof : Value
github_proof = obj (("providerId", string "github") ∷ ("proof", string "ann") ∷ [])

abbrev pub session_input : Value
session_input = obj (("token", string "s1") ∷ ("context", obj (("ip", string "::1") ∷ [])) ∷ [])

abbrev pub provision_input : Value
provision_input = obj (
    ("proof", google_proof)
    ∷ ("enrollmentRef", string "enroll")
    ∷ ("commandId", string "10.AAAAAAAAAAAAAAAAAAAAAAAAAAAAAAAAAAAAAAAAAAA")
    ∷ [])

abbrev pub link_input : Value
link_input = obj (
    ("sessionUse", session_input)
    ∷ ("currentProof", google_proof)
    ∷ ("targetProof", github_proof)
    ∷ ("consent", string "consent1")
    ∷ ("commandId", string "10.BBBBBBBBBBBBBBBBBBBBBBBBBBBBBBBBBBBBBBBBBBA")
    ∷ [])

abbrev pub unlink_input : String → Value
unlink_input link_id = obj (
    ("sessionUse", session_input)
    ∷ ("currentProof", google_proof)
    ∷ ("linkId", string link_id)
    ∷ ("consent", string "consent2")
    ∷ ("commandId", string "10.CCCCCCCCCCCCCCCCCCCCCCCCCCCCCCCCCCCCCCCCCCA")
    ∷ [])
