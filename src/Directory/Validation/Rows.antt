-- ===== src/Directory/Validation/Rows.antt =====
-- The validators of stored rows in auth/src/directory/directory-validation.ts.
use nestjs_yalc.Prelude.{
  ℕ, Bool, true, false, not, ◌&&◌, Option, none, some, [], ◌∷◌, String, ◌==◌, leb, if◌then◌else◌,
}
use nestjs_yalc.Js.Value.{Value, null}
use nestjs_yalc.Js.Text.{byte_length}
use nestjs_yalc.Js.Json.{Json, canonical}
use nestjs_yalc.Directory.Errors.{ErrorCode, Result, ok, check, ◌>>=◌, ◌>>◌, storage_unavailable}
use nestjs_yalc.Directory.Types.{
  IdentityRow, CommandRow, ConsentRow, CommandResult, LinkStatus, active, unlinked, Action,
  provision, link, unlink, CommandStatus, provisioned, linked, unlinked_command, status_of,
  status_name, identity_row_json, command_row_json, consent_row_json,
}
use nestjs_yalc.Directory.Validation.Scalars.{
  text, short, account, integer, boolean, one_of, id, digest_text, max_safe_integer,
}
use nestjs_yalc.Directory.Validation.Shapes.{data_of, get}

-- The test that `row` makes of a validated row: its namespace, and the size of its JSON text.
unfoldable pub row_fits : String → Json → String → ℕ → Bool
unfolding byte_length canonical
row_fits row_namespace json namespace max =
    row_namespace == namespace && leb (byte_length (canonical json)) max

abbrev link_status_of : String → LinkStatus
link_status_of s = if s == "active" then active else unlinked

optional_integer : Value → ErrorCode → Result (Option ℕ)
unfolding integer
optional_integer null code = ok none
optional_integer raw code = do n ← integer raw code 0 max_safe_integer; ok (some n)

-- An active link has no time of unlinking; an unlinked one has one, not before that of linking.
unfoldable pub unlink_time_ok : LinkStatus → ℕ → Option ℕ → Bool
unlink_time_ok active linked_at none = true
unlink_time_ok unlinked linked_at (some at) = leb linked_at at
unlink_time_ok _ linked_at _ = false

unfoldable pub identity_row : Value → String → ℕ → Result IdentityRow
unfolding data_of text account id one_of integer optional_integer row_fits unlink_time_ok
identity_row raw namespace max = do
  let code = storage_unavailable
  value ←
      data_of raw
        ("namespace" ∷ "issuer" ∷ "subject" ∷ "providerId" ∷ "accountId" ∷ "linkId" ∷ "status"
          ∷ "generation" ∷ "linkedAt" ∷ "unlinkedAt" ∷ [])
        code
  row_namespace ← text (get "namespace" value) 128 code false
  issuer ← text (get "issuer" value) 2048 code false
  subject ← text (get "subject" value) 512 code false
  provider_id ← text (get "providerId" value) 80 code true
  account_id ← account (get "accountId" value) code
  link_id ← id (get "linkId" value) code
  status ← one_of (get "status" value) ("active" ∷ "unlinked" ∷ []) code
  generation ← integer (get "generation" value) code 1 max_safe_integer
  linked_at ← integer (get "linkedAt" value) code 0 max_safe_integer
  unlinked_at ← optional_integer (get "unlinkedAt" value) code
  let row : IdentityRow = record {
    namespace = row_namespace;
    issuer = issuer;
    subject = subject;
    provider_id = provider_id;
    account_id = account_id;
    link_id = link_id;
    status = link_status_of status;
    generation = generation;
    linked_at = linked_at;
    unlinked_at = unlinked_at;
  }
  check (row_fits row.namespace (identity_row_json row) namespace max) code
  check (unlink_time_ok row.status row.linked_at row.unlinked_at) code
  ok row

abbrev command_status_of : String → CommandStatus
command_status_of s =
    if s == "provisioned" then provisioned else if s == "linked" then linked else unlinked_command

unfoldable pub command_result : Value → Result CommandResult
unfolding data_of account id one_of integer boolean
command_result raw = do
  let code = storage_unavailable
  value ← data_of raw ("status" ∷ "accountId" ∷ "linkId" ∷ "revision" ∷ "replay" ∷ []) code
  status ← one_of (get "status" value) ("provisioned" ∷ "linked" ∷ "unlinked" ∷ []) code
  account_id ← account (get "accountId" value) code
  link_id ← id (get "linkId" value) code
  revision ← integer (get "revision" value) code 1 max_safe_integer
  replay ← boolean (get "replay" value) code
  ok (record {
    status = command_status_of status;
    account_id = account_id;
    link_id = link_id;
    revision = revision;
    replay = replay;
  })

abbrev action_of : String → Action
action_of s = if s == "provision" then provision else if s == "link" then link else unlink

unfoldable pub command_row : Value → String → ℕ → Result CommandRow
unfolding data_of text short account id one_of integer digest_text command_result row_fits
    command_row_json
command_row raw namespace max = do
  let code = storage_unavailable
  value ←
      data_of raw
        ("namespace" ∷ "commandId" ∷ "accountId" ∷ "action" ∷ "intentDigest" ∷ "result"
          ∷ "reservationId" ∷ "eventId" ∷ "expiresAt" ∷ [])
        code
  row_namespace ← text (get "namespace" value) 128 code false
  command_id ← text (get "commandId" value) 60 code false
  account_id ← account (get "accountId" value) code
  action ← one_of (get "action" value) ("provision" ∷ "link" ∷ "unlink" ∷ []) code
  intent_digest ← digest_text (get "intentDigest" value) code
  result ← command_result (get "result" value)
  reservation_id ← short (get "reservationId" value) code
  event_id ← id (get "eventId" value) code
  expires_at ← integer (get "expiresAt" value) code 0 max_safe_integer
  let row : CommandRow = record {
    namespace = row_namespace;
    command_id = command_id;
    account_id = account_id;
    action = action_of action;
    intent_digest = intent_digest;
    result = result;
    reservation_id = reservation_id;
    event_id = event_id;
    expires_at = expires_at;
  }
  check (row_fits row.namespace (command_row_json row) namespace max) code
  check
      (row.account_id == row.result.account_id
        && not row.result.replay
        && status_name row.result.status == status_name (status_of row.action))
      code
  ok row

unfoldable pub consent_row : Value → String → ℕ → Result ConsentRow
unfolding data_of text short integer row_fits consent_row_json
consent_row raw namespace max = do
  let code = storage_unavailable
  value ← data_of raw ("namespace" ∷ "consentId" ∷ "commandId" ∷ "expiresAt" ∷ []) code
  row_namespace ← text (get "namespace" value) 128 code false
  consent_id ← short (get "consentId" value) code
  command_id ← text (get "commandId" value) 60 code false
  expires_at ← integer (get "expiresAt" value) code 0 max_safe_integer
  let row : ConsentRow = record {
    namespace = row_namespace;
    consent_id = consent_id;
    command_id = command_id;
    expires_at = expires_at;
  }
  check (row_fits row.namespace (consent_row_json row) namespace max) code
  ok row
