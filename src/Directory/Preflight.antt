-- ===== src/Directory/Preflight.antt =====
-- The intent of a command, its digest, and the checks before its writes, in
-- auth/src/directory/directory-core.ts.
pub mod Safety
pub mod Outcome
use nestjs_yalc.Prelude.{
  ℕ, suc, ◌+◌, Bool, true, false, not, ◌&&◌, ◌||◌, Option, none, some, List, [], ◌∷◌, String, ◌==◌,
  ltb, leb, nat_eq,
}
use nestjs_yalc.Js.Value.{Value, is_null, nat}
use nestjs_yalc.Js.Json
use nestjs_yalc.Js.Json.{Json, Items, Fields, canonical, field, object, string}
use nestjs_yalc.Directory.Errors.{
  ErrorCode, Result, ok, err, fail, check, command_conflict, identity_conflict, storage_unavailable,
  consent_denied, capacity_exceeded,
}
use nestjs_yalc.Directory.Types.{
  Identity, IdentityRow, CommandRow, Horizon, Action, provision, link, unlink, LinkStatus, active,
  unlinked, action_name, identity_row_json, command_row_json,
}
use nestjs_yalc.Directory.Host.{Host, DirectoryTx}
use nestjs_yalc.Directory.Exec.{
  Closure, Exec, pure, lift, raise, require, ◌>>=◌, ◌>>◌, port, choose,
}
use nestjs_yalc.Directory.Reads.{
  Actor, is_active, actor_row, stored_identity, stored_link, stored_command, revision, links,
}
use nestjs_yalc.Directory.Validation.Scalars.{integer, max_safe_integer}
use nestjs_yalc.Directory.Validation.Rows.{consent_row}

-- `target` and `linkId` of an intent: exactly one of the two is not null.
pub data Target : Type 0 where
  identity : Identity → Target
  by_link : String → Target

pub record Intent : Type 0 where
  pub action : Action
  pub horizon : Horizon
  pub account_id : String
  pub consent_id : String
  pub digest : String
  pub target : Target
  pub provider_id : String
  pub actor : Option Actor

pub record Plan : Type 0 where
  pub target : Option IdentityRow
  pub revision : Option ℕ
  pub receipt : Option CommandRow
  pub links : List IdentityRow

abbrev optional_json {ℓ} : {A : Type ℓ} → (A → Json) → Option A → Json
optional_json json none = Json.null
optional_json json (some a) = json a

pub identity_row_option_json : Option IdentityRow → Json
identity_row_option_json = optional_json identity_row_json

pub command_row_option_json : Option CommandRow → Json
command_row_option_json = optional_json command_row_json

pub row_items : List IdentityRow → Items
row_items [] = Items.nil
row_items (r ∷ rs) = Items.item (identity_row_json r) (row_items rs)

pub plan_json : Plan → Json
plan_json p = object (
    field "target" (identity_row_option_json p.target) (
      field "revision" (optional_json (λ n. Json.number (nat n)) p.revision) (
        field "receipt" (command_row_option_json p.receipt)
          (field "links" (Json.array (row_items p.links)) Fields.end))))

target_json : Target → Json
target_json (identity t) =
    object (field "issuer" (string t.issuer) (field "subject" (string t.subject) Fields.end))
target_json (by_link link_id) = object (field "linkId" (string link_id) Fields.end)

abbrev pub is_link : Action → Bool
is_link link = true
is_link _ = false

abbrev pub is_unlink : Action → Bool
is_unlink unlink = true
is_unlink _ = false

-- What an action may find at its target: an unlink the account's active row; a link no row, or the
-- account's unlinked row of the same provider; a provision no row.
pub target_allowed : Action → String → String → Option IdentityRow → Bool
target_allowed unlink account_id provider_id none = false
target_allowed unlink account_id provider_id (some row) =
    row.account_id == account_id && is_active row.status
target_allowed action account_id provider_id none = true
target_allowed action account_id provider_id (some row) =
    is_link action
    && row.account_id == account_id
    && not (is_active row.status)
    && row.provider_id == provider_id

abbrev pub is_none {ℓ} : {A : Type ℓ} → Option A → Bool
is_none none = true
is_none (some a) = false

abbrev option_eq : Option ℕ → ℕ → Bool
option_eq none n = false
option_eq (some m) n = nat_eq m n

module _ {W : Type 0} (h : Host W) where
  -- SHA-256 of the canonical JSON of what the command is about.
  pub digest : Intent → String
  digest intent = h.sha256_hex (
      canonical (
        object (
          field "namespace" (string h.namespace) (
            field "accountId" (string intent.account_id) (
              field "action" (string (action_name intent.action)) (
                field "providerId" (string intent.provider_id) (
                  field "target" (target_json intent.target) (
                    field "consentId" (string intent.consent_id)
                      (field "commandId" (string intent.horizon.command_id) Fields.end)))))))))

  pub receipt_matches : CommandRow → Intent → Bool
  receipt_matches receipt intent =
      receipt.account_id == intent.account_id
      && action_name receipt.action == action_name intent.action
      && receipt.intent_digest == intent.digest
      && nat_eq receipt.expires_at intent.horizon.deadline

  pub assert_receipt : CommandRow → Intent → Result (Unit {0})
  assert_receipt receipt intent = check (receipt_matches receipt intent) command_conflict

  module _ (tx : DirectoryTx W) where
    pub stored_target : Target → Exec W (Option IdentityRow)
    stored_target (identity t) = stored_identity h tx t.issuer t.subject
    stored_target (by_link link_id) = stored_link h tx link_id

    pub counted : (W → Option Value × W) → Exec W ℕ
    counted call = do
      raw ← port call storage_unavailable
      lift (integer raw storage_unavailable 0 max_safe_integer)

    pub require_unused : String → Exec W (Unit {0})
    require_unused consent_id = do
      used ← port (tx.get_consent consent_id) storage_unavailable
      let refuse : Exec W (Unit {0}) = do
        parsed ← lift (consent_row used h.namespace h.limits.max_record_bytes)
        require (parsed.consent_id == consent_id) storage_unavailable
        raise consent_denied
      choose (is_null used) (pure tt) refuse

    -- `count <= limit - 5`, over the integers.
    pub has_capacity : Option IdentityRow → ℕ → ℕ → ℕ → ℕ → Bool
    has_capacity target count link_count commands pending =
        leb (count + 5) h.limits.max_rows_per_namespace
        && leb link_count h.limits.max_links_per_account
        && (not (is_none target) || ltb link_count h.limits.max_links_per_account)
        && ltb commands h.limits.max_command_receipts_per_account
        && ltb pending h.limits.max_pending_events

    pub require_actor : Option Actor → Exec W (Unit {0})
    require_actor none = pure tt
    require_actor (some a) = do again ← actor_row h tx a.profile a.binding; pure tt

    pub same_revision : Option Actor → Option ℕ → Bool
    same_revision none current = true
    same_revision (some a) current = option_eq current a.revision

    -- The rest of `preflight`, when the command has no receipt.
    pub examine : Intent → Exec W Plan
    examine intent = do
      target ← stored_target intent.target
      require (target_allowed intent.action intent.account_id intent.provider_id target)
          identity_conflict
      current ← revision h tx intent.account_id
      require (same_revision intent.actor current) identity_conflict
      require_unused intent.consent_id
      count ← counted tx.count_rows
      link_count ← counted (tx.count_links intent.account_id)
      commands ← counted (tx.count_commands intent.account_id)
      pending ← counted tx.count_pending_events
      require (has_capacity target count link_count commands pending) capacity_exceeded
      rows ← choose (is_unlink intent.action) (links h tx intent.account_id) (pure [])
      pure (record { target = target; revision = current; receipt = none; links = rows })

    pub planned : Intent → Option CommandRow → Exec W Plan
    planned intent none = examine intent
    planned intent (some receipt) = do
      lift (assert_receipt receipt intent)
      pure (record { target = none; revision = none; receipt = some receipt; links = [] })

    pub preflight : Intent → Exec W Plan
    preflight intent = do
      require_actor intent.actor
      receipt ← stored_command h tx intent.horizon.command_id
      planned intent receipt

-- Opens the module, for runs.
unfoldable pub preflight_opened : Unit {0}
unfolding digest identity_row_option_json command_row_option_json row_items plan_json target_json
    target_allowed receipt_matches assert_receipt stored_target counted require_unused has_capacity
    require_actor same_revision examine planned preflight canonical command_row_json consent_row
    identity_row_json integer port
preflight_opened = tt
