-- ===== src/Directory/Types.antt =====
-- auth/src/directory/directory-types.ts: the values that the directory validates, stores and
-- returns, with their JSON forms.
use nestjs_yalc.Prelude.{ℕ, Bool, Option, none, some, List, [], ◌∷◌, String}
use nestjs_yalc.Js.Value.{nat}
use nestjs_yalc.Js.Json.{
  Json, Items, nil, item, end, field, null, boolean, number, string, object, array,
}

pub record Identity : Type 0 where
  pub issuer : String
  pub subject : String
  pub auth_time : ℕ
  pub methods : List String

pub data Proof : Type 0 where
  text : String → Proof
  bytes : List ℕ → Proof

pub record ProofInput : Type 0 where
  pub provider_id : String
  pub proof : Proof

pub record SessionUse : Type 0 where
  pub token : String
  pub context : Json

pub record SessionProfile : Type 0 where
  pub issuer : String
  pub subject : String
  pub auth_time : ℕ
  pub methods : List String
  pub account_id : String
  pub session_id : String
  pub provider_id : String
  pub expires_at : ℕ

pub record SessionBinding : Type 0 where
  pub namespace : String
  pub session_id : String
  pub account_id : String
  pub issuer : String
  pub subject : String
  pub provider_id : String
  pub link_id : String
  pub generation : ℕ

pub record GuardResult : Type 0 where
  pub account_id : String
  pub link_id : String
  pub generation : ℕ
  pub account_revision : ℕ

pub data Action : Type 0 where
  provision link unlink : Action

pub data CommandStatus : Type 0 where
  provisioned linked unlinked_command : CommandStatus

pub record CommandResult : Type 0 where
  pub status : CommandStatus
  pub account_id : String
  pub link_id : String
  pub revision : ℕ
  pub replay : Bool

pub record LinkView : Type 0 where
  pub link_id : String
  pub provider_id : String
  pub issuer : String
  pub usable : Bool
  pub linked_at : ℕ

pub data LinkStatus : Type 0 where
  active unlinked : LinkStatus

pub record IdentityRow : Type 0 where
  pub namespace : String
  pub issuer : String
  pub subject : String
  pub provider_id : String
  pub account_id : String
  pub link_id : String
  pub status : LinkStatus
  pub generation : ℕ
  pub linked_at : ℕ
  pub unlinked_at : Option ℕ

pub record CommandRow : Type 0 where
  pub namespace : String
  pub command_id : String
  pub account_id : String
  pub action : Action
  pub intent_digest : String
  pub result : CommandResult
  pub reservation_id : String
  pub event_id : String
  pub expires_at : ℕ

pub record ConsentRow : Type 0 where
  pub namespace : String
  pub consent_id : String
  pub command_id : String
  pub expires_at : ℕ

pub data EventKind : Type 0 where
  identity_provisioned identity_linked identity_unlinked : EventKind

pub data Delivery : Type 0 where
  pending acknowledged : Delivery

pub record EventRow : Type 0 where
  pub event_id : String
  pub namespace : String
  pub kind : EventKind
  pub account_id : String
  pub link_id : String
  pub provider_id : String
  pub revision : ℕ
  pub at : ℕ
  pub command_id : String
  pub delivery : Delivery

pub record DirectoryLimits : Type 0 where
  pub max_fresh_proof_age_ms : ℕ
  pub max_links_per_account : ℕ
  pub max_command_receipts_per_account : ℕ
  pub max_pending_events : ℕ
  pub max_record_bytes : ℕ
  pub max_concurrent_commands : ℕ
  pub replay_window_ms : ℕ
  pub max_rows_per_namespace : ℕ

pub record Quote : Type 0 where
  pub quote_id : String
  pub upper_logical_bytes : ℕ
  pub admitted_lifetime_until : ℕ
  pub footprint_version : String

pub record Horizon : Type 0 where
  pub command_id : String
  pub issued_at : ℕ
  pub deadline : ℕ

abbrev pub action_name : Action → String
action_name provision = "provision"
action_name link = "link"
action_name unlink = "unlink"

abbrev pub status_name : CommandStatus → String
status_name provisioned = "provisioned"
status_name linked = "linked"
status_name unlinked_command = "unlinked"

abbrev pub link_status_name : LinkStatus → String
link_status_name active = "active"
link_status_name unlinked = "unlinked"

abbrev pub event_kind_name : EventKind → String
event_kind_name identity_provisioned = "identity_provisioned"
event_kind_name identity_linked = "identity_linked"
event_kind_name identity_unlinked = "identity_unlinked"

abbrev pub delivery_name : Delivery → String
delivery_name pending = "pending"
delivery_name acknowledged = "acknowledged"

abbrev pub status_of : Action → CommandStatus
status_of provision = provisioned
status_of link = linked
status_of unlink = unlinked_command

abbrev pub event_kind_of : Action → EventKind
event_kind_of provision = identity_provisioned
event_kind_of link = identity_linked
event_kind_of unlink = identity_unlinked

abbrev optional_number : Option ℕ → Json
optional_number none = null
optional_number (some n) = number (nat n)

text_items : List String → Items
text_items [] = nil
text_items (t ∷ ts) = item (string t) (text_items ts)

unfoldable pub identity_json : Identity → Json
unfolding text_items
identity_json r = object (
    field "issuer" (string r.issuer) (
      field "subject" (string r.subject) (
        field "authTime" (number (nat r.auth_time))
          (field "methods" (array (text_items r.methods)) end))))

unfoldable pub profile_json : SessionProfile → Json
unfolding text_items
profile_json r = object (
    field "issuer" (string r.issuer) (
      field "subject" (string r.subject) (
        field "authTime" (number (nat r.auth_time)) (
          field "methods" (array (text_items r.methods)) (
            field "accountId" (string r.account_id) (
              field "sessionId" (string r.session_id) (
                field "providerId" (string r.provider_id)
                  (field "expiresAt" (number (nat r.expires_at)) end))))))))

unfoldable pub binding_json : SessionBinding → Json
binding_json r = object (
    field "namespace" (string r.namespace) (
      field "sessionId" (string r.session_id) (
        field "accountId" (string r.account_id) (
          field "issuer" (string r.issuer) (
            field "subject" (string r.subject) (
              field "providerId" (string r.provider_id) (
                field "linkId" (string r.link_id)
                  (field "generation" (number (nat r.generation)) end))))))))

unfoldable pub identity_row_json : IdentityRow → Json
identity_row_json r = object (
    field "namespace" (string r.namespace) (
      field "issuer" (string r.issuer) (
        field "subject" (string r.subject) (
          field "providerId" (string r.provider_id) (
            field "accountId" (string r.account_id) (
              field "linkId" (string r.link_id) (
                field "status" (string (link_status_name r.status)) (
                  field "generation" (number (nat r.generation)) (
                    field "linkedAt" (number (nat r.linked_at))
                      (field "unlinkedAt" (optional_number r.unlinked_at) end))))))))))

unfoldable pub command_result_json : CommandResult → Json
command_result_json r = object (
    field "status" (string (status_name r.status)) (
      field "accountId" (string r.account_id) (
        field "linkId" (string r.link_id)
          (field "revision" (number (nat r.revision)) (field "replay" (boolean r.replay) end)))))

unfoldable pub command_row_json : CommandRow → Json
unfolding command_result_json
command_row_json r = object (
    field "namespace" (string r.namespace) (
      field "commandId" (string r.command_id) (
        field "accountId" (string r.account_id) (
          field "action" (string (action_name r.action)) (
            field "intentDigest" (string r.intent_digest) (
              field "result" (command_result_json r.result) (
                field "reservationId" (string r.reservation_id) (
                  field "eventId" (string r.event_id)
                    (field "expiresAt" (number (nat r.expires_at)) end)))))))))

unfoldable pub consent_row_json : ConsentRow → Json
consent_row_json r = object (
    field "namespace" (string r.namespace) (
      field "consentId" (string r.consent_id) (
        field "commandId" (string r.command_id)
          (field "expiresAt" (number (nat r.expires_at)) end))))

unfoldable pub event_row_json : EventRow → Json
event_row_json r = object (
    field "eventId" (string r.event_id) (
      field "namespace" (string r.namespace) (
        field "kind" (string (event_kind_name r.kind)) (
          field "accountId" (string r.account_id) (
            field "linkId" (string r.link_id) (
              field "providerId" (string r.provider_id) (
                field "revision" (number (nat r.revision)) (
                  field "at" (number (nat r.at)) (
                    field "commandId" (string r.command_id)
                      (field "delivery" (string (delivery_name r.delivery)) end))))))))))
