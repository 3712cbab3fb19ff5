-- ===== src/Directory/Facade.antt =====
-- The operations of the facade that createIdentityDirectory returns
-- (auth/src/directory/directory-core.ts).
pub mod Safety
pub mod Histories
pub mod Rechecks
use nestjs_yalc.Prelude.{
  ℕ, suc, ◌+◌, ◌-◌, Bool, true, false, not, ◌&&◌, Option, none, some, List, [], ◌∷◌, String, ◌==◌,
  ltb, nat_eq,
}
use nestjs_yalc.Js.Value.{Value, object, nat}
use nestjs_yalc.Js.Json
use nestjs_yalc.Js.Json.{Json, Fields, canonical, field}
use nestjs_yalc.Directory.Errors.{
  Fault, Result, ok, err, fail, check, invalid_input, authentication_denied, authorization_denied,
  identity_conflict, consent_denied, command_conflict, capacity_exceeded, commit_unknown,
}
use nestjs_yalc.Directory.Types.{
  Identity, IdentityRow, CommandRow, CommandResult, GuardResult, LinkView, SessionUse, ProofInput,
  Horizon, Action, provision, link, unlink,
}
use nestjs_yalc.Directory.Host
use nestjs_yalc.Directory.Host.{Host, ConsentTarget, DirectoryTx}
use nestjs_yalc.Directory.Exec.{
  Closure, Exec, pure, lift, raise, require, ◌>>=◌, ◌>>◌, choose, cases,
}
use nestjs_yalc.Directory.Atomic.{atomic}
use nestjs_yalc.Directory.Reads.{
  Actor, is_active, some_and, stored_identity, stored_link, stored_command, actor_row, links,
}
use nestjs_yalc.Directory.Guards.{
  time, route, require_route, authorize, guard, fresh_proof, require_fresh, approval, Approved,
  consent, actor_json,
}
use nestjs_yalc.Directory.Preflight.{
  Target, identity, by_link, Intent, digest, assert_receipt, identity_row_option_json,
  command_row_option_json, row_items,
}
use nestjs_yalc.Directory.Mutate.{mutate, replay, joined}
use nestjs_yalc.Directory.Validation.Scalars
use nestjs_yalc.Directory.Validation.Scalars.{text, one_of}
use nestjs_yalc.Directory.Validation.Shapes.{data_of, get, descriptor, Descriptor, holds}
use nestjs_yalc.Directory.Validation.Inputs
use nestjs_yalc.Directory.Validation.Inputs.{horizon, proof, session_use}

abbrev Account : Type 0
Account = record { account_id : String }

pub record Listing : Type 0 where
  pub revision : ℕ
  pub links : List LinkView

record Rows : Type 0 where
  revision : ℕ
  rows : List IdentityRow

account_json : Option Account → Json
account_json none = Json.null
account_json (some a) = Json.object (field "accountId" (Json.string a.account_id) Fields.end)

approved_json : Approved → Json
approved_json a = Json.object (
    field "accountId" (Json.string a.account_id)
      (field "consentId" (Json.string a.consent_id) Fields.end))

rows_json : Rows → Json
rows_json r = Json.object (
    field "revision" (Json.number (nat r.revision))
      (field "rows" (Json.array (row_items r.rows)) Fields.end))

abbrev is_some {ℓ} : {A : Type ℓ} → Option A → Bool
is_some none = false
is_some (some a) = true

-- `row && row.status === 'active' && row.providerId === providerId ? { accountId } : null`
account_of : String → Option IdentityRow → Option Account
account_of provider_id none = none
account_of provider_id (some row) = elim (is_active row.status && row.provider_id == provider_id) [
  | true ↦ some (record { account_id = row.account_id })
  | false ↦ none
]

-- The kind of a reconcile scope, read from its descriptor.
scope_kind : Value → Result String
scope_kind (object prototype ps) = elim (descriptor "kind" ps) [
  | some (holds e v) ↦ one_of v ("session" ∷ "provision" ∷ []) invalid_input
  | _ ↦ fail invalid_input
]
scope_kind _ = fail invalid_input

-- What a protected mutation has parsed and checked before it asks for consent.
pub record Request : Type 0 where
  pub horizon : Horizon
  pub session_use : SessionUse
  pub secret : String
  pub actor : Actor
  pub current : Identity
  pub target : Target
  pub provider_id : String

module _ {W : Type 0} (h : Host W) where
  -- Whether the facade is fenced, and whether it has room. The slot is given back in any case.
  admitted : Bool → Bool → Exec W CommandResult → Exec W CommandResult
  admitted true room work c = (fail commit_unknown, c)
  admitted false false work c = (fail capacity_exceeded, c)
  admitted false true work c =
      let (r, c') = work (record c { concurrent = c.concurrent + 1 }) in
      (r, record c' { concurrent = c'.concurrent - 1 })

  pub write : Exec W CommandResult → Exec W CommandResult
  write work c = admitted c.fenced (ltb c.concurrent h.limits.max_concurrent_commands) work c

  abbrev authorized_action : Action → Host.AuthorizedAction
  authorized_action unlink = Host.AuthorizedAction.unlink
  authorized_action _ = Host.AuthorizedAction.link

  abbrev consent_target : String → Target → ConsentTarget
  consent_target provider_id (identity t) = ConsentTarget.identity provider_id t.issuer t.subject
  consent_target provider_id (by_link link_id) = ConsentTarget.link provider_id link_id

  -- The current proof is one of the identity to which the session belongs.
  pub proves_actor : Identity → ProofInput → Actor → Bool
  proves_actor current input actor =
      current.issuer == actor.profile.issuer
      && current.subject == actor.profile.subject
      && input.provider_id == actor.profile.provider_id

  current_actor : SessionUse → ProofInput → Exec W (Actor × Identity)
  current_actor use' current_proof = do
    actor ← guard h use'
    current ← fresh_proof h current_proof
    require (proves_actor current current_proof actor) authentication_denied
    pure (actor, current)

  -- The row that an unlink is about; it is the actor's.
  unlink_target : Actor → String → Exec W IdentityRow
  unlink_target actor link_id = do
    found ← atomic identity_row_option_json h (λ tx. stored_link h tx link_id)
    cases found (raise identity_conflict)
        λ row. do require (row.account_id == actor.profile.account_id) identity_conflict; pure row

  pub recheck_target : Target → String → Exec W (Unit {0})
  recheck_target (by_link link_id) provider_id = pure tt
  recheck_target (identity t) provider_id = do
    require_fresh h t
    require_route h t.issuer provider_id

  -- The second look after the reservation.
  pub recheck : Action → Request → String → Exec W (Unit {0})
  recheck action r consent_id = do
    again ← guard h r.session_use
    require (canonical (actor_json again) == canonical (actor_json r.actor)) authentication_denied
    authorize h (authorized_action action) again.profile
    require_fresh h r.current
    recheck_target r.target r.provider_id
    second ←
        consent h r.secret action r.actor.profile.account_id r.horizon
          (consent_target r.provider_id r.target)
    require (second == consent_id) consent_denied

  -- Authorisation and consent, the intent, and the mutation.
  pub consented : Action → Request → Exec W CommandResult
  consented action r = do
    authorize h (authorized_action action) r.actor.profile
    consent_id ←
        consent h r.secret action r.actor.profile.account_id r.horizon
          (consent_target r.provider_id r.target)
    let intent : Intent = record {
      action = action;
      horizon = r.horizon;
      account_id = r.actor.profile.account_id;
      consent_id = consent_id;
      digest = "";
      target = r.target;
      provider_id = r.provider_id;
      actor = some r.actor;
    }
    mutate h (record intent { digest = digest h intent }) (recheck action r consent_id)

  pub link_identity : Value → Exec W CommandResult
  link_identity raw = write do
    input ← lift (
        data_of raw ("sessionUse" ∷ "currentProof" ∷ "targetProof" ∷ "consent" ∷ "commandId" ∷ [])
          invalid_input)
    now ← time h
    command ← lift (horizon (get "commandId" input) now h.limits.replay_window_ms)
    use' ← lift (session_use (get "sessionUse" input))
    current_proof ← lift (proof (get "currentProof" input))
    target_proof ← lift (proof (get "targetProof" input))
    secret ← lift (text (get "consent" input) 4096 invalid_input false)
    (actor, current) ← current_actor use' current_proof
    target ← fresh_proof h target_proof
    consented link (record {
      horizon = command;
      session_use = use';
      secret = secret;
      actor = actor;
      current = current;
      target = identity target;
      provider_id = target_proof.provider_id;
    })

  pub unlink_identity : Value → Exec W CommandResult
  unlink_identity raw = write do
    input ← lift (
        data_of raw ("sessionUse" ∷ "currentProof" ∷ "linkId" ∷ "consent" ∷ "commandId" ∷ [])
          invalid_input)
    now ← time h
    command ← lift (horizon (get "commandId" input) now h.limits.replay_window_ms)
    use' ← lift (session_use (get "sessionUse" input))
    current_proof ← lift (proof (get "currentProof" input))
    link_id ← lift (Scalars.id (get "linkId" input) invalid_input)
    secret ← lift (text (get "consent" input) 4096 invalid_input false)
    (actor, current) ← current_actor use' current_proof
    row ← unlink_target actor link_id
    consented unlink (record {
      horizon = command;
      session_use = use';
      secret = secret;
      actor = actor;
      current = current;
      target = by_link link_id;
      provider_id = row.provider_id;
    })

  provision_intent : Horizon → Approved → Identity → String → Intent
  provision_intent command approved target provider_id =
      let intent : Intent = record {
        action = provision;
        horizon = command;
        account_id = approved.account_id;
        consent_id = approved.consent_id;
        digest = "";
        target = identity target;
        provider_id = provider_id;
        actor = none;
      } in
      record intent { digest = digest h intent }

  pub recheck_provision : Identity → String → Horizon → String → Approved → Exec W (Unit {0})
  recheck_provision target enrollment_ref command provider_id approved = do
    require_fresh h target
    require_route h target.issuer provider_id
    again ← approval h target enrollment_ref command
    require (canonical (approved_json again) == canonical (approved_json approved))
        authorization_denied

  pub provision_identity : Value → Exec W CommandResult
  provision_identity raw = write do
    input ← lift (data_of raw ("proof" ∷ "enrollmentRef" ∷ "commandId" ∷ []) invalid_input)
    now ← time h
    command ← lift (horizon (get "commandId" input) now h.limits.replay_window_ms)
    input_proof ← lift (proof (get "proof" input))
    enrollment_ref ← lift (text (get "enrollmentRef" input) 4096 invalid_input false)
    target ← fresh_proof h input_proof
    approved ← approval h target enrollment_ref command
    mutate h (provision_intent command approved target input_proof.provider_id)
        (recheck_provision target enrollment_ref command input_proof.provider_id approved)

  pub resolve_identity : Value → Exec W (Option Account)
  resolve_identity raw = do
    now ← time h
    verified ← lift (Inputs.identity raw now invalid_input)
    provider ← route h verified.issuer none
    cases provider (pure none) λ provider_id. atomic account_json h λ tx. do
      row ← stored_identity h tx verified.issuer verified.subject
      pure (account_of provider_id row)

  -- Only an active link is routed.
  routed_view : IdentityRow → Exec W LinkView
  routed_view row = do
    provider ← choose (is_active row.status) (route h row.issuer (some row.provider_id)) (pure none)
    pure (record {
      link_id = row.link_id;
      provider_id = row.provider_id;
      issuer = row.issuer;
      usable = is_some provider;
      linked_at = row.linked_at;
    })

  -- `Promise.all` over the rows of a listing.
  views : List IdentityRow → Exec W (List LinkView)
  views [] c = (ok [], c)
  views (row ∷ rows) c =
      let (r, c') = routed_view row c in let (rest, c'') = views rows c' in (joined r rest, c'')

  pub list : Value → Exec W Listing
  list raw = do
    input ← lift (data_of raw ("sessionUse" ∷ []) invalid_input)
    use' ← lift (session_use (get "sessionUse" input))
    actor ← guard h use'
    authorize h Host.AuthorizedAction.list actor.profile
    listing ← atomic rows_json h λ tx. do
      current ← actor_row h tx actor.profile actor.binding
      rows ← links h tx actor.profile.account_id
      pure (record { revision = current.revision; rows = rows })
    shown ← views listing.rows
    pure (record { revision = listing.revision; links = shown })

  -- The account of a session scope, and no intent.
  session_scope : Value → Exec W (String × Option Intent)
  session_scope raw = do
    scope ← lift (data_of raw ("kind" ∷ "sessionUse" ∷ []) invalid_input)
    use' ← lift (session_use (get "sessionUse" scope))
    actor ← guard h use'
    authorize h Host.AuthorizedAction.reconcile actor.profile
    pure (actor.profile.account_id, none)

  provision_scope : Value → Horizon → Exec W (String × Option Intent)
  provision_scope raw command = do
    scope ← lift (data_of raw ("kind" ∷ "proof" ∷ "enrollmentRef" ∷ []) invalid_input)
    input_proof ← lift (proof (get "proof" scope))
    target ← fresh_proof h input_proof
    enrollment_ref ← lift (text (get "enrollmentRef" scope) 4096 invalid_input false)
    approved ← approval h target enrollment_ref command
    pure (
      approved.account_id,
      some (provision_intent command approved target input_proof.provider_id),
    )

  reconcile_checks : CommandRow → String → Horizon → Option Intent → Result (Unit {0})
  reconcile_checks found account_id command intent =
      elim (found.account_id == account_id && nat_eq found.expires_at command.deadline) [
        | false ↦ fail command_conflict
        | true ↦ elim intent [ none ↦ ok tt | some i ↦ assert_receipt h found i ]
      ]

  -- The callback of `reconcile`.
  found_receipt : DirectoryTx W → Horizon → String → Option Intent → Exec W (Option CommandRow)
  found_receipt tx command account_id intent = do
    found ← stored_command h tx command.command_id
    cases found (pure none)
        λ row. do lift (reconcile_checks row account_id command intent); pure (some row)

  pub reconcile : Value → Exec W (Option CommandResult)
  reconcile raw = do
    input ← lift (data_of raw ("scope" ∷ "commandId" ∷ []) invalid_input)
    now ← time h
    command ← lift (horizon (get "commandId" input) now h.limits.replay_window_ms)
    kind ← lift (scope_kind (get "scope" input))
    (account_id, intent) ←
        choose (kind == "session") (session_scope (get "scope" input))
          (provision_scope (get "scope" input) command)
    receipt ← atomic command_row_option_json h (λ tx. found_receipt tx command account_id intent)
    cases receipt (pure none) λ row. do result ← replay h row; pure (some result)

  pub assert_current_link : Value → Exec W GuardResult
  assert_current_link raw = do
    input ← lift (data_of raw ("sessionUse" ∷ []) invalid_input)
    use' ← lift (session_use (get "sessionUse" input))
    actor ← guard h use'
    pure (record {
      account_id = actor.profile.account_id;
      link_id = actor.row.link_id;
      generation = actor.row.generation;
      account_revision = actor.revision;
    })

-- Opens the module, for runs.
unfoldable pub facade_opened : Unit {0}
unfolding admitted account_json approved_json rows_json account_of scope_kind horizon session_use
    write proves_actor current_actor unlink_target recheck_target recheck consented link_identity
    unlink_identity provision_intent recheck_provision provision_identity resolve_identity
    routed_view views list session_scope provision_scope reconcile_checks found_receipt reconcile
    assert_current_link Inputs.identity Scalars.id atomic canonical data_of descriptor one_of proof
facade_opened = tt
