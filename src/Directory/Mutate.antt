-- ===== src/Directory/Mutate.antt =====
-- `mutate` of auth/src/directory/directory-core.ts: a command from its plan over the reservation of
-- capacity to the transaction that writes, and the settlement of the reservation.
pub mod Safety
pub mod Writes
pub mod Settlement
pub mod Commitments
pub mod Success
pub mod Methods
pub mod Draws
use nestjs_yalc.Prelude.{
  ℕ, suc, ◌+◌, ◌*◌, Bool, true, false, not, ◌&&◌, ◌||◌, Option, none, some, List, [], ◌∷◌, String,
  ◌==◌, leb, nat_eq, all, any,
}
use nestjs_yalc.Js.Value
use nestjs_yalc.Js.Value.{Value, nat, number, undefined, string}
use nestjs_yalc.Js.Text.{byte_length}
use nestjs_yalc.Js.Json
use nestjs_yalc.Js.Json.{Json, Fields, canonical, field, object}
use nestjs_yalc.Js.Base64.{base64url}
use nestjs_yalc.Directory.Errors.{
  ErrorCode, Fault, fresh, aborted, type_error, Result, ok, err, fail, check, invalid_config,
  identity_conflict, command_conflict, last_method, storage_unavailable, capacity_exceeded,
  commit_unknown,
}
use nestjs_yalc.Directory.Types.{
  Identity, IdentityRow, CommandRow, ConsentRow, EventRow, CommandResult, Horizon, Action,
  provision, link, unlink, LinkStatus, active, unlinked, status_of, event_kind_of, pending,
  identity_row_json, command_row_json, consent_row_json, event_row_json, command_result_json,
}
use nestjs_yalc.Directory.Host.{Host, DirectoryTx, Port}
use nestjs_yalc.Directory.Exec.{
  Closure, Exec, pure, lift, raise, rethrow, require, ◌>>=◌, ◌>>◌, port, choose, cases,
  require_unfenced,
}
use nestjs_yalc.Directory.Atomic.{atomic}
use nestjs_yalc.Directory.Reads.{is_active, stored_link}
use nestjs_yalc.Directory.Guards.{time, route}
use nestjs_yalc.Directory.Preflight.{
  Target, identity, by_link, Intent, Plan, is_unlink, plan_json, identity_row_option_json,
  preflight,
}
use nestjs_yalc.Directory.Validation.Scalars.{integer, boolean, short, max_safe_integer}
use nestjs_yalc.Directory.Validation.Shapes.{data_of, get, bytes}
use nestjs_yalc.Directory.Validation.Inputs.{horizon, quote}

-- The revision or generation after this one.
pub next : ℕ → Result ℕ
next value = integer (number (nat (value + 1))) storage_unavailable 1 max_safe_integer

next_revision : Option ℕ → Result ℕ
next_revision none = ok 1
next_revision (some r) = next r

-- `row.linkId !== intent.linkId`
abbrev pub is_other : Target → IdentityRow → Bool
is_other (identity t) row = true
is_other (by_link link_id) row = not (row.link_id == link_id)

pub other_active : Target → List IdentityRow → List IdentityRow
other_active target [] = []
other_active target (row ∷ rows) =
    let rest = other_active target rows in
    elim (is_other target row && is_active row.status) [ true ↦ row ∷ rest | false ↦ rest ]

-- `Promise.all`: every promise runs, and the first error is the outcome.
abbrev pub joined {ℓ} : {A : Type ℓ} → Result A → Result (List A) → Result (List A)
joined (ok a) (ok rest) = ok (a ∷ rest)
joined (ok a) (err e) = err e
joined (err e) rest = err e

abbrev pub is_some {ℓ} : {A : Type ℓ} → Option A → Bool
is_some none = false
is_some (some a) = true

-- What a mutation writes.
pub record Changes : Type 0 where
  pub result : CommandResult
  pub identity : IdentityRow
  pub receipt : CommandRow
  pub consumed : ConsentRow
  pub event : EventRow

-- The stored row with its new status, or a new row. A link that is not stored has no identity to
-- write: `intent.target!.issuer` throws.
pub changed_identity : String → Intent → Option IdentityRow → String → ℕ → Result IdentityRow
changed_identity namespace intent (some row) link_id at = elim (next row.generation) [
  | err e ↦ err e
  | ok generation ↦ elim (is_unlink intent.action) [
    | true ↦ ok (record row { status = unlinked; generation = generation; unlinked_at = some at })
    | false ↦ ok (record row { status = active; generation = generation; unlinked_at = none })
  ]
]
changed_identity namespace intent none link_id at = elim intent.target [
  | by_link l ↦ err type_error
  | identity t ↦ ok (record {
    namespace = namespace;
    issuer = t.issuer;
    subject = t.subject;
    provider_id = intent.provider_id;
    account_id = intent.account_id;
    link_id = link_id;
    status = active;
    generation = 1;
    linked_at = at;
    unlinked_at = none;
  })
]

-- `'x'.repeat(128)`, in the place of the reservation that is not made yet.
abbrev longest_reservation : String
longest_reservation =
    "xxxxxxxxxxxxxxxxxxxxxxxxxxxxxxxxxxxxxxxxxxxxxxxxxxxxxxxxxxxxxxxxxxxxxxxxxxxxxxxxxxxxxxxxxxxxxxxxxxxxxxxxxxxxxxxxxxxxxxxxxxxxxxxx"

pub changes : String → Intent → IdentityRow → String → String → ℕ → ℕ → Changes
changes namespace intent row link_id event_id revision at =
    let command_id = intent.horizon.command_id in
    let result : CommandResult = record {
      status = status_of intent.action;
      account_id = intent.account_id;
      link_id = link_id;
      revision = revision;
      replay = false;
    } in
    record {
      result = result;
      identity = row;
      receipt = record {
        namespace = namespace;
        command_id = command_id;
        account_id = intent.account_id;
        action = intent.action;
        intent_digest = intent.digest;
        result = result;
        reservation_id = longest_reservation;
        event_id = event_id;
        expires_at = intent.horizon.deadline;
      };
      consumed = record {
        namespace = namespace;
        consent_id = intent.consent_id;
        command_id = command_id;
        expires_at = intent.horizon.deadline;
      };
      event = record {
        event_id = event_id;
        namespace = namespace;
        kind = event_kind_of intent.action;
        account_id = intent.account_id;
        link_id = link_id;
        provider_id = intent.provider_id;
        revision = revision;
        at = at;
        command_id = command_id;
        delivery = pending;
      };
    }

revision_json : String → String → ℕ → Json
revision_json namespace account_id revision = object (
    field "namespace" (Json.string namespace) (
      field "accountId" (Json.string account_id)
        (field "revision" (Json.number (nat revision)) Fields.end)))

-- `sized` of the five rows.
pub sized : Changes → ℕ → Bool
sized ch max =
    all (λ j. leb (byte_length (canonical j)) max)
      (identity_row_json ch.identity
        ∷ revision_json ch.event.namespace ch.result.account_id ch.result.revision
        ∷ command_row_json ch.receipt
        ∷ consent_row_json ch.consumed
        ∷ event_row_json ch.event
        ∷ [])

abbrev pub with_reservation : String → Changes → Changes
with_reservation id ch = record ch { receipt = record ch.receipt { reservation_id = id } }

abbrev same_revision : Option ℕ → Option ℕ → Bool
same_revision none none = true
same_revision (some m) (some n) = nat_eq m n
same_revision _ _ = false

-- The transaction sees the plan that the first one made.
pub same_plan : Plan → Plan → Bool
same_plan current plan =
    same_revision current.revision plan.revision
    && canonical (identity_row_option_json current.target)
      == canonical (identity_row_option_json plan.target)

abbrev pub is_undefined : Value → Bool
is_undefined undefined = true
is_undefined _ = false

-- `fenced = true; return fail('commit_unknown');`
doubt : {W A : Type 0} → Exec W A
doubt c = (fail commit_unknown, record c { fenced = true })

fenced_off : {W : Type 0} → Result (Unit {0}) → Closure W → Result (Unit {0}) × Closure W
fenced_off (ok u) c = (ok tt, c)
fenced_off (err e) c = doubt c

abbrev pub caught : Result (Unit {0}) → Option Fault
caught (ok u) = none
caught (err e) = some e

-- The text of 32 bytes; any other answer is refused.
drawn_text : Option Value → Result String
drawn_text none = fail invalid_config
drawn_text (some raw) = elim (bytes raw 32 32 invalid_config) [
  | err e ↦ fail invalid_config
  | ok bs ↦ ok (base64url bs)
]

module _ {W : Type 0} (h : Host W) where
  pub draw : Exec W String
  draw c =
      let (answer, w) = h.random_bytes 32 c.world in (drawn_text answer, record c { world = w })

  -- `settle` or `releaseConfirmedAbort`: an answer other than undefined is not believed.
  pub terminal : Port W → Exec W (Unit {0})
  terminal call = do result ← port call commit_unknown; require (is_undefined result) commit_unknown

  -- `try { … } catch { fenced = true; return fail('commit_unknown'); }`
  pub or_fence : Exec W (Unit {0}) → Exec W (Unit {0})
  or_fence m c = let (r, c') = m c in fenced_off r c'

  pub replay : CommandRow → Exec W CommandResult
  replay receipt = do
    or_fence (terminal (h.settle receipt.reservation_id receipt.command_id))
    pure (record receipt.result { replay = true })

  pub route_all : List IdentityRow → Exec W (List (Option String))
  route_all [] c = (ok [], c)
  route_all (row ∷ rows) c =
      let (r, c') = route h row.issuer (some row.provider_id) c in
      let (rs, c'') = route_all rows c' in (joined r rs, c'')

  -- An unlink needs another active link whose provider serves its issuer now.
  pub require_other_method : Intent → Plan → Exec W (Unit {0})
  require_other_method intent plan =
      let look : Exec W (Unit {0}) = do
        usable ← route_all (other_active intent.target plan.links)
        require (any is_some usable) last_method
      in choose (is_unlink intent.action) look (pure tt)

  drawn_link : Option IdentityRow → Exec W String
  drawn_link target = cases target draw (λ row. pure row.link_id)

  -- The rows of the mutation, drawn, dated and sized.
  pub prepare : Intent → Plan → Exec W Changes
  prepare intent plan = do
    at ← time h
    link_id ← drawn_link plan.target
    event_id ← draw
    revision ← lift (next_revision plan.revision)
    row ← lift (changed_identity h.namespace intent plan.target link_id at)
    let ch = changes h.namespace intent row link_id event_id revision at
    require (sized ch h.limits.max_record_bytes) capacity_exceeded
    pure ch

  -- The reservation of capacity for the five rows.
  pub reserve : Intent → Exec W String
  reserve intent = do
    let command_id = intent.horizon.command_id
    let max = h.limits.max_record_bytes
    raw ←
        port (h.quote_growth intent.account_id command_id intent.digest max intent.horizon.deadline)
          capacity_exceeded
    quoted ← lift (quote raw (5 * max) intent.horizon.deadline)
    answer ←
        port (h.reserve_growth intent.account_id command_id intent.digest quoted) capacity_exceeded
    value ← lift (data_of answer ("reservationId" ∷ []) capacity_exceeded)
    lift (short (get "reservationId" value) capacity_exceeded)

  pub checks : Intent → Plan → Exec W (Unit {0}) → Exec W (Unit {0})
  checks intent plan recheck = do
    require_unfenced
    now ← time h
    again ← lift (horizon (string intent.horizon.command_id) now h.limits.replay_window_ms)
    recheck
    require_other_method intent plan

  -- `checkError`: the error of the checks after the reservation is thrown in the transaction.
  pub recheck_all : Intent → Plan → Exec W (Unit {0}) → Exec W (Option Fault)
  recheck_all intent plan recheck c =
      let (r, c') = checks intent plan recheck c in (ok (caught r), c')

  abbrev pub thrown : Option Fault → Exec W (Unit {0})
  thrown o = cases o (pure tt) rethrow

  module _ (tx : DirectoryTx W) where
    -- One write: its answer is a boolean, and it is true.
    written : Port W → Exec W (Unit {0})
    written call = do
      raw ← port call storage_unavailable
      done ← lift (boolean raw storage_unavailable)
      require done identity_conflict

    pub identity_write : Plan → IdentityRow → Port W
    identity_write plan row = elim plan.target [
      | some old ↦ tx.update_identity old.generation row
      | none ↦ tx.insert_identity row
    ]

    -- The five writes, in their order.
    pub write_all : Intent → Plan → Changes → Exec W (Unit {0})
    write_all intent plan ch = do
      written (identity_write plan ch.identity)
      written (tx.put_account_revision intent.account_id plan.revision ch.result.revision)
      written (tx.insert_consent ch.consumed)
      written (tx.insert_command ch.receipt)
      written (tx.insert_event ch.event)

    pub apply_plan : Intent → Plan → Changes → Plan → Exec W CommandResult
    apply_plan intent plan ch current = do
      require (same_plan current plan) identity_conflict
      clash ← stored_link h tx ch.result.link_id
      require (not (is_some clash) || is_some plan.target) identity_conflict
      write_all intent plan ch
      pure ch.result

    -- The callback of the transaction that commits.
    pub commit : Intent → Plan → Changes → Option Fault → Exec W CommandResult
    commit intent plan ch check_error = do
      thrown check_error
      require_unfenced
      current ← preflight h tx intent
      cases current.receipt (apply_plan intent plan ch current) λ receipt. do
        require (receipt.reservation_id == ch.receipt.reservation_id) command_conflict
        pure (record receipt.result { replay = true })

  -- After the transaction: a commit settles the reservation, a confirmed abort releases it, and any
  -- doubt fences the facade.
  settlement : String → String → Result CommandResult → Exec W CommandResult
  settlement reservation_id command_id (ok result) = do
    or_fence (terminal (h.settle reservation_id command_id))
    pure result
  settlement reservation_id command_id (err (aborted code)) = do
    or_fence (terminal (h.release_confirmed_abort reservation_id command_id))
    rethrow (aborted code)
  settlement reservation_id command_id (err _) = doubt

  pub conclude : String → String → Exec W CommandResult → Exec W CommandResult
  conclude reservation_id command_id m c =
      let (r, c') = m c in settlement reservation_id command_id r c'

  -- The command whose plan found no receipt.
  perform : Intent → Exec W (Unit {0}) → Plan → Exec W CommandResult
  perform intent recheck plan = do
    require_other_method intent plan
    prepared ← prepare intent plan
    reservation_id ← reserve intent
    let ch = with_reservation reservation_id prepared
    check_error ← recheck_all intent plan recheck
    conclude reservation_id intent.horizon.command_id
        (atomic command_result_json h (λ tx. commit tx intent plan ch check_error))

  pub mutate : Intent → Exec W (Unit {0}) → Exec W CommandResult
  mutate intent recheck = do
    plan ← atomic plan_json h (λ tx. preflight h tx intent)
    cases plan.receipt (perform intent recheck plan) replay

-- Opens the module, for runs.
unfoldable pub mutate_opened : Unit {0}
unfolding next next_revision other_active changed_identity changes revision_json sized same_plan
    drawn_text draw doubt fenced_off terminal or_fence replay route_all require_other_method
    drawn_link prepare reserve checks recheck_all written identity_write write_all apply_plan commit
    settlement conclude perform mutate atomic base64url boolean byte_length bytes canonical
    command_result_json command_row_json consent_row_json data_of event_row_json horizon
    identity_row_json integer port quote short
mutate_opened = tt
