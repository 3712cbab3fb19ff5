-- ===== src/Health/Monitor.antt =====
-- health/src/monitor.ts: OutboxNotifier and HealthMonitorService. The repositories of TypeORM are a
-- parameter: a call answers in any way it likes, `none` if it throws, and its effects are on a world W
-- of any type. So are the transaction that hands the callback its repositories, and
-- `redactHealthText`. The notifier of the service is the OutboxNotifier.
pub mod After
pub mod Records
use Prim.Native.String.{◌++◌}
use nestjs_yalc.Prelude.{
  truthy, ℕ, ◌+◌, ◌-◌, ◌*◌, Bool, true, false, not, ◌&&◌, ◌||◌, Option, none, some, List, [], ◌∷◌,
  String, ◌==◌, any,
}
use nestjs_yalc.Js.Json.{decimal}
use nestjs_yalc.Health.Checks.{
  CheckStatus, CheckState, TransitionInput, TransitionOutput, IncidentEvent, open_event,
  recover_event, flapping_event, initial_check_state, transition_check,
}

-- An asynchronous call: what it answers, and the world after it.
abbrev pub Act : Type 0 → Type 0 → Type 0
Act W A = W → Option A × W

module _ {W A B : Type 0} where
  unfoldable pub next : Option A → (A → Act W B) → Act W B
  next none f w = (none, w)
  next (some a) f w = f a w

  infixl 5 ◌>>=◌ ◌>>◌
  unfoldable pub ◌>>=◌ : Act W A → (A → Act W B) → Act W B
  unfolding next
  ◌>>=◌ m f w = let (r, w') = m w in next r f w'

  abbrev pub ◌>>◌ : Act W A → Act W B → Act W B
  m >> n = m >>= λ _. n

unfoldable pub return : {W A : Type 0} → A → Act W A
return a w = (some a, w)

-- `if (test) await act;`
unfoldable pub when : {W : Type 0} → Bool → Act W (Unit {0}) → Act W (Unit {0})
when true act = act
when false act = return tt

pub data Severity : Type 0 where
  critical warning info : Severity

abbrev pub is_critical : Severity → Bool
is_critical critical = true
is_critical _ = false

-- The fields of a CheckDefinition that `record` reads.
pub record Definition : Type 0 where
  pub key : String
  pub group : String
  pub title : String
  pub severity : Severity
  pub fail_threshold : Option ℕ
  pub recover_threshold : Option ℕ

-- A probe result; its metrics are handed on as they are.
pub record Probed (M : Type 0) : Type 0 where
  pub status : CheckStatus
  pub summary : String
  pub error_class : Option String
  pub metrics : Option M

pub record ResultRow (M : Type 0) : Type 0 where
  pub check_key : String
  pub started_at : ℕ
  pub duration_ms : ℕ
  pub status : CheckStatus
  pub summary : String
  pub metrics : Option M
  pub error_class : Option String

-- `null` and a field that is missing are both `none`, so a row of a check holds its state as it is.
pub record StateRow : Type 0 where
  pub check_key : String
  pub state : CheckState

pub record IncidentRow : Type 0 where
  pub id : String
  pub check_key : String
  pub root_key : String
  pub severity : Severity
  pub opened_at : ℕ
  pub resolved_at : Option ℕ
  pub first_summary : String
  pub last_summary : String

pub record Silence : Type 0 where
  pub matcher : String
  pub starts_at : ℕ
  pub ends_at : ℕ

pub record Notification : Type 0 where
  pub dedup_key : String
  pub kind : IncidentEvent
  pub text : String
  pub target : String

pub record Repositories (W M : Type 0) : Type 0 where
  pub find_state : String → Act W (Option StateRow)
  pub save_result : ResultRow M → Act W (Unit {0})
  pub save_state : StateRow → Act W (Unit {0})
  pub save_incident : IncidentRow → Act W (Unit {0})
  -- the incidents that are not resolved
  pub find_open_incidents : Act W (List IncidentRow)
  -- the incident, the time at which it is resolved, and its last summary
  pub resolve_incident : String → ℕ → String → Act W (Unit {0})
  -- the silences that start before and end after a time
  pub find_silences : ℕ → Act W (List Silence)
  pub find_alert : String → Act W Bool
  -- a new alert, that is neither claimed nor sent
  pub save_alert : Notification → Act W (Unit {0})
  -- the deletions of what started, was resolved or ended before a time
  pub delete_results : ℕ → Act W (Unit {0})
  pub delete_incidents : ℕ → Act W (Unit {0})
  pub delete_silences : ℕ → Act W (Unit {0})
  pub transaction : Act W CheckState → Act W CheckState

abbrev pub event_name : IncidentEvent → String
event_name open_event = "open"
event_name recover_event = "recover"
event_name flapping_event = "flapping"

abbrev pub opens : Option IncidentEvent → Bool
opens (some open_event) = true
opens _ = false

abbrev pub has_event : Option IncidentEvent → Bool
has_event none = false
has_event (some event) = true

-- `${state.openIncidentId ?? change.state.openIncidentId}`
abbrev pub incident_text : Option String → Option String → String
incident_text (some id) other = id
incident_text none (some id) = id
incident_text none none = "undefined"

-- The state of a check that has a row, or a new one.
unfoldable pub state_of : Option StateRow → ℕ → CheckState
state_of none now = initial_check_state now
state_of (some row) now = row.state

-- `incident:…:…:0`
abbrev pub incident_key : CheckState → CheckState → IncidentEvent → String
incident_key state after event =
    "incident:"
    ++ incident_text state.open_incident_id after.open_incident_id
    ++ ":"
    ++ event_name event
    ++ ":0"

-- `${definition.key}:${now}`
abbrev pub incident_id : String → ℕ → String
incident_id key now = key ++ ":" ++ decimal now

module _ {W M : Type 0} (db : Repositories W M) (redact : String → String) where
  -- `OutboxNotifier.enqueue`: an alert of the same key is not repeated.
  unfoldable pub enqueue : Notification → Act W (Unit {0})
  enqueue n = do
    existing ← db.find_alert n.dedup_key
    when (not existing) (db.save_alert (record n { text = redact n.text }))

  unfoldable pub is_silenced : String → String → ℕ → Act W Bool
  is_silenced key group now = do
    active ← db.find_silences now
    return (any (λ silence. silence.matcher == key || silence.matcher == group ++ ".*") active)

  -- `change.event && severity === 'critical' && !(await isSilenced(…))`, and the alert.
  unfoldable pub alert :
      Definition → String → ℕ → CheckState → CheckState → Option IncidentEvent → Act W (Unit {0})
  alert definition summary now state after none = return tt
  alert definition summary now state after (some event) = when (is_critical definition.severity) do
    silenced ← is_silenced definition.key definition.group now
    when (not silenced) (
        enqueue (record {
          dedup_key = incident_key state after event;
          kind = event;
          text = definition.title ++ ": " ++ redact summary;
          target = "default";
        }))

  unfoldable pub resolve : Option String → ℕ → String → Act W (Unit {0})
  resolve none now summary = return tt
  resolve (some id) now summary =
      when (truthy (some id)) (db.resolve_incident id now (redact summary))

  abbrev pub input_of : Definition → CheckStatus → ℕ → Bool → Option ℕ → TransitionInput
  input_of definition status now parent_failing grace_until = record {
    result = status;
    now = now;
    fail_threshold = definition.fail_threshold;
    recover_threshold = definition.recover_threshold;
    parent_failing = parent_failing;
    grace_until = grace_until;
    incident_id = some (incident_id definition.key now);
  }

  -- The callback of the transaction of `record`.
  unfoldable pub recorded : Definition → Probed M → ℕ → ℕ → Bool → Option ℕ → Act W CheckState
  recorded definition result started_at duration parent_failing grace_until = do
    let now = started_at + duration
    previous ← db.find_state definition.key
    let state = state_of previous now
    let change =
        transition_check (input_of definition result.status now parent_failing grace_until) state
    db.save_result (record {
      check_key = definition.key;
      started_at = started_at;
      duration_ms = duration;
      status = result.status;
      summary = redact result.summary;
      metrics = result.metrics;
      error_class = result.error_class;
    })
    db.save_state (record { check_key = definition.key; state = change.state })
    when (opens change.event) (
        db.save_incident (record {
          id = incident_id definition.key now;
          check_key = definition.key;
          root_key = definition.key;
          severity = definition.severity;
          opened_at = now;
          resolved_at = none;
          first_summary = redact result.summary;
          last_summary = redact result.summary;
        }))
    resolve change.recovered_incident_id now result.summary
    alert definition result.summary now state change.state change.event
    return change.state

  -- `record`
  unfoldable pub record_result : Definition → Probed M → ℕ → ℕ → Bool → Option ℕ → Act W CheckState
  record_result definition result started_at duration parent_failing grace_until =
      db.transaction (recorded definition result started_at duration parent_failing grace_until)

  unfoldable pub prune : ℕ → Act W (Unit {0})
  prune now = do
    db.delete_results (now - 14 * 24 * 60 * 60 * 1000)
    db.delete_incidents (now - 90 * 24 * 60 * 60 * 1000)
    db.delete_silences now

  unfoldable pub open_incidents : Act W (List IncidentRow)
  open_incidents = db.find_open_incidents
