-- ===== src/Health/Monitor/Records.antt =====
-- What one `record` of health/src/monitor.ts stores and raises.
use nestjs_yalc.Prelude.{
  truthy, ℕ, ◌+◌, ◌≤◌, ◌≡◌, refl, ap, Bool, true, false, Option, none, some, String,
}
use nestjs_yalc.Health.Checks.{
  CheckState, same_status, TransitionOutput, IncidentEvent, transition_check,
}
use nestjs_yalc.Health.Checks.Branches.{IsBad}
use nestjs_yalc.Health.Checks.Masked.{masked_opening}
use nestjs_yalc.Health.Monitor.After.{After, bind_after, exact_after, return_after}
use nestjs_yalc.Health.Monitor.{
  Act, when, next, ◌>>=◌, Definition, Probed, StateRow, ResultRow, IncidentRow, Repositories, opens,
  state_of, input_of, recorded, alert, resolve, enqueue, is_silenced,
}

module _ {W M : Type 0} (db : Repositories W M) (redact : String → String) (definition : Definition)
    (result : Probed M) (started_at duration : ℕ) (parent_failing : Bool)
    (grace_until : Option ℕ) where
  -- The change that the result makes to what was found of the check.
  abbrev pub change_of : Option StateRow → TransitionOutput
  change_of found =
      transition_check
        (input_of db redact definition result.status (started_at + duration) parent_failing
          grace_until)
        (state_of found (started_at + duration))

  abbrev pub row_of : ResultRow M
  row_of = record {
    check_key = definition.key;
    started_at = started_at;
    duration_ms = duration;
    status = result.status;
    summary = redact result.summary;
    metrics = result.metrics;
    error_class = result.error_class;
  }

  -- The state was found, and the result and then the new state were saved, in this order.
  abbrev pub Saved : W → CheckState → Type 0
  Saved w s =
      (found : Option StateRow) × (w₁ : W) × (w₂ : W) × (w₃ : W) × (db.find_state definition.key w
        ≡ (some found, w₁))
      × (db.save_result row_of w₁ ≡ (some tt, w₂))
      × (db.save_state (record { check_key = definition.key; state = s }) w₂ ≡ (some tt, w₃))
      × (s ≡ (change_of found).state)

  recorded_after :
      (w : W)
      → After
          (recorded db redact definition result started_at duration parent_failing grace_until)
          w
          (λ s w'. Saved w s)
  unfolding recorded
  recorded_after w = bind_after (
      exact_after λ found w₁ e₁. bind_after (
        exact_after λ u w₂ e₂. bind_after (
          exact_after λ u w₃ e₃. bind_after (
            exact_after λ u w₄ e₄. bind_after (
              exact_after λ u w₅ e₅.
                bind_after
                  (exact_after λ u w₆ e₆. return_after _ (found, w₁, w₂, w₃, e₁, e₂, e₃, refl)))))))

  -- If the record of a result returns a state, it is the change of the state that was found, and it
  -- was saved, after the result, whose summary was redacted.
  pub recorded-Saved :
      (w : W) {s : CheckState} {w' : W}
      → recorded db redact definition result started_at duration parent_failing grace_until w
        ≡ (some s, w')
      → Saved w s
  recorded-Saved w e = (recorded_after w).holds e

  module _ (save : IncidentRow → Act W (Unit {0})) where
    resolve-same :
        (id : Option String) (now : ℕ) (summary : String)
        → resolve (record db { save_incident = save }) redact id now summary
          ≡ resolve db redact id now summary
    unfolding resolve
    resolve-same none now summary = refl
    resolve-same (some id) now summary = refl

    alert-same :
        (summary : String) (now : ℕ) (s t : CheckState) (event : Option IncidentEvent)
        → alert (record db { save_incident = save }) redact definition summary now s t event
          ≡ alert db redact definition summary now s t event
    unfolding alert enqueue is_silenced
    alert-same summary now s t none = refl
    alert-same summary now s t (some event) = refl

  -- A check is found flapping, without an open incident, and gets a bad result, with a parent that works,
  -- outside the grace time, with a name for an incident that is not empty, which reaches the threshold
  -- and changes its status: the record of the result is the same whatever saving an incident does.
  pub unsaved_incident :
      (k : ℕ) (row : StateRow) (w w₁ : W) (save : IncidentRow → Act W (Unit {0}))
      → db.find_state definition.key w ≡ (some (some row), w₁)
      → IsBad k (
          input_of db redact definition result.status
            (started_at + duration)
            parent_failing
            grace_until)
      → truthy row.state.open_incident_id ≡ false
      → k ≤ row.state.consecutive_fail + 1
      → row.state.flapping ≡ true
      → same_status result.status row.state.status ≡ false
      → recorded
          (record db { save_incident = save })
          redact
          definition
          result
          started_at
          duration
          parent_failing
          grace_until
          w
        ≡ recorded db redact definition result started_at duration parent_failing grace_until w
  unfolding recorded ◌>>=◌ next state_of when
  unsaved_incident k row w w₁ save found bad closed reached flaps changes =
      rw
        (
          found,
          ap opens (masked_opening k _ row.state bad closed reached flaps changes).0,
          resolve-same save,
          alert-same save,
        )
        refl
