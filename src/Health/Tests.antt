-- ===== src/Health/Tests.antt =====
-- Health checks at concrete inputs, with repositories in memory.
use nestjs_yalc.Prelude.{
  ℕ, ◌<◌, ◌≡◌, refl, true, false, Option, none, some, List, [], ◌∷◌, String, inr, truthy, length,
  arith, includes,
}
use nestjs_yalc.Js.Json.{decimal}
use nestjs_yalc.Health.Checks.{
  CheckStatus, ok, fail, unknown, CheckState, TransitionInput, initial_check_state,
  transition_check, recent,
}
use nestjs_yalc.Health.Checks.Invariant.{IsConsistent, transition_check-IsConsistent}
use nestjs_yalc.Health.Checks.Timeline.{
  IsTimely, initial_check_state-IsTimely, transition_check-IsTimely,
}
use nestjs_yalc.Health.Checks.Events.{Reported, transition_check-Reported}
use nestjs_yalc.Health.Checks.Branches.{IsBad, IsGood}
use nestjs_yalc.Health.Checks.Runs.{run, bad_run_opens, good_run_closes}
use nestjs_yalc.Health.Scheduler.{Schedule, new_scheduler, begin, finish, due}
use nestjs_yalc.Health.Scheduler.Slots.{
  here, then', begins, finishes, IsWithin, Turns-IsWithin, begin_lem,
}
use nestjs_yalc.Health.Monitor.{
  ◌>>=◌, next, state_of, return, Definition, Probed, StateRow, IncidentRow, Repositories, critical,
  recorded, when, resolve, alert,
}
use nestjs_yalc.Health.Monitor.Records.{Saved, recorded-Saved, unsaved_incident}

abbrev input_at : CheckStatus → ℕ → TransitionInput
input_at status now = record {
  result = status;
  now = now;
  fail_threshold = none;
  recover_threshold = none;
  parent_failing = false;
  grace_until = none;
  incident_id = some "api:1";
}

abbrev initial : CheckState
initial = record {
  status = unknown;
  since = 5;
  consecutive_fail = 0;
  consecutive_ok = 0;
  last_ok_at = none;
  transitions = [];
  flapping = false;
  stable_since = none;
  open_incident_id = none;
}

-- A check that has failed once and flaps.
abbrev shaky : CheckState
shaky = record initial { consecutive_fail = 1; flapping = true; stable_since = some 5 }

abbrev broken : CheckState
broken = record initial { status = fail; consecutive_fail = 2; open_incident_id = some "api:0" }

initial-eq : initial_check_state 5 ≡ initial
unfolding initial_check_state
initial-eq = refl

run_example :
    (run (input_at fail 10 ∷ input_at fail 20 ∷ []) initial).open_incident_id ≡ some "api:1"
unfolding run transition_check recent
run_example = refl

broken-IsConsistent : IsConsistent broken
broken-IsConsistent = record {
  one_counter = inr refl;
  failing_open = λ e. refl;
  ok_closed = λ e. cc;
}

transition_check-IsConsistent_example :
    IsConsistent (transition_check (input_at ok 10) broken).state
transition_check-IsConsistent_example =
    transition_check-IsConsistent (input_at ok 10) refl broken broken-IsConsistent

transition_check-IsTimely_example :
    IsTimely 10 (transition_check (input_at fail 10) (initial_check_state 5)).state
transition_check-IsTimely_example =
    transition_check-IsTimely (input_at fail 10) 5 (initial_check_state 5) (omega arith)
      (initial_check_state-IsTimely 5)

transition_check-Reported_example :
    Reported
      (input_at fail 10)
      broken
      (transition_check (input_at fail 10) broken).event
      (transition_check (input_at fail 10) broken)
transition_check-Reported_example = transition_check-Reported (input_at fail 10) broken

bad : (now : ℕ) → IsBad 2 (input_at fail now)
bad now = record {
  is_bad = refl;
  parent_works = refl;
  no_grace = refl;
  enough = refl;
  named = refl;
}

good : (now : ℕ) → IsGood 2 (input_at ok now)
good now = record { is_good = refl; parent_works = refl; no_grace = refl; enough = refl }

bad_run_opens_example :
    truthy (run (input_at fail 10 ∷ input_at fail 20 ∷ []) initial).open_incident_id ≡ true
bad_run_opens_example =
    bad_run_opens 2 (input_at fail 10 ∷ input_at fail 20 ∷ []) initial (bad 10, (bad 20, tt))
      (omega arith) (omega arith)

good_run_closes_example :
    truthy (run (input_at ok 10 ∷ input_at ok 20 ∷ []) broken).open_incident_id ≡ false
good_run_closes_example =
    good_run_closes 2 (input_at ok 10 ∷ input_at ok 20 ∷ []) broken (good 10, (good 20, tt))
      (omega arith) (omega arith)

abbrev api : Schedule
api = record { key = "api"; interval_seconds = 60; enabled = none }

Turns-IsWithin_example :
    IsWithin (finish "api" (begin api 100 (begin api 90 (new_scheduler 4)).1).1)
Turns-IsWithin_example =
    Turns-IsWithin 4 (then' (then' (then' here (begins api 90)) (begins api 100)) (finishes "api"))

begun : (begin api 90 (new_scheduler 4)).0 ≡ none
unfolding begin new_scheduler
begun = refl

begin_lem_example :
    (includes (new_scheduler 4).active "api" ≡ false)
    × (length (new_scheduler 4).active < 4)
    × ((finish "api" (begin api 90 (new_scheduler 4)).1).active ≡ (new_scheduler 4).active)
    × (due (begin api 90 (new_scheduler 4)).1 api 7 60000 ≡ false)
unfolding new_scheduler
begin_lem_example = begin_lem api 90 (new_scheduler 4) begun 7 60000 (omega arith)

-- The stored state of one check, and what was saved of it.
record Memory : Type 0 where
  state : Option StateRow
  incidents : List IncidentRow

abbrev repositories : Repositories Memory (Unit {0})
repositories = record {
  find_state = λ key w. (some w.state, w);
  save_result = λ row w. (some tt, w);
  save_state = λ row w. (some tt, record w { state = some row });
  save_incident = λ row w. (some tt, record w { incidents = row ∷ w.incidents });
  find_open_incidents = λ w. (some w.incidents, w);
  resolve_incident = λ id at summary w. (some tt, w);
  find_silences = λ now w. (some [], w);
  find_alert = λ key w. (some false, w);
  save_alert = λ n w. (some tt, w);
  delete_results = λ now w. (some tt, w);
  delete_incidents = λ now w. (some tt, w);
  delete_silences = λ now w. (some tt, w);
  transaction = λ act w. act w;
}

abbrev api_check : Definition
api_check = record {
  key = "api";
  group = "web";
  title = "API";
  severity = critical;
  fail_threshold = none;
  recover_threshold = none;
}

abbrev failed : Probed (Unit {0})
failed = record { status = fail; summary = "down"; error_class = none; metrics = none }

abbrev flapping_memory : Memory
flapping_memory = record {
  state = some (record { check_key = "api"; state = shaky });
  incidents = [];
}

abbrev same_text : String → String
same_text s = s

abbrev api_input : TransitionInput
api_input = record (input_at fail 10) { incident_id = some "api:10" }

abbrev flapped : CheckState
flapped = (transition_check api_input shaky).state

-- The repositories after the check, whose opening was masked: there is no incident.
abbrev flapped_memory : Memory
flapped_memory = record {
  state = some (record { check_key = "api"; state = flapped });
  incidents = [];
}

api_input-IsBad : IsBad 2 api_input
api_input-IsBad = record {
  is_bad = refl;
  parent_works = refl;
  no_grace = refl;
  enough = refl;
  named = refl;
}

recorded_example :
    recorded repositories same_text api_check failed 10 0 false none flapping_memory
    ≡ (some flapped, flapped_memory)
unfolding recorded ◌>>=◌ next return when resolve alert state_of transition_check recent decimal
recorded_example = refl

recorded-Saved_example :
    Saved repositories same_text api_check failed 10 0 false none flapping_memory flapped
recorded-Saved_example =
    recorded-Saved repositories same_text api_check failed 10 0 false none flapping_memory
      recorded_example

unsaved_incident_example :
    recorded
      (record repositories { save_incident = λ row w. (none, w) })
      same_text
      api_check
      failed
      10
      0
      false
      none
      flapping_memory
    ≡ recorded repositories same_text api_check failed 10 0 false none flapping_memory
unfolding decimal
unsaved_incident_example =
    unsaved_incident repositories same_text api_check failed 10 0 false none 2
      (record { check_key = "api"; state = shaky }) flapping_memory flapping_memory
      (λ row w. (none, w)) refl api_input-IsBad refl (omega arith) refl refl
