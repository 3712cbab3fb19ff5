-- ===== src/Health/Checks.antt =====
-- health/src/state-machine.ts: the state of one health check, and its change by one probe result.
-- Times are milliseconds since the epoch, so natural numbers; a difference of times is compared by
-- moving the subtrahend to the other side.
pub mod Times
pub mod Timeline
pub mod Events
pub mod Invariant
pub mod Branches
pub mod Masked
pub mod Runs
use nestjs_yalc.Prelude.{
  truthy, ℕ, ◌+◌, Bool, true, false, not, ◌&&◌, ◌||◌, Option, none, some, List, [], ◌∷◌, ◌++◌,
  String, ◌==◌, ltb, leb, nat_eq, length,
}
use nestjs_yalc.Js.Json.{decimal}

pub data CheckStatus : Type 0 where
  ok warn fail unknown blocked disabled : CheckStatus

pub data IncidentEvent : Type 0 where
  open_event recover_event flapping_event : IncidentEvent

pub record CheckState : Type 0 where
  pub status : CheckStatus
  pub since : ℕ
  pub consecutive_fail : ℕ
  pub consecutive_ok : ℕ
  pub last_ok_at : Option ℕ
  pub transitions : List ℕ
  pub flapping : Bool
  pub stable_since : Option ℕ
  pub open_incident_id : Option String

-- `result` is its status alone: nothing else of a result is read here.
pub record TransitionInput : Type 0 where
  pub result : CheckStatus
  pub now : ℕ
  pub fail_threshold : Option ℕ
  pub recover_threshold : Option ℕ
  pub parent_failing : Bool
  pub grace_until : Option ℕ
  pub incident_id : Option String

pub record TransitionOutput : Type 0 where
  pub state : CheckState
  pub event : Option IncidentEvent
  pub recovered_incident_id : Option String

abbrev pub hour : ℕ
hour = 3600000

abbrev pub stable : ℕ
stable = 1800000

unfoldable pub initial_check_state : ℕ → CheckState
initial_check_state now = record {
  status = unknown;
  since = now;
  consecutive_fail = 0;
  consecutive_ok = 0;
  last_ok_at = none;
  transitions = [];
  flapping = false;
  stable_since = none;
  open_incident_id = none;
}

abbrev pub kept : Bool → ℕ → List ℕ → List ℕ
kept true at rest = at ∷ rest
kept false at rest = rest

-- `transitions.filter((at) => at > now - HOUR)`
unfoldable pub recent : ℕ → List ℕ → List ℕ
recent now [] = []
recent now (at ∷ rest) = kept (ltb now (at + hour)) at (recent now rest)

abbrev pub or_default {ℓ} : {A : Type ℓ} → Option A → A → A
or_default none a = a
or_default (some b) a = b

abbrev pub rank : CheckStatus → ℕ
rank ok = 0
rank warn = 1
rank fail = 2
rank unknown = 3
rank blocked = 4
rank disabled = 5

abbrev pub same_status : CheckStatus → CheckStatus → Bool
same_status a b = nat_eq (rank a) (rank b)

abbrev pub in_grace : Option ℕ → ℕ → Bool
in_grace none now = false
in_grace (some until) now = ltb now until

-- The counters are set to 0.
abbrev pub paused : CheckStatus → CheckState → TransitionOutput
paused status s = record {
  state = record s { status = status; consecutive_fail = 0; consecutive_ok = 0 };
  event = none;
  recovered_incident_id = none;
}

abbrev pub silent : CheckState → TransitionOutput
silent s = record { state = s; event = none; recovered_incident_id = none }

-- An incident is open or not, and enough results in a row are ok or not.
pub ok_branch : Bool → Bool → CheckState → TransitionOutput
ok_branch true true s = record {
  state = record s { status = ok; open_incident_id = none };
  event = some recover_event;
  recovered_incident_id = s.open_incident_id;
}
ok_branch true false s = silent s
ok_branch false reached s = silent (record s { status = ok })

abbrev pub counted_ok : ℕ → CheckState → CheckState
counted_ok now s = record s {
  last_ok_at = some now;
  consecutive_ok = s.consecutive_ok + 1;
  consecutive_fail = 0;
}

pub on_ok : TransitionInput → CheckState → TransitionOutput
unfolding ok_branch
on_ok input s =
    ok_branch (truthy s.open_incident_id)
      (leb (or_default input.recover_threshold 2) (s.consecutive_ok + 1)) (counted_ok input.now s)

-- An incident is open or not, and enough results in a row are fail or warn or not.
pub fail_branch : Bool → Bool → CheckStatus → String → CheckState → TransitionOutput
fail_branch false true status id s = record {
  state = record s { status = status; open_incident_id = some id };
  event = some open_event;
  recovered_incident_id = none;
}
fail_branch false false status id s = silent (record s { status = unknown })
fail_branch true reached status id s = silent s

abbrev pub counted_fail : CheckState → CheckState
counted_fail s = record s { consecutive_fail = s.consecutive_fail + 1; consecutive_ok = 0 }

-- `input.incidentId ?? `${now}``
abbrev pub new_incident : TransitionInput → String
new_incident input = or_default input.incident_id (decimal input.now)

pub on_fail : CheckStatus → TransitionInput → CheckState → TransitionOutput
unfolding fail_branch
on_fail status input s =
    fail_branch (truthy s.open_incident_id)
      (leb (or_default input.fail_threshold 2) (s.consecutive_fail + 1)) status (new_incident input)
      (counted_fail s)

-- The branches by the status of the result that come after those of disabled, blocked and grace.
pub by_result : CheckStatus → TransitionInput → CheckState → TransitionOutput
unfolding on_ok on_fail
by_result ok input s = on_ok input s
by_result fail input s = on_fail fail input s
by_result warn input s = on_fail warn input s
by_result _ input s = silent (record s { status = unknown })

-- The checks before those of the result: it is disabled, its parent fails, it is in its grace.
pub pause_branch : Bool → Bool → Bool → TransitionInput → CheckState → TransitionOutput
pause_branch true parent grace input s = paused disabled s
pause_branch false true grace input s = paused blocked s
pause_branch false false true input s = paused unknown s
pause_branch false false false input s = by_result input.result input s

pub classified : TransitionInput → CheckState → TransitionOutput
unfolding by_result pause_branch
classified input s =
    pause_branch (same_status input.result disabled) input.parent_failing
      (in_grace input.grace_until input.now) input s

-- A change of the status is put down.
pub dated : Bool → ℕ → CheckState → CheckState
dated true now s = s
dated false now s = record s {
  since = now;
  transitions = s.transitions ++ now ∷ [];
  stable_since = some now;
}

-- `state.stableSince !== undefined && now - state.stableSince >= STABLE`
abbrev pub is_stable : Option ℕ → ℕ → Bool
is_stable none now = false
is_stable (some since) now = leb (since + stable) now

-- Flapping begins at four transitions, ends when the status is stable, and hides events meanwhile.
-- The tests are: it is flapping, there are four transitions, and the status is stable.
pub flap_branch : Bool → Bool → Bool → TransitionOutput → TransitionOutput
flap_branch false true still out = record out {
  state = record out.state { flapping = true };
  event = some flapping_event;
}
flap_branch false false still out = out
flap_branch true many true out = record out {
  state = record out.state { flapping = false; transitions = [] };
}
flap_branch true many false out = record out { event = none }

pub flapped : ℕ → TransitionOutput → TransitionOutput
unfolding flap_branch
flapped now out =
    flap_branch out.state.flapping (leb 4 (length out.state.transitions))
      (is_stable out.state.stable_since now) out

unfoldable pub transition_check : TransitionInput → CheckState → TransitionOutput
unfolding classified dated flapped
transition_check input state =
    let s : CheckState = record state { transitions = recent input.now state.transitions } in
    let out = classified input s in
    let same = same_status out.state.status state.status in
    flapped input.now (record out { state = dated same input.now out.state })
