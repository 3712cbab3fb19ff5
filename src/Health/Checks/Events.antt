-- ===== src/Health/Checks/Events.antt =====
-- The events that a result of a check raises, and what they stand for.
use nestjs_yalc.Prelude.{
  truthy, ℕ, ◌+◌, ◌≤◌, ◌≡◌, refl, ◌∙◌, subst, sym, Bool, true, false, Option, none, some, List, ◌⊎◌,
  inl, inr, arith, length, leb,
}
use nestjs_yalc.Health.Checks.{
  CheckStatus, ok, warn, fail, unknown, blocked, disabled, CheckState, TransitionInput,
  TransitionOutput, IncidentEvent, open_event, recover_event, flapping_event, recent, or_default,
  is_stable, counted_ok, counted_fail, new_incident, same_status, in_grace, ok_branch, fail_branch,
  on_ok, on_fail, by_result, pause_branch, classified, dated, flap_branch, flapped,
  transition_check,
}
use nestjs_yalc.Health.Checks.Invariant.{is_failing}
use nestjs_yalc.Health.Checks.Times.{classified-SameTimes}
use nestjs_yalc.Health.Checks.Timeline.{AllRecent, recent-AllRecent, dated-AllRecent}

pub leb-eq-true : (m n : ℕ) → leb m n ≡ true → m ≤ n
leb-eq-true m n e = ground arith

module _ (input : TransitionInput) (s : CheckState) where
  -- An incident is opened by enough failures in a row, while its parent does not fail.
  pub record Opens (out : TransitionOutput) : Type 0 where
    pub was_closed : truthy s.open_incident_id ≡ false
    pub parent_works : input.parent_failing ≡ false
    pub is_bad : is_failing input.result ≡ true
    pub enough : or_default input.fail_threshold 2 ≤ s.consecutive_fail + 1
    pub opened : out.state.open_incident_id ≡ some (new_incident input)
    pub status : out.state.status ≡ input.result

  -- An open incident is closed by enough results in a row that are ok, while its parent does not fail.
  pub record Recovers (out : TransitionOutput) : Type 0 where
    pub was_open : truthy s.open_incident_id ≡ true
    pub parent_works : input.parent_failing ≡ false
    pub is_good : input.result ≡ ok
    pub enough : or_default input.recover_threshold 2 ≤ s.consecutive_ok + 1
    pub closed : out.state.open_incident_id ≡ none
    pub names : out.recovered_incident_id ≡ s.open_incident_id
    pub status : out.state.status ≡ ok

  -- Before flapping is looked at: with no event, the open incident is the same.
  abbrev Caused : Option IncidentEvent → TransitionOutput → Type 0
  Caused none out =
      (out.state.open_incident_id ≡ s.open_incident_id) × (out.recovered_incident_id ≡ none)
  Caused (some open_event) out = Opens out
  Caused (some recover_event) out = Recovers out
  Caused (some flapping_event) out = ⊥

  ok_branch-Caused :
      (is_open reached : Bool)
      → truthy s.open_incident_id ≡ is_open
      → leb (or_default input.recover_threshold 2) (s.consecutive_ok + 1) ≡ reached
      → input.result ≡ ok
      → input.parent_failing ≡ false
      → Caused
          (ok_branch is_open reached (counted_ok input.now s)).event
          (ok_branch is_open reached (counted_ok input.now s))
  unfolding ok_branch
  ok_branch-Caused true true e e' good works = record {
    was_open = e;
    parent_works = works;
    is_good = good;
    enough = leb-eq-true _ _ e';
    closed = refl;
    names = refl;
    status = refl;
  }
  ok_branch-Caused true false e e' good works = (refl, refl)
  ok_branch-Caused false reached e e' good works = (refl, refl)

  fail_branch-Caused :
      (is_open reached : Bool) (status : CheckStatus)
      → truthy s.open_incident_id ≡ is_open
      → leb (or_default input.fail_threshold 2) (s.consecutive_fail + 1) ≡ reached
      → is_failing status ≡ true
      → input.result ≡ status
      → input.parent_failing ≡ false
      → Caused
          (fail_branch is_open reached status (new_incident input) (counted_fail s)).event
          (fail_branch is_open reached status (new_incident input) (counted_fail s))
  unfolding fail_branch
  fail_branch-Caused true reached status e e' bad same works = (refl, refl)
  fail_branch-Caused false false status e e' bad same works = (refl, refl)
  fail_branch-Caused false true status e e' bad same works = record {
    was_closed = e;
    parent_works = works;
    is_bad = subst (λ x. is_failing x ≡ true) (sym same) bad;
    enough = leb-eq-true _ _ e';
    opened = refl;
    status = sym same;
  }

  by_result-Caused :
      (status : CheckStatus)
      → input.result ≡ status
      → input.parent_failing ≡ false
      → Caused (by_result status input s).event (by_result status input s)
  unfolding by_result on_ok on_fail
  by_result-Caused ok e works = ok_branch-Caused _ _ refl refl e works
  by_result-Caused fail e works = fail_branch-Caused _ _ fail refl refl refl e works
  by_result-Caused warn e works = fail_branch-Caused _ _ warn refl refl refl e works
  by_result-Caused unknown e works = (refl, refl)
  by_result-Caused blocked e works = (refl, refl)
  by_result-Caused disabled e works = (refl, refl)

  pause_branch-Caused :
      (off parent grace : Bool)
      → input.parent_failing ≡ parent
      → Caused (pause_branch off parent grace input s).event (pause_branch off parent grace input s)
  unfolding pause_branch
  pause_branch-Caused true parent grace e = (refl, refl)
  pause_branch-Caused false true grace e = (refl, refl)
  pause_branch-Caused false false true e = (refl, refl)
  pause_branch-Caused false false false e = by_result-Caused input.result refl e

-- With an event that is reported, what it stands for; without one, a check that did not flap keeps
-- its incident.
abbrev pub Reported :
    TransitionInput → CheckState → Option IncidentEvent → TransitionOutput → Type 0
Reported input s none out =
    (s.flapping ≡ true)
    ⊎ ((out.state.open_incident_id ≡ s.open_incident_id) × (out.recovered_incident_id ≡ none))
Reported input s (some open_event) out = Opens input s out × (out.state.flapping ≡ false)
Reported input s (some recover_event) out = Recovers input s out × (out.state.flapping ≡ false)
Reported input s (some flapping_event) out =
    (s.flapping ≡ false)
    × (out.state.flapping ≡ true)
    × (4 ≤ length out.state.transitions)
    × AllRecent input.now out.state.transitions

-- Another output with the same incident and status.
record Agrees (out out' : TransitionOutput) : Type 0 where
  incident : out'.state.open_incident_id ≡ out.state.open_incident_id
  status : out'.state.status ≡ out.state.status
  recovered : out'.recovered_incident_id ≡ out.recovered_incident_id

Opens-Agrees :
    (input : TransitionInput) (s : CheckState) (ats : List ℕ) (out out' : TransitionOutput)
    → Agrees out out'
    → Opens input (record s { transitions = ats }) out
    → Opens input s out'
Opens-Agrees input s ats out out' a o = record {
  was_closed = o.was_closed;
  parent_works = o.parent_works;
  is_bad = o.is_bad;
  enough = o.enough;
  opened = a.incident ∙ o.opened;
  status = a.status ∙ o.status;
}

Recovers-Agrees :
    (input : TransitionInput) (s : CheckState) (ats : List ℕ) (out out' : TransitionOutput)
    → Agrees out out'
    → Recovers input (record s { transitions = ats }) out
    → Recovers input s out'
Recovers-Agrees input s ats out out' a o = record {
  was_open = o.was_open;
  parent_works = o.parent_works;
  is_good = o.is_good;
  enough = o.enough;
  closed = a.incident ∙ o.closed;
  names = a.recovered ∙ o.names;
  status = a.status ∙ o.status;
}

Caused-Reported :
    (event : Option IncidentEvent) (input : TransitionInput) (s : CheckState) (ats : List ℕ)
    (out out' : TransitionOutput)
    → Agrees out out'
    → out'.state.flapping ≡ false
    → Caused input (record s { transitions = ats }) event out
    → Reported input s event out'
Caused-Reported none input s ats out out' a calm (same, quiet) =
    inr (a.incident ∙ same, a.recovered ∙ quiet)
Caused-Reported (some open_event) input s ats out out' a calm o =
    (Opens-Agrees input s ats out out' a o, calm)
Caused-Reported (some recover_event) input s ats out out' a calm o =
    (Recovers-Agrees input s ats out out' a o, calm)
Caused-Reported (some flapping_event) input s ats out out' a calm o = elim o [ ]

flap_branch-Reported :
    (flapping many still : Bool) (input : TransitionInput) (s : CheckState) (ats : List ℕ)
    (out out' : TransitionOutput)
    → Agrees out out'
    → out'.event ≡ out.event
    → s.flapping ≡ flapping
    → out'.state.flapping ≡ flapping
    → leb 4 (length out'.state.transitions) ≡ many
    → AllRecent input.now out'.state.transitions
    → Caused input (record s { transitions = ats }) out.event out
    → Reported input s
        (flap_branch flapping many still out').event
        (flap_branch flapping many still out')
unfolding flap_branch
flap_branch-Reported false true still input s ats out out' a e f f' e' young cause =
    (f, refl, leb-eq-true _ _ e', young)
flap_branch-Reported false false still input s ats out out' a e f f' e' young cause =
    subst (λ x. Reported input s x out') (sym e)
      (Caused-Reported out.event input s ats out out' a f' cause)
flap_branch-Reported true many true input s ats out out' a e f f' e' young cause =
    subst (λ x. Reported input s x (flap_branch true many true out')) (sym e)
      (Caused-Reported out.event input s ats out (flap_branch true many true out')
        (record { incident = a.incident; status = a.status; recovered = a.recovered }) refl cause)
flap_branch-Reported true many false input s ats out out' a e f f' e' young cause = inl f

dated-Agrees :
    (same : Bool) (now : ℕ) (out : TransitionOutput)
    → Agrees out (record out { state = dated same now out.state })
unfolding dated
dated-Agrees true now out = record { incident = refl; status = refl; recovered = refl }
dated-Agrees false now out = record { incident = refl; status = refl; recovered = refl }

dated-flapping : (same : Bool) (now : ℕ) (s : CheckState) → (dated same now s).flapping ≡ s.flapping
unfolding dated
dated-flapping true now s = refl
dated-flapping false now s = refl

-- What the event of a result stands for. An opening: no incident was open, the parent works, and with
-- this one enough results in a row are bad; the new incident is open, the status is that of the
-- result. A recovery: an incident was open, the parent works, and with this one enough results in a
-- row are ok; no incident is open and the one that was is named. Neither is reported of a check that
-- flaps afterwards. Flapping: it begins, at four changes or more,
-- all of the last hour. No event: the check
-- flapped, or its incident is the same.
pub transition_check-Reported :
    (input : TransitionInput) (s : CheckState)
    → Reported input s (transition_check input s).event (transition_check input s)
unfolding transition_check flapped classified
transition_check-Reported input s =
    let s' : CheckState = record s { transitions = recent input.now s.transitions } in
    let out = classified input s' in
    let same = same_status out.state.status s.status in
    let t = dated same input.now out.state in
    flap_branch-Reported t.flapping (leb 4 (length t.transitions))
      (is_stable t.stable_since input.now) input s (recent input.now s.transitions) out
      (record out { state = t }) (dated-Agrees same input.now out) refl
      (sym (dated-flapping same input.now out.state ∙ (classified-SameTimes input s').flapping))
      refl refl
      (dated-AllRecent same input.now out.state (
        subst (λ x. AllRecent input.now x) (sym (classified-SameTimes input s').transitions)
          (recent-AllRecent input.now s.transitions)))
      (pause_branch-Caused input s' (same_status input.result disabled) input.parent_failing
        (in_grace input.grace_until input.now) refl)
