-- ===== src/Health/Checks/Invariant.antt =====
-- What holds of the state of a check between two results.
use nestjs_yalc.Prelude.{
  truthy, ℕ, ◌+◌, ◌≡◌, refl, Bool, true, false, some, ◌⊎◌, inl, inr, leb, String,
}
use nestjs_yalc.Health.Checks.{
  CheckStatus, ok, warn, fail, unknown, blocked, disabled, CheckState, TransitionInput,
  TransitionOutput, recent, or_default, counted_ok, counted_fail, new_incident, paused, ok_branch,
  fail_branch, on_ok, on_fail, by_result, pause_branch, classified, dated, flap_branch, flapped,
  transition_check,
}

abbrev pub is_failing : CheckStatus → Bool
is_failing fail = true
is_failing warn = true
is_failing _ = false

abbrev pub is_ok : CheckStatus → Bool
is_ok ok = true
is_ok _ = false

-- At most one of the counters runs; a failing check has an open incident and one that is ok has none.
pub record IsConsistent (s : CheckState) : Type 0 where
  pub one_counter : (s.consecutive_fail ≡ 0) ⊎ (s.consecutive_ok ≡ 0)
  pub failing_open : is_failing s.status ≡ true → truthy s.open_incident_id ≡ true
  pub ok_closed : is_ok s.status ≡ true → truthy s.open_incident_id ≡ false

-- The clause that decides nothing about incidents.
paused-IsConsistent :
    (status : CheckStatus) (s : CheckState)
    → is_failing status ≡ false
    → is_ok status ≡ false
    → IsConsistent (paused status s).state
paused-IsConsistent status s calm quiet = record {
  one_counter = inl refl;
  failing_open = λ e. cc;
  ok_closed = λ e. cc;
}

ok_branch-IsConsistent :
    (is_open reached : Bool) (s : CheckState)
    → truthy s.open_incident_id ≡ is_open
    → s.consecutive_fail ≡ 0
    → IsConsistent s
    → IsConsistent (ok_branch is_open reached s).state
unfolding ok_branch
ok_branch-IsConsistent true true s e zeroed h = record {
  one_counter = inl zeroed;
  failing_open = λ e. cc;
  ok_closed = λ e. refl;
}
ok_branch-IsConsistent true false s e zeroed h = h
ok_branch-IsConsistent false reached s e zeroed h = record {
  one_counter = inl zeroed;
  failing_open = λ e. cc;
  ok_closed = λ e'. e;
}

on_ok-IsConsistent :
    (input : TransitionInput) (s : CheckState) → IsConsistent s → IsConsistent (on_ok input s).state
unfolding on_ok
on_ok-IsConsistent input s h =
    ok_branch-IsConsistent _ (leb (or_default input.recover_threshold 2) (s.consecutive_ok + 1))
      (counted_ok input.now s) refl refl
      (record { one_counter = inl refl; failing_open = h.failing_open; ok_closed = h.ok_closed })

fail_branch-IsConsistent :
    (is_open reached : Bool) (status : CheckStatus) (id : String) (s : CheckState)
    → truthy s.open_incident_id ≡ is_open
    → s.consecutive_ok ≡ 0
    → truthy (some id) ≡ true
    → is_ok status ≡ false
    → IsConsistent s
    → IsConsistent (fail_branch is_open reached status id s).state
unfolding fail_branch
fail_branch-IsConsistent true reached status id s e zeroed named not_ok h = h
fail_branch-IsConsistent false true status id s e zeroed named not_ok h = record {
  one_counter = inr zeroed;
  failing_open = λ e. named;
  ok_closed = λ e. cc;
}
fail_branch-IsConsistent false false status id s e zeroed named not_ok h = record {
  one_counter = inr zeroed;
  failing_open = λ e. cc;
  ok_closed = λ e. cc;
}

on_fail-IsConsistent :
    (status : CheckStatus) (input : TransitionInput) (s : CheckState)
    → truthy (some (new_incident input)) ≡ true
    → is_ok status ≡ false
    → IsConsistent s
    → IsConsistent (on_fail status input s).state
unfolding on_fail
on_fail-IsConsistent status input s named not_ok h =
    fail_branch-IsConsistent _ (leb (or_default input.fail_threshold 2) (s.consecutive_fail + 1))
      status (new_incident input) (counted_fail s) refl refl named not_ok
      (record { one_counter = inr refl; failing_open = h.failing_open; ok_closed = h.ok_closed })

module _ (input : TransitionInput) (named : truthy (some (new_incident input)) ≡ true) where
  by_result-IsConsistent :
      (status : CheckStatus) (s : CheckState)
      → IsConsistent s
      → IsConsistent (by_result status input s).state
  unfolding by_result
  by_result-IsConsistent ok s h = on_ok-IsConsistent input s h
  by_result-IsConsistent fail s h = on_fail-IsConsistent fail input s named refl h
  by_result-IsConsistent warn s h = on_fail-IsConsistent warn input s named refl h
  by_result-IsConsistent _ s h = record {
    one_counter = h.one_counter;
    failing_open = λ e. cc;
    ok_closed = λ e. cc;
  }

  pause_branch-IsConsistent :
      (off parent grace : Bool) (s : CheckState)
      → IsConsistent s
      → IsConsistent (pause_branch off parent grace input s).state
  unfolding pause_branch
  pause_branch-IsConsistent true parent grace s h = paused-IsConsistent disabled s refl refl
  pause_branch-IsConsistent false true grace s h = paused-IsConsistent blocked s refl refl
  pause_branch-IsConsistent false false true s h = paused-IsConsistent unknown s refl refl
  pause_branch-IsConsistent false false false s h = by_result-IsConsistent input.result s h

  -- Only the times and the flag of flapping are new.
  dated-IsConsistent :
      (same : Bool) (now : ℕ) (s : CheckState) → IsConsistent s → IsConsistent (dated same now s)
  unfolding dated
  dated-IsConsistent true now s h = h
  dated-IsConsistent false now s h = record {
    one_counter = h.one_counter;
    failing_open = h.failing_open;
    ok_closed = h.ok_closed;
  }

  flap_branch-IsConsistent :
      (flapping many still : Bool) (out : TransitionOutput)
      → IsConsistent out.state
      → IsConsistent (flap_branch flapping many still out).state
  unfolding flap_branch
  flap_branch-IsConsistent false true still out h = record {
    one_counter = h.one_counter;
    failing_open = h.failing_open;
    ok_closed = h.ok_closed;
  }
  flap_branch-IsConsistent false false still out h = h
  flap_branch-IsConsistent true many true out h = record {
    one_counter = h.one_counter;
    failing_open = h.failing_open;
    ok_closed = h.ok_closed;
  }
  flap_branch-IsConsistent true many false out h = h

  -- A result keeps this: at most one of the two counters runs, a check that is failing has an open
  -- incident, and one that is ok has none; if the identifier of a new incident is not empty.
  pub transition_check-IsConsistent :
      (s : CheckState) → IsConsistent s → IsConsistent (transition_check input s).state
  unfolding transition_check classified flapped
  transition_check-IsConsistent s h = flap_branch-IsConsistent _ _ _ _ (
      dated-IsConsistent _ input.now _ (
        pause_branch-IsConsistent _ _ _ (record s { transitions = recent input.now s.transitions })
          (record {
            one_counter = h.one_counter;
            failing_open = h.failing_open;
            ok_closed = h.ok_closed;
          })))
