-- ===== src/Health/Checks/Masked.antt =====
-- An incident that transitionCheck of health/src/state-machine.ts opens while the check is flapping.
use nestjs_yalc.Prelude.{
  truthy, ℕ, ◌+◌, ◌≤◌, ◌≡◌, refl, ap, Bool, true, false, none, some, arith, String, ◌∙◌, leb,
}
use nestjs_yalc.Health.Checks.{
  CheckStatus, CheckState, TransitionInput, TransitionOutput, stable, counted_fail, new_incident,
  same_status, fail_branch, on_fail, open_event, classified, dated, flap_branch, flapped,
  transition_check,
}
use nestjs_yalc.Health.Checks.Branches.{IsBad, trimmed, classified-bad, transition_check-SameCounts}

leb-suc : (n : ℕ) → leb (n + stable) n ≡ false
leb-suc n = ground arith

fail_branch-opens :
    (is_open reached : Bool) (status : CheckStatus) (id : String) (s : CheckState)
    → is_open ≡ false
    → reached ≡ true
    → fail_branch is_open reached status id s ≡ record {
      state = record s { status = status; open_incident_id = some id };
      event = some open_event;
      recovered_incident_id = none;
    }
unfolding fail_branch
fail_branch-opens false true status id s e e' = refl
fail_branch-opens true reached status id s e e' = cc
fail_branch-opens false false status id s e e' = cc

flap_branch-masked :
    (flaps many still : Bool) (out : TransitionOutput)
    → flaps ≡ true
    → still ≡ false
    → (flap_branch flaps many still out).event ≡ none
unfolding flap_branch
flap_branch-masked true many false out e e' = refl
flap_branch-masked true many true out e e' = cc
flap_branch-masked false many still out e e' = cc

dated-masked :
    (same : Bool) (now : ℕ) (out : TransitionOutput)
    → same ≡ false
    → out.state.flapping ≡ true
    → (flapped now (record out { state = dated same now out.state })).event ≡ none
unfolding dated flapped
dated-masked false now out e e' = flap_branch-masked _ _ _ _ e' (leb-suc now)
dated-masked true now out e e' = cc

module _ (k : ℕ) (input : TransitionInput) (s : CheckState) (bad : IsBad k input)
    (closed : truthy s.open_incident_id ≡ false) (reached : k ≤ s.consecutive_fail + 1)
    (flaps : s.flapping ≡ true) (changes : same_status input.result s.status ≡ false) where
  opened : classified input (trimmed input s) ≡ record {
    state = record (counted_fail (trimmed input s)) {
      status = input.result;
      open_incident_id = some (new_incident input);
    };
    event = some open_event;
    recovered_incident_id = none;
  }
  unfolding on_fail
  opened =
      classified-bad k input (trimmed input s) bad
      ∙ fail_branch-opens _ _ input.result (new_incident input) (counted_fail (trimmed input s))
          closed (ground (arith, bad.enough, reached))

  -- A check is flapping, has no open incident, and gets a bad result that reaches the threshold and
  -- changes its status: the state has a new open incident, and no event tells of it.
  pub masked_opening :
      ((transition_check input s).event ≡ none)
      × ((transition_check input s).state.open_incident_id ≡ some (new_incident input))
  unfolding transition_check
  masked_opening = (
    dated-masked _ input.now (classified input (trimmed input s))
        (ap (λ (x : TransitionOutput). same_status x.state.status s.status) opened ∙ changes)
        (ap (λ (x : TransitionOutput). x.state.flapping) opened ∙ flaps),
    (transition_check-SameCounts input s).incident
        ∙ ap (λ (x : TransitionOutput). x.state.open_incident_id) opened,
  )
