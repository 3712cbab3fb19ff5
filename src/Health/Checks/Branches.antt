-- ===== src/Health/Checks/Branches.antt =====
-- A result of a check as its branch: what it counts, and which branches a bad and a good one take.
use nestjs_yalc.Prelude.{truthy, ℕ, ◌≡◌, refl, ap, ◌∙◌, Bool, true, false, some}
use nestjs_yalc.Health.Checks.{
  CheckStatus, ok, warn, fail, disabled, CheckState, TransitionInput, TransitionOutput, recent,
  or_default, new_incident, same_status, in_grace, on_ok, on_fail, by_result, pause_branch,
  classified, dated, flap_branch, flapped, transition_check,
}
use nestjs_yalc.Health.Checks.Invariant.{is_failing}

-- What `transition_check` keeps of what `classified` makes.
pub record SameCounts (s t : CheckState) : Type 0 where
  pub incident : t.open_incident_id ≡ s.open_incident_id
  pub fails : t.consecutive_fail ≡ s.consecutive_fail
  pub oks : t.consecutive_ok ≡ s.consecutive_ok

dated-SameCounts : (same : Bool) (now : ℕ) (s : CheckState) → SameCounts s (dated same now s)
unfolding dated
dated-SameCounts true now s = record { incident = refl; fails = refl; oks = refl }
dated-SameCounts false now s = record { incident = refl; fails = refl; oks = refl }

flap_branch-SameCounts :
    (flapping many still : Bool) (out : TransitionOutput) (s : CheckState)
    → SameCounts s out.state
    → SameCounts s (flap_branch flapping many still out).state
unfolding flap_branch
flap_branch-SameCounts false true still out s h = record {
  incident = h.incident;
  fails = h.fails;
  oks = h.oks;
}
flap_branch-SameCounts false false still out s h = h
flap_branch-SameCounts true many true out s h = record {
  incident = h.incident;
  fails = h.fails;
  oks = h.oks;
}
flap_branch-SameCounts true many false out s h = h

abbrev pub trimmed : TransitionInput → CheckState → CheckState
trimmed input s = record s { transitions = recent input.now s.transitions }

pub transition_check-SameCounts :
    (input : TransitionInput) (s : CheckState)
    → SameCounts (classified input (trimmed input s)).state (transition_check input s).state
unfolding transition_check flapped
transition_check-SameCounts input s = flap_branch-SameCounts _ _ _ _ _ (
    dated-SameCounts (same_status (classified input (trimmed input s)).state.status s.status)
      input.now _)

-- A bad result, with the threshold for an opening and an identifier for the incident.
pub record IsBad (threshold : ℕ) (input : TransitionInput) : Type 0 where
  pub is_bad : is_failing input.result ≡ true
  pub parent_works : input.parent_failing ≡ false
  pub no_grace : in_grace input.grace_until input.now ≡ false
  pub enough : or_default input.fail_threshold 2 ≡ threshold
  pub named : truthy (some (new_incident input)) ≡ true

pub record IsGood (threshold : ℕ) (input : TransitionInput) : Type 0 where
  pub is_good : input.result ≡ ok
  pub parent_works : input.parent_failing ≡ false
  pub no_grace : in_grace input.grace_until input.now ≡ false
  pub enough : or_default input.recover_threshold 2 ≡ threshold

failing-enabled :
    (status : CheckStatus) → is_failing status ≡ true → same_status status disabled ≡ false
failing-enabled fail e = refl
failing-enabled warn e = refl
failing-enabled _ e = cc

by_result-bad :
    (status : CheckStatus) (input : TransitionInput) (s : CheckState)
    → is_failing status ≡ true
    → by_result status input s ≡ on_fail status input s
unfolding by_result
by_result-bad fail input s e = refl
by_result-bad warn input s e = refl
by_result-bad _ input s e = cc

by_result-good :
    (status : CheckStatus) (input : TransitionInput) (s : CheckState)
    → status ≡ ok
    → by_result status input s ≡ on_ok input s
unfolding by_result
by_result-good ok input s e = refl
by_result-good _ input s e = cc

unpaused :
    (off parent grace : Bool) (input : TransitionInput) (s : CheckState)
    → off ≡ false
    → parent ≡ false
    → grace ≡ false
    → pause_branch off parent grace input s ≡ by_result input.result input s
unfolding pause_branch
unpaused true parent grace input s e e' e'' = cc
unpaused false true grace input s e e' e'' = cc
unpaused false false true input s e e' e'' = cc
unpaused false false false input s e e' e'' = refl

pub classified-bad :
    (k : ℕ) (input : TransitionInput) (s : CheckState)
    → IsBad k input
    → classified input s ≡ on_fail input.result input s
unfolding classified
classified-bad k input s bad =
    unpaused _ _ _ input s (failing-enabled input.result bad.is_bad) bad.parent_works bad.no_grace
    ∙ by_result-bad input.result input s bad.is_bad

pub classified-good :
    (k : ℕ) (input : TransitionInput) (s : CheckState)
    → IsGood k input
    → classified input s ≡ on_ok input s
unfolding classified
classified-good k input s good =
    unpaused _ _ _ input s (ap (λ x. same_status x disabled) good.is_good) good.parent_works
      good.no_grace
    ∙ by_result-good input.result input s good.is_good
