-- ===== src/Health/Checks/Runs.antt =====
-- Results of a check in a row: enough bad ones open an incident, and enough good ones close it.
use nestjs_yalc.Prelude.{
  truthy, ℕ, ◌+◌, ◌≤◌, ◌<◌, ◌≡◌, refl, ap, ◌∙◌, subst, sym, Bool, true, false, some, List, [], ◌∷◌,
  ◌⊎◌, inl, inr, arith, length, leb, String,
}
use nestjs_yalc.Health.Checks.{
  CheckStatus, CheckState, TransitionInput, TransitionOutput, or_default, counted_ok, counted_fail,
  new_incident, ok_branch, fail_branch, on_ok, on_fail, transition_check,
}
use nestjs_yalc.Health.Checks.Branches.{
  SameCounts, trimmed, transition_check-SameCounts, IsBad, IsGood, classified-bad, classified-good,
}

-- The state after results in a row.
unfoldable pub run : List TransitionInput → CheckState → CheckState
run [] s = s
run (input ∷ rest) s = run rest (transition_check input s).state

abbrev pub All : {A : Type 0} → (A → Type 0) → List A → Type 0
All P [] = Unit {0}
All P (x ∷ xs) = P x × All P xs

-- One bad result: an open incident stays, and otherwise one is opened or the failures are counted.
abbrev Opening : ℕ → CheckState → CheckState → Type 0
Opening k s t =
    (truthy t.open_incident_id ≡ true)
    ⊎ ((t.consecutive_fail ≡ s.consecutive_fail + 1) × (s.consecutive_fail + 1 < k))

fail_branch-Opening :
    (is_open reached : Bool) (k : ℕ) (status : CheckStatus) (id : String) (s : CheckState)
    → truthy s.open_incident_id ≡ is_open
    → leb k (s.consecutive_fail + 1) ≡ reached
    → truthy (some id) ≡ true
    → Opening k s (fail_branch is_open reached status id (counted_fail s)).state
unfolding fail_branch
fail_branch-Opening true reached k status id s e e' named = inl e
fail_branch-Opening false true k status id s e e' named = inl named
fail_branch-Opening false false k status id s e e' named = inr (refl, ground (arith, e'))

Opening-SameCounts : (k : ℕ) (s t u : CheckState) → SameCounts t u → Opening k s t → Opening k s u
Opening-SameCounts k s t u same (inl opened) = inl (ap truthy same.incident ∙ opened)
Opening-SameCounts k s t u same (inr (counted, below)) = inr (same.fails ∙ counted, below)

on_fail-Opening :
    (k : ℕ) (input : TransitionInput) (s : CheckState)
    → IsBad k input
    → Opening k s (on_fail input.result input s).state
unfolding on_fail
on_fail-Opening k input s bad =
    fail_branch-Opening _ (leb (or_default input.fail_threshold 2) (s.consecutive_fail + 1)) k
      input.result (new_incident input) s refl
      (ap (λ x. leb x (s.consecutive_fail + 1)) (sym bad.enough)) bad.named

bad-Opening :
    (k : ℕ) (input : TransitionInput) (s : CheckState)
    → IsBad k input
    → Opening k s (transition_check input s).state
bad-Opening k input s bad = Opening-SameCounts k s _ _ (transition_check-SameCounts input s) (
    subst (λ (x : TransitionOutput). Opening k s x.state)
      (sym (classified-bad k input (trimmed input s) bad))
      (on_fail-Opening k input (trimmed input s) bad))

fail_branch-open :
    (is_open reached : Bool) (status : CheckStatus) (id : String) (s : CheckState)
    → truthy s.open_incident_id ≡ is_open
    → truthy s.open_incident_id ≡ true
    → truthy (fail_branch is_open reached status id s).state.open_incident_id ≡ true
unfolding fail_branch
fail_branch-open true reached status id s e h = h
fail_branch-open false reached status id s e h = cc

bad_stays_open :
    (k : ℕ) (input : TransitionInput) (s : CheckState)
    → IsBad k input
    → truthy s.open_incident_id ≡ true
    → truthy (transition_check input s).state.open_incident_id ≡ true
unfolding on_fail
bad_stays_open k input s bad h =
    ap truthy (transition_check-SameCounts input s).incident
    ∙ ap (λ (x : TransitionOutput). truthy x.state.open_incident_id)
        (classified-bad k input (trimmed input s) bad)
    ∙ fail_branch-open _ (leb (or_default input.fail_threshold 2) (s.consecutive_fail + 1))
        input.result (new_incident input) (counted_fail (trimmed input s)) refl h

bad_run_stays_open :
    (k : ℕ) (inputs : List TransitionInput) (s : CheckState)
    → All (IsBad k) inputs
    → truthy s.open_incident_id ≡ true
    → truthy (run inputs s).open_incident_id ≡ true
unfolding run
bad_run_stays_open k [] s bad h = h
bad_run_stays_open k (input ∷ rest) s bad h =
    bad_run_stays_open k rest _ bad.1 (bad_stays_open k input s bad.0 h)

-- In a row of at least one result, each of them bad, with a parent that works, outside the grace time,
-- with a name for an incident that is not empty and with the same threshold, which together with the
-- failures counted before are as many as the threshold, an incident is open at the end, whatever the
-- state was.
pub bad_run_opens :
    (k : ℕ) (inputs : List TransitionInput) (s : CheckState)
    → All (IsBad k) inputs
    → 0 < length inputs
    → k ≤ s.consecutive_fail + length inputs
    → truthy (run inputs s).open_incident_id ≡ true
unfolding run
bad_run_opens k [] s bad some' enough = absurd (omega (arith, some'))
bad_run_opens k (input ∷ []) s bad some' enough = elim (bad-Opening k input s bad.0) [
  | inl opened ↦ opened
  | inr (counted, below) ↦ absurd (omega (arith, below, enough))
]
bad_run_opens k (input ∷ next ∷ rest) s bad some' enough = elim (bad-Opening k input s bad.0) [
  | inl opened ↦ bad_run_stays_open k (next ∷ rest) _ bad.1 opened
  | inr (counted, below) ↦
      bad_run_opens k (next ∷ rest) _ bad.1 (omega arith) (omega (arith, counted, enough))
]

-- One good result: with no open incident none is opened, and otherwise it is closed or the results
-- that are ok are counted.
abbrev Closing : ℕ → CheckState → CheckState → Type 0
Closing k s t =
    (truthy t.open_incident_id ≡ false)
    ⊎ ((t.consecutive_ok ≡ s.consecutive_ok + 1) × (s.consecutive_ok + 1 < k))

ok_branch-Closing :
    (is_open reached : Bool) (k now : ℕ) (s : CheckState)
    → truthy s.open_incident_id ≡ is_open
    → leb k (s.consecutive_ok + 1) ≡ reached
    → Closing k s (ok_branch is_open reached (counted_ok now s)).state
unfolding ok_branch
ok_branch-Closing true true k now s e e' = inl refl
ok_branch-Closing true false k now s e e' = inr (refl, ground (arith, e'))
ok_branch-Closing false reached k now s e e' = inl e

Closing-SameCounts : (k : ℕ) (s t u : CheckState) → SameCounts t u → Closing k s t → Closing k s u
Closing-SameCounts k s t u same (inl closed) = inl (ap truthy same.incident ∙ closed)
Closing-SameCounts k s t u same (inr (counted, below)) = inr (same.oks ∙ counted, below)

on_ok-Closing :
    (k : ℕ) (input : TransitionInput) (s : CheckState)
    → IsGood k input
    → Closing k s (on_ok input s).state
unfolding on_ok
on_ok-Closing k input s good =
    ok_branch-Closing _ (leb (or_default input.recover_threshold 2) (s.consecutive_ok + 1)) k
      input.now s refl (ap (λ x. leb x (s.consecutive_ok + 1)) (sym good.enough))

good-Closing :
    (k : ℕ) (input : TransitionInput) (s : CheckState)
    → IsGood k input
    → Closing k s (transition_check input s).state
good-Closing k input s good = Closing-SameCounts k s _ _ (transition_check-SameCounts input s) (
    subst (λ (x : TransitionOutput). Closing k s x.state)
      (sym (classified-good k input (trimmed input s) good))
      (on_ok-Closing k input (trimmed input s) good))

ok_branch-closed :
    (is_open reached : Bool) (s : CheckState)
    → truthy s.open_incident_id ≡ is_open
    → truthy s.open_incident_id ≡ false
    → truthy (ok_branch is_open reached s).state.open_incident_id ≡ false
unfolding ok_branch
ok_branch-closed true reached s e h = cc
ok_branch-closed false reached s e h = h

good_stays_closed :
    (k : ℕ) (input : TransitionInput) (s : CheckState)
    → IsGood k input
    → truthy s.open_incident_id ≡ false
    → truthy (transition_check input s).state.open_incident_id ≡ false
unfolding on_ok
good_stays_closed k input s good h =
    ap truthy (transition_check-SameCounts input s).incident
    ∙ ap (λ (x : TransitionOutput). truthy x.state.open_incident_id)
        (classified-good k input (trimmed input s) good)
    ∙ ok_branch-closed _ (leb (or_default input.recover_threshold 2) (s.consecutive_ok + 1))
        (counted_ok input.now (trimmed input s)) refl h

good_run_stays_closed :
    (k : ℕ) (inputs : List TransitionInput) (s : CheckState)
    → All (IsGood k) inputs
    → truthy s.open_incident_id ≡ false
    → truthy (run inputs s).open_incident_id ≡ false
unfolding run
good_run_stays_closed k [] s good h = h
good_run_stays_closed k (input ∷ rest) s good h =
    good_run_stays_closed k rest _ good.1 (good_stays_closed k input s good.0 h)

-- In a row of at least one result, each of them ok, with a parent that works, outside the grace time
-- and with the same threshold, which together with the ones counted before are as many as the
-- threshold, no incident is open at the end, whatever the state was.
pub good_run_closes :
    (k : ℕ) (inputs : List TransitionInput) (s : CheckState)
    → All (IsGood k) inputs
    → 0 < length inputs
    → k ≤ s.consecutive_ok + length inputs
    → truthy (run inputs s).open_incident_id ≡ false
unfolding run
good_run_closes k [] s good some' enough = absurd (omega (arith, some'))
good_run_closes k (input ∷ []) s good some' enough = elim (good-Closing k input s good.0) [
  | inl closed ↦ closed
  | inr (counted, below) ↦ absurd (omega (arith, below, enough))
]
good_run_closes k (input ∷ next ∷ rest) s good some' enough = elim (good-Closing k input s good.0) [
  | inl closed ↦ good_run_stays_closed k (next ∷ rest) _ good.1 closed
  | inr (counted, below) ↦
      good_run_closes k (next ∷ rest) _ good.1 (omega arith) (omega (arith, counted, enough))
]
