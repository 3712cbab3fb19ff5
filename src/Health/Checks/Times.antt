-- ===== src/Health/Checks/Times.antt =====
-- The times of a check that a result leaves alone, before its changes are dated.
use nestjs_yalc.Prelude.{ℕ, ◌≡◌, refl, Bool, true, false, Option, some, ◌⊎◌, inl, inr}
use nestjs_yalc.Health.Checks.{
  CheckStatus, ok, warn, fail, CheckState, TransitionInput, counted_ok, counted_fail, new_incident,
  ok_branch, fail_branch, on_ok, on_fail, by_result, pause_branch, classified,
}

-- The times and the flag of flapping are those of the state.
pub record SameTimes (s t : CheckState) : Type 0 where
  pub since : t.since ≡ s.since
  pub transitions : t.transitions ≡ s.transitions
  pub flapping : t.flapping ≡ s.flapping
  pub stable_since : t.stable_since ≡ s.stable_since

module _ (input : TransitionInput) (s : CheckState) where
  ok_branch-SameTimes :
      (is_open reached : Bool)
      → SameTimes s (ok_branch is_open reached (counted_ok input.now s)).state
  unfolding ok_branch
  ok_branch-SameTimes true true = record {
    since = refl;
    transitions = refl;
    flapping = refl;
    stable_since = refl;
  }
  ok_branch-SameTimes true false = record {
    since = refl;
    transitions = refl;
    flapping = refl;
    stable_since = refl;
  }
  ok_branch-SameTimes false reached = record {
    since = refl;
    transitions = refl;
    flapping = refl;
    stable_since = refl;
  }

  fail_branch-SameTimes :
      (is_open reached : Bool) (status : CheckStatus)
      → SameTimes s (fail_branch is_open reached status (new_incident input) (counted_fail s)).state
  unfolding fail_branch
  fail_branch-SameTimes true reached status = record {
    since = refl;
    transitions = refl;
    flapping = refl;
    stable_since = refl;
  }
  fail_branch-SameTimes false false status = record {
    since = refl;
    transitions = refl;
    flapping = refl;
    stable_since = refl;
  }
  fail_branch-SameTimes false true status = record {
    since = refl;
    transitions = refl;
    flapping = refl;
    stable_since = refl;
  }

  by_result-SameTimes : (status : CheckStatus) → SameTimes s (by_result status input s).state
  unfolding by_result on_ok on_fail
  by_result-SameTimes ok = ok_branch-SameTimes _ _
  by_result-SameTimes fail = fail_branch-SameTimes _ _ fail
  by_result-SameTimes warn = fail_branch-SameTimes _ _ warn
  by_result-SameTimes _ = record {
    since = refl;
    transitions = refl;
    flapping = refl;
    stable_since = refl;
  }

  pause_branch-SameTimes :
      (off parent grace : Bool) → SameTimes s (pause_branch off parent grace input s).state
  unfolding pause_branch
  pause_branch-SameTimes true parent grace = record {
    since = refl;
    transitions = refl;
    flapping = refl;
    stable_since = refl;
  }
  pause_branch-SameTimes false true grace = record {
    since = refl;
    transitions = refl;
    flapping = refl;
    stable_since = refl;
  }
  pause_branch-SameTimes false false true = record {
    since = refl;
    transitions = refl;
    flapping = refl;
    stable_since = refl;
  }
  pause_branch-SameTimes false false false = by_result-SameTimes input.result

  pub classified-SameTimes : SameTimes s (classified input s).state
  unfolding classified
  classified-SameTimes = pause_branch-SameTimes _ _ _

-- The last time of a good result is the one of the state, or that of the result.
module _ (input : TransitionInput) (s : CheckState) where
  abbrev pub Remembered : Option ℕ → Type 0
  Remembered at = (at ≡ s.last_ok_at) ⊎ (at ≡ some input.now)

  ok_branch-Remembered :
      (is_open reached : Bool)
      → Remembered (ok_branch is_open reached (counted_ok input.now s)).state.last_ok_at
  unfolding ok_branch
  ok_branch-Remembered true true = inr refl
  ok_branch-Remembered true false = inr refl
  ok_branch-Remembered false reached = inr refl

  fail_branch-Remembered :
      (is_open reached : Bool) (status : CheckStatus)
      → Remembered
          (fail_branch is_open reached status
            (new_incident input)
            (counted_fail s)).state.last_ok_at
  unfolding fail_branch
  fail_branch-Remembered true reached status = inl refl
  fail_branch-Remembered false false status = inl refl
  fail_branch-Remembered false true status = inl refl

  by_result-Remembered :
      (status : CheckStatus) → Remembered (by_result status input s).state.last_ok_at
  unfolding by_result on_ok on_fail
  by_result-Remembered ok = ok_branch-Remembered _ _
  by_result-Remembered fail = fail_branch-Remembered _ _ fail
  by_result-Remembered warn = fail_branch-Remembered _ _ warn
  by_result-Remembered _ = inl refl

  pause_branch-Remembered :
      (off parent grace : Bool)
      → Remembered (pause_branch off parent grace input s).state.last_ok_at
  unfolding pause_branch
  pause_branch-Remembered true parent grace = inl refl
  pause_branch-Remembered false true grace = inl refl
  pause_branch-Remembered false false true = inl refl
  pause_branch-Remembered false false false = by_result-Remembered input.result

  pub classified-Remembered : Remembered (classified input s).state.last_ok_at
  unfolding classified
  classified-Remembered = pause_branch-Remembered _ _ _
