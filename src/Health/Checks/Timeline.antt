-- ===== src/Health/Checks/Timeline.antt =====
-- The times of a check: what holds of them between two results.
use nestjs_yalc.Prelude.{
  ℕ, ◌+◌, ◌≤◌, ◌<◌, ◌≡◌, refl, subst, sym, Bool, true, false, Option, none, some, List, [], ◌∷◌,
  ◌++◌, ◌⊎◌, inl, inr, arith, length, leb, ltb, ltb-eq-true,
}
use nestjs_yalc.Health.Checks.{
  CheckState, TransitionInput, TransitionOutput, recent, kept, hour, dated, flap_branch, flapped,
  transition_check, initial_check_state,
}
use nestjs_yalc.Health.Checks.Times.{SameTimes, classified-SameTimes, classified-Remembered}

abbrev pub AllWithin : ℕ → List ℕ → Type 0
AllWithin now [] = Unit {0}
AllWithin now (at ∷ rest) = (at ≤ now) × (now < at + hour) × AllWithin now rest

-- Every time is less than an hour old.
abbrev pub AllRecent : ℕ → List ℕ → Type 0
AllRecent now [] = Unit {0}
AllRecent now (at ∷ rest) = (now < at + hour) × AllRecent now rest

kept-AllRecent :
    (keep : Bool) (now at : ℕ) (rest : List ℕ)
    → ltb now (at + hour) ≡ keep
    → AllRecent now rest
    → AllRecent now (kept keep at rest)
kept-AllRecent true now at rest e young = (ltb-eq-true _ _ e, young)
kept-AllRecent false now at rest e young = young

pub recent-AllRecent : (now : ℕ) (ats : List ℕ) → AllRecent now (recent now ats)
unfolding recent
recent-AllRecent now [] = tt
recent-AllRecent now (at ∷ rest) = kept-AllRecent _ now at _ refl (recent-AllRecent now rest)

AllRecent-append : (now : ℕ) (ats : List ℕ) → AllRecent now ats → AllRecent now (ats ++ now ∷ [])
AllRecent-append now [] young = (omega arith, tt)
AllRecent-append now (at ∷ rest) young = (young.0, AllRecent-append now rest young.1)

pub dated-AllRecent :
    (same : Bool) (now : ℕ) (s : CheckState)
    → AllRecent now s.transitions
    → AllRecent now (dated same now s).transitions
unfolding dated
dated-AllRecent true now s young = young
dated-AllRecent false now s young = AllRecent-append now s.transitions young

abbrev pub NotAfter : ℕ → Option ℕ → Type 0
NotAfter now none = Unit {0}
NotAfter now (some at) = at ≤ now

abbrev pub is_some : Option ℕ → Bool
is_some none = false
is_some (some at) = true

-- At a time: nothing is later, and no change is older than an hour; a check that has changed or flaps has a time since which it is stable;
-- and one that does not flap has changed less than four times.
pub record IsTimely (now : ℕ) (s : CheckState) : Type 0 where
  pub window : AllWithin now s.transitions
  pub since : s.since ≤ now
  pub stable_past : NotAfter now s.stable_since
  pub ok_past : NotAfter now s.last_ok_at
  pub changed_dated : 0 < length s.transitions → is_some s.stable_since ≡ true
  pub flapping_dated : s.flapping ≡ true → is_some s.stable_since ≡ true
  pub few : s.flapping ≡ false → length s.transitions < 4

kept-AllWithin :
    (keep : Bool) (now at : ℕ) (rest : List ℕ)
    → at ≤ now
    → ltb now (at + hour) ≡ keep
    → AllWithin now rest
    → AllWithin now (kept keep at rest)
kept-AllWithin true now at rest h e within = (h, ltb-eq-true _ _ e, within)
kept-AllWithin false now at rest h e within = within

recent-AllWithin :
    (now then' : ℕ) (ats : List ℕ)
    → then' ≤ now
    → AllWithin then' ats
    → AllWithin now (recent now ats)
unfolding recent
recent-AllWithin now then' [] h past = tt
recent-AllWithin now then' (at ∷ rest) h past =
    kept-AllWithin _ now at _ (omega (arith, past.0)) refl
      (recent-AllWithin now then' rest h past.2)

length-kept : (keep : Bool) (at : ℕ) (rest : List ℕ) → length (kept keep at rest) ≤ length rest + 1
length-kept true at rest = omega arith
length-kept false at rest = omega arith

length-recent : (now : ℕ) (ats : List ℕ) → length (recent now ats) ≤ length ats
unfolding recent
length-recent now [] = omega arith
length-recent now (at ∷ rest) =
    omega (arith, length-recent now rest, length-kept (ltb now (at + hour)) at (recent now rest))

AllWithin-append : (now : ℕ) (ats : List ℕ) → AllWithin now ats → AllWithin now (ats ++ now ∷ [])
AllWithin-append now [] h = (omega arith, omega arith, tt)
AllWithin-append now (at ∷ rest) h = (h.0, h.1, AllWithin-append now rest h.2)

NotAfter-le : (m n : ℕ) (at : Option ℕ) → m ≤ n → NotAfter m at → NotAfter n at
NotAfter-le m n none h past = tt
NotAfter-le m n (some at) h past = omega (arith, past)

-- What is known of the times after the result is classified, when flapping is not looked at yet.
record IsDated (now : ℕ) (s : CheckState) : Type 0 where
  window : AllWithin now s.transitions
  since : s.since ≤ now
  stable_past : NotAfter now s.stable_since
  ok_past : NotAfter now s.last_ok_at
  changed_dated : 0 < length s.transitions → is_some s.stable_since ≡ true
  flapping_dated : s.flapping ≡ true → is_some s.stable_since ≡ true

dated-IsDated :
    (same : Bool) (now : ℕ) (s : CheckState) → IsDated now s → IsDated now (dated same now s)
unfolding dated
dated-IsDated true now s h = h
dated-IsDated false now s h = record {
  window = AllWithin-append now s.transitions h.window;
  since = omega arith;
  stable_past = omega arith;
  ok_past = h.ok_past;
  changed_dated = λ e. refl;
  flapping_dated = λ e. refl;
}

flap_branch-IsTimely :
    (flapping many still : Bool) (now : ℕ) (out : TransitionOutput)
    → out.state.flapping ≡ flapping
    → leb 4 (length out.state.transitions) ≡ many
    → IsDated now out.state
    → IsTimely now (flap_branch flapping many still out).state
unfolding flap_branch
flap_branch-IsTimely false true still now out e e' h = record {
  window = h.window;
  since = h.since;
  stable_past = h.stable_past;
  ok_past = h.ok_past;
  changed_dated = h.changed_dated;
  flapping_dated = λ f. h.changed_dated (ground (arith, e'));
  few = λ f. cc;
}
flap_branch-IsTimely false false still now out e e' h = record {
  window = h.window;
  since = h.since;
  stable_past = h.stable_past;
  ok_past = h.ok_past;
  changed_dated = h.changed_dated;
  flapping_dated = h.flapping_dated;
  few = λ f. ground (arith, e');
}
flap_branch-IsTimely true many true now out e e' h = record {
  window = tt;
  since = h.since;
  stable_past = h.stable_past;
  ok_past = h.ok_past;
  changed_dated = λ f. omega (arith, f);
  flapping_dated = λ f. cc;
  few = λ f. omega arith;
}
flap_branch-IsTimely true many false now out e e' h = record {
  window = h.window;
  since = h.since;
  stable_past = h.stable_past;
  ok_past = h.ok_past;
  changed_dated = h.changed_dated;
  flapping_dated = h.flapping_dated;
  few = λ f. cc;
}

NotAfter-Remembered :
    (now : ℕ) (before after : Option ℕ)
    → (after ≡ before) ⊎ (after ≡ some now)
    → NotAfter now before
    → NotAfter now after
NotAfter-Remembered now before after (inl same) past = subst (λ x. NotAfter now x) (sym same) past
NotAfter-Remembered now before after (inr same) past =
    subst (λ x. NotAfter now x) (sym same) (omega arith)

SameTimes-IsDated :
    (now : ℕ) (s t : CheckState)
    → SameTimes s t
    → (t.last_ok_at ≡ s.last_ok_at) ⊎ (t.last_ok_at ≡ some now)
    → IsDated now s
    → IsDated now t
SameTimes-IsDated now s t same remembered h = record {
  window = subst (λ x. AllWithin now x) (sym same.transitions) h.window;
  since = subst (λ x. x ≤ now) (sym same.since) h.since;
  stable_past = subst (λ x. NotAfter now x) (sym same.stable_since) h.stable_past;
  ok_past = NotAfter-Remembered now s.last_ok_at t.last_ok_at remembered h.ok_past;
  changed_dated = λ e.
      subst (λ x. is_some x ≡ true) (sym same.stable_since)
        (h.changed_dated (subst (λ x. 0 < length x) same.transitions e));
  flapping_dated = λ e.
      subst (λ x. is_some x ≡ true) (sym same.stable_since)
        (h.flapping_dated (subst (λ x. x ≡ true) same.flapping e));
}

-- A result that is not earlier than the one before keeps this: nothing that the check remembers is
-- later than the result, the last good result included, and its changes are of the last hour; a check that has changed or flaps
-- remembers since when it is stable; and one that does not flap has changed less than four times.
pub transition_check-IsTimely :
    (input : TransitionInput) (then' : ℕ) (s : CheckState)
    → then' ≤ input.now
    → IsTimely then' s
    → IsTimely input.now (transition_check input s).state
unfolding transition_check flapped
transition_check-IsTimely input then' s later h =
    let s' : CheckState = record s { transitions = recent input.now s.transitions } in
    let start : IsDated input.now s' = record {
      window = recent-AllWithin input.now then' s.transitions later h.window;
      since = omega (arith, h.since);
      stable_past = NotAfter-le then' input.now s.stable_since later h.stable_past;
      ok_past = NotAfter-le then' input.now s.last_ok_at later h.ok_past;
      changed_dated =
          λ e. h.changed_dated (omega (arith, e, length-recent input.now s.transitions));
      flapping_dated = h.flapping_dated;
    } in
    flap_branch-IsTimely _ _ _ input.now _ refl refl (
      dated-IsDated _ input.now _ (
        SameTimes-IsDated input.now s' _ (classified-SameTimes input s')
          (classified-Remembered input s') start))

pub initial_check_state-IsTimely : (now : ℕ) → IsTimely now (initial_check_state now)
unfolding initial_check_state
initial_check_state-IsTimely now = record {
  window = tt;
  since = omega arith;
  stable_past = tt;
  ok_past = tt;
  changed_dated = λ e. absurd (omega (arith, e));
  flapping_dated = λ e. cc;
  few = λ e. omega arith;
}
