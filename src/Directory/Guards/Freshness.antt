-- ===== src/Directory/Guards/Freshness.antt =====
-- Time in the guards: accepted readings, ages of proofs, deadlines of grants.
use nestjs_yalc.Prelude.{
  ℕ, ◌+◌, ◌≤◌, ◌<◌, ◌≡◌, ap, true, String, arith, Option-cases, eq_iff, ◌⊎◌, inl, inr,
}
use nestjs_yalc.Directory.Errors.{
  ErrorCode, fresh, Result, ok, err, invalid_input, authentication_denied,
  authentication_unavailable,
}
use nestjs_yalc.Directory.Types.{Identity, ProofInput, Horizon, Action}
use nestjs_yalc.Directory.Host.{Host, ConsentTarget}
use nestjs_yalc.Directory.Exec.{Closure, Exec, ◌>>=◌, port_with}
use nestjs_yalc.Directory.Exec.After.{
  After, pure_after, exact_after, bind_after, require_after, then_any, then_lift, then_require,
  then_run,
}
use nestjs_yalc.Directory.Evolves.{port-IsSafe}
use nestjs_yalc.Js.Value.{Value}
use nestjs_yalc.Directory.Validation.Inputs
use nestjs_yalc.Directory.Guards.{
  Grant, clock_reading, dated, time, require_fresh, fresh_proof, grants, require_granted, consent,
  proof_input_value, require_route,
}
use nestjs_yalc.Directory.Guards.Clocks.{require_route-keeps_time}
use nestjs_yalc.Directory.Guards.Safety.{clock_reading-le}

module _ {W : Type 0} (h : Host W) where
  -- Any reading of the clock gives a time that is at least the last one and becomes the last one, and
  -- leaves the fence as it was; or it fences the facade and fails with invalid_input.
  pub time_outcome :
      (c : Closure W)
      → ((t : ℕ) × ((time h c).0 ≡ ok t)
          × (c.last_time ≤ t)
          × ((time h c).1.last_time ≡ t)
          × ((time h c).1.fenced ≡ c.fenced))
        ⊎ (((time h c).0 ≡ err (fresh invalid_input)) × ((time h c).1.fenced ≡ true))
  unfolding time dated
  time_outcome c = elim (Option-cases (clock_reading (h.now c.world).0 c.last_time)) [
    | inl refused ↦ inr (rw refused, rw refused)
    | inr (t, read) ↦ inl (t, rw read, clock_reading-le _ c.last_time t read, rw read, rw read)
  ]

  pub time-eq-ok :
      (c : Closure W) {t : ℕ} {d : Closure W}
      → time h c ≡ (ok t, d)
      → (c.last_time ≤ t) × (d.last_time ≡ t)
  time-eq-ok c {t} e = elim (time_outcome c) [
    | inl (t', result, later, last, fence) ↦
        let same : t' ≡ t = cc (ap (λ (p : Result ℕ × Closure W). p.0) e) in
        let end = ap (λ (p : Result ℕ × Closure W). p.1.last_time) e in
        (omega (arith, same), omega (arith, same, end, last))
    | inr (failed, fence) ↦ let bad = ap (λ (p : Result ℕ × Closure W). p.0) e in absurd (cc)
  ]

  time_after :
      {c : Closure W} {Q : ℕ → Closure W → Type 0}
      → ((t : ℕ) (d : Closure W) → c.last_time ≤ t → d.last_time ≡ t → Q t d)
      → After (time h) c Q
  time_after {c} q = record {
    holds = λ {a} {d} e. let (later, last) = time-eq-ok c e in q a d later last;
  }

  pub then_time :
      {B : Type 0} {c : Closure W} {Q : B → Closure W → Type 0} {f : ℕ → Exec W B}
      → ((t : ℕ) (d : Closure W) → c.last_time ≤ t → d.last_time ≡ t → After (f t) d Q)
      → After (time h >>= f) c Q
  then_time rest = bind_after (time_after rest)

  -- An identity is fresh between two closures: the clock was read at the first one, which led to the
  -- second one, and the identity was no older than the configured age at the time that it showed.
  pub record IsFresh (identity : Identity) (c d : Closure W) : Type 0 where
    pub now : ℕ
    pub shown : time h c ≡ (ok now, d)
    pub young : now ≤ identity.auth_time + h.limits.max_fresh_proof_age_ms

  require_fresh_after :
      (identity : Identity) (c : Closure W)
      → After (require_fresh h identity) c (λ u d. IsFresh identity c d)
  unfolding require_fresh
  require_fresh_after identity c = then_run _ λ now d shown.
      require_after _ _ λ young. record { now = now; shown = shown; young = ground (arith, young) }

  pub then_fresh :
      {B : Type 0} {c : Closure W} {Q : B → Closure W → Type 0} (identity : Identity)
      (f : Unit {0} → Exec W B)
      → ((d : Closure W) → IsFresh identity c d → After (f tt) d Q)
      → After (require_fresh h identity >>= f) c Q
  then_fresh {c = c} identity f rest =
      bind_after (exact_after λ u d e. rest d ((require_fresh_after identity c).holds e))

  -- A proof was accepted between two closures: the verifier answered, the clock was read, the answer is
  -- an identity at that time, the clock was read again and shows that it is fresh, and then the
  -- provider of the input was found to serve its issuer.
  pub record Proved (input : ProofInput) (identity : Identity) (c d : Closure W) : Type 0 where
    pub answer : Value
    pub verified_at : ℕ
    pub c₁ : Closure W
    pub c₂ : Closure W
    pub c₃ : Closure W
    pub answered :
        port_with
          (Inputs.proof (proof_input_value input))
          h.verify_proof
          authentication_unavailable
          c
        ≡ (ok answer, c₁)
    pub shown : time h c₁ ≡ (ok verified_at, c₂)
    pub read : Inputs.identity answer verified_at authentication_denied ≡ ok identity
    pub fresh : IsFresh identity c₂ c₃
    pub served : require_route h identity.issuer input.provider_id c₃ ≡ (ok tt, d)
    pub still_young : d.last_time ≤ identity.auth_time + h.limits.max_fresh_proof_age_ms

  fresh_proof_after :
      (input : ProofInput) (c : Closure W)
      → After (fresh_proof h input) c (λ identity d. Proved input identity c d)
  unfolding fresh_proof
  fresh_proof_after input c = then_run _ λ answer c₁ e₁. then_run _ λ t c₂ e₂.
      then_lift _ λ identity read. then_fresh identity _ λ c₃ fresh. then_run _ λ u d e₃.
        pure_after identity (record {
          answer = answer;
          verified_at = t;
          c₁ = c₁;
          c₂ = c₂;
          c₃ = c₃;
          answered = e₁;
          shown = e₂;
          read = read;
          fresh = fresh;
          served = e₃;
          still_young = omega (
            arith,
            require_route-keeps_time h c₃ _ _ e₃,
            (time-eq-ok c₂ fresh.shown).1,
            fresh.young,
          );
        })

  -- A proof that is accepted: the verifier answered, its answer is an identity at the time that the
  -- clock showed next; the clock was read again, and the identity was authenticated at most the
  -- configured age before the time that it showed; and then the provider of the proof was found to
  -- serve the issuer. These are the steps from the closure before the call to the one after it, whose
  -- last accepted time is at most the configured age after the authentication.
  pub fresh_proof_age :
      (input : ProofInput) (c : Closure W) {identity : Identity} {d : Closure W}
      → fresh_proof h input c ≡ (ok identity, d)
      → Proved input identity c d
  fresh_proof_age input c = (fresh_proof_after input c).holds

  grants-eq-true :
      (g : Grant) (horizon : Horizon)
      → grants g horizon ≡ true
      → (g.command_id ≡ horizon.command_id) × (g.expires_at ≡ horizon.deadline)
  unfolding grants
  grants-eq-true g horizon e = grind (arith, eq_iff, e)

  require_granted_after :
      {c : Closure W} {Q : Unit {0} → Closure W → Type 0} (g : Grant) (horizon : Horizon)
      (code : ErrorCode)
      → ((d : Closure W) → c.last_time ≤ d.last_time → d.last_time < horizon.deadline → Q tt d)
      → After (require_granted h g horizon code) c Q
  unfolding require_granted
  require_granted_after g horizon code q = then_require _ _ _ λ granted.
      then_time λ now d later last. require_after _ _ λ before.
        let (command, until) = grants-eq-true g horizon granted in
        let early : now < g.expires_at = ground (arith, before) in
        q d (omega (arith, later, last)) (omega (arith, early, until, last))

  consent_after :
      (receipt : String) (action : Action) (account_id : String) (horizon : Horizon)
      (target : ConsentTarget) (c : Closure W)
      → After
          (consent h receipt action account_id horizon target)
          c
          (λ consent_id d. (c.last_time ≤ d.last_time) × (d.last_time < horizon.deadline))
  unfolding consent
  consent_after receipt action account_id horizon target c = then_any (port-IsSafe _ _) λ raw c₁ v₁.
      then_lift _ λ value valid. then_lift _ λ g same. bind_after (
        require_granted_after g horizon _
          λ d later early. pure_after g.grant_id (omega (arith, v₁.clock, later), early))

  -- A consent that is accepted is found before the deadline of its command, and the last accepted time
  -- does not fall.
  pub consent_deadline :
      (receipt : String) (action : Action) (account_id : String) (horizon : Horizon)
      (target : ConsentTarget) (c : Closure W) {consent_id : String} {d : Closure W}
      → consent h receipt action account_id horizon target c ≡ (ok consent_id, d)
      → (c.last_time ≤ d.last_time) × (d.last_time < horizon.deadline)
  consent_deadline receipt action account_id horizon target c =
      (consent_after receipt action account_id horizon target c).holds
