-- ===== src/Directory/Guards/Sessions.antt =====
-- What `session` and `guard` of auth/src/directory/directory-core.ts promise of a session.
use nestjs_yalc.Prelude.{ℕ, ◌<◌, ◌≡◌, true, some, String, eq_iff, arith}
use nestjs_yalc.Directory.Errors.{ok, authentication_denied, authentication_unavailable}
use nestjs_yalc.Directory.Types.{SessionUse, SessionProfile, SessionBinding}
use nestjs_yalc.Directory.Host.{Host, guard as guarding}
use nestjs_yalc.Directory.Exec.{Closure, port, port_with}
use nestjs_yalc.Directory.Exec.After.{
  After, pure_after, exact_after, then_lift, then_require, then_run,
}
use nestjs_yalc.Directory.Atomic.Commits.{Committed, atomic-Committed}
use nestjs_yalc.Directory.Reads.{Actor, actor_row, stored_identity}
use nestjs_yalc.Directory.Reads.Bound.{IsBound, actor_row_after}
use nestjs_yalc.Js.Value.{Value}
use nestjs_yalc.Directory.Validation.Inputs
use nestjs_yalc.Directory.Validation.Inputs.Sessions.{profile-running}
use nestjs_yalc.Directory.Guards.Clocks.{
  require_route-keeps_time, authorize-keeps_time, port-keeps_time,
}
use nestjs_yalc.Directory.Guards.Freshness.{time-eq-ok}
use nestjs_yalc.Directory.Guards.{
  session_use_value, same_session, time, authorize, require_route, session, guard, actor_json,
}

-- The binding repeats the session, in the namespace of the directory.
pub record IsSession (namespace : String) (profile : SessionProfile) (binding : SessionBinding)
    : Type 0 where
  pub space : binding.namespace ≡ namespace
  pub account : binding.account_id ≡ profile.account_id
  pub session_id : binding.session_id ≡ profile.session_id
  pub issuer : binding.issuer ≡ profile.issuer
  pub subject : binding.subject ≡ profile.subject
  pub provider : binding.provider_id ≡ profile.provider_id

same_session-IsSession :
    (binding : SessionBinding) (profile : SessionProfile) (namespace : String)
    → same_session binding profile namespace ≡ true
    → IsSession namespace profile binding
unfolding same_session
same_session-IsSession binding profile namespace e = record {
  space = grind (arith, eq_iff);
  account = grind (arith, eq_iff);
  session_id = grind (arith, eq_iff);
  issuer = grind (arith, eq_iff);
  subject = grind (arith, eq_iff);
  provider = grind (arith, eq_iff);
}

module _ {W : Type 0} (h : Host W) where
  -- A session was accepted between two closures: the provider answered, the clock was read, the answer
  -- is a profile at that time, which is before its end; the binding of the session was read, it repeats
  -- the session, the session is authorized, and its provider was found to serve its issuer.
  pub record Accepted (use' : SessionUse) (profile : SessionProfile) (binding : SessionBinding)
      (c d : Closure W) : Type 0 where
    pub answer : Value
    pub now : ℕ
    pub bound : Value
    pub c₁ : Closure W
    pub c₂ : Closure W
    pub c₃ : Closure W
    pub c₄ : Closure W
    pub answered :
        port_with
          (Inputs.session_use (session_use_value use'))
          h.authenticate_session
          authentication_unavailable
          c
        ≡ (ok answer, c₁)
    pub shown : time h c₁ ≡ (ok now, c₂)
    pub profile_read : Inputs.profile answer now ≡ ok profile
    pub running : now < profile.expires_at
    pub bound_answered :
        port (h.session_binding profile.session_id) authentication_denied c₂ ≡ (ok bound, c₃)
    pub binding_read : Inputs.binding bound ≡ ok binding
    pub own : IsSession h.namespace profile binding
    pub authorized : authorize h guarding profile c₃ ≡ (ok tt, c₄)
    pub served : require_route h profile.issuer profile.provider_id c₄ ≡ (ok tt, d)
    pub still_running : d.last_time < profile.expires_at

  session_after :
      (use' : SessionUse) (c : Closure W)
      → After (session h use') c (λ source d. Accepted use' source.0 source.1 c d)
  unfolding session
  session_after use' c = then_run _ λ answer c₁ e₁. then_run _ λ now c₂ e₂.
      then_lift _ λ profile read. then_run _ λ bound c₃ e₃. then_lift _ λ binding read'.
        then_require _ _ _ λ same. then_run _ λ u c₄ e₄. then_run _ λ u' c₅ e₅.
          pure_after _ (record {
            answer = answer;
            now = now;
            bound = bound;
            c₁ = c₁;
            c₂ = c₂;
            c₃ = c₃;
            c₄ = c₄;
            answered = e₁;
            shown = e₂;
            profile_read = read;
            running = profile-running answer now read;
            bound_answered = e₃;
            binding_read = read';
            own = same_session-IsSession binding profile h.namespace same;
            authorized = e₄;
            served = e₅;
            still_running = omega (
              arith,
              profile-running answer now read,
              (time-eq-ok h c₁ e₂).1,
              port-keeps_time h c₂ _ _ e₃,
              authorize-keeps_time h c₃ _ _ e₄,
              require_route-keeps_time h c₄ _ _ e₅,
            );
          })

  -- An actor was guarded between two closures: its session was accepted, and then in a transaction its
  -- row was found under the session's issuer and subject, and it is the one to which the session is
  -- bound.
  pub record Guarded (use' : SessionUse) (a : Actor) (c d : Closure W) : Type 0 where
    pub profile : SessionProfile
    pub binding : SessionBinding
    pub middle : Closure W
    pub looked_to : Closure W
    pub same_profile : a.profile ≡ profile
    pub same_binding : a.binding ≡ binding
    pub accepted : Accepted use' profile binding c middle
    pub committed :
        Committed actor_json
          (λ tx. actor_row h tx profile binding)
          (h.transaction middle.world)
          middle
          a
          d
    pub stored :
        stored_identity h committed.ran.raw.methods profile.issuer profile.subject
          (record middle { world = committed.ran.begun })
        ≡ (ok (some a.row), looked_to)
    pub is_bound : IsBound profile binding a.row

  guard_after :
      (use' : SessionUse) (c : Closure W) → After (guard h use') c (λ a d. Guarded use' a c d)
  unfolding guard
  guard_after use' c = then_run _ λ source c₁ e. exact_after λ a d e'.
      let committed =
        atomic-Committed actor_json (λ tx. actor_row h tx source.0 source.1) h c₁ e' in
      let (p, b, (looked_to, stored), bound) =
        (actor_row_after h committed.ran.raw.methods source.0 source.1 _).holds
          committed.ran.answer in
      record {
        profile = source.0;
        binding = source.1;
        middle = c₁;
        looked_to = looked_to;
        same_profile = p;
        same_binding = b;
        accepted = (session_after use' c).holds e;
        committed = committed;
        stored = stored;
        is_bound = bound;
      }

  -- An actor that `guard` accepts, by the steps from the closure before the call to the one after it:
  -- the clock was read, and the session had not expired at the time that it showed, which is the last
  -- accepted one when the session is accepted; the binding that
  -- was read repeats the session in the namespace of the directory; the session is authorized and its
  -- provider serves its issuer; and the row that the transaction of the call found under the issuer and
  -- the subject of the session is active and of the session's account and provider, with the link and
  -- the generation of the session's binding.
  pub guard-Guarded :
      (use' : SessionUse) (c : Closure W) {a : Actor} {d : Closure W}
      → guard h use' c ≡ (ok a, d)
      → Guarded use' a c d
  guard-Guarded use' c = (guard_after use' c).holds
