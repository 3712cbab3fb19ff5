-- ===== src/Directory/Facade/Rechecks.antt =====
-- The second look at a link or an unlink in auth/src/directory/directory-core.ts.
use nestjs_yalc.Prelude.{◌<◌, ◌≡◌, true, String, ◌==◌}
use nestjs_yalc.Js.Json.{canonical}
use nestjs_yalc.Directory.Errors.{ok}
use nestjs_yalc.Directory.Types.{Action}
use nestjs_yalc.Directory.Host.{Host}
use nestjs_yalc.Directory.Exec.{Closure}
use nestjs_yalc.Directory.Exec.After.{After, then_run, then_require, require_after}
use nestjs_yalc.Directory.Reads.{Actor}
use nestjs_yalc.Directory.Guards.{actor_json, authorize, consent}
use nestjs_yalc.Directory.Guards.Sessions.{Guarded, guard-Guarded}
use nestjs_yalc.Directory.Guards.Freshness.{IsFresh, then_fresh, consent_deadline}
use nestjs_yalc.Directory.Facade.{
  Request, authorized_action, consent_target, recheck_target, recheck,
}

module _ {W : Type 0} (h : Host W) (action : Action) (r : Request) (consent_id : String) where
  -- The session was guarded again with an actor of the same canonical JSON text, the action was
  -- authorized for it, the clock was read and shows that the current proof is still of the configured
  -- age, the target was looked at again, and the consent was verified again before the deadline of the
  -- command: these are the steps from one closure to the other.
  pub record Confirmed (c d : Closure W) : Type 0 where
    pub again : Actor
    pub c₁ : Closure W
    pub c₂ : Closure W
    pub c₃ : Closure W
    pub c₄ : Closure W
    pub second : String
    pub guarded : Guarded h r.session_use again c c₁
    pub same_actor : (canonical (actor_json again) == canonical (actor_json r.actor)) ≡ true
    pub authorized : authorize h (authorized_action h action) again.profile c₁ ≡ (ok tt, c₂)
    pub fresh : IsFresh h r.current c₂ c₃
    pub before_deadline : d.last_time < r.horizon.deadline
    pub target_rechecked : recheck_target h r.target r.provider_id c₃ ≡ (ok tt, c₄)
    pub consented :
        consent h r.secret action r.actor.profile.account_id r.horizon
          (consent_target h r.provider_id r.target)
          c₄
        ≡ (ok second, d)
    pub same_consent : (second == consent_id) ≡ true

  recheck_after : (c : Closure W) → After (recheck h action r consent_id) c (λ u d. Confirmed c d)
  unfolding recheck
  recheck_after c = then_run _ λ again c₁ e₁. then_require _ _ _ λ same. then_run _ λ u c₂ e₂.
      then_fresh h r.current _ λ c₃ fresh. then_run _ λ u' c₄ e₄. then_run _ λ second d e₅.
        require_after _ _ λ agreed. record {
          again = again;
          c₁ = c₁;
          c₂ = c₂;
          c₃ = c₃;
          c₄ = c₄;
          second = second;
          guarded = guard-Guarded h r.session_use c e₁;
          same_actor = same;
          authorized = e₂;
          fresh = fresh;
          before_deadline = (consent_deadline h _ _ _ _ _ c₄ e₅).1;
          target_rechecked = e₄;
          consented = e₅;
          same_consent = agreed;
        }

  -- If the recheck succeeds, then by the steps from the closure before it to the one after it: the
  -- session was guarded again and its actor has the canonical JSON text of the first one; the action
  -- was authorized for it; the clock was read, and the current identity is no older than the configured
  -- age at the time that it showed; the target was looked at again; the consent was verified again and
  -- is the same one; and the last accepted time is before the deadline of the command.
  pub recheck-Confirmed :
      (c : Closure W) {u : Unit {0}} {d : Closure W}
      → recheck h action r consent_id c ≡ (ok u, d)
      → Confirmed c d
  recheck-Confirmed c = (recheck_after c).holds
