-- ===== src/Directory/Guards/Safety.antt =====
-- How the guards change the closure.
use nestjs_yalc.Prelude.{ℕ, ◌≤◌, ◌≡◌, refl, Option, none, some, String, arith}
use nestjs_yalc.Js.Value.{Value}
use nestjs_yalc.Directory.Errors.{ErrorCode}
use nestjs_yalc.Directory.Types.{Identity, ProofInput, SessionUse, SessionProfile, Horizon, Action}
use nestjs_yalc.Directory.Host.{Host, AuthorizedAction, ConsentTarget}
use nestjs_yalc.Directory.Exec.{Closure}
use nestjs_yalc.Directory.Evolves.{Evolves, IsSafe, safe_rules}
use nestjs_yalc.Directory.Atomic.Safety.{atomic-IsSafe}
use nestjs_yalc.Directory.Reads.Safety.{actor_row-IsSafe}
use nestjs_yalc.Directory.Guards.{
  Grant, clock_reading, dated, time, provider_enabled, routed, route, require_route, authorize,
  session, guard, require_fresh, fresh_proof, require_granted, approval, consent,
}

-- An accepted reading is not before the last one.
pub clock_reading-le :
    (answer : Option Value) (last t : ℕ) → clock_reading answer last ≡ some t → last ≤ t
unfolding clock_reading
clock_reading-le answer last t h = ground arith

dated-Evolves :
    {W : Type 0} (reading : Option ℕ) (c : Closure W)
    → ((t : ℕ) → reading ≡ some t → c.last_time ≤ t)
    → Evolves c (dated reading c).1
unfolding dated
dated-Evolves none c later = record { fence = λ h. refl; clock = omega arith; slots = refl }
dated-Evolves (some t) c later = record { fence = λ h. h; clock = later t refl; slots = refl }

module _ {W : Type 0} (h : Host W) where
  pub time-IsSafe : IsSafe (time h)
  unfolding time
  time-IsSafe = record {
    at = λ c.
        let step =
          dated-Evolves (clock_reading (h.now c.world).0 c.last_time)
            (record c { world = (h.now c.world).1 }) (clock_reading-le _ c.last_time) in
        record { fence = step.fence; clock = step.clock; slots = step.slots };
  }

  provider_enabled-IsSafe : (provider_id : String) → IsSafe (provider_enabled h provider_id)
  unfolding provider_enabled
  provider_enabled-IsSafe provider_id = search safe_rules depth 12

  routed-IsSafe : (raw : Value) (provider_id : Option String) → IsSafe (routed h raw provider_id)
  unfolding routed
  routed-IsSafe raw provider_id = search (safe_rules, provider_enabled-IsSafe) depth 12

  pub route-IsSafe :
      (issuer : String) (provider_id : Option String) → IsSafe (route h issuer provider_id)
  unfolding route
  route-IsSafe issuer provider_id = search (safe_rules, routed-IsSafe) depth 12

  pub require_route-IsSafe :
      (issuer provider_id : String) → IsSafe (require_route h issuer provider_id)
  unfolding require_route
  require_route-IsSafe issuer provider_id = search (safe_rules, route-IsSafe) depth 12

  pub authorize-IsSafe :
      (action : AuthorizedAction) (profile : SessionProfile) → IsSafe (authorize h action profile)
  unfolding authorize
  authorize-IsSafe action profile = search safe_rules depth 12

  pub session-IsSafe : (use' : SessionUse) → IsSafe (session h use')
  unfolding session
  session-IsSafe use' =
      search (safe_rules, time-IsSafe, authorize-IsSafe, require_route-IsSafe) depth 20

  pub guard-IsSafe : (use' : SessionUse) → IsSafe (guard h use')
  unfolding guard
  guard-IsSafe use' = search (safe_rules, session-IsSafe, atomic-IsSafe, actor_row-IsSafe) depth 12

  pub require_fresh-IsSafe : (identity : Identity) → IsSafe (require_fresh h identity)
  unfolding require_fresh
  require_fresh-IsSafe identity = search (safe_rules, time-IsSafe) depth 12

  pub fresh_proof-IsSafe : (input : ProofInput) → IsSafe (fresh_proof h input)
  unfolding fresh_proof
  fresh_proof-IsSafe input =
      search (safe_rules, time-IsSafe, require_fresh-IsSafe, require_route-IsSafe) depth 20

  require_granted-IsSafe :
      (grant : Grant) (horizon : Horizon) (code : ErrorCode)
      → IsSafe (require_granted h grant horizon code)
  unfolding require_granted
  require_granted-IsSafe grant horizon code = search (safe_rules, time-IsSafe) depth 12

  pub approval-IsSafe :
      (proof : Identity) (enrollment_ref : String) (horizon : Horizon)
      → IsSafe (approval h proof enrollment_ref horizon)
  unfolding approval
  approval-IsSafe proof enrollment_ref horizon =
      search (safe_rules, require_granted-IsSafe) depth 20

  pub consent-IsSafe :
      (receipt : String) (action : Action) (account_id : String) (horizon : Horizon)
      (target : ConsentTarget)
      → IsSafe (consent h receipt action account_id horizon target)
  unfolding consent
  consent-IsSafe receipt action account_id horizon target =
      search (safe_rules, require_granted-IsSafe) depth 20

pub ruleset guard_rules = (
  safe_rules, atomic-IsSafe, time-IsSafe, route-IsSafe, require_route-IsSafe, authorize-IsSafe,
  guard-IsSafe, require_fresh-IsSafe, fresh_proof-IsSafe, approval-IsSafe, consent-IsSafe,
)
