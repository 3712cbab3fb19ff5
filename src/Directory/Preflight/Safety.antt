-- ===== src/Directory/Preflight/Safety.antt =====
-- How the checks before the writes change the closure.
use nestjs_yalc.Prelude.{Option, none, some, String}
use nestjs_yalc.Directory.Types.{CommandRow}
use nestjs_yalc.Directory.Host.{Host, DirectoryTx, Port}
use nestjs_yalc.Directory.Evolves.{IsSafe}
use nestjs_yalc.Directory.Reads.{Actor}
use nestjs_yalc.Directory.Reads.Safety.{read_rules}
use nestjs_yalc.Directory.Preflight.{
  Target, identity, by_link, Intent, stored_target, counted, require_unused, require_actor, examine,
  planned, preflight,
}

module _ {W : Type 0} (h : Host W) (tx : DirectoryTx W) where
  pub stored_target-IsSafe : (target : Target) → IsSafe (stored_target h tx target)
  unfolding stored_target
  stored_target-IsSafe (identity t) = search read_rules
  stored_target-IsSafe (by_link link_id) = search read_rules

  pub counted-IsSafe : (call : Port W) → IsSafe (counted h tx call)
  unfolding counted
  counted-IsSafe call = search read_rules depth 12

  pub require_unused-IsSafe : (consent_id : String) → IsSafe (require_unused h tx consent_id)
  unfolding require_unused
  require_unused-IsSafe consent_id = search read_rules depth 12

  pub require_actor-IsSafe : (actor : Option Actor) → IsSafe (require_actor h tx actor)
  unfolding require_actor
  require_actor-IsSafe none = search read_rules
  require_actor-IsSafe (some a) = search read_rules

  examine-IsSafe : (intent : Intent) → IsSafe (examine h tx intent)
  unfolding examine
  examine-IsSafe intent =
      search (read_rules, stored_target-IsSafe, counted-IsSafe, require_unused-IsSafe) depth 30

  planned-IsSafe :
      (intent : Intent) (receipt : Option CommandRow) → IsSafe (planned h tx intent receipt)
  unfolding planned
  planned-IsSafe intent none = examine-IsSafe intent
  planned-IsSafe intent (some receipt) = search read_rules

  pub preflight-IsSafe : (intent : Intent) → IsSafe (preflight h tx intent)
  unfolding preflight
  preflight-IsSafe intent = search (read_rules, require_actor-IsSafe, planned-IsSafe) depth 12
