-- ===== src/Directory/Mutate/Safety.antt =====
-- How a mutation changes the closure, given how its recheck does.
use nestjs_yalc.Prelude.{refl, Option, some, List, [], ◌∷◌, String, arith}
use nestjs_yalc.Directory.Errors.{Fault, aborted, Result, ok, err}
use nestjs_yalc.Directory.Types.{IdentityRow, CommandRow, CommandResult}
use nestjs_yalc.Directory.Host.{Host, DirectoryTx, Port}
use nestjs_yalc.Directory.Exec.{Closure, Exec}
use nestjs_yalc.Directory.Evolves.{Evolves, Evolves-refl, Evolves-trans, IsSafe}
use nestjs_yalc.Directory.Reads.Safety.{read_rules}
use nestjs_yalc.Directory.Guards.Safety.{guard_rules, route-IsSafe}
use nestjs_yalc.Directory.Preflight.{Intent, Plan}
use nestjs_yalc.Directory.Preflight.Safety.{preflight-IsSafe}
use nestjs_yalc.Directory.Mutate.{
  Changes, doubt, draw, terminal, or_fence, fenced_off, replay, route_all, require_other_method,
  drawn_link, prepare, reserve, checks, recheck_all, written, write_all, apply_plan, commit,
  settlement, conclude, perform, mutate,
}

doubt-IsSafe : {W A : Type 0} → IsSafe {W = W} {A = A} doubt
unfolding doubt
doubt-IsSafe = record { at = λ c. record { fence = λ p. refl; clock = omega arith; slots = refl } }

module _ {W : Type 0} (h : Host W) where
  draw-IsSafe : IsSafe (draw h)
  unfolding draw
  draw-IsSafe = record { at = λ c. record { fence = λ p. p; clock = omega arith; slots = refl } }

  terminal-IsSafe : (call : Port W) → IsSafe (terminal h call)
  unfolding terminal
  terminal-IsSafe call = search guard_rules

  fenced_off-Evolves : (r : Result (Unit {0})) (c : Closure W) → Evolves c (fenced_off r c).1
  unfolding fenced_off
  fenced_off-Evolves (ok u) c = Evolves-refl c
  fenced_off-Evolves (err e) c = doubt-IsSafe.at c

  or_fence-IsSafe : (m : Exec W (Unit {0})) → IsSafe m → IsSafe (or_fence h m)
  unfolding or_fence
  or_fence-IsSafe m safe = record {
    at = λ c. Evolves-trans (safe.at c) (fenced_off-Evolves (m c).0 (m c).1);
  }

  pub replay-IsSafe : (receipt : CommandRow) → IsSafe (replay h receipt)
  unfolding replay
  replay-IsSafe receipt = search (guard_rules, or_fence-IsSafe, terminal-IsSafe)

  route_all-IsSafe : (rows : List IdentityRow) → IsSafe (route_all h rows)
  unfolding route_all
  route_all-IsSafe [] = record { at = Evolves-refl }
  route_all-IsSafe (row ∷ rows) = record {
    at = λ c.
        Evolves-trans ((route-IsSafe h row.issuer (some row.provider_id)).at c)
          ((route_all-IsSafe rows).at _);
  }

  pub require_other_method-IsSafe :
      (intent : Intent) (plan : Plan) → IsSafe (require_other_method h intent plan)
  unfolding require_other_method
  require_other_method-IsSafe intent plan = search (guard_rules, route_all-IsSafe) depth 12

  drawn_link-IsSafe : (target : Option IdentityRow) → IsSafe (drawn_link h target)
  unfolding drawn_link
  drawn_link-IsSafe target = search (guard_rules, draw-IsSafe)

  pub prepare-IsSafe : (intent : Intent) (plan : Plan) → IsSafe (prepare h intent plan)
  unfolding prepare
  prepare-IsSafe intent plan = search (guard_rules, draw-IsSafe, drawn_link-IsSafe) depth 20

  pub reserve-IsSafe : (intent : Intent) → IsSafe (reserve h intent)
  unfolding reserve
  reserve-IsSafe intent = search guard_rules depth 20

  module _ (intent : Intent) (plan : Plan) (recheck : Exec W (Unit {0}))
      (safe : IsSafe recheck) where
    checks-IsSafe : IsSafe (checks h intent plan recheck)
    unfolding checks
    checks-IsSafe = search (guard_rules, require_other_method-IsSafe) depth 20

    recheck_all-IsSafe : IsSafe (recheck_all h intent plan recheck)
    unfolding recheck_all
    recheck_all-IsSafe = record { at = λ c. checks-IsSafe.at c }

  module _ (tx : DirectoryTx W) where
    written-IsSafe : (call : Port W) → IsSafe (written h tx call)
    unfolding written
    written-IsSafe call = search guard_rules depth 12

    write_all-IsSafe :
        (intent : Intent) (plan : Plan) (ch : Changes) → IsSafe (write_all h tx intent plan ch)
    unfolding write_all
    write_all-IsSafe intent plan ch = search (guard_rules, written-IsSafe) depth 20

    apply_plan-IsSafe :
        (intent : Intent) (plan : Plan) (ch : Changes) (current : Plan)
        → IsSafe (apply_plan h tx intent plan ch current)
    unfolding apply_plan
    apply_plan-IsSafe intent plan ch current = search (read_rules, write_all-IsSafe) depth 20

    commit-IsSafe :
        (intent : Intent) (plan : Plan) (ch : Changes) (check_error : Option Fault)
        → IsSafe (commit h tx intent plan ch check_error)
    unfolding commit
    commit-IsSafe intent plan ch check_error =
        search (read_rules, preflight-IsSafe, apply_plan-IsSafe) depth 20

  settlement-IsSafe :
      (reservation_id command_id : String) (r : Result CommandResult)
      → IsSafe (settlement h reservation_id command_id r)
  unfolding settlement
  settlement-IsSafe reservation_id command_id (ok result) =
      search (guard_rules, or_fence-IsSafe, terminal-IsSafe) depth 12
  settlement-IsSafe reservation_id command_id (err (aborted code)) =
      search (guard_rules, or_fence-IsSafe, terminal-IsSafe) depth 12
  settlement-IsSafe reservation_id command_id (err _) = doubt-IsSafe

  conclude-IsSafe :
      (reservation_id command_id : String) (m : Exec W CommandResult)
      → IsSafe m
      → IsSafe (conclude h reservation_id command_id m)
  unfolding conclude
  conclude-IsSafe reservation_id command_id m safe = record {
    at = λ c.
        Evolves-trans (safe.at c)
          ((settlement-IsSafe reservation_id command_id (m c).0).at (m c).1);
  }

  perform-IsSafe :
      (intent : Intent) (recheck : Exec W (Unit {0})) (plan : Plan)
      → IsSafe recheck
      → IsSafe (perform h intent recheck plan)
  unfolding perform
  perform-IsSafe intent recheck plan safe =
      search
        (
          guard_rules, require_other_method-IsSafe, prepare-IsSafe, reserve-IsSafe,
          recheck_all-IsSafe, conclude-IsSafe, commit-IsSafe,
        )
        depth 20

  pub mutate-IsSafe :
      (intent : Intent) (recheck : Exec W (Unit {0}))
      → IsSafe recheck
      → IsSafe (mutate h intent recheck)
  unfolding mutate
  mutate-IsSafe intent recheck safe =
      search (guard_rules, preflight-IsSafe, perform-IsSafe, replay-IsSafe) depth 12
