-- ===== src/Directory/Facade/Safety.antt =====
-- How the operations of the facade change the closure.
use nestjs_yalc.Prelude.{◌+◌, Bool, true, false, Option, List, [], ◌∷◌, String, arith}
use nestjs_yalc.Js.Value.{Value}
use nestjs_yalc.Directory.Types.{
  Identity, IdentityRow, SessionUse, ProofInput, Horizon, Action, CommandResult,
}
use nestjs_yalc.Directory.Host.{Host, DirectoryTx}
use nestjs_yalc.Directory.Exec.{Closure, Exec}
use nestjs_yalc.Directory.Evolves.{Evolves, Evolves-refl, Evolves-trans, IsSafe}
use nestjs_yalc.Directory.Reads.{Actor}
use nestjs_yalc.Directory.Reads.Safety.{read_rules}
use nestjs_yalc.Directory.Guards.{Approved}
use nestjs_yalc.Directory.Guards.Safety.{guard_rules}
use nestjs_yalc.Directory.Preflight.{Target, identity, by_link, Intent}
use nestjs_yalc.Directory.Mutate.Safety.{mutate-IsSafe, replay-IsSafe}
use nestjs_yalc.Directory.Facade.{
  Request, admitted, write, current_actor, unlink_target, recheck_target, recheck, consented,
  link_identity, unlink_identity, recheck_provision, provision_identity, resolve_identity,
  routed_view, views, list, session_scope, provision_scope, found_receipt, reconcile,
  assert_current_link,
}

module _ {W : Type 0} (h : Host W) where
  admitted-Evolves :
      (fenced room : Bool) (work : Exec W CommandResult) (c : Closure W)
      → IsSafe work
      → Evolves c (admitted h fenced room work c).1
  unfolding admitted
  admitted-Evolves true room work c safe = Evolves-refl c
  admitted-Evolves false false work c safe = Evolves-refl c
  admitted-Evolves false true work c safe =
      let inner = safe.at (record c { concurrent = c.concurrent + 1 }) in
      record { fence = inner.fence; clock = inner.clock; slots = omega (arith, inner.slots) }

  write-IsSafe : (work : Exec W CommandResult) → IsSafe work → IsSafe (write h work)
  unfolding write
  write-IsSafe work safe = record { at = λ c. admitted-Evolves _ _ work c safe }

  current_actor-IsSafe :
      (use' : SessionUse) (input : ProofInput) → IsSafe (current_actor h use' input)
  unfolding current_actor
  current_actor-IsSafe use' input = search guard_rules depth 12

  unlink_target-IsSafe : (actor : Actor) (link_id : String) → IsSafe (unlink_target h actor link_id)
  unfolding unlink_target
  unlink_target-IsSafe actor link_id = search (read_rules, guard_rules) depth 12

  pub recheck_target-IsSafe :
      (target : Target) (provider_id : String) → IsSafe (recheck_target h target provider_id)
  unfolding recheck_target
  recheck_target-IsSafe (identity t) provider_id = search guard_rules
  recheck_target-IsSafe (by_link link_id) provider_id = search guard_rules

  recheck-IsSafe :
      (action : Action) (r : Request) (consent_id : String) → IsSafe (recheck h action r consent_id)
  unfolding recheck
  recheck-IsSafe action r consent_id = search (guard_rules, recheck_target-IsSafe) depth 20

  consented-IsSafe : (action : Action) (r : Request) → IsSafe (consented h action r)
  unfolding consented
  consented-IsSafe action r = search (guard_rules, mutate-IsSafe, recheck-IsSafe) depth 20

  pub link_identity-IsSafe : (raw : Value) → IsSafe (link_identity h raw)
  unfolding link_identity
  link_identity-IsSafe raw =
      search (guard_rules, write-IsSafe, current_actor-IsSafe, consented-IsSafe) depth 30

  pub unlink_identity-IsSafe : (raw : Value) → IsSafe (unlink_identity h raw)
  unfolding unlink_identity
  unlink_identity-IsSafe raw =
      search
        (guard_rules, write-IsSafe, current_actor-IsSafe, unlink_target-IsSafe, consented-IsSafe)
        depth 30

  recheck_provision-IsSafe :
      (target : Identity) (enrollment_ref : String) (command : Horizon) (provider_id : String)
      (approved : Approved)
      → IsSafe (recheck_provision h target enrollment_ref command provider_id approved)
  unfolding recheck_provision
  recheck_provision-IsSafe target enrollment_ref command provider_id approved =
      search guard_rules depth 12

  pub provision_identity-IsSafe : (raw : Value) → IsSafe (provision_identity h raw)
  unfolding provision_identity
  provision_identity-IsSafe raw =
      search (guard_rules, write-IsSafe, mutate-IsSafe, recheck_provision-IsSafe) depth 30

  pub resolve_identity-IsSafe : (raw : Value) → IsSafe (resolve_identity h raw)
  unfolding resolve_identity
  resolve_identity-IsSafe raw = search (read_rules, guard_rules) depth 20

  routed_view-IsSafe : (row : IdentityRow) → IsSafe (routed_view h row)
  unfolding routed_view
  routed_view-IsSafe row = search guard_rules depth 12

  views-IsSafe : (rows : List IdentityRow) → IsSafe (views h rows)
  unfolding views
  views-IsSafe [] = record { at = Evolves-refl }
  views-IsSafe (row ∷ rows) = record {
    at = λ c. Evolves-trans ((routed_view-IsSafe row).at c) ((views-IsSafe rows).at _);
  }

  pub list-IsSafe : (raw : Value) → IsSafe (list h raw)
  unfolding list
  list-IsSafe raw = search (read_rules, guard_rules, views-IsSafe) depth 20

  session_scope-IsSafe : (raw : Value) → IsSafe (session_scope h raw)
  unfolding session_scope
  session_scope-IsSafe raw = search guard_rules depth 20

  provision_scope-IsSafe :
      (raw : Value) (command : Horizon) → IsSafe (provision_scope h raw command)
  unfolding provision_scope
  provision_scope-IsSafe raw command = search guard_rules depth 20

  found_receipt-IsSafe :
      (tx : DirectoryTx W) (command : Horizon) (account_id : String) (intent : Option Intent)
      → IsSafe (found_receipt h tx command account_id intent)
  unfolding found_receipt
  found_receipt-IsSafe tx command account_id intent = search read_rules depth 12

  pub reconcile-IsSafe : (raw : Value) → IsSafe (reconcile h raw)
  unfolding reconcile
  reconcile-IsSafe raw =
      search
        (
          guard_rules, session_scope-IsSafe, provision_scope-IsSafe, found_receipt-IsSafe,
          replay-IsSafe,
        )
        depth 20

  pub assert_current_link-IsSafe : (raw : Value) → IsSafe (assert_current_link h raw)
  unfolding assert_current_link
  assert_current_link-IsSafe raw = search guard_rules depth 20
