-- ===== src/Directory/Facade/Histories.antt =====
-- Histories of one facade: its operations in any order, and between them anything that the world of
-- its ports does.
use nestjs_yalc.Prelude.{◌≡◌, refl, true, arith}
use nestjs_yalc.Js.Value.{Value}
use nestjs_yalc.Directory.Errors.{fail, commit_unknown}
use nestjs_yalc.Directory.Host.{Host}
use nestjs_yalc.Directory.Exec.{Closure}
use nestjs_yalc.Directory.Evolves.{Evolves, Evolves-refl, Evolves-trans}
use nestjs_yalc.Directory.Facade.{
  admitted, write, provision_identity, link_identity, unlink_identity, resolve_identity, list,
  reconcile, assert_current_link,
}
use nestjs_yalc.Directory.Facade.Safety.{
  provision_identity-IsSafe, link_identity-IsSafe, unlink_identity-IsSafe, resolve_identity-IsSafe,
  list-IsSafe, reconcile-IsSafe, assert_current_link-IsSafe,
}

module _ {W : Type 0} (h : Host W) where
  -- One operation with its input, or a change of the world.
  pub data Step (c : Closure W) : Closure W → Type 0 where
    provisions : (raw : Value) → Step c (provision_identity h raw c).1
    links : (raw : Value) → Step c (link_identity h raw c).1
    unlinks : (raw : Value) → Step c (unlink_identity h raw c).1
    resolves : (raw : Value) → Step c (resolve_identity h raw c).1
    lists : (raw : Value) → Step c (list h raw c).1
    reconciles : (raw : Value) → Step c (reconcile h raw c).1
    asserts : (raw : Value) → Step c (assert_current_link h raw c).1
    world : (w : W) → Step c (record c { world = w })

  pub data History (c : Closure W) : Closure W → Type 0 where
    here : History c c
    after : {d e : Closure W} → History c d → Step d e → History c e

  Step-Evolves : {c d : Closure W} → Step c d → Evolves c d
  Step-Evolves {c} (provisions raw) = (provision_identity-IsSafe h raw).at c
  Step-Evolves {c} (links raw) = (link_identity-IsSafe h raw).at c
  Step-Evolves {c} (unlinks raw) = (unlink_identity-IsSafe h raw).at c
  Step-Evolves {c} (resolves raw) = (resolve_identity-IsSafe h raw).at c
  Step-Evolves {c} (lists raw) = (list-IsSafe h raw).at c
  Step-Evolves {c} (reconciles raw) = (reconcile-IsSafe h raw).at c
  Step-Evolves {c} (asserts raw) = (assert_current_link-IsSafe h raw).at c
  Step-Evolves (world w) = record { fence = λ p. p; clock = omega arith; slots = refl }

  -- Through any history of operations and changes of the world, with any host and any input: a
  -- fenced facade stays fenced, the last accepted time does not fall, and the number of running
  -- commands is at the end what it was at the start.
  pub History-Evolves : {c d : Closure W} → History c d → Evolves c d
  History-Evolves {c} here = Evolves-refl c
  History-Evolves (after past step) = Evolves-trans (History-Evolves past) (Step-Evolves step)

  -- In any history that begins at a fenced facade, a provision, a link and an unlink are refused
  -- with commit_unknown, call no port and change nothing.
  pub fence_is_final :
      {c d : Closure W} (raw : Value)
      → c.fenced ≡ true
      → History c d
      → (provision_identity h raw d ≡ (fail commit_unknown, d))
        × (link_identity h raw d ≡ (fail commit_unknown, d))
        × (unlink_identity h raw d ≡ (fail commit_unknown, d))
  unfolding provision_identity link_identity unlink_identity write admitted
  fence_is_final raw fenced past =
      let still = (History-Evolves past).fence fenced in (rw still, rw still, rw still)
