-- ===== src/Directory/Atomic/Safety.antt =====
-- How `atomic` of auth/src/directory/directory-core.ts changes the closure.
use nestjs_yalc.Prelude.{refl, Bool, true, false, arith}
use nestjs_yalc.Js.Json.{Json}
use nestjs_yalc.Directory.Errors.{aborted, Result, ok, err}
use nestjs_yalc.Directory.Host.{Host, DirectoryTx, Run, RawTx, resolves, throws, invokes}
use nestjs_yalc.Directory.Exec.{Closure, Exec}
use nestjs_yalc.Directory.Evolves.{Evolves, Evolves-refl, Evolves-trans, IsSafe}
use nestjs_yalc.Directory.Atomic.{
  Locals, unstarted, Settled, resolved, threw, detached, concluded, entered, callback, run,
  believed, settled, atomic,
}

module _ {W A : Type 0} (json : A → Json) (work : DirectoryTx W → Exec W A) where
  module _ (safe : (tx : DirectoryTx W) → IsSafe (work tx)) where
    detached-Evolves :
        (r : Result Json) (c : Closure W) (l : Locals A) → Evolves c (detached json r c l).1
    unfolding detached
    detached-Evolves (ok j) c l = Evolves-refl c
    detached-Evolves (err e) c l = Evolves-refl c

    concluded-Evolves :
        (r : Result A × Closure W) (l : Locals A) → Evolves r.1 (concluded json r l).1
    unfolding concluded
    concluded-Evolves (ok a, c) l = detached-Evolves _ c _
    concluded-Evolves (err e, c) l = Evolves-refl c

    entered-Evolves :
        (b : Bool) (raw : RawTx W) (c : Closure W) (l : Locals A)
        → Evolves c (entered json b work raw c l).1
    unfolding entered
    entered-Evolves true raw c l =
        Evolves-trans ((safe raw.methods).at c) (concluded-Evolves (work raw.methods c) _)
    entered-Evolves false raw c l = Evolves-refl c

    run-Evolves : (r : Run W) (c : Closure W) (l : Locals A) → Evolves c (run json r work c l).1
    unfolding run callback
    run-Evolves (resolves raw w) c l = record { fence = λ h. h; clock = omega arith; slots = refl }
    run-Evolves (throws w) c l = record { fence = λ h. h; clock = omega arith; slots = refl }
    run-Evolves (invokes raw w next) c l =
        let enter = entered-Evolves _ raw (record c { world = w }) l in
        let later = run-Evolves (next _ _) _ _ in
        Evolves-trans (record { fence = enter.fence; clock = enter.clock; slots = enter.slots })
          later

    believed-Evolves : (r : Result A) (c : Closure W) → Evolves c (believed r c).1
    unfolding believed
    believed-Evolves (ok a) c = Evolves-refl c
    believed-Evolves (err (aborted code)) c = Evolves-refl c
    believed-Evolves (err _) c = record { fence = λ h. refl; clock = omega arith; slots = refl }

    settled-Evolves : (s : Settled × Closure W × Locals A) → Evolves s.1 (settled json s).1
    unfolding settled
    settled-Evolves (threw, c, l) = record { fence = λ h. refl; clock = omega arith; slots = refl }
    settled-Evolves (resolved raw, c, l) = believed-Evolves _ c

    pub atomic-IsSafe : (h : Host W) → IsSafe (atomic json h work)
    unfolding atomic
    atomic-IsSafe h = record {
      at = λ c.
          Evolves-trans (run-Evolves (h.transaction c.world) c unstarted)
            (settled-Evolves (run json (h.transaction c.world) work c unstarted));
    }
