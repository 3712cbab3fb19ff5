-- ===== src/Directory/Atomic/Runs.antt =====
-- The run of a transaction in `atomic` of auth/src/directory/directory-core.ts that ends well.
use nestjs_yalc.Prelude.{
  ◌≡◌, refl, sym, ◌∙◌, subst, ap, Bool, true, false, some, all, arith, not, ◌&&◌,
}
use nestjs_yalc.Js.Json.{Json}
use nestjs_yalc.Js.Value.{Value}
use nestjs_yalc.Directory.Errors.{Result, ok, err, storage_unavailable}
use nestjs_yalc.Directory.Host.{DirectoryTx, Run, RawTx, resolves, throws, invokes}
use nestjs_yalc.Directory.Exec.{Closure, Exec}
use nestjs_yalc.Directory.Validation.Shapes.{value_of, snapshot}
use nestjs_yalc.Directory.Atomic.{
  Locals, unstarted, Settled, resolved, tx_keys, detached, concluded, entered, callback, run,
}

contradiction : {b : Bool} → b ≡ false → b ≡ true → ⊥
contradiction e e' = let same : false ≡ true = sym e ∙ e' in cc

module _ {W A : Type 0} (json : A → Json) (work : DirectoryTx W → Exec W A) where
  -- The store invoked the callback once, with an object that has every method; the computation answered
  -- `a` and left `work_to`; the store was handed a snapshot of it and resolved to `envelope`.
  pub record Ran (first : Run W) (c : Closure W) (a : A) (envelope : Value) (d : Closure W)
      : Type 0 where
    pub raw : RawTx W
    pub begun : W
    pub next : Result Json → W → Run W
    pub work_to : Closure W
    pub handed : Json
    pub after : W
    pub invoked : first ≡ invokes raw begun next
    pub methods : all raw.is_method tx_keys ≡ true
    pub answer : work raw.methods (record c { world = begun }) ≡ (ok a, work_to)
    pub sent : snapshot (value_of (json a)) storage_unavailable 0 ≡ ok handed
    pub only_once : next (ok handed) work_to.world ≡ resolves envelope after
    pub ended : d ≡ record work_to { world = after }

  entered-failed :
      (fit : Bool) (raw : RawTx W) (c : Closure W) (l : Locals A)
      → fit ≡ false
      → ((entered json fit work raw c l).2.failed ≡ true)
        × ((entered json fit work raw c l).2.invoked ≡ true)
  unfolding entered
  entered-failed true raw c l e = cc
  entered-failed false raw c l e = (refl, refl)

  -- A failed call stays failed.
  run-failed :
      (r : Run W) (c : Closure W) (l : Locals A)
      → l.invoked ≡ true
      → l.failed ≡ true
      → (run json r work c l).2.failed ≡ true
  unfolding run callback
  run-failed (resolves raw w) c l was bad = bad
  run-failed (throws w) c l was bad = bad
  run-failed (invokes raw w next) c l was bad =
      let (bad', was') =
        entered-failed (not l.invoked && all raw.is_method tx_keys) raw (record c { world = w }) l
          (ground (arith, was)) in
      run-failed (next _ _) _ _ was' bad'

  -- A call that has not failed in the end has not invoked the callback again.
  module _ (envelope : Value) where
    record Resolved (r : Run W) (c : Closure W) (l : Locals A) : Type 0 where
      pub after : W
      pub is_end : r ≡ resolves envelope after
      pub ended : (run json r work c l).1 ≡ record c { world = after }
      pub kept : (run json r work c l).2 ≡ l

    run-Resolved :
        (r : Run W) (c : Closure W) (l : Locals A)
        → l.invoked ≡ true
        → (run json r work c l).0 ≡ resolved envelope
        → (run json r work c l).2.failed ≡ false
        → Resolved r c l
    unfolding run callback
    run-Resolved (resolves raw w) c l was e fine =
        let same : raw ≡ envelope = cc in
        record { after = w; is_end = ap (λ x. resolves x w) same; ended = refl; kept = refl }
    run-Resolved (throws w) c l was e fine = cc
    run-Resolved (invokes raw w next) c l was e fine =
        let (bad', was') =
          entered-failed (not l.invoked && all raw.is_method tx_keys) raw (record c { world = w }) l
            (ground (arith, was)) in
        absurd (contradiction fine (run-failed (next _ _) _ _ was' bad'))

  module _ (raw : RawTx W) (begun : W) (next : Result Json → W → Run W) (c : Closure W) (a : A)
      (envelope : Value) where
    abbrev rest : Result Json × Closure W × Locals A → Settled × Closure W × Locals A
    rest t = run json (next t.0 t.1.world) work t.1 t.2

    -- The rest of the run resolves, has not failed and expects `a`.
    record IsSound (t : Settled × Closure W × Locals A) : Type 0 where
      resolves_to : t.0 ≡ resolved envelope
      not_failed : t.2.failed ≡ false
      expects : t.2.expected ≡ some a

    detached-Ran :
        (handed : Result Json) (a' : A) (work_to : Closure W) (l : Locals A)
        → snapshot (value_of (json a')) storage_unavailable 0 ≡ handed
        → all raw.is_method tx_keys ≡ true
        → work raw.methods (record c { world = begun }) ≡ (ok a', work_to)
        → l.invoked ≡ true
        → l.expected ≡ some a'
        → IsSound (rest (detached json handed work_to l))
        → Ran (invokes raw begun next) c a envelope (rest (detached json handed work_to l)).1
    unfolding detached
    detached-Ran (err e) a' work_to l sent methods answer was expected sound =
        absurd (contradiction sound.not_failed (run-failed (next _ _) _ _ was refl))
    detached-Ran (ok handed) a' work_to l sent methods answer was expected sound =
        let end =
          run-Resolved envelope (next (ok handed) work_to.world) work_to l was sound.resolves_to
            sound.not_failed in
        let expects = ap (λ (x : Locals A). x.expected) end.kept in
        let same : a' ≡ a = cc (expects, sound.expects, expected) in
        record {
          raw = raw;
          begun = begun;
          next = next;
          work_to = work_to;
          handed = handed;
          after = end.after;
          invoked = refl;
          methods = methods;
          answer =
              subst (λ x. work raw.methods (record c { world = begun }) ≡ (ok x, work_to)) same
                answer;
          sent =
              subst (λ x. snapshot (value_of (json x)) storage_unavailable 0 ≡ ok handed) same sent;
          only_once = end.is_end;
          ended = end.ended;
        }

    concluded-Ran :
        (r : Result A × Closure W) (l : Locals A)
        → work raw.methods (record c { world = begun }) ≡ r
        → all raw.is_method tx_keys ≡ true
        → l.invoked ≡ true
        → IsSound (rest (concluded json r l))
        → Ran (invokes raw begun next) c a envelope (rest (concluded json r l)).1
    unfolding concluded
    concluded-Ran (err e, work_to) l answer methods was sound =
        absurd (contradiction sound.not_failed (run-failed (next _ _) _ _ was refl))
    concluded-Ran (ok a', work_to) l answer methods was sound =
        detached-Ran _ a' work_to _ refl methods answer was refl sound

    entered-Ran :
        (fit : Bool)
        → (fit ≡ true → all raw.is_method tx_keys ≡ true)
        → IsSound (rest (entered json fit work raw (record c { world = begun }) unstarted))
        → Ran
            (invokes raw begun next)
            c
            a
            envelope
            (rest (entered json fit work raw (record c { world = begun }) unstarted)).1
    unfolding entered
    entered-Ran true methods sound = concluded-Ran _ _ refl (methods refl) refl sound
    entered-Ran false methods sound =
        absurd (contradiction sound.not_failed (run-failed (next _ _) _ _ refl refl))

  pub first-Ran :
      (r : Run W) (c : Closure W) (a : A) (envelope : Value)
      → (run json r work c unstarted).0 ≡ resolved envelope
      → (run json r work c unstarted).2.failed ≡ false
      → (run json r work c unstarted).2.expected ≡ some a
      → Ran r c a envelope (run json r work c unstarted).1
  unfolding run callback
  first-Ran (resolves raw w) c a envelope e fine expected = cc
  first-Ran (throws w) c a envelope e fine expected = cc
  first-Ran (invokes raw w next) c a envelope e fine expected =
      entered-Ran raw w next c a envelope (not false && all raw.is_method tx_keys)
        (λ h. ground (arith, h)) (record { resolves_to = e; not_failed = fine; expects = expected })
