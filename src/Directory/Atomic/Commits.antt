-- ===== src/Directory/Atomic/Commits.antt =====
-- What the store has done when `atomic` of auth/src/directory/directory-core.ts returns a value.
use nestjs_yalc.Prelude.{
  ◌≡◌, refl, subst, ap, Bool, true, false, some, arith, not, ◌&&◌, ◌==◌, List, String,
}
use nestjs_yalc.Js.Json.{Json, canonical}
use nestjs_yalc.Js.Value.{Value}
use nestjs_yalc.Directory.Errors.{aborted, fresh, type_error, Result, ok, err, commit_unknown}
use nestjs_yalc.Directory.Host.{Host, DirectoryTx, Run}
use nestjs_yalc.Directory.Exec.{Closure, Exec}
use nestjs_yalc.Directory.Validation.Shapes.{snapshot, data_of, get}
use nestjs_yalc.Directory.Atomic.{
  Locals, unstarted, Settled, resolved, threw, run, is_text, decided, judged, envelope_keys,
  believed, settled, atomic,
}
use nestjs_yalc.Directory.Atomic.Outcome.{evidence_sound}
use nestjs_yalc.Directory.Atomic.Runs.{Ran, first-Ran}

module _ {W A : Type 0} (json : A → Json) (work : DirectoryTx W → Exec W A) where
  -- The envelope says that a value was committed, whose canonical JSON text is that of `a`.
  pub record Says (envelope : Value) (a : A) : Type 0 where
    pub fields : List (String × Value)
    pub observed : Json
    pub read : data_of envelope (envelope_keys envelope) commit_unknown ≡ ok fields
    pub status : is_text "committed" (some (get "status" fields)) ≡ true
    pub taken : snapshot (get "value" fields) commit_unknown 0 ≡ ok observed
    pub same : (canonical observed == canonical (json a)) ≡ true

  pub record Committed (first : Run W) (c : Closure W) (a : A) (d : Closure W) : Type 0 where
    pub envelope : Value
    pub ran : Ran json work first c a envelope d
    pub says : Says envelope a

  -- What is believed of the outcome of a run.
  record Believed (s : Settled × Closure W × Locals A) (a : A) (d : Closure W) : Type 0 where
    envelope : Value
    resolves_to : s.0 ≡ resolved envelope
    same_closure : s.1 ≡ d
    expects : s.2.expected ≡ some a
    not_failed : s.2.failed ≡ false
    says : Says envelope a

  module _ (a : A) (d : Closure W) where
    believed-eq-ok :
        (r : Result A) (c : Closure W) → believed r c ≡ (ok a, d) → (r ≡ ok a) × (c ≡ d)
    unfolding believed
    believed-eq-ok (ok b) c e =
        (ap (λ (p : Result A × Closure W). p.0) e, ap (λ (p : Result A × Closure W). p.1) e)
    believed-eq-ok (err (aborted code)) c e =
        let bad = ap (λ (p : Result A × Closure W). p.0) e in absurd (cc)
    believed-eq-ok (err (fresh code)) c e =
        let bad = ap (λ (p : Result A × Closure W). p.0) e in absurd (cc)
    believed-eq-ok (err type_error) c e =
        let bad = ap (λ (p : Result A × Closure W). p.0) e in absurd (cc)

    decided-Says :
        (abort committed : Bool) (envelope : Value) (fields : List (String × Value)) (l : Locals A)
        → data_of envelope (envelope_keys envelope) commit_unknown ≡ ok fields
        → is_text "committed" (some (get "status" fields)) ≡ committed
        → decided json abort committed (get "value" fields) l ≡ ok a
        → (l.expected ≡ some a) × (l.failed ≡ false) × Says envelope a
    unfolding decided
    decided-Says true committed envelope fields l read status e = cc
    decided-Says false false envelope fields l read status e = cc
    decided-Says false true envelope fields l read status e =
        let (expected, sound, (observed, taken, same)) =
          evidence_sound json work l.expected (l.completed && not l.failed) (get "value" fields) a
            e in
        (
          expected,
          ground (arith, sound),
          record {
            fields = fields;
            observed = observed;
            read = read;
            status = status;
            taken = taken;
            same = same;
          },
        )

    judged-Says :
        (o : Result (List (String × Value))) (envelope : Value) (l : Locals A)
        → data_of envelope (envelope_keys envelope) commit_unknown ≡ o
        → judged json o l ≡ ok a
        → (l.expected ≡ some a) × (l.failed ≡ false) × Says envelope a
    unfolding judged
    judged-Says (err e) envelope l read h = cc
    judged-Says (ok fields) envelope l read h = decided-Says _ _ envelope fields l read refl h

    settled-Believed :
        (s : Settled × Closure W × Locals A) → settled json s ≡ (ok a, d) → Believed s a d
    unfolding settled
    settled-Believed (threw, c, l) e =
        let bad = ap (λ (p : Result A × Closure W). p.0) e in absurd (cc)
    settled-Believed (resolved envelope, c, l) e =
        let (judgement, end) = believed-eq-ok _ c e in
        let (expected, fine, says) = judged-Says _ envelope l refl judgement in
        record {
          envelope = envelope;
          resolves_to = refl;
          same_closure = end;
          expects = expected;
          not_failed = fine;
          says = says;
        }

  -- If `atomic` returns a value: in this call the store invoked the callback exactly once, with an
  -- object that has every method, the callback computed this value there, and the store was handed a
  -- snapshot of it; then the store resolved to an envelope that says that a value was committed whose
  -- canonical JSON text is that of the computed one; and only the world of the closure that the
  -- callback left has changed since.
  pub atomic-Committed :
      (h : Host W) (c : Closure W) {a : A} {d : Closure W}
      → atomic json h work c ≡ (ok a, d)
      → Committed (h.transaction c.world) c a d
  unfolding atomic
  atomic-Committed h c {a} {d} e =
      let b = settled-Believed a d (run json (h.transaction c.world) work c unstarted) e in
      record {
        envelope = b.envelope;
        ran =
            subst (λ x. Ran json work (h.transaction c.world) c a b.envelope x) b.same_closure
              (first-Ran json work (h.transaction c.world) c a b.envelope b.resolves_to b.not_failed
                b.expects);
        says = b.says;
      }
