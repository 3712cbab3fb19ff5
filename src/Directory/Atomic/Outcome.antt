-- ===== src/Directory/Atomic/Outcome.antt =====
-- What `atomic` of auth/src/directory/directory-core.ts returns and leaves behind, for any store.
use nestjs_yalc.Prelude.{
  ◌≡◌, refl, ◌⊎◌, inl, inr, Bool, true, false, Option, none, some, arith, all, subst, ap, not, ◌&&◌,
  ◌==◌, List, String,
}
use nestjs_yalc.Js.Json.{Json, canonical}
use nestjs_yalc.Js.Value.{Value}
use nestjs_yalc.Directory.Errors.{
  ErrorCode, Fault, fresh, aborted, type_error, Result, ok, err, commit_unknown,
  storage_unavailable, check, >>=-eq-ok, check-eq-ok, >>=-eq-err, check-eq-err,
}
use nestjs_yalc.Directory.Host.{Host, DirectoryTx, Run, RawTx, resolves, throws, invokes}
use nestjs_yalc.Directory.Exec.{Closure, Exec}
use nestjs_yalc.Directory.Validation.Shapes.{value_of, snapshot, data_of}
use nestjs_yalc.Directory.Validation.Shapes.Snapshots.{snapshot-err}
use nestjs_yalc.Directory.Atomic.{
  Locals, unstarted, Settled, resolved, threw, tx_keys, detached, concluded, entered, callback, run,
  evidence, decided, judged, mark, envelope_keys, believed, settled, atomic,
}

module _ {W A : Type 0} (json : A → Json) (work : DirectoryTx W → Exec W A) where
  -- The store, asked in a world, first invoked the callback with an object that has every method, in
  -- some world of its own, and there the computation, at the closure `c`, answered `r`.
  pub record Answered (first : Run W) (c : Closure W) (r : Result A) : Type 0 where
    pub raw : RawTx W
    pub begun : W
    pub next : Result Json → W → Run W
    pub invoked : first ≡ invokes raw begun next
    pub methods : all raw.is_method tx_keys ≡ true
    pub answer : (work raw.methods (record c { world = begun })).0 ≡ r

  -- Where the fault of a callback comes from: `work`, or a check around it.
  abbrev Blamed : Run W → Closure W → Fault → Type 0
  Blamed first c e = (e ≡ fresh storage_unavailable) ⊎ Answered first c (err e)

  -- A callback that was called is known to have been.
  detached-invoked :
      (r : Result Json) (c : Closure W) (l : Locals A) → (detached json r c l).2.invoked ≡ l.invoked
  unfolding detached
  detached-invoked (ok j) c l = refl
  detached-invoked (err e) c l = refl

  concluded-invoked :
      (r : Result A × Closure W) (l : Locals A) → (concluded json r l).2.invoked ≡ l.invoked
  unfolding concluded
  concluded-invoked (ok a, c) l = detached-invoked _ c _
  concluded-invoked (err e, c) l = refl

  entered-invoked :
      (fit : Bool) (raw : RawTx W) (c : Closure W) (l : Locals A)
      → (entered json fit work raw c l).2.invoked ≡ true
  unfolding entered
  entered-invoked true raw c l = concluded-invoked (work raw.methods c) _
  entered-invoked false raw c l = refl

  module _ (first : Run W) (start : Closure W) where
    record IsBacked (l : Locals A) : Type 0 where
      value : (a : A) → l.expected ≡ some a → Answered first start (ok a)
      fault : (e : Fault) → l.callback_error ≡ some e → Blamed first start e

    detached-IsBacked :
        (r : Result Json) (c : Closure W) (l : Locals A)
        → ((e : Fault) → r ≡ err e → e ≡ fresh storage_unavailable)
        → IsBacked l
        → IsBacked (detached json r c l).2
    unfolding detached
    detached-IsBacked (ok j) c l only back = back
    detached-IsBacked (err e) c l only back = record {
      value = back.value;
      fault = λ e' h. inl (let same = only e refl in cc);
    }

    concluded-IsBacked :
        (r : Result A × Closure W) (l : Locals A)
        → Answered first start r.0
        → IsBacked l
        → IsBacked (concluded json r l).2
    unfolding concluded
    concluded-IsBacked (ok a, c) l by back =
        detached-IsBacked _ c _ (λ e h. snapshot-err (value_of (json a)) storage_unavailable e 0 h)
          (record {
            value =
                λ a' h. let same : a ≡ a' = cc in subst (λ x. Answered first start (ok x)) same by;
            fault = back.fault;
          })
    concluded-IsBacked (err e, c) l by back = record {
      value = back.value;
      fault =
          λ e' h. let same : e ≡ e' = cc in inr (subst (λ x. Answered first start (err x)) same by);
    }

    entered-IsBacked :
        (fit : Bool) (raw : RawTx W) (c : Closure W) (l : Locals A)
        → (fit ≡ true → Answered first start (work raw.methods c).0)
        → IsBacked l
        → IsBacked (entered json fit work raw c l).2
    unfolding entered
    entered-IsBacked true raw c l by back =
        concluded-IsBacked (work raw.methods c) _ (by refl)
          (record { value = back.value; fault = back.fault })
    entered-IsBacked false raw c l by back = record { value = back.value; fault = λ e h. inl (cc) }

    -- The computation is not begun again.
    again-IsBacked :
        (r : Run W) (c : Closure W) (l : Locals A)
        → l.invoked ≡ true
        → IsBacked l
        → IsBacked (run json r work c l).2
    unfolding run callback
    again-IsBacked (resolves raw w) c l was back = back
    again-IsBacked (throws w) c l was back = back
    again-IsBacked (invokes raw w next) c l was back =
        again-IsBacked (next _ _) _ _ (entered-invoked _ raw (record c { world = w }) l) (
          entered-IsBacked _ raw (record c { world = w }) l (λ h. absurd (ground (arith, h, was)))
            back)

  first-IsBacked : (r : Run W) (c : Closure W) → IsBacked r c (run json r work c unstarted).2
  unfolding run callback
  first-IsBacked (resolves raw w) c = record { value = λ a p. cc; fault = λ e p. cc }
  first-IsBacked (throws w) c = record { value = λ a p. cc; fault = λ e p. cc }
  first-IsBacked (invokes raw w next) c =
      let start = record c { world = w } in
      again-IsBacked (invokes raw w next) c (next _ _) _ _ (entered-invoked _ raw start unstarted) (
        entered-IsBacked (invokes raw w next) c _ raw start unstarted
          (λ h. record {
            raw = raw;
            begun = w;
            next = next;
            invoked = refl;
            methods = ground (arith, h);
            answer = refl;
          })
          (record { value = λ a p. cc; fault = λ e p. cc }))

  -- What the caller of `atomic` learns. A value was computed by the callback; an abort has the code of
  -- the callback's fault or of a check around it; all else is commit_unknown, and fences the facade.
  abbrev pub Explained : Run W → Closure W → Result A → Closure W → Type 0
  Explained first c (ok a) d = Answered first c (ok a)
  Explained first c (err (aborted code)) d =
      (code ≡ storage_unavailable)
      ⊎ Answered first c (err (fresh code))
      ⊎ Answered first c (err (aborted code))
  Explained first c (err (fresh code)) d = (code ≡ commit_unknown) × (d.fenced ≡ true)
  Explained first c (err type_error) d = ⊥

  -- An accepted value is the expected one, the test of the callback's end is true, and the store's value
  -- has the same canonical JSON text.
  pub evidence_sound :
      (expected : Option A) (sound : Bool) (value : Value) (a : A)
      → evidence json expected sound value ≡ ok a
      → (expected ≡ some a)
        × (sound ≡ true)
        × ((j : Json) × (snapshot value commit_unknown 0 ≡ ok j)
            × ((canonical j == canonical (json a)) ≡ true))
  unfolding evidence
  evidence_sound none sound value a h = cc
  evidence_sound (some b) sound value a h =
      let (fine, h₁) = check-eq-ok sound commit_unknown _ h in
      let (j, taken, h₂) = >>=-eq-ok (snapshot value commit_unknown 0) _ h₁ in
      let (same, h₃) = check-eq-ok (canonical j == canonical (json b)) commit_unknown _ h₂ in
      let e : b ≡ a = cc in
      (ap some e, fine, (j, taken, subst (λ x. (canonical j == canonical (json x)) ≡ true) e same))

  evidence-err :
      (expected : Option A) (sound : Bool) (value : Value) (e : Fault)
      → evidence json expected sound value ≡ err e
      → e ≡ fresh commit_unknown
  unfolding evidence
  evidence-err none sound value e h = cc
  evidence-err (some a) sound value e h =
      >>=-eq-err (check sound commit_unknown) _ h (check-eq-err sound commit_unknown) λ _ h₁.
        >>=-eq-err (snapshot value commit_unknown 0) _ h₁ (snapshot-err value commit_unknown e 0)
          λ j h₂.
            >>=-eq-err (check (canonical j == canonical (json a)) commit_unknown) _ h₂
              (check-eq-err (canonical j == canonical (json a)) commit_unknown) (λ _ h₃. cc)

  module _ (first : Run W) (start : Closure W) where
    mark-Explained :
        (o : Option Fault) (d : Closure W)
        → ((e : Fault) → o ≡ some e → Blamed first start e)
        → Explained first start (err (mark o)) d
    mark-Explained none d blame = inl refl
    mark-Explained (some (fresh code)) d blame = elim (blame (fresh code) refl) [
      | inl e ↦ inl (cc)
      | inr raised ↦ inr (inl raised)
    ]
    mark-Explained (some (aborted code)) d blame = elim (blame (aborted code) refl) [
      | inl e ↦ inl (cc)
      | inr raised ↦ inr (inr raised)
    ]
    mark-Explained (some type_error) d blame = inl refl

    believed-Explained :
        (r : Result A) (d : Closure W)
        → ((a : A) → r ≡ ok a → Answered first start (ok a))
        → ((e : Fault)
            → r ≡ err e
            → (code : ErrorCode) → e ≡ aborted code
            → Explained first start r d)
        → Explained first start (believed r d).0 (believed r d).1
    unfolding believed
    believed-Explained (ok a) d good bad = good a refl
    believed-Explained (err (aborted code)) d good bad = bad (aborted code) refl code refl
    believed-Explained (err (fresh code)) d good bad = (refl, refl)
    believed-Explained (err type_error) d good bad = (refl, refl)

    decided-Explained :
        (abort committed : Bool) (value : Value) (l : Locals A) (d : Closure W)
        → IsBacked first start l
        → Explained first start
            (believed (decided json abort committed value l) d).0
            (believed (decided json abort committed value l) d).1
    unfolding decided
    decided-Explained true committed value l d back =
        believed-Explained (err (mark l.callback_error)) d (λ a h. cc)
          (λ e h code g. mark-Explained l.callback_error d back.fault)
    decided-Explained false true value l d back =
        let sound = l.completed && not l.failed in
        believed-Explained (evidence json l.expected sound value) d
          (λ a h. back.value a (evidence_sound l.expected sound value a h).0)
          λ e h code g.
            let plain : e ≡ fresh commit_unknown = evidence-err l.expected sound value e h in cc
    decided-Explained false false value l d back =
        believed-Explained (err (fresh commit_unknown)) d (λ a h. cc) (λ e h code g. cc)

    judged-Explained :
        (r : Result (List (String × Value))) (l : Locals A) (d : Closure W)
        → IsBacked first start l
        → Explained first start (believed (judged json r l) d).0 (believed (judged json r l) d).1
    unfolding judged believed
    judged-Explained (err e) l d back = (refl, refl)
    judged-Explained (ok envelope) l d back = decided-Explained _ _ _ l d back

    settled-Explained :
        (s : Settled × Closure W × Locals A)
        → IsBacked first start s.2
        → Explained first start (settled json s).0 (settled json s).1
    unfolding settled
    settled-Explained (threw, d, l) back = (refl, refl)
    settled-Explained (resolved raw, d, l) back =
        judged-Explained (data_of raw (envelope_keys raw) commit_unknown) l d back

  -- With any store: a result of `atomic` was computed by the callback, when the store first invoked it
  -- in this call, with an object that has every method; a confirmed abort has the code of the fault that
  -- the callback raised there, or storage_unavailable; and every other outcome is commit_unknown with
  -- the facade fenced.
  pub atomic-Explained :
      (h : Host W) (c : Closure W)
      → Explained (h.transaction c.world) c (atomic json h work c).0 (atomic json h work c).1
  unfolding atomic
  atomic-Explained h c =
      settled-Explained (h.transaction c.world) c
        (run json (h.transaction c.world) work c unstarted)
        (first-IsBacked (h.transaction c.world) c)
