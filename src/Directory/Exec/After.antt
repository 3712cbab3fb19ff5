-- ===== src/Directory/Exec/After.antt =====
-- What holds after an action that succeeds, with a rule for each way to build an action.
use nestjs_yalc.Prelude.{◌≡◌, refl, ap, subst, Bool, true, false, Option, none, some}
use nestjs_yalc.Directory.Errors.{ErrorCode, Fault, Result, ok}
use nestjs_yalc.Directory.Host.{Port}
use nestjs_yalc.Js.Value.{Value}
use nestjs_yalc.Directory.Exec.{
  Closure, Exec, pure, raise, rethrow, lift, require, choose, cases, ◌>>=◌, port, require_unfenced,
}
use nestjs_yalc.Directory.Exec.Inversion.{
  bind-eq-ok, pure-eq-ok, lift-eq-ok, require-eq-ok, raise-ne-ok, port-eq-ok,
}
use nestjs_yalc.Directory.Evolves.{Evolves, IsSafe}

-- Whenever the action, begun at this closure, returns a value, the value and the closure satisfy `Q`.
pub record After {W A : Type 0} (m : Exec W A) (c : Closure W) (Q : A → Closure W → Type 0)
    : Type 0 where
  pub holds : {a : A} {d : Closure W} → m c ≡ (ok a, d) → Q a d

module _ {W A : Type 0} {c : Closure W} {Q : A → Closure W → Type 0} where
  pub pure_after : (a : A) → Q a c → After (pure a) c Q
  pure_after a q = record {
    holds = λ e.
        let (same, end) = pure-eq-ok a c e in
        subst (λ (p : A × Closure W). Q p.0 p.1) (λ i. (same i, end i)) q;
  }

  pub lift_after : (r : Result A) → ((a : A) → r ≡ ok a → Q a c) → After (lift r) c Q
  lift_after r q = record {
    holds = λ {a} e. let (same, end) = lift-eq-ok r c e in subst (λ d. Q a d) end (q a same);
  }

  pub raise_after : (code : ErrorCode) → After (raise code) c Q
  raise_after code = record { holds = λ e. absurd (raise-ne-ok code c e) }

  pub rethrow_after : (e : Fault) → After (rethrow e) c Q
  unfolding rethrow
  rethrow_after e = record {
    holds = λ h. let bad = ap (λ (p : Result A × Closure W). p.0) h in absurd (cc);
  }

  pub choose_after :
      (b : Bool) (m n : Exec W A)
      → (b ≡ true → After m c Q)
      → (b ≡ false → After n c Q)
      → After (choose b m n) c Q
  unfolding choose
  choose_after true m n on off = on refl
  choose_after false m n on off = off refl

  -- Of an action that is known to be safe, only that.
  pub any_after :
      {m : Exec W A} → IsSafe m → ((a : A) (d : Closure W) → Evolves c d → Q a d) → After m c Q
  any_after safe q = record {
    holds = λ {a} {d} e. q a d (subst (λ p. Evolves c p.1) e (safe.at c));
  }

pub bind_after :
    {W A B : Type 0} {m : Exec W A} {f : A → Exec W B} {c : Closure W} {Q : B → Closure W → Type 0}
    → After m c (λ a c'. After (f a) c' Q)
    → After (m >>= f) c Q
bind_after {m = m} {f} {c} first = record {
  holds = λ e. let (a, c', e₁, e₂) = bind-eq-ok m f c e in (first.holds e₁).holds e₂;
}

pub require_after :
    {W : Type 0} {c : Closure W} {Q : Unit {0} → Closure W → Type 0} (b : Bool) (code : ErrorCode)
    → (b ≡ true → Q tt c)
    → After (require b code) c Q
require_after {c = c} {Q} b code q = record {
  holds = λ e. let (on, end) = require-eq-ok b code c e in subst (λ d. Q tt d) end (q on);
}

pub cases_after :
    {W A B : Type 0} {c : Closure W} {Q : A → Closure W → Type 0} (o : Option B) (m : Exec W A)
    (f : B → Exec W A)
    → (o ≡ none → After m c Q)
    → ((b : B) → o ≡ some b → After (f b) c Q)
    → After (cases o m f) c Q
unfolding cases
cases_after none m f absent present = absent refl
cases_after (some b) m f absent present = present b refl

-- The rules for the first action of a block, with the rest of the block last.
module _ {W B : Type 0} {c : Closure W} {Q : B → Closure W → Type 0} where
  pub then_any :
      {A : Type 0} {m : Exec W A} {f : A → Exec W B}
      → IsSafe m
      → ((a : A) (d : Closure W) → Evolves c d → After (f a) d Q)
      → After (m >>= f) c Q
  then_any safe rest = bind_after (any_after safe rest)

  pub then_lift :
      {A : Type 0} (r : Result A) {f : A → Exec W B}
      → ((a : A) → r ≡ ok a → After (f a) c Q)
      → After (lift r >>= f) c Q
  then_lift r rest = bind_after (lift_after r rest)

  pub then_require :
      (b : Bool) (code : ErrorCode) (f : Unit {0} → Exec W B)
      → (b ≡ true → After (f tt) c Q)
      → After (require b code >>= f) c Q
  then_require b code f rest = bind_after (require_after b code rest)

pub then_port :
    {W B : Type 0} {c : Closure W} {Q : B → Closure W → Type 0} (call : Port W) (code : ErrorCode)
    {f : Value → Exec W B}
    → ((v : Value)
        → (call c.world).0 ≡ some v
        → After (f v) (record c { world = (call c.world).1 }) Q)
    → After (port call code >>= f) c Q
then_port {c = c} {Q} call code {f} rest = bind_after (record {
  holds = λ {a} e.
      let (answer, end) = port-eq-ok call code c e in
      subst (λ d. After (f a) d Q) end (rest a answer);
})

-- The rule for an action about which nothing else is known.
pub exact_after :
    {W A : Type 0} {m : Exec W A} {c : Closure W} {Q : A → Closure W → Type 0}
    → ((a : A) (d : Closure W) → m c ≡ (ok a, d) → Q a d)
    → After m c Q
exact_after q = record { holds = λ {a} {d} e. q a d e }

-- The same rule for the first action of a block.
pub then_run :
    {W A B : Type 0} {c : Closure W} {Q : B → Closure W → Type 0} (m : Exec W A) {f : A → Exec W B}
    → ((a : A) (d : Closure W) → m c ≡ (ok a, d) → After (f a) d Q)
    → After (m >>= f) c Q
then_run m {f} rest = bind_after {m = m} {f = f} (exact_after rest)

-- An action that goes on only if the facade is not fenced begins where it is.
pub then_unfenced :
    {W B : Type 0} {c : Closure W} {Q : B → Closure W → Type 0} (f : Unit {0} → Exec W B)
    → After (f tt) c Q
    → After (require_unfenced >>= f) c Q
unfolding require_unfenced
then_unfenced {W = W} {c = c} {Q} f rest =
    then_run require_unfenced λ u d e.
      subst (λ x. After (f tt) x Q) (ap (λ (p : Result (Unit {0}) × Closure W). p.1) e) rest
