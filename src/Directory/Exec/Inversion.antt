-- ===== src/Directory/Exec/Inversion.antt =====
-- What a successful action has done, one lemma for each way to build an action.
use nestjs_yalc.Prelude.{◌≡◌, refl, Bool, true, false, Option, none, some, ◌⊎◌, inl, inr, ap}
use nestjs_yalc.Js.Value.{Value}
use nestjs_yalc.Directory.Errors.{ErrorCode, Result, ok, err}
use nestjs_yalc.Directory.Host.{Port}
use nestjs_yalc.Directory.Exec.{
  Closure, Exec, pure, raise, lift, require, cases, continue, ◌>>=◌, port, answered,
}

module _ {W A B : Type 0} where
  continue-eq-ok :
      (r : Result A) (f : A → Exec W B) (c : Closure W) {b : B} {d : Closure W}
      → continue r f c ≡ (ok b, d)
      → (a : A) × (r ≡ ok a) × (f a c ≡ (ok b, d))
  continue-eq-ok (ok a) f c h = (a, refl, h)
  continue-eq-ok (err e) f c h = let bad = ap (λ (p : Result B × Closure W). p.0) h in cc

  pub bind-eq-ok :
      (m : Exec W A) (f : A → Exec W B) (c : Closure W) {b : B} {d : Closure W}
      → (m >>= f) c ≡ (ok b, d)
      → (a : A) × (c' : Closure W) × (m c ≡ (ok a, c')) × (f a c' ≡ (ok b, d))
  unfolding ◌>>=◌
  bind-eq-ok m f c h =
      let (a, e, h') = continue-eq-ok (m c).0 f (m c).1 h in (a, (m c).1, (λ i. (e i, (m c).1)), h')

module _ {W A : Type 0} where
  pub pure-eq-ok :
      (a : A) (c : Closure W) {b : A} {d : Closure W} → pure a c ≡ (ok b, d) → (a ≡ b) × (c ≡ d)
  unfolding pure
  pure-eq-ok a c h =
      let e = ap (λ (p : Result A × Closure W). p.0) h in
      (cc, ap (λ (p : Result A × Closure W). p.1) h)

  pub lift-eq-ok :
      (r : Result A) (c : Closure W) {a : A} {d : Closure W}
      → lift r c ≡ (ok a, d)
      → (r ≡ ok a) × (c ≡ d)
  unfolding lift
  lift-eq-ok r c h =
      (ap (λ (p : Result A × Closure W). p.0) h, ap (λ (p : Result A × Closure W). p.1) h)

  pub raise-ne-ok :
      (code : ErrorCode) (c : Closure W) {a : A} {d : Closure W} → raise code c ≡ (ok a, d) → ⊥
  unfolding raise
  raise-ne-ok code c h = let bad = ap (λ (p : Result A × Closure W). p.0) h in cc

pub require-eq-ok :
    {W : Type 0} (b : Bool) (code : ErrorCode) (c : Closure W) {u : Unit {0}} {d : Closure W}
    → require b code c ≡ (ok u, d)
    → (b ≡ true) × (c ≡ d)
unfolding lift
require-eq-ok {W} true code c h = (refl, ap (λ (p : Result (Unit {0}) × Closure W). p.1) h)
require-eq-ok {W} false code c h = let bad = ap (λ (p : Result (Unit {0}) × Closure W). p.0) h in cc

pub cases-eq-ok :
    {W A B : Type 0} (o : Option B) (m : Exec W A) (f : B → Exec W A) (c : Closure W) {a : A}
    {d : Closure W}
    → cases o m f c ≡ (ok a, d)
    → ((o ≡ none) × (m c ≡ (ok a, d))) ⊎ ((b : B) × (o ≡ some b) × (f b c ≡ (ok a, d)))
unfolding cases
cases-eq-ok none m f c h = inl (refl, h)
cases-eq-ok (some b) m f c h = inr (b, refl, h)

answered-eq-ok :
    (answer : Option Value) (code : ErrorCode) {v : Value}
    → answered answer code ≡ ok v
    → answer ≡ some v
answered-eq-ok none code h = cc
answered-eq-ok (some w) code h = cc

pub port-eq-ok :
    {W : Type 0} (call : Port W) (code : ErrorCode) (c : Closure W) {v : Value} {d : Closure W}
    → port call code c ≡ (ok v, d)
    → ((call c.world).0 ≡ some v) × (record c { world = (call c.world).1 } ≡ d)
unfolding port
port-eq-ok {W} call code c h = (
  answered-eq-ok (call c.world).0 code (ap (λ (p : Result Value × Closure W). p.0) h),
  ap (λ (p : Result Value × Closure W). p.1) h,
)
