-- ===== src/Core/Exec/After.antt =====
-- What holds after a call of auth/src/core/auth-core.ts that returns, with a rule for each way to
-- build one.
use nestjs_yalc.Prelude.{◌≡◌, refl, ap, subst, Bool, true, false, Option, none, some}
use nestjs_yalc.Core.Errors.{AuthErrorCode, storage_unavailable, Result, ok, err, ok-injective}
use nestjs_yalc.Core.Exec.{
  Exec, Port, pure, raise, lift, choose, answered, port, port_call, cases, continue, ◌>>=◌, require,
}

-- Whenever the call, begun in this world, returns a value, the value and the world satisfy `Q`.
pub record After {W A : Type 0} (m : Exec W A) (w : W) (Q : A → W → Type 0) : Type 0 where
  pub holds : {a : A} {v : W} → m w ≡ (ok a, v) → Q a v

-- A pair of equations as one of the result and one of the world.
module _ {W A : Type 0} {r : Result A} {w v : W} {a : A}
    (e : ◌≡◌ {A = Result A × W} (r, w) (ok a, v)) where
  result_of : r ≡ ok a
  result_of = ap (λ (p : Result A × W). p.0) e

  world_of : w ≡ v
  world_of = ap (λ (p : Result A × W). p.1) e

continue-eq-ok :
    {W A B : Type 0} (r : Result A) (f : A → Exec W B) (w : W) {b : B} {v : W}
    → continue r f w ≡ (ok b, v)
    → (a : A) × (r ≡ ok a) × (f a w ≡ (ok b, v))
continue-eq-ok (ok a) f w e = (a, refl, e)
continue-eq-ok (err code) f w e = let bad = result_of e in cc

bind-eq-ok :
    {W A B : Type 0} (m : Exec W A) (f : A → Exec W B) (w : W) {b : B} {v : W}
    → (m >>= f) w ≡ (ok b, v)
    → (a : A) × (u : W) × (m w ≡ (ok a, u)) × (f a u ≡ (ok b, v))
unfolding ◌>>=◌
bind-eq-ok m f w e =
    let (a, e₁, e₂) = continue-eq-ok (m w).0 f (m w).1 e in (a, (m w).1, (λ i. (e₁ i, (m w).1)), e₂)

answered-eq-ok :
    {A : Type 0} (answer : Option A) (code : AuthErrorCode) {a : A}
    → answered answer code ≡ ok a
    → answer ≡ some a
answered-eq-ok none code e = cc
answered-eq-ok (some b) code e = cc

pub bind_after :
    {W A B : Type 0} {m : Exec W A} {f : A → Exec W B} {w : W} {Q : B → W → Type 0}
    → After m w (λ a u. After (f a) u Q)
    → After (m >>= f) w Q
bind_after {m = m} {f} {w} first = record {
  holds = λ e. let (a, u, e₁, e₂) = bind-eq-ok m f w e in (first.holds e₁).holds e₂;
}

module _ {W A : Type 0} {w : W} {Q : A → W → Type 0} where
  -- The rule for a call about which nothing else is known.
  pub exact_after : {m : Exec W A} → ((a : A) (v : W) → m w ≡ (ok a, v) → Q a v) → After m w Q
  exact_after q = record { holds = λ {a} {v} e. q a v e }

  pub lift_after : (r : Result A) → ((a : A) → r ≡ ok a → Q a w) → After (lift r) w Q
  unfolding lift
  lift_after r q = record { holds = λ {a} e. subst (λ v. Q a v) (world_of e) (q a (result_of e)) }

  pub pure_after : (a : A) → Q a w → After (pure a) w Q
  unfolding pure
  pure_after a q = record {
    holds = λ {a = b} e.
        let same : a ≡ b = ok-injective (result_of e) in
        subst (λ (p : A × W). Q p.0 p.1) (λ i. (same i, world_of e i)) q;
  }

  pub raise_after : (code : AuthErrorCode) → After (raise code) w Q
  unfolding raise
  raise_after code = record { holds = λ e. let bad = result_of e in absurd (cc) }

  pub choose_after :
      (b : Bool) (m n : Exec W A)
      → (b ≡ true → After m w Q)
      → (b ≡ false → After n w Q)
      → After (choose b m n) w Q
  unfolding choose
  choose_after true m n on off = on refl
  choose_after false m n on off = off refl

  pub cases_after :
      {B : Type 0} (o : Option B) (m : Exec W A) (f : B → Exec W A)
      → (o ≡ none → After m w Q)
      → ((b : B) → o ≡ some b → After (f b) w Q)
      → After (cases o m f) w Q
  unfolding cases
  cases_after none m f absent present = absent refl
  cases_after (some b) m f absent present = present b refl

  -- What a port answered, and the world after it.
  pub port_after :
      (call : Port W A) (code : AuthErrorCode)
      → ((a : A) (v : W) → call w ≡ (some a, v) → Q a v)
      → After (port call code) w Q
  unfolding port
  port_after call code q = record {
    holds =
        λ {a} {v} e. q a v (λ i. (answered-eq-ok (call w).0 code (result_of e) i, world_of e i));
  }

pub port_call_after :
    {W A : Type 0} {w : W} {Q : A → W → Type 0} (call : Port W A)
    → ((a : A) (v : W) → call w ≡ (some a, v) → Q a v)
    → After (port_call call) w Q
unfolding port_call
port_call_after call q = port_after call storage_unavailable q

pub require_after :
    {W : Type 0} {w : W} {Q : Unit {0} → W → Type 0} (b : Bool) (code : AuthErrorCode)
    → (b ≡ true → Q tt w)
    → After (require b code) w Q
unfolding require
require_after true code q = pure_after tt (q refl)
require_after false code q = raise_after code

-- The rules for the first call of a block.
module _ {W B : Type 0} {w : W} {Q : B → W → Type 0} where
  pub then_lift :
      {A : Type 0} (r : Result A) {f : A → Exec W B}
      → ((a : A) → r ≡ ok a → After (f a) w Q)
      → After (lift r >>= f) w Q
  then_lift r rest = bind_after (lift_after r rest)

  pub then_require :
      (b : Bool) (code : AuthErrorCode) (f : Unit {0} → Exec W B)
      → (b ≡ true → After (f tt) w Q)
      → After (require b code >>= f) w Q
  then_require b code f rest = bind_after (require_after b code rest)

  pub then_port :
      {A : Type 0} (call : Port W A) {f : A → Exec W B}
      → ((a : A) (v : W) → call w ≡ (some a, v) → After (f a) v Q)
      → After (port_call call >>= f) w Q
  then_port call rest = bind_after (port_call_after call rest)
