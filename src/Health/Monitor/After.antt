-- ===== src/Health/Monitor/After.antt =====
-- What holds after a call of health/src/monitor.ts that succeeds, with a rule for each way to build one.
use nestjs_yalc.Prelude.{◌≡◌, refl, ap, subst, Option, none, some}
use nestjs_yalc.Health.Monitor.{Act, next, ◌>>=◌, return}

-- Whenever the call answers, the answer and the world after it satisfy `Q`.
pub record After {W A : Type 0} (m : Act W A) (w : W) (Q : A → W → Type 0) : Type 0 where
  pub holds : {a : A} {w' : W} → m w ≡ (some a, w') → Q a w'

next-eq-some :
    {W A B : Type 0} (o : Option A) (f : A → Act W B) (w : W) {b : B} {w' : W}
    → next o f w ≡ (some b, w')
    → (a : A) × (o ≡ some a) × (f a w ≡ (some b, w'))
unfolding next
next-eq-some {W} {A} {B} none f w e = let bad = ap (λ (p : Option B × W). p.0) e in cc
next-eq-some (some a) f w e = (a, refl, e)

bind-eq-some :
    {W A B : Type 0} (m : Act W A) (f : A → Act W B) (w : W) {b : B} {w' : W}
    → (m >>= f) w ≡ (some b, w')
    → (a : A) × (v : W) × (m w ≡ (some a, v)) × (f a v ≡ (some b, w'))
unfolding ◌>>=◌ next
bind-eq-some m f w e =
    let (a, e₁, e₂) = next-eq-some (m w).0 f (m w).1 e in (a, (m w).1, (λ i. (e₁ i, (m w).1)), e₂)

return-eq-some :
    {W A : Type 0} (a : A) (w : W) {b : A} {w' : W} → return a w ≡ (some b, w') → (a ≡ b) × (w ≡ w')
unfolding return
return-eq-some {W} {A} a w h =
    let e = ap (λ (p : Option A × W). p.0) h in (cc, ap (λ (p : Option A × W). p.1) h)

pub bind_after :
    {W A B : Type 0} {m : Act W A} {f : A → Act W B} {w : W} {Q : B → W → Type 0}
    → After m w (λ a v. After (f a) v Q)
    → After (m >>= f) w Q
bind_after {m = m} {f} {w} first = record {
  holds = λ e. let (a, v, e₁, e₂) = bind-eq-some m f w e in (first.holds e₁).holds e₂;
}

-- The rule for a call about which nothing else is known.
pub exact_after :
    {W A : Type 0} {m : Act W A} {w : W} {Q : A → W → Type 0}
    → ((a : A) (v : W) → m w ≡ (some a, v) → Q a v)
    → After m w Q
exact_after q = record { holds = λ {a} {w'} e. q a w' e }

pub return_after :
    {W A : Type 0} {w : W} {Q : A → W → Type 0} (a : A) → Q a w → After (return a) w Q
return_after {W} {A} {w} {Q} a q = record {
  holds = λ e.
      let (same, end) = return-eq-some a w e in
      subst (λ (p : A × W). Q p.0 p.1) (λ i. (same i, end i)) q;
}
