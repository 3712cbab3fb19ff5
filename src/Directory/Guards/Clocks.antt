-- ===== src/Directory/Guards/Clocks.antt =====
-- The guards of auth/src/directory/directory-core.ts that do not read the clock.
use nestjs_yalc.Prelude.{◌≡◌, refl, ap, sym, ◌∙◌, Bool, true, false, Option, String}
use nestjs_yalc.Js.Value.{Value}
use nestjs_yalc.Directory.Errors.{ErrorCode, Result, ok, err}
use nestjs_yalc.Directory.Types.{SessionProfile}
use nestjs_yalc.Directory.Host.{Host, Port, AuthorizedAction}
use nestjs_yalc.Directory.Exec.{Closure, Exec, pure, lift, choose, continue, ◌>>=◌, port}
use nestjs_yalc.Directory.Guards.{provider_enabled, routed, route, require_route, authorize}

-- Whatever it returns, the last accepted time is the same.
record KeepsTime {W A : Type 0} (m : Exec W A) : Type 0 where
  at : (c : Closure W) → (m c).1.last_time ≡ c.last_time

module _ {W A : Type 0} where
  pure-KeepsTime : (a : A) → KeepsTime {W = W} (pure a)
  unfolding pure
  pure-KeepsTime a = record { at = λ c. refl }

  lift-KeepsTime : (r : Result A) → KeepsTime {W = W} (lift r)
  unfolding lift
  lift-KeepsTime r = record { at = λ c. refl }

  choose-KeepsTime :
      (b : Bool) (m n : Exec W A) → KeepsTime m → KeepsTime n → KeepsTime (choose b m n)
  unfolding choose
  choose-KeepsTime true m n p q = p
  choose-KeepsTime false m n p q = q

module _ {W A B : Type 0} where
  continue-KeepsTime :
      (r : Result A) (f : A → Exec W B) (c : Closure W)
      → ((a : A) → KeepsTime (f a))
      → (continue r f c).1.last_time ≡ c.last_time
  continue-KeepsTime (ok a) f c q = (q a).at c
  continue-KeepsTime (err e) f c q = refl

  bind-KeepsTime :
      (m : Exec W A) (f : A → Exec W B)
      → KeepsTime m
      → ((a : A) → KeepsTime (f a))
      → KeepsTime (m >>= f)
  unfolding ◌>>=◌
  bind-KeepsTime m f p q = record { at = λ c. continue-KeepsTime (m c).0 f (m c).1 q ∙ p.at c }

port-KeepsTime : {W : Type 0} (call : Port W) (code : ErrorCode) → KeepsTime (port call code)
unfolding port
port-KeepsTime call code = record { at = λ c. refl }

ruleset clockless =
    (pure-KeepsTime, lift-KeepsTime, choose-KeepsTime, bind-KeepsTime, port-KeepsTime)

KeepsTime-ok :
    {W A : Type 0} {m : Exec W A} {c d : Closure W} {a : A}
    → KeepsTime m
    → m c ≡ (ok a, d)
    → d.last_time ≡ c.last_time
KeepsTime-ok {W} {A} {c = c} keeps e =
    sym (ap (λ (p : Result A × Closure W). p.1.last_time) e) ∙ keeps.at c

module _ {W : Type 0} (h : Host W) where
  provider_enabled-KeepsTime : (provider_id : String) → KeepsTime (provider_enabled h provider_id)
  unfolding provider_enabled
  provider_enabled-KeepsTime provider_id = search clockless depth 12

  routed-KeepsTime :
      (raw : Value) (provider_id : Option String) → KeepsTime (routed h raw provider_id)
  unfolding routed
  routed-KeepsTime raw provider_id = search (clockless, provider_enabled-KeepsTime) depth 12

  route-KeepsTime :
      (issuer : String) (provider_id : Option String) → KeepsTime (route h issuer provider_id)
  unfolding route
  route-KeepsTime issuer provider_id = search (clockless, routed-KeepsTime) depth 12

  require_route-KeepsTime :
      (issuer provider_id : String) → KeepsTime (require_route h issuer provider_id)
  unfolding require_route
  require_route-KeepsTime issuer provider_id = search (clockless, route-KeepsTime) depth 12

  authorize-KeepsTime :
      (action : AuthorizedAction) (profile : SessionProfile)
      → KeepsTime (authorize h action profile)
  unfolding authorize
  authorize-KeepsTime action profile = search clockless depth 12

  module _ (c : Closure W) {d : Closure W} where
    pub require_route-keeps_time :
        (issuer provider_id : String) {u : Unit {0}}
        → require_route h issuer provider_id c ≡ (ok u, d)
        → d.last_time ≡ c.last_time
    require_route-keeps_time issuer provider_id =
        KeepsTime-ok (require_route-KeepsTime issuer provider_id)

    pub authorize-keeps_time :
        (action : AuthorizedAction) (profile : SessionProfile) {u : Unit {0}}
        → authorize h action profile c ≡ (ok u, d)
        → d.last_time ≡ c.last_time
    authorize-keeps_time action profile = KeepsTime-ok (authorize-KeepsTime action profile)

    pub port-keeps_time :
        (call : Port W) (code : ErrorCode) {v : Value}
        → port call code c ≡ (ok v, d)
        → d.last_time ≡ c.last_time
    port-keeps_time call code = KeepsTime-ok (port-KeepsTime call code)
