-- ===== src/Directory/Evolves.antt =====
-- How an action may change the closure of the facade, with a rule for each way to build an action.
use nestjs_yalc.Prelude.{◌≤◌, ◌≡◌, refl, ◌∙◌, Bool, true, false, Option, none, some, arith}
use nestjs_yalc.Directory.Errors.{ErrorCode, Fault, Result, ok, err}
use nestjs_yalc.Directory.Host.{Port}
use nestjs_yalc.Directory.Exec.{
  Closure, Exec, pure, raise, rethrow, lift, choose, cases, continue, ◌>>=◌, require_unfenced, port,
  port_with,
}

-- A fence stays, the clock does not go back, and the number of running commands is the same.
pub record Evolves {W : Type 0} (c c' : Closure W) : Type 0 where
  pub fence : c.fenced ≡ true → c'.fenced ≡ true
  pub clock : c.last_time ≤ c'.last_time
  pub slots : c'.concurrent ≡ c.concurrent

pub Evolves-refl : {W : Type 0} (c : Closure W) → Evolves c c
Evolves-refl c = record { fence = λ h. h; clock = omega arith; slots = refl }

pub Evolves-trans : {W : Type 0} {a b c : Closure W} → Evolves a b → Evolves b c → Evolves a c
Evolves-trans p q = record {
  fence = λ h. q.fence (p.fence h);
  clock = omega (arith, p.clock, q.clock);
  slots = q.slots ∙ p.slots;
}

-- Whatever it returns or throws.
pub record IsSafe {W A : Type 0} (m : Exec W A) : Type 0 where
  pub at : (c : Closure W) → Evolves c (m c).1

module _ {W A : Type 0} where
  pub pure-IsSafe : (a : A) → IsSafe {W = W} (pure a)
  unfolding pure
  pure-IsSafe a = record { at = Evolves-refl }

  pub raise-IsSafe : (code : ErrorCode) → IsSafe {W = W} {A = A} (raise code)
  unfolding raise
  raise-IsSafe code = record { at = Evolves-refl }

  pub rethrow-IsSafe : (e : Fault) → IsSafe {W = W} {A = A} (rethrow e)
  unfolding rethrow
  rethrow-IsSafe e = record { at = Evolves-refl }

  pub lift-IsSafe : (r : Result A) → IsSafe {W = W} (lift r)
  unfolding lift
  lift-IsSafe r = record { at = Evolves-refl }

  pub choose-IsSafe : (b : Bool) (m n : Exec W A) → IsSafe m → IsSafe n → IsSafe (choose b m n)
  unfolding choose
  choose-IsSafe true m n p q = p
  choose-IsSafe false m n p q = q

module _ {W A B : Type 0} where
  pub cases-IsSafe :
      (o : Option B) (m : Exec W A) (f : B → Exec W A)
      → IsSafe m
      → ((b : B) → IsSafe (f b))
      → IsSafe (cases o m f)
  unfolding cases
  cases-IsSafe none m f p q = p
  cases-IsSafe (some b) m f p q = q b

  continue-IsSafe :
      (r : Result A) (f : A → Exec W B) (c : Closure W)
      → ((a : A) → IsSafe (f a))
      → Evolves c (continue r f c).1
  continue-IsSafe (ok a) f c q = (q a).at c
  continue-IsSafe (err e) f c q = Evolves-refl c

  pub bind-IsSafe :
      (m : Exec W A) (f : A → Exec W B) → IsSafe m → ((a : A) → IsSafe (f a)) → IsSafe (m >>= f)
  unfolding ◌>>=◌
  bind-IsSafe m f p q = record {
    at = λ c. Evolves-trans (p.at c) (continue-IsSafe (m c).0 f (m c).1 q);
  }

pub require_unfenced-IsSafe : {W : Type 0} → IsSafe {W = W} require_unfenced
unfolding require_unfenced
require_unfenced-IsSafe = record { at = Evolves-refl }

pub port-IsSafe : {W : Type 0} (call : Port W) (code : ErrorCode) → IsSafe (port call code)
unfolding port
port-IsSafe call code = record {
  at = λ c. record { fence = λ h. h; clock = omega arith; slots = refl };
}

pub port_with-IsSafe :
    {W B : Type 0} (r : Result B) (call : B → Port W) (code : ErrorCode)
    → IsSafe (port_with r call code)
unfolding port_with
port_with-IsSafe (ok b) call code = port-IsSafe (call b) code
port_with-IsSafe (err e) call code = record { at = Evolves-refl }

pub ruleset safe_rules = (
  pure-IsSafe, raise-IsSafe, rethrow-IsSafe, lift-IsSafe, choose-IsSafe, cases-IsSafe, bind-IsSafe,
  require_unfenced-IsSafe, port-IsSafe, port_with-IsSafe,
)
