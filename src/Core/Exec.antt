-- ===== src/Core/Exec.antt =====
-- Calls of auth/src/core/auth-core.ts that may throw. createAuthCore keeps no state of its own, so a
-- call changes nothing but the world of what it is given, which is of any type W.
pub mod After
use nestjs_yalc.Prelude.{ℕ, Bool, true, false, Option, none, some}
use nestjs_yalc.Core.Errors.{AuthErrorCode, storage_unavailable, Result, ok, err}

abbrev pub Exec : Type 0 → Type 0 → Type 0
Exec W A = W → Result A × W

-- What is not code of the repository: it answers in any way, `none` if it throws.
abbrev pub Port : Type 0 → Type 0 → Type 0
Port W A = W → Option A × W

abbrev pub answered : {A : Type 0} → Option A → AuthErrorCode → Result A
answered none code = err code
answered (some a) code = ok a

module _ {W A : Type 0} where
  unfoldable pub pure : A → Exec W A
  pure a w = (ok a, w)

  unfoldable pub raise : AuthErrorCode → Exec W A
  raise code w = (err code, w)

  -- A validator, or other code without effects.
  unfoldable pub lift : Result A → Exec W A
  lift r w = (r, w)

  unfoldable pub choose : Bool → Exec W A → Exec W A → Exec W A
  choose true m n = m
  choose false m n = n

  -- `try { return await call(); } catch { return fail(code); }`
  unfoldable pub port : Port W A → AuthErrorCode → Exec W A
  port call code w = let (answer, w') = call w in (answered answer code, w')

  -- `portCall` of a method of the transaction
  unfoldable pub port_call : Port W A → Exec W A
  unfolding port
  port_call call = port call storage_unavailable

module _ {W A B : Type 0} where
  unfoldable pub cases : Option B → Exec W A → (B → Exec W A) → Exec W A
  cases none m f = m
  cases (some b) m f = f b

  abbrev pub continue : Result A → (A → Exec W B) → Exec W B
  continue (ok a) f w = f a w
  continue (err code) f w = (err code, w)

  infixl 5 ◌>>=◌ ◌>>◌
  unfoldable pub ◌>>=◌ : Exec W A → (A → Exec W B) → Exec W B
  unfolding pure raise lift choose port port_call cases
  ◌>>=◌ m f w = let (r, w') = m w in continue r f w'

  abbrev pub ◌>>◌ : Exec W A → Exec W B → Exec W B
  m >> n = m >>= λ _. n

-- `if (!test) fail(code);`
unfoldable pub require : {W : Type 0} → Bool → AuthErrorCode → Exec W (Unit {0})
unfolding pure raise
require true code = pure tt
require false code = raise code
