-- ===== src/Directory/Exec.antt =====
-- The closure that createIdentityDirectory keeps (auth/src/directory/directory-core.ts), with the
-- world of the ports beside it, and actions on it that may throw. One command runs at a time.
pub mod Inversion
pub mod After
use nestjs_yalc.Prelude.{ℕ, Bool, true, false, not, Option, none, some}
use nestjs_yalc.Js.Value.{Value}
use nestjs_yalc.Directory.Errors.{ErrorCode, Fault, fresh, Result, ok, err, check, commit_unknown}
use nestjs_yalc.Directory.Host.{Port}

pub record Closure (W : Type 0) : Type 0 where
  pub world : W
  pub fenced : Bool
  pub last_time : ℕ
  pub concurrent : ℕ

abbrev pub Exec : Type 0 → Type 0 → Type 0
Exec W A = Closure W → Result A × Closure W

module _ {W A : Type 0} where
  unfoldable pub pure : A → Exec W A
  pure a c = (ok a, c)

  unfoldable pub raise : ErrorCode → Exec W A
  raise code c = (err (fresh code), c)

  unfoldable pub rethrow : Fault → Exec W A
  rethrow fault c = (err fault, c)

  -- A validator, or any code that does not touch the closure.
  unfoldable pub lift : Result A → Exec W A
  lift r c = (r, c)

  -- Branches of an action.
  unfoldable pub choose : Bool → Exec W A → Exec W A → Exec W A
  choose true m n = m
  choose false m n = n

module _ {W A B : Type 0} where
  unfoldable pub cases : Option B → Exec W A → (B → Exec W A) → Exec W A
  cases none m f = m
  cases (some b) m f = f b

  abbrev pub continue : Result A → (A → Exec W B) → Exec W B
  continue (ok a) f c = f a c
  continue (err e) f c = (err e, c)

  infixl 5 ◌>>=◌ ◌>>◌
  -- opening this opens the other ways to build an action too
  unfoldable pub ◌>>=◌ : Exec W A → (A → Exec W B) → Exec W B
  unfolding pure raise rethrow lift choose cases
  ◌>>=◌ m f c = let (r, c') = m c in continue r f c'

  abbrev pub ◌>>◌ : Exec W A → Exec W B → Exec W B
  m >> n = m >>= λ _. n

-- `v.check`
abbrev pub require : {W : Type 0} → Bool → ErrorCode → Exec W (Unit {0})
require b code = lift (check b code)

-- `v.check(!fenced, 'commit_unknown')`
unfoldable pub require_unfenced : {W : Type 0} → Exec W (Unit {0})
require_unfenced c = (check (not c.fenced) commit_unknown, c)

abbrev pub answered : Option Value → ErrorCode → Result Value
answered none code = err (fresh code)
answered (some v) code = ok v

-- `port`: an exception of the host becomes the given code.
unfoldable pub port : {W : Type 0} → Port W → ErrorCode → Exec W Value
port call code c = let (answer, w) = call c.world in (answered answer code, record c { world = w })

-- A port whose argument is validated inside the call, so that a refusal becomes the code too.
unfoldable pub port_with : {W B : Type 0} → Result B → (B → Port W) → ErrorCode → Exec W Value
unfolding port
port_with (ok b) call code c = port (call b) code c
port_with (err e) call code c = (err (fresh code), c)
