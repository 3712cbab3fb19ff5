-- ===== src/Core/Errors.antt =====
-- auth/src/core/auth-errors.ts: the error codes, and results of code that may throw. Whatever throws
-- in the code is an AuthError of `fail` or is turned into one, so an error is its code.
use nestjs_yalc.Prelude.{◌≡◌, refl, Bool, true, false, if◌then◌else◌}

pub data AuthErrorCode : Type 0 where
  invalid_config invalid_input authentication_denied authentication_unavailable : AuthErrorCode
  session_denied session_expired csrf_denied session_reused : AuthErrorCode
  storage_unavailable credential_collision : AuthErrorCode

pub data Result {ℓ} (A : Type ℓ) : Type ℓ where
  ok : A → Result A
  err : AuthErrorCode → Result A

abbrev pub fail {ℓ} : {A : Type ℓ} → AuthErrorCode → Result A
fail code = err code

-- `if (!test) fail(code);`
abbrev pub check : Bool → AuthErrorCode → Result (Unit {0})
check true code = ok tt
check false code = fail code

abbrev pub ◌>>=◌ {ℓ κ} : {A : Type ℓ} {B : Type κ} → Result A → (A → Result B) → Result B
err code >>= rest = err code
ok a >>= rest = rest a

abbrev pub ◌>>◌ {ℓ} : {B : Type ℓ} → Result (Unit {0}) → Result B → Result B
m >> n = m >>= λ u. n

infixl 5 ◌>>=◌ ◌>>◌
module _ {ℓ κ} {A : Type ℓ} {B : Type κ} where
  pub >>=-eq-ok :
      (r : Result A) (rest : A → Result B) {b : B}
      → (r >>= rest) ≡ ok b
      → (a : A) × (r ≡ ok a) × (rest a ≡ ok b)
  >>=-eq-ok (err code) rest h = cc
  >>=-eq-ok (ok a) rest h = (a, refl, h)

pub check-eq-ok {ℓ} :
    {B : Type ℓ} (test : Bool) (code : AuthErrorCode) (m : Result B) {b : B}
    → (check test code >> m) ≡ ok b
    → (test ≡ true) × (m ≡ ok b)
check-eq-ok true code m h = (refl, h)
check-eq-ok false code m h = cc

pub if-eq-ok {ℓ} :
    {A : Type ℓ} (test : Bool) (a : A) (code : AuthErrorCode) {b : A}
    → (if test then ok a else fail code) ≡ ok b
    → (test ≡ true) × (b ≡ a)
if-eq-ok true a code h = (refl, cc)
if-eq-ok false a code h = cc

pub ok-injective : {A : Type 0} {a b : A} → ok a ≡ ok b → a ≡ b
ok-injective e = cc
