-- ===== src/Directory/Errors.antt =====
-- auth/src/directory/directory-errors.ts: the error codes, and results of code that may throw.
-- A fault is `aborted` when the facade has put it into its set `confirmedAborts`; `type_error` stands
-- for an exception that is no DirectoryError.
use nestjs_yalc.Prelude.{◌≡◌, refl, Bool, true, false}

pub data ErrorCode : Type 0 where
  invalid_config invalid_input authentication_denied authentication_unavailable : ErrorCode
  authorization_denied provider_disabled consent_denied identity_conflict : ErrorCode
  command_conflict command_expired last_method capacity_exceeded : ErrorCode
  storage_unavailable commit_unknown : ErrorCode

pub data Fault : Type 0 where
  fresh : ErrorCode → Fault
  aborted : ErrorCode → Fault
  type_error : Fault

pub data Result {ℓ} (A : Type ℓ) : Type ℓ where
  ok : A → Result A
  err : Fault → Result A

abbrev pub fail {ℓ} : {A : Type ℓ} → ErrorCode → Result A
fail code = err (fresh code)

abbrev pub check : Bool → ErrorCode → Result (Unit {0})
check true code = ok tt
check false code = fail code

-- A validator goes on with the value; a fault ends it. Opened by itself, so that a chain computes.
abbrev pub ◌>>=◌ {ℓ κ} : {A : Type ℓ} {B : Type κ} → Result A → (A → Result B) → Result B
err fault >>= next = err fault
ok value >>= next = next value

abbrev pub ◌>>◌ {ℓ} : {B : Type ℓ} → Result (Unit {0}) → Result B → Result B
first >> second = first >>= λ u. second

infixl 5 ◌>>=◌ ◌>>◌
-- What a chain that returns a value has passed through.
module _ {ℓ κ} {A : Type ℓ} {B : Type κ} where
  pub >>=-eq-ok :
      (r : Result A) (next : A → Result B) {b : B}
      → (r >>= next) ≡ ok b
      → (value : A) × (r ≡ ok value) × (next value ≡ ok b)
  >>=-eq-ok (err fault) next returned = cc
  >>=-eq-ok (ok value) next returned = (value, refl, returned)

pub check-eq-ok {ℓ} :
    {B : Type ℓ} (test : Bool) (code : ErrorCode) (m : Result B) {b : B}
    → (check test code >> m) ≡ ok b
    → (test ≡ true) × (m ≡ ok b)
check-eq-ok true code m h = (refl, h)
check-eq-ok false code m h = cc

-- The two ways in which a step fails.
pub >>=-eq-err {ℓ κ μ} :
    {A : Type ℓ} {B : Type κ} {P : Type μ} {e : Fault} (m : Result A) (f : A → Result B)
    → (m >>= f) ≡ err e
    → (m ≡ err e → P)
    → ((a : A) → f a ≡ err e → P)
    → P
>>=-eq-err (ok a) f h first second = second a h
>>=-eq-err (err e) f h first second = first (cc)

pub check-eq-err :
    {e : Fault} (test : Bool) (code : ErrorCode) → check test code ≡ err e → e ≡ fresh code
check-eq-err true code h = cc
check-eq-err false code h = cc
