-- ===== src/Directory/Validation/Scalars/Integers.antt =====
-- What is known of an accepted integer of auth/src/directory/directory-validation.ts.
use nestjs_yalc.Prelude.{ℕ, ◌≤◌, ◌≡◌, refl, Bool, true, false, arith, if◌then◌else◌}
use nestjs_yalc.Js.Value.{Value, number, nat}
use nestjs_yalc.Directory.Errors.{ErrorCode, ok, fail}
use nestjs_yalc.Directory.Validation.Scalars.{integer, max_safe_integer}

pub if-eq-ok {ℓ} :
    {A : Type ℓ} (test : Bool) (a : A) (code : ErrorCode) {b : A}
    → (if test then ok a else fail code) ≡ ok b
    → (test ≡ true) × (b ≡ a)
if-eq-ok true a code h = (refl, cc)
if-eq-ok false a code h = cc

pub integer-eq-ok :
    (n : ℕ) (code : ErrorCode) (min max : ℕ) {m : ℕ}
    → integer (number (nat n)) code min max ≡ ok m
    → (m ≡ n) × (min ≤ n) × (n ≤ max) × (n ≤ max_safe_integer)
unfolding integer
integer-eq-ok n code min max h =
    let (test, same) = if-eq-ok _ n code h in
    (same, ground (arith, test), ground (arith, test), ground (arith, test))

pub integer-range :
    (v : Value) (code : ErrorCode) (min max : ℕ) {m : ℕ}
    → integer v code min max ≡ ok m
    → (min ≤ m) × (m ≤ max)
unfolding integer
integer-range (number (nat n)) code min max {m} h =
    let (same, low, high, safe) = integer-eq-ok n code min max h in
    (omega (arith, same, low), omega (arith, same, high))
integer-range _ code min max h = cc
