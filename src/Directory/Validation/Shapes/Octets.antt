-- ===== src/Directory/Validation/Shapes/Octets.antt =====
-- What is known of accepted bytes of auth/src/directory/directory-validation.ts.
use nestjs_yalc.Prelude.{ℕ, ◌≤◌, ◌≡◌, sym, subst, List, [], ◌∷◌, length, arith}
use nestjs_yalc.Js.Value.{Value, byte_array, number, nat}
use nestjs_yalc.Js.Base64.RoundTrip.{AreBytes}
use nestjs_yalc.Directory.Errors.{ErrorCode, ok, >>=-eq-ok, check-eq-ok}
use nestjs_yalc.Directory.Validation.Scalars.{integer}
use nestjs_yalc.Directory.Validation.Scalars.Integers.{integer-eq-ok}
use nestjs_yalc.Directory.Validation.Shapes.{bytes, octet_list}

octet_list-eq-ok :
    (bs : List ℕ) (code : ErrorCode) {cs : List ℕ}
    → octet_list bs code ≡ ok cs
    → (cs ≡ bs) × AreBytes bs
unfolding octet_list
octet_list-eq-ok [] code h = (cc, tt)
octet_list-eq-ok (b ∷ bs) code {cs} h =
    let (n, first, h₁) = >>=-eq-ok (integer (number (nat b)) code 0 255) _ h in
    let (rest, others, h₂) = >>=-eq-ok (octet_list bs code) _ h₁ in
    let (same, low, high, safe) = integer-eq-ok b code 0 255 first in
    let (again, below) = octet_list-eq-ok bs code others in
    let last : n ∷ rest ≡ cs = cc in (cc, (omega (arith, high), below))

-- Accepted bytes are below 256 each and as many as was asked for.
pub bytes-eq-ok :
    (raw : Value) (min max : ℕ) (code : ErrorCode) {bs : List ℕ}
    → bytes raw min max code ≡ ok bs
    → AreBytes bs × (min ≤ length bs) × (length bs ≤ max)
unfolding bytes
bytes-eq-ok (byte_array others cs) min max code {bs} h =
    let (n, size, h₁) = >>=-eq-ok (integer (number (nat (length cs))) code min max) _ h in
    let (test, h₂) = check-eq-ok _ code _ h₁ in
    let (same, below) = octet_list-eq-ok cs code h₂ in
    let (count, low, high, safe) = integer-eq-ok (length cs) code min max size in
    subst (λ xs. AreBytes xs × (min ≤ length xs) × (length xs ≤ max)) (sym same) (below, low, high)
bytes-eq-ok _ min max code h = cc
