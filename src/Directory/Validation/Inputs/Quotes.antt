-- ===== src/Directory/Validation/Inputs/Quotes.antt =====
-- The quote of the capacity port, in auth/src/directory/directory-validation.ts.
use nestjs_yalc.Prelude.{ℕ, ◌≤◌, ◌≡◌, subst, ◌&&◌, [], ◌∷◌, true, nat_eq, leb, arith}
use nestjs_yalc.Js.Value.{Value}
use nestjs_yalc.Directory.Errors.{ok, >>=-eq-ok, check-eq-ok, capacity_exceeded}
use nestjs_yalc.Directory.Types.{Quote}
use nestjs_yalc.Directory.Validation.Scalars.{short, integer, one_of, max_safe_integer}
use nestjs_yalc.Directory.Validation.Shapes.{data_of, get}
use nestjs_yalc.Directory.Validation.Inputs.{quote}

quoted-eq-true :
    (bytes upper deadline until : ℕ)
    → (nat_eq bytes upper && leb deadline until) ≡ true
    → (bytes ≡ upper) × (deadline ≤ until)
quoted-eq-true bytes upper deadline until e = (ground (arith, e), ground (arith, e))

-- An accepted quote is for exactly the size that was asked for, and admits it at least until the
-- deadline.
pub quote_terms :
    (raw : Value) (upper deadline : ℕ) {q : Quote}
    → quote raw upper deadline ≡ ok q
    → (q.upper_logical_bytes ≡ upper) × (deadline ≤ q.admitted_lifetime_until)
unfolding quote
quote_terms raw upper deadline {q} h =
    let code = capacity_exceeded in
    let (value, _, h₀) =
      >>=-eq-ok
        (data_of raw
          ("quoteId" ∷ "upperLogicalBytes" ∷ "admittedLifetimeUntil" ∷ "footprintVersion" ∷ [])
          code)
        _ h in
    let (quote_id, _, h₁) = >>=-eq-ok (short (get "quoteId" value) code) _ h₀ in
    let (bytes, _, h₂) =
      >>=-eq-ok (integer (get "upperLogicalBytes" value) code 0 max_safe_integer) _ h₁ in
    let (until, _, h₃) =
      >>=-eq-ok (integer (get "admittedLifetimeUntil" value) code 0 max_safe_integer) _ h₂ in
    let (version, _, h₄) =
      >>=-eq-ok (one_of (get "footprintVersion" value) ("auth-directory.rows.v3" ∷ []) code) _ h₃ in
    let (test, h₅) = check-eq-ok (nat_eq bytes upper && leb deadline until) code _ h₄ in
    let made : Quote = record {
      quote_id = quote_id;
      upper_logical_bytes = bytes;
      admitted_lifetime_until = until;
      footprint_version = version;
    } in
    let same : made ≡ q = cc in
    subst (λ (x : Quote). (x.upper_logical_bytes ≡ upper) × (deadline ≤ x.admitted_lifetime_until))
      same (quoted-eq-true bytes upper deadline until test)
