-- ===== src/Directory/Validation/Inputs/Sessions.antt =====
-- The lifetime of a session in auth/src/directory/directory-validation.ts.
use nestjs_yalc.Prelude.{ℕ, ◌<◌, ◌≡◌, ap, subst, ltb-eq-true, [], ◌∷◌, true, false, ltb}
use nestjs_yalc.Js.Value.{Value, object, object_prototype}
use nestjs_yalc.Directory.Errors.{Result, ok, err, authentication_denied, >>=-eq-ok, check-eq-ok}
use nestjs_yalc.Directory.Types.{SessionProfile}
use nestjs_yalc.Directory.Validation.Inputs.{profile, identity, restrict}
use nestjs_yalc.Directory.Validation.Scalars.{integer, account, text, max_safe_integer}
use nestjs_yalc.Directory.Validation.Shapes.{data_of, get}

abbrev expiry : Result SessionProfile → ℕ
expiry (ok p) = p.expires_at
expiry (err e) = 0

-- An accepted session has not expired.
pub profile-running :
    (raw : Value) (now : ℕ) {p : SessionProfile} → profile raw now ≡ ok p → now < p.expires_at
unfolding profile
profile-running raw now {p} h =
    let code = authentication_denied in
    let (value, _, h₁) =
      >>=-eq-ok
        (data_of raw
          ("accountId" ∷ "sessionId" ∷ "providerId" ∷ "issuer" ∷ "subject" ∷ "authTime" ∷ "methods"
            ∷ "expiresAt" ∷ [])
          code)
        _ h in
    let (verified, _, h₂) =
      >>=-eq-ok
        (identity
          (object object_prototype
            (restrict ("issuer" ∷ "subject" ∷ "authTime" ∷ "methods" ∷ []) value))
          now code)
        _ h₁ in
    let (expires_at, _, h₃) =
      >>=-eq-ok (integer (get "expiresAt" value) code 0 max_safe_integer) _ h₂ in
    let (running, h₄) = check-eq-ok (ltb now expires_at) code _ h₃ in
    let (account_id, _, h₅) = >>=-eq-ok (account (get "accountId" value) code) _ h₄ in
    let (session_id, _, h₆) = >>=-eq-ok (text (get "sessionId" value) 512 code false) _ h₅ in
    let (provider_id, _, h₇) = >>=-eq-ok (text (get "providerId" value) 80 code true) _ h₆ in
    let same : expires_at ≡ p.expires_at = ap expiry h₇ in
    subst (λ x. now < x) same (ltb-eq-true now expires_at running)
