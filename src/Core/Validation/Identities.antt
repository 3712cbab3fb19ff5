-- ===== src/Core/Validation/Identities.antt =====
-- The identities that `verifiedIdentity` of auth/src/core/auth-validation.ts accepts.
use nestjs_yalc.Prelude.{
  ℕ, suc, ◌+◌, ◌≤◌, ◌≡◌, refl, sym, subst, true, ◌&&◌, List, [], ◌∷◌, String, length, all, leb,
  nat_eq, arith,
}
use nestjs_yalc.Js.Value.{
  Value, string, number, nat, array, object, object_prototype, Slots, nil, element, getter, hole,
  end, property, named,
}
use nestjs_yalc.Directory.Validation.Scalars.{max_safe_integer}
use nestjs_yalc.Directory.Validation.Shapes.{descriptor}
use nestjs_yalc.Core.Errors.{
  ok, >>=-eq-ok, check-eq-ok, if-eq-ok, ok-injective, authentication_denied, AuthErrorCode,
}
use nestjs_yalc.Core.Types.{VerifiedIdentity}
use nestjs_yalc.Core.Validation.{
  fits, valid_text, text_of, described, authentication_time, slots_length, own_slots, method_texts,
  methods_of, plain_prototype, verified_identity,
}

-- The texts fit, there are one to sixteen methods, and the time is safe and not after now.
pub record IsVerified (now : ℕ) (i : VerifiedIdentity) : Type 0 where
  pub issuer_fits : fits i.issuer 2048 ≡ true
  pub subject_fits : fits i.subject 512 ≡ true
  pub past : i.auth_time ≤ now
  pub safe : i.auth_time ≤ max_safe_integer
  pub some_method : 1 ≤ length i.methods
  pub few_methods : length i.methods ≤ 16
  pub methods_fit : all (λ method. fits method 80) i.methods ≡ true

text_of-eq-ok :
    (v : Value) (max : ℕ) (code : AuthErrorCode) {s : String}
    → text_of v max code ≡ ok s
    → fits s max ≡ true
unfolding text_of valid_text
text_of-eq-ok (string t) max code e =
    let (fit, same) = if-eq-ok _ t code e in subst (λ x. fits x max ≡ true) (sym same) fit
text_of-eq-ok _ max code e = cc

authentication_time-eq-ok :
    (v : Value) (now : ℕ) {at : ℕ}
    → authentication_time v now ≡ ok at
    → (at ≤ now) × (at ≤ max_safe_integer)
unfolding authentication_time
authentication_time-eq-ok (number (nat n)) now e =
    let (low, same) = if-eq-ok _ n authentication_denied e in
    (ground (arith, low, same), ground (arith, low, same))
authentication_time-eq-ok _ now e = cc

method_texts-eq-ok :
    (ss : Slots) {ms : List String}
    → method_texts ss ≡ ok ms
    → (length ms ≡ slots_length ss) × (all (λ method. fits method 80) ms ≡ true)
unfolding method_texts slots_length
method_texts-eq-ok nil {ms} e =
    let same : [] ≡ ms = ok-injective e in
    subst (λ x. (length x ≡ 0) × (all (λ method. fits method 80) x ≡ true)) same (refl, refl)
method_texts-eq-ok (element b v ss) {ms} e =
    let (m, fit, e₁) = >>=-eq-ok (text_of v 80 authentication_denied) _ e in
    let (rest, e₂, e₃) = >>=-eq-ok (method_texts ss) _ e₁ in
    let (many, fits') = method_texts-eq-ok ss e₂ in
    let same : m ∷ rest ≡ ms = ok-injective e₃ in
    subst (λ x. (length x ≡ suc (slots_length ss)) × (all (λ method. fits method 80) x ≡ true)) same
      ((omega (arith, many), rw (text_of-eq-ok v 80 authentication_denied fit) fits'))
method_texts-eq-ok (getter ss) e = cc
method_texts-eq-ok (hole ss) e = cc

methods_of-eq-ok :
    (v : Value) {ms : List String}
    → methods_of v ≡ ok ms
    → (1 ≤ length ms) × (length ms ≤ 16) × (all (λ method. fits method 80) ms ≡ true)
unfolding methods_of
methods_of-eq-ok (array others ss) e =
    let (size, e₁) =
      check-eq-ok (leb 1 (slots_length ss) && leb (slots_length ss) 16) authentication_denied _ e in
    let (own, e₂) =
      check-eq-ok (nat_eq (suc (others + own_slots ss)) (slots_length ss + 1)) authentication_denied
        _ e₁ in
    let (many, fits') = method_texts-eq-ok ss e₂ in
    (ground (arith, size, many), ground (arith, size, many), fits')
methods_of-eq-ok _ e = cc

-- An identity that is accepted at a time is verified at it.
pub verified_identity-IsVerified :
    (raw : Value) (now : ℕ) {i : VerifiedIdentity}
    → verified_identity raw now ≡ ok i
    → IsVerified now i
unfolding verified_identity
verified_identity-IsVerified (object prototype ps) now {i} e =
    let (_, e₀) = check-eq-ok (plain_prototype prototype) authentication_denied _ e in
    let (issuer', _, e₁) = >>=-eq-ok (described (descriptor "issuer" ps)) _ e₀ in
    let (subject', _, e₂) = >>=-eq-ok (described (descriptor "subject" ps)) _ e₁ in
    let (time', _, e₃) = >>=-eq-ok (described (descriptor "authTime" ps)) _ e₂ in
    let (methods', _, e₄) = >>=-eq-ok (described (descriptor "methods" ps)) _ e₃ in
    let (issuer, h₁, e₅) = >>=-eq-ok (text_of issuer' 2048 authentication_denied) _ e₄ in
    let (subject, h₂, e₆) = >>=-eq-ok (text_of subject' 512 authentication_denied) _ e₅ in
    let (at, h₃, e₇) = >>=-eq-ok (authentication_time time' now) _ e₆ in
    let (methods, h₄, e₈) = >>=-eq-ok (methods_of methods') _ e₇ in
    let (past, safe) = authentication_time-eq-ok time' now h₃ in
    let (one, few, fit) = methods_of-eq-ok methods' h₄ in
    let made : VerifiedIdentity = record {
      issuer = issuer;
      subject = subject;
      auth_time = at;
      methods = methods;
    } in
    let same : made ≡ i = ok-injective e₈ in
    subst (λ x. IsVerified now x) same
      (record {
        issuer_fits = text_of-eq-ok issuer' 2048 authentication_denied h₁;
        subject_fits = text_of-eq-ok subject' 512 authentication_denied h₂;
        past = past;
        safe = safe;
        some_method = one;
        few_methods = few;
        methods_fit = fit;
      })
verified_identity-IsVerified _ now e = cc

-- An identity as the object that it is.
abbrev pub slots_of : List String → Slots
slots_of [] = nil
slots_of (m ∷ ms) = element true (string m) (slots_of ms)

abbrev pub identity_value : VerifiedIdentity → Value
identity_value i = object object_prototype (
    property (named "issuer") true (string i.issuer) (
      property (named "subject") true (string i.subject) (
        property (named "authTime") true (number (nat i.auth_time))
          (property (named "methods") true (array 0 (slots_of i.methods)) end))))

text_of-string :
    (s : String) (max : ℕ) (code : AuthErrorCode)
    → fits s max ≡ true
    → text_of (string s) max code ≡ ok s
unfolding text_of valid_text
text_of-string s max code e = rw (e) refl

slots_of-length : (ms : List String) → slots_length (slots_of ms) ≡ length ms
unfolding slots_length
slots_of-length [] = refl
slots_of-length (m ∷ ms) = omega (arith, slots_of-length ms)

slots_of-own : (ms : List String) → own_slots (slots_of ms) ≡ length ms
unfolding own_slots
slots_of-own [] = refl
slots_of-own (m ∷ ms) = omega (arith, slots_of-own ms)

method_texts-slots_of :
    (ms : List String)
    → all (λ method. fits method 80) ms ≡ true
    → method_texts (slots_of ms) ≡ ok ms
unfolding method_texts
method_texts-slots_of [] e = refl
method_texts-slots_of (m ∷ ms) e =
    rw
      (
        text_of-string m 80 authentication_denied (ground (arith, e)),
        method_texts-slots_of ms (ground (arith, e)),
      )
      refl

methods_of-slots_of :
    (ms : List String)
    → 1 ≤ length ms
    → length ms ≤ 16
    → all (λ method. fits method 80) ms ≡ true
    → methods_of (array 0 (slots_of ms)) ≡ ok ms
unfolding methods_of
methods_of-slots_of ms one few fit =
    let size : leb 1 (slots_length (slots_of ms)) && leb (slots_length (slots_of ms)) 16 ≡ true =
      ground (arith, one, few, slots_of-length ms) in
    let own : nat_eq (suc (0 + own_slots (slots_of ms))) (slots_length (slots_of ms) + 1) ≡ true =
      ground (arith, slots_of-length ms, slots_of-own ms) in
    rw (size, own, method_texts-slots_of ms fit) refl

authentication_time-number :
    (at now : ℕ)
    → at ≤ now
    → at ≤ max_safe_integer
    → authentication_time (number (nat at)) now ≡ ok at
unfolding authentication_time
authentication_time-number at now past safe =
    let low : leb at max_safe_integer && leb at now ≡ true = ground (arith, past, safe) in
    rw (low) refl

-- An identity that is verified at a time is accepted at it, and read unchanged.
pub verified_identity-identity_value :
    (now : ℕ) (i : VerifiedIdentity)
    → IsVerified now i
    → verified_identity (identity_value i) now ≡ ok i
unfolding verified_identity descriptor described plain_prototype
verified_identity-identity_value now i h =
    rw
      (
        text_of-string i.issuer 2048 authentication_denied h.issuer_fits,
        text_of-string i.subject 512 authentication_denied h.subject_fits,
        authentication_time-number i.auth_time now h.past h.safe,
        methods_of-slots_of i.methods h.some_method h.few_methods h.methods_fit,
      )
      refl
