-- ===== src/Core/Validation/Contexts.antt =====
-- The contexts that `contextFor` of auth/src/core/auth-validation.ts accepts.
use nestjs_yalc.Prelude.{
  ◌≡◌, refl, sym, subst, true, not, ◌&&◌, ◌||◌, Option, none, some, List, [], ◌∷◌, String,
}
use nestjs_yalc.Js.Value.{Value, undefined, string, object, object_prototype, end, property, named}
use nestjs_yalc.Directory.Validation.Shapes.{get}
use nestjs_yalc.Core.Errors.{
  ok, >>=-eq-ok, check-eq-ok, if-eq-ok, ok-injective, invalid_input, csrf_denied,
}
use nestjs_yalc.Core.Types.{Transport, cookie, bearer, RequestContext}
use nestjs_yalc.Core.Validation.{
  own_data, own_values, all_present, plain_prototype, transport_of, method_of, optional_text,
  Operation, is_authenticate, is_method, is_safe_method, is_cookie, is_allowed, is_cross_site,
  context_for, context_keys,
}

-- The method is in capitals; only `authenticate` may have a safe one; and a request with a cookie
-- and another method is from an allowed origin and not from another site.
pub record IsAdmissible (operation : Operation) (origins : List String) (c : RequestContext)
    : Type 0 where
  pub capitals : is_method c.method ≡ true
  pub changes : is_authenticate operation || not (is_safe_method c.method) ≡ true
  pub same_origin :
      not (is_cookie c.transport)
        || is_safe_method c.method
        || (is_allowed c.origin origins && not (is_cross_site c.sec_fetch_site))
      ≡ true

method_of-eq-ok : (v : Value) {m : String} → method_of v ≡ ok m → is_method m ≡ true
unfolding method_of
method_of-eq-ok (string s) {m} e =
    let (capitals, same) = if-eq-ok _ s invalid_input e in
    subst (λ x. is_method x ≡ true) (sym same) capitals
method_of-eq-ok _ e = cc

-- A context that is accepted for an operation is admissible for it.
pub context_for-IsAdmissible :
    (raw : Value) (operation : Operation) (origins : List String) {c : RequestContext}
    → context_for raw operation origins ≡ ok c
    → IsAdmissible operation origins c
unfolding context_for
context_for-IsAdmissible raw operation origins {c} e =
    let (data', _, e₁) =
      >>=-eq-ok (own_data raw context_keys ("transport" ∷ "method" ∷ []) invalid_input) _ e in
    let (transport, _, e₂) = >>=-eq-ok (transport_of (get "transport" data')) _ e₁ in
    let (method, capitals, e₃) = >>=-eq-ok (method_of (get "method" data')) _ e₂ in
    let (changes, e₄) =
      check-eq-ok (is_authenticate operation || not (is_safe_method method)) invalid_input _ e₃ in
    let (origin, _, e₅) = >>=-eq-ok (optional_text (get "origin" data')) _ e₄ in
    let (site, _, e₆) = >>=-eq-ok (optional_text (get "secFetchSite" data')) _ e₅ in
    let (csrf, _, e₇) = >>=-eq-ok (optional_text (get "csrf" data')) _ e₆ in
    let (gate, e₈) =
      check-eq-ok
        (not (is_cookie transport)
          || is_safe_method method
          || (is_allowed origin origins && not (is_cross_site site)))
        csrf_denied _ e₇ in
    let made : RequestContext = record {
      transport = transport;
      method = method;
      origin = origin;
      sec_fetch_site = site;
      csrf = csrf;
    } in
    let same : made ≡ c = ok-injective e₈ in
    subst (λ x. IsAdmissible operation origins x) same
      (record {
        capitals = method_of-eq-ok (get "method" data') capitals;
        changes = changes;
        same_origin = gate;
      })

-- A context as the object that it is.
abbrev pub transport_value : Transport → Value
transport_value cookie = string "cookie"
transport_value bearer = string "bearer"

abbrev pub optional_value : Option String → Value
optional_value none = undefined
optional_value (some s) = string s

abbrev pub context_value : RequestContext → Value
context_value c = object object_prototype (
    property (named "transport") true (transport_value c.transport) (
      property (named "method") true (string c.method) (
        property (named "origin") true (optional_value c.origin) (
          property (named "secFetchSite") true (optional_value c.sec_fetch_site)
            (property (named "csrf") true (optional_value c.csrf) end)))))

transport_of-value : (t : Transport) → transport_of (transport_value t) ≡ ok t
unfolding transport_of
transport_of-value cookie = refl
transport_of-value bearer = refl

optional_text-value : (o : Option String) → optional_text (optional_value o) ≡ ok o
unfolding optional_text
optional_text-value none = refl
optional_text-value (some s) = refl

method_of-value : (m : String) → is_method m ≡ true → method_of (string m) ≡ ok m
unfolding method_of
method_of-value m e = rw (e) refl

-- A context that is admissible for an operation is accepted for it, and read unchanged.
pub context_for-context_value :
    (operation : Operation) (origins : List String) (c : RequestContext)
    → IsAdmissible operation origins c
    → context_for (context_value c) operation origins ≡ ok c
unfolding context_for own_data own_values all_present plain_prototype
context_for-context_value operation origins c h =
    rw
      (
        transport_of-value c.transport,
        method_of-value c.method h.capitals,
        h.changes,
        optional_text-value c.origin,
        optional_text-value c.sec_fetch_site,
        optional_text-value c.csrf,
        h.same_origin,
      )
      refl
