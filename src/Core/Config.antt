-- ===== src/Core/Config.antt =====
-- The configuration of auth/src/core: `validateConfig` of auth-validation.ts, on the options that
-- createAuthCore of auth-core.ts reads. A getter that throws makes an option one that is refused. The
-- parser of URLs is a parameter: the origin and the protocol of a text, if it is a URL.
use nestjs_yalc.Prelude.{
  ℕ, ◌≤◌, ◌<◌, ◌≡◌, refl, subst, Bool, true, false, not, ◌&&◌, Option, none, some, List, [], ◌∷◌,
  String, ◌==◌, ltb, leb, nat_eq, if◌then◌else◌, all, any, distinct, arith,
}
use nestjs_yalc.Js.Value.{Value, number, nat, string, callable}
use nestjs_yalc.Js.Text.{codes}
use nestjs_yalc.Directory.Validation.Scalars.{max_safe_integer}
use nestjs_yalc.Core.Errors.{
  invalid_config, Result, ok, fail, check, ◌>>=◌, ◌>>◌, >>=-eq-ok, check-eq-ok, if-eq-ok,
  ok-injective,
}
use nestjs_yalc.Core.Validation.{fits, text_of}

-- `providers` is none if it is no Map, and `allowed_origins` if it has no elements to read.
pub record AuthCoreOptions : Type 0 where
  pub namespace : Value
  pub absolute_ttl_ms : Value
  pub idle_ttl_ms : Value
  pub allowed_origins : Option (List Value)
  pub providers : Option (List (Value × Value))
  pub resolve_identity : Value
  pub transaction : Value
  pub now : Value
  pub random_bytes : Value

-- The data of the settings; the functions are those of the options.
pub record Settings : Type 0 where
  pub namespace : String
  pub absolute_ttl_ms : ℕ
  pub idle_ttl_ms : ℕ
  pub origins : List String
  pub provider_ids : List String

abbrev pub is_function : Value → Bool
is_function callable = true
is_function _ = false

abbrev pub or_invalid : {A : Type 0} → Option A → Result A
or_invalid none = fail invalid_config
or_invalid (some a) = ok a

-- A safe integer above 0.
unfoldable pub ttl : Value → Result ℕ
ttl (number (nat n)) = if leb n max_safe_integer && ltb 0 n then ok n else fail invalid_config
ttl _ = fail invalid_config

module _ (parse_url : String → Option (String × String)) where
  -- `parsed.origin === origin && parsed.protocol === 'https:'`
  unfoldable pub is_https_origin : String → Bool
  is_https_origin origin = judged (parse_url origin)
    where
      judged : Option (String × String) → Bool
      judged none = false
      judged (some (parsed, protocol)) = parsed == origin && protocol == "https:"

  unfoldable pub origin_ok : String → Bool
  unfolding is_https_origin
  origin_ok origin =
      fits origin 2048 && not (any (λ c. nat_eq c b'*') (codes origin)) && is_https_origin origin

  unfoldable pub origins_of : List Value → Result (List String)
  unfolding origin_ok
  origins_of [] = ok []
  origins_of (string origin ∷ rest) = do
    check (origin_ok origin) invalid_config
    origins ← origins_of rest
    ok (origin ∷ origins)
  origins_of _ = fail invalid_config

  unfoldable pub provider_ids_of : List (Value × Value) → Result (List String)
  unfolding text_of
  provider_ids_of [] = ok []
  provider_ids_of ((id, verify) ∷ rest) = do
    id' ← text_of id 80 invalid_config
    check (is_function verify) invalid_config
    ids ← provider_ids_of rest
    ok (id' ∷ ids)

  unfoldable pub settings_of : AuthCoreOptions → Result Settings
  unfolding text_of ttl origins_of provider_ids_of
  settings_of options = do
    values ← or_invalid options.allowed_origins
    entries ← or_invalid options.providers
    namespace ← text_of options.namespace 128 invalid_config
    absolute ← ttl options.absolute_ttl_ms
    idle ← ttl options.idle_ttl_ms
    check (leb idle absolute) invalid_config
    origins ← origins_of values
    check (distinct origins) invalid_config
    ids ← provider_ids_of entries
    check
        (is_function options.resolve_identity
          && is_function options.transaction
          && is_function options.now
          && is_function options.random_bytes)
        invalid_config
    ok (record {
      namespace = namespace;
      absolute_ttl_ms = absolute;
      idle_ttl_ms = idle;
      origins = origins;
      provider_ids = ids;
    })

  ttl-eq-ok : (v : Value) {n : ℕ} → ttl v ≡ ok n → (0 < n) × (n ≤ max_safe_integer)
  unfolding ttl
  ttl-eq-ok (number (nat m)) e =
      let (low, same) = if-eq-ok _ m invalid_config e in
      (ground (arith, low, same), ground (arith, low, same))
  ttl-eq-ok _ e = cc

  origins_of-eq-ok :
      (values : List Value) {origins : List String}
      → origins_of values ≡ ok origins
      → all (λ origin. origin_ok origin) origins ≡ true
  unfolding origins_of
  origins_of-eq-ok [] {origins} e =
      let same : [] ≡ origins = ok-injective e in
      subst (λ x. all (λ origin. origin_ok origin) x ≡ true) same refl
  origins_of-eq-ok (string origin ∷ rest) {origins} e =
      let (good, e₁) = check-eq-ok (origin_ok origin) invalid_config _ e in
      let (tail, e₂, e₃) = >>=-eq-ok (origins_of rest) _ e₁ in
      let same : origin ∷ tail ≡ origins = ok-injective e₃ in
      subst (λ x. all (λ origin. origin_ok origin) x ≡ true) same
        (rw (good) (origins_of-eq-ok rest e₂))
  origins_of-eq-ok (_ ∷ rest) e = cc

  -- The times are positive and safe, the idle one is not the longer one, and the origins are distinct
  -- origins of https without an asterisk.
  pub record AreSettings (s : Settings) : Type 0 where
    pub positive : 0 < s.idle_ttl_ms
    pub ordered : s.idle_ttl_ms ≤ s.absolute_ttl_ms
    pub safe : s.absolute_ttl_ms ≤ max_safe_integer
    pub https : all (λ origin. origin_ok origin) s.origins ≡ true
    pub different : distinct s.origins ≡ true

  -- Options that are accepted give settings of this kind.
  pub settings_of-AreSettings :
      (options : AuthCoreOptions) {s : Settings} → settings_of options ≡ ok s → AreSettings s
  unfolding settings_of
  settings_of-AreSettings options {s} e =
      let (values, _, e₁) = >>=-eq-ok (or_invalid options.allowed_origins) _ e in
      let (entries, _, e₂) = >>=-eq-ok (or_invalid options.providers) _ e₁ in
      let (namespace, _, e₃) = >>=-eq-ok (text_of options.namespace 128 invalid_config) _ e₂ in
      let (absolute, h₁, e₄) = >>=-eq-ok (ttl options.absolute_ttl_ms) _ e₃ in
      let (idle, h₂, e₅) = >>=-eq-ok (ttl options.idle_ttl_ms) _ e₄ in
      let (ordered, e₆) = check-eq-ok (leb idle absolute) invalid_config _ e₅ in
      let (origins, h₃, e₇) = >>=-eq-ok (origins_of values) _ e₆ in
      let (different, e₈) = check-eq-ok (distinct origins) invalid_config _ e₇ in
      let (ids, _, e₉) = >>=-eq-ok (provider_ids_of entries) _ e₈ in
      let (_, e₁₀) =
        check-eq-ok
          (is_function options.resolve_identity
            && is_function options.transaction
            && is_function options.now
            && is_function options.random_bytes)
          invalid_config _ e₉ in
      let made : Settings = record {
        namespace = namespace;
        absolute_ttl_ms = absolute;
        idle_ttl_ms = idle;
        origins = origins;
        provider_ids = ids;
      } in
      let same : made ≡ s = ok-injective e₁₀ in
      subst (λ x. AreSettings x) same
        (record {
          positive = (ttl-eq-ok options.idle_ttl_ms h₂).0;
          ordered = ground (arith, ordered);
          safe = (ttl-eq-ok options.absolute_ttl_ms h₁).1;
          https = origins_of-eq-ok values h₃;
          different = different;
        })
