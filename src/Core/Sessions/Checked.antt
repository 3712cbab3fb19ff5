-- ===== src/Core/Sessions/Checked.antt =====
-- What `checkedSession` and `time` of auth/src/core/auth-core.ts have found when they return.
use nestjs_yalc.Prelude.{
  ℕ, ◌+◌, ◌≤◌, ◌<◌, ◌≡◌, refl, sym, ap, ◌∙◌, true, false, Option, none, some, String, eq_iff, arith,
}
use nestjs_yalc.Js.Value.{Value, number, nat}
use nestjs_yalc.Directory.Validation.Scalars.{max_safe_integer}
use nestjs_yalc.Core.Errors.{AuthErrorCode, ok, session_denied, if-eq-ok}
use nestjs_yalc.Core.Types.{
  RequestContext, Transport, cookie, bearer, TokenEntry, TokenState, current, rotated,
  SessionRecord,
}
use nestjs_yalc.Core.Validation.{safe_time}
use nestjs_yalc.Core.Exec.After.{
  After, bind_after, lift_after, pure_after, port_after, then_lift, then_require, then_port,
}
use nestjs_yalc.Core.Host.{SessionTransaction, Host}
use nestjs_yalc.Core.Sessions.{
  is_current, is_some, same_transport, or_fail, csrf_ok, check_csrf, checked_session, time,
}

pub or_fail-eq-ok :
    {A : Type 0} (o : Option A) (code : AuthErrorCode) {a : A} → or_fail o code ≡ ok a → o ≡ some a
or_fail-eq-ok none code e = cc
or_fail-eq-ok (some b) code e = cc

pub safe_time-eq-ok :
    (value : Value) (code : AuthErrorCode) {at : ℕ}
    → safe_time value code ≡ ok at
    → (value ≡ number (nat at)) × (at ≤ max_safe_integer)
unfolding safe_time
safe_time-eq-ok (number (nat n)) code e =
    let (small, same) = if-eq-ok _ n code e in
    (ap (λ x. number (nat x)) (sym same), ground (arith, small, same))
safe_time-eq-ok _ code e = cc

pub same_transport-eq-true : (s t : Transport) → same_transport s t ≡ true → s ≡ t
same_transport-eq-true cookie cookie e = refl
same_transport-eq-true bearer bearer e = refl
same_transport-eq-true cookie bearer e = cc
same_transport-eq-true bearer cookie e = cc

pub is_some-eq-false : (o : Option ℕ) → is_some o ≡ false → o ≡ none
is_some-eq-false none e = refl
is_some-eq-false (some n) e = cc

pub is_current-eq-true : (s : TokenState) → is_current s ≡ true → s ≡ current
is_current-eq-true current e = refl
is_current-eq-true rotated e = cc

module _ {W : Type 0} (host : Host W) where
  -- The session that a token stands for, at a time: its entry and its record were found, both are of
  -- the namespace, the record is of the entry's session and of the transport, it is not revoked, and
  -- at this time it has begun and is neither over nor idle for too long. A request that needs one has
  -- the token against forgery.
  pub record Checked (tx : SessionTransaction W) (token : String) (context : RequestContext)
      (at : ℕ) (entry : TokenEntry) (session : SessionRecord) (w v : W) : Type 0 where
    pub between : W
    pub found : tx.get_token host.namespace (host.sha256_hex token) w ≡ (some (some entry), between)
    pub stored : tx.get_session host.namespace entry.session_id between ≡ (some (some session), v)
    pub entry_here : entry.namespace ≡ host.namespace
    pub session_here : session.namespace ≡ host.namespace
    pub of_entry : session.session_id ≡ entry.session_id
    pub of_transport : session.transport ≡ context.transport
    pub not_revoked : session.revoked_at ≡ none
    pub created : session.created_at ≤ at
    pub seen : session.last_seen_at ≤ at
    pub authenticated : session.auth_time ≤ at
    pub before_end : at < session.expires_at
    pub not_idle : at < session.last_seen_at + host.idle_ttl_ms
    pub no_forgery : csrf_ok host context session ≡ true

  pub checked_session_after :
      (tx : SessionTransaction W) (token : String) (context : RequestContext) (at : ℕ) (w : W)
      → After
          (checked_session host tx token context at)
          w
          (λ (found : TokenEntry × SessionRecord) v.
            Checked tx token context at found.0 found.1 w v)
  unfolding checked_session check_csrf
  checked_session_after tx token context at w = then_port _ λ found u e₁.
      then_lift (or_fail found session_denied) λ entry e₂. then_require _ _ _ λ here.
        then_port _ λ stored v e₃. then_lift (or_fail stored session_denied) λ session e₄.
          then_require _ _ _ λ ours. then_require _ _ _ λ live. then_require _ _ _ λ no_forgery.
            pure_after _ (record {
              between = u;
              found = e₁ ∙ ap (λ o. (some o, u)) (or_fail-eq-ok found session_denied e₂);
              stored = e₃ ∙ ap (λ o. (some o, v)) (or_fail-eq-ok stored session_denied e₄);
              entry_here = grind (arith, eq_iff);
              session_here = grind (arith, eq_iff);
              of_entry = grind (arith, eq_iff);
              of_transport = same_transport-eq-true _ _ (ground (arith, ours));
              not_revoked = is_some-eq-false _ (ground (arith, ours));
              created = ground (arith, live);
              seen = ground (arith, live);
              authenticated = ground (arith, live);
              before_end = ground (arith, live);
              not_idle = ground (arith, live);
              no_forgery = no_forgery;
            })

  -- A time is what the clock shows, a natural number that is safe.
  pub time_after :
      (code : AuthErrorCode) (w : W)
      → After
          (time host code)
          w
          (λ at v. (host.now w ≡ (some (number (nat at)), v)) × (at ≤ max_safe_integer))
  unfolding time
  time_after code w = bind_after (
      port_after host.now code λ value v e. lift_after (safe_time value code) λ at e'.
        let (shown, small) = safe_time-eq-ok value code e' in
        (e ∙ ap (λ x. (some x, v)) shown, small))
