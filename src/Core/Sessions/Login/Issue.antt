-- ===== src/Core/Sessions/Login/Issue.antt =====
-- What `login` of auth/src/core/auth-core.ts has done when it returns a session.
use nestjs_yalc.Prelude.{
  ℕ, ◌+◌, ◌≤◌, ◌≡◌, ◌≢◌, refl, ap, ◌∙◌, true, false, ◌||◌, Option, none, some, String, eq_iff,
  arith, if◌then◌else◌, truthy,
}
use nestjs_yalc.Js.Value.{Value, number, nat}
use nestjs_yalc.Directory.Validation.Scalars.{max_safe_integer}
use nestjs_yalc.Core.Errors.{ok, authentication_denied, invalid_config}
use nestjs_yalc.Core.Types.{SessionRecord, session_created, IssuedSession, VerifiedIdentity}
use nestjs_yalc.Core.Validation.{verified_identity, resolved_account}
use nestjs_yalc.Core.Inputs.{LoginInput, login_input}
use nestjs_yalc.Core.Exec.{Port}
use nestjs_yalc.Core.Exec.After.{
  After, bind_after, exact_after, pure_after, port_after, then_port, then_lift, then_require,
}
use nestjs_yalc.Core.Host.{SessionTransaction, Host, Store, IsTransaction}
use nestjs_yalc.Core.Sessions.{profile, current_token, draw, event_for, or_fail, is_same}
use nestjs_yalc.Core.Sessions.Checked.{or_fail-eq-ok, time_after}
use nestjs_yalc.Core.Sessions.Atomic.{atomic_after}
use nestjs_yalc.Core.Sessions.Revisions.{write_event_after}
use nestjs_yalc.Core.Sessions.Login.{first_record, insert_login, draw_csrf, login}

module _ {W : Type 0} (host : Host W) where
  -- The session was inserted, then its token, then the event of it.
  pub record Inserted (session : SessionRecord) (token : String) (at : ℕ)
      (tx : SessionTransaction W) (w v : W) : Type 0 where
    pub between : W
    pub middle : W
    pub inserted : tx.insert_session session w ≡ (some true, between)
    pub added :
        tx.insert_token (current_token host token session.session_id) between ≡ (some true, middle)
    pub told :
        tx.put_event (event_for host session session_created at "login") middle ≡ (some true, v)

  insert_login_after :
      (session : SessionRecord) (token : String) (at : ℕ) (tx : SessionTransaction W) (w : W)
      → After (insert_login host session token at tx) w (λ u v. Inserted session token at tx w v)
  unfolding insert_login
  insert_login_after session token at tx w = then_port _ λ done u e₁. then_require _ _ _ λ yes.
      then_port _ λ done' v e₂. then_require _ _ _ λ yes'. exact_after λ _ v' e₃. record {
        between = u;
        middle = v;
        inserted = e₁ ∙ ap (λ b. (some b, u)) yes;
        added = e₂ ∙ ap (λ b. (some b, v)) yes';
        told = (write_event_after host tx session session_created at "login" v).holds e₃;
      }

  -- The identity was claimed by the provider of the input and verified at a time that the clock
  -- showed, the account is the one that it resolves to, and the drawn credentials of the session are
  -- different from each other.
  pub record Issued (store : Store W) (raw : Value) (s : IssuedSession) (w v : W) : Type 0 where
    pub input : LoginInput
    pub verify : Value → Port W Value
    pub identity : VerifiedIdentity
    pub claim : Value
    pub account : Value
    pub account_id : String
    pub session_id : String
    pub csrf : Option String
    pub at : ℕ
    pub w₁ : W
    pub w₂ : W
    pub w₃ : W
    pub w₄ : W
    pub w₅ : W
    pub w₆ : W
    pub w₇ : W
    pub read : login_input host.origins raw ≡ ok input
    pub provided : host.providers input.provider_id ≡ some verify
    pub shown : host.now w ≡ (some (number (nat at)), w₁)
    pub claimed : verify input.proof w₁ ≡ (some claim, w₂)
    pub verified : verified_identity claim at ≡ ok identity
    pub resolved : host.resolve_identity identity w₂ ≡ (some account, w₃)
    pub of_account : resolved_account account ≡ ok account_id
    pub drawn_session : draw host w₃ ≡ (ok session_id, w₄)
    pub drawn_token : draw host w₄ ≡ (ok s.token, w₅)
    pub drawn_csrf : draw_csrf host input.context w₅ ≡ (ok csrf, w₆)
    pub different : session_id ≢ s.token
    pub other_csrf : is_same session_id csrf || is_same s.token csrf ≡ false
    pub small : at + host.absolute_ttl_ms ≤ max_safe_integer
    pub new_profile :
        s.profile
        ≡ profile (
            first_record host session_id account_id input.provider_id identity input.context at
              csrf)
    pub same_csrf : s.csrf_token ≡ (if truthy csrf then csrf else none)
    pub inserted :
        Inserted
          (first_record host session_id account_id input.provider_id identity input.context at csrf)
          s.token
          at
          store.tx
          (store.begin w₆)
          w₇
    pub committed : store.commit w₇ ≡ v

  login_after :
      (store : Store W)
      → IsTransaction host.transaction store
      → (raw : Value) (w : W) → After (login host raw) w (λ s v. Issued store raw s w v)
  unfolding login
  login_after store law raw w = then_lift (login_input host.origins raw) λ input read.
      then_lift (or_fail (host.providers input.provider_id) authentication_denied) λ verify e₀.
        bind_after (
          exact_after λ at w₁ e₁. bind_after (
            port_after _ _ λ claim w₂ e₂.
              then_lift (verified_identity claim at) λ identity verified. bind_after (
                port_after _ _ λ account w₃ e₃.
                  then_lift (resolved_account account) λ account_id of_account. bind_after (
                    exact_after λ session_id w₄ e₄. bind_after (
                      exact_after λ token w₅ e₅. bind_after (
                        exact_after λ csrf w₆ e₆. then_require _ _ _ λ distinct.
                          then_require _ _ _ λ small. bind_after (
                            exact_after λ _ w₇ e₇. pure_after _ (
                              let ran = (atomic_after host store law _ w₆).holds e₇ in
                              record {
                                w₇ = ran.after;
                                committed = ran.committed;
                                input = input;
                                verify = verify;
                                identity = identity;
                                claim = claim;
                                account = account;
                                account_id = account_id;
                                session_id = session_id;
                                csrf = csrf;
                                at = at;
                                w₁ = w₁;
                                w₂ = w₂;
                                w₃ = w₃;
                                w₄ = w₄;
                                w₅ = w₅;
                                w₆ = w₆;
                                read = read;
                                provided = or_fail-eq-ok _ authentication_denied e₀;
                                shown = ((time_after host invalid_config w).holds e₁).0;
                                claimed = e₂;
                                verified = verified;
                                resolved = e₃;
                                of_account = of_account;
                                drawn_session = e₄;
                                drawn_token = e₅;
                                drawn_csrf = e₆;
                                different = grind (arith, eq_iff);
                                other_csrf = ground (arith, distinct);
                                small = ground (arith, small);
                                new_profile = refl;
                                same_csrf = refl;
                                inserted =
                                    (insert_login_after _ token at store.tx (store.begin w₆)).holds
                                      ran.ran;
                              }))))))))

  -- If `login` returns a session, with a transaction of the store that runs its work and returns what
  -- the work returns: the input names a provider, the provider's claim at the time that the clock
  -- showed in the world of the call is a verified identity, whose account it is; the three credentials
  -- are drawn and different; it ends after the configured time, at a safe integer; the session, its
  -- token and its event were inserted in the transaction that began after the draws, in this order;
  -- and the call ends in the world to which this transaction is committed.
  pub login-Issued :
      (store : Store W)
      → IsTransaction host.transaction store
      → (raw : Value) (w : W) {s : IssuedSession} {v : W} → login host raw w ≡ (ok s, v)
      → Issued store raw s w v
  login-Issued store law raw w e = (login_after store law raw w).holds e
