-- ===== src/Core/Sessions/Logout/Ending.antt =====
-- What `logout` of auth/src/core/auth-core.ts has done when it answers that it revoked the session.
use nestjs_yalc.Prelude.{
  ℕ, ◌+◌, ◌<◌, ◌≡◌, refl, ap, ◌∙◌, true, false, none, some, String, eq_iff, arith,
}
use nestjs_yalc.Js.Value.{Value}
use nestjs_yalc.Core.Errors.{ok, session_denied}
use nestjs_yalc.Core.Types.{RequestContext, TokenEntry, current, SessionRecord, session_revoked}
use nestjs_yalc.Core.Validation.{Operation}
use nestjs_yalc.Core.Exec.After.{
  After, bind_after, exact_after, choose_after, cases_after, pure_after, then_port, then_lift,
  then_require,
}
use nestjs_yalc.Core.Host.{SessionTransaction, Host, Store, IsTransaction}
use nestjs_yalc.Core.Sessions.{or_fail, is_some, csrf_ok, check_csrf}
use nestjs_yalc.Core.Sessions.Checked.{
  or_fail-eq-ok, is_some-eq-false, is_current-eq-true, same_transport-eq-true,
}
use nestjs_yalc.Core.Sessions.Atomic.{Transacted, token_work_after}
use nestjs_yalc.Core.Sessions.Revisions.{Revoked, revoke_after}
use nestjs_yalc.Core.Sessions.Logout.{logout_found, logout_in, logout}

module _ {W : Type 0} (host : Host W) where
  -- The token was found, current, of a session of the namespace and the transport that was live and
  -- not revoked, the request was no forgery, and the session was revoked.
  pub record Ended (tx : SessionTransaction W) (token : String) (context : RequestContext) (at : ℕ)
      (w v : W) : Type 0 where
    pub entry : TokenEntry
    pub session : SessionRecord
    pub between : W
    pub middle : W
    pub found : tx.get_token host.namespace (host.sha256_hex token) w ≡ (some (some entry), between)
    pub stored :
        tx.get_session host.namespace entry.session_id between ≡ (some (some session), middle)
    pub session_here : session.namespace ≡ host.namespace
    pub of_transport : session.transport ≡ context.transport
    pub in_use : entry.state ≡ current
    pub before_end : at < session.expires_at
    pub not_idle : at < session.last_seen_at + host.idle_ttl_ms
    pub no_forgery : csrf_ok host context session ≡ true
    pub not_revoked : session.revoked_at ≡ none
    pub now_revoked : Revoked host tx session at session_revoked "logout" middle v

  logout_in_after :
      (token : String) (context : RequestContext) (at : ℕ) (tx : SessionTransaction W) (w : W)
      → After
          (logout_in host token context at tx)
          w
          (λ b v. b ≡ true → Ended tx token context at w v)
  unfolding logout_in logout_found check_csrf
  logout_in_after token context at tx w = then_port _ λ found u e₁.
      cases_after found _ _ (λ missing. pure_after false (λ e. cc))
        (λ entry e₂. then_port _ λ stored v e₃.
          then_lift (or_fail stored session_denied) λ session e₄. then_require _ _ _ λ ours.
            then_require _ _ _ λ no_forgery.
              choose_after (is_some session.revoked_at) _ _ (λ dead. pure_after false (λ e. cc))
                (λ alive. then_require _ _ _ λ live. then_require _ _ _ λ in_use. bind_after (
                  exact_after λ _ v' e₅. pure_after true (λ _. record {
                    entry = entry;
                    session = session;
                    between = u;
                    middle = v;
                    found = e₁ ∙ ap (λ o. (some o, u)) e₂;
                    stored = e₃ ∙ ap (λ o. (some o, v)) (or_fail-eq-ok stored session_denied e₄);
                    session_here = grind (arith, eq_iff);
                    of_transport = same_transport-eq-true _ _ (ground (arith, ours));
                    in_use = is_current-eq-true _ in_use;
                    before_end = ground (arith, live);
                    not_idle = ground (arith, live);
                    no_forgery = no_forgery;
                    not_revoked = is_some-eq-false _ alive;
                    now_revoked = (revoke_after host tx session at _ _ v).holds e₅;
                  }))))

  logout_after :
      (store : Store W)
      → IsTransaction host.transaction store
      → (raw : Value) (w : W)
      → After (logout host raw) w (λ b v.
        Transacted host store Operation.logout
          (λ tx token context at b w v. b ≡ true → Ended tx token context at w v)
          raw
          b
          w
          v)
  unfolding logout
  logout_after store law raw w =
      token_work_after host store law Operation.logout _ logout_in_after raw w

  -- If `logout` answers that it revoked a session, with a transaction of the store that runs its work
  -- and returns what the work returns: in the transaction of the call the token was found, current, of
  -- a session of the namespace and the transport that was neither revoked nor over nor idle for too
  -- long at the time that the clock showed in the world of the call, the request was no forgery, and
  -- the session and its event were saved as revoked, with the next revision; and the call ends in the
  -- world to which this transaction is committed.
  pub logout-Transacted :
      (store : Store W)
      → IsTransaction host.transaction store
      → (raw : Value) (w : W) {v : W} → logout host raw w ≡ (ok true, v)
      → Transacted host store Operation.logout
          (λ tx token context at b w v. Ended tx token context at w v)
          raw
          true
          w
          v
  logout-Transacted store law raw w e =
      let done = (logout_after store law raw w).holds e in
      record {
        token = done.token;
        context = done.context;
        at = done.at;
        shown_to = done.shown_to;
        after = done.after;
        read = done.read;
        shown = done.shown;
        safe = done.safe;
        done = done.done refl;
        committed = done.committed;
      }
