-- ===== src/Core/Sessions/Authenticate/Outcome.antt =====
-- What `authenticate` of auth/src/core/auth-core.ts has done when it returns a profile.
use nestjs_yalc.Prelude.{ℕ, ◌≤◌, ◌≡◌, refl, some, String, ◌⊎◌, inl, inr, ltb, arith}
use nestjs_yalc.Js.Value.{Value}
use nestjs_yalc.Core.Errors.{ok}
use nestjs_yalc.Core.Types.{RequestContext, AuthProfile, TokenEntry, current, SessionRecord}
use nestjs_yalc.Core.Validation.{Operation}
use nestjs_yalc.Core.Exec.{pure, choose, port_call}
use nestjs_yalc.Core.Exec.After.{
  After, bind_after, exact_after, choose_after, pure_after, port_call_after, then_require,
}
use nestjs_yalc.Core.Host.{SessionTransaction, Host, Store, IsTransaction}
use nestjs_yalc.Core.Sessions.{profile}
use nestjs_yalc.Core.Sessions.Checked.{Checked, checked_session_after, is_current-eq-true}
use nestjs_yalc.Core.Sessions.Atomic.{Transacted, token_work_after}
use nestjs_yalc.Core.Sessions.Authenticate.{authenticate_in, authenticate}

module _ {W : Type 0} (host : Host W) where
  -- In a transaction, the token was that of a checked session and current, the profile is that of the
  -- session, and the session was saved as seen at this time if it was seen before it.
  pub record Seen (tx : SessionTransaction W) (token : String) (context : RequestContext) (at : ℕ)
      (p : AuthProfile) (w v : W) : Type 0 where
    pub entry : TokenEntry
    pub session : SessionRecord
    pub middle : W
    pub checked : Checked host tx token context at entry session w middle
    pub in_use : entry.state ≡ current
    pub same_profile : p ≡ profile session
    pub touched :
        ((at ≡ session.last_seen_at) × (middle ≡ v))
        ⊎ (tx.put_session (record session { last_seen_at = at }) middle ≡ (some tt, v))

  touch_after :
      (tx : SessionTransaction W) (session : SessionRecord) (at : ℕ) (v : W)
      → session.last_seen_at ≤ at
      → After
          (choose
            (ltb session.last_seen_at at)
            (port_call (tx.put_session (record session { last_seen_at = at })))
            (pure tt))
          v
          (λ u v'.
            ((at ≡ session.last_seen_at) × (v ≡ v'))
            ⊎ (tx.put_session (record session { last_seen_at = at }) v ≡ (some tt, v')))
  touch_after tx session at v past =
      choose_after _ _ _ (λ later. port_call_after _ (λ u v' e. inr e))
        (λ same. pure_after tt (inl (ground (arith, same, past), refl)))

  authenticate_in_after :
      (token : String) (context : RequestContext) (at : ℕ) (tx : SessionTransaction W) (w : W)
      → After (authenticate_in host token context at tx) w (λ p v. Seen tx token context at p w v)
  unfolding authenticate_in
  authenticate_in_after token context at tx w = bind_after (
      exact_after λ found v e.
        let checked = (checked_session_after host tx token context at w).holds e in
        then_require _ _ _ λ in_use. bind_after (
          exact_after λ u v' e'. pure_after _ (record {
            entry = found.0;
            session = found.1;
            middle = v;
            checked = checked;
            in_use = is_current-eq-true _ in_use;
            same_profile = refl;
            touched = (touch_after tx found.1 at v checked.seen).holds e';
          })))

  authenticate_after :
      (store : Store W)
      → IsTransaction host.transaction store
      → (raw : Value) (w : W)
      → After
          (authenticate host raw)
          w
          (λ p v. Transacted host store Operation.authenticate Seen raw p w v)
  unfolding authenticate
  authenticate_after store law raw w =
      token_work_after host store law Operation.authenticate _ authenticate_in_after raw w

  -- If `authenticate` returns a profile, with a transaction of the store that runs its work and
  -- returns what the work returns: the input is one that `tokenInput` reads; and in the transaction of
  -- the call the token was found, current, of a session that passes every check at the time that the
  -- clock showed in the world of the call, the profile is that of the session, and the session was
  -- saved as seen at that time if it was seen before it; and the call ends in the world to which
  -- this transaction is committed.
  pub authenticate-Transacted :
      (store : Store W)
      → IsTransaction host.transaction store
      → (raw : Value) (w : W) {p : AuthProfile} {v : W} → authenticate host raw w ≡ (ok p, v)
      → Transacted host store Operation.authenticate Seen raw p w v
  authenticate-Transacted store law raw w e = (authenticate_after store law raw w).holds e
