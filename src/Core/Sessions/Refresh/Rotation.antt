-- ===== src/Core/Sessions/Refresh/Rotation.antt =====
-- What `refresh` of auth/src/core/auth-core.ts has done when its transaction returns.
use nestjs_yalc.Prelude.{
  ℕ, ◌+◌, ◌<◌, ◌≡◌, ◌≢◌, refl, ap, subst, ◌∙◌, true, false, none, some, String, eq_iff, arith,
  if◌then◌else◌,
}
use nestjs_yalc.Js.Value.{Value}
use nestjs_yalc.Directory.Validation.Scalars.{max_safe_integer}
use nestjs_yalc.Core.Errors.{ok, session_expired}
use nestjs_yalc.Core.Types.{
  RequestContext, TokenEntry, TokenState, current, rotated, SessionRecord, EventKind,
  session_refreshed, IssuedSession,
}
use nestjs_yalc.Core.Validation.{Operation, is_cookie}
use nestjs_yalc.Core.Inputs.{token_input}
use nestjs_yalc.Core.Exec.After.{
  After, bind_after, exact_after, choose_after, pure_after, lift_after, then_port, then_lift,
  then_require,
}
use nestjs_yalc.Core.Host.{SessionTransaction, Host, Store, IsTransaction}
use nestjs_yalc.Core.Sessions.{profile, is_current, current_token, draw, event_for}
use nestjs_yalc.Core.Sessions.Checked.{
  Checked, checked_session_after, time_after, is_current-eq-true,
}
use nestjs_yalc.Core.Sessions.Atomic.{Transacted, atomic_after}
use nestjs_yalc.Core.Sessions.Revisions.{then_revision, write_event_after, Revoked, revoke_after}
use nestjs_yalc.Core.Sessions.Refresh.{
  Refreshed, reused, issued, rotate, refresh_in, unless_reused, refresh,
}

is_current-eq-false : (s : TokenState) → is_current s ≡ false → s ≡ rotated
is_current-eq-false rotated e = refl
is_current-eq-false current e = cc

module _ {W : Type 0} (host : Host W) (tx : SessionTransaction W) (token : String)
    (context : RequestContext) (at : ℕ) where
  abbrev pub renewed : SessionRecord → SessionRecord
  renewed session = record session { last_seen_at = at; revision = session.revision + 1 }

  -- A new token was drawn, other than the old one and the session's identifier; then these were
  -- stored: the old token as rotated, the new one as current, the session as seen at this time and
  -- with its next revision, and the event of it.
  pub record Rotated (entry : TokenEntry) (session : SessionRecord) (s : IssuedSession) (w v : W)
      : Type 0 where
    pub drawn_to : W
    pub put_to : W
    pub added_to : W
    pub saved_to : W
    pub drawn : draw host w ≡ (ok s.token, drawn_to)
    pub new_token : s.token ≢ token
    pub no_session : s.token ≢ session.session_id
    pub bounded : session.revision < max_safe_integer
    pub retired : tx.put_token (record entry { state = rotated }) drawn_to ≡ (some tt, put_to)
    pub added :
        tx.insert_token (current_token host s.token session.session_id) put_to
        ≡ (some true, added_to)
    pub saved : tx.put_session (renewed session) added_to ≡ (some tt, saved_to)
    pub told :
        tx.put_event (event_for host (renewed session) session_refreshed at "refresh") saved_to
        ≡ (some true, v)
    pub new_profile : s.profile ≡ profile (renewed session)
    pub same_csrf : s.csrf_token ≡ (if is_cookie context.transport then context.csrf else none)

  -- What the transaction returned, and what it has stored.
  abbrev pub Kept : TokenEntry → SessionRecord → Refreshed → W → W → Type 0
  Kept entry session reused w v =
      (entry.state ≡ rotated)
      × Revoked host tx session at EventKind.session_reused "refresh_reuse" w v
  Kept entry session (issued s) w v = (entry.state ≡ current) × Rotated entry session s w v

  rotate_after :
      (entry : TokenEntry) (session : SessionRecord) (w : W)
      → entry.state ≡ current
      → After (rotate host token context at tx entry session) w (λ r v. Kept entry session r w v)
  unfolding rotate
  rotate_after entry session w live = bind_after (
      exact_after λ next u e₀. then_require _ _ _ λ distinct.
        then_revision session.revision _ λ positive bounded. then_port _ λ _ v₁ e₂.
          then_port _ λ inserted v₂ e₃. then_require _ _ _ λ yes. then_port _ λ _ v₃ e₄.
            bind_after (
              exact_after λ _ v e₅. pure_after _ (
                live,
                record {
                  drawn_to = u;
                  put_to = v₁;
                  added_to = v₂;
                  saved_to = v₃;
                  drawn = e₀;
                  new_token = grind (arith, eq_iff);
                  no_session = grind (arith, eq_iff);
                  bounded = bounded;
                  retired = e₂;
                  added = e₃ ∙ ap (λ b. (some b, v₂)) yes;
                  saved = e₄;
                  told =
                      (write_event_after host tx (renewed session) session_refreshed at "refresh"
                          v₃).holds
                        e₅;
                  new_profile = refl;
                  same_csrf = refl;
                },
              )))

  -- What the transaction of `refresh` has done, whatever it returned.
  pub record Refresh (r : Refreshed) (w v : W) : Type 0 where
    pub entry : TokenEntry
    pub session : SessionRecord
    pub middle : W
    pub checked : Checked host tx token context at entry session w middle
    pub kept : Kept entry session r middle v

  pub refresh_in_after :
      (w : W) → After (refresh_in host token context at tx) w (λ r v. Refresh r w v)
  unfolding refresh_in
  refresh_in_after w = bind_after (
      exact_after λ found u e.
        let checked = (checked_session_after host tx token context at w).holds e in
        exact_after λ r v e'. record {
          entry = found.0;
          session = found.1;
          middle = u;
          checked = checked;
          kept =
              (choose_after _ _ _
                  (λ live. rotate_after found.0 found.1 u (is_current-eq-true _ live))
                  (λ dead. bind_after (
                    exact_after λ _ u' e''. pure_after _ (
                      is_current-eq-false _ dead,
                      (revoke_after host tx found.1 at _ _ u).holds e'',
                    )))).holds
                e';
        })

module _ {W : Type 0} (host : Host W) where
  abbrev pub Renewed :
      SessionTransaction W → String → RequestContext → ℕ → IssuedSession → W → W → Type 0
  Renewed tx token context at s w v =
      (entry : TokenEntry) × (session : SessionRecord) × (middle : W) × Checked host tx token
        context at entry session w middle
      × (entry.state ≡ current)
      × Rotated host tx token context at entry session s middle v

  unless_reused-eq-ok : (r : Refreshed) {s : IssuedSession} → unless_reused r ≡ ok s → r ≡ issued s
  unless_reused-eq-ok reused e = cc
  unless_reused-eq-ok (issued s) e = cc

  Refresh-Renewed :
      {tx : SessionTransaction W} {token : String} {context : RequestContext} {at : ℕ}
      {r : Refreshed} {s : IssuedSession} {w v : W}
      → Refresh host tx token context at r w v
      → r ≡ issued s
      → Renewed tx token context at s w v
  Refresh-Renewed {tx} {token} {context} {at} {s = s} {v = v} done same =
      let kept : Kept host tx token context at done.entry done.session (issued s) done.middle v =
        subst (λ r. Kept host tx token context at done.entry done.session r done.middle v) same
          done.kept in
      (done.entry, done.session, done.middle, done.checked, kept.0, kept.1)

  refresh_after :
      (store : Store W)
      → IsTransaction host.transaction store
      → (raw : Value) (w : W)
      → After
          (refresh host raw)
          w
          (λ s v. Transacted host store Operation.refresh Renewed raw s w v)
  unfolding refresh
  refresh_after store law raw w =
      then_lift (token_input host.origins raw Operation.refresh) λ input read. bind_after (
        exact_after λ at u e.
          let (shown, small) = (time_after host session_expired w).holds e in
          bind_after (
            exact_after λ outcome v e'.
              let ran =
                (atomic_after host store law (refresh_in host input.0 input.1 at) u).holds e' in
              lift_after (unless_reused outcome) λ s e''. record {
                committed = ran.committed;
                token = input.0;
                context = input.1;
                at = at;
                shown_to = u;
                after = ran.after;
                read = read;
                shown = shown;
                safe = small;
                done =
                    Refresh-Renewed
                      ((refresh_in_after host store.tx input.0 input.1 at (store.begin u)).holds
                        ran.ran)
                      (unless_reused-eq-ok outcome e'');
              }))

  -- If `refresh` returns a session, with a transaction of the store that runs its work and returns
  -- what the work returns: in the transaction of the call the token was found, current, of a session
  -- that passes every check at the time that the clock showed in the world of the call; and then the
  -- token was retired, a token of 32 drawn bytes, other than it, was added, and the session and its
  -- event were saved with the next revision, in this order; and the call ends in the world to which
  -- this transaction is committed.
  pub refresh-Transacted :
      (store : Store W)
      → IsTransaction host.transaction store
      → (raw : Value) (w : W) {s : IssuedSession} {v : W} → refresh host raw w ≡ (ok s, v)
      → Transacted host store Operation.refresh Renewed raw s w v
  refresh-Transacted store law raw w e = (refresh_after store law raw w).holds e

  -- If the work of the transaction of `refresh` returns that a token is reused, then the token was found rotated, of a
  -- session that passes every check, the session was saved as revoked with its next revision, and then
  -- the event of the reuse was.
  pub reuse-Revoked :
      (tx : SessionTransaction W) (token : String) (context : RequestContext) (at : ℕ) (w : W)
      {v : W}
      → refresh_in host token context at tx w ≡ (ok reused, v)
      → (entry : TokenEntry) × (session : SessionRecord) × (middle : W) × Checked host tx token
          context at entry session w middle
        × (entry.state ≡ rotated)
        × Revoked host tx session at EventKind.session_reused "refresh_reuse" middle v
  reuse-Revoked tx token context at w e =
      let done = (refresh_in_after host tx token context at w).holds e in
      (done.entry, done.session, done.middle, done.checked, done.kept.0, done.kept.1)
