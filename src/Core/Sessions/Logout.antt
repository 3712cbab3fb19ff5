-- ===== src/Core/Sessions/Logout.antt =====
-- `logout` of auth/src/core/auth-core.ts.
pub mod Ending
use nestjs_yalc.Prelude.{ℕ, ◌+◌, Bool, true, false, ◌&&◌, String, ◌==◌, ltb, leb}
use nestjs_yalc.Js.Value.{Value}
use nestjs_yalc.Core.Errors.{session_denied, session_expired}
use nestjs_yalc.Core.Types.{RequestContext, TokenEntry, SessionRecord, session_revoked}
use nestjs_yalc.Core.Validation.{Operation}
use nestjs_yalc.Core.Inputs.{token_input}
use nestjs_yalc.Core.Exec.{Exec, pure, lift, choose, port_call, cases, ◌>>=◌, ◌>>◌, require}
use nestjs_yalc.Core.Host.{SessionTransaction, Host}
use nestjs_yalc.Core.Sessions.{
  is_current, is_some, same_transport, or_fail, time, atomic, check_csrf, revoke,
}

module _ {W : Type 0} (host : Host W) where
  abbrev pub logout_ours : SessionRecord → RequestContext → Bool
  logout_ours session context =
      session.namespace == host.namespace && same_transport session.transport context.transport

  -- The times of `logout`; that of the authentication is not looked at.
  abbrev pub logout_live : SessionRecord → ℕ → Bool
  logout_live session at =
      leb session.created_at at
      && leb session.last_seen_at at
      && ltb at session.expires_at
      && ltb at (session.last_seen_at + host.idle_ttl_ms)

  unfoldable pub logout_found : RequestContext → ℕ → SessionTransaction W → TokenEntry → Exec W Bool
  unfolding check_csrf revoke
  logout_found context at tx entry = do
    stored ← port_call (tx.get_session host.namespace entry.session_id)
    session ← lift (or_fail stored session_denied)
    require (logout_ours session context) session_denied
    check_csrf host context session
    choose (is_some session.revoked_at) (pure false) do
      require (logout_live session at) session_expired
      require (is_current entry.state) session_denied
      revoke host tx session at session_revoked "logout"
      pure true

  unfoldable pub logout_in : String → RequestContext → ℕ → SessionTransaction W → Exec W Bool
  unfolding logout_found
  logout_in token context at tx = do
    found ← port_call (tx.get_token host.namespace (host.sha256_hex token))
    cases found (pure false) (logout_found context at tx)

  -- The field `revoked` of the answer.
  unfoldable pub logout : Value → Exec W Bool
  unfolding token_input time atomic logout_in
  logout raw = do
    (token, context) ← lift (token_input host.origins raw Operation.logout)
    at ← time host session_expired
    atomic host (logout_in token context at)
