-- ===== src/Core/Sessions/Authenticate.antt =====
-- `authenticate` of auth/src/core/auth-core.ts.
pub mod Outcome
use nestjs_yalc.Prelude.{ℕ, String, ltb}
use nestjs_yalc.Js.Value.{Value}
use nestjs_yalc.Core.Errors.{session_denied, session_expired}
use nestjs_yalc.Core.Types.{RequestContext, AuthProfile}
use nestjs_yalc.Core.Validation.{Operation}
use nestjs_yalc.Core.Inputs.{token_input}
use nestjs_yalc.Core.Exec.{Exec, pure, lift, choose, port_call, ◌>>=◌, ◌>>◌, require}
use nestjs_yalc.Core.Host.{SessionTransaction, Host}
use nestjs_yalc.Core.Sessions.{profile, is_current, time, atomic, checked_session}

module _ {W : Type 0} (host : Host W) where
  unfoldable pub authenticate_in :
      String → RequestContext → ℕ → SessionTransaction W → Exec W AuthProfile
  unfolding checked_session
  authenticate_in token context at tx = do
    (entry, session) ← checked_session host tx token context at
    require (is_current entry.state) session_denied
    choose (ltb session.last_seen_at at)
        (port_call (tx.put_session (record session { last_seen_at = at }))) (pure tt)
    pure (profile session)

  unfoldable pub authenticate : Value → Exec W AuthProfile
  unfolding token_input time atomic authenticate_in
  authenticate raw = do
    (token, context) ← lift (token_input host.origins raw Operation.authenticate)
    at ← time host session_expired
    atomic host (authenticate_in token context at)
