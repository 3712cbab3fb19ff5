-- ===== src/Core/Sessions/Refresh.antt =====
-- `refresh` of auth/src/core/auth-core.ts.
pub mod Rotation
pub mod Reuse
use nestjs_yalc.Prelude.{ℕ, not, ◌||◌, none, String, ◌==◌, if◌then◌else◌}
use nestjs_yalc.Js.Value.{Value}
use nestjs_yalc.Core.Errors.{
  session_expired, session_reused, credential_collision, Result, ok, fail,
}
use nestjs_yalc.Core.Types.{
  RequestContext, TokenEntry, rotated, SessionRecord, EventKind, session_refreshed, IssuedSession,
}
use nestjs_yalc.Core.Validation.{Operation, is_cookie}
use nestjs_yalc.Core.Inputs.{token_input}
use nestjs_yalc.Core.Exec.{Exec, pure, lift, choose, port_call, ◌>>=◌, ◌>>◌, require}
use nestjs_yalc.Core.Host.{SessionTransaction, Host}
use nestjs_yalc.Core.Sessions.{
  profile, next_revision, is_current, draw, time, atomic, write_event, checked_session,
  current_token, revoke,
}

-- What the transaction of `refresh` returns.
pub data Refreshed : Type 0 where
  reused : Refreshed
  issued : IssuedSession → Refreshed

-- `if (outcome.reused) fail(…); return outcome.issued;`
abbrev pub unless_reused : Refreshed → Result IssuedSession
unless_reused reused = fail session_reused
unless_reused (issued session) = ok session

module _ {W : Type 0} (host : Host W) where
  unfoldable pub rotate :
      String
      → RequestContext
      → ℕ
      → SessionTransaction W
      → TokenEntry
      → SessionRecord
      → Exec W Refreshed
  unfolding draw next_revision write_event
  rotate token context at tx entry session = do
    next_token ← draw host
    require (not (next_token == token || next_token == session.session_id)) credential_collision
    revision ← lift (next_revision session.revision)
    let next_record : SessionRecord = record session { last_seen_at = at; revision = revision }
    port_call (tx.put_token (record entry { state = rotated }))
    inserted ← port_call (tx.insert_token (current_token host next_token session.session_id))
    require inserted credential_collision
    port_call (tx.put_session next_record)
    write_event host tx next_record session_refreshed at "refresh"
    pure (
        issued (record {
          token = next_token;
          csrf_token = if is_cookie context.transport then context.csrf else none;
          profile = profile next_record;
        }))

  -- A token that was rotated before revokes the session.
  unfoldable pub refresh_in : String → RequestContext → ℕ → SessionTransaction W → Exec W Refreshed
  unfolding checked_session revoke rotate
  refresh_in token context at tx = do
    (entry, session) ← checked_session host tx token context at
    choose (is_current entry.state) (rotate token context at tx entry session)
        (revoke host tx session at EventKind.session_reused "refresh_reuse" >> pure reused)

  unfoldable pub refresh : Value → Exec W IssuedSession
  unfolding token_input time atomic refresh_in
  refresh raw = do
    (token, context) ← lift (token_input host.origins raw Operation.refresh)
    at ← time host session_expired
    outcome ← atomic host (refresh_in token context at)
    lift (unless_reused outcome)
