-- ===== src/Core/Sessions/Login.antt =====
-- `login` of auth/src/core/auth-core.ts.
pub mod Issue
use nestjs_yalc.Prelude.{
  ℕ, ◌+◌, not, ◌||◌, Option, none, some, String, ◌==◌, leb, if◌then◌else◌, truthy,
}
use nestjs_yalc.Js.Value.{Value}
use nestjs_yalc.Directory.Validation.Scalars.{max_safe_integer}
use nestjs_yalc.Core.Errors.{
  invalid_config, authentication_denied, authentication_unavailable, credential_collision,
}
use nestjs_yalc.Core.Types.{
  RequestContext, VerifiedIdentity, SessionRecord, session_created, IssuedSession,
}
use nestjs_yalc.Core.Validation.{is_cookie, verified_identity, resolved_account}
use nestjs_yalc.Core.Inputs.{login_input}
use nestjs_yalc.Core.Exec.{Exec, pure, lift, choose, port, port_call, ◌>>=◌, ◌>>◌, require}
use nestjs_yalc.Core.Host.{SessionTransaction, Host}
use nestjs_yalc.Core.Sessions.{
  profile, or_fail, is_same, draw, time, atomic, write_event, current_token,
}

-- `csrfToken ? hash(csrfToken) : null`
abbrev pub csrf_hash_of : (String → String) → Option String → Option String
csrf_hash_of hash none = none
csrf_hash_of hash (some csrf) = if truthy (some csrf) then some (hash csrf) else none

module _ {W : Type 0} (host : Host W) where
  abbrev pub first_record :
      String
      → String
      → String
      → VerifiedIdentity
      → RequestContext
      → ℕ
      → Option String
      → SessionRecord
  first_record session_id account_id provider_id identity context at csrf = record {
    namespace = host.namespace;
    session_id = session_id;
    account_id = account_id;
    issuer = identity.issuer;
    subject = identity.subject;
    provider_id = provider_id;
    auth_time = identity.auth_time;
    methods = identity.methods;
    transport = context.transport;
    created_at = at;
    last_seen_at = at;
    expires_at = at + host.absolute_ttl_ms;
    csrf_hash = csrf_hash_of host.sha256_hex csrf;
    revoked_at = none;
    revision = 1;
  }

  -- The work of the transaction of `login`.
  unfoldable pub insert_login :
      SessionRecord → String → ℕ → SessionTransaction W → Exec W (Unit {0})
  unfolding write_event
  insert_login session token at tx = do
    inserted ← port_call (tx.insert_session session)
    require inserted credential_collision
    added ← port_call (tx.insert_token (current_token host token session.session_id))
    require added credential_collision
    write_event host tx session session_created at "login"

  -- `context.transport === 'cookie' ? draw() : undefined`
  unfoldable pub draw_csrf : RequestContext → Exec W (Option String)
  unfolding draw
  draw_csrf context =
      choose (is_cookie context.transport) (draw host >>= λ csrf. pure (some csrf)) (pure none)

  unfoldable pub login : Value → Exec W IssuedSession
  unfolding login_input draw time verified_identity resolved_account draw_csrf atomic insert_login
  login raw = do
    input ← lift (login_input host.origins raw)
    verify ← lift (or_fail (host.providers input.provider_id) authentication_denied)
    at ← time host invalid_config
    claim ← port (verify input.proof) authentication_unavailable
    identity ← lift (verified_identity claim at)
    account ← port (host.resolve_identity identity) authentication_unavailable
    account_id ← lift (resolved_account account)
    session_id ← draw host
    token ← draw host
    csrf ← draw_csrf input.context
    require (not (session_id == token || is_same session_id csrf || is_same token csrf))
        credential_collision
    require (leb (at + host.absolute_ttl_ms) max_safe_integer) invalid_config
    let session =
        first_record session_id account_id input.provider_id identity input.context at csrf
    atomic host (insert_login session token at)
    pure (record {
      token = token;
      csrf_token = if truthy csrf then csrf else none;
      profile = profile session;
    })
