-- ===== src/Core/Sessions.antt =====
-- The operations of createAuthCore in auth/src/core/auth-core.ts, on what the options give.
pub mod Checked
pub mod Atomic
pub mod Revisions
pub mod Login
pub mod Authenticate
pub mod Refresh
pub mod Logout
pub mod RevokeAll
use nestjs_yalc.Prelude.{
  ℕ, ◌+◌, Bool, true, false, not, ◌&&◌, ◌||◌, Option, none, some, List, [], ◌∷◌, String, ◌==◌, ltb,
  leb, nat_eq, if◌then◌else◌, length, truthy,
}
use nestjs_yalc.Js.Value.{Value, number, nat, string, byte_array}
use nestjs_yalc.Js.Base64.{base64url}
use nestjs_yalc.Js.Json
use nestjs_yalc.Js.Json.{canonical}
use nestjs_yalc.Directory.Validation.Scalars.{max_safe_integer}
use nestjs_yalc.Directory.Validation.Shapes.{get}
use nestjs_yalc.Core.Errors.{
  AuthErrorCode, invalid_config, invalid_input, authentication_denied, authentication_unavailable,
  session_denied, session_expired, csrf_denied, session_reused, storage_unavailable,
  credential_collision, Result, ok, err, fail,
}
use nestjs_yalc.Core.Types.{
  Transport, cookie, bearer, RequestContext, VerifiedIdentity, AuthProfile, TokenEntry, TokenState,
  current, rotated, SessionRecord, SessionEvent, EventKind, session_created, session_refreshed,
  session_revoked, IssuedSession,
}
use nestjs_yalc.Core.Validation.{
  safe_time, fits, text_of, Operation, is_cookie, is_safe_method, verified_identity,
  resolved_account,
}
use nestjs_yalc.Core.Inputs.{LoginInput, login_input, token_input}
use nestjs_yalc.Core.Exec.{
  Exec, Port, pure, raise, lift, choose, port, port_call, cases, ◌>>=◌, ◌>>◌, require,
}
use nestjs_yalc.Core.Host.{SessionTransaction, Outcome, returned, threw, threw_other, Host}

abbrev pub profile : SessionRecord → AuthProfile
profile session = record {
  account_id = session.account_id;
  session_id = session.session_id;
  issuer = session.issuer;
  subject = session.subject;
  provider_id = session.provider_id;
  auth_time = session.auth_time;
  methods = session.methods;
  expires_at = session.expires_at;
}

abbrev pub kind_text : EventKind → String
kind_text session_created = "session_created"
kind_text session_refreshed = "session_refreshed"
kind_text session_revoked = "session_revoked"
kind_text EventKind.session_reused = "session_reused"

-- The text `JSON.stringify([…])` whose hash names an event.
unfoldable pub event_text : SessionRecord → EventKind → String
event_text session kind = canonical (
    Json.array (
      Json.item (Json.string session.namespace) (
        Json.item (Json.string session.session_id) (
          Json.item (Json.number (nat session.revision))
            (Json.item (Json.string (kind_text kind)) Json.nil)))))

unfoldable pub next_revision : ℕ → Result ℕ
next_revision value =
    if leb value max_safe_integer && ltb 0 value && ltb value max_safe_integer
    then ok (value + 1)
    else fail storage_unavailable

-- 32 bytes as base64url.
unfoldable pub drawn : Value → Result String
drawn (byte_array others bs) =
    if nat_eq (length bs) 32 then ok (base64url bs) else fail invalid_config
drawn _ = fail invalid_config

abbrev pub is_current : TokenState → Bool
is_current current = true
is_current rotated = false

abbrev pub is_some : Option ℕ → Bool
is_some none = false
is_some (some at) = true

abbrev pub same_transport : Transport → Transport → Bool
same_transport cookie cookie = true
same_transport bearer bearer = true
same_transport _ _ = false

abbrev pub or_fail : {A : Type 0} → Option A → AuthErrorCode → Result A
or_fail none code = fail code
or_fail (some a) code = ok a

-- `validText(csrf) && csrfHash && hash(csrf) === csrfHash`
abbrev pub csrf_matches : (String → String) → Option String → Option String → Bool
csrf_matches hash (some csrf) (some stored) =
    fits csrf 4096 && truthy (some stored) && hash csrf == stored
csrf_matches hash _ _ = false

-- `sessionId === csrfToken` of a token that may be missing
abbrev pub is_same : String → Option String → Bool
is_same s none = false
is_same s (some t) = s == t

-- What ends a transaction as the code's own result or error.
abbrev pub concluded : {A : Type 0} → Outcome A → Result A
concluded (returned a) = ok a
concluded (threw code) = err code
concluded threw_other = err storage_unavailable

abbrev pub revoked : SessionRecord → ℕ → ℕ → SessionRecord
revoked session at revision = record session { revoked_at = some at; revision = revision }

module _ {W : Type 0} (host : Host W) where
  unfoldable pub draw : Exec W String
  unfolding drawn
  draw = do bytes ← port (host.random_bytes 32) invalid_config; lift (drawn bytes)

  unfoldable pub time : AuthErrorCode → Exec W ℕ
  unfolding safe_time
  time code = do value ← port host.now code; lift (safe_time value code)

  unfoldable pub atomic : {A : Type 0} → (SessionTransaction W → Exec W A) → Exec W A
  atomic work w = let (outcome, w') = host.transaction _ work w in (concluded outcome, w')

  unfoldable pub event_for : SessionRecord → EventKind → ℕ → String → SessionEvent
  unfolding event_text
  event_for session kind at reason = record {
    event_id = host.sha256_hex (event_text session kind);
    namespace = session.namespace;
    kind = kind;
    at = at;
    session_id = session.session_id;
    revision = session.revision;
    reason = reason;
  }

  unfoldable pub write_event :
      SessionTransaction W → SessionRecord → EventKind → ℕ → String → Exec W (Unit {0})
  unfolding event_for
  write_event tx session kind at reason = do
    written ← port_call (tx.put_event (event_for session kind at reason))
    require written storage_unavailable

  -- The request is not one that needs a token, or its token is the session's.
  unfoldable pub csrf_ok : RequestContext → SessionRecord → Bool
  csrf_ok context session =
      not (is_cookie context.transport)
      || is_safe_method context.method
      || csrf_matches host.sha256_hex context.csrf session.csrf_hash

  unfoldable pub check_csrf : RequestContext → SessionRecord → Exec W (Unit {0})
  unfolding csrf_ok
  check_csrf context session = require (csrf_ok context session) csrf_denied

  abbrev pub is_ours : SessionRecord → TokenEntry → RequestContext → Bool
  is_ours session entry context =
      session.namespace == host.namespace
      && session.session_id == entry.session_id
      && same_transport session.transport context.transport
      && not (is_some session.revoked_at)

  abbrev pub is_live : SessionRecord → ℕ → Bool
  is_live session at =
      leb session.created_at at
      && leb session.last_seen_at at
      && leb session.auth_time at
      && ltb at session.expires_at
      && ltb at (session.last_seen_at + host.idle_ttl_ms)

  unfoldable pub checked_session :
      SessionTransaction W → String → RequestContext → ℕ → Exec W (TokenEntry × SessionRecord)
  unfolding check_csrf
  checked_session tx token context at = do
    found ← port_call (tx.get_token host.namespace (host.sha256_hex token))
    entry ← lift (or_fail found session_denied)
    require (entry.namespace == host.namespace) session_denied
    stored ← port_call (tx.get_session host.namespace entry.session_id)
    session ← lift (or_fail stored session_denied)
    require (is_ours session entry context) session_denied
    require (is_live session at) session_expired
    check_csrf context session
    pure (entry, session)

  abbrev pub current_token : String → String → TokenEntry
  current_token token session_id = record {
    namespace = host.namespace;
    token_hash = host.sha256_hex token;
    session_id = session_id;
    state = current;
  }

  -- `await tx.putSession(revoked); await writeEvent(…)` of a session with a new revision
  unfoldable pub revoke :
      SessionTransaction W → SessionRecord → ℕ → EventKind → String → Exec W (Unit {0})
  unfolding next_revision write_event
  revoke tx session at kind reason = do
    revision ← lift (next_revision session.revision)
    port_call (tx.put_session (revoked session at revision))
    write_event tx (revoked session at revision) kind at reason
