-- ===== src/Core/Types.antt =====
-- auth/src/core/auth-types.ts. A field that is missing and one that is null are `none`. The store
-- answers records of these types, whose numbers are natural ones.
use nestjs_yalc.Prelude.{ℕ, Option, String, List}

pub data Transport : Type 0 where
  cookie bearer : Transport

pub record RequestContext : Type 0 where
  pub transport : Transport
  pub method : String
  pub origin : Option String
  pub sec_fetch_site : Option String
  pub csrf : Option String

pub record VerifiedIdentity : Type 0 where
  pub issuer : String
  pub subject : String
  pub auth_time : ℕ
  pub methods : List String

pub record AuthProfile : Type 0 where
  pub account_id : String
  pub session_id : String
  pub issuer : String
  pub subject : String
  pub provider_id : String
  pub auth_time : ℕ
  pub methods : List String
  pub expires_at : ℕ

pub data TokenState : Type 0 where
  current rotated : TokenState

pub record TokenEntry : Type 0 where
  pub namespace : String
  pub token_hash : String
  pub session_id : String
  pub state : TokenState

pub record SessionRecord : Type 0 where
  pub namespace : String
  pub session_id : String
  pub account_id : String
  pub issuer : String
  pub subject : String
  pub provider_id : String
  pub auth_time : ℕ
  pub methods : List String
  pub transport : Transport
  pub created_at : ℕ
  pub last_seen_at : ℕ
  pub expires_at : ℕ
  pub csrf_hash : Option String
  pub revoked_at : Option ℕ
  pub revision : ℕ

pub data EventKind : Type 0 where
  session_created session_refreshed session_revoked session_reused : EventKind

pub record SessionEvent : Type 0 where
  pub event_id : String
  pub namespace : String
  pub kind : EventKind
  pub at : ℕ
  pub session_id : String
  pub revision : ℕ
  pub reason : String

pub record IssuedSession : Type 0 where
  pub token : String
  pub csrf_token : Option String
  pub profile : AuthProfile
