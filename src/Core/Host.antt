-- ===== src/Core/Host.antt =====
-- What createAuthCore of auth/src/core/auth-core.ts is given, when its options are valid. The ports
-- and the store are not code of the repository, so they are parameters.
use nestjs_yalc.Prelude.{ℕ, ◌≡◌, Bool, Option, String, List}
use nestjs_yalc.Js.Value.{Value}
use nestjs_yalc.Core.Errors.{AuthErrorCode, ok}
use nestjs_yalc.Core.Types.{VerifiedIdentity, TokenEntry, SessionRecord, SessionEvent}
use nestjs_yalc.Core.Exec.{Exec, Port}

pub record SessionTransaction (W : Type 0) : Type 0 where
  pub get_token : String → String → Port W (Option TokenEntry)
  pub get_session : String → String → Port W (Option SessionRecord)
  pub put_token : TokenEntry → Port W (Unit {0})
  pub put_session : SessionRecord → Port W (Unit {0})
  pub insert_session : SessionRecord → Port W Bool
  pub insert_token : TokenEntry → Port W Bool
  pub put_event : SessionEvent → Port W Bool
  pub list_sessions : String → String → Port W (List SessionRecord)

-- How a transaction ends: it returns, it throws an AuthError of this code, or it throws anything else.
pub data Outcome (A : Type 0) : Type 0 where
  returned : A → Outcome A
  threw : AuthErrorCode → Outcome A
  threw_other : Outcome A

abbrev pub Transaction : Type 0 → Type 1
Transaction W = (A : Type 0) → (SessionTransaction W → Exec W A) → W → Outcome A × W

pub record Host (W : Type 0) : Type 1 where
  pub namespace : String
  pub origins : List String
  pub absolute_ttl_ms : ℕ
  pub idle_ttl_ms : ℕ
  -- `providers.get(id)`
  pub providers : String → Option (Value → Port W Value)
  pub resolve_identity : VerifiedIdentity → Port W Value
  pub transaction : Transaction W
  pub now : Port W Value
  pub random_bytes : ℕ → Port W Value
  -- createHash('sha256').update(text).digest('hex') of node:crypto
  pub sha256_hex : String → String

-- What the work of a transaction is given, and how the store takes a world into a transaction and out
-- of one that returns.
pub record Store (W : Type 0) : Type 0 where
  pub tx : SessionTransaction W
  pub begin : W → W
  pub commit : W → W

-- A transaction that began in `w` ran the work with this access, which returned `a`, and ended in `v`.
pub record RanTo {W A : Type 0} (store : Store W) (work : SessionTransaction W → Exec W A) (a : A)
    (w v : W) : Type 0 where
  pub after : W
  pub ran : work store.tx (store.begin w) ≡ (ok a, after)
  pub committed : store.commit after ≡ v

-- What `transaction<T>(work): Promise<T>` documents: one atomic unit, the work awaited under it, and
-- it returns what the work returned.
pub record IsTransaction {W : Type 0} (transaction : Transaction W) (store : Store W) : Type 1 where
  pub returns :
      {A : Type 0} (work : SessionTransaction W → Exec W A) (w : W) {a : A} {v : W}
      → transaction A work w ≡ (returned a, v)
      → RanTo store work a w v
