-- ===== src/Core/Sessions/RevokeAll.antt =====
-- `revokeAll` of auth/src/core/auth-core.ts.
pub mod Revocations
use nestjs_yalc.Prelude.{ℕ, ◌+◌, Bool, not, ◌&&◌, List, [], ◌∷◌, String, ◌==◌}
use nestjs_yalc.Js.Value.{Value}
use nestjs_yalc.Core.Errors.{invalid_input, session_expired}
use nestjs_yalc.Core.Types.{SessionRecord, session_revoked}
use nestjs_yalc.Core.Validation.{text_of}
use nestjs_yalc.Core.Exec.{Exec, pure, lift, choose, port_call, ◌>>=◌, ◌>>◌}
use nestjs_yalc.Core.Host.{SessionTransaction, Host}
use nestjs_yalc.Core.Sessions.{is_some, time, atomic, revoke}

module _ {W : Type 0} (host : Host W) where
  -- `record` is revoked by `revokeAll`.
  abbrev pub is_revocable : String → SessionRecord → Bool
  is_revocable account_id session =
      session.namespace == host.namespace
      && session.account_id == account_id
      && not (is_some session.revoked_at)

  unfoldable pub revoke_each : String → ℕ → SessionTransaction W → List SessionRecord → ℕ → Exec W ℕ
  unfolding revoke
  revoke_each account_id at tx [] count = pure count
  revoke_each account_id at tx (session ∷ rest) count =
      choose (is_revocable account_id session)
        (revoke host tx session at session_revoked "revoke_all"
          >> revoke_each account_id at tx rest (count + 1))
        (revoke_each account_id at tx rest count)

  unfoldable pub revoke_all_in : String → ℕ → SessionTransaction W → Exec W ℕ
  unfolding revoke_each
  revoke_all_in account_id at tx = do
    sessions ← port_call (tx.list_sessions host.namespace account_id)
    revoke_each account_id at tx sessions 0

  -- The field `revoked` of the answer.
  unfoldable pub revoke_all : Value → Exec W ℕ
  unfolding text_of time atomic revoke_all_in
  revoke_all raw = do
    account_id ← lift (text_of raw 512 invalid_input)
    at ← time host session_expired
    atomic host (revoke_all_in account_id at)
