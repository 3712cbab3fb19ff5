-- ===== src/Core/Sessions/RevokeAll/Revocations.antt =====
-- What `revokeAll` of auth/src/core/auth-core.ts has revoked.
use nestjs_yalc.Prelude.{ℕ, ◌+◌, ◌≡◌, refl, some, List, [], ◌∷◌, String, length, filter, arith}
use nestjs_yalc.Js.Value.{Value, number, nat}
use nestjs_yalc.Core.Errors.{ok, session_expired, invalid_input}
use nestjs_yalc.Core.Types.{SessionRecord, session_revoked}
use nestjs_yalc.Core.Validation.{text_of}
use nestjs_yalc.Core.Exec.After.{
  After, bind_after, exact_after, choose_after, pure_after, then_port, then_lift,
}
use nestjs_yalc.Core.Host.{SessionTransaction, Host, Store, IsTransaction}
use nestjs_yalc.Core.Sessions.Checked.{time_after}
use nestjs_yalc.Core.Sessions.Atomic.{atomic_after}
use nestjs_yalc.Core.Sessions.Revisions.{Revoked, revoke_after}
use nestjs_yalc.Core.Sessions.RevokeAll.{is_revocable, revoke_each, revoke_all_in, revoke_all}

module _ {W : Type 0} (host : Host W) where
  abbrev pub revocable : String → List SessionRecord → List SessionRecord
  revocable account_id sessions = filter (is_revocable host account_id) sessions

  -- The sessions were revoked one after the other.
  abbrev pub InTurn : SessionTransaction W → ℕ → List SessionRecord → W → W → Type 0
  InTurn tx at [] w v = w ≡ v
  InTurn tx at (session ∷ rest) w v =
      (u : W) × Revoked host tx session at session_revoked "revoke_all" w u × InTurn tx at rest u v

  module _ (account_id : String) (at : ℕ) (tx : SessionTransaction W) where
    revoke_each_after :
        (sessions : List SessionRecord) (count : ℕ) (w : W)
        → After (revoke_each host account_id at tx sessions count) w (λ n v.
          (n ≡ count + length (revocable account_id sessions))
          × InTurn tx at (revocable account_id sessions) w v)
    unfolding revoke_each
    revoke_each_after [] count w = pure_after count (omega arith, refl)
    revoke_each_after (session ∷ rest) count w =
        choose_after (is_revocable host account_id session) _ _
          (λ yes. bind_after (
            exact_after λ _ u e. exact_after λ n v e'.
              let (total, turns) = (revoke_each_after rest (count + 1) u).holds e' in
              rw (yes, filter)
                ((
                  omega (arith, total),
                  (u, (revoke_after host tx session at _ _ w).holds e, turns),
                ))))
          (λ other. rw (other, filter) (revoke_each_after rest count w))

  -- What `revokeAll` has done, between the worlds `w` and `v` of the call, that returned `n`.
  pub record RevokedAll (store : Store W) (account_id : String) (n : ℕ) (w v : W) : Type 0 where
    pub at : ℕ
    pub shown_to : W
    pub middle : W
    pub after : W
    pub sessions : List SessionRecord
    pub shown : host.now w ≡ (some (number (nat at)), shown_to)
    pub listed :
        store.tx.list_sessions host.namespace account_id (store.begin shown_to)
        ≡ (some sessions, middle)
    pub in_turn : InTurn store.tx at (revocable account_id sessions) middle after
    pub counted : n ≡ length (revocable account_id sessions)
    pub committed : store.commit after ≡ v

  revoke_all_in_after :
      (account_id : String) (at : ℕ) (tx : SessionTransaction W) (w : W)
      → After (revoke_all_in host account_id at tx) w (λ n v.
        (sessions : List SessionRecord) × (u : W) × (tx.list_sessions host.namespace account_id w
          ≡ (some sessions, u))
        × (n ≡ length (revocable account_id sessions))
        × InTurn tx at (revocable account_id sessions) u v)
  unfolding revoke_all_in
  revoke_all_in_after account_id at tx w = then_port _ λ sessions u listed. exact_after λ n v e.
      let (total, turns) = (revoke_each_after account_id at tx sessions 0 u).holds e in
      (sessions, u, listed, omega (arith, total), turns)

  revoke_all_after :
      (store : Store W)
      → IsTransaction host.transaction store
      → (raw : Value) (w : W)
      → After (revoke_all host raw) w (λ n v.
        (account_id : String) × (text_of raw 512 invalid_input ≡ ok account_id)
        × RevokedAll store account_id n w v)
  unfolding revoke_all
  revoke_all_after store law raw w = then_lift (text_of raw 512 invalid_input) λ account_id read.
      bind_after (
        exact_after λ at u e.
          let (shown, small) = (time_after host session_expired w).holds e in
          exact_after λ n v e'.
            let ran = (atomic_after host store law (revoke_all_in host account_id at) u).holds e' in
            let (sessions, middle, listed, total, turns) =
              (revoke_all_in_after account_id at store.tx (store.begin u)).holds ran.ran in
            (
              account_id,
              read,
              record {
                at = at;
                shown_to = u;
                middle = middle;
                after = ran.after;
                sessions = sessions;
                shown = shown;
                listed = listed;
                in_turn = turns;
                counted = total;
                committed = ran.committed;
              },
            ))

  -- If `revokeAll` returns a count, with a transaction of the store that runs its work and returns
  -- what the work returns: it is the number of the sessions that the store listed for the account in
  -- the transaction of the call and that are of the namespace and the account and not revoked; exactly
  -- these were revoked, one after the other, each with its event, at the time that the clock showed in
  -- the world of the call; and the call ends in the world to which this transaction is committed.
  pub revoke_all-RevokedAll :
      (store : Store W)
      → IsTransaction host.transaction store
      → (raw : Value) (w : W) {n : ℕ} {v : W} → revoke_all host raw w ≡ (ok n, v)
      → (account_id : String) × (text_of raw 512 invalid_input ≡ ok account_id)
        × RevokedAll store account_id n w v
  revoke_all-RevokedAll store law raw w e = (revoke_all_after store law raw w).holds e
