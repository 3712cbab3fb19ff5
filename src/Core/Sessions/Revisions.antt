-- ===== src/Core/Sessions/Revisions.antt =====
-- The revisions and events of auth/src/core/auth-core.ts, and what a revocation has stored.
use nestjs_yalc.Prelude.{ℕ, ◌+◌, ◌≤◌, ◌<◌, ◌≡◌, ap, sym, subst, ◌∙◌, true, some, String, arith}
use nestjs_yalc.Directory.Validation.Scalars.{max_safe_integer}
use nestjs_yalc.Core.Errors.{ok, if-eq-ok, storage_unavailable}
use nestjs_yalc.Core.Types.{SessionRecord, EventKind}
use nestjs_yalc.Core.Exec.{Exec, lift, ◌>>=◌}
use nestjs_yalc.Core.Exec.After.{After, exact_after, require_after, then_lift, then_port}
use nestjs_yalc.Core.Host.{SessionTransaction, Host}
use nestjs_yalc.Core.Sessions.{next_revision, event_for, write_event, revoked, revoke}

next_revision-eq-ok :
    (value : ℕ) {next : ℕ}
    → next_revision value ≡ ok next
    → (next ≡ value + 1) × (0 < value) × (next ≤ max_safe_integer)
unfolding next_revision
next_revision-eq-ok value e =
    let (bounded, same) = if-eq-ok _ (value + 1) storage_unavailable e in
    (same, ground (arith, bounded), ground (arith, bounded, same))

-- A revision that has a next one is positive and below the greatest safe integer.
pub then_revision :
    {W B : Type 0} {w : W} {Q : B → W → Type 0} (value : ℕ) (f : ℕ → Exec W B)
    → (0 < value → value < max_safe_integer → After (f (value + 1)) w Q)
    → After (lift (next_revision value) >>= f) w Q
then_revision {w = w} {Q} value f rest = then_lift (next_revision value) λ next e.
    let (same, positive, bounded) = next_revision-eq-ok value e in
    subst (λ n. After (f n) w Q) (sym same) (rest positive (omega (arith, same, bounded)))

module _ {W : Type 0} (host : Host W) (tx : SessionTransaction W) where
  pub write_event_after :
      (session : SessionRecord) (kind : EventKind) (at : ℕ) (reason : String) (w : W)
      → After
          (write_event host tx session kind at reason)
          w
          (λ u v. tx.put_event (event_for host session kind at reason) w ≡ (some true, v))
  unfolding write_event
  write_event_after session kind at reason w =
      then_port _ λ written v e.
        require_after written storage_unavailable λ yes. e ∙ ap (λ b. (some b, v)) yes

  -- The session was saved as revoked at this time, with its next revision, and then the event of it.
  pub record Revoked (session : SessionRecord) (at : ℕ) (kind : EventKind) (reason : String)
      (w v : W) : Type 0 where
    pub middle : W
    pub numbered : 0 < session.revision
    pub bounded : session.revision < max_safe_integer
    pub saved : tx.put_session (revoked session at (session.revision + 1)) w ≡ (some tt, middle)
    pub told :
        tx.put_event
          (event_for host (revoked session at (session.revision + 1)) kind at reason)
          middle
        ≡ (some true, v)

  pub revoke_after :
      (session : SessionRecord) (at : ℕ) (kind : EventKind) (reason : String) (w : W)
      → After (revoke host tx session at kind reason) w (λ u v. Revoked session at kind reason w v)
  unfolding revoke
  revoke_after session at kind reason w = then_revision session.revision _ λ positive bounded.
      then_port _ λ u v saved. exact_after λ u' v' e. record {
        middle = v;
        numbered = positive;
        bounded = bounded;
        saved = saved;
        told =
            (write_event_after (revoked session at (session.revision + 1)) kind at reason v).holds
              e;
      }
