-- ===== src/Directory/Validation/Config/Limits.antt =====
-- The limits that `config` of auth/src/directory/directory-validation.ts accepts.
use nestjs_yalc.Prelude.{ℕ, ◌≤◌, ◌≡◌, subst, [], ◌∷◌}
use nestjs_yalc.Js.Value.{Value}
use nestjs_yalc.Directory.Errors.{Result, ok, ◌>>=◌, >>=-eq-ok, invalid_config}
use nestjs_yalc.Directory.Types.{DirectoryLimits}
use nestjs_yalc.Directory.Validation.Scalars.{integer}
use nestjs_yalc.Directory.Validation.Scalars.Integers.{integer-range}
use nestjs_yalc.Directory.Validation.Shapes.{data_of, get}
use nestjs_yalc.Directory.Validation.Config.{ceilings, limits_of}

-- From 1 to the ceiling.
abbrev pub Between : ℕ → ℕ → Type 0
Between n ceiling = (1 ≤ n) × (n ≤ ceiling)

pub record AreLimits (l : DirectoryLimits) : Type 0 where
  pub age : Between l.max_fresh_proof_age_ms ceilings.max_fresh_proof_age_ms
  pub link_count : Between l.max_links_per_account ceilings.max_links_per_account
  pub receipts :
      Between l.max_command_receipts_per_account ceilings.max_command_receipts_per_account
  pub pending : Between l.max_pending_events ceilings.max_pending_events
  pub bytes : Between l.max_record_bytes ceilings.max_record_bytes
  pub commands : Between l.max_concurrent_commands ceilings.max_concurrent_commands
  pub window : Between l.replay_window_ms ceilings.replay_window_ms
  pub row_count : Between l.max_rows_per_namespace ceilings.max_rows_per_namespace

then_limit :
    {A : Type 0} {P : Type 0} (v : Value) (ceiling : ℕ) (next : ℕ → Result A) {a : A}
    → (integer v invalid_config 1 ceiling >>= next) ≡ ok a
    → ((n : ℕ) → Between n ceiling → next n ≡ ok a → P)
    → P
then_limit v ceiling next e rest =
    let (n, valid, e₁) = >>=-eq-ok (integer v invalid_config 1 ceiling) next e in
    rest n (integer-range v invalid_config 1 ceiling valid) e₁

-- Accepted limits are from 1 to the ceiling of each.
pub limits_of-AreLimits : (raw : Value) {l : DirectoryLimits} → limits_of raw ≡ ok l → AreLimits l
unfolding limits_of
limits_of-AreLimits raw {l} e =
    let (value, _, e₀) =
      >>=-eq-ok
        (data_of raw
          ("maxFreshProofAgeMs" ∷ "maxLinksPerAccount" ∷ "maxCommandReceiptsPerAccount"
            ∷ "maxPendingEvents" ∷ "maxRecordBytes" ∷ "maxConcurrentCommands" ∷ "replayWindowMs"
            ∷ "maxRowsPerNamespace" ∷ [])
          invalid_config)
        _ e in
    then_limit (get "maxFreshProofAgeMs" value) ceilings.max_fresh_proof_age_ms _ e₀ λ a pa e₁.
      then_limit (get "maxLinksPerAccount" value) ceilings.max_links_per_account _ e₁ λ b pb e₂.
        then_limit (get "maxCommandReceiptsPerAccount" value)
          ceilings.max_command_receipts_per_account _ e₂
          λ c pc e₃.
            then_limit (get "maxPendingEvents" value) ceilings.max_pending_events _ e₃ λ d pd e₄.
              then_limit (get "maxRecordBytes" value) ceilings.max_record_bytes _ e₄ λ f pf e₅.
                then_limit (get "maxConcurrentCommands" value) ceilings.max_concurrent_commands _ e₅
                  λ g pg e₆.
                    then_limit (get "replayWindowMs" value) ceilings.replay_window_ms _ e₆
                      λ h ph e₇.
                        then_limit (get "maxRowsPerNamespace" value) ceilings.max_rows_per_namespace
                          _ e₇
                          λ i pi e₈.
                            let made : DirectoryLimits = record {
                              max_fresh_proof_age_ms = a;
                              max_links_per_account = b;
                              max_command_receipts_per_account = c;
                              max_pending_events = d;
                              max_record_bytes = f;
                              max_concurrent_commands = g;
                              replay_window_ms = h;
                              max_rows_per_namespace = i;
                            } in
                            let same : made ≡ l = cc in
                            subst (λ x. AreLimits x) same
                              (record {
                                age = pa;
                                link_count = pb;
                                receipts = pc;
                                pending = pd;
                                bytes = pf;
                                commands = pg;
                                window = ph;
                                row_count = pi;
                              })
