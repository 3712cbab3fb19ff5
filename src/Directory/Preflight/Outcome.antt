-- ===== src/Directory/Preflight/Outcome.antt =====
-- What `preflight` of auth/src/directory/directory-core.ts has found out about a command.
use nestjs_yalc.Prelude.{
  ℕ, ◌+◌, ◌≤◌, ◌<◌, ◌≡◌, refl, subst, sym, true, Option, none, some, ◌⊎◌, inl, inr, ◌==◌, eq_iff,
  arith,
}
use nestjs_yalc.Directory.Errors.{ok}
use nestjs_yalc.Directory.Types.{IdentityRow, CommandRow}
use nestjs_yalc.Directory.Host.{Host, DirectoryTx}
use nestjs_yalc.Directory.Exec.{Closure}
use nestjs_yalc.Directory.Exec.After.{After, pure_after, exact_after, then_run, then_require}
use nestjs_yalc.Directory.Reads.{none_or, revision, stored_command}
use nestjs_yalc.Directory.Reads.Commands.{stored_command_after}
use nestjs_yalc.Directory.Preflight.{
  Intent, Plan, target_allowed, receipt_matches, assert_receipt, same_revision, has_capacity,
  stored_target, counted, require_unused, require_actor, examine, planned, preflight,
}

module _ {W : Type 0} (h : Host W) (tx : DirectoryTx W) (intent : Intent) where
  -- Four counts leave room for the five rows of a mutation.
  pub record Room (target : Option IdentityRow) (count link_count commands pending : ℕ)
      : Type 0 where
    pub rows : count + 5 ≤ h.limits.max_rows_per_namespace
    pub account_links : link_count ≤ h.limits.max_links_per_account
    pub new_link : target ≡ none → link_count < h.limits.max_links_per_account
    pub receipts : commands < h.limits.max_command_receipts_per_account
    pub events : pending < h.limits.max_pending_events

  -- A plan of a new command, made between two closures: what was read in the transaction, in the order
  -- in which it was, and what holds of it.
  pub record Open (plan : Plan) (c d : Closure W) : Type 0 where
    pub count : ℕ
    pub link_count : ℕ
    pub commands : ℕ
    pub pending : ℕ
    pub c₁ : Closure W
    pub c₂ : Closure W
    pub c₃ : Closure W
    pub c₄ : Closure W
    pub c₅ : Closure W
    pub c₆ : Closure W
    pub c₇ : Closure W
    pub target_read : stored_target h tx intent.target c ≡ (ok plan.target, c₁)
    pub revision_read : revision h tx intent.account_id c₁ ≡ (ok plan.revision, c₂)
    pub consent_unused : require_unused h tx intent.consent_id c₂ ≡ (ok tt, c₃)
    pub rows_counted : counted h tx tx.count_rows c₃ ≡ (ok count, c₄)
    pub links_counted : counted h tx (tx.count_links intent.account_id) c₄ ≡ (ok link_count, c₅)
    pub commands_counted : counted h tx (tx.count_commands intent.account_id) c₅ ≡ (ok commands, c₆)
    pub events_counted : counted h tx tx.count_pending_events c₆ ≡ (ok pending, c₇)
    pub no_receipt : plan.receipt ≡ none
    pub allowed :
        target_allowed intent.action intent.account_id intent.provider_id plan.target ≡ true
    pub unchanged : same_revision h tx intent.actor plan.revision ≡ true
    pub room : Room plan.target count link_count commands pending

  has_capacity-Room :
      (target : Option IdentityRow) (count link_count commands pending : ℕ)
      → has_capacity h tx target count link_count commands pending ≡ true
      → Room target count link_count commands pending
  unfolding has_capacity
  has_capacity-Room none count link_count commands pending e = record {
    rows = ground (arith, e);
    account_links = ground (arith, e);
    new_link = λ absent. ground (arith, e);
    receipts = ground (arith, e);
    events = ground (arith, e);
  }
  has_capacity-Room (some row) count link_count commands pending e = record {
    rows = ground (arith, e);
    account_links = ground (arith, e);
    new_link = λ absent. cc;
    receipts = ground (arith, e);
    events = ground (arith, e);
  }

  examine_after : (c : Closure W) → After (examine h tx intent) c (λ plan d. Open plan c d)
  unfolding examine
  examine_after c = then_run _ λ target c₁ e₁. then_require _ _ _ λ allowed.
      then_run _ λ current c₂ e₂. then_require _ _ _ λ unchanged. then_run _ λ u c₃ e₃.
        then_run _ λ count c₄ e₄. then_run _ λ link_count c₅ e₅. then_run _ λ commands c₆ e₆.
          then_run _ λ pending c₇ e₇. then_require _ _ _ λ room. then_run _ λ rows c₈ e₈.
            pure_after _ (record {
              count = count;
              link_count = link_count;
              commands = commands;
              pending = pending;
              c₁ = c₁;
              c₂ = c₂;
              c₃ = c₃;
              c₄ = c₄;
              c₅ = c₅;
              c₆ = c₆;
              c₇ = c₇;
              target_read = e₁;
              revision_read = e₂;
              consent_unused = e₃;
              rows_counted = e₄;
              links_counted = e₅;
              commands_counted = e₆;
              events_counted = e₇;
              no_receipt = refl;
              allowed = allowed;
              unchanged = unchanged;
              room = has_capacity-Room target count link_count commands pending room;
            })

  -- A plan of a command whose receipt is stored.
  abbrev pub Repeated : Plan → Type 0
  Repeated plan =
      (receipt : CommandRow) × (plan.receipt ≡ some receipt)
      × (receipt.command_id ≡ intent.horizon.command_id)
      × (receipt.account_id ≡ intent.account_id)
      × (receipt.intent_digest ≡ intent.digest)
      × (receipt.expires_at ≡ intent.horizon.deadline)

  planned_after :
      (found : Option CommandRow) (c : Closure W)
      → none_or (λ (r : CommandRow). r.command_id == intent.horizon.command_id) found ≡ true
      → After
          (planned h tx intent found)
          c
          (λ plan d. (plan.receipt ≡ found) × (Repeated plan ⊎ Open plan c d))
  unfolding planned assert_receipt receipt_matches
  planned_after none c same =
      exact_after λ plan d e. let new = (examine_after c).holds e in (new.no_receipt, inr new)
  planned_after (some receipt) c same = then_require _ _ _ λ matches. pure_after _ (
    refl,
    inl (
      receipt,
      refl,
      grind (arith, eq_iff),
      grind (arith, eq_iff),
      grind (arith, eq_iff),
      grind (arith, eq_iff),
    ),
  )

  -- What `preflight` has read before it plans, and the plan.
  pub record Planned (plan : Plan) (c d : Closure W) : Type 0 where
    pub checked_to : Closure W
    pub looked_to : Closure W
    pub actor_checked : require_actor h tx intent.actor c ≡ (ok tt, checked_to)
    pub looked_up :
        stored_command h tx intent.horizon.command_id checked_to ≡ (ok plan.receipt, looked_to)
    pub outcome : Repeated plan ⊎ Open plan looked_to d

  preflight_after : (c : Closure W) → After (preflight h tx intent) c (λ plan d. Planned plan c d)
  unfolding preflight
  preflight_after c = then_run _ λ u c₁ e₁. then_run _ λ receipt c₂ e₂. exact_after λ plan d e.
      let (same, outcome) =
        (planned_after receipt c₂ ((stored_command_after h tx _ c₁).holds e₂)).holds e in
      record {
        checked_to = c₁;
        looked_to = c₂;
        actor_checked = e₁;
        looked_up =
            subst (λ x. stored_command h tx intent.horizon.command_id c₁ ≡ (ok x, c₂)) (sym same)
              e₂;
        outcome = outcome;
      }

  -- A plan that `preflight` accepts, with what it read of the transaction one after the other: its
  -- receipt is the stored one of the command, for the same account, digest and deadline; or no receipt
  -- is stored, the stored target allows the action, the revision of the account is the one that the
  -- actor has, and what the transaction answered to the four counts leaves room for five more rows
  -- within all five limits.
  pub preflight_plan :
      (c : Closure W) {plan : Plan} {d : Closure W}
      → preflight h tx intent c ≡ (ok plan, d)
      → Planned plan c d
  preflight_plan c = (preflight_after c).holds
