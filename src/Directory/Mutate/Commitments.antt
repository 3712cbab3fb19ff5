-- ===== src/Directory/Mutate/Commitments.antt =====
-- The second look, and the callback of the transaction that commits, of `mutate` in
-- auth/src/directory/directory-core.ts.
use nestjs_yalc.Prelude.{
  ℕ, ◌≡◌, refl, ap, subst, true, Option, none, some, ◌⊎◌, inl, inr, not, ◌||◌,
}
use nestjs_yalc.Directory.Errors.{Fault, Result, ok, err}
use nestjs_yalc.Directory.Types.{IdentityRow, CommandRow, CommandResult}
use nestjs_yalc.Directory.Host.{Host, DirectoryTx}
use nestjs_yalc.Directory.Exec.{Closure, Exec, require_unfenced}
use nestjs_yalc.Directory.Exec.After.{
  After, pure_after, bind_after, then_run, then_unfenced, then_lift, then_require, cases_after,
  exact_after, rethrow_after,
}
use nestjs_yalc.Directory.Guards.{time}
use nestjs_yalc.Directory.Reads.{stored_link}
use nestjs_yalc.Directory.Preflight.Outcome.{Planned, preflight_plan}
use nestjs_yalc.Directory.Preflight.{Intent, Plan}
use nestjs_yalc.Directory.Mutate.{
  is_some, Changes, same_plan, thrown, caught, checks, recheck_all, apply_plan, commit,
  require_other_method,
}
use nestjs_yalc.Directory.Mutate.Writes.{Wrote, five_writes, write_all-Wrote}

module _ {W : Type 0} (h : Host W) (intent : Intent) (recheck : Exec W (Unit {0})) where
  -- Between two closures, the clock was read, the recheck succeeded right then, and another method
  -- still remained.
  pub record Rechecked (plan : Plan) (c d : Closure W) : Type 0 where
    pub now : ℕ
    pub c₁ : Closure W
    pub c₂ : Closure W
    pub c₃ : Closure W
    pub unfenced : require_unfenced c ≡ (ok tt, c₁)
    pub shown : time h c₁ ≡ (ok now, c₂)
    pub rechecked : recheck c₂ ≡ (ok tt, c₃)
    pub other_method : require_other_method h intent plan c₃ ≡ (ok tt, d)

  checks_after :
      (plan : Plan) (c : Closure W)
      → After (checks h intent plan recheck) c (λ u d. Rechecked plan c d)
  unfolding checks
  checks_after plan c = then_run _ λ u c₁ e₁. then_run _ λ now c₂ e₂. then_lift _ λ again valid.
      then_run _ λ u' c₃ e₃. exact_after λ u'' d e₄. record {
        now = now;
        c₁ = c₁;
        c₂ = c₂;
        c₃ = c₃;
        unfenced = e₁;
        shown = e₂;
        rechecked = e₃;
        other_method = e₄;
      }

  caught-eq-none : (r : Result (Unit {0})) → caught r ≡ none → r ≡ ok tt
  caught-eq-none (ok u) e = refl
  caught-eq-none (err fault) e = cc

  pub recheck_all_after :
      (plan : Plan) (c : Closure W)
      → After (recheck_all h intent plan recheck) c (λ o d. o ≡ none → Rechecked plan c d)
  unfolding recheck_all
  recheck_all_after plan c = exact_after λ o d e quiet.
      let same = ap (λ (p : Result (Option Fault) × Closure W). p.0) e in
      let good = caught-eq-none (checks h intent plan recheck c).0 (cc) in
      (checks_after plan c).holds
        (λ i. (good i, ap (λ (p : Result (Option Fault) × Closure W). p.1) e i))

clash-eq-none :
    (clash target : Option IdentityRow)
    → (not (is_some clash) || is_some target) ≡ true
    → target ≡ none
    → clash ≡ none
clash-eq-none none target fine absent = refl
clash-eq-none (some row) none fine absent = cc
clash-eq-none (some row) (some other) fine absent = cc

module _ {W : Type 0} (h : Host W) (intent : Intent) where
  -- A stored receipt of the same command, account, digest and deadline.
  abbrev pub Matches : CommandRow → Type 0
  Matches receipt =
      (receipt.command_id ≡ intent.horizon.command_id)
      × (receipt.account_id ≡ intent.account_id)
      × (receipt.intent_digest ≡ intent.digest)
      × (receipt.expires_at ≡ intent.horizon.deadline)

  -- In the transaction, the command was looked up between two closures, such a receipt was found, and
  -- the result is the one that it records, marked as a replay.
  pub record Replayed (tx : DirectoryTx W) (result : CommandResult) (c d : Closure W) : Type 0 where
    pub found : Plan
    pub receipt : CommandRow
    pub planned : Planned h tx intent found c d
    pub present : found.receipt ≡ some receipt
    pub matches : Matches receipt
    pub marked : result ≡ record receipt.result { replay = true }

  -- In the transaction, between two closures, the command was looked up again and has no receipt, the
  -- plan is the same, the link was looked up and is no other row's if the plan has no target, and then the five writes of the plan answered true,
  -- one after the other; the result is the one of their changes.
  pub record Applied (tx : DirectoryTx W) (plan : Plan) (ch : Changes) (result : CommandResult)
      (c d : Closure W) : Type 0 where
    pub again : Plan
    pub clash : Option IdentityRow
    pub c₁ : Closure W
    pub c₂ : Closure W
    pub planned : Planned h tx intent again c c₁
    pub absent : again.receipt ≡ none
    pub unchanged : same_plan again plan ≡ true
    pub link_looked : stored_link h tx ch.result.link_id c₁ ≡ (ok clash, c₂)
    pub link_free : plan.target ≡ none → clash ≡ none
    pub writes : Wrote (five_writes h tx intent plan ch) c₂.world d.world
    pub recorded : result ≡ ch.result

  thrown_after :
      {c : Closure W} {Q : Unit {0} → Closure W → Type 0} (o : Option Fault)
      → (o ≡ none → Q tt c)
      → After (thrown h o) c Q
  thrown_after o q = cases_after o _ _ (λ quiet. pure_after tt (q quiet)) λ e loud. rethrow_after e

  pub planned-Matches :
      (tx : DirectoryTx W) (plan : Plan) (receipt : CommandRow) {c d : Closure W}
      → Planned h tx intent plan c d
      → plan.receipt ≡ some receipt
      → Matches receipt
  planned-Matches tx plan receipt planned e = elim planned.outcome [
    | inl (stored, there, command, account, digest, until) ↦
        let same : stored ≡ receipt = cc (there, e) in
        subst (λ x. Matches x) same (command, account, digest, until)
    | inr new ↦ let none' = new.no_receipt in absurd (cc)
  ]

  -- What the callback of the transaction has done.
  abbrev pub Done : DirectoryTx W → Plan → Changes → CommandResult → Closure W → Closure W → Type 0
  Done tx plan ch result c d = Replayed tx result c d ⊎ Applied tx plan ch result c d

  module _ (tx : DirectoryTx W) (plan : Plan) (ch : Changes) where
    apply_plan_after :
        (again : Plan) (c₀ c : Closure W)
        → Planned h tx intent again c₀ c
        → again.receipt ≡ none
        → After
            (apply_plan h tx intent plan ch again)
            c
            (λ result d. Applied tx plan ch result c₀ d)
    unfolding apply_plan
    apply_plan_after again c₀ c planned absent = then_require _ _ _ λ same.
        then_run _ λ clash c₁ e₁. then_require _ _ _ λ fine. then_run _ λ u c₂ e₂.
          pure_after ch.result (record {
            again = again;
            clash = clash;
            c₁ = c;
            c₂ = c₁;
            planned = planned;
            absent = absent;
            unchanged = same;
            link_looked = e₁;
            link_free = clash-eq-none clash plan.target fine;
            writes = write_all-Wrote h tx intent plan ch c₁ e₂;
            recorded = refl;
          })

    pub commit_after :
        (check_error : Option Fault) (c : Closure W)
        → After
            (commit h tx intent plan ch check_error)
            c
            (λ result d. (check_error ≡ none) × Done tx plan ch result c d)
    unfolding commit
    commit_after check_error c = bind_after (
        thrown_after check_error λ quiet. then_unfenced _ (
          then_run _ λ again c₁ e₁.
            let planned = preflight_plan h tx intent c e₁ in
            cases_after again.receipt _ _
              (λ absent.
                exact_after
                  λ result d e. (quiet, inr ((apply_plan_after again c c₁ planned absent).holds e)))
              (λ receipt present. then_require _ _ _ λ own. pure_after _ (
                quiet,
                inl (record {
                  found = again;
                  receipt = receipt;
                  planned = planned;
                  present = present;
                  matches = planned-Matches tx again receipt planned present;
                  marked = refl;
                }),
              ))))
