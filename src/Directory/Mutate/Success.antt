-- ===== src/Directory/Mutate/Success.antt =====
-- What has happened when `mutate` of auth/src/directory/directory-core.ts returns a result.
use nestjs_yalc.Prelude.{◌≡◌, refl, Option, none, some, ◌⊎◌, inl, inr, String}
use nestjs_yalc.Directory.Errors.{Fault, ok}
use nestjs_yalc.Directory.Types.{CommandRow, CommandResult, command_result_json}
use nestjs_yalc.Directory.Host.{Host}
use nestjs_yalc.Directory.Exec.{Closure, Exec}
use nestjs_yalc.Directory.Exec.After.{
  After, pure_after, bind_after, then_run, cases_after, exact_after,
}
use nestjs_yalc.Directory.Atomic.Commits.{Committed, atomic-Committed}
use nestjs_yalc.Directory.Preflight.Outcome.{preflight_plan}
use nestjs_yalc.Directory.Preflight.{plan_json, preflight, Intent, Plan}
use nestjs_yalc.Directory.Mutate.{
  Changes, with_reservation, replay, commit, require_other_method, prepare, reserve, perform,
  mutate,
}
use nestjs_yalc.Directory.Mutate.Settlement.{Terminal, or_fence_after, conclude-eq-ok}
use nestjs_yalc.Directory.Mutate.Commitments.{
  Rechecked, recheck_all_after, Replayed, planned-Matches, Done, commit_after,
}

module _ {W : Type 0} (h : Host W) (intent : Intent) (recheck : Exec W (Unit {0})) where
  -- How a result of a command came about that had no receipt, from one closure to the other: another
  -- method remains, the rows are prepared and their capacity is reserved; the recheck succeeds; the
  -- transaction after it returns the result, with a receipt that it found or with the five writes of
  -- these rows; and then `settle` answers undefined for the reservation and the command.
  pub record Written (plan : Plan) (result : CommandResult) (c d : Closure W) : Type 0 where
    pub prepared : Changes
    pub reservation_id : String
    pub check_error : Option Fault
    pub c₁ : Closure W
    pub c₂ : Closure W
    pub c₃ : Closure W
    pub c₄ : Closure W
    pub c₅ : Closure W
    pub other_method : require_other_method h intent plan c ≡ (ok tt, c₁)
    pub rows : prepare h intent plan c₁ ≡ (ok prepared, c₂)
    pub reserved : reserve h intent c₂ ≡ (ok reservation_id, c₃)
    pub rechecked : Rechecked h intent recheck plan c₃ c₄
    pub committed :
        Committed command_result_json
          (λ tx. commit h tx intent plan (with_reservation reservation_id prepared) check_error)
          (h.transaction c₄.world)
          c₄
          result
          c₅
    pub written :
        Done h intent committed.ran.raw.methods plan
          (with_reservation reservation_id prepared)
          result
          (record c₄ { world = committed.ran.begun })
          committed.ran.work_to
    pub settled : Terminal h (h.settle reservation_id intent.horizon.command_id) c₅ d

  perform_after :
      (plan : Plan) (c : Closure W)
      → After (perform h intent recheck plan) c (λ result d. Written plan result c d)
  unfolding perform
  perform_after plan c = then_run _ λ u c₁ e₁. then_run _ λ prepared c₂ e₂.
      then_run _ λ reservation_id c₃ e₃. then_run _ λ check_error c₄ e₄. exact_after λ result d e.
        let ch = with_reservation reservation_id prepared in
        let (c₅, ended, settled) = conclude-eq-ok h reservation_id _ _ c₄ e in
        let committed = atomic-Committed command_result_json _ h c₄ ended in
        let (quiet, written) =
          (commit_after h intent committed.ran.raw.methods plan ch check_error _).holds
            committed.ran.answer in
        record {
          prepared = prepared;
          reservation_id = reservation_id;
          check_error = check_error;
          c₁ = c₁;
          c₂ = c₂;
          c₃ = c₃;
          c₄ = c₄;
          c₅ = c₅;
          other_method = e₁;
          rows = e₂;
          reserved = e₃;
          rechecked = (recheck_all_after h intent recheck plan c₃).holds e₄ quiet;
          committed = committed;
          written = written;
          settled = settled;
        }

  -- How a result of `mutate` came about: a first transaction planned the command, and a receipt that
  -- it found was settled again, or there was none and the command was carried out.
  pub record Performed (result : CommandResult) (c d : Closure W) : Type 0 where
    pub plan : Plan
    pub c₁ : Closure W
    pub committed :
        Committed plan_json (λ tx. preflight h tx intent) (h.transaction c.world) c plan c₁
    pub outcome :
        ((receipt : CommandRow) × (plan.receipt ≡ some receipt)
          × Replayed h intent committed.ran.raw.methods result
              (record c { world = committed.ran.begun })
              committed.ran.work_to
          × Terminal h (h.settle receipt.reservation_id receipt.command_id) c₁ d)
        ⊎ ((plan.receipt ≡ none) × Written plan result c₁ d)

  mutate_after :
      (c : Closure W) → After (mutate h intent recheck) c (λ result d. Performed result c d)
  unfolding mutate replay
  mutate_after c = then_run _ λ plan c₁ e.
      let committed = atomic-Committed plan_json (λ tx. preflight h tx intent) h c e in
      let tx = committed.ran.raw.methods in
      let planned = preflight_plan h tx intent _ committed.ran.answer in
      cases_after plan.receipt _ _
        (λ absent. exact_after λ result d e'. record {
          plan = plan;
          c₁ = c₁;
          committed = committed;
          outcome = inr (absent, (perform_after plan c₁).holds e');
        })
        (λ receipt present. bind_after (
          exact_after λ u d e'. pure_after _ (record {
            plan = plan;
            c₁ = c₁;
            committed = committed;
            outcome = inl (
              receipt,
              present,
              record {
                found = plan;
                receipt = receipt;
                planned = planned;
                present = present;
                matches = planned-Matches h intent tx plan receipt planned present;
                marked = refl;
              },
              (or_fence_after h _ c₁).holds e',
            );
          })))

  -- If `mutate` returns a result, then its first transaction committed a plan of the command, and this
  -- happened between the closure before the call and the one after it. Either that transaction found
  -- a stored receipt of the same command, account, digest and deadline, the result is the one that it
  -- records, marked as a replay, and `settle` answered undefined for it. Or no receipt was found,
  -- another method remains, rows were prepared and reserved, and the recheck then succeeded; the
  -- second transaction committed the result, either as a replay of such a receipt that it found, or as
  -- the result of the rows, when it saw the same plan and the five writes of the rows answered true one
  -- after the other; and `settle` answered undefined for the reservation.
  pub mutate-Performed :
      (c : Closure W) {result : CommandResult} {d : Closure W}
      → mutate h intent recheck c ≡ (ok result, d)
      → Performed result c d
  mutate-Performed c = (mutate_after c).holds
