-- ===== src/Directory/Mutate/Settlement.antt =====
-- The end of `mutate` in auth/src/directory/directory-core.ts: what becomes of the reservation.
use nestjs_yalc.Prelude.{◌≡◌, refl, ap, sym, ◌∙◌, subst, true, some, String, ◌⊎◌, inl, inr}
use nestjs_yalc.Js.Value.{Value, undefined}
use nestjs_yalc.Directory.Errors.{fresh, aborted, type_error, Result, ok, err, commit_unknown}
use nestjs_yalc.Directory.Types.{CommandResult}
use nestjs_yalc.Directory.Host.{Host, Port}
use nestjs_yalc.Directory.Exec.{Closure, Exec, ◌>>=◌}
use nestjs_yalc.Directory.Exec.After.{After, exact_after, then_port, require_after}
use nestjs_yalc.Directory.Mutate.{
  is_undefined, doubt, fenced_off, terminal, or_fence, settlement, conclude,
}

is_undefined-eq-true : (v : Value) → is_undefined v ≡ true → v ≡ undefined
is_undefined-eq-true undefined h = refl
is_undefined-eq-true _ h = cc

module _ {W : Type 0} (h : Host W) where
  -- The port was called in the world of the closure and answered undefined, and only its world is new.
  abbrev pub Terminal : Port W → Closure W → Closure W → Type 0
  Terminal call c d =
      ((call c.world).0 ≡ some undefined) × (record c { world = (call c.world).1 } ≡ d)

  terminal_after :
      (call : Port W) (c : Closure W) → After (terminal h call) c (λ u d. Terminal call c d)
  unfolding terminal
  terminal_after call c =
      then_port call _ λ v answer.
        require_after _ _ λ none'. let empty = is_undefined-eq-true v none' in (cc, refl)

  fenced_off_lem :
      (r : Result (Unit {0})) (c : Closure W)
      → ((r ≡ ok tt) × (fenced_off r c ≡ (ok tt, c)))
        ⊎ ((d : Closure W) × (fenced_off r c ≡ (err (fresh commit_unknown), d)) × (d.fenced ≡ true))
  unfolding fenced_off doubt
  fenced_off_lem (ok u) c = inl (refl, refl)
  fenced_off_lem (err e) c = inr (_, refl, refl)

  -- A call is made and believed, or the facade is fenced.
  or_fence-terminal :
      (call : Port W) (c : Closure W)
      → ((d : Closure W) × Terminal call c d × (or_fence h (terminal h call) c ≡ (ok tt, d)))
        ⊎ ((d : Closure W) × (or_fence h (terminal h call) c ≡ (err (fresh commit_unknown), d))
            × (d.fenced ≡ true))
  unfolding or_fence
  or_fence-terminal call c = elim (fenced_off_lem (terminal h call c).0 (terminal h call c).1) [
    | inl (good, end) ↦ inl (
      (terminal h call c).1,
      (terminal_after call c).holds (λ i. (good i, (terminal h call c).1)),
      end,
    )
    | inr other ↦ inr other
  ]

  -- A call that is believed.
  pub or_fence_after :
      (call : Port W) (c : Closure W)
      → After (or_fence h (terminal h call)) c (λ u d. Terminal call c d)
  or_fence_after call c = exact_after λ u d e. elim (or_fence-terminal call c) [
    | inl (d', good, end) ↦
        subst (λ x. Terminal call c x)
          (ap (λ (p : Result (Unit {0}) × Closure W). p.1) (sym end ∙ e)) good
    | inr (d', end, fence) ↦
        let bad = ap (λ (p : Result (Unit {0}) × Closure W). p.0) (sym end ∙ e) in absurd (cc)
  ]

  module _ (reservation_id command_id : String) (m : Exec W CommandResult) (c : Closure W) where
    -- A committed command has settled its reservation, an aborted one has released it, and all else
    -- has fenced the facade.
    abbrev pub Concluded : Result CommandResult → Closure W → Type 0
    Concluded (ok result) d =
        (c' : Closure W) × (m c ≡ (ok result, c'))
        × Terminal (h.settle reservation_id command_id) c' d
    Concluded (err (aborted code)) d =
        (c' : Closure W) × (m c ≡ (err (aborted code), c'))
        × Terminal (h.release_confirmed_abort reservation_id command_id) c' d
    Concluded (err (fresh code)) d = (code ≡ commit_unknown) × (d.fenced ≡ true)
    Concluded (err type_error) d = ⊥

    settlement-Concluded :
        (r : Result CommandResult) (c' : Closure W)
        → m c ≡ (r, c')
        → Concluded
            (settlement h reservation_id command_id r c').0
            (settlement h reservation_id command_id r c').1
    unfolding settlement doubt ◌>>=◌
    settlement-Concluded (ok result) c' e =
        elim (or_fence-terminal (h.settle reservation_id command_id) c') [
          | inl (d, good, end) ↦ rw end ((c', e, good))
          | inr (d, end, fence) ↦ rw end ((refl, fence))
        ]
    settlement-Concluded (err (aborted code)) c' e =
        elim (or_fence-terminal (h.release_confirmed_abort reservation_id command_id) c') [
          | inl (d, good, end) ↦ rw end ((c', e, good))
          | inr (d, end, fence) ↦ rw end ((refl, fence))
        ]
    settlement-Concluded (err (fresh code)) c' e = (refl, refl)
    settlement-Concluded (err type_error) c' e = (refl, refl)

    -- With any transaction: if the command succeeds, the transaction returned its result and then
    -- `settle` answered undefined; if it fails with a confirmed abort, the transaction did and then
    -- `releaseConfirmedAbort` answered undefined; and every other outcome is commit_unknown with the
    -- facade fenced.
    pub conclude-Concluded :
        Concluded
          (conclude h reservation_id command_id m c).0
          (conclude h reservation_id command_id m c).1
    unfolding conclude
    conclude-Concluded = settlement-Concluded (m c).0 (m c).1 refl

    pub conclude-eq-ok :
        {result : CommandResult} {d : Closure W}
        → conclude h reservation_id command_id m c ≡ (ok result, d)
        → Concluded (ok result) d
    conclude-eq-ok e =
        subst (λ (p : Result CommandResult × Closure W). Concluded p.0 p.1) e conclude-Concluded
