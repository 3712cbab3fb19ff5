-- ===== src/Directory/Mutate/Methods.antt =====
-- The last usable method of an account, in `mutate` of auth/src/directory/directory-core.ts.
use nestjs_yalc.Prelude.{
  ◌≡◌, refl, sym, ap, subst, ◌∙◌, Bool, true, false, ◌&&◌, Option, none, some, List, [], ◌∷◌,
  String, any, arith,
}
use mathlib.Core.List.{Memᴰ}
use mathlib.Core.List.Memᴰ.{head, tail}
use nestjs_yalc.Directory.Errors.{Result, ok, err}
use nestjs_yalc.Directory.Types.{IdentityRow, LinkStatus, active, unlinked}
use nestjs_yalc.Directory.Host.{Host}
use nestjs_yalc.Directory.Exec.{Closure}
use nestjs_yalc.Directory.Exec.After.{
  After, pure_after, bind_after, exact_after, require_after, choose_after,
}
use nestjs_yalc.Directory.Reads.{is_active}
use nestjs_yalc.Directory.Guards.{route}
use nestjs_yalc.Directory.Preflight.{Target, Intent, Plan, is_unlink}
use nestjs_yalc.Directory.Mutate.{
  is_other, is_some, joined, other_active, route_all, require_other_method,
}

module _ {W : Type 0} (h : Host W) where
  -- A row whose provider served its issuer at some moment.
  abbrev pub Routed : IdentityRow → Type 0
  Routed row =
      (c : Closure W) × (provider_id : String) × ((route h row.issuer (some row.provider_id) c).0
        ≡ ok (some provider_id))

  is_active-eq-true : (status : LinkStatus) → is_active status ≡ true → status ≡ active
  is_active-eq-true active e = refl
  is_active-eq-true unlinked e = cc

  joined-eq-ok :
      {A : Type 0} (r : Result A) (rs : Result (List A)) {us : List A}
      → joined r rs ≡ ok us
      → (a : A) × (as' : List A) × (r ≡ ok a) × (rs ≡ ok as') × (us ≡ a ∷ as')
  joined-eq-ok (ok a) (ok rest) e = (a, rest, refl, refl, cc)
  joined-eq-ok (ok a) (err f) e = cc
  joined-eq-ok (err f) rs e = cc

  -- One of the rows was routed.
  abbrev Found : List IdentityRow → Type 0
  Found rows = (row : IdentityRow) × Memᴰ row rows × Routed row

  head_or_tail :
      (row : IdentityRow) (rows : List IdentityRow) (c : Closure W) (found : Option String)
      (rest : List (Option String))
      → (route h row.issuer (some row.provider_id) c).0 ≡ ok found
      → any is_some (found ∷ rest) ≡ true
      → (any is_some rest ≡ true → Found rows)
      → Found (row ∷ rows)
  head_or_tail row rows c (some p) rest routed test later = (row, head refl, (c, p, routed))
  head_or_tail row rows c none rest routed test later =
      let (r, at, proof) = later test in (r, tail at, proof)

  route_all-Found :
      (rows : List IdentityRow) (c : Closure W) {us : List (Option String)}
      → (route_all h rows c).0 ≡ ok us
      → any is_some us ≡ true
      → Found rows
  unfolding route_all
  route_all-Found [] c e test = cc
  route_all-Found (row ∷ rows) c e test =
      let (found, rest, routed, others, same) = joined-eq-ok _ _ e in
      let test' : any is_some (found ∷ rest) ≡ true = cc in
      head_or_tail row rows c found rest routed test' (route_all-Found rows _ others)

  -- The row is among these, is not the target of the command, and is active.
  abbrev pub Remaining : Target → IdentityRow → List IdentityRow → Type 0
  Remaining target row rows = Memᴰ row rows × (is_other target row ≡ true) × (row.status ≡ active)

  kept-Remaining :
      (target : Target) (r : IdentityRow) (rows rest : List IdentityRow) {row : IdentityRow}
      (keep : Bool)
      → (keep ≡ (is_other target r && is_active r.status))
      → (Memᴰ row rest → Remaining target row rows)
      → Memᴰ row (elim keep [ true ↦ r ∷ rest | false ↦ rest ])
      → Remaining target row (r ∷ rows)
  kept-Remaining target r rows rest true why later (head e) =
      let other : is_other target r ≡ true = ground (arith, why) in
      let live = is_active-eq-true r.status (ground (arith, why)) in
      (
        head e,
        subst (λ x. is_other target x ≡ true) (sym e) other,
        ap (λ (x : IdentityRow). x.status) e ∙ live,
      )
  kept-Remaining target r rows rest true why later (tail at) =
      let (found, other, live) = later at in (tail found, other, live)
  kept-Remaining target r rows rest false why later at =
      let (found, other, live) = later at in (tail found, other, live)

  other_active-Remaining :
      (target : Target) (rows : List IdentityRow) {row : IdentityRow}
      → Memᴰ row (other_active target rows)
      → Remaining target row rows
  unfolding other_active
  other_active-Remaining target [] at = elim at [ ]
  other_active-Remaining target (r ∷ rows) at =
      kept-Remaining target r rows (other_active target rows) _ refl
        (other_active-Remaining target rows) at

  other_method_after :
      (intent : Intent) (plan : Plan) (c : Closure W)
      → After (require_other_method h intent plan) c (λ u d.
        is_unlink intent.action ≡ true
        → (row : IdentityRow) × Remaining intent.target row plan.links × Routed row)
  unfolding require_other_method
  other_method_after intent plan c =
      choose_after _ _ _
        (λ removes. bind_after (
          exact_after λ usable c₁ e. require_after _ _ λ test unlinks.
            let answer = ap (λ (p : Result (List (Option String)) × Closure W). p.0) e in
            let (row, at, routed) = route_all-Found _ c answer test in
            (row, other_active-Remaining intent.target plan.links at, routed)))
        λ keeps. pure_after tt λ unlinks. absurd (cc)

  -- If the check before an unlink succeeds, a link of the plan other than the one to remove is active,
  -- and the provider of its issuer was found enabled.
  pub other_method_remains :
      (intent : Intent) (plan : Plan) (c : Closure W) {u : Unit {0}} {d : Closure W}
      → is_unlink intent.action ≡ true
      → require_other_method h intent plan c ≡ (ok u, d)
      → (row : IdentityRow) × Remaining intent.target row plan.links × Routed row
  other_method_remains intent plan c unlinks e = (other_method_after intent plan c).holds e unlinks
