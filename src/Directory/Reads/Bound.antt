-- ===== src/Directory/Reads/Bound.antt =====
-- The row of an actor in auth/src/directory/directory-core.ts.
use nestjs_yalc.Prelude.{◌≡◌, refl, subst, true, ◌&&◌, some, String, ◌==◌, eq_iff, arith}
use nestjs_yalc.Directory.Errors.{ok}
use nestjs_yalc.Directory.Types.{
  IdentityRow, SessionProfile, SessionBinding, LinkStatus, active, unlinked,
}
use nestjs_yalc.Directory.Host.{Host, DirectoryTx}
use nestjs_yalc.Directory.Exec.{Closure}
use nestjs_yalc.Directory.Exec.After.{
  After, pure_after, bind_after, then_any, then_port, then_require, cases_after, raise_after,
  exact_after,
}
use nestjs_yalc.Directory.Reads.{is_active, none_or, stored_identity, is_bound, actor_row}
use nestjs_yalc.Directory.Reads.Safety.{revision-IsSafe, storage_identity-IsSafe}

-- The row is the active one of the session's issuer and subject, and of the link and generation to
-- which the session is bound.
pub record IsBound (profile : SessionProfile) (binding : SessionBinding) (row : IdentityRow)
    : Type 0 where
  pub is_live : row.status ≡ active
  pub issuer : row.issuer ≡ profile.issuer
  pub subject : row.subject ≡ profile.subject
  pub account : row.account_id ≡ profile.account_id
  pub provider : row.provider_id ≡ profile.provider_id
  pub link : row.link_id ≡ binding.link_id
  pub generation : row.generation ≡ binding.generation

is_active-eq-true : (status : LinkStatus) → is_active status ≡ true → status ≡ active
is_active-eq-true active e = refl
is_active-eq-true unlinked e = cc

module _ {W : Type 0} (h : Host W) (tx : DirectoryTx W) where
  is_bound-IsBound :
      (profile : SessionProfile) (binding : SessionBinding) (row : IdentityRow)
      → is_bound h tx profile binding (some row) ≡ true
      → (row.issuer == profile.issuer && row.subject == profile.subject) ≡ true
      → IsBound profile binding row
  unfolding is_bound
  is_bound-IsBound profile binding row e e' = record {
    is_live = is_active-eq-true row.status (ground (arith, e));
    issuer = grind (arith, eq_iff);
    subject = grind (arith, eq_iff);
    account = grind (arith, eq_iff);
    provider = grind (arith, eq_iff);
    link = grind (arith, eq_iff);
    generation = grind (arith, eq_iff);
  }

  stored_identity_after :
      (issuer subject : String) (c : Closure W)
      → After (stored_identity h tx issuer subject) c (λ found d.
        none_or (λ (r : IdentityRow). r.issuer == issuer && r.subject == subject) found ≡ true)
  unfolding stored_identity
  stored_identity_after issuer subject c = then_port _ _ λ raw answer.
      then_any (storage_identity-IsSafe h tx raw)
        λ row c₁ v₁. then_require _ _ _ λ same. pure_after row same

  pub actor_row_after :
      (profile : SessionProfile) (binding : SessionBinding) (c : Closure W)
      → After (actor_row h tx profile binding) c (λ a d.
        (a.profile ≡ profile)
        × (a.binding ≡ binding)
        × ((u : Closure W) × (stored_identity h tx profile.issuer profile.subject c
              ≡ (ok (some a.row), u)))
        × IsBound profile binding a.row)
  unfolding actor_row
  actor_row_after profile binding c = bind_after (
      exact_after λ found c₁ e. then_require _ _ _ λ bound. bind_after (
        cases_after found _ _ (λ absent. raise_after _)
          λ row there. pure_after row (
            then_any (revision-IsSafe h tx _) λ current c₂ v₂. bind_after (
              cases_after current _ _ (λ absent. raise_after _)
                λ now there'. pure_after now (
                  pure_after _ (
                    refl,
                    refl,
                    (
                      c₁,
                      subst
                          (λ o. stored_identity h tx profile.issuer profile.subject c ≡ (ok o, c₁))
                          there e,
                    ),
                    is_bound-IsBound profile binding row
                        (subst (λ o. is_bound h tx profile binding o ≡ true) there bound)
                        (subst
                          (λ o.
                            none_or
                              (λ (r : IdentityRow).
                                r.issuer == profile.issuer && r.subject == profile.subject)
                              o
                            ≡ true)
                          there ((stored_identity_after profile.issuer profile.subject c).holds e)),
                  ))))))
