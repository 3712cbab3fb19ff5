-- ===== src/Directory/Reads.antt =====
-- The reads inside a transaction in auth/src/directory/directory-core.ts: every stored row is
-- validated and held to be the one that was asked for.
pub mod Safety
pub mod Bound
pub mod Commands
use nestjs_yalc.Prelude.{
  ℕ, Bool, true, false, ◌&&◌, ◌||◌, Option, none, some, List, [], ◌∷◌, String, ◌==◌, nat_eq, all,
  distinct, if◌then◌else◌, map,
}
use nestjs_yalc.Js.Value.{Value, is_null}
use nestjs_yalc.Directory.Errors.{Result, ok, err, storage_unavailable, authentication_denied}
use nestjs_yalc.Directory.Types.{
  IdentityRow, CommandRow, SessionProfile, SessionBinding, LinkStatus, active, unlinked,
}
use nestjs_yalc.Directory.Host.{Host, DirectoryTx}
use nestjs_yalc.Directory.Exec.{Closure, Exec, pure, lift, require, ◌>>=◌, ◌>>◌, port, raise, cases}
use nestjs_yalc.Directory.Validation.Scalars.{integer, max_safe_integer}
use nestjs_yalc.Directory.Validation.Shapes.{array_of}
use nestjs_yalc.Directory.Validation.Rows.{identity_row, command_row}

pub record Actor : Type 0 where
  pub profile : SessionProfile
  pub binding : SessionBinding
  pub row : IdentityRow
  pub revision : ℕ

abbrev pub is_active : LinkStatus → Bool
is_active active = true
is_active unlinked = false

-- `f(x)` unless the value is null.
abbrev pub nullable {ℓ} : {A : Type ℓ} → Value → Result A → Result (Option A)
nullable raw r = elim (is_null raw) [
  | true ↦ ok none
  | false ↦ elim r [ ok a ↦ ok (some a) | err e ↦ err e ]
]

-- `check(value === null || test)`
abbrev pub none_or {ℓ} : {A : Type ℓ} → (A → Bool) → Option A → Bool
none_or test none = true
none_or test (some a) = test a

abbrev pub some_and {ℓ} : {A : Type ℓ} → (A → Bool) → Option A → Bool
some_and test none = false
some_and test (some a) = test a

abbrev present : {W A : Type 0} → Option A → Exec W A
present o = cases o (raise authentication_denied) pure

module _ {W : Type 0} (h : Host W) (tx : DirectoryTx W) where
  pub storage_identity : Value → Exec W (Option IdentityRow)
  storage_identity raw =
      lift (nullable raw (identity_row raw h.namespace h.limits.max_record_bytes))

  pub stored_identity : String → String → Exec W (Option IdentityRow)
  stored_identity issuer subject = do
    raw ← port (tx.get_identity issuer subject) storage_unavailable
    row ← storage_identity raw
    require (none_or (λ r. r.issuer == issuer && r.subject == subject) row) storage_unavailable
    pure row

  pub stored_link : String → Exec W (Option IdentityRow)
  stored_link link_id = do
    raw ← port (tx.get_link link_id) storage_unavailable
    row ← storage_identity raw
    require (none_or (λ r. r.link_id == link_id) row) storage_unavailable
    pure row

  pub revision : String → Exec W (Option ℕ)
  revision account_id = do
    raw ← port (tx.get_account_revision account_id) storage_unavailable
    lift (nullable raw (integer raw storage_unavailable 1 max_safe_integer))

  pub stored_command : String → Exec W (Option CommandRow)
  stored_command command_id = do
    raw ← port (tx.get_command command_id) storage_unavailable
    row ← lift (nullable raw (command_row raw h.namespace h.limits.max_record_bytes))
    require (none_or (λ r. r.command_id == command_id) row) storage_unavailable
    pure row

  pub links : String → Exec W (List IdentityRow)
  links account_id = do
    raw ← port (tx.list_links account_id h.limits.max_links_per_account) storage_unavailable
    rows ← lift (
        array_of raw h.limits.max_links_per_account
          (λ value. identity_row value h.namespace h.limits.max_record_bytes) storage_unavailable 0)
    require (all (λ r. r.account_id == account_id) rows && distinct (map (λ r. r.link_id) rows))
        storage_unavailable
    pure rows

  -- The row is the active one to which the session is bound.
  pub is_bound : SessionProfile → SessionBinding → Option IdentityRow → Bool
  is_bound profile binding = some_and λ row.
      is_active row.status
      && row.account_id == profile.account_id
      && row.provider_id == profile.provider_id
      && row.link_id == binding.link_id
      && nat_eq row.generation binding.generation

  pub actor_row : SessionProfile → SessionBinding → Exec W Actor
  actor_row profile binding = do
    found ← stored_identity profile.issuer profile.subject
    require (is_bound profile binding found) authentication_denied
    row ← present found
    current ← revision profile.account_id
    now ← present current
    pure (record { profile = profile; binding = binding; row = row; revision = now })

-- Opens the module, for runs.
unfoldable pub reads_opened : Unit {0}
unfolding revision storage_identity stored_identity stored_link stored_command links is_bound
    actor_row array_of command_row identity_row integer port
reads_opened = tt
