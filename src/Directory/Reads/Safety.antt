-- ===== src/Directory/Reads/Safety.antt =====
-- How the reads inside a transaction change the closure.
use nestjs_yalc.Prelude.{String}
use nestjs_yalc.Js.Value.{Value}
use nestjs_yalc.Directory.Types.{SessionProfile, SessionBinding}
use nestjs_yalc.Directory.Host.{Host, DirectoryTx}
use nestjs_yalc.Directory.Evolves.{IsSafe, safe_rules}
use nestjs_yalc.Directory.Reads.{
  storage_identity, stored_identity, stored_link, revision, stored_command, links, actor_row,
}

module _ {W : Type 0} (h : Host W) (tx : DirectoryTx W) where
  pub storage_identity-IsSafe : (raw : Value) → IsSafe (storage_identity h tx raw)
  unfolding storage_identity
  storage_identity-IsSafe raw = search safe_rules

  pub stored_identity-IsSafe :
      (issuer subject : String) → IsSafe (stored_identity h tx issuer subject)
  unfolding stored_identity
  stored_identity-IsSafe issuer subject = search (safe_rules, storage_identity-IsSafe) depth 12

  pub stored_link-IsSafe : (link_id : String) → IsSafe (stored_link h tx link_id)
  unfolding stored_link
  stored_link-IsSafe link_id = search (safe_rules, storage_identity-IsSafe) depth 12

  pub revision-IsSafe : (account_id : String) → IsSafe (revision h tx account_id)
  unfolding revision
  revision-IsSafe account_id = search safe_rules depth 12

  pub stored_command-IsSafe : (command_id : String) → IsSafe (stored_command h tx command_id)
  unfolding stored_command
  stored_command-IsSafe command_id = search safe_rules depth 12

  pub links-IsSafe : (account_id : String) → IsSafe (links h tx account_id)
  unfolding links
  links-IsSafe account_id = search safe_rules depth 12

  pub actor_row-IsSafe :
      (profile : SessionProfile) (binding : SessionBinding)
      → IsSafe (actor_row h tx profile binding)
  unfolding actor_row
  actor_row-IsSafe profile binding =
      search (safe_rules, stored_identity-IsSafe, revision-IsSafe) depth 12

pub ruleset read_rules = (
  safe_rules, stored_identity-IsSafe, stored_link-IsSafe, revision-IsSafe, stored_command-IsSafe,
  links-IsSafe, actor_row-IsSafe,
)
