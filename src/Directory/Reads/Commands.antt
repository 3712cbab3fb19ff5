-- ===== src/Directory/Reads/Commands.antt =====
-- The stored receipt of a command in auth/src/directory/directory-core.ts.
use nestjs_yalc.Prelude.{◌≡◌, true, String, ◌==◌}
use nestjs_yalc.Directory.Types.{CommandRow}
use nestjs_yalc.Directory.Host.{Host, DirectoryTx}
use nestjs_yalc.Directory.Exec.{Closure}
use nestjs_yalc.Directory.Exec.After.{After, pure_after, then_port, then_lift, then_require}
use nestjs_yalc.Directory.Reads.{none_or, stored_command}

module _ {W : Type 0} (h : Host W) (tx : DirectoryTx W) where
  pub stored_command_after :
      (command_id : String) (c : Closure W)
      → After
          (stored_command h tx command_id)
          c
          (λ found d. none_or (λ (r : CommandRow). r.command_id == command_id) found ≡ true)
  unfolding stored_command
  stored_command_after command_id c =
      then_port _ _
        λ raw answer. then_lift _ λ row valid. then_require _ _ _ λ same. pure_after row same
