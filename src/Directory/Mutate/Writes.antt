-- ===== src/Directory/Mutate/Writes.antt =====
-- The five writes of `mutate` in auth/src/directory/directory-core.ts.
use nestjs_yalc.Prelude.{◌≡◌, Bool, true, some, List, [], ◌∷◌}
use nestjs_yalc.Js.Value.{Value}
use nestjs_yalc.Directory.Errors.{ErrorCode, ok}
use nestjs_yalc.Directory.Host.{Host, DirectoryTx, Port}
use nestjs_yalc.Directory.Exec.{Closure}
use nestjs_yalc.Directory.Exec.After.{After, bind_after, then_port, then_lift, require_after}
use nestjs_yalc.Directory.Preflight.{Intent, Plan}
use nestjs_yalc.Directory.Validation.Scalars.{boolean}
use nestjs_yalc.Directory.Mutate.{Changes, written, identity_write, write_all}

-- The calls answered true, one after the other, and led from the first world to the last.
pub data Wrote {W : Type 0} : List (Port W) → W → W → Type 0 where
  done : {w : W} → Wrote [] w w
  wrote :
      {call : Port W} {calls : List (Port W)} {w w' : W}
      → (call w).0 ≡ some (Value.boolean true)
      → Wrote calls (call w).1 w'
      → Wrote (call ∷ calls) w w'

boolean-eq-ok :
    (v : Value) (code : ErrorCode) {b : Bool} → boolean v code ≡ ok b → v ≡ Value.boolean b
unfolding boolean
boolean-eq-ok (Value.boolean b) code h = cc
boolean-eq-ok _ code h = cc

module _ {W : Type 0} (h : Host W) (tx : DirectoryTx W) where
  abbrev pub five_writes : Intent → Plan → Changes → List (Port W)
  five_writes intent plan ch =
      identity_write h tx plan ch.identity
      ∷ tx.put_account_revision intent.account_id plan.revision ch.result.revision
      ∷ tx.insert_consent ch.consumed
      ∷ tx.insert_command ch.receipt
      ∷ tx.insert_event ch.event
      ∷ []

  written_after :
      {c : Closure W} {Q : Unit {0} → Closure W → Type 0} (call : Port W)
      → ((call c.world).0 ≡ some (Value.boolean true)
          → Q tt (record c { world = (call c.world).1 }))
      → After (written h tx call) c Q
  unfolding written
  written_after call rest = then_port call _ λ raw answer.
      then_lift _
        λ b valid. require_after b _ λ on. let shape = boolean-eq-ok raw _ valid in rest (cc)

  write_all_after :
      (intent : Intent) (plan : Plan) (ch : Changes) (c : Closure W)
      → After
          (write_all h tx intent plan ch)
          c
          (λ u d. Wrote (five_writes intent plan ch) c.world d.world)
  unfolding write_all
  write_all_after intent plan ch c = bind_after (
      written_after _ λ one. bind_after (
        written_after _ λ two. bind_after (
          written_after _ λ three. bind_after (
            written_after _ λ four.
              written_after _
                λ five. wrote one (wrote two (wrote three (wrote four (wrote five done))))))))

  -- If the writes succeed, the five calls answered true, in this order: the identity, the revision
  -- of the account, the consumed consent, the receipt and the event.
  pub write_all-Wrote :
      (intent : Intent) (plan : Plan) (ch : Changes) (c : Closure W) {u : Unit {0}} {d : Closure W}
      → write_all h tx intent plan ch c ≡ (ok u, d)
      → Wrote (five_writes intent plan ch) c.world d.world
  write_all-Wrote intent plan ch c = (write_all_after intent plan ch c).holds
