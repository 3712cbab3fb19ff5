-- ===== src/Directory/Atomic.antt =====
-- `atomic` of auth/src/directory/directory-core.ts: a transaction of the store, whose outcome is
-- believed only if it is committed with the very value that the callback computed, or if it is an
-- explicit abort.
pub mod Safety
pub mod Outcome
pub mod Runs
pub mod Commits
use nestjs_yalc.Prelude.{
  ℕ, Bool, true, false, not, ◌&&◌, Option, none, some, List, [], ◌∷◌, String, ◌==◌, all,
}
use nestjs_yalc.Js.Value.{
  Value, Properties, Slots, object, string, object_prototype, named, property, end,
}
use nestjs_yalc.Js.Json
use nestjs_yalc.Js.Json.{Json, Items, Fields, canonical}
use nestjs_yalc.Directory.Errors.{
  ErrorCode, Fault, fresh, aborted, type_error, Result, ok, err, fail, check, storage_unavailable,
  commit_unknown, ◌>>=◌, ◌>>◌,
}
use nestjs_yalc.Directory.Host.{RawTx, DirectoryTx, Run, resolves, throws, invokes, Host}
use nestjs_yalc.Directory.Exec.{Closure, Exec}
use nestjs_yalc.Directory.Validation.Shapes.{
  data_of, get, snapshot, descriptor, Descriptor, holds, computes, value_of,
}

abbrev pub tx_keys : List String
tx_keys =
    "getIdentity" ∷ "getLink" ∷ "listLinks" ∷ "getAccountRevision" ∷ "getCommand" ∷ "getConsent"
    ∷ "countRows" ∷ "countLinks" ∷ "countCommands" ∷ "countPendingEvents" ∷ "insertIdentity"
    ∷ "updateIdentity" ∷ "insertCommand" ∷ "insertConsent" ∷ "putAccountRevision" ∷ "insertEvent"
    ∷ "acknowledgeEvent" ∷ []

-- The variables of one call of `atomic`.
pub record Locals (A : Type 0) : Type 0 where
  pub completed : Bool
  pub invoked : Bool
  pub failed : Bool
  pub expected : Option A
  pub callback_error : Option Fault

abbrev pub unstarted : {A : Type 0} → Locals A
unstarted = record {
  completed = false;
  invoked = false;
  failed = false;
  expected = none;
  callback_error = none;
}

-- `catch (error) { failed = true; callbackError = error; … }`
abbrev failed_with : {A : Type 0} → Fault → Locals A → Locals A
failed_with e l = record l { failed = true; callback_error = some e }

-- `settings.directoryStore.transaction` resolves to a value or throws.
pub data Settled : Type 0 where
  resolved : Value → Settled
  threw : Settled

abbrev pub mark : Option Fault → Fault
mark (some (fresh code)) = aborted code
mark (some (aborted code)) = aborted code
mark _ = aborted storage_unavailable

-- `Object.getOwnPropertyDescriptor(raw, 'status')?.value`
unfoldable pub status_value : Value → Option Value
unfolding descriptor
status_value (object prototype ps) = elim (descriptor "status" ps) [
  | some (holds e v) ↦ some v
  | _ ↦ none
]
status_value _ = none

unfoldable pub is_text : String → Option Value → Bool
is_text t (some (string s)) = s == t
is_text t _ = false

unfoldable pub envelope_keys : Value → List String
unfolding status_value is_text
envelope_keys raw = elim (is_text "committed" (status_value raw)) [
  | true ↦ "status" ∷ "value" ∷ []
  | false ↦ "status" ∷ []
]

module _ {A : Type 0} (json : A → Json) where
  -- The evidence that the committed value is the one that `work` computed.
  unfoldable pub evidence : Option A → Bool → Value → Result A
  unfolding snapshot canonical
  evidence none sound value = fail commit_unknown
  evidence (some a) sound value = do
    check sound commit_unknown
    observed ← snapshot value commit_unknown 0
    check (canonical observed == canonical (json a)) commit_unknown
    ok a

  -- Whether the status is confirmed_abort, and whether it is committed.
  pub decided : Bool → Bool → Value → Locals A → Result A
  unfolding evidence
  decided true committed value l = err (mark l.callback_error)
  decided false true value l = evidence l.expected (l.completed && not l.failed) value
  decided false false value l = fail commit_unknown

  -- What the envelope says.
  pub judged : Result (List (String × Value)) → Locals A → Result A
  unfolding decided is_text
  judged (err e) l = fail commit_unknown
  judged (ok envelope) l =
      let status = some (get "status" envelope) in
      decided (is_text "confirmed_abort" status) (is_text "committed" status) (get "value" envelope)
        l

-- A confirmed abort is thrown on; all else that is not the evidence fences the facade.
believed : {W A : Type 0} → Result A → Closure W → Result A × Closure W
believed (ok a) c = (ok a, c)
believed (err (aborted code)) c = (err (aborted code), c)
believed (err _) c = (fail commit_unknown, record c { fenced = true })

module _ {W A : Type 0} (json : A → Json) where
  -- The computed value is handed to the store as a snapshot of its own.
  detached : Result Json → Closure W → Locals A → Result Json × Closure W × Locals A
  detached (ok j) c l = (ok j, c, l)
  detached (err e) c l = (err e, c, failed_with e l)

  -- After the call of `work`.
  concluded : Result A × Closure W → Locals A → Result Json × Closure W × Locals A
  unfolding detached snapshot value_of
  concluded (err e, c) l = (err e, c, failed_with e l)
  concluded (ok a, c) l =
      detached (snapshot (value_of (json a)) storage_unavailable 0) c
        (record l { completed = true; expected = some a })

  -- A second invocation, or an object that lacks a method, fails.
  entered :
      Bool
      → (DirectoryTx W → Exec W A)
      → RawTx W
      → Closure W
      → Locals A
      → Result Json × Closure W × Locals A
  unfolding concluded
  entered true work raw c l = concluded (work raw.methods c) (record l { invoked = true })
  entered false work raw c l = (
    fail storage_unavailable,
    c,
    failed_with (fresh storage_unavailable) (record l { invoked = true }),
  )

  callback :
      (DirectoryTx W → Exec W A)
      → RawTx W
      → Closure W
      → Locals A
      → Result Json × Closure W × Locals A
  unfolding entered
  callback work raw c l = entered (not l.invoked && all raw.is_method tx_keys) work raw c l

  pub run :
      Run W → (DirectoryTx W → Exec W A) → Closure W → Locals A → Settled × Closure W × Locals A
  unfolding callback
  run (resolves raw w) work c l = (resolved raw, record c { world = w }, l)
  run (throws w) work c l = (threw, record c { world = w }, l)
  run (invokes raw w next) work c l =
      let (r, c', l') = callback work raw (record c { world = w }) l in
      run (next r c'.world) work c' l'

  settled : Settled × Closure W × Locals A → Result A × Closure W
  unfolding judged believed data_of envelope_keys
  settled (threw, c, l) = (fail commit_unknown, record c { fenced = true })
  settled (resolved raw, c, l) =
      believed (judged json (data_of raw (envelope_keys raw) commit_unknown) l) c

  unfoldable pub atomic : Host W → (DirectoryTx W → Exec W A) → Exec W A
  unfolding run settled
  atomic h work c = settled (run (h.transaction c.world) work c unstarted)
