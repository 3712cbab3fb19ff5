-- ===== src/Health/Scheduler.antt =====
-- ProbeScheduler and withDeadline of health/src/scheduler.ts. `run` is cut at its `await`: `begin` is
-- what stands before it and `finish` what stands after it, so that probes may overlap. What the
-- product of the interval with `Math.random` is rounded down to is a parameter of `due`.
pub mod Slots
use nestjs_yalc.Prelude.{
  ℕ, ◌+◌, ◌*◌, Bool, true, false, ◌||◌, Option, none, some, List, [], ◌∷◌, ◌++◌, String, ◌==◌, leb,
  length, includes,
}
use nestjs_yalc.Health.Checks.{CheckStatus, unknown, fail}

-- The fields of a CheckDefinition that are read here.
pub record Schedule : Type 0 where
  pub key : String
  pub interval_seconds : ℕ
  pub enabled : Option Bool

pub record ProbeResult : Type 0 where
  pub status : CheckStatus
  pub summary : String
  pub error_class : Option String

pub record ProbeScheduler : Type 0 where
  pub concurrency : ℕ
  pub active : List String
  pub last_run : List (String × ℕ)

unfoldable pub new_scheduler : ℕ → ProbeScheduler
new_scheduler concurrency = record { concurrency = concurrency; active = []; last_run = [] }

-- `map.get(key)` and `map.set(key, value)`
abbrev pub get_run : String → List (String × ℕ) → Option ℕ
get_run k [] = none
get_run k ((j, at) ∷ rest) = elim (j == k) [ true ↦ some at | false ↦ get_run k rest ]

abbrev pub set_run : String → ℕ → List (String × ℕ) → List (String × ℕ)
set_run k at [] = (k, at) ∷ []
set_run k at ((j, old) ∷ rest) = elim (j == k) [
  | true ↦ (k, at) ∷ rest
  | false ↦ (j, old) ∷ set_run k at rest
]

-- `set.delete(key)`
abbrev pub delete : String → List String → List String
delete k [] = []
delete k (j ∷ rest) = elim (j == k) [ true ↦ rest | false ↦ j ∷ delete k rest ]

abbrev pub is_off : Option Bool → Bool
is_off (some false) = true
is_off _ = false

abbrev pub waited : Option ℕ → ℕ → ℕ → Bool
waited none wait now = true
waited (some last) wait now = leb (last + wait) now

-- `now - last >= intervalSeconds * 1000 + offset`
unfoldable pub due : ProbeScheduler → Schedule → ℕ → ℕ → Bool
due s definition offset now = elim (is_off definition.enabled) [
  | true ↦ false
  | false ↦
      waited (get_run definition.key s.last_run) (definition.interval_seconds * 1000 + offset) now
]

-- The test of `run`: no slot is free, or the check has one.
abbrev pub refuses : ProbeScheduler → String → Bool
refuses s key = leb s.concurrency (length s.active) || includes s.active key

abbrev pub limit_reached : ProbeResult
limit_reached = record {
  status = unknown;
  summary = "Probe concurrency limit reached";
  error_class = none;
}

-- Up to the `await`: a result that ends the run at once, or the slot is taken.
pub admit : Bool → String → ℕ → ProbeScheduler → Option ProbeResult × ProbeScheduler
admit true key now s = (some limit_reached, s)
admit false key now s =
    (none, record s { active = s.active ++ key ∷ []; last_run = set_run key now s.last_run })

unfoldable pub begin : Schedule → ℕ → ProbeScheduler → Option ProbeResult × ProbeScheduler
unfolding admit
begin definition now s = admit (refuses s definition.key) definition.key now s

-- What the race of the probe and its timer in `withDeadline` comes to; the runtime decides it.
pub data Raced : Type 0 where
  answered : ProbeResult → Raced
  threw : Raced
  too_late : Raced

abbrev pub failed_probe : ProbeResult
failed_probe = record {
  status = fail;
  summary = "Probe deadline or execution failure";
  error_class = some "timeout";
}

unfoldable pub settle : Raced → ProbeResult
settle (answered r) = r
settle _ = failed_probe

-- The rest of `run`: what it returns, and `finally { this.active.delete(definition.key) }`.
unfoldable pub finish : String → ProbeScheduler → ProbeScheduler
finish key s = record s { active = delete key s.active }
