-- ===== src/Health/Scheduler/Slots.antt =====
-- The slots of the scheduler, while probes begin and finish in any order.
use text.Mathlib.TextPositions.{eq_refl}
use nestjs_yalc.Prelude.{
  ℕ, ◌+◌, ◌*◌, ◌≤◌, ◌<◌, ◌≡◌, refl, ◌∙◌, ap, Bool, true, false, ◌||◌, Option, none, some, List, [],
  ◌∷◌, ◌++◌, String, ◌==◌, eq_iff, inl, inr, arith, length, length-append, includes, Bool-cases,
}
use nestjs_yalc.Health.Scheduler.{
  Schedule, ProbeScheduler, new_scheduler, get_run, set_run, delete, refuses, admit, begin, finish,
  due, is_off, waited,
}

-- A probe begins, or one that has a slot ends.
pub data Turn (s : ProbeScheduler) : ProbeScheduler → Type 0 where
  begins : (definition : Schedule) (now : ℕ) → Turn s (begin definition now s).1
  finishes : (key : String) → Turn s (finish key s)

pub data Turns (s : ProbeScheduler) : ProbeScheduler → Type 0 where
  here : Turns s s
  then' : {t u : ProbeScheduler} → Turns s t → Turn t u → Turns s u

abbrev pub AreDistinct : List String → Type 0
AreDistinct [] = Unit {0}
AreDistinct (k ∷ rest) = (includes rest k ≡ false) × AreDistinct rest

-- No more slots are taken than there are, and none twice.
pub record IsWithin (s : ProbeScheduler) : Type 0 where
  pub few : length s.active ≤ s.concurrency
  pub distinct_keys : AreDistinct s.active

includes-append :
    (ks : List String) (k j : String) → includes (ks ++ k ∷ []) j ≡ (includes ks j || (k == j))
includes-append [] k j = ground arith
includes-append (i ∷ ks) k j = ground (arith, includes-append ks k j)

AreDistinct-append :
    (ks : List String) (k : String)
    → includes ks k ≡ false
    → AreDistinct ks
    → AreDistinct (ks ++ k ∷ [])
AreDistinct-append [] k e h = (refl, tt)
AreDistinct-append (j ∷ ks) k e h = (
  includes-append ks k j ∙ ground (arith, e, h.0, eq_iff k j, eq_iff j k),
  AreDistinct-append ks k (ground (arith, e)) h.1,
)

delete-includes :
    (k j : String) (ks : List String) → includes ks j ≡ false → includes (delete k ks) j ≡ false
delete-includes k j [] e = refl
delete-includes k j (i ∷ ks) e = elim (Bool-cases (i == k)) [
  | inl same ↦ rw (same, delete) (ground (arith, e))
  | inr other ↦ rw (other, delete) (ground (arith, e, delete-includes k j ks))
]

AreDistinct-delete : (k : String) (ks : List String) → AreDistinct ks → AreDistinct (delete k ks)
AreDistinct-delete k [] h = tt
AreDistinct-delete k (j ∷ ks) h = elim (Bool-cases (j == k)) [
  | inl same ↦ rw (same, delete) h.1
  | inr other ↦ rw (other, delete) ((delete-includes k j ks h.0, AreDistinct-delete k ks h.1))
]

length-delete : (k : String) (ks : List String) → length (delete k ks) ≤ length ks
length-delete k [] = omega arith
length-delete k (j ∷ ks) = elim (Bool-cases (j == k)) [
  | inl same ↦ rw (same, delete) (omega arith)
  | inr other ↦ rw (other, delete) (omega (arith, length-delete k ks))
]

admit-IsWithin :
    (refused : Bool) (key : String) (now : ℕ) (s : ProbeScheduler)
    → refuses s key ≡ refused
    → IsWithin s
    → IsWithin (admit refused key now s).1
unfolding admit
admit-IsWithin true key now s e h = h
admit-IsWithin false key now s e h = record {
  few = omega (arith, length-append s.active (key ∷ []), has_room);
  distinct_keys = AreDistinct-append s.active key (ground (arith, e)) h.distinct_keys;
}
  where
    has_room : length s.active < s.concurrency
    has_room = ground (arith, e)

Turn-IsWithin : {s t : ProbeScheduler} → Turn s t → IsWithin s → IsWithin t
unfolding begin finish
Turn-IsWithin {s} (begins definition now) h = admit-IsWithin _ definition.key now s refl h
Turn-IsWithin {s} (finishes key) h = record {
  few = omega (arith, length-delete key s.active, h.few);
  distinct_keys = AreDistinct-delete key s.active h.distinct_keys;
}

-- However probes begin and finish, from a new scheduler on: the checks that have a slot are at most as
-- many as the slots, and no check has two.
pub Turns-IsWithin : (n : ℕ) {s : ProbeScheduler} → Turns (new_scheduler n) s → IsWithin s
unfolding new_scheduler
Turns-IsWithin n here = record { few = omega arith; distinct_keys = tt }
Turns-IsWithin n (then' past turn) = Turn-IsWithin turn (Turns-IsWithin n past)

delete-append :
    (k : String) (ks : List String) → includes ks k ≡ false → delete k (ks ++ k ∷ []) ≡ ks
delete-append k [] e = rw (eq_refl k, delete) refl
delete-append k (j ∷ ks) e =
    let other : (j == k) ≡ false = ground (arith, e) in
    rw (other, delete) (ap (λ x. j ∷ x) (delete-append k ks (ground (arith, e))))

get_run-set_run :
    (k : String) (at : ℕ) (runs : List (String × ℕ)) → get_run k (set_run k at runs) ≡ some at
get_run-set_run k at [] = rw (eq_refl k, get_run) refl
get_run-set_run k at ((j, old) ∷ rest) = elim (Bool-cases (j == k)) [
  | inl same ↦ rw (same, set_run) (rw (eq_refl k, get_run) refl)
  | inr other ↦ rw (other, set_run) (rw (other, get_run) (get_run-set_run k at rest))
]

admit-admitted :
    (refused : Bool) (key : String) (now : ℕ) (s : ProbeScheduler)
    → refuses s key ≡ refused
    → (admit refused key now s).0 ≡ none
    → (includes s.active key ≡ false)
      × (length s.active < s.concurrency)
      × ((admit refused key now s).1
          ≡ record s { active = s.active ++ key ∷ []; last_run = set_run key now s.last_run })
unfolding admit
admit-admitted true key now s e h = cc
admit-admitted false key now s e h = (ground (arith, e), ground (arith, e), refl)

not_waited :
    (off : Bool) (last : Option ℕ) (at wait later : ℕ)
    → last ≡ some at
    → later < at + wait
    → elim off [ true ↦ false | false ↦ waited last wait later ] ≡ false
not_waited true last at wait later e h = refl
not_waited false none at wait later e h = cc
not_waited false (some last) at wait later e h = ground (arith, e, h)

module _ (definition : Schedule) (now : ℕ) (s : ProbeScheduler)
    (h : (begin definition now s).0 ≡ none) where
  -- A probe that is admitted: a slot was free and its check had none.
  begin_admitted :
      (includes s.active definition.key ≡ false)
      × (length s.active < s.concurrency)
      × ((begin definition now s).1 ≡ record s {
        active = s.active ++ definition.key ∷ [];
        last_run = set_run definition.key now s.last_run;
      })
  unfolding begin
  begin_admitted = admit-admitted _ definition.key now s refl h

  -- A probe that is admitted had a free slot and its check had none; when it finishes, the slots are
  -- those of before it; and from its beginning on, its check is not due before its interval and the
  -- offset are over.
  pub begin_lem :
      (offset later : ℕ)
      → later < now + (definition.interval_seconds * 1000 + offset)
      → (includes s.active definition.key ≡ false)
        × (length s.active < s.concurrency)
        × ((finish definition.key (begin definition now s).1).active ≡ s.active)
        × (due (begin definition now s).1 definition offset later ≡ false)
  unfolding finish due
  begin_lem offset later early =
      let (fresh, free, made) = begin_admitted in
      (
        fresh,
        free,
        ap (λ (x : ProbeScheduler). delete definition.key x.active) made
            ∙ delete-append definition.key s.active fresh,
        not_waited (is_off definition.enabled) _ now _ later
            (ap (λ (x : ProbeScheduler). get_run definition.key x.last_run) made
              ∙ get_run-set_run definition.key now s.last_run)
            early,
      )
