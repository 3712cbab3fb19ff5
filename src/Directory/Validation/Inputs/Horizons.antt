-- ===== src/Directory/Validation/Inputs/Horizons.antt =====
-- The replay window of a command in auth/src/directory/directory-validation.ts.
use nestjs_yalc.Prelude.{ℕ, ◌+◌, ◌≤◌, ◌<◌, ◌≡◌, subst, false, ltb, arith}
use nestjs_yalc.Js.Value.{Value, string, number, nat}
use nestjs_yalc.Directory.Errors.{ok, >>=-eq-ok, check-eq-ok, invalid_input, command_expired}
use nestjs_yalc.Directory.Types.{Horizon}
use nestjs_yalc.Directory.Validation.Scalars.{text, integer, id, max_safe_integer}
use nestjs_yalc.Directory.Validation.Scalars.Integers.{integer-eq-ok}
use nestjs_yalc.Directory.Validation.Inputs.{horizon, command_parts, matched}

-- A horizon that is accepted was issued at or before now, ends one window after that, is not over,
-- and its end is a safe integer.
pub horizon_bounds :
    (raw : Value) (now window : ℕ) {t : Horizon}
    → horizon raw now window ≡ ok t
    → (t.issued_at ≤ now)
      × (now < t.deadline)
      × (t.deadline ≡ t.issued_at + window)
      × (t.deadline ≤ max_safe_integer)
unfolding horizon
horizon_bounds raw now window {t} h =
    let (command_id, valid, h₁) = >>=-eq-ok (text raw 60 invalid_input false) _ h in
    let (parts, matches, h₂) = >>=-eq-ok (matched (command_parts command_id) invalid_input) _ h₁ in
    let (issued_at, issued, h₃) =
      >>=-eq-ok (integer (number (nat parts.0)) invalid_input 0 now) _ h₂ in
    let (checked_id, identified, h₄) = >>=-eq-ok (id (string parts.1) invalid_input) _ h₃ in
    let (deadline, ends, h₅) =
      >>=-eq-ok (integer (number (nat (issued_at + window))) invalid_input 0 max_safe_integer) _
        h₄ in
    let (running, h₆) = check-eq-ok (ltb now deadline) command_expired _ h₅ in
    let (same, low, high, safe) = integer-eq-ok parts.0 invalid_input 0 now issued in
    let (same', low', high', safe') =
      integer-eq-ok (issued_at + window) invalid_input 0 max_safe_integer ends in
    let row : Horizon = record {
      command_id = command_id;
      issued_at = issued_at;
      deadline = deadline;
    } in
    let shape : row ≡ t = cc in
    subst
      (λ (x : Horizon).
        (x.issued_at ≤ now)
        × (now < x.deadline)
        × (x.deadline ≡ x.issued_at + window)
        × (x.deadline ≤ max_safe_integer))
      shape
      (
        omega (arith, same, high),
        ground (arith, running),
        omega (arith, same, same'),
        omega (arith, same', high'),
      )
