-- ===== src/Js/Json/Decimals.antt =====
-- The fuel of the print of decimals does not decide what is printed.
use nestjs_yalc.Prelude.{
  ℕ, zero, suc, ◌/◌, ◌<◌, ◌≡◌, refl, String, ltb, Bool-cases, inl, inr, arith,
}
use nestjs_yalc.Js.Json.{decimal_from}

-- Any two amounts of fuel above the number print the same digits.
decimal_from_enough :
    (fuel fuel' n : ℕ) (out : String)
    → n < fuel
    → n < fuel'
    → decimal_from fuel n out ≡ decimal_from fuel' n out
unfolding decimal_from
decimal_from_enough zero fuel' n out low low' = absurd (omega (arith, low))
decimal_from_enough (suc fuel) zero n out low low' = absurd (omega (arith, low'))
decimal_from_enough (suc fuel) (suc fuel') n out low low' = elim (Bool-cases (ltb n 10)) [
  | inl digit ↦ rw (digit) refl
  | inr more ↦
      let less : n / 10 < n = ground (arith, more) in
      rw (more) (
        decimal_from_enough fuel fuel' (n / 10) _ (omega (arith, less, low))
          (omega (arith, less, low')))
]
