-- ===== src/Prelude/Lists.antt =====
-- Lists over the native numbers: lengths, Boolean searches; and optional texts.
use Prim.Native.Nat.{ℕ, suc, ◌+◌}
use Prim.Native.String.{String}
use mathlib.Core.Path.{◌≡◌}
use mathlib.Core.Bool.{Bool, true, false, not, ◌&&◌, ◌||◌}
use mathlib.Core.Option.{Option, none, some}
use mathlib.Core.List.{List, [], ◌∷◌, ◌++◌}
use native.Mathlib.Omega.{arith}
use text.Mathlib.Text.{◌==◌}

module _ {ℓ} {A : Type ℓ} where
  abbrev pub length : List A → ℕ
  length [] = 0
  length (x ∷ xs) = suc (length xs)

  abbrev pub all : (A → Bool) → List A → Bool
  all p [] = true
  all p (x ∷ xs) = p x && all p xs

  abbrev pub any : (A → Bool) → List A → Bool
  any p [] = false
  any p (x ∷ xs) = p x || any p xs

  pub length-append : (xs ys : List A) → length (xs ++ ys) ≡ length xs + length ys
  length-append [] ys = omega arith
  length-append (x ∷ xs) ys = omega (arith, length-append xs ys)

-- `list.filter(test)`
abbrev pub filter {ℓ} : {A : Type ℓ} → (A → Bool) → List A → List A
filter test [] = []
filter test (a ∷ rest) = elim (test a) [ true ↦ a ∷ filter test rest | false ↦ filter test rest ]

-- `values.includes(text)`
abbrev pub includes : List String → String → Bool
includes [] t = false
includes (s ∷ ss) t = s == t || includes ss t

-- `new Set(texts).size === texts.length`
abbrev pub distinct : List String → Bool
distinct [] = true
distinct (s ∷ ss) = elim (includes ss s) [ true ↦ false | false ↦ distinct ss ]

-- A text that is there and not empty: `if (text)`.
abbrev pub truthy : Option String → Bool
truthy none = false
truthy (some text) = not (text == "")
