-- ===== src/Js/Json.antt =====
-- `canonical` of auth/src/directory/directory-validation.ts: JSON.stringify over values whose
-- object keys are sorted. Keys that look like array indices are sorted as texts too; JavaScript
-- would move those to the front, for every object alike.
pub mod Decimals
use Prim.Native.Char.{code}
use Prim.Native.String.{◌++◌}
use nestjs_yalc.Prelude.{
  ℕ, zero, suc, ◌+◌, ◌-◌, ◌/◌, ◌%◌, ◌≡◌, refl, Bool, true, false, String, List, [], ◌∷◌, ltb,
  nat_eq, if◌then◌else◌,
}
use nestjs_yalc.Js.Value.{Number, nat, negative, fraction, not_finite}
use nestjs_yalc.Js.Text.{codes}

mutual
  pub data Json : Type 0 where
    null : Json
    boolean : Bool → Json
    number : Number → Json
    string : String → Json
    array : Items → Json
    object : Fields → Json

  pub data Items : Type 0 where
    nil : Items
    item : Json → Items → Items

  pub data Fields : Type 0 where
    end : Fields
    field : String → Json → Fields → Fields

digit_text : ℕ → String
digit_text n =
    if nat_eq n 0
    then "0"
    else if nat_eq n 1
    then "1"
    else if nat_eq n 2
    then "2"
    else if nat_eq n 3
    then "3"
    else if nat_eq n 4
    then "4"
    else if nat_eq n 5
    then "5"
    else if nat_eq n 6
    then "6"
    else if nat_eq n 7
    then "7"
    else if nat_eq n 8
    then "8"
    else if nat_eq n 9
    then "9"
    else if nat_eq n 10
    then "a"
    else if nat_eq n 11
    then "b"
    else if nat_eq n 12
    then "c"
    else if nat_eq n 13
    then "d"
    else if nat_eq n 14
    then "e"
    else "f"

-- The decimal digits before `out`; the fuel n + 1 is more than the number of digits of n.
decimal_from : ℕ → ℕ → String → String
decimal_from zero n out = out
decimal_from (suc fuel) n out =
    let rest = decimal_from fuel (n / 10) (digit_text (n % 10) ++ out) in
    if ltb n 10 then digit_text n ++ out else rest

unfoldable pub decimal : ℕ → String
unfolding decimal_from digit_text
decimal n = decimal_from (n + 1) n ""

number_text : Number → String
unfolding decimal
number_text (nat n) = decimal n
number_text (negative n) = "-" ++ decimal (n + 1)
number_text (fraction s) = s
number_text not_finite = "null"

-- `\uXXXX` for a control character.
control_text : ℕ → String
unfolding digit_text
control_text c = "\\u00" ++ digit_text (c / 16) ++ digit_text (c % 16)

escape_code : ℕ → String → String
unfolding control_text
escape_code c plain =
    if nat_eq c 34
    then "\\\""
    else if nat_eq c 92
    then "\\\\"
    else if nat_eq c 8
    then "\\b"
    else if nat_eq c 9
    then "\\t"
    else if nat_eq c 10
    then "\\n"
    else if nat_eq c 12
    then "\\f"
    else if nat_eq c 13
    then "\\r"
    else if ltb c 32
    then control_text c
    else plain

escape : String → String
unfolding escape_code
escape String.[] = ""
escape (String.◌∷◌ c s) = escape_code (code c) (String.◌∷◌ c "") ++ escape s

quoted : String → String
unfolding escape
quoted s = "\"" ++ (escape s ++ "\"")

-- The UTF-16 units of a text, by which `sort` compares.
units : List ℕ → List ℕ
units [] = []
units (c ∷ cs) =
    if ltb c 0x10000
    then c ∷ units cs
    else (0xd800 + (c - 0x10000) / 0x400) ∷ (0xdc00 + (c - 0x10000) % 0x400) ∷ units cs

before : List ℕ → List ℕ → Bool
before [] [] = false
before [] (b ∷ bs) = true
before (a ∷ as') [] = false
before (a ∷ as') (b ∷ bs) = if nat_eq a b then before as' bs else ltb a b

insert_field : String → Json → Fields → Fields
unfolding before units
insert_field k v end = field k v end
insert_field k v (field j w fs) =
    if before (units (codes j)) (units (codes k))
    then field j w (insert_field k v fs)
    else field k v (field j w fs)

-- `Object.keys(item).sort()` and the object built from it.
sort_fields : Fields → Fields
unfolding insert_field
sort_fields end = end
sort_fields (field k v fs) = insert_field k v (sort_fields fs)

unfoldable mutual
  unfolding sort_fields

  pub sort_keys : Json → Json
  sort_keys null = null
  sort_keys (boolean b) = boolean b
  sort_keys (number n) = number n
  sort_keys (string s) = string s
  sort_keys (array xs) = array (sort_items xs)
  sort_keys (object fs) = object (sort_fields (sort_nested fs))

  pub sort_items : Items → Items
  sort_items nil = nil
  sort_items (item x xs) = item (sort_keys x) (sort_items xs)

  pub sort_nested : Fields → Fields
  sort_nested end = end
  sort_nested (field k v fs) = field k (sort_keys v) (sort_nested fs)

abbrev separator : Bool → String
separator true = ""
separator false = ","

unfoldable mutual
  unfolding number_text quoted

  pub stringify : Json → String
  stringify null = "null"
  stringify (boolean true) = "true"
  stringify (boolean false) = "false"
  stringify (number n) = number_text n
  stringify (string s) = quoted s
  stringify (array xs) = "[" ++ (stringify_items true xs ++ "]")
  stringify (object fs) = "{" ++ (stringify_fields true fs ++ "}")

  pub stringify_items : Bool → Items → String
  stringify_items first nil = ""
  stringify_items first (item x xs) = separator first ++ (stringify x ++ stringify_items false xs)

  pub stringify_fields : Bool → Fields → String
  stringify_fields first end = ""
  stringify_fields first (field k v fs) =
      separator first ++ (quoted k ++ (":" ++ (stringify v ++ stringify_fields false fs)))

unfoldable pub canonical : Json → String
unfolding stringify sort_keys
canonical j = stringify (sort_keys j)

canonical_sorts :
    canonical (
      object (
        field "b" (number (nat 120)) (field "a" (array (item null (item (string "x\n") nil))) end)))
    ≡ "{\"a\":[null,\"x\\n\"],\"b\":120}"
unfolding canonical
canonical_sorts = refl
