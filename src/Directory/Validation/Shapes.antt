-- ===== src/Directory/Validation/Shapes.antt =====
-- The validators of compound values in auth/src/directory/directory-validation.ts: objects, arrays,
-- snapshots and byte arrays.
pub mod Snapshots
pub mod Octets
use nestjs_yalc.Prelude.{
  ℕ, suc, ◌+◌, Bool, true, false, ◌&&◌, Option, none, some, List, [], ◌∷◌, String, ◌==◌, leb,
  nat_eq, if◌then◌else◌, length, includes,
}
use nestjs_yalc.Js.Value.{
  Value, undefined, null, boolean, number, string, array, object, byte_array, nat, negative,
  fraction, not_finite, Slots, nil, element, getter, hole, Properties, end, property, accessor, Key,
  named, symbol, Prototype, null_prototype, object_prototype, foreign,
}
use nestjs_yalc.Js.Text.{byte_length}
use nestjs_yalc.Js.Json
use nestjs_yalc.Js.Json.{Json, Items, Fields}
use nestjs_yalc.Directory.Errors.{ErrorCode, Result, ok, err, fail, check, ◌>>=◌, ◌>>◌}
use nestjs_yalc.Directory.Validation.Scalars.{integer}

unfoldable pub plain : Prototype → Bool
plain null_prototype = true
plain object_prototype = true
plain (foreign p) = p.ends_chain && p.constructor_is_object && p.same_key_count && p.has_all_keys

-- What `Object.getOwnPropertyDescriptors` shows of one key.
pub data Descriptor : Type 0 where
  holds : Bool → Value → Descriptor
  computes : Descriptor

unfoldable pub descriptor : String → Properties → Option Descriptor
descriptor k end = none
descriptor k (property (named j) e v ps) = if j == k then some (holds e v) else descriptor k ps
descriptor k (property symbol e v ps) = descriptor k ps
descriptor k (accessor (named j) ps) = if j == k then some computes else descriptor k ps
descriptor k (accessor symbol ps) = descriptor k ps

unfoldable pub key_count : Properties → ℕ
key_count end = 0
key_count (property k e v ps) = suc (key_count ps)
key_count (accessor k ps) = suc (key_count ps)

unfoldable pub allowed_key : List String → Key → Bool
allowed_key keys (named k) = includes keys k
allowed_key keys symbol = false

unfoldable pub keys_allowed : List String → Properties → Bool
unfolding allowed_key
keys_allowed keys end = true
keys_allowed keys (property k e v ps) = allowed_key keys k && keys_allowed keys ps
keys_allowed keys (accessor k ps) = allowed_key keys k && keys_allowed keys ps

-- A descriptor that is missing, an accessor or not enumerable is refused.
unfoldable pub enumerable_value : Option Descriptor → ErrorCode → Result Value
enumerable_value (some (holds true v)) code = ok v
enumerable_value _ code = fail code

unfoldable pub collect : List String → Properties → ErrorCode → Result (List (String × Value))
unfolding descriptor enumerable_value
collect [] ps code = ok []
collect (k ∷ ks) ps code = do
  v ← enumerable_value (descriptor k ps) code
  rest ← collect ks ps code
  ok ((k, v) ∷ rest)

-- `data`: a plain object with exactly these own keys, all of them enumerable data properties.
unfoldable pub data_of : Value → List String → ErrorCode → Result (List (String × Value))
unfolding plain key_count keys_allowed collect
data_of (object prototype ps) keys code = do
  check (plain prototype) code
  check (nat_eq (key_count ps) (length keys) && keys_allowed keys ps) code
  collect keys ps code
data_of _ keys code = fail code

-- `value[key]` of the object that `data` returns.
abbrev pub get : String → List (String × Value) → Value
get k [] = undefined
get k ((j, v) ∷ rest) = if j == k then v else get k rest

slots_length : Slots → ℕ
slots_length nil = 0
slots_length (element e v ss) = suc (slots_length ss)
slots_length (getter ss) = suc (slots_length ss)
slots_length (hole ss) = suc (slots_length ss)

own_slots : Slots → ℕ
own_slots nil = 0
own_slots (element e v ss) = suc (own_slots ss)
own_slots (getter ss) = suc (own_slots ss)
own_slots (hole ss) = own_slots ss

parse_slots {ℓ} : {A : Type ℓ} → Slots → (Value → Result A) → ErrorCode → Result (List A)
parse_slots nil parse code = ok []
parse_slots (element true v ss) parse code = do
  a ← parse v
  rest ← parse_slots ss parse code
  ok (a ∷ rest)
parse_slots _ parse code = fail code

-- The checks of `array` before the elements are read.
array_shape : ℕ → Slots → ℕ → ErrorCode → ℕ → Result (Unit {0})
unfolding slots_length own_slots integer
array_shape others ss max code min = do
  n ← integer (number (nat (slots_length ss))) code min max
  check (nat_eq (suc (others + own_slots ss)) (suc n)) code

unfoldable pub array_of {ℓ} :
    {A : Type ℓ} → Value → ℕ → (Value → Result A) → ErrorCode → ℕ → Result (List A)
unfolding array_shape parse_slots
array_of (array others ss) max parse code min = do
  array_shape others ss max code min
  parse_slots ss parse code
array_of _ max parse code min = fail code

unfoldable mutual
  unfolding array_shape key_count plain byte_length

  -- Detached JSON of at most 16 levels below the top.
  pub snapshot : Value → ErrorCode → ℕ → Result Json
  snapshot null code depth = do check (leb depth 16) code; ok Json.null
  snapshot (boolean b) code depth = do check (leb depth 16) code; ok (Json.boolean b)
  snapshot (string s) code depth = do
    check (leb depth 16) code
    check (leb (byte_length s) 65536) code
    ok (Json.string s)
  snapshot (number not_finite) code depth = fail code
  snapshot (number n) code depth = do check (leb depth 16) code; ok (Json.number n)
  snapshot (array others ss) code depth = do
    check (leb depth 16) code
    array_shape others ss 4096 code 0
    items ← snapshot_slots ss code (depth + 1)
    ok (Json.array items)
  snapshot (object prototype ps) code depth = do
    check (leb depth 16) code
    check (leb (key_count ps) 4096) code
    check (plain prototype) code
    fields ← snapshot_properties ps code (depth + 1)
    ok (Json.object fields)
  snapshot _ code depth = fail code

  pub snapshot_slots : Slots → ErrorCode → ℕ → Result Items
  snapshot_slots nil code depth = ok Items.nil
  snapshot_slots (element true v ss) code depth = do
    j ← snapshot v code depth
    rest ← snapshot_slots ss code depth
    ok (Items.item j rest)
  snapshot_slots _ code depth = fail code

  pub snapshot_properties : Properties → ErrorCode → ℕ → Result Fields
  snapshot_properties end code depth = ok Fields.end
  snapshot_properties (property (named k) true v ps) code depth = do
    j ← snapshot v code depth
    rest ← snapshot_properties ps code depth
    ok (Fields.field k j rest)
  snapshot_properties _ code depth = fail code

octet_list : List ℕ → ErrorCode → Result (List ℕ)
unfolding integer
octet_list [] code = ok []
octet_list (b ∷ bs) code = do
  n ← integer (number (nat b)) code 0 255
  rest ← octet_list bs code
  ok (n ∷ rest)

unfoldable pub bytes : Value → ℕ → ℕ → ErrorCode → Result (List ℕ)
unfolding octet_list
bytes (byte_array others bs) min max code = do
  n ← integer (number (nat (length bs))) code min max
  check (nat_eq (others + n) n) code
  octet_list bs code
bytes _ min max code = fail code

-- A JSON value as the object that it is.
unfoldable mutual
  pub value_of : Json → Value
  value_of Json.null = Value.null
  value_of (Json.boolean b) = Value.boolean b
  value_of (Json.number n) = Value.number n
  value_of (Json.string s) = Value.string s
  value_of (Json.array xs) = Value.array 0 (slots_of xs)
  value_of (Json.object fs) = Value.object object_prototype (properties_of fs)

  pub slots_of : Items → Slots
  slots_of Items.nil = Slots.nil
  slots_of (Items.item x xs) = Slots.element true (value_of x) (slots_of xs)

  pub properties_of : Fields → Properties
  properties_of Fields.end = Properties.end
  properties_of (Fields.field k v fs) =
      Properties.property (named k) true (value_of v) (properties_of fs)
