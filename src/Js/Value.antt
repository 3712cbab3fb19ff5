-- ===== src/Js/Value.antt =====
-- An unknown value as reflection shows it: own keys, descriptors, prototypes. A value that answers
-- reflection by an exception (a revoked proxy) is `exotic`.
use nestjs_yalc.Prelude.{ℕ, Bool, true, false, List, String}

-- A number: an integer n ≥ 0, an integer -(n + 1), a finite fraction by its printed form, or one of
-- NaN and the infinities.
pub data Number : Type 0 where
  nat : ℕ → Number
  negative : ℕ → Number
  fraction : String → Number
  not_finite : Number

-- What `plain` asks of a prototype that is neither null nor this realm's Object.prototype: that
-- it is the end of its chain, that its own data property `constructor` is a function named Object
-- with this prototype, that it has as many own keys as Object.prototype, and each of those.
pub record ForeignPrototype : Type 0 where
  pub ends_chain : Bool
  pub constructor_is_object : Bool
  pub same_key_count : Bool
  pub has_all_keys : Bool

pub data Prototype : Type 0 where
  null_prototype : Prototype
  object_prototype : Prototype
  foreign : ForeignPrototype → Prototype

pub data Key : Type 0 where
  named : String → Key
  symbol : Key

-- `array n slots` has n own keys beside `length` and its elements; `byte_array n bs` has n own keys
-- beside its bytes. `property k e v` is a data property, e its enumerability.
mutual
  pub data Value : Type 0 where
    undefined : Value
    null : Value
    boolean : Bool → Value
    number : Number → Value
    string : String → Value
    array : ℕ → Slots → Value
    object : Prototype → Properties → Value
    byte_array : ℕ → List ℕ → Value
    callable : Value
    exotic : Value

  pub data Slots : Type 0 where
    nil : Slots
    element : Bool → Value → Slots → Slots
    getter : Slots → Slots
    hole : Slots → Slots

  pub data Properties : Type 0 where
    end : Properties
    property : Key → Bool → Value → Properties → Properties
    accessor : Key → Properties → Properties

abbrev pub is_null : Value → Bool
is_null null = true
is_null _ = false
