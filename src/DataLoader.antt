-- ===== src/DataLoader.antt =====
-- data-loader/src/dataloader.helper.ts: the batch function of _DataLoaderWithCount, and loadOne and
-- loadOneToMany of GQLDataLoader. The query is a parameter, and so are the entities, the text of an
-- entity's search key, and the names that every object inherits. `load` of the package dataloader is
-- a parameter of the two operations.
pub mod Batches
pub mod Cache
mod Tests
use nestjs_yalc.Prelude.{
  ℕ, Bool, true, false, not, ◌&&◌, ◌||◌, Option, none, some, List, [], ◌∷◌, ◌++◌, String, ◌==◌,
  if◌then◌else◌, includes,
}

-- The where condition of a user: its filters, and its child expressions.
pub record Where (C : Type 0) : Type 0 where
  pub filters : Option (List (String × C))
  pub child_expressions : Option (List C)

-- The fields of the options that the batch reads. The order is the list of its fields.
pub record FindOptions (C : Type 0) : Type 0 where
  pub condition : Option (Where C)
  pub select : Option (List String)
  pub order : List String

-- What the query is asked for: the search key is one of the keys, and the user's condition holds.
pub record BatchQuery (C : Type 0) : Type 0 where
  pub search_key : String
  pub keys : List String
  pub narrowed : Option (Where C)
  pub select : List String
  pub order : List String

abbrev pub has_filters : {C : Type 0} → Option (List (String × C)) → Bool
has_filters (some (filter ∷ rest)) = true
has_filters _ = false

abbrev pub is_given : {A : Type 0} → Option A → Bool
is_given none = false
is_given (some a) = true

-- `findOptions.where`, if its filters have a key or it has child expressions
unfoldable pub narrowing : {C : Type 0} → Option (Where C) → Option (Where C)
narrowing none = none
narrowing (some w) = if has_filters w.filters || is_given w.child_expressions then some w else none

-- `if (selections.indexOf(field) === -1) selections.push(field);`
abbrev pub push_missing : List String → String → List String
push_missing selections field =
    if includes selections field then selections else selections ++ field ∷ []

abbrev pub push_all : List String → List String → List String
push_all selections [] = selections
push_all selections (field ∷ rest) = push_all (push_missing selections field) rest

abbrev pub or_empty : Option (List String) → List String
or_empty none = []
or_empty (some fields) = fields

unfoldable pub selections : {C : Type 0} → FindOptions C → String → List String
selections options search_key =
    push_all (push_missing (or_empty options.select) search_key) options.order

unfoldable pub batch_query : {C : Type 0} → FindOptions C → String → List String → BatchQuery C
unfolding narrowing selections
batch_query options search_key keys = record {
  search_key = search_key;
  keys = keys;
  narrowed = narrowing options.condition;
  select = selections options search_key;
  order = options.order;
}

-- What `entityMap[key]` is: nothing, the entities of the key, or what every object inherits.
pub data Slot (E : Type 0) : Type 0 where
  missing : Slot E
  held : List E → Slot E
  inherited : Slot E

abbrev pub or_throw {ℓ κ} : {A : Type ℓ} {B : Type κ} → Option A → (A → Option B) → Option B
or_throw none f = none
or_throw (some a) f = f a

module _ {E : Type 0} where
  abbrev pub pick : Bool → List E → Slot E → Slot E
  pick true es other = held es
  pick false es other = other

  -- `entityMap[key].push(result)`, where the key has entities
  unfoldable pub push_to : List (String × List E) → String → E → List (String × List E)
  push_to [] k e = []
  push_to ((j, es) ∷ rest) k e = elim (j == k) [
    | true ↦ (j, es ++ e ∷ []) ∷ rest
    | false ↦ (j, es) ∷ push_to rest k e
  ]

  -- `entityMap[key] ?? []`; none is a value that is no array
  abbrev pub of_slot : Slot E → Option (List E)
  of_slot missing = some []
  of_slot (held es) = some es
  of_slot inherited = none

module _ {E : Type 0} (inherits : String → Bool) (key_of : E → String) where
  unfoldable pub slot : List (String × List E) → String → Slot E
  slot [] k = if inherits k then inherited else missing
  slot ((j, es) ∷ rest) k = pick (j == k) es (slot rest k)

  -- What is inherited has no `push`, so this throws.
  unfoldable pub put : Slot E → List (String × List E) → E → Option (List (String × List E))
  unfolding push_to
  put missing entity_map e = some (entity_map ++ (key_of e, e ∷ []) ∷ [])
  put (held es) entity_map e = some (push_to entity_map (key_of e) e)
  put inherited entity_map e = none

  -- `entities.forEach(…)`
  unfoldable pub group : List E → List (String × List E) → Option (List (String × List E))
  unfolding put slot
  group [] entity_map = some entity_map
  group (e ∷ rest) entity_map =
      or_throw (put (slot entity_map (key_of e)) entity_map e) (group rest)

  abbrev pub answers : List (String × List E) → List String → List (Option (List E))
  answers entity_map [] = []
  answers entity_map (k ∷ ks) = of_slot (slot entity_map k) ∷ answers entity_map ks

  -- The batch, from the entities that the query found on; none if it throws.
  unfoldable pub matched : List E → List String → Option (List (Option (List E)))
  unfolding group
  matched entities keys =
      or_throw (group entities []) (λ entity_map. some (answers entity_map keys))

pub data Loaded (E : Type 0) : Type 0 where
  one : E → Loaded E
  null : Loaded E
  not_found : Loaded E
  not_acceptable : Loaded E

-- `loadOneToMany(key, findOptions, false)`, by what `load` answers, none if it is no array
unfoldable pub load_one_to_many :
    {E : Type 0} → (String → Option (List E)) → Option String → Option (List E)
load_one_to_many load none = some []
load_one_to_many load (some key) = load key

abbrev pub none_found : {E : Type 0} → Bool → Loaded E
none_found throw_on_not_found = if throw_on_not_found then not_found else null

abbrev pub only : {E : Type 0} → Bool → Option (List E) → Loaded E
only throw_on_not_found none = none_found throw_on_not_found
only throw_on_not_found (some []) = none_found throw_on_not_found
only throw_on_not_found (some (e ∷ [])) = one e
only throw_on_not_found (some (e ∷ e' ∷ rest)) = not_acceptable

unfoldable pub load_one :
    {E : Type 0} → (String → Option (List E)) → Option String → Bool → Loaded E
unfolding load_one_to_many
load_one load key throw_on_not_found = only throw_on_not_found (load_one_to_many load key)
