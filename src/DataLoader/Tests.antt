-- ===== src/DataLoader/Tests.antt =====
-- The batch of the data loader at concrete entities, which are pairs of a key and a number.
use nestjs_yalc.Prelude.{◌≡◌, refl, Bool, true, none, some, List, [], ◌∷◌, ℕ, String, includes}
use nestjs_yalc.DataLoader.{
  FindOptions, batch_query, matched, load_one, one, not_found, not_acceptable,
}
use nestjs_yalc.DataLoader.Cache.{OptionTexts, Loaders, get_dataloader, get_dataloader_again}
use nestjs_yalc.DataLoader.Batches.{each_of_key, matched-each_of_key}

-- Two of the names that every object inherits.
abbrev inherits : String → Bool
inherits name = includes ("constructor" ∷ "toString" ∷ []) name

abbrev key_of : String × ℕ → String
key_of e = e.0

abbrev entities : List (String × ℕ)
entities = ("a", 1) ∷ ("b", 2) ∷ ("a", 3) ∷ []

matched_example :
    matched inherits key_of entities ("a" ∷ "c" ∷ "b" ∷ [])
    ≡ some (some (("a", 1) ∷ ("a", 3) ∷ []) ∷ some [] ∷ some (("b", 2) ∷ []) ∷ [])
unfolding matched
matched_example = refl

-- A key that is an inherited name makes the batch throw, or its answer no array.
inherited_example :
    (matched inherits key_of (("constructor", 1) ∷ []) ("constructor" ∷ []) ≡ none)
    × (matched inherits key_of [] ("constructor" ∷ []) ≡ some (none ∷ []))
unfolding matched
inherited_example = (refl, refl)

matched-each_of_key_example :
    matched inherits key_of entities ("a" ∷ "c" ∷ "b" ∷ [])
    ≡ some (each_of_key inherits key_of entities ("a" ∷ "c" ∷ "b" ∷ []))
matched-each_of_key_example =
    matched-each_of_key inherits key_of entities ("a" ∷ "c" ∷ "b" ∷ []) refl refl

abbrev options : FindOptions ℕ
options = record {
  condition = some (record { filters = some []; child_expressions = none });
  select = some ("name" ∷ []);
  order = "id" ∷ "age" ∷ [];
}

batch_query_example : batch_query options "id" ("a" ∷ []) ≡ record {
  search_key = "id";
  keys = "a" ∷ [];
  narrowed = none;
  select = "name" ∷ "id" ∷ "age" ∷ [];
  order = "id" ∷ "age" ∷ [];
}
unfolding batch_query
batch_query_example = refl

load_one_example :
    (load_one {E = ℕ} (λ key. some (1 ∷ [])) (some "a") true ≡ one 1)
    × (load_one {E = ℕ} (λ key. some (1 ∷ [])) none true ≡ not_found)
    × (load_one {E = ℕ} (λ key. some (1 ∷ 2 ∷ [])) (some "a") true ≡ not_acceptable)
unfolding load_one
load_one_example = (refl, refl, refl)

abbrev texts : OptionTexts
texts = record {
  sort = "";
  condition = "{}";
  sub_query_filters = "undefined";
  order = "{}";
  take = "{}";
  skip = "{}";
}

abbrev no_loaders : Loaders
no_loaders = record { key_map = []; data_loaders = [] }

-- Options that were used with one search key have its loader when they are used with another one.
stale_example :
    (get_dataloader 0 texts "owner" (get_dataloader 0 texts "id" no_loaders).1).0.search_key ≡ "id"
unfolding get_dataloader
stale_example = refl

get_dataloader_again_example :
    (get_dataloader 0 texts "owner" (get_dataloader 0 texts "id" no_loaders).1).0
    ≡ (get_dataloader 0 texts "id" no_loaders).0
get_dataloader_again_example = get_dataloader_again 0 texts texts "id" "owner" no_loaders
