-- ===== src/DataLoader/Cache.antt =====
-- The cache of loaders that getDataloader of data-loader/src/dataloader.helper.ts keeps. The object of
-- the options is a number, by which keyMap knows it; the texts of its parts, which JSON.stringify and
-- sort make, are a parameter.
use Prim.Native.String.{◌++◌}
use text.Mathlib.TextPositions.{eq_refl}
use nestjs_yalc.Prelude.{
  ℕ, ◌≡◌, refl, true, false, Option, none, some, List, [], ◌∷◌, String, ◌==◌, nat_eq, arith,
}

pub record OptionTexts : Type 0 where
  pub sort : String
  pub condition : String
  pub sub_query_filters : String
  pub order : String
  pub take : String
  pub skip : String

-- A loader as it is made: the object of its options, and its search key.
pub record Loader : Type 0 where
  pub options : ℕ
  pub search_key : String

pub record Loaders : Type 0 where
  pub key_map : List (ℕ × String)
  pub data_loaders : List (String × Loader)

unfoldable pub dl_key : OptionTexts → String → String
dl_key texts search_key =
    texts.sort ++ "|" ++ texts.condition ++ "|" ++ texts.sub_query_filters ++ "|" ++ texts.order
    ++ "|" ++ texts.take ++ "|" ++ texts.skip ++ "|" ++ search_key

abbrev pub key_of_options : ℕ → List (ℕ × String) → Option String
key_of_options n [] = none
key_of_options n ((m, key) ∷ rest) = elim (nat_eq m n) [
  | true ↦ some key
  | false ↦ key_of_options n rest
]

abbrev pub own_loader : String → List (String × Loader) → Option Loader
own_loader key [] = none
own_loader key ((j, loader) ∷ rest) = elim (j == key) [
  | true ↦ some loader
  | false ↦ own_loader key rest
]

-- The key, and whether it is new. A key that is stored has bars, so it is not empty.
abbrev pub known_key : Option String → String → List (ℕ × String) → ℕ → String × List (ℕ × String)
known_key none made key_map n = (made, (n, made) ∷ key_map)
known_key (some key) made key_map n = (key, key_map)

abbrev pub known_loader :
    Option Loader → Loader → String → List (String × Loader) → Loader × List (String × Loader)
known_loader none made key loaders = (made, (key, made) ∷ loaders)
known_loader (some loader) made key loaders = (loader, loaders)

unfoldable pub get_dataloader : ℕ → OptionTexts → String → Loaders → Loader × Loaders
unfolding dl_key
get_dataloader n texts search_key s =
    let (key, key_map) =
      known_key (key_of_options n s.key_map) (dl_key texts search_key) s.key_map n in
    let (loader, data_loaders) =
      known_loader (own_loader key s.data_loaders) (record { options = n; search_key = search_key })
        key s.data_loaders in
    (loader, record { key_map = key_map; data_loaders = data_loaders })

key_of_options-known :
    (found : Option String) (made : String) (key_map : List (ℕ × String)) (n : ℕ)
    → key_of_options n key_map ≡ found
    → key_of_options n (known_key found made key_map n).1 ≡ some (known_key found made key_map n).0
key_of_options-known none made key_map n e =
    let same : nat_eq n n ≡ true = ground arith in rw (same, key_of_options) refl
key_of_options-known (some key) made key_map n e = e

own_loader-known :
    (found : Option Loader) (made : Loader) (key : String) (loaders : List (String × Loader))
    → own_loader key loaders ≡ found
    → own_loader key (known_loader found made key loaders).1
      ≡ some (known_loader found made key loaders).0
own_loader-known none made key loaders e = rw (eq_refl key, own_loader) refl
own_loader-known (some loader) made key loaders e = e

-- An object of options that was used once has the same loader from then on, whatever search key it is used with.
pub get_dataloader_again :
    (n : ℕ) (texts texts' : OptionTexts) (search_key search_key' : String) (s : Loaders)
    → (get_dataloader n texts' search_key' (get_dataloader n texts search_key s).1).0
      ≡ (get_dataloader n texts search_key s).0
unfolding get_dataloader
get_dataloader_again n texts texts' search_key search_key' s =
    rw
      (
        key_of_options-known (key_of_options n s.key_map) (dl_key texts search_key) s.key_map n
            refl,
        own_loader-known _ (record { options = n; search_key = search_key }) _ s.data_loaders refl,
      )
      refl
