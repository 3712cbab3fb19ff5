-- ===== src/DataLoader/Batches.antt =====
-- The entities that the batch of data-loader/src/dataloader.helper.ts gives for each key.
use mathlib.Core.List.{append-nil, append_assoc}
use nestjs_yalc.Prelude.{
  ◌≡◌, refl, ap, sym, ◌∙◌, Bool, true, false, not, Option, none, some, List, [], ◌∷◌, ◌++◌, String,
  ◌==◌, eq_iff, all, filter, Bool-cases, inl, inr, arith, if◌then◌else◌,
}
use nestjs_yalc.DataLoader.{
  Slot, missing, held, inherited, pick, slot, push_to, put, or_throw, group, of_slot, answers,
  matched,
}

module _ {E : Type 0} (inherits : String → Bool) (key_of : E → String) where
  -- The entities of a key, as a batch is meant to give them.
  abbrev pub of_key : List E → String → List E
  of_key entities k = filter (λ e. key_of e == k) entities

  abbrev pub each_of_key : List E → List String → List (Option (List E))
  each_of_key entities [] = []
  each_of_key entities (k ∷ ks) = some (of_key entities k) ∷ each_of_key entities ks

  -- The entities that a map holds of a key.
  look : List (String × List E) → String → List E
  look [] k = []
  look ((j, es) ∷ rest) k = elim (j == k) [ true ↦ es | false ↦ look rest k ]

  plus : Bool → E → List E → List E
  plus true e es = es ++ e ∷ []
  plus false e es = es

  slot-look :
      (entity_map : List (String × List E)) (k : String)
      → inherits k ≡ false
      → of_slot (slot inherits key_of entity_map k) ≡ some (look entity_map k)
  unfolding slot look
  slot-look [] k own = rw (own) refl
  slot-look ((j, es) ∷ rest) k own = elim (Bool-cases (j == k)) [
    | inl same ↦ rw (same, slot, look) refl
    | inr other ↦ rw (other, slot, look) (slot-look rest k own)
  ]

  pick-eq-missing :
      (b : Bool) (es : List E) (s : Slot E) → pick b es s ≡ missing → (b ≡ false) × (s ≡ missing)
  pick-eq-missing true es s e = cc
  pick-eq-missing false es s e = (refl, e)

  pick-false :
      (b : Bool) (es : List E) (s : Slot E) {t : Slot E} → b ≡ false → pick b es s ≡ t → s ≡ t
  pick-false true es s off e = cc
  pick-false false es s off e = e

  unset :
      (b : Bool) {es : List E} → ◌≡◌ {A = Slot E} (if b then inherited else missing) (held es) → ⊥
  unset true e = cc
  unset false e = cc

  -- An entity whose key the map does not have yet.
  look-append :
      (entity_map : List (String × List E)) (j k : String) (e : E)
      → slot inherits key_of entity_map j ≡ missing
      → look (entity_map ++ (j, e ∷ []) ∷ []) k ≡ plus (j == k) e (look entity_map k)
  unfolding slot look plus
  look-append [] j k e new = elim (Bool-cases (j == k)) [
    | inl same ↦ rw (same, look) refl
    | inr other ↦ rw (other, look) refl
  ]
  look-append ((i, es) ∷ rest) j k e new =
      let (differs, new') = pick-eq-missing (i == j) es _ new in
      elim (Bool-cases (i == k)) [
        | inl same ↦
            let apart : (j == k) ≡ false =
              ground (arith, same, differs, eq_iff i k, eq_iff i j, eq_iff j k) in
            rw (same, apart, look) refl
        | inr other ↦ rw (other, look) (look-append rest j k e new')
      ]

  -- An entity whose key the map has.
  look-push_to :
      (entity_map : List (String × List E)) (j k : String) (e : E) {es : List E}
      → slot inherits key_of entity_map j ≡ held es
      → look (push_to entity_map j e) k ≡ plus (j == k) e (look entity_map k)
  unfolding slot look plus push_to
  look-push_to [] j k e old = absurd (unset (inherits j) old)
  look-push_to ((i, es) ∷ rest) j k e old = elim (Bool-cases (i == j)) [
    | inl same ↦ elim (Bool-cases (i == k)) [
      | inl here ↦
          let found : (j == k) ≡ true =
            ground (arith, same, here, eq_iff i j, eq_iff i k, eq_iff j k) in
          rw (same, here, found, push_to, look) refl
      | inr other ↦
          let apart : (j == k) ≡ false =
            ground (arith, same, other, eq_iff i j, eq_iff i k, eq_iff j k) in
          rw (same, other, apart, push_to, look) refl
    ]
    | inr differs ↦
        let old' = pick-false (i == j) es _ differs old in
        elim (Bool-cases (i == k)) [
          | inl here ↦
              let apart : (j == k) ≡ false =
                ground (arith, differs, here, eq_iff i j, eq_iff i k, eq_iff j k) in
              rw (differs, here, apart, push_to, look) refl
          | inr other ↦ rw (differs, other, push_to, look) (look-push_to rest j k e old')
        ]
  ]

  own_slot :
      (entity_map : List (String × List E)) (k : String)
      → inherits k ≡ false
      → slot inherits key_of entity_map k ≡ inherited
      → ⊥
  own_slot entity_map k own e =
      let bad : none ≡ some (look entity_map k) = ap of_slot (sym e) ∙ slot-look entity_map k own in
      cc

  put-look :
      (s : Slot E) (entity_map : List (String × List E)) (e : E)
      → slot inherits key_of entity_map (key_of e) ≡ s
      → inherits (key_of e) ≡ false
      → (made : List (String × List E)) × (put inherits key_of s entity_map e ≡ some made)
        × ((k : String) → look made k ≡ plus (key_of e == k) e (look entity_map k))
  unfolding put
  put-look missing entity_map e is own =
      (entity_map ++ (key_of e, e ∷ []) ∷ [], refl, λ k. look-append entity_map (key_of e) k e is)
  put-look (held es) entity_map e is own =
      (push_to entity_map (key_of e) e, refl, λ k. look-push_to entity_map (key_of e) k e is)
  put-look inherited entity_map e is own = absurd (own_slot entity_map (key_of e) own is)

  plus-of_key :
      (b : Bool) (e : E) (es rest : List E)
      → plus b e es ++ rest ≡ es ++ elim b [ true ↦ e ∷ rest | false ↦ rest ]
  unfolding plus
  plus-of_key true e es rest = append_assoc es (e ∷ []) rest
  plus-of_key false e es rest = refl

  group-look :
      (entities : List E) (entity_map : List (String × List E))
      → all (λ e. not (inherits (key_of e))) entities ≡ true
      → (made : List (String × List E)) × (group inherits key_of entities entity_map ≡ some made)
        × ((k : String) → look made k ≡ look entity_map k ++ of_key entities k)
  unfolding group
  group-look [] entity_map own = (entity_map, refl, λ k. sym (append-nil (look entity_map k)))
  group-look (e ∷ rest) entity_map own =
      let (made, e₁, looks) = put-look _ entity_map e refl (ground (arith, own)) in
      let (made', e₂, looks') = group-look rest made (ground (arith, own)) in
      (
        made',
        ap (λ o. or_throw o (group inherits key_of rest)) e₁ ∙ e₂,
        λ k.
            looks' k
            ∙ ap (λ es. es ++ of_key rest k) (looks k)
            ∙ plus-of_key (key_of e == k) e (look entity_map k) (of_key rest k),
      )

  answers-look :
      (entities : List E) (entity_map : List (String × List E)) (keys : List String)
      → ((k : String) → look entity_map k ≡ of_key entities k)
      → all (λ k. not (inherits k)) keys ≡ true
      → answers inherits key_of entity_map keys ≡ each_of_key entities keys
  answers-look entities entity_map [] looks own = refl
  answers-look entities entity_map (k ∷ ks) looks own =
      let first = slot-look entity_map k (ground (arith, own)) ∙ ap (λ es. some es) (looks k) in
      let rest = answers-look entities entity_map ks looks (ground (arith, own)) in
      λ i. first i ∷ rest i

  -- If neither a key nor the search key of an entity is a name that every object inherits, the batch
  -- gives for each key, in the order of the keys, the entities of this search key, in their order.
  pub matched-each_of_key :
      (entities : List E) (keys : List String)
      → all (λ e. not (inherits (key_of e))) entities ≡ true
      → all (λ k. not (inherits k)) keys ≡ true
      → matched inherits key_of entities keys ≡ some (each_of_key entities keys)
  unfolding matched look
  matched-each_of_key entities keys own own' =
      let (made, e, looks) = group-look entities [] own in
      ap (λ o. or_throw o (λ entity_map. some (answers inherits key_of entity_map keys))) e
      ∙ ap (λ x. some x) (answers-look entities made keys looks own')
