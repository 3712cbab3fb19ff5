-- ===== src/Directory/Validation/Shapes/Snapshots.antt =====
-- Snapshots of auth/src/directory/directory-validation.ts: their errors, and snapshots of snapshots.
use nestjs_yalc.Prelude.{ℕ, suc, ◌+◌, ◌≡◌, ap, true, leb, arith}
use nestjs_yalc.Js.Value.{
  Value, null, boolean, number, string, array, object, nat, negative, fraction, not_finite, Slots,
  nil, element, Properties, end, property, named,
}
use nestjs_yalc.Js.Json.{Json, Items, Fields}
use nestjs_yalc.Directory.Errors.{
  ErrorCode, Fault, fresh, ok, err, check, >>=-eq-ok, check-eq-ok, >>=-eq-err, check-eq-err,
}
use nestjs_yalc.Directory.Validation.Scalars.{integer}
use nestjs_yalc.Directory.Validation.Shapes.{
  plain, key_count, slots_length, own_slots, array_shape, snapshot, snapshot_slots,
  snapshot_properties, value_of, slots_of, properties_of,
}

module _ (code : ErrorCode) (e : Fault) where
  array_shape-err :
      (others : ℕ) (ss : Slots) (max min : ℕ)
      → array_shape others ss max code min ≡ err e
      → e ≡ fresh code
  unfolding array_shape integer
  array_shape-err others ss max min h = ground arith

mutual
  unfolding snapshot

  snapshot-err_lem :
      (v : Value) (code : ErrorCode) (e : Fault) (depth : ℕ)
      → snapshot v code depth ≡ err e
      → e ≡ fresh code
  snapshot-err_lem (array others ss) code e depth h =
      >>=-eq-err (check (leb depth 16) code) _ h (check-eq-err (leb depth 16) code) λ _ h₁.
        >>=-eq-err (array_shape others ss 4096 code 0) _ h₁
          (array_shape-err code e others ss 4096 0)
          λ _ h₂.
            >>=-eq-err (snapshot_slots ss code (depth + 1)) _ h₂
              (snapshot_slots-err ss code e (depth + 1)) (λ xs p. cc)
  snapshot-err_lem (object prototype ps) code e depth h =
      >>=-eq-err (check (leb depth 16) code) _ h (check-eq-err (leb depth 16) code) λ _ h₁.
        >>=-eq-err (check (leb (key_count ps) 4096) code) _ h₁
          (check-eq-err (leb (key_count ps) 4096) code)
          λ _ h₂.
            >>=-eq-err (check (plain prototype) code) _ h₂ (check-eq-err (plain prototype) code)
              λ _ h₃.
                >>=-eq-err (snapshot_properties ps code (depth + 1)) _ h₃
                  (snapshot_properties-err ps code e (depth + 1)) (λ fs p. cc)
  snapshot-err_lem (number not_finite) code e depth h = ground arith
  snapshot-err_lem _ code e depth h = ground arith

  snapshot_slots-err :
      (ss : Slots) (code : ErrorCode) (e : Fault) (depth : ℕ)
      → snapshot_slots ss code depth ≡ err e
      → e ≡ fresh code
  snapshot_slots-err (element true v ss) code e depth h =
      >>=-eq-err (snapshot v code depth) _ h (snapshot-err_lem v code e depth) λ _ h₁.
        >>=-eq-err (snapshot_slots ss code depth) _ h₁ (snapshot_slots-err ss code e depth)
          (λ xs p. cc)
  snapshot_slots-err _ code e depth h = ground arith

  snapshot_properties-err :
      (ps : Properties) (code : ErrorCode) (e : Fault) (depth : ℕ)
      → snapshot_properties ps code depth ≡ err e
      → e ≡ fresh code
  snapshot_properties-err (property (named k) true v ps) code e depth h =
      >>=-eq-err (snapshot v code depth) _ h (snapshot-err_lem v code e depth) λ _ h₁.
        >>=-eq-err (snapshot_properties ps code depth) _ h₁
          (snapshot_properties-err ps code e depth) (λ fs p. cc)
  snapshot_properties-err _ code e depth h = ground arith

pub snapshot-err :
    (v : Value) (code : ErrorCode) (e : Fault) (depth : ℕ)
    → snapshot v code depth ≡ err e
    → e ≡ fresh code
snapshot-err v code e depth h = snapshot-err_lem v code e depth h

-- The detached copy has as many slots, all of them elements.
slots_of-length :
    (ss : Slots) (code : ErrorCode) (depth : ℕ) (xs : Items)
    → snapshot_slots ss code depth ≡ ok xs
    → (slots_length (slots_of xs) ≡ slots_length ss) × (own_slots (slots_of xs) ≡ slots_length ss)
unfolding snapshot_slots slots_length own_slots slots_of
slots_of-length (element true v ss) code depth xs h =
    let (j, e, h') = >>=-eq-ok (snapshot v code depth) _ h in
    let (rest, e', h'') = >>=-eq-ok (snapshot_slots ss code depth) _ h' in
    let ih = slots_of-length ss code depth rest e' in
    let xs_eq : xs ≡ Items.item j rest = cc in rw xs_eq (ap suc ih.0, ap suc ih.1)
slots_of-length nil code depth xs h = ground arith
slots_of-length _ code depth xs h = cc

-- So its shape is accepted.
array_shape-slots_of :
    (others : ℕ) (ss : Slots) (code code' : ErrorCode) (depth : ℕ) (xs : Items)
    → snapshot_slots ss code depth ≡ ok xs
    → array_shape others ss 4096 code 0 ≡ ok tt
    → array_shape 0 (slots_of xs) 4096 code' 0 ≡ ok tt
unfolding array_shape integer
array_shape-slots_of others ss code code' depth xs h shape =
    let (same, own) = slots_of-length ss code depth xs h in ground arith

properties_of-count :
    (ps : Properties) (code : ErrorCode) (depth : ℕ) (fs : Fields)
    → snapshot_properties ps code depth ≡ ok fs
    → key_count (properties_of fs) ≡ key_count ps
unfolding snapshot_properties key_count properties_of
properties_of-count (property (named k) true v ps) code depth fs h =
    let (j, e, h') = >>=-eq-ok (snapshot v code depth) _ h in
    let (rest, e', h'') = >>=-eq-ok (snapshot_properties ps code depth) _ h' in
    let fs_eq : fs ≡ Fields.field k j rest = cc in
    rw fs_eq (ap suc (properties_of-count ps code depth rest e'))
properties_of-count end code depth fs h = ground arith
properties_of-count _ code depth fs h = cc

mutual
  unfolding snapshot value_of plain

  snapshot-value_of_lem :
      (v : Value) (code code' : ErrorCode) (depth : ℕ) (j : Json)
      → snapshot v code depth ≡ ok j
      → snapshot (value_of j) code' depth ≡ ok j
  snapshot-value_of_lem (array others ss) code code' depth j h =
      let (deep, h₁) = check-eq-ok (leb depth 16) code _ h in
      let (u, shape, h₂) = >>=-eq-ok (array_shape others ss 4096 code 0) _ h₁ in
      let (xs, copied, h₃) = >>=-eq-ok (snapshot_slots ss code (depth + 1)) _ h₂ in
      let j_eq : j ≡ Json.array xs = cc in
      let again = array_shape-slots_of others ss code code' (depth + 1) xs copied shape in
      let slots = snapshot_slots-slots_of ss code code' (depth + 1) xs copied in
      rw j_eq (rw deep (rw again (rw slots)))
  snapshot-value_of_lem (object prototype ps) code code' depth j h =
      let (deep, h₁) = check-eq-ok (leb depth 16) code _ h in
      let (small, h₂) = check-eq-ok (leb (key_count ps) 4096) code _ h₁ in
      let (p, h₃) = check-eq-ok (plain prototype) code _ h₂ in
      let (fs, copied, h₄) = >>=-eq-ok (snapshot_properties ps code (depth + 1)) _ h₃ in
      let j_eq : j ≡ Json.object fs = cc in
      let count = properties_of-count ps code (depth + 1) fs copied in
      let fields = snapshot_properties-properties_of ps code code' (depth + 1) fs copied in
      rw j_eq (rw deep (rw count (rw small (rw fields))))
  snapshot-value_of_lem (string s) code code' depth j h = ground arith
  snapshot-value_of_lem (number (nat n)) code code' depth j h = ground arith
  snapshot-value_of_lem (number (negative n)) code code' depth j h = ground arith
  snapshot-value_of_lem (number (fraction n)) code code' depth j h = ground arith
  snapshot-value_of_lem (boolean b) code code' depth j h = ground arith
  snapshot-value_of_lem null code code' depth j h = ground arith
  snapshot-value_of_lem _ code code' depth j h = cc

  snapshot_slots-slots_of :
      (ss : Slots) (code code' : ErrorCode) (depth : ℕ) (xs : Items)
      → snapshot_slots ss code depth ≡ ok xs
      → snapshot_slots (slots_of xs) code' depth ≡ ok xs
  snapshot_slots-slots_of (element true v ss) code code' depth xs h =
      let (j, e, h') = >>=-eq-ok (snapshot v code depth) _ h in
      let (rest, e', h'') = >>=-eq-ok (snapshot_slots ss code depth) _ h' in
      let xs_eq : xs ≡ Items.item j rest = cc in
      rw xs_eq (
        rw (snapshot-value_of_lem v code code' depth j e)
          (rw (snapshot_slots-slots_of ss code code' depth rest e')))
  snapshot_slots-slots_of nil code code' depth xs h = ground arith
  snapshot_slots-slots_of _ code code' depth xs h = cc

  snapshot_properties-properties_of :
      (ps : Properties) (code code' : ErrorCode) (depth : ℕ) (fs : Fields)
      → snapshot_properties ps code depth ≡ ok fs
      → snapshot_properties (properties_of fs) code' depth ≡ ok fs
  snapshot_properties-properties_of (property (named k) true v ps) code code' depth fs h =
      let (j, e, h') = >>=-eq-ok (snapshot v code depth) _ h in
      let (rest, e', h'') = >>=-eq-ok (snapshot_properties ps code depth) _ h' in
      let fs_eq : fs ≡ Fields.field k j rest = cc in
      rw fs_eq (
        rw (snapshot-value_of_lem v code code' depth j e)
          (rw (snapshot_properties-properties_of ps code code' depth rest e')))
  snapshot_properties-properties_of end code code' depth fs h = ground arith
  snapshot_properties-properties_of _ code code' depth fs h = cc

-- What `snapshot` accepts at some depth it turns into JSON that, as a value, it accepts again at that
-- depth, whatever the error code, and copies unchanged.
pub snapshot-value_of :
    (v : Value) (code code' : ErrorCode) (depth : ℕ) (j : Json)
    → snapshot v code depth ≡ ok j
    → snapshot (value_of j) code' depth ≡ ok j
snapshot-value_of v code code' depth j h = snapshot-value_of_lem v code code' depth j h
