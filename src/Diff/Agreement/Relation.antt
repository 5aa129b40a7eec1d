-- ===== src/Diff/Agreement/Relation.antt =====
-- internal/diff/diff.go: agreement of JSON values: numbers as floats, arrays by position, objects by
-- key in any order.
use mathlib.Core.Path.{subst}
use dark_canary.Prelude.{
  ℕ, suc, ◌≡◌, refl, ap, Bool, true, false, Option, none, some, Bytes, bytes_eq, ◌==◌,
  bytes_beq_iff, nat_eq, nat_beq_iff, arith, lookup, inl, inr, Option-cases,
}
use dark_canary.Diff.Value.{
  Value, null, boolean, number, int, string, array, object, Items, nil, cons, Fields, length_items,
  entries, type_name,
}
use dark_canary.Diff.Runtime.{Runtime}
use dark_canary.Diff.Walk.{number_of, same_scalar, scalar_equal}

abbrev pub is_scalar : Value → Bool
is_scalar (array xs) = false
is_scalar (object fs) = false
is_scalar v = true

-- Scalars that count as the same. Two numbers that can be read as 64-bit floats are the same if the
-- floats are equal, whatever their texts; if one cannot be read, their texts have to be the same.
pub data SameScalar (rt : Runtime) : Value → Value → Type 0 where
  nulls : SameScalar rt null null
  booleans : (b : Bool) → SameScalar rt (boolean b) (boolean b)
  ints : (n : ℕ) → SameScalar rt (int n) (int n)
  strings : (s : Bytes) → SameScalar rt (string s) (string s)
  floats :
      {n m : Bytes} {x y : rt.Float}
      → rt.parse_float n ≡ some x
      → rt.parse_float m ≡ some y
      → rt.float_eq x y ≡ true
      → SameScalar rt (number n) (number m)
  texts : (n : Bytes) → rt.parse_float n ≡ none → SameScalar rt (number n) (number n)

mutual
  pub data Agree (rt : Runtime) : Value → Value → Type 0 where
    scalars : {a b : Value} → SameScalar rt a b → Agree rt a b
    arrays : {xs ys : Items} → AgreeItems rt xs ys → Agree rt (array xs) (array ys)
    objects :
        {fs gs : Fields}
        → ((k : Bytes) → AgreeAt rt (lookup k (entries fs)) (lookup k (entries gs)))
        → Agree rt (object fs) (object gs)

  pub data AgreeItems (rt : Runtime) : Items → Items → Type 0 where
    none_left : AgreeItems rt nil nil
    both_first :
        {a b : Value} {xs ys : Items}
        → Agree rt a b
        → AgreeItems rt xs ys
        → AgreeItems rt (cons a xs) (cons b ys)

  -- Under one key: on neither side, or on both with values that agree.
  pub data AgreeAt (rt : Runtime) : Option Value → Option Value → Type 0 where
    absent : AgreeAt rt none none
    present : {a b : Value} → Agree rt a b → AgreeAt rt (some a) (some b)

module _ {rt : Runtime} where
  SameScalar-type_name : {a b : Value} → SameScalar rt a b → type_name a ≡ type_name b
  unfolding type_name
  SameScalar-type_name nulls = refl
  SameScalar-type_name (booleans b) = refl
  SameScalar-type_name (ints n) = refl
  SameScalar-type_name (strings s) = refl
  SameScalar-type_name (floats p q e) = refl
  SameScalar-type_name (texts n p) = refl

  pub Agree-type_name : {a b : Value} → Agree rt a b → type_name a ≡ type_name b
  unfolding type_name
  Agree-type_name (scalars h) = SameScalar-type_name h
  Agree-type_name (arrays h) = refl
  Agree-type_name (objects h) = refl

  SameScalar-scalar_equal : {a b : Value} → SameScalar rt a b → scalar_equal rt a b ≡ true
  unfolding scalar_equal number_of same_scalar
  SameScalar-scalar_equal nulls = refl
  SameScalar-scalar_equal (booleans true) = refl
  SameScalar-scalar_equal (booleans false) = refl
  SameScalar-scalar_equal (ints n) = (nat_beq_iff n n).1 refl
  SameScalar-scalar_equal (strings s) = (bytes_beq_iff s s).1 refl
  SameScalar-scalar_equal (floats p q e) = ground arith
  SameScalar-scalar_equal (texts n p) = ground (arith, bytes_beq_iff n n)

  pub scalars_inv : {a b : Value} → is_scalar a ≡ true → Agree rt a b → scalar_equal rt a b ≡ true
  scalars_inv s (scalars h) = SameScalar-scalar_equal h
  scalars_inv s (arrays h) = cc
  scalars_inv s (objects h) = cc

  numbers-SameScalar :
      (n m : Bytes)
      → scalar_equal rt (number n) (number m) ≡ true
      → SameScalar rt (number n) (number m)
  unfolding scalar_equal number_of same_scalar
  numbers-SameScalar n m h = elim (Option-cases (rt.parse_float n)) [
    | inl p ↦
        subst (λ k. SameScalar rt (number n) (number k)) (ground (arith, bytes_beq_iff n m))
          (texts n p)
    | inr (x, p) ↦ elim (Option-cases (rt.parse_float m)) [
      | inl q ↦
          let text : n == m ≡ true = ground arith in
          let same : n ≡ m = (bytes_beq_iff n m).0 text in absurd (cc)
      | inr (y, q) ↦ floats p q (ground arith)
    ]
  ]

  pub scalar_equal-SameScalar :
      (a b : Value)
      → is_scalar a ≡ true
      → type_name a ≡ type_name b
      → scalar_equal rt a b ≡ true
      → SameScalar rt a b
  unfolding scalar_equal number_of same_scalar type_name
  scalar_equal-SameScalar null null s t h = nulls
  scalar_equal-SameScalar (boolean true) (boolean true) s t h = booleans true
  scalar_equal-SameScalar (boolean false) (boolean false) s t h = booleans false
  scalar_equal-SameScalar (number n) (number m) s t h = numbers-SameScalar n m h
  scalar_equal-SameScalar (int n) (int m) s t h = rw ((nat_beq_iff n m).0 h) (ints m)
  scalar_equal-SameScalar (string x) (string y) s t h = rw ((bytes_beq_iff x y).0 h) (strings y)
  scalar_equal-SameScalar null b s t h = absurd (ground arith)
  scalar_equal-SameScalar (boolean x) b s t h = absurd (ground arith)
  scalar_equal-SameScalar (number x) b s t h = absurd (ground arith)
  scalar_equal-SameScalar (int x) b s t h = absurd (ground arith)
  scalar_equal-SameScalar (string x) b s t h = absurd (ground arith)
  scalar_equal-SameScalar (array x) b s t h = absurd (cc)
  scalar_equal-SameScalar (object x) b s t h = absurd (cc)

  no_arrays : {xs ys : Items} → SameScalar rt (array xs) (array ys) → ⊥
  no_arrays h = elim h [ ]

  no_objects : {fs gs : Fields} → SameScalar rt (object fs) (object gs) → ⊥
  no_objects h = elim h [ ]

  pub arrays_inv : {xs ys : Items} → Agree rt (array xs) (array ys) → AgreeItems rt xs ys
  arrays_inv (scalars h) = absurd (no_arrays h)
  arrays_inv (arrays h) = h

  pub objects_inv :
      {fs gs : Fields}
      → Agree rt (object fs) (object gs)
      → (k : Bytes) → AgreeAt rt (lookup k (entries fs)) (lookup k (entries gs))
  objects_inv (scalars h) = absurd (no_objects h)
  objects_inv (objects h) = h

  pub both_inv :
      {a b : Value} {xs ys : Items}
      → AgreeItems rt (cons a xs) (cons b ys)
      → Agree rt a b × AgreeItems rt xs ys
  both_inv (both_first h t) = (h, t)

  pub present_inv : {a b : Value} → AgreeAt rt (some a) (some b) → Agree rt a b
  present_inv (present h) = h

  pub AgreeItems-length : {xs ys : Items} → AgreeItems rt xs ys → length_items xs ≡ length_items ys
  unfolding length_items
  AgreeItems-length none_left = refl
  AgreeItems-length (both_first h t) = ap suc (AgreeItems-length t)
