-- ===== src/Diff/Quiet.antt =====
-- internal/diff/diff.go: the walk over a JSON value and itself, under any rules.
use dark_canary.Prelude.{
  ℕ, ◌+◌, ◌≡◌, refl, ◌∙◌, inl, inr, true, false, Option, none, some, List, [], ◌∷◌, ◌++◌, arith,
  Bytes, codes, nat_eq, bytes_eq, bytes_beq_refl, ◌==◌, lookup, keys, Bool-cases,
}
use dark_canary.Diff.Value.{
  Value, null, boolean, number, int, string, array, object, Items, nil, cons, Fields, end, field,
  length_items, entries, type_name,
}
use dark_canary.Diff.Text.{decimal, escape_token}
use dark_canary.Diff.Runtime.{Runtime}
use dark_canary.Diff.Engine.{Result, Engine}
use dark_canary.Diff.Walk.{
  Walker, on_array, on_object, sorted_keys, scalar_equal, same_scalar, number_of, same_type,
  walk_scalar, walk_array, compare_key, visit, visit_all, walk_object, walk, walk_items, children,
}
use dark_canary.Diff.Suppression.{suppressed_cases}

-- Nothing is appended to the differences.
abbrev pub IsQuiet : (Result → Result) → Type 0
IsQuiet f = (r : Result) → (f r).differences ≡ r.differences

module _ (rt : Runtime) where
  unfoldable mutual
    -- Every number in the value equals itself, as all that are no NaN do.
    pub NumbersHold : Value → Type 0
    NumbersHold (number n) = scalar_equal rt (number n) (number n) ≡ true
    NumbersHold (array xs) = ItemsHold xs
    NumbersHold (object fs) = FieldsHold fs
    NumbersHold null = Unit
    NumbersHold (boolean b) = Unit
    NumbersHold (int n) = Unit
    NumbersHold (string s) = Unit

    pub ItemsHold : Items → Type 0
    ItemsHold nil = Unit
    ItemsHold (cons x xs) = NumbersHold x × ItemsHold xs

    pub FieldsHold : Fields → Type 0
    FieldsHold end = Unit
    FieldsHold (field k v fs) = NumbersHold v × FieldsHold fs

  -- The decoder reads JSON, whose numbers are no NaN.
  abbrev pub DecodesNumbers : Type 0
  DecodesNumbers = (b : Bytes) (v : Value) → rt.decode b ≡ some v → NumbersHold v

  module _ (e : Engine) where
    same_type-IsQuiet :
        (path : Bytes) (a : Value) (f : Result → Result)
        → IsQuiet f
        → IsQuiet (λ r. same_type rt e path a a r (f r))
    unfolding same_type
    same_type-IsQuiet path a f h r = rw (bytes_beq_refl (type_name a)) (h r)

    plain-IsQuiet :
        (path : Bytes) (a : Value)
        → scalar_equal rt a a ≡ true
        → IsQuiet (λ r. same_type rt e path a a r (walk_scalar rt e path a a r))
    unfolding walk_scalar
    plain-IsQuiet path a h = same_type-IsQuiet path a (walk_scalar rt e path a a) (λ r. rw h refl)

    walk_array-IsQuiet :
        (path : Bytes) (xs : Items) (loop : Result → Result)
        → IsQuiet loop
        → IsQuiet (walk_array rt e path xs xs loop)
    unfolding walk_array
    walk_array-IsQuiet path xs loop h r =
        elim (suppressed_cases rt e path (array xs) (array xs) r) [
          | inr hit ↦ rw (hit, walk_array) refl
          | inl pass ↦
              let same : (length_items xs == length_items xs) ≡ true = ground arith in
              rw (pass, walk_array, same) (h r)
        ]

    -- What the two objects hold under a key: nothing, or a value and its walk beside itself.
    abbrev KidQuiet : Option (Value × Walker) → Option Value → Type 0
    KidQuiet none none = Unit
    KidQuiet none (some v) = ⊥
    KidQuiet (some x) none = ⊥
    KidQuiet (some x) (some v) = (path : Bytes) → IsQuiet (x.1 path v)

    compare_key-IsQuiet :
        (child : Bytes) (x : Option (Value × Walker)) (v : Option Value)
        → KidQuiet x v
        → IsQuiet (compare_key rt e child x v)
    unfolding compare_key
    compare_key-IsQuiet child none none h r = refl
    compare_key-IsQuiet child none (some v) h r = absurd h
    compare_key-IsQuiet child (some x) none h r = absurd h
    compare_key-IsQuiet child (some x) (some v) h r = h child r

    visit_all-IsQuiet :
        (path : Bytes) (kids : List (Bytes × (Value × Walker))) (right : List (Bytes × Value))
        (ks : List Bytes)
        → ((k : Bytes) → KidQuiet (lookup k kids) (lookup k right))
        → IsQuiet (visit_all rt e path kids right ks)
    unfolding visit_all visit
    visit_all-IsQuiet path kids right [] h r = refl
    visit_all-IsQuiet path kids right (k ∷ ks) h r =
        visit_all-IsQuiet path kids right ks h (visit rt e path kids right k r)
        ∙ compare_key-IsQuiet (path ++ codes "/" ++ escape_token k) (lookup k kids) (lookup k right)
            (h k) r

    walk_object-IsQuiet :
        (path : Bytes) (kids : List (Bytes × (Value × Walker))) (right : List (Bytes × Value))
        → ((k : Bytes) → KidQuiet (lookup k kids) (lookup k right))
        → IsQuiet (walk_object rt e path kids right)
    unfolding walk_object
    walk_object-IsQuiet path kids right h =
        visit_all-IsQuiet path kids right (sorted_keys (keys kids) (keys right)) h

    mutual
      unfolding walk NumbersHold scalar_equal number_of same_scalar on_array on_object entries
          lookup

      pub walk-IsQuiet : (path : Bytes) (v : Value) → NumbersHold v → IsQuiet (walk rt e path v v)
      walk-IsQuiet path null h r = plain-IsQuiet path null refl r
      walk-IsQuiet path (boolean true) h r = plain-IsQuiet path (boolean true) refl r
      walk-IsQuiet path (boolean false) h r = plain-IsQuiet path (boolean false) refl r
      walk-IsQuiet path (number n) h r = plain-IsQuiet path (number n) h r
      walk-IsQuiet path (int n) h r = plain-IsQuiet path (int n) (ground arith) r
      walk-IsQuiet path (string s) h r = plain-IsQuiet path (string s) (bytes_beq_refl s) r
      walk-IsQuiet path (array xs) h r =
          same_type-IsQuiet path (array xs)
            (walk_array rt e path xs xs (λ t. walk_items rt e path 0 xs xs t))
            (walk_array-IsQuiet path xs (λ t. walk_items rt e path 0 xs xs t)
              (items-IsQuiet path 0 xs h))
            r
      walk-IsQuiet path (object fs) h r =
          same_type-IsQuiet path (object fs) (walk_object rt e path (children rt e fs) (entries fs))
            (walk_object-IsQuiet path (children rt e fs) (entries fs) (λ k. kids-KidQuiet k fs h)) r

      items-IsQuiet :
          (path : Bytes) (i : ℕ) (xs : Items)
          → ItemsHold xs
          → IsQuiet (λ r. walk_items rt e path i xs xs r)
      items-IsQuiet path i nil h r = refl
      items-IsQuiet path i (cons x xs) h r =
          items-IsQuiet path (i + 1) xs h.1 (walk rt e (path ++ codes "/" ++ decimal i) x x r)
          ∙ walk-IsQuiet (path ++ codes "/" ++ decimal i) x h.0 r

      kids-KidQuiet :
          (k : Bytes) (fs : Fields)
          → FieldsHold fs
          → KidQuiet (lookup k (children rt e fs)) (lookup k (entries fs))
      kids-KidQuiet k end h = tt
      kids-KidQuiet k (field j v fs) h = elim (Bool-cases (j == k)) [
        | inl same ↦ rw same (λ path. walk-IsQuiet path v h.0)
        | inr other ↦ rw other (kids-KidQuiet k fs h.1)
      ]
