-- ===== src/Diff/Agreement/Bodies.antt =====
-- internal/diff/diff.go: `walk` without rules, and values that agree.
use mathlib.Core.Bool.{false≢true}
use dark_canary.Prelude.{
  ℕ, ◌+◌, ◌≤◌, ◌≡◌, refl, sym, ap, ◌∙◌, ◌↔◌, ◌⊎◌, inl, inr, true, false, not, ◌||◌, Option, none,
  some, List, [], ◌∷◌, ◌++◌, arith, Bytes, codes, nat_eq, nat_beq_iff, bytes_eq, bytes_beq,
  bytes_beq_iff, ◌==◌, lookup, keys, keep, length, contains, contains-append, lookup_absent,
  contains-sort, contains-keep, All, All-contains, All-of, bytes_lt, Bool-cases,
}
use dark_canary.Diff.Value.{
  Value, null, boolean, number, int, string, array, object, Items, nil, cons, Fields, end, field,
  length_items, entries, type_name,
}
use dark_canary.Diff.Text.{decimal, escape_token}
use dark_canary.Diff.Runtime.{Runtime}
use dark_canary.Diff.Engine.{Result, Engine, body_val, body_key, shape, suppressed, add}
use dark_canary.Diff.Walk.{
  Walker, on_array, on_object, sorted_keys, count_items, scalar_equal, same_type, walk_scalar,
  walk_array, compare_key, visit, visit_all, walk_object, walk, walk_items, children,
}
use dark_canary.Diff.Suppression.{without_rules}
use dark_canary.Diff.Agreement.Relation.{
  is_scalar, scalar_equal-SameScalar, Agree, scalars, arrays, objects, AgreeItems, none_left,
  both_first, AgreeAt, absent, present, Agree-type_name, scalars_inv, arrays_inv, objects_inv,
  both_inv, present_inv, AgreeItems-length,
}
use dark_canary.Diff.Agreement.Judge.{Judges, Judges-map, Judges-le, Judges-then, add_grows}

contains-sorted_keys :
    (k : Bytes) (a b : List Bytes) → contains k (sorted_keys a b) ≡ (contains k a || contains k b)
unfolding sorted_keys
contains-sorted_keys k a b = ground (
  arith,
  contains-sort bytes_lt k (a ++ keep (λ j. not (contains j a)) b),
  contains-append k a (keep (λ j. not (contains j a)) b),
  contains-keep (λ j. not (contains j a)) k b,
)

module _ (rt : Runtime) (rules : Engine) where
  abbrev e : Engine
  e = without_rules rules

  same_type-Judges :
      (path : Bytes) (a b : Value) (f : Result → Result)
      → (type_name a ≡ type_name b → Judges (Agree rt a b) f)
      → Judges (Agree rt a b) (λ r. same_type rt e path a b r (f r))
  unfolding same_type
  same_type-Judges path a b f h = elim (Bool-cases (type_name a == type_name b)) [
    | inl same ↦ rw same (h ((bytes_beq_iff _ _).0 same))
    | inr other ↦ rw other (
        inr (
          λ g.
              absurd (ground (arith, bytes_beq_iff (type_name a) (type_name b), Agree-type_name g)),
          add_grows rt rules shape path (string (type_name a)) (string (type_name b)),
        ))
  ]

  walk_scalar-Judges :
      (path : Bytes) (a b : Value)
      → is_scalar a ≡ true
      → type_name a ≡ type_name b
      → Judges (Agree rt a b) (walk_scalar rt e path a b)
  unfolding walk_scalar
  walk_scalar-Judges path a b s t = elim (Bool-cases (scalar_equal rt a b)) [
    | inl same ↦ rw same (inl (scalars (scalar_equal-SameScalar a b s t same), λ r. refl))
    | inr other ↦
        rw other (
          inr (λ g. absurd (ground (arith, scalars_inv s g)), add_grows rt rules body_val path a b))
  ]

  walk_array-Judges :
      (path : Bytes) (xs ys : Items) (f : Result → Result)
      → (length_items xs ≡ length_items ys → Judges (AgreeItems rt xs ys) f)
      → ((r : Result) → length r.differences ≤ length (f r).differences)
      → Judges (Agree rt (array xs) (array ys)) (walk_array rt e path xs ys f)
  unfolding walk_array suppressed
  walk_array-Judges path xs ys f h low = elim (Bool-cases (length_items xs == length_items ys)) [
    | inl same ↦ rw same (Judges-map f (arrays, arrays_inv) (h ((nat_beq_iff _ _).0 same)))
    | inr other ↦ rw other (
        inr (
          λ g. absurd (ground (arith, AgreeItems-length (arrays_inv g))),
          λ r. omega (
            arith,
            add_grows rt rules shape path (count_items xs) (count_items ys) r,
            low (add rt e shape path (count_items xs) (count_items ys) r),
          ),
        ))
  ]

  -- What an object hands over under one key, beside what it holds there.
  abbrev KidAt : Option (Value × Walker) → Option Value → Type 0
  KidAt none none = Unit
  KidAt none (some v) = ⊥
  KidAt (some x) none = ⊥
  KidAt (some x) (some v) =
      (x.0 ≡ v) × ((path : Bytes) (b : Value) → Judges (Agree rt v b) (x.1 path b))

  compare_key-Judges :
      (child : Bytes) (x : Option (Value × Walker)) (v b : Option Value)
      → KidAt x v
      → Judges (AgreeAt rt v b) (compare_key rt e child x b)
  unfolding compare_key
  compare_key-Judges child none none none h = inl (absent, λ r. refl)
  compare_key-Judges child none none (some b) h =
      inr (λ g. elim g [ ], add_grows rt rules body_key child null b)
  compare_key-Judges child none (some v) b h = absurd h
  compare_key-Judges child (some x) none b h = absurd h
  compare_key-Judges child (some x) (some v) none h =
      inr (λ g. elim g [ ], add_grows rt rules body_key child x.0 null)
  compare_key-Judges child (some x) (some v) (some b) h =
      Judges-map (x.1 child b) (present, present_inv) (h.1 child b)

  Kids : List (Bytes × (Value × Walker)) → Fields → Type 0
  Kids kids fs = (k : Bytes) → KidAt (lookup k kids) (lookup k (entries fs))

  visit_all-Judges :
      (path : Bytes) (kids : List (Bytes × (Value × Walker))) (fs gs : Fields) (ks : List Bytes)
      → Kids kids fs
      → Judges
          (All (λ k. AgreeAt rt (lookup k (entries fs)) (lookup k (entries gs))) ks)
          (visit_all rt e path kids (entries gs) ks)
  unfolding visit_all visit Kids
  visit_all-Judges path kids fs gs [] h = inl (tt, λ r. refl)
  visit_all-Judges path kids fs gs (k ∷ ks) h =
      Judges-then _ _
        (compare_key-Judges (path ++ codes "/" ++ escape_token k) _ _ (lookup k (entries gs)) (h k))
        (visit_all-Judges path kids fs gs ks h)

  -- Agreement under the sorted keys is agreement under every key.
  All-keys :
      (fs gs : Fields) (ks : List Bytes)
      → ks ≡ sorted_keys (keys (entries fs)) (keys (entries gs))
      → All (λ k. AgreeAt rt (lookup k (entries fs)) (lookup k (entries gs))) ks
        ↔ Agree rt (object fs) (object gs)
  All-keys fs gs ks e = (
    λ h. objects (λ k. at_key k h (Bool-cases (contains k ks))),
    λ g. All-of _ ks (objects_inv g),
  )
    where
      no_key :
          (k : Bytes)
          → contains k ks ≡ false
          → AgreeAt rt (lookup k (entries fs)) (lookup k (entries gs))
      no_key k h =
          let left = keys (entries fs) in
          let right = keys (entries gs) in
          let none_there : (contains k left || contains k right) ≡ false =
            sym (contains-sorted_keys k left right) ∙ ap (contains k) (sym e) ∙ h in
          rw
            (
              lookup_absent k (entries fs) (ground arith),
              lookup_absent k (entries gs) (ground arith),
            )
            absent

      at_key :
          (k : Bytes)
          → All (λ j. AgreeAt rt (lookup j (entries fs)) (lookup j (entries gs))) ks
          → (contains k ks ≡ true) ⊎ (contains k ks ≡ false)
          → AgreeAt rt (lookup k (entries fs)) (lookup k (entries gs))
      at_key k h (inl c) = All-contains _ k ks h c
      at_key k h (inr c) = no_key k c

  keys-kids : (fs : Fields) → keys (children rt e fs) ≡ keys (entries fs)
  unfolding children entries
  keys-kids end = refl
  keys-kids (field k v fs) = ap (◌∷◌ k) (keys-kids fs)

  walk_object-Judges :
      (path : Bytes) (fs gs : Fields)
      → Kids (children rt e fs) fs
      → Judges
          (Agree rt (object fs) (object gs))
          (walk_object rt e path (children rt e fs) (entries gs))
  unfolding walk_object
  walk_object-Judges path fs gs h =
      let ks = sorted_keys (keys (children rt e fs)) (keys (entries gs)) in
      Judges-map _ (All-keys fs gs ks (ap (λ l. sorted_keys l (keys (entries gs))) (keys-kids fs)))
        (visit_all-Judges path (children rt e fs) fs gs ks h)

  on_array-Judges :
      (xs : Items) (b : Value) (f : Items → Result → Result)
      → type_name (array xs) ≡ type_name b
      → ((ys : Items) → Judges (Agree rt (array xs) (array ys)) (f ys))
      → Judges (Agree rt (array xs) b) (on_array b f)
  unfolding on_array type_name bytes_beq
  on_array-Judges xs (array ys) f t h = h ys
  on_array-Judges xs b f t h =
      absurd (false≢true ((bytes_beq_iff (type_name (array xs)) (type_name b)).1 t))

  on_object-Judges :
      (fs : Fields) (b : Value) (f : Fields → Result → Result)
      → type_name (object fs) ≡ type_name b
      → ((gs : Fields) → Judges (Agree rt (object fs) (object gs)) (f gs))
      → Judges (Agree rt (object fs) b) (on_object b f)
  unfolding on_object type_name bytes_beq
  on_object-Judges fs (object gs) f t h = h gs
  on_object-Judges fs b f t h =
      absurd (false≢true ((bytes_beq_iff (type_name (object fs)) (type_name b)).1 t))

  mutual
    unfolding walk entries lookup Kids length_items

    pub walk-Judges : (path : Bytes) (a b : Value) → Judges (Agree rt a b) (walk rt e path a b)
    walk-Judges path null b = same_type-Judges path null b _ (walk_scalar-Judges path null b refl)
    walk-Judges path (boolean x) b =
        same_type-Judges path (boolean x) b _ (walk_scalar-Judges path (boolean x) b refl)
    walk-Judges path (number x) b =
        same_type-Judges path (number x) b _ (walk_scalar-Judges path (number x) b refl)
    walk-Judges path (int x) b =
        same_type-Judges path (int x) b _ (walk_scalar-Judges path (int x) b refl)
    walk-Judges path (string x) b =
        same_type-Judges path (string x) b _ (walk_scalar-Judges path (string x) b refl)
    walk-Judges path (array xs) b = same_type-Judges path (array xs) b _ (λ t.
        on_array-Judges xs b _ t (λ ys.
          walk_array-Judges path xs ys _ (walk_items-Judges path 0 xs ys)
            (walk_items-le path 0 xs ys)))
    walk-Judges path (object fs) b =
        same_type-Judges path (object fs) b _
          (λ t. on_object-Judges fs b _ t (λ gs. walk_object-Judges path fs gs (children-Kids fs)))

    walk_items-Judges :
        (path : Bytes) (i : ℕ) (xs ys : Items)
        → length_items xs ≡ length_items ys
        → Judges (AgreeItems rt xs ys) (walk_items rt e path i xs ys)
    walk_items-Judges path i nil nil h = inl (none_left, λ r. refl)
    walk_items-Judges path i nil (cons y ys) h = absurd (omega arith)
    walk_items-Judges path i (cons x xs) nil h = absurd (omega arith)
    walk_items-Judges path i (cons x xs) (cons y ys) h =
        Judges-map _ ((λ p. both_first p.0 p.1), both_inv)
          (Judges-then _ _ (walk-Judges (path ++ codes "/" ++ decimal i) x y)
            (walk_items-Judges path (i + 1) xs ys (omega arith)))

    walk_items-le :
        (path : Bytes) (i : ℕ) (xs ys : Items) (r : Result)
        → length r.differences ≤ length (walk_items rt e path i xs ys r).differences
    walk_items-le path i nil ys r = omega arith
    walk_items-le path i (cons x xs) nil r = omega arith
    walk_items-le path i (cons x xs) (cons y ys) r =
        let child = path ++ codes "/" ++ decimal i in
        omega (
          arith,
          Judges-le (walk rt e child x y) (walk-Judges child x y) r,
          walk_items-le path (i + 1) xs ys (walk rt e child x y r),
        )

    children-Kids : (fs : Fields) → Kids (children rt e fs) fs
    children-Kids end k = tt
    children-Kids (field j v fs) k = elim (Bool-cases (j == k)) [
      | inl same ↦ rw same (refl, λ path b. walk-Judges path v b)
      | inr other ↦ rw other (children-Kids fs k)
    ]

  same_if : {A : Type 0} (f : Result → Result) (r : Result) → Judges A f → (f r ≡ r) ↔ A
  same_if f r (inl (a, h)) = ((λ e. a), (λ a'. h r))
  same_if f r (inr (n, h)) = (
    (λ e. absurd (omega (arith, h r, ap (λ (t : Result). length t.differences) e))),
    (λ a. absurd (n a)),
  )

  -- Without rules the walk reports nothing exactly if the two values agree: null with null, and
  -- Booleans, strings and the program's own integers that are the same; numbers that the runtime reads as floats which its
  -- equality holds for equal, so that decimals too close for a 64-bit float agree, or that have the
  -- same text where it cannot read them; arrays of one length that agree at each place; and objects
  -- with the same keys that agree at each of them, in any order.
  pub walk-agrees_iff :
      (path : Bytes) (a b : Value) (r : Result) → (walk rt e path a b r ≡ r) ↔ Agree rt a b
  walk-agrees_iff path a b r = same_if (walk rt e path a b) r (walk-Judges path a b)
