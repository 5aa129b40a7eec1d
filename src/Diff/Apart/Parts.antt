-- ===== src/Diff/Apart/Parts.antt =====
-- internal/diff/diff.go: the parts of the walk, and the paths at which they append.
use dark_canary.Prelude.{
  ℕ, ◌+◌, ◌≤◌, ◌≡◌, refl, ap, inl, inr, true, false, Option, none, some, List, [], ◌∷◌, arith,
  Bytes, nat_eq, bytes_eq, bytes_beq_iff, ◌==◌, lookup, keys, contains, All, Distinct, All-lookup,
  Bool-cases,
}
use dark_canary.Diff.Value.{Value, null, string, array, Items, length_items, type_name}
use dark_canary.Diff.Text.{decimal, escape_token}
use dark_canary.Diff.Runtime.{Runtime}
use dark_canary.Diff.Engine.{Result, Engine, body_val, body_key, shape, add}
use dark_canary.Diff.Walk.{
  Walker, sorted_keys, count_items, scalar_equal, same_type, walk_scalar, walk_array, compare_key,
  visit, visit_all, walk_object,
}
use dark_canary.Diff.Suppression.{suppressed_cases}
use dark_canary.Diff.Apart.Paths.{
  Under, Below, child_path, Under-child, Under-self, Below-Under, Below-not_self, Under-same_token,
  escape_token-IsToken, escape_token-injective,
}
use dark_canary.Diff.Apart.Growth.{Grows, Grows-none, Grows-map, Grows-then, add-Grows, added-Grows}
use dark_canary.Diff.Apart.Keys.{HasKeys, sorted_keys-Distinct}

-- Below an element from a place on, and below one of the keys.
abbrev pub ItemFrom : Bytes → ℕ → Bytes → Type 0
ItemFrom path i q = (j : ℕ) × (i ≤ j) × Under (child_path path (decimal j)) q

abbrev KeyOf : Bytes → List Bytes → Bytes → Type 0
KeyOf path ks q = (k : Bytes) × (contains k ks ≡ true) × Under (child_path path (escape_token k)) q

module _ (rt : Runtime) (e : Engine) where
  scalar-Grows : (path : Bytes) (a b : Value) → Grows (Under path) (walk_scalar rt e path a b)
  unfolding walk_scalar
  scalar-Grows path a b r = elim (Bool-cases (scalar_equal rt a b)) [
    | inl same ↦ rw same (Grows-none (Under path) r)
    | inr other ↦
        rw other (added-Grows rt e (Under path) body_val path a b (Under-self path refl) r)
  ]

  pub same_type-Grows :
      (path : Bytes) (a b : Value) (f : Result → Result)
      → Grows (Under path) f
      → Grows (Under path) (λ r. same_type rt e path a b r (f r))
  unfolding same_type
  same_type-Grows path a b f h r = elim (Bool-cases (type_name a == type_name b)) [
    | inl same ↦ rw same (h r)
    | inr other ↦ rw other (
        added-Grows rt e (Under path) shape path (string (type_name a)) (string (type_name b))
          (Under-self path refl) r)
  ]

  -- Two values that are no arrays and no objects.
  pub plain-Grows :
      (path : Bytes) (a b : Value)
      → Grows (Under path) (λ r. same_type rt e path a b r (walk_scalar rt e path a b r))
  plain-Grows path a b =
      same_type-Grows path a b (walk_scalar rt e path a b) (scalar-Grows path a b)

  pub walk_array-Grows :
      (path : Bytes) (xs ys : Items) (loop : Result → Result)
      → Grows (Below path) loop
      → Grows (Under path) (walk_array rt e path xs ys loop)
  unfolding walk_array
  walk_array-Grows path xs ys loop h r = elim (suppressed_cases rt e path (array xs) (array ys) r) [
    | inr hit ↦
        rw (hit, walk_array) (Grows-none (Under path) (record r { suppressed = r.suppressed + 1 }))
    | inl pass ↦
        rw (pass, walk_array)
          (elim (Bool-cases (length_items xs == length_items ys)) [
            | inl same ↦
                rw same (Grows-map (Below path) (Under path) loop (λ q. Below-Under path) h r)
            | inr other ↦ rw other (
                Grows-then (λ q. q ≡ path) (Below path) (Under path)
                  (add rt e shape path (count_items xs) (count_items ys)) loop
                  (λ q self below. Below-not_self path below self) (λ q. Under-self path)
                  (λ q. Below-Under path)
                  (add-Grows rt e shape path (count_items xs) (count_items ys)) h r)
          ])
  ]

  -- A walk of a child appends below the path that it is given.
  abbrev pub KidGrows : Value × Walker → Type 0
  KidGrows kid = (path : Bytes) (b : Value) → HasKeys b → Grows (Under path) (kid.1 path b)

  compare_key-Grows :
      (child : Bytes) (x : Option (Value × Walker)) (b : Option Value)
      → ((kid : Value × Walker) → x ≡ some kid → KidGrows kid)
      → ((v : Value) → b ≡ some v → HasKeys v)
      → Grows (Under child) (compare_key rt e child x b)
  unfolding compare_key
  compare_key-Grows child none none h g r = Grows-none (Under child) r
  compare_key-Grows child none (some b) h g r =
      added-Grows rt e (Under child) body_key child null b (Under-self child refl) r
  compare_key-Grows child (some x) none h g r =
      added-Grows rt e (Under child) body_key child x.0 null (Under-self child refl) r
  compare_key-Grows child (some x) (some b) h g r = h x refl child b (g b refl) r

  module _ (path : Bytes) (kids : List (Bytes × (Value × Walker))) (right : List (Bytes × Value))
      (good : All (λ (k : Bytes × (Value × Walker)). KidGrows k.1) kids)
      (whole : All (λ (k : Bytes × Value). HasKeys k.1) right) where
    visit-Grows :
        (k : Bytes)
        → Grows (Under (child_path path (escape_token k))) (visit rt e path kids right k)
    unfolding visit
    visit-Grows k r =
        compare_key-Grows (child_path path (escape_token k)) (lookup k kids) (lookup k right)
          (λ kid found.
            All-lookup (λ (q : Bytes × (Value × Walker)). KidGrows q.1) k kids good found)
          (λ v found. All-lookup (λ (q : Bytes × Value). HasKeys q.1) k right whole found) r

    not_twice :
        (k : Bytes) (ks : List Bytes)
        → contains k ks ≡ false
        → (q : Bytes) → Under (child_path path (escape_token k)) q
        → KeyOf path ks q
        → ⊥
    not_twice k ks fresh q here (j, there, below) =
        let same = escape_token-injective k j (
          Under-same_token path (escape_token k) (escape_token j) (escape_token-IsToken k)
            (escape_token-IsToken j) here below) in
        absurd (ground (arith, fresh, there, ap (λ i. contains i ks) same))

    visit_all-Grows :
        (ks : List Bytes) → Distinct ks → Grows (KeyOf path ks) (visit_all rt e path kids right ks)
    unfolding visit_all contains
    visit_all-Grows [] d r = Grows-none (KeyOf path []) r
    visit_all-Grows (k ∷ ks) d r =
        Grows-then (Under (child_path path (escape_token k))) (KeyOf path ks) (KeyOf path (k ∷ ks))
          (visit rt e path kids right k) (visit_all rt e path kids right ks) (not_twice k ks d.0)
          (λ q u. (k, ground (arith, bytes_beq_iff k k), u))
          (λ q below. (below.0, ground (arith, below.1), below.2)) (visit-Grows k)
          (visit_all-Grows ks d.1) r

    pub walk_object-Grows :
        Distinct (keys kids)
        → Distinct (keys right)
        → Grows (Under path) (walk_object rt e path kids right)
    unfolding walk_object
    walk_object-Grows dl dr =
        Grows-map (KeyOf path (sorted_keys (keys kids) (keys right))) (Under path)
          (visit_all rt e path kids right (sorted_keys (keys kids) (keys right)))
          (λ q below. Below-Under path (Under-child path (escape_token below.0) below.2))
          (visit_all-Grows (sorted_keys (keys kids) (keys right))
            (sorted_keys-Distinct (keys kids) (keys right) dl dr))
