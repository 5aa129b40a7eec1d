-- ===== src/Diff/Suppression.antt =====
-- internal/diff/diff.go: comparisons with rules beside comparisons without. Each part of the walk is
-- compared with the same part of an engine that has no rules.
use dark_canary.Prelude.{
  ℕ, ◌+◌, ◌≤◌, ◌<◌, ◌≡◌, refl, ap, ap₂, ◌∙◌, ◌⊎◌, inl, inr, true, false, Option, none, some, List,
  [], ◌∷◌, ◌++◌, arith, Bytes, codes, nat_eq, bytes_eq, ◌==◌, lookup, keys, Bool-cases,
}
use dark_canary.Diff.Value.{
  Value, null, boolean, number, int, string, array, object, Items, nil, cons, Fields, end, field,
  length_items, entries, type_name,
}
use dark_canary.Diff.Text.{decimal, escape_token}
use dark_canary.Diff.Runtime.{Runtime}
use dark_canary.Diff.Engine.{
  Result, Engine, Kind, body_val, body_key, shape, render, suppressed, add, status, header,
  path_status, path_headers, path_body,
}
use dark_canary.Diff.Walk.{
  Walker, on_array, on_object, sorted_keys, count_items, scalar_equal, same_type, walk_scalar,
  walk_array, compare_key, visit, visit_all, walk_object, walk, walk_items, children,
}
use dark_canary.Collector.Types.{Headers, Pair}
use dark_canary.Diff.Headers.{header_names, header_value, diff_header, diff_names, diff_headers}
use dark_canary.Diff.Compare.{
  jsonness, empty_result, decode_json, diff_status, diff_decoded, diff_bodies, diff,
}

-- The same engine without rules.
abbrev pub without_rules : Engine → Engine
without_rules e = record e { suppressor = none }

-- `f` suppresses something, or does what `g` does; and it never takes a suppression back.
abbrev pub Tame : (Result → Result) → (Result → Result) → Type 0
Tame f g =
    (r : Result)
    → (r.suppressed ≤ (f r).suppressed) × ((f r ≡ g r) ⊎ (r.suppressed < (f r).suppressed))

pub Tame-refl : (f : Result → Result) → ((r : Result) → f r ≡ r) → Tame f f
Tame-refl f h r = (omega (arith, ap (λ (t : Result). t.suppressed) (h r)), inl refl)

pub Tame-then :
    (f f' g g' : Result → Result) → Tame f g → Tame f' g' → Tame (λ r. f' (f r)) (λ r. g' (g r))
Tame-then f f' g g' h h' r =
    let (low, first) = h r in
    let (low', second) = h' (f r) in
    (
      omega arith,
      elim first [
        | inr more ↦ inr (omega arith)
        | inl same ↦ elim second [
          | inr more ↦ inr (omega arith)
          | inl same' ↦ inl (same' ∙ ap g' same)
        ]
      ],
    )

on_array-Tame :
    (b : Value) (f g : Items → Result → Result)
    → ((ys : Items) → Tame (f ys) (g ys))
    → Tame (on_array b f) (on_array b g)
unfolding on_array
on_array-Tame (array ys) f g h r = h ys r
on_array-Tame b f g h r = (omega arith, inl refl)

on_object-Tame :
    (b : Value) (f g : Fields → Result → Result)
    → ((gs : Fields) → Tame (f gs) (g gs))
    → Tame (on_object b f) (on_object b g)
unfolding on_object
on_object-Tame (object gs) f g h r = h gs r
on_object-Tame b f g h r = (omega arith, inl refl)

module _ (rt : Runtime) (e : Engine) where
  pub suppressed_cases :
      (path : Bytes) (a b : Value) (r : Result)
      → (suppressed rt e path a b r ≡ (r, false))
        ⊎ (suppressed rt e path a b r ≡ (record r { suppressed = r.suppressed + 1 }, true))
  unfolding suppressed
  suppressed_cases path a b r = ground arith

  pub add-Tame :
      (k : Kind) (path : Bytes) (a b : Value)
      → Tame (add rt e k path a b) (add rt (without_rules e) k path a b)
  unfolding add suppressed render
  add-Tame k path a b r = elim (suppressed_cases path a b r) [
    | inl pass ↦ rw (pass, add) (omega arith, inl refl)
    | inr hit ↦ rw (hit, add) (omega arith, inr (omega arith))
  ]

  same_type-Tame :
      (path : Bytes) (a b : Value) (f g : Result → Result)
      → Tame f g
      → Tame
          (λ r. same_type rt e path a b r (f r))
          (λ r. same_type rt (without_rules e) path a b r (g r))
  unfolding same_type
  same_type-Tame path a b f g h r = elim (Bool-cases (type_name a == type_name b)) [
    | inl same ↦ rw same (h r)
    | inr other ↦ rw other (add-Tame shape path (string (type_name a)) (string (type_name b)) r)
  ]

  walk_scalar-Tame :
      (path : Bytes) (a b : Value)
      → Tame (walk_scalar rt e path a b) (walk_scalar rt (without_rules e) path a b)
  unfolding walk_scalar
  walk_scalar-Tame path a b r = elim (Bool-cases (scalar_equal rt a b)) [
    | inl same ↦ rw same (omega arith, inl refl)
    | inr other ↦ rw other (add-Tame body_val path a b r)
  ]

  walk_array-Tame :
      (path : Bytes) (xs ys : Items) (f g : Result → Result)
      → Tame f g
      → Tame (walk_array rt e path xs ys f) (walk_array rt (without_rules e) path xs ys g)
  unfolding walk_array suppressed
  walk_array-Tame path xs ys f g h r = elim (suppressed_cases path (array xs) (array ys) r) [
    | inr hit ↦ rw (hit, walk_array) (omega arith, inr (omega arith))
    | inl pass ↦
        rw (pass, walk_array)
          (elim (Bool-cases (length_items xs == length_items ys)) [
            | inl same ↦ rw same (h r)
            | inr other ↦
                rw other
                  (Tame-then _ _ _ _ (add-Tame shape path (count_items xs) (count_items ys)) h r)
          ])
  ]

  -- The same keys with the same values, and walks that are `Tame`.
  abbrev Paired : List (Bytes × (Value × Walker)) → List (Bytes × (Value × Walker)) → Type 0
  Paired [] [] = Unit
  Paired [] (y ∷ ys) = ⊥
  Paired (x ∷ xs) [] = ⊥
  Paired (x ∷ xs) (y ∷ ys) =
      (x.0 ≡ y.0)
      × (x.1.0 ≡ y.1.0)
      × ((path : Bytes) (b : Value) → Tame (x.1.1 path b) (y.1.1 path b))
      × Paired xs ys

  abbrev SameKid : Option (Value × Walker) → Option (Value × Walker) → Type 0
  SameKid none none = Unit
  SameKid none (some y) = ⊥
  SameKid (some x) none = ⊥
  SameKid (some x) (some y) =
      (x.0 ≡ y.0) × ((path : Bytes) (b : Value) → Tame (x.1 path b) (y.1 path b))

  lookup-Paired :
      (k : Bytes) (xs ys : List (Bytes × (Value × Walker)))
      → Paired xs ys
      → SameKid (lookup k xs) (lookup k ys)
  unfolding lookup
  lookup-Paired k [] [] h = tt
  lookup-Paired k [] (y ∷ ys) h = absurd h
  lookup-Paired k (x ∷ xs) [] h = absurd h
  lookup-Paired k (x ∷ xs) (y ∷ ys) h = elim (Bool-cases (y.0 == k)) [
    | inl same ↦ rw (h.0, same) (h.1, h.2)
    | inr other ↦ rw (h.0, other) (lookup-Paired k xs ys h.3)
  ]

  keys-Paired : (xs ys : List (Bytes × (Value × Walker))) → Paired xs ys → keys xs ≡ keys ys
  keys-Paired [] [] h = refl
  keys-Paired [] (y ∷ ys) h = absurd h
  keys-Paired (x ∷ xs) [] h = absurd h
  keys-Paired (x ∷ xs) (y ∷ ys) h = ap₂ ◌∷◌ h.0 (keys-Paired xs ys h.3)

  compare_key-Tame :
      (child : Bytes) (x y : Option (Value × Walker)) (b : Option Value)
      → SameKid x y
      → Tame (compare_key rt e child x b) (compare_key rt (without_rules e) child y b)
  unfolding compare_key
  compare_key-Tame child none none none h r = (omega arith, inl refl)
  compare_key-Tame child none none (some b) h r = add-Tame body_key child null b r
  compare_key-Tame child none (some y) b h r = absurd h
  compare_key-Tame child (some x) none b h r = absurd h
  compare_key-Tame child (some x) (some y) none h r = rw h.0 (add-Tame body_key child y.0 null r)
  compare_key-Tame child (some x) (some y) (some b) h r = h.1 child b r

  visit-Tame :
      (path : Bytes) (xs ys : List (Bytes × (Value × Walker))) (right : List (Bytes × Value))
      (k : Bytes)
      → Paired xs ys
      → Tame (visit rt e path xs right k) (visit rt (without_rules e) path ys right k)
  unfolding visit
  visit-Tame path xs ys right k h r =
      compare_key-Tame (path ++ codes "/" ++ escape_token k) _ _ (lookup k right)
        (lookup-Paired k xs ys h) r

  visit_all-Tame :
      (path : Bytes) (xs ys : List (Bytes × (Value × Walker))) (right : List (Bytes × Value))
      (ks : List Bytes)
      → Paired xs ys
      → Tame (visit_all rt e path xs right ks) (visit_all rt (without_rules e) path ys right ks)
  unfolding visit_all
  visit_all-Tame path xs ys right [] h r = (omega arith, inl refl)
  visit_all-Tame path xs ys right (k ∷ ks) h r =
      Tame-then _ _ _ _ (visit-Tame path xs ys right k h) (visit_all-Tame path xs ys right ks h) r

  walk_object-Tame :
      (path : Bytes) (xs ys : List (Bytes × (Value × Walker))) (right : List (Bytes × Value))
      → Paired xs ys
      → Tame (walk_object rt e path xs right) (walk_object rt (without_rules e) path ys right)
  unfolding walk_object
  walk_object-Tame path xs ys right h r =
      rw (keys-Paired xs ys h)
        (visit_all-Tame path xs ys right (sorted_keys (keys ys) (keys right)) h r)

  mutual
    unfolding walk

    pub walk-Tame :
        (path : Bytes) (a b : Value)
        → Tame (walk rt e path a b) (walk rt (without_rules e) path a b)
    walk-Tame path null b r = same_type-Tame path null b _ _ (walk_scalar-Tame path null b) r
    walk-Tame path (boolean x) b r =
        same_type-Tame path (boolean x) b _ _ (walk_scalar-Tame path (boolean x) b) r
    walk-Tame path (number x) b r =
        same_type-Tame path (number x) b _ _ (walk_scalar-Tame path (number x) b) r
    walk-Tame path (int x) b r =
        same_type-Tame path (int x) b _ _ (walk_scalar-Tame path (int x) b) r
    walk-Tame path (string x) b r =
        same_type-Tame path (string x) b _ _ (walk_scalar-Tame path (string x) b) r
    walk-Tame path (array xs) b r =
        same_type-Tame path (array xs) b _ _
          (on_array-Tame b _ _
            (λ ys. walk_array-Tame path xs ys _ _ (walk_items-Tame path 0 xs ys)))
          r
    walk-Tame path (object fs) b r =
        same_type-Tame path (object fs) b _ _
          (on_object-Tame b _ _ (λ gs. walk_object-Tame path _ _ (entries gs) (children-Paired fs)))
          r

    walk_items-Tame :
        (path : Bytes) (i : ℕ) (xs ys : Items)
        → Tame (walk_items rt e path i xs ys) (walk_items rt (without_rules e) path i xs ys)
    walk_items-Tame path i nil ys r = (omega arith, inl refl)
    walk_items-Tame path i (cons x xs) nil r = (omega arith, inl refl)
    walk_items-Tame path i (cons x xs) (cons y ys) r =
        Tame-then _ _ _ _ (walk-Tame (path ++ codes "/" ++ decimal i) x y)
          (walk_items-Tame path (i + 1) xs ys) r

    children-Paired : (fs : Fields) → Paired (children rt e fs) (children rt (without_rules e) fs)
    children-Paired end = tt
    children-Paired (field k v fs) = (refl, refl, λ path b. walk-Tame path v b, children-Paired fs)

  diff_status-Tame : (a b : ℕ) → Tame (diff_status rt e a b) (diff_status rt (without_rules e) a b)
  unfolding diff_status
  diff_status-Tame a b r = elim (Bool-cases (a == b)) [
    | inl same ↦ rw same (omega arith, inl refl)
    | inr other ↦ rw other (add-Tame status path_status (int a) (int b) r)
  ]

  diff_header-Tame :
      (p s : Headers) (n : Bytes)
      → Tame (diff_header rt e p s n) (diff_header rt (without_rules e) p s n)
  unfolding diff_header
  diff_header-Tame p s n r = elim (Bool-cases (header_value p n == header_value s n)) [
    | inl same ↦ rw same (omega arith, inl refl)
    | inr other ↦ rw other (
        add-Tame header (path_headers ++ codes "/" ++ n) (string (header_value p n))
          (string (header_value s n)) r)
  ]

  diff_names-Tame :
      (p s : Headers) (ns : List Bytes)
      → Tame (diff_names rt e p s ns) (diff_names rt (without_rules e) p s ns)
  unfolding diff_names
  diff_names-Tame p s [] r = (omega arith, inl refl)
  diff_names-Tame p s (n ∷ ns) r =
      Tame-then _ _ _ _ (diff_header-Tame p s n) (diff_names-Tame p s ns) r

  diff_decoded-Tame :
      (a b : Option Value) (p s : Bytes)
      → Tame (diff_decoded rt e a b p s) (diff_decoded rt (without_rules e) a b p s)
  unfolding diff_decoded
  diff_decoded-Tame (some a) (some b) p s r = walk-Tame path_body a b r
  diff_decoded-Tame (some a) none p s r =
      add-Tame shape path_body (jsonness true) (jsonness false) r
  diff_decoded-Tame none (some b) p s r =
      add-Tame shape path_body (jsonness false) (jsonness true) r
  diff_decoded-Tame none none p s r = elim (Bool-cases (p == s)) [
    | inl same ↦ rw same (omega arith, inl refl)
    | inr other ↦ rw other (add-Tame body_val path_body (string p) (string s) r)
  ]

  -- If the count of suppressed differences is 0, the result is that of the same engine without
  -- rules: nothing is hidden that is not counted.
  pub diff-suppressed_zero :
      (p : Pair) → (diff rt e p).suppressed ≡ 0 → diff rt e p ≡ diff rt (without_rules e) p
  unfolding diff diff_headers diff_bodies
  diff-suppressed_zero p h =
      elim ((Tame-then _ _ _ _
          (Tame-then _ _ _ _ (diff_status-Tame p.primary.status p.shadow.status) (
            diff_names-Tame p.primary.res_headers p.shadow.res_headers
              (header_names p.primary.res_headers p.shadow.res_headers)))
          (diff_decoded-Tame (decode_json rt p.primary.res_body) (decode_json rt p.shadow.res_body)
            p.primary.res_body p.shadow.res_body))
        (empty_result p)).1 [ inl same ↦ same | inr more ↦ absurd (omega arith) ]
