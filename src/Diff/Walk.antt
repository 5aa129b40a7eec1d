-- ===== src/Diff/Walk.antt =====
-- internal/diff/diff.go: `walk`, `walkObject` and `walkArray`. The left value drives the recursion:
-- an object hands over, for each of its keys, the value and the walk of that value.
use dark_canary.Prelude.{
  ℕ, ◌+◌, Bool, true, false, not, Option, none, some, List, [], ◌∷◌, ◌++◌, Bytes, codes, nat_eq,
  bytes_eq, ◌==◌, if◌then◌else◌, lookup, keys, contains, keep, bytes_lt, sort,
}
use dark_canary.Diff.Value.{
  Value, null, boolean, number, int, string, array, object, Items, nil, cons, Fields, end, field,
  length_items, entries, type_name,
}
use dark_canary.Diff.Text.{decimal, escape_token}
use dark_canary.Diff.Runtime.{Runtime}
use dark_canary.Diff.Engine.{Result, Engine, body_val, body_key, shape, suppressed, add}

-- The walk of one left value: the path, the right value and the sink.
abbrev pub Walker : Type 0
Walker = Bytes → Value → Result → Result

-- The source's `sortedKeys`: the keys of the left object, and those of the right one alone.
unfoldable pub sorted_keys : List Bytes → List Bytes → List Bytes
sorted_keys a b = sort bytes_lt (a ++ keep (λ k. not (contains k a)) b)

-- `fmt.Sprintf("%d items", len(a))`, as a value.
unfoldable pub count_items : Items → Value
count_items xs = string (decimal (length_items xs) ++ codes " items")

-- The type assertions `b.([]any)` and `b.(map[string]any)`, which `walk` makes behind its test of
-- the types.
unfoldable pub on_array : Value → (Items → Result → Result) → Result → Result
on_array (array ys) f r = f ys r
on_array b f r = r

unfoldable pub on_object : Value → (Fields → Result → Result) → Result → Result
on_object (object gs) f r = f gs r
on_object b f r = r

module _ (rt : Runtime) where
  unfoldable pub number_of : Value → Option rt.Float
  number_of (number n) = rt.parse_float n
  number_of v = none

  -- Go's `==` on two values that are no maps and no slices.
  unfoldable pub same_scalar : Value → Value → Bool
  same_scalar null null = true
  same_scalar (boolean true) (boolean b) = b
  same_scalar (boolean false) (boolean b) = not b
  same_scalar (number n) (number m) = n == m
  same_scalar (int n) (int m) = n == m
  same_scalar (string s) (string t) = s == t
  same_scalar _ _ = false

  unfoldable pub scalar_equal : Value → Value → Bool
  unfolding number_of same_scalar
  scalar_equal a b = elim (number_of a) [
    | none ↦ same_scalar a b
    | some x ↦ elim (number_of b) [ none ↦ same_scalar a b | some y ↦ rt.float_eq x y ]
  ]

  module _ (e : Engine) where
    -- The first test of `walk`: values of two types are a difference in shape.
    unfoldable pub same_type : Bytes → Value → Value → Result → Result → Result
    same_type path a b r rest =
        if type_name a == type_name b
        then rest
        else add rt e shape path (string (type_name a)) (string (type_name b)) r

    -- The last case of `walk`.
    unfoldable pub walk_scalar : Bytes → Value → Value → Result → Result
    walk_scalar path a b r = if scalar_equal a b then r else add rt e body_val path a b r

    -- `walkArray` before its loop: the rules see the whole arrays, then the lengths are compared.
    unfoldable pub walk_array : Bytes → Items → Items → (Result → Result) → Result → Result
    walk_array path xs ys loop r =
        let (r', hit) = suppressed rt e path (array xs) (array ys) r in
        if hit
        then r'
        else loop (
            if length_items xs == length_items ys
            then r'
            else add rt e shape path (count_items xs) (count_items ys) r')

    -- The `switch` of `walkObject`: what the two objects hold under one key.
    unfoldable pub compare_key : Bytes → Option (Value × Walker) → Option Value → Result → Result
    compare_key child none none r = r
    compare_key child none (some b) r = add rt e body_key child null b r
    compare_key child (some (a, go)) none r = add rt e body_key child a null r
    compare_key child (some (a, go)) (some b) r = go child b r

    -- One round of the loop of `walkObject`.
    unfoldable pub visit :
        Bytes → List (Bytes × (Value × Walker)) → List (Bytes × Value) → Bytes → Result → Result
    unfolding compare_key
    visit path kids right key r =
        compare_key (path ++ codes "/" ++ escape_token key) (lookup key kids) (lookup key right) r

    unfoldable pub visit_all :
        Bytes
        → List (Bytes × (Value × Walker))
        → List (Bytes × Value)
        → List Bytes
        → Result
        → Result
    visit_all path kids right [] r = r
    visit_all path kids right (k ∷ ks) r = visit_all path kids right ks (visit path kids right k r)

    -- `walkObject`
    unfoldable pub walk_object :
        Bytes → List (Bytes × (Value × Walker)) → List (Bytes × Value) → Result → Result
    walk_object path kids right r =
        visit_all path kids right (sorted_keys (keys kids) (keys right)) r

    unfoldable mutual
      unfolding same_type walk_array walk_object walk_scalar on_array on_object

      pub walk : Bytes → Value → Value → Result → Result
      walk path (array xs) b r =
          let rest = on_array b (λ ys. walk_array path xs ys (λ s. walk_items path 0 xs ys s)) r in
          same_type path (array xs) b r rest
      walk path (object fs) b r =
          let rest = on_object b (λ gs. walk_object path (children fs) (entries gs)) r in
          same_type path (object fs) b r rest
      walk path a b r = same_type path a b r (walk_scalar path a b r)

      -- The loop of `walkArray`.
      pub walk_items : Bytes → ℕ → Items → Items → Result → Result
      walk_items path i nil ys r = r
      walk_items path i (cons x xs) nil r = r
      walk_items path i (cons x xs) (cons y ys) r =
          walk_items path (i + 1) xs ys (walk (path ++ codes "/" ++ decimal i) x y r)

      pub children : Fields → List (Bytes × (Value × Walker))
      children end = []
      children (field k v fs) = (k, (v, λ path b r. walk path v b r)) ∷ children fs
