-- ===== src/Diff/Apart/Walk.antt =====
-- internal/diff/diff.go: the walk over two JSON values without a key twice in one object.
use mathlib.Core.Path.{subst}
use dark_canary.Prelude.{
  ℕ, ◌+◌, ◌≡◌, refl, sym, ap, ◌∷◌, arith, Bytes, nat_eq, bytes_eq, keys, All, Distinct,
}
use dark_canary.Diff.Value.{
  Value, null, boolean, number, int, string, array, object, Items, nil, cons, Fields, end, field,
  entries,
}
use dark_canary.Diff.Text.{decimal}
use dark_canary.Diff.Runtime.{Runtime}
use dark_canary.Diff.Engine.{Result, Engine}
use dark_canary.Diff.Walk.{
  Walker, on_array, on_object, walk_array, walk_object, walk, walk_items, children,
}
use dark_canary.Diff.Apart.Paths.{
  Under, Below, child_path, Under-child, Under-same_token, decimal-IsToken, decimal-injective,
}
use dark_canary.Diff.Apart.Growth.{Grows, Grows-none, Grows-map, Grows-then}
use dark_canary.Diff.Apart.Keys.{
  HasKeys, ItemsHaveKeys, FieldsHaveKeys, entries-HasKeys, object-HasKeys, array-HasKeys,
}
use dark_canary.Diff.Apart.Parts.{
  ItemFrom, KidGrows, plain-Grows, same_type-Grows, walk_array-Grows, walk_object-Grows,
}

module _ (rt : Runtime) (e : Engine) where
  on_array-Grows :
      (P : Bytes → Type 0) (b : Value) (f : Items → Result → Result)
      → ((ys : Items) → b ≡ array ys → Grows P (f ys))
      → Grows P (on_array b f)
  unfolding on_array
  on_array-Grows P (array ys) f h r = h ys refl r
  on_array-Grows P b f h r = Grows-none P r

  on_object-Grows :
      (P : Bytes → Type 0) (b : Value) (f : Fields → Result → Result)
      → ((gs : Fields) → b ≡ object gs → Grows P (f gs))
      → Grows P (on_object b f)
  unfolding on_object
  on_object-Grows P (object gs) f h r = h gs refl r
  on_object-Grows P b f h r = Grows-none P r

  keys-children : (fs : Fields) → keys (children rt e fs) ≡ keys (entries fs)
  unfolding walk entries
  keys-children end = refl
  keys-children (field k v fs) = ap (λ ks. k ∷ ks) (keys-children fs)

  not_again :
      (path : Bytes) (i : ℕ) (q : Bytes)
      → Under (child_path path (decimal i)) q
      → ItemFrom path (i + 1) q
      → ⊥
  not_again path i q here (j, later, below) =
      let same = decimal-injective i j (
        Under-same_token path (decimal i) (decimal j) (decimal-IsToken i) (decimal-IsToken j) here
          below) in
      absurd (omega (arith, same, later))

  mutual
    unfolding walk HasKeys

    pub walk-Grows :
        (path : Bytes) (a b : Value)
        → HasKeys a
        → HasKeys b
        → Grows (Under path) (walk rt e path a b)
    walk-Grows path null b ha hb r = plain-Grows rt e path null b r
    walk-Grows path (boolean x) b ha hb r = plain-Grows rt e path (boolean x) b r
    walk-Grows path (number x) b ha hb r = plain-Grows rt e path (number x) b r
    walk-Grows path (int x) b ha hb r = plain-Grows rt e path (int x) b r
    walk-Grows path (string x) b ha hb r = plain-Grows rt e path (string x) b r
    walk-Grows path (array xs) b ha hb r =
        same_type-Grows rt e path (array xs) b
          (on_array b (λ ys. walk_array rt e path xs ys (λ t. walk_items rt e path 0 xs ys t)))
          (on_array-Grows (Under path) b
            (λ ys. walk_array rt e path xs ys (λ t. walk_items rt e path 0 xs ys t))
            (λ ys same.
              walk_array-Grows rt e path xs ys (λ t. walk_items rt e path 0 xs ys t)
                (Grows-map (ItemFrom path 0) (Below path) (λ t. walk_items rt e path 0 xs ys t)
                  (λ q below. Under-child path (decimal below.0) below.2)
                  (walk_items-Grows path 0 xs ys ha (array-HasKeys b ys same hb)))))
          r
    walk-Grows path (object fs) b ha hb r =
        same_type-Grows rt e path (object fs) b
          (on_object b (λ gs. walk_object rt e path (children rt e fs) (entries gs)))
          (on_object-Grows (Under path) b
            (λ gs. walk_object rt e path (children rt e fs) (entries gs))
            (λ gs same.
              let right = object-HasKeys b gs same hb in
              walk_object-Grows rt e path (children rt e fs) (entries gs) (children-Grow fs ha.1)
                (entries-HasKeys gs right.1) (subst Distinct (sym (keys-children fs)) ha.0)
                right.0))
          r

    walk_items-Grows :
        (path : Bytes) (i : ℕ) (xs ys : Items)
        → ItemsHaveKeys xs
        → ItemsHaveKeys ys
        → Grows (ItemFrom path i) (walk_items rt e path i xs ys)
    walk_items-Grows path i nil ys hx hy r = Grows-none (ItemFrom path i) r
    walk_items-Grows path i (cons x xs) nil hx hy r = Grows-none (ItemFrom path i) r
    walk_items-Grows path i (cons x xs) (cons y ys) hx hy r =
        Grows-then (Under (child_path path (decimal i))) (ItemFrom path (i + 1)) (ItemFrom path i)
          (walk rt e (child_path path (decimal i)) x y) (walk_items rt e path (i + 1) xs ys)
          (not_again path i) (λ q u. (i, omega arith, u))
          (λ q below. (below.0, omega (arith, below.1), below.2))
          (walk-Grows (child_path path (decimal i)) x y hx.0 hy.0)
          (walk_items-Grows path (i + 1) xs ys hx.1 hy.1) r

    children-Grow :
        (fs : Fields)
        → FieldsHaveKeys fs
        → All (λ (k : Bytes × (Value × Walker)). KidGrows rt e k.1) (children rt e fs)
    children-Grow end h = tt
    children-Grow (field k v fs) h = (λ path b hb. walk-Grows path v b h.0 hb, children-Grow fs h.1)
