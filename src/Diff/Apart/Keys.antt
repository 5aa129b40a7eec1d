-- ===== src/Diff/Apart/Keys.antt =====
-- internal/diff/diff.go: JSON values without a key twice in one object.
use mathlib.Core.Path.{subst}
use dark_canary.Prelude.{
  ◌≡◌, not, List, ◌++◌, arith, Bytes, nat_eq, bytes_eq, bytes_lt, keys, keep, contains,
  contains-keep, All, Distinct, Distinct-keep, Distinct-sort, Distinct-join,
}
use dark_canary.Diff.Value.{
  Value, null, boolean, number, int, string, array, object, Items, nil, cons, Fields, end, field,
  entries,
}
use dark_canary.Diff.Walk.{sorted_keys}

unfoldable mutual
  -- No object in the value holds a key twice, as in Go's maps.
  pub HasKeys : Value → Type 0
  HasKeys (array xs) = ItemsHaveKeys xs
  HasKeys (object fs) = Distinct (keys (entries fs)) × FieldsHaveKeys fs
  HasKeys null = Unit
  HasKeys (boolean b) = Unit
  HasKeys (number n) = Unit
  HasKeys (int n) = Unit
  HasKeys (string s) = Unit

  pub ItemsHaveKeys : Items → Type 0
  ItemsHaveKeys nil = Unit
  ItemsHaveKeys (cons x xs) = HasKeys x × ItemsHaveKeys xs

  pub FieldsHaveKeys : Fields → Type 0
  FieldsHaveKeys end = Unit
  FieldsHaveKeys (field k v fs) = HasKeys v × FieldsHaveKeys fs

-- The keys that `walkObject` visits, each once.
pub sorted_keys-Distinct : (a b : List Bytes) → Distinct a → Distinct b → Distinct (sorted_keys a b)
unfolding sorted_keys
sorted_keys-Distinct a b da db = Distinct-sort bytes_lt (a ++ keep (λ k. not (contains k a)) b) (
    Distinct-join a (keep (λ k. not (contains k a)) b) da
      (Distinct-keep (λ k. not (contains k a)) b db)
      (λ k there. ground (arith, contains-keep (λ j. not (contains j a)) k b, there)))

pub entries-HasKeys :
    (fs : Fields) → FieldsHaveKeys fs → All (λ (k : Bytes × Value). HasKeys k.1) (entries fs)
unfolding entries HasKeys
entries-HasKeys end h = tt
entries-HasKeys (field k v fs) h = (h.0, entries-HasKeys fs h.1)

pub object-HasKeys : (b : Value) (gs : Fields) → b ≡ object gs → HasKeys b → HasKeys (object gs)
object-HasKeys b gs same h = subst HasKeys same h

pub array-HasKeys : (b : Value) (ys : Items) → b ≡ array ys → HasKeys b → HasKeys (array ys)
array-HasKeys b ys same h = subst HasKeys same h
