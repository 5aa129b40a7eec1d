-- ===== src/Prelude/Assoc.antt =====
-- Go maps as association lists. An update keeps the place of its key, a new key goes to the end.
use Prim.Native.Nat.{◌+◌, ◌≤◌}
use mathlib.Core.Path.{◌≡◌, refl}
use mathlib.Core.Bool.{true, false, not}
use mathlib.Core.List.{List, [], ◌∷◌, ◌++◌, map}
use mathlib.Core.Option.{Option, none, some}
use native.Mathlib.Omega.{arith}
use dark_canary.Prelude.Tests.{if◌then◌else◌, is_some}
use dark_canary.Prelude.Equality.{HasEqual, ◌==◌}
use dark_canary.Prelude.Lists.{length, keep, contains, Distinct}

module _ {ℓ} {K : Type 0} {V : Type ℓ} where
  abbrev pub keys : List (K × V) → List K
  keys = map (λ e. e.0)

module _ {ℓ} {K : Type 0} {V : Type ℓ} ⦃e : HasEqual K⦄ where
  unfoldable pub lookup : K → List (K × V) → Option V
  lookup key [] = none
  lookup key ((i, value) ∷ rest) = if i == key then some value else lookup key rest

  unfoldable pub insert : K → V → List (K × V) → List (K × V)
  insert key new [] = (key, new) ∷ []
  insert key new ((i, old) ∷ rest) =
      if i == key then (key, new) ∷ rest else (i, old) ∷ insert key new rest

  unfoldable pub delete : K → List (K × V) → List (K × V)
  delete k [] = []
  delete k ((j, v) ∷ m) = if j == k then delete k m else (j, v) ∷ delete k m

  pub lookup-insert :
      (key other : K) (new : V) (m : List (K × V))
      → lookup other (insert key new m) ≡ (if key == other then some new else lookup other m)
  unfolding lookup insert
  lookup-insert key other new [] = ground arith
  lookup-insert key other new ((i, old) ∷ rest) =
      let goes_on = lookup-insert key other new rest in
      ground (arith, e.same_iff i other, e.same_iff i key, e.same_iff key other, goes_on)

  pub lookup-delete :
      (k j : K) (m : List (K × V)) → lookup j (delete k m) ≡ (if k == j then none else lookup j m)
  unfolding lookup delete
  lookup-delete k j [] = ground arith
  lookup-delete k j ((i, w) ∷ m) =
      ground (arith, e.same_iff k j, e.same_iff i k, e.same_iff i j, lookup-delete k j m)

  pub contains-keys : (k : K) (m : List (K × V)) → contains k (keys m) ≡ is_some (lookup k m)
  unfolding lookup contains
  contains-keys k [] = refl
  contains-keys k ((j, v) ∷ m) = ground (arith, contains-keys k m)

  -- A new key goes to the end, an old one stays where it is.
  pub keys-insert :
      (k : K) (v : V) (m : List (K × V))
      → keys (insert k v m) ≡ (if is_some (lookup k m) then keys m else keys m ++ k ∷ [])
  unfolding lookup insert
  keys-insert k v [] = refl
  keys-insert k v ((j, w) ∷ m) = ground (arith, e.same_iff j k, keys-insert k v m)

  pub keys-delete :
      (k : K) (m : List (K × V)) → keys (delete k m) ≡ keep (λ j. not (j == k)) (keys m)
  unfolding delete
  keys-delete k [] = refl
  keys-delete k ((j, v) ∷ m) = ground (arith, keys-delete k m)

  pub delete_absent : (k : K) (m : List (K × V)) → lookup k m ≡ none → delete k m ≡ m
  unfolding lookup delete
  delete_absent k [] h = refl
  delete_absent k ((j, v) ∷ m) h = ground (arith, delete_absent k m)

  pub length-delete_le : (k : K) (m : List (K × V)) → length (delete k m) ≤ length m
  unfolding delete
  length-delete_le k [] = omega arith
  length-delete_le k ((j, v) ∷ m) = ground (arith, length-delete_le k m)

  pub length-delete :
      (k : K) (m : List (K × V))
      → Distinct (keys m)
      → is_some (lookup k m) ≡ true
      → length (delete k m) + 1 ≡ length m
  unfolding lookup delete
  length-delete k [] d h = cc
  length-delete k ((j, v) ∷ m) d h = ground (
    arith,
    e.same_iff j k,
    contains-keys j m,
    contains-keys k m,
    delete_absent k m,
    length-delete k m d.1,
  )

  pub length-insert :
      (k : K) (v : V) (m : List (K × V))
      → length (insert k v m) ≡ (if is_some (lookup k m) then length m else length m + 1)
  unfolding lookup insert
  length-insert k v [] = omega arith
  length-insert k v ((j, w) ∷ m) = ground (arith, length-insert k v m)

  pub lookup_head : (k : K) (v : V) (m : List (K × V)) → lookup k ((k, v) ∷ m) ≡ some v
  unfolding lookup
  lookup_head k v m = ground (arith, e.same_iff k k)

  pub delete_head :
      (k : K) (v : V) (m : List (K × V)) → contains k (keys m) ≡ false → delete k ((k, v) ∷ m) ≡ m
  unfolding delete
  delete_head k v m h = ground (arith, e.same_iff k k, contains-keys k m, delete_absent k m)

module _ {ℓ} {K : Type 0} {V : Type ℓ} where
  pub length-keys : (m : List (K × V)) → length (keys m) ≡ length m
  length-keys [] = refl
  length-keys (x ∷ m) = omega (arith, length-keys m)

module _ {ℓ} {K : Type 0} {V : Type ℓ} ⦃e : HasEqual K⦄ where
  pub lookup_absent : (k : K) (m : List (K × V)) → contains k (keys m) ≡ false → lookup k m ≡ none
  lookup_absent k m h = ground (arith, contains-keys k m)

  pub insert_head : (k : K) (v w : V) (m : List (K × V)) → insert k w ((k, v) ∷ m) ≡ (k, w) ∷ m
  unfolding insert
  insert_head k v w m = ground (arith, e.same_iff k k)
