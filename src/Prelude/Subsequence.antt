-- ===== src/Prelude/Subsequence.antt =====
-- Subsequences, as an inductive family, and what filtering by membership gives on them.
use mathlib.Core.Path.{◌≡◌, refl}
use mathlib.Core.Bool.{true, false}
use mathlib.Core.List.{List, [], ◌∷◌}
use Prim.Native.Nat.{◌≤◌}
use native.Mathlib.Omega.{arith}
use dark_canary.Prelude.Tests.{if◌then◌else◌}
use dark_canary.Prelude.Equality.{HasEqual, ◌==◌}
use dark_canary.Prelude.Lists.{length, keep, contains, Distinct}
use dark_canary.Prelude.Assoc.{keys, delete}

pub data Subseq {ℓ} {A : Type ℓ} : List A → List A → Type ℓ where
  done : Subseq [] []
  skip : {x : A} {xs ys : List A} → Subseq xs ys → Subseq (x ∷ xs) ys
  pick : {x : A} {xs ys : List A} → Subseq xs ys → Subseq (x ∷ xs) (x ∷ ys)

module _ {ℓ} {A : Type ℓ} where
  pub Subseq-refl : (xs : List A) → Subseq xs xs
  Subseq-refl [] = done
  Subseq-refl (x ∷ xs) = pick (Subseq-refl xs)

  pub Subseq-length : {xs ys : List A} → Subseq xs ys → length ys ≤ length xs
  Subseq-length done = omega arith
  Subseq-length (skip s) = omega (arith, Subseq-length s)
  Subseq-length (pick s) = omega (arith, Subseq-length s)

module _ {ℓ} {A : Type ℓ} ⦃e : HasEqual A⦄ where
  Subseq-absent :
      (a : A) {xs ys : List A} → Subseq xs ys → contains a xs ≡ false → contains a ys ≡ false
  unfolding contains
  Subseq-absent a done h = refl
  Subseq-absent a (skip s) h = Subseq-absent a s (ground arith)
  Subseq-absent a (pick s) h = ground (arith, Subseq-absent a s)

  pub Subseq-Distinct : {xs ys : List A} → Subseq xs ys → Distinct xs → Distinct ys
  Subseq-Distinct done d = tt
  Subseq-Distinct (skip s) d = Subseq-Distinct s d.1
  Subseq-Distinct (pick {x} s) d = (Subseq-absent x s d.0, Subseq-Distinct s d.1)

  keep_widen :
      (x : A) (xs ys : List A)
      → contains x xs ≡ false
      → keep (λ j. contains j (x ∷ ys)) xs ≡ keep (λ j. contains j ys) xs
  unfolding contains
  keep_widen x [] ys h = refl
  keep_widen x (z ∷ xs) ys h = ground (arith, e.same_iff x z, e.same_iff z x, keep_widen x xs ys)

  -- Filtering a list by membership in a subsequence of it gives that subsequence.
  pub keep-Subseq :
      {xs ys : List A} → Subseq xs ys → Distinct xs → keep (λ j. contains j ys) xs ≡ ys
  unfolding contains
  keep-Subseq done d = refl
  keep-Subseq (skip {x} s) d = ground (arith, Subseq-absent x s d.0, keep-Subseq s d.1)
  keep-Subseq (pick {x} {xs} {ys} s) d =
      ground (arith, e.same_iff x x, keep_widen x xs ys d.0, keep-Subseq s d.1)

module _ {ℓ} {K : Type 0} {V : Type ℓ} ⦃e : HasEqual K⦄ where
  pub keys-delete-Subseq : (k : K) (m : List (K × V)) → Subseq (keys m) (keys (delete k m))
  unfolding delete
  keys-delete-Subseq k [] = done
  keys-delete-Subseq k ((j, v) ∷ m) =
      elim (j == k)
        as (λ b. Subseq (j ∷ keys m) (keys (if b then delete k m else (j, v) ∷ delete k m))) [
          | true ↦ skip (keys-delete-Subseq k m)
          | false ↦ pick (keys-delete-Subseq k m)
        ]
