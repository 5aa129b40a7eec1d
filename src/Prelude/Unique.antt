-- ===== src/Prelude/Unique.antt =====
-- Lists without a member that stands twice: their parts, joins and sorted lists.
use mathlib.Core.Path.{◌≡◌, refl, subst}
use mathlib.Core.Bool.{Bool, true, false}
use mathlib.Core.List.{List, [], ◌∷◌, ◌++◌}
use mathlib.Core.Logic.{inl, inr}
use native.Mathlib.Omega.{arith}
use dark_canary.Prelude.Tests.{Bool-cases}
use dark_canary.Prelude.Equality.{HasEqual, ◌==◌}
use dark_canary.Prelude.Lists.{keep, contains, contains-append, Distinct, All}
use dark_canary.Prelude.Assoc.{lookup, insert, keys}
use dark_canary.Prelude.Sort.{place, sort, contains-place, contains-sort, contains-keep, All-place}
use mathlib.Core.Option.{some}

module _ {ℓ} {A : Type ℓ} ⦃e : HasEqual A⦄ where
  pub Distinct-keep : (p : A → Bool) (xs : List A) → Distinct xs → Distinct (keep p xs)
  Distinct-keep p [] d = tt
  Distinct-keep p (x ∷ xs) d = elim (Bool-cases (p x)) [
    | inl kept ↦ rw kept (ground (arith, contains-keep p x xs, d.0), Distinct-keep p xs d.1)
    | inr gone ↦ rw gone (Distinct-keep p xs d.1)
  ]

  Distinct-place :
      (before : A → A → Bool) (a : A) (xs : List A)
      → Distinct xs
      → contains a xs ≡ false
      → Distinct (place before a xs)
  unfolding place contains
  Distinct-place before a [] d h = (refl, tt)
  Distinct-place before a (x ∷ xs) d h = elim (Bool-cases (before x a)) [
    | inl front ↦ rw front (
      ground (arith, contains-place before x a xs, e.same_iff x a, e.same_iff a x, d.0),
      Distinct-place before a xs d.1 (ground arith),
    )
    | inr found ↦ rw found (h, d)
  ]

  pub Distinct-sort :
      (before : A → A → Bool) (xs : List A) → Distinct xs → Distinct (sort before xs)
  unfolding sort
  Distinct-sort before [] d = tt
  Distinct-sort before (x ∷ xs) d =
      Distinct-place before x (sort before xs) (Distinct-sort before xs d.1)
        (ground (arith, contains-sort before x xs, d.0))

  -- A list and those of another that are not in it.
  pub Distinct-join :
      (xs ys : List A)
      → Distinct xs
      → Distinct ys
      → ((x : A) → contains x xs ≡ true → contains x ys ≡ false)
      → Distinct (xs ++ ys)
  unfolding contains
  Distinct-join [] ys d d' h = d'
  Distinct-join (x ∷ xs) ys d d' h = (
    ground (arith, contains-append x xs ys, d.0, h x, e.same_iff x x),
    Distinct-join xs ys d.1 d' (λ y c. h y (ground (arith, c))),
  )

module _ {ℓ κ} {K : Type 0} {V : Type ℓ} ⦃e : HasEqual K⦄ where
  pub All-insert :
      (P : K × V → Type κ) (k : K) (v : V) (m : List (K × V))
      → P (k, v)
      → All P m
      → All P (insert k v m)
  unfolding insert
  All-insert P k v [] hv h = (hv, tt)
  All-insert P k v ((j, w) ∷ m) hv h = elim (Bool-cases (j == k)) [
    | inl same ↦ rw same (hv, h.1)
    | inr other ↦ rw other (h.0, All-insert P k v m hv h.1)
  ]

  -- What is found under a key is an entry.
  pub All-lookup :
      (P : K × V → Type κ) (k : K) (m : List (K × V)) {v : V}
      → All P m
      → lookup k m ≡ some v
      → P (k, v)
  unfolding lookup
  All-lookup P k [] h c = absurd (cc)
  All-lookup P k ((i, w) ∷ m) {v} h c = elim (Bool-cases (i == k)) [
    | inl same ↦
        let w_is : w ≡ v = ground arith in
        subst (λ u. P (k, u)) w_is (subst (λ j. P (j, w)) ((e.same_iff i k).0 same) h.0)
    | inr other ↦ All-lookup P k m h.1 (ground arith)
  ]

module _ {ℓ κ} {A : Type ℓ} where
  pub All-both {μ ν} :
      (P : A → Type κ) (Q : A → Type μ) (R : A → Type ν) (xs : List A)
      → ((a : A) → P a → Q a → R a)
      → All P xs
      → All Q xs
      → All R xs
  All-both P Q R [] f p q = tt
  All-both P Q R (x ∷ xs) f p q = (f x p.0 q.0, All-both P Q R xs f p.1 q.1)

  pub All-sort :
      (before : A → A → Bool) (P : A → Type κ) (xs : List A) → All P xs → All P (sort before xs)
  unfolding sort
  All-sort before P [] h = tt
  All-sort before P (x ∷ xs) h =
      All-place before P x (sort before xs) h.0 (All-sort before P xs h.1)

module _ {ℓ} {K : Type 0} {V : Type ℓ} ⦃e : HasEqual K⦄ where
  others :
      (i : K) (m : List (K × V))
      → contains i (keys m) ≡ false
      → All (λ (q : K × V). (i == q.0) ≡ false) m
  unfolding contains
  others i [] h = tt
  others i ((j, v) ∷ m) h =
      (ground (arith, e.same_iff i j, e.same_iff j i), others i m (ground arith))

  -- An entry is what is found under its key.
  pub All-found :
      (m : List (K × V)) → Distinct (keys m) → All (λ (q : K × V). lookup q.0 m ≡ some q.1) m
  unfolding lookup
  All-found [] d = tt
  All-found ((i, v) ∷ m) d = (
    ground (arith, e.same_iff i i),
    All-both _ _ _ m (λ (q : K × V) found other. rw other found) (All-found m d.1) (others i m d.0),
  )
