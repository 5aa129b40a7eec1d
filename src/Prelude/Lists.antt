-- ===== src/Prelude/Lists.antt =====
-- Lists measured by native numbers, predicates on them, and a Boolean search.
use Prim.Native.Nat.{ℕ, zero, suc, ◌+◌, ◌≤◌, min}
use mathlib.Core.Path.{◌≡◌, refl, ap, subst}
use mathlib.Core.Bool.{Bool, false, ◌||◌}
use mathlib.Core.List.{List, [], ◌∷◌, ◌++◌}
use native.Mathlib.Omega.{arith}
use dark_canary.Prelude.Tests.{if◌then◌else◌}
use dark_canary.Prelude.Equality.{HasEqual, ◌==◌}

module _ {ℓ} {A : Type ℓ} where
  abbrev pub length : List A → ℕ
  length [] = 0
  length (x ∷ xs) = suc (length xs)

  abbrev pub take : ℕ → List A → List A
  take zero xs = []
  take (suc n) [] = []
  take (suc n) (x ∷ xs) = x ∷ take n xs

  pub length-append : (xs ys : List A) → length (xs ++ ys) ≡ length xs + length ys
  length-append [] ys = omega arith
  length-append (x ∷ xs) ys = omega (arith, length-append xs ys)

  pub length-take-le : (n : ℕ) (xs : List A) → length (take n xs) ≤ n
  length-take-le zero xs = omega arith
  length-take-le (suc n) [] = omega arith
  length-take-le (suc n) (x ∷ xs) = omega (arith, length-take-le n xs)

  pub length-take : (n : ℕ) (xs : List A) → length (take n xs) ≡ min n (length xs)
  length-take zero xs = omega arith
  length-take (suc n) [] = omega arith
  length-take (suc n) (x ∷ xs) = omega (arith, length-take n xs)

  -- Every member has the property.
  abbrev pub All {κ} : (A → Type κ) → List A → Type κ
  All P [] = Unit
  All P (x ∷ xs) = P x × All P xs

  -- The sublist of those that pass a Boolean test.
  abbrev pub keep : (A → Bool) → List A → List A
  keep p [] = []
  keep p (x ∷ xs) = if p x then x ∷ keep p xs else keep p xs

module _ {ℓ κ} {A : Type ℓ} where
  pub All-append : (P : A → Type κ) (xs ys : List A) → All P xs → All P ys → All P (xs ++ ys)
  All-append P [] ys hx hy = hy
  All-append P (x ∷ xs) ys hx hy = (hx.0, All-append P xs ys hx.1 hy)

  pub All-map {μ} :
      (P : A → Type κ) (Q : A → Type μ) (xs : List A) → ((a : A) → P a → Q a) → All P xs → All Q xs
  All-map P Q [] f h = tt
  All-map P Q (x ∷ xs) f h = (f x h.0, All-map P Q xs f h.1)

  All-middle :
      (P : A → Type κ) (l : List A) (a : A) (r : List A) → All P (l ++ a ∷ r) → P a × All P (l ++ r)
  All-middle P [] a r h = h
  All-middle P (b ∷ l) a r h = let (mine, others) = All-middle P l a r h.1 in (mine, (h.0, others))

  -- A member is taken out of a list.
  pub All-pick :
      (P : A → Type κ) {xs : List A} (l : List A) (a : A) (r : List A)
      → xs ≡ l ++ a ∷ r
      → All P xs
      → P a × All P (l ++ r)
  All-pick P l a r e h = All-middle P l a r (subst (All P) e h)

module _ {ℓ} {A : Type ℓ} where
  pub length-pick :
      {xs : List A} (l : List A) (a : A) (r : List A)
      → xs ≡ l ++ a ∷ r
      → length xs ≡ length (l ++ r) + 1
  length-pick l a r e = ground (arith, ap length e, length-append l (a ∷ r), length-append l r)

module _ {ℓ} {A : Type ℓ} ⦃e : HasEqual A⦄ where
  unfoldable pub contains : A → List A → Bool
  contains a [] = false
  contains a (x ∷ xs) = x == a || contains a xs

  -- No member stands twice.
  abbrev pub Distinct : List A → Type 0
  Distinct [] = Unit
  Distinct (x ∷ xs) = (contains x xs ≡ false) × Distinct xs

  pub contains-append :
      (a : A) (xs ys : List A) → contains a (xs ++ ys) ≡ (contains a xs || contains a ys)
  unfolding contains
  contains-append a [] ys = refl
  contains-append a (x ∷ xs) ys = ground (arith, contains-append a xs ys)

  pub Distinct-snoc :
      (xs : List A) (a : A) → Distinct xs → contains a xs ≡ false → Distinct (xs ++ a ∷ [])
  unfolding contains
  Distinct-snoc [] a d h = (refl, tt)
  Distinct-snoc (x ∷ xs) a d h = (
    ground (arith, contains-append x xs (a ∷ []), e.same_iff x a, e.same_iff a x),
    Distinct-snoc xs a d.1 (ground arith),
  )

  -- A member that moves to the front of the rest.
  contains-move :
      (y x : A) (l r d : List A) → contains y ((l ++ x ∷ r) ++ d) ≡ contains y ((l ++ r) ++ x ∷ d)
  unfolding contains
  contains-move y x l r d = ground (
    arith,
    contains-append y (l ++ x ∷ r) d,
    contains-append y l (x ∷ r),
    contains-append y (l ++ r) (x ∷ d),
    contains-append y l r,
  )

  Distinct-insert :
      (x : A) (r d : List A)
      → Distinct (r ++ d)
      → contains x (r ++ d) ≡ false
      → Distinct (r ++ x ∷ d)
  unfolding contains
  Distinct-insert x [] d h c = (c, h)
  Distinct-insert x (y ∷ r) d h c = (
    ground
        (arith, contains-append y r (x ∷ d), contains-append y r d, e.same_iff x y, e.same_iff y x),
    Distinct-insert x r d h.1 (ground arith),
  )

  pub Distinct-move :
      (x : A) (l r d : List A) → Distinct ((l ++ x ∷ r) ++ d) → Distinct ((l ++ r) ++ x ∷ d)
  Distinct-move x [] r d h = Distinct-insert x r d h.1 h.0
  Distinct-move x (y ∷ l) r d h =
      (ground (arith, contains-move y x l r d), Distinct-move x l r d h.1)

  pub Distinct-drop :
      (x : A) (l r d : List A) → Distinct ((l ++ x ∷ r) ++ d) → Distinct ((l ++ r) ++ d)
  unfolding contains
  Distinct-drop x [] r d h = h.1
  Distinct-drop x (y ∷ l) r d h = (
    ground (
      arith,
      contains-append y (l ++ x ∷ r) d,
      contains-append y l (x ∷ r),
      contains-append y (l ++ r) d,
      contains-append y l r,
    ),
    Distinct-drop x l r d h.1,
  )
