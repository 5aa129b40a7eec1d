-- ===== src/Prelude/Sort.antt =====
-- `sort.Strings` and `sort.Slice` as insertion sorts over a Boolean order.
use mathlib.Core.Path.{◌≡◌, refl, ap₂, ◌∙◌, subst}
use mathlib.Core.Bool.{Bool, true, false, ◌&&◌, ◌||◌}
use mathlib.Core.List.{List, [], ◌∷◌, Perm, Permᴰ}
use mathlib.Core.List.Perm
use mathlib.Core.Logic.{◌↔◌, inl, inr, ∥∥₁_elim}
use native.Mathlib.Omega.{arith}
use dark_canary.Prelude.Tests.{if◌then◌else◌, Bool-cases}
use dark_canary.Prelude.Equality.{HasEqual, ◌==◌}
use dark_canary.Prelude.Lists.{All, All-map, contains, keep}

module _ {ℓ} {A : Type ℓ} (before : A → A → Bool) where
  -- In front of the first member that does not stand before `a`.
  unfoldable pub place : A → List A → List A
  place a [] = a ∷ []
  place a (x ∷ xs) = if before x a then x ∷ place a xs else a ∷ x ∷ xs

  unfoldable pub sort : List A → List A
  unfolding place
  sort [] = []
  sort (x ∷ xs) = place x (sort xs)

  -- No member stands strictly behind a later one.
  abbrev pub IsSorted : List A → Type ℓ
  IsSorted [] = Unit
  IsSorted (x ∷ xs) = All (λ y. before y x ≡ false) xs × IsSorted xs

  pub place-perm : (a : A) (xs : List A) → Perm (place a xs) (a ∷ xs)
  unfolding place
  place-perm a [] = Perm.refl (a ∷ [])
  place-perm a (x ∷ xs) = elim (Bool-cases (before x a)) [
    | inl h ↦ rw h (Perm.trans (Perm.cons x (place-perm a xs)) (Perm.swap a x xs))
    | inr h ↦ rw h (Perm.refl _)
  ]

  pub sort-perm : (xs : List A) → Perm (sort xs) xs
  unfolding sort
  sort-perm [] = Perm.refl []
  sort-perm (x ∷ xs) = Perm.trans (place-perm x (sort xs)) (Perm.cons x (sort-perm xs))

  pub All-place {κ} : (P : A → Type κ) (a : A) (xs : List A) → P a → All P xs → All P (place a xs)
  unfolding place
  All-place P a [] ha h = (ha, tt)
  All-place P a (x ∷ xs) ha h = elim (Bool-cases (before x a)) [
    | inl e ↦ rw e (h.0, All-place P a xs ha h.1)
    | inr e ↦ rw e (ha, h)
  ]

  module _ (asym : (a b : A) → before a b ≡ true → before b a ≡ false)
      (back : (a b c : A) → before b a ≡ false → before c b ≡ false → before c a ≡ false) where
    place-IsSorted : (a : A) (xs : List A) → IsSorted xs → IsSorted (place a xs)
    unfolding place
    place-IsSorted a [] s = (tt, tt)
    place-IsSorted a (x ∷ xs) s = elim (Bool-cases (before x a)) [
      | inl e ↦
          rw e (All-place (λ y. before y x ≡ false) a xs (asym x a e) s.0, place-IsSorted a xs s.1)
      | inr e ↦ rw e ((e, All-map _ _ xs (λ y h. back a x y e h) s.0), s)
    ]

    pub sort-IsSorted : (xs : List A) → IsSorted (sort xs)
    unfolding sort
    sort-IsSorted [] = tt
    sort-IsSorted (x ∷ xs) = place-IsSorted x (sort xs) (sort-IsSorted xs)

  module _ (asym : (a b : A) → before a b ≡ true → before b a ≡ false)
      (trans : (a b c : A) → before a b ≡ true → before b c ≡ true → before a c ≡ true)
      (total : (a b : A) → before a b ≡ false → before b a ≡ false → a ≡ b) where
    place_comm : (a b : A) (xs : List A) → place a (place b xs) ≡ place b (place a xs)
    unfolding place
    place_comm a b [] = ground (arith, asym a b, total a b)
    place_comm a b (x ∷ xs) = ground (
      arith,
      asym a b,
      asym x a,
      asym x b,
      asym a x,
      asym b x,
      total a b,
      total x b,
      total x a,
      trans x a b,
      trans x b a,
      trans a x b,
      trans b x a,
      trans a b x,
      trans b a x,
      place_comm a b xs,
    )

    sort_permᴰ : {xs ys : List A} → Permᴰ xs ys → sort xs ≡ sort ys
    unfolding sort
    sort_permᴰ Permᴰ.nil = refl
    sort_permᴰ (Permᴰ.cons e p) = ap₂ place e (sort_permᴰ p)
    sort_permᴰ (Permᴰ.swap {a} {b} {l} e f) =
        place_comm a b (sort l) ∙ ap₂ (λ x y. place x (place y (sort l))) f e
    sort_permᴰ (Permᴰ.trans p q) = sort_permᴰ p ∙ sort_permᴰ q

    -- Under a total order the sorted list depends on the members alone.
    pub sort_eq_iff_perm : IsSet (List A) → (xs ys : List A) → (sort xs ≡ sort ys) ↔ Perm xs ys
    sort_eq_iff_perm set xs ys = (
      λ e. Perm.trans (Perm.symm (sort-perm xs)) (rw e (sort-perm ys)),
      λ p. ∥∥₁_elim p (set _ _) (λ d. sort_permᴰ d),
    )

module _ {ℓ} {A : Type ℓ} ⦃e : HasEqual A⦄ where
  pub contains-place :
      (before : A → A → Bool) (k a : A) (xs : List A)
      → contains k (place before a xs) ≡ (a == k || contains k xs)
  unfolding contains place
  contains-place before k a [] = refl
  contains-place before k a (x ∷ xs) = ground (arith, contains-place before k a xs)

  -- Sorting keeps the members.
  pub contains-sort :
      (before : A → A → Bool) (k : A) (xs : List A) → contains k (sort before xs) ≡ contains k xs
  unfolding contains sort
  contains-sort before k [] = refl
  contains-sort before k (x ∷ xs) =
      ground (arith, contains-place before k x (sort before xs), contains-sort before k xs)

  pub contains-keep :
      (p : A → Bool) (k : A) (xs : List A) → contains k (keep p xs) ≡ (contains k xs && p k)
  unfolding contains
  contains-keep p k [] = refl
  contains-keep p k (x ∷ xs) = elim (Bool-cases (x == k)) [
    | inl same ↦
        let e' = (e.same_iff x k).0 same in
        rw (e', (e.same_iff k k).1 refl)
          (ground (arith, (e.same_iff k k).1 refl, contains-keep p k xs))
    | inr other ↦ ground (arith, contains-keep p k xs)
  ]

  pub All-contains {κ} :
      (P : A → Type κ) (k : A) (xs : List A) → All P xs → contains k xs ≡ true → P k
  unfolding contains
  All-contains P k [] h c = absurd (cc)
  All-contains P k (x ∷ xs) h c = elim (Bool-cases (x == k)) [
    | inl same ↦ subst P ((e.same_iff x k).0 same) h.0
    | inr other ↦ All-contains P k xs h.1 (ground arith)
  ]

  pub All-of {κ} : (P : A → Type κ) (xs : List A) → ((k : A) → P k) → All P xs
  All-of P [] h = tt
  All-of P (x ∷ xs) h = (h x, All-of P xs h)

  contains_head : (x : A) (xs : List A) → contains x (x ∷ xs) ≡ true
  unfolding contains
  contains_head x xs = ground (arith, e.same_iff x x)

  contains_later : (k x : A) (xs : List A) → contains k xs ≡ true → contains k (x ∷ xs) ≡ true
  unfolding contains
  contains_later k x xs h = ground arith

  pub All-members {κ} :
      (P : A → Type κ) (xs : List A) → ((k : A) → contains k xs ≡ true → P k) → All P xs
  All-members P [] h = tt
  All-members P (x ∷ xs) h =
      (h x (contains_head x xs), All-members P xs (λ k c. h k (contains_later k x xs c)))
