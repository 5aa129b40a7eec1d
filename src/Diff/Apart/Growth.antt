-- ===== src/Diff/Apart/Growth.antt =====
-- internal/diff/diff.go: parts of a comparison that only append differences, no two at one path.
use dark_canary.Prelude.{
  ◌≡◌, ◌≢◌, refl, sym, ap, ◌∙◌, inl, inr, List, [], ◌∷◌, ◌++◌, append_assoc, append-nil, Bytes, All,
  All-append, All-map,
}
use mathlib.Core.Path.{subst}
use dark_canary.Diff.Value.{Value}
use dark_canary.Diff.Runtime.{Runtime}
use dark_canary.Diff.Engine.{Kind, Difference, Result, Engine, add}
use dark_canary.Diff.Suppression.{suppressed_cases}

-- No two of the differences are at one path.
abbrev pub Apart : List Difference → Type 0
Apart [] = Unit
Apart (d ∷ ds) = All (λ (d' : Difference). d.path ≢ d'.path) ds × Apart ds

Apart-append :
    (P Q : Bytes → Type 0) (ds es : List Difference)
    → ((q : Bytes) → P q → Q q → ⊥)
    → All (λ (d : Difference). P d.path) ds
    → All (λ (d : Difference). Q d.path) es
    → Apart ds
    → Apart es
    → Apart (ds ++ es)
Apart-append P Q [] es never p q a b = b
Apart-append P Q (d ∷ ds) es never p q a b = (
  All-append _ ds es a.0
      (All-map _ _ es (λ (d' : Difference) there same. never d'.path (subst P same p.0) there) q),
  Apart-append P Q ds es never p.1 q a.1 b,
)

-- What `f` appends are differences at paths with the property, no two of them at one.
abbrev pub Grows : (Bytes → Type 0) → (Result → Result) → Type 0
Grows P f =
    (r : Result)
    → (ds : List Difference) × ((f r).differences ≡ r.differences ++ ds)
      × All (λ (d : Difference). P d.path) ds
      × Apart ds

pub Grows-none : (P : Bytes → Type 0) → Grows P (λ r. r)
Grows-none P r = ([], sym (append-nil r.differences), tt, tt)

pub Grows-map :
    (P Q : Bytes → Type 0) (f : Result → Result) → ((q : Bytes) → P q → Q q) → Grows P f → Grows Q f
Grows-map P Q f wide h r =
    let (ds, e, there, apart) = h r in
    (ds, e, All-map _ _ ds (λ (d : Difference) p. wide d.path p) there, apart)

-- One after the other, at paths that they do not share.
pub Grows-then :
    (P Q R : Bytes → Type 0) (f g : Result → Result)
    → ((q : Bytes) → P q → Q q → ⊥)
    → ((q : Bytes) → P q → R q)
    → ((q : Bytes) → Q q → R q)
    → Grows P f
    → Grows Q g
    → Grows R (λ r. g (f r))
Grows-then P Q R f g never left right h h' r =
    let (ds, e, there, apart) = h r in
    let (es, e', there', apart') = h' (f r) in
    (
      ds ++ es,
      e' ∙ ap (λ l. l ++ es) e ∙ append_assoc r.differences ds es,
      All-append _ ds es (All-map _ _ ds (λ (d : Difference) p. left d.path p) there)
          (All-map _ _ es (λ (d : Difference) q. right d.path q) there'),
      Apart-append P Q ds es never there there' apart apart',
    )

module _ (rt : Runtime) (e : Engine) where
  pub add-Grows :
      (k : Kind) (path : Bytes) (a b : Value) → Grows (λ q. q ≡ path) (add rt e k path a b)
  unfolding add
  add-Grows k path a b r = elim (suppressed_cases rt e path a b r) [
    | inl pass ↦ rw pass (_ ∷ [], refl, (refl, tt), (tt, tt))
    | inr hit ↦ rw hit ([], sym (append-nil r.differences), tt, tt)
  ]

  -- In particular, at a path that is allowed.
  pub added-Grows :
      (P : Bytes → Type 0) (k : Kind) (path : Bytes) (a b : Value)
      → P path
      → Grows P (add rt e k path a b)
  added-Grows P k path a b ok =
      Grows-map (λ q. q ≡ path) P (add rt e k path a b) (λ q same. subst P (sym same) ok)
        (add-Grows k path a b)
