-- ===== src/Diff/Agreement/Judge.antt =====
-- internal/diff/diff.go: parts of a comparison, and the statements that they test.
use dark_canary.Prelude.{
  ◌≤◌, ◌<◌, ◌≡◌, ◌∙◌, ◌↔◌, ◌⊎◌, inl, inr, arith, length, length-append, Bytes,
}
use dark_canary.Diff.Value.{Value}
use dark_canary.Diff.Runtime.{Runtime}
use dark_canary.Diff.Engine.{Difference, Result, Engine, Kind, add}
use dark_canary.Diff.Suppression.{without_rules}

-- `f` leaves every result alone and `A` holds, or `f` adds to every result and `A` fails.
abbrev pub Judges : Type 0 → (Result → Result) → Type 0
Judges A f =
    (A × ((r : Result) → f r ≡ r))
    ⊎ ((¬ A) × ((r : Result) → length r.differences < length (f r).differences))

pub Judges-holds : {A : Type 0} (f : Result → Result) → A → ((r : Result) → f r ≡ r) → Judges A f
Judges-holds f a h = inl (a, h)

pub Judges-map : {A B : Type 0} (f : Result → Result) → A ↔ B → Judges A f → Judges B f
Judges-map f e (inl (a, h)) = inl (e.0 a, h)
Judges-map f e (inr (n, h)) = inr (λ b. n (e.1 b), h)

pub Judges-le :
    {A : Type 0} (f : Result → Result)
    → Judges A f
    → (r : Result) → length r.differences ≤ length (f r).differences
Judges-le f (inl (a, h)) r = rw (h r) (omega arith)
Judges-le f (inr (n, h)) r = omega (arith, h r)

pub Judges-then :
    {A B : Type 0} (f g : Result → Result) → Judges A f → Judges B g → Judges (A × B) (λ r. g (f r))
Judges-then f g (inl (a, h)) (inl (b, k)) = inl ((a, b), λ r. k (f r) ∙ h r)
Judges-then f g (inl (a, h)) (inr (n, k)) = inr (λ p. n p.1, λ r. rw (h r) (k r))
Judges-then f g (inr (n, h)) j = inr (λ p. n p.0, λ r. omega (arith, h r, Judges-le g j (f r)))

-- An engine without rules adds each difference that it is given.
pub add_grows :
    (rt : Runtime) (e : Engine) (k : Kind) (path : Bytes) (a b : Value) (r : Result)
    → length r.differences < length (add rt (without_rules e) k path a b r).differences
unfolding add
add_grows rt e k path a b r = omega (arith, length-append {A = Difference} r.differences)
