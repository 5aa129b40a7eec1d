-- ===== src/Prelude/Equality.antt =====
-- Equality tests as an interface: one operator for every type that has an instance.
use Prim.Native.Nat.{ℕ}
use mathlib.Core.Path.{◌≡◌}
use mathlib.Core.Logic.{◌↔◌}
use mathlib.Core.Bool.{Bool, true}
use dark_canary.Prelude.Tests.{nat_beq, nat_beq_iff}

-- A Boolean test of equality, and that it is right.
pub record HasEqual {ℓ} (K : Type ℓ) : Type ℓ where
  pub same : K → K → Bool
  pub same_iff : (j k : K) → (same j k ≡ true) ↔ (j ≡ k)

instance abbrev pub nat_eq : HasEqual ℕ
nat_eq = record { same = nat_beq; same_iff = nat_beq_iff }

infix 50 ◌==◌
abbrev pub ◌==◌ {ℓ} : {K : Type ℓ} ⦃h : HasEqual K⦄ → K → K → Bool
◌==◌ ⦃h⦄ j k = h.same j k
