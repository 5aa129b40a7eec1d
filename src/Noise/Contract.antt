-- ===== src/Noise/Contract.antt =====
-- internal/noise/noise.go and internal/diff/diff.go: `Suppress` and its contract.
use dark_canary.Prelude.{
  ◌≡◌, ◌≢◌, true, false, some, arith, Bytes, bytes_eq, bytes_beq_iff, Option-cases, inl, inr,
}
use dark_canary.Diff.Value.{Value}
use dark_canary.Diff.Runtime.{Runtime}
use dark_canary.Noise.Rules.{Rule, Ruleset, match_rule}
use dark_canary.Noise.Normalise.{Normaliser, parse_normalise, canonical, equal, compare}
use dark_canary.Noise.Suppress.{suppress}

module _ (rt : Runtime) (rs : Ruleset) (path : Bytes) (rule : Rule) where
  -- A rule that does not ignore suppresses two values only if their texts differ and they agree
  -- once normalised, by a normalisation that is spelled right.
  pub suppress-differs :
      (a b : Value)
      → match_rule rs path ≡ some rule
      → rule.ignore ≡ false
      → suppress rt rs path a b ≡ true
      → (canonical rt a ≢ canonical rt b)
        × ((n : Normaliser) × (parse_normalise rule.normalise ≡ some n) × (equal rt n a b ≡ true))
  unfolding suppress compare
  suppress-differs a b m i h = elim (Option-cases (parse_normalise rule.normalise)) [
    | inl bad ↦ absurd (ground arith)
    | inr (n, good) ↦
        (ground (arith, bytes_beq_iff (canonical rt a) (canonical rt b)), (n, good, ground arith))
  ]
