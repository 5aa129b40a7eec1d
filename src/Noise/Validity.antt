-- ===== src/Noise/Validity.antt =====
-- internal/noise/noise.go: which rulesets `Load` accepts.
use dark_canary.Prelude.{
  bytes_beq, ℕ, ◌+◌, ◌≡◌, ◌≢◌, refl, ◌↔◌, ◌⊎◌, inl, inr, true, false, Option, none, some, [], ◌∷◌,
  arith, Bytes, bytes_eq, bytes_beq_iff, ◌==◌, All, Bool-cases, Option-cases,
}
use dark_canary.Noise.Rules.{Rule, Ruleset, default_rules}
use dark_canary.Noise.Normalise.{Normaliser, parse_normalise}
use dark_canary.Noise.Suppress.{Loaded, LoadError, failed, loaded, check_rules, load}

-- A rule names a path, ignores or normalises, and its normalisation, if it has one, is spelled
-- right.
abbrev pub IsUsable : Rule → Type 0
IsUsable r =
    (r.path ≢ [])
    × ((r.ignore ≡ true) ⊎ (r.normalise ≢ []))
    × ((r.normalise ≡ []) ⊎ ((n : Normaliser) × (parse_normalise r.normalise ≡ some n)))

check_rules_sound : (i : ℕ) (rs : Ruleset) → check_rules i rs ≡ none → All IsUsable rs
unfolding check_rules
check_rules_sound i [] h = tt
check_rules_sound i (r ∷ rs) h = (
  (
    ground (arith, bytes_beq_iff r.path []),
    ground (arith, bytes_beq_iff r.normalise []),
    spelled (Bool-cases (r.normalise == [])) (Option-cases (parse_normalise r.normalise)),
  ),
  check_rules_sound (i + 1) rs (ground arith),
)
  where
    spelled :
        ((r.normalise == []) ≡ true) ⊎ ((r.normalise == []) ≡ false)
        → (parse_normalise r.normalise ≡ none)
          ⊎ ((n : Normaliser) × (parse_normalise r.normalise ≡ some n))
        → (r.normalise ≡ []) ⊎ ((n : Normaliser) × (parse_normalise r.normalise ≡ some n))
    spelled (inl e) o = inl ((bytes_beq_iff r.normalise []).0 e)
    spelled (inr e) (inl bad) = absurd (ground arith)
    spelled (inr e) (inr good) = inr good

check_rules_complete : (i : ℕ) (rs : Ruleset) → All IsUsable rs → check_rules i rs ≡ none
unfolding check_rules
check_rules_complete i [] h = refl
check_rules_complete i (r ∷ rs) ((path, use_, spelled), rest) = ground (
  arith,
  bytes_beq_iff r.path [],
  bytes_beq_iff r.normalise [],
  check_rules_complete (i + 1) rs rest,
)

-- `Load` hands out the rules of a file that can be read and parsed exactly if every one of them is
-- usable.
pub load_iff :
    (read_file : Bytes → Option Bytes) (unmarshal : Bytes → Option Ruleset) (path text : Bytes)
    (rs : Ruleset)
    → read_file path ≡ some text
    → unmarshal text ≡ some rs
    → (load read_file unmarshal path ≡ loaded rs) ↔ All IsUsable rs
unfolding load
load_iff read_file unmarshal path text rs r u = (
  (λ h. check_rules_sound 0 rs (ground arith)),
  (λ a. ground (arith, check_rules_complete 0 rs a)),
)

-- Rules that `Load` hands out are usable.
pub load-All :
    (read_file : Bytes → Option Bytes) (unmarshal : Bytes → Option Ruleset) (path : Bytes)
    (rs : Ruleset)
    → load read_file unmarshal path ≡ loaded rs
    → All IsUsable rs
unfolding load
load-All read_file unmarshal path rs h = elim (Option-cases (read_file path)) [
  | inl none_read ↦ absurd (ground arith)
  | inr (text, r) ↦ elim (Option-cases (unmarshal text)) [
    | inl bad ↦ absurd (ground arith)
    | inr (rs', u) ↦ elim (Option-cases (check_rules 0 rs')) [
      | inr (e, wrong) ↦ absurd (ground arith)
      | inl right ↦ check_rules_sound 0 rs (ground arith)
    ]
  ]
]

-- The built-in rules are usable.
default_rules_pass : check_rules 0 default_rules ≡ none
unfolding check_rules bytes_beq
default_rules_pass = refl

pub default_rules-All : All IsUsable default_rules
default_rules-All = check_rules_sound 0 default_rules default_rules_pass

pub Loaded-cases :
    (l : Loaded) → ((rs : Ruleset) × (l ≡ loaded rs)) ⊎ ((e : LoadError) × (l ≡ failed e))
Loaded-cases (loaded rs) = inl (rs, refl)
Loaded-cases (failed e) = inr (e, refl)
