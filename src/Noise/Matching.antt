-- ===== src/Noise/Matching.antt =====
-- internal/noise/noise.go: which rule `Match` finds, and what `Merge` does to it.
use dark_canary.Prelude.{
  ◌≡◌, refl, ◌⊎◌, inl, inr, true, false, Option, none, some, [], ◌∷◌, ◌++◌, arith, Bytes,
  if◌then◌else◌, All, Bool-cases,
}
use dark_canary.Noise.Glob.{match_glob}
use dark_canary.Noise.Rules.{Rule, Ruleset, merge, match_from, match_rule}

-- No rule of the list matches the path.
abbrev pub NoneMatches : Ruleset → Bytes → Type 0
NoneMatches rs path = All (λ r. match_glob r.path path ≡ false) rs

-- The rule is in the list, matches, and no later one does.
pub record IsLastMatch (rs : Ruleset) (path : Bytes) (r : Rule) : Type 0 where
  pub before : Ruleset
  pub after : Ruleset
  pub split : rs ≡ before ++ r ∷ after
  pub matches : match_glob r.path path ≡ true
  pub none_after : NoneMatches after path

-- The answer of the loop: the last rule that matches, or what was found before where none does.
abbrev Found : Option Rule → Ruleset → Bytes → Type 0
Found found rs path =
    (NoneMatches rs path × (match_from found rs path ≡ found))
    ⊎ ((r : Rule) × (match_from found rs path ≡ some r) × IsLastMatch rs path r)

match_from-Found : (found : Option Rule) (rs : Ruleset) (path : Bytes) → Found found rs path
unfolding match_from
match_from-Found found [] path = inl (tt, refl)
match_from-Found found (r ∷ rs) path = elim (Bool-cases (match_glob r.path path)) [
  | inl hit ↦ rw hit (elim (match_from-Found (some r) rs path) [
    | inl (fresh, e) ↦
        inr (
          r,
          e,
          record { before = []; after = rs; split = refl; matches = hit; none_after = fresh },
        )
    | inr (q, e, last) ↦ inr (q, e, later last)
  ])
  | inr miss ↦ rw miss (elim (match_from-Found found rs path) [
    | inl (fresh, e) ↦ inl ((refl, fresh), e)
    | inr (q, e, last) ↦ inr (q, e, later last)
  ])
]
  where
    later : {q : Rule} → IsLastMatch rs path q → IsLastMatch (r ∷ rs) path q
    later last = record {
      before = r ∷ last.before;
      after = last.after;
      split = rw (← last.split);
      matches = last.matches;
      none_after = last.none_after;
    }

-- `Match` finds the last rule that matches the path, or no rule matches.
pub match_rule-last :
    (rs : Ruleset) (path : Bytes)
    → (NoneMatches rs path × (match_rule rs path ≡ none))
      ⊎ ((r : Rule) × (match_rule rs path ≡ some r) × IsLastMatch rs path r)
unfolding match_rule
match_rule-last rs path = match_from-Found none rs path

match_from-append :
    (found : Option Rule) (rs other : Ruleset) (path : Bytes)
    → match_from found (rs ++ other) path ≡ match_from (match_from found rs path) other path
unfolding match_from
match_from-append found [] other path = refl
match_from-append found (r ∷ rs) other path =
    match_from-append (if match_glob r.path path then some r else found) rs other path

match_from-found :
    (found : Option Rule) (rs : Ruleset) (path : Bytes)
    → match_from found rs path ≡ elim (match_from none rs path) [ none ↦ found | some r ↦ some r ]
unfolding match_from
match_from-found found [] path = refl
match_from-found found (r ∷ rs) path =
    ground (arith, match_from-found found rs path, match_from-found (some r) rs path)

-- In a merged ruleset the rule of the operator's file wins wherever it has one for the path, and the
-- defaults decide elsewhere.
pub match_rule-merge :
    (rs other : Ruleset) (path : Bytes)
    → match_rule (merge rs other) path
      ≡ elim (match_rule other path) [ none ↦ match_rule rs path | some r ↦ some r ]
unfolding match_rule merge
match_rule-merge rs other path = ground (
  arith,
  match_from-append none rs other path,
  match_from-found (match_from none rs path) other path,
)
