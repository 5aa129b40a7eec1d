-- ===== src/Report/Text.antt =====
-- internal/report/report.go: `AgreementRate`, `errWriter`, `Text` and `oneLine`.
use dark_canary.Prelude.{
  zero, suc, ℕ, ◌≤◌, ◌≢◌, ◌||◌, List, [], ◌∷◌, ◌++◌, arith, Bytes, codes, nat_eq, ◌==◌,
  if◌then◌else◌, ltb, length, length-append, length-take-le, take, All, All-append, map, Bool-cases,
  inl, inr,
}
use dark_canary.Collector.Types.{Time}
use dark_canary.Diff.Text.{decimal}
use dark_canary.Report.Aggregator.{Group, Summary, kind_text}

-- What the library's formats write: a duration, rounded, and a fraction as a percentage with one digit.
pub record Formats : Type 0 where
  pub elapsed : Time → Time → Bytes
  pub percentage : ℕ × ℕ → Bytes

-- The library's tabwriter: what it keeps, what it hands on when it is given a text, and what it hands
-- on in the end.
pub record Tabs : Type 1 where
  pub State : Type 0
  pub empty : State
  pub put : Bytes → State → State × List Bytes
  pub flush : State → List Bytes

-- `AgreementRate`
unfoldable pub agreement_rate : Summary → ℕ × ℕ
agreement_rate s = if s.pairs == 0 then (0, 1) else (s.identical, s.pairs)

abbrev pub ellipsis : Bytes
ellipsis = 226 ∷ 128 ∷ 166 ∷ []

abbrev arrow : Bytes
arrow = 32 ∷ 226 ∷ 134 ∷ 146 ∷ 32 ∷ []

abbrev newline : Bytes
newline = 10 ∷ []

abbrev tab : Bytes
tab = 9 ∷ []

-- The two calls of `ReplaceAll`.
abbrev blank : ℕ → ℕ
blank c = if c == 10 || c == 9 then 32 else c

-- `oneLine`
unfoldable pub one_line : Bytes → Bytes
one_line s =
    let flat = map blank s in if ltb 40 (length flat) then take 40 flat ++ ellipsis else flat

abbrev IsFlat : ℕ → Type 0
IsFlat c = (c ≢ 9) × (c ≢ 10)

blank-IsFlat : (s : Bytes) → All IsFlat (map blank s)
blank-IsFlat [] = tt
blank-IsFlat (c ∷ s) = (ground arith, blank-IsFlat s)

take-IsFlat : (n : ℕ) (s : Bytes) → All IsFlat s → All IsFlat (take n s)
take-IsFlat zero s h = tt
take-IsFlat (suc n) [] h = tt
take-IsFlat (suc n) (c ∷ s) h = (h.0, take-IsFlat n s h.1)

-- Whatever the text, what `oneLine` leaves of it has no tab and no end of line, and at most 40 bytes
-- and an ellipsis.
pub one_line-bounds : (s : Bytes) → All IsFlat (one_line s) × (length (one_line s) ≤ 43)
unfolding one_line
one_line-bounds s = elim (Bool-cases (ltb 40 (length (map blank s)))) [
  | inl long ↦ rw long (
    All-append IsFlat (take 40 (map blank s)) ellipsis
        (take-IsFlat 40 (map blank s) (blank-IsFlat s)) (ground arith),
    omega (arith, length-append (take 40 (map blank s)) ellipsis, length-take-le 40 (map blank s)),
  )
  | inr short ↦ rw short (blank-IsFlat s, ground arith)
]

-- The texts that `Text` formats.
module _ (formats : Formats) where
  unfoldable pub headline : Summary → Bytes
  headline s =
      decimal s.pairs ++ codes " pairs compared over " ++ formats.elapsed s.since s.now ++ newline

  unfoldable pub totals : Summary → Bytes
  unfolding agreement_rate
  totals s =
      decimal s.identical
      ++ codes " identical ("
      ++ formats.percentage (agreement_rate s)
      ++ codes "% agreement), "
      ++ decimal s.divergent
      ++ codes " divergent, "
      ++ decimal s.suppressed
      ++ codes " differences suppressed by noise rules"
      ++ newline
      ++ newline

  unfoldable pub no_groups : Summary → Bytes
  no_groups s =
      if s.pairs == 0
      then codes "No pairs yet. Check that both paths are reporting: /stats shows what arrived."
        ++ newline
      else codes "No divergence." ++ newline

  unfoldable pub columns : Bytes
  columns =
      codes "SEVERITY"
      ++ tab
      ++ codes "COUNT"
      ++ tab
      ++ codes "RATE"
      ++ tab
      ++ codes "KIND"
      ++ tab
      ++ codes "PATH"
      ++ tab
      ++ codes "PRIMARY"
      ++ arrow
      ++ codes "SHADOW"
      ++ newline

  unfoldable pub row : Group → Bytes
  unfolding one_line
  row g =
      g.severity
      ++ tab
      ++ decimal g.count
      ++ tab
      ++ formats.percentage g.rate
      ++ codes "%"
      ++ tab
      ++ kind_text g.kind
      ++ tab
      ++ g.path
      ++ tab
      ++ one_line g.example.primary
      ++ arrow
      ++ one_line g.example.shadow
      ++ newline

  -- The pieces of the table's rows, with what the tabwriter keeps after them.
  unfoldable pub row_pieces : (tabs : Tabs) → List Group → tabs.State → tabs.State × List Bytes
  row_pieces tabs [] t = (t, [])
  row_pieces tabs (g ∷ gs) t =
      let (t', ps) = tabs.put (row g) t in let (t'', qs) = row_pieces tabs gs t' in (t'', ps ++ qs)

  unfoldable pub table_pieces : (tabs : Tabs) → List Group → List Bytes
  unfolding row_pieces
  table_pieces tabs gs =
      let (t, ps) = tabs.put columns tabs.empty in
      let (t', qs) = row_pieces tabs gs t in ps ++ qs ++ tabs.flush t'

  unfoldable pub body_pieces : (tabs : Tabs) → Summary → List Group → List Bytes
  unfolding table_pieces
  body_pieces tabs s [] = no_groups s ∷ []
  body_pieces tabs s (g ∷ gs) = table_pieces tabs (g ∷ gs)

  -- All that a summary comes to: two lines, and a third or the table.
  unfoldable pub pieces : (tabs : Tabs) → Summary → List Bytes
  unfolding body_pieces
  pieces tabs s = headline s ∷ totals s ∷ body_pieces tabs s s.groups
