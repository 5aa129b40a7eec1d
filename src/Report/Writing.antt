-- ===== src/Report/Writing.antt =====
-- internal/report/report.go: `errWriter` and `Text`. The writer beneath is an argument: the error, if
-- there is one, of writing a piece after those that it has been given before.
use dark_canary.Prelude.{
  ◌≡◌, refl, sym, ap, ◌∙◌, ◌⊎◌, inl, inr, Option, none, some, List, [], ◌∷◌, ◌++◌, Bytes,
  Option-cases,
}
use mathlib.Core.Path.{subst, Path}
use dark_canary.Report.Aggregator.{Group, Summary}
use dark_canary.Report.Text.{
  Formats, Tabs, headline, totals, no_groups, columns, row, row_pieces, table_pieces, body_pieces,
  pieces,
}

-- `written` is all that has been handed to the writer beneath.
pub record ErrWriter (Error : Type 0) : Type 0 where
  pub written : List Bytes
  pub err : Option Error

module _ {Error : Type 0} (accepts : List Bytes → Bytes → Option Error) where
  -- `Write`
  unfoldable pub write : Bytes → ErrWriter Error → ErrWriter Error
  write p e = elim (e.err) [
    | some _ ↦ e
    | none ↦ record { written = e.written ++ p ∷ []; err = accepts e.written p }
  ]

  -- The pieces that the tabwriter hands on, up to the first error.
  unfoldable pub pass : List Bytes → ErrWriter Error → ErrWriter Error × Option Error
  unfolding write
  pass [] e = (e, none)
  pass (p ∷ ps) e =
      let after = write p e in elim (after.err) [ none ↦ pass ps after | some x ↦ (after, some x) ]

  -- The loop of `Text` over the groups.
  unfoldable pub rows :
      (formats : Formats) (tabs : Tabs)
      → List Group
      → tabs.State
      → ErrWriter Error
      → tabs.State × ErrWriter Error
  unfolding pass
  rows formats tabs [] t e = (t, e)
  rows formats tabs (g ∷ gs) t e =
      let (t', ps) = tabs.put (row formats g) t in rows formats tabs gs t' (pass ps e).0

  -- The end of `Text`: what `Flush` returns, or what the writer remembers.
  unfoldable pub finish_table : List Bytes → ErrWriter Error → ErrWriter Error × Option Error
  unfolding pass
  finish_table ps e =
      let (e', err) = pass ps e in elim err [ some x ↦ (e', some x) | none ↦ (e', e'.err) ]

  -- What follows the loop.
  unfoldable pub close_table :
      (formats : Formats) (tabs : Tabs)
      → tabs.State × ErrWriter Error
      → ErrWriter Error × Option Error
  unfolding finish_table
  close_table formats tabs (t, e) = finish_table (tabs.flush t) e

  -- The table of `Text`.
  unfoldable pub table :
      (formats : Formats) (tabs : Tabs)
      → List Group
      → ErrWriter Error
      → ErrWriter Error × Option Error
  unfolding rows close_table
  table formats tabs gs e =
      let (t, ps) = tabs.put (columns formats) tabs.empty in
      close_table formats tabs (rows formats tabs gs t (pass ps e).0)

  -- `Text` behind its first two lines.
  unfoldable pub body_of :
      (formats : Formats) (tabs : Tabs)
      → Summary
      → List Group
      → ErrWriter Error
      → ErrWriter Error × Option Error
  unfolding table
  body_of formats tabs s [] e = let e' = write (no_groups formats s) e in (e', e'.err)
  body_of formats tabs s (g ∷ gs) e = table formats tabs (g ∷ gs) e

  -- `Text`, with all that it has written.
  unfoldable pub text : (formats : Formats) (tabs : Tabs) → Summary → ErrWriter Error × Option Error
  unfolding body_of
  text formats tabs s =
      let e = write (headline formats s) (record { written = []; err = none }) in
      body_of formats tabs s s.groups (write (totals formats s) e)

  -- The pieces in their order, up to the first that the writer refuses, and that error.
  unfoldable pub until_failure : List Bytes → List Bytes → List Bytes × Option Error
  until_failure before [] = (before, none)
  until_failure before (p ∷ ps) = elim (accepts before p) [
    | none ↦ until_failure (before ++ p ∷ []) ps
    | some x ↦ (before ++ p ∷ [], some x)
  ]

  -- All pieces through `Write`, one after the other.
  abbrev write_all : List Bytes → ErrWriter Error → ErrWriter Error
  write_all [] e = e
  write_all (p ∷ ps) e = write_all ps (write p e)

  write_all-append :
      (ps qs : List Bytes) (e : ErrWriter Error)
      → write_all (ps ++ qs) e ≡ write_all qs (write_all ps e)
  write_all-append [] qs e = refl
  write_all-append (p ∷ ps) qs e = write_all-append ps qs (write p e)

  write_failed : (p : Bytes) (e : ErrWriter Error) (x : Error) → e.err ≡ some x → write p e ≡ e
  unfolding write
  write_failed p e x h =
      subst
        (λ (o : Option Error).
          elim o [
            | some _ ↦ e
            | none ↦ record { written = e.written ++ p ∷ []; err = accepts e.written p }
          ]
          ≡ e)
        (sym h) refl

  abbrev handed_on : Bytes → ErrWriter Error → ErrWriter Error
  handed_on p e = record { written = e.written ++ p ∷ []; err = accepts e.written p }

  -- A write that reaches the writer beneath.
  write_lem : (p : Bytes) (e : ErrWriter Error) → e.err ≡ none → write p e ≡ handed_on p e
  unfolding write
  write_lem p e h =
      subst (λ (o : Option Error). elim o [ some _ ↦ e | none ↦ handed_on p e ] ≡ handed_on p e)
        (sym h) refl

  write_all-failed :
      (ps : List Bytes) (e : ErrWriter Error) (x : Error) → e.err ≡ some x → write_all ps e ≡ e
  write_all-failed [] e x h = refl
  write_all-failed (p ∷ ps) e x h =
      ap (write_all ps) (write_failed p e x h) ∙ write_all-failed ps e x h

  write_all-until_failure :
      (ps : List Bytes) (e : ErrWriter Error)
      → e.err ≡ none
      → ((write_all ps e).written, (write_all ps e).err) ≡ until_failure e.written ps
  unfolding until_failure write
  write_all-until_failure [] e h = ap (λ (o : Option Error). (e.written, o)) h
  write_all-until_failure (p ∷ ps) e h =
      let next = handed_on p e in
      ap (λ (w : ErrWriter Error). ((write_all ps w).written, (write_all ps w).err))
        (write_lem p e h)
      ∙ elim (Option-cases (accepts e.written p)) [
        | inl fine ↦ write_all-until_failure ps next fine ∙ sym (rw (fine, until_failure) refl)
        | inr (x, bad) ↦
            ap (λ (w : ErrWriter Error). (w.written, w.err)) (write_all-failed ps next x bad)
            ∙ sym (rw (bad, until_failure) refl)
      ]

  pass-write_all :
      (ps : List Bytes) (e : ErrWriter Error)
      → ((pass ps e).0 ≡ write_all ps e)
        × (((pass ps e).1 ≡ none) ⊎ ((pass ps e).1 ≡ (write_all ps e).err))
  unfolding pass
  pass-write_all [] e = (refl, inl refl)
  pass-write_all (p ∷ ps) e = elim (Option-cases (write p e).err) [
    | inl fine ↦ rw (fine, pass) (pass-write_all ps (write p e))
    | inr (x, bad) ↦
        let stays = write_all-failed ps (write p e) x bad in
        rw (bad, pass, stays) (refl, inr (sym bad))
  ]

  rows-row_pieces :
      (formats : Formats) (tabs : Tabs) (gs : List Group) (t : tabs.State) (e : ErrWriter Error)
      → rows formats tabs gs t e
        ≡ ((row_pieces formats tabs gs t).0, write_all (row_pieces formats tabs gs t).1 e)
  unfolding rows row_pieces
  rows-row_pieces formats tabs [] t e = refl
  rows-row_pieces formats tabs (g ∷ gs) t e =
      let (t', ps) = tabs.put (row formats g) t in
      let (t'', qs) = row_pieces formats tabs gs t' in
      ap (rows formats tabs gs t') (pass-write_all ps e).0
      ∙ rows-row_pieces formats tabs gs t' (write_all ps e)
      ∙ ap (λ (w : ErrWriter Error). (t'', w)) (sym (write_all-append ps qs e))

  either_error :
      (w : ErrWriter Error) (err : Option Error)
      → (err ≡ none) ⊎ (err ≡ w.err)
      → Path
          (ErrWriter Error × Option Error)
          (elim err [ some x ↦ (w, some x) | none ↦ (w, w.err) ])
          (w, w.err)
  either_error w none h = refl
  either_error w (some x) (inl e) = absurd cc
  either_error w (some x) (inr e) = ap (λ (o : Option Error). (w, o)) e

  -- The error that `Flush` returns is the one that the writer remembers.
  finish_table_lem :
      (ps : List Bytes) (e : ErrWriter Error)
      → finish_table ps e ≡ (write_all ps e, (write_all ps e).err)
  unfolding finish_table
  finish_table_lem ps e =
      let (same, err) = pass-write_all ps e in
      either_error (pass ps e).0 (pass ps e).1 (rw same err)
      ∙ ap (λ (w : ErrWriter Error). (w, w.err)) same

  table-table_pieces :
      (formats : Formats) (tabs : Tabs) (gs : List Group) (e : ErrWriter Error)
      → table formats tabs gs e ≡ (
        write_all (table_pieces formats tabs gs) e,
        (write_all (table_pieces formats tabs gs) e).err,
      )
  unfolding table close_table table_pieces
  table-table_pieces formats tabs gs e =
      let (t, ps) = tabs.put (columns formats) tabs.empty in
      let (t', qs) = row_pieces formats tabs gs t in
      ap (λ (w : ErrWriter Error). close_table formats tabs (rows formats tabs gs t w))
        (pass-write_all ps e).0
      ∙ ap (close_table formats tabs) (rows-row_pieces formats tabs gs t (write_all ps e))
      ∙ finish_table_lem (tabs.flush t') (write_all qs (write_all ps e))
      ∙ ap (λ (w : ErrWriter Error). (w, w.err))
          (sym (
            write_all-append (ps ++ qs) (tabs.flush t') e
            ∙ ap (write_all (tabs.flush t')) (write_all-append ps qs e)))

  body_of-body_pieces :
      (formats : Formats) (tabs : Tabs) (s : Summary) (gs : List Group) (e : ErrWriter Error)
      → body_of formats tabs s gs e ≡ (
        write_all (body_pieces formats tabs s gs) e,
        (write_all (body_pieces formats tabs s gs) e).err,
      )
  unfolding body_of body_pieces
  body_of-body_pieces formats tabs s [] e = refl
  body_of-body_pieces formats tabs s (g ∷ gs) e = table-table_pieces formats tabs (g ∷ gs) e

  -- Whatever the writer beneath does: `Text` hands it the two lines of totals and then the third line
  -- or the table, piece by piece and in order, up to and with the first piece that it refuses, and
  -- nothing after that; and it returns that error, or none if every piece was accepted.
  pub text-until_failure :
      (formats : Formats) (tabs : Tabs) (s : Summary)
      → ((text formats tabs s).0.written, (text formats tabs s).1)
        ≡ until_failure [] (pieces formats tabs s)
  unfolding text pieces
  text-until_failure formats tabs s =
      ap (λ (r : ErrWriter Error × Option Error). (r.0.written, r.1))
        (body_of-body_pieces formats tabs s s.groups (
          write (totals formats s)
            (write (headline formats s) (record { written = []; err = none }))))
      ∙ write_all-until_failure (pieces formats tabs s) (record { written = []; err = none }) refl
