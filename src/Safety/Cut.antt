-- ===== src/Safety/Cut.antt =====
-- internal/safety/safety.go: the pattern of a field on a body that ends within the field's value.
use mathlib.Core.Path.{subst}
use dark_canary.Prelude.{
  ℕ, ◌≡◌, ◌≢◌, refl, sym, ap, ◌∙◌, true, false, none, [], ◌∷◌, ◌++◌, append_assoc, arith, Bytes,
  nat_eq, All, All-append, All-map,
}
use dark_canary.Safety.Pattern.{
  is_space, strip, key_end, matched, then_colon, match_at, replace_from, replace_field,
}
use dark_canary.Safety.Redaction.{
  IsBlank, IsPlain, label, match_at-unquoted, replace_from-unquoted, match_at-cut,
}

abbrev IsUnquoted : Bytes → Type 0
IsUnquoted s = All (λ c. c ≢ 34) s

IsBlank-IsUnquoted : (s : Bytes) → IsBlank s → IsUnquoted s
IsBlank-IsUnquoted s h = All-map (λ c. is_space c ≡ true) (λ c. c ≢ 34) s (λ c e. ground arith) h

IsPlain-IsUnquoted : (s : Bytes) → IsPlain s → IsUnquoted s
IsPlain-IsUnquoted s h = All-map (λ c. (c ≢ 34) × (c ≢ 92)) (λ c. c ≢ 34) s (λ c e. e.0) h

strip-unquoted : (p s : Bytes) → IsUnquoted s → strip (p ++ 34 ∷ []) s ≡ none
unfolding strip
strip-unquoted [] [] h = refl
strip-unquoted [] (d ∷ s) h = ground (arith, h.0)
strip-unquoted (c ∷ p) [] h = refl
strip-unquoted (c ∷ p) (d ∷ s) h = ground (arith, strip-unquoted p s h.1)

replace_from-unmatched :
    (f : Bytes) (c : ℕ) (s : Bytes)
    → match_at f (c ∷ s) ≡ none
    → replace_from f 0 s ≡ s
    → replace_from f 0 (c ∷ s) ≡ c ∷ s
unfolding replace_from
replace_from-unmatched f c s h e = rw (h, replace_from) (ap (λ r. c ∷ r) e)

replace_from-plain : (f s : Bytes) → IsUnquoted s → replace_from f 0 s ≡ s
unfolding replace_from
replace_from-plain f [] h = refl
replace_from-plain f (c ∷ s) h =
    replace_from-unmatched f c s (match_at-unquoted f c s h.0) (replace_from-plain f s h.1)

-- A field whose name starts neither with white space nor with a colon.
module _ (c : ℕ) (name : Bytes) (solid : is_space c ≡ false) (no_colon : c ≢ 58)
    (quiet : IsUnquoted (c ∷ name)) where
  strip-blank :
      (before s : Bytes) → IsBlank before → strip ((c ∷ name) ++ 34 ∷ []) (before ++ 58 ∷ s) ≡ none
  unfolding strip
  strip-blank [] s h = ground (arith, no_colon)
  strip-blank (b ∷ before) s h = ground (arith, h.0, solid)

  match_at-quote :
      (s : Bytes) → strip ((c ∷ name) ++ 34 ∷ []) s ≡ none → match_at (c ∷ name) (34 ∷ s) ≡ none
  unfolding match_at key_end strip
  match_at-quote s h = ap (λ o. matched (34 ∷ s) (then_colon o)) h

  -- A body that ends within the value of a field. The field's name is not empty, starts neither with
  -- white space nor with a colon, and holds no quote. Behind the name between quotes, a colon with
  -- nothing but white space on either side, and a quote, the value holds neither quotes nor backslashes
  -- and does not end; and there is no quote in front of the name. Nothing is replaced.
  pub replace_field-cut :
      (before after pre content : Bytes)
      → IsBlank before
      → IsBlank after
      → IsUnquoted pre
      → IsPlain content
      → replace_field (c ∷ name) (pre ++ (label (c ∷ name) before after ++ 34 ∷ content))
        ≡ pre ++ (label (c ∷ name) before after ++ 34 ∷ content)
  unfolding replace_field
  replace_field-cut before after pre content blank blank' bare plain =
      let f : Bytes = c ∷ name in
      let middle : Bytes = before ++ 58 ∷ after in
      let value : Bytes = 34 ∷ content in
      let rest : Bytes = middle ++ value in
      let parts : label f before after ++ value ≡ 34 ∷ (f ++ 34 ∷ rest) =
        append_assoc (34 ∷ f ++ 34 ∷ []) middle value
        ∙ ap (λ r. 34 ∷ r) (append_assoc f (34 ∷ []) rest) in
      let unquoted = IsPlain-IsUnquoted content plain in
      let rest_stays : replace_from f 0 rest ≡ rest =
        replace_from-unquoted f middle value (
          All-append (λ d. d ≢ 34) before (58 ∷ after) (IsBlank-IsUnquoted before blank)
            (ground arith, IsBlank-IsUnquoted after blank'))
        ∙ ap (λ r. middle ++ r)
            (replace_from-unmatched f 34 content
              (match_at-quote content (strip-unquoted f content unquoted))
              (replace_from-plain f content unquoted)) in
      let end_stays : replace_from f 0 (34 ∷ rest) ≡ 34 ∷ rest =
        replace_from-unmatched f 34 rest
          (match_at-quote rest (
            ap (strip (f ++ 34 ∷ [])) (append_assoc before (58 ∷ after) value)
            ∙ strip-blank before (after ++ value) blank))
          rest_stays in
      let name_stays : replace_from f 0 (f ++ 34 ∷ rest) ≡ f ++ 34 ∷ rest =
        replace_from-unquoted f f (34 ∷ rest) quiet ∙ ap (λ r. f ++ r) end_stays in
      let no_match : match_at f (34 ∷ (f ++ 34 ∷ rest)) ≡ none =
        subst (λ r. match_at f r ≡ none) parts
          (match_at-cut f before after blank blank' content plain) in
      let whole : replace_from f 0 (34 ∷ (f ++ 34 ∷ rest)) ≡ 34 ∷ (f ++ 34 ∷ rest) =
        replace_from-unmatched f 34 (f ++ 34 ∷ rest) no_match name_stays in
      replace_from-unquoted f pre (label f before after ++ value) bare
      ∙ ap (λ r. pre ++ r) (subst (λ r. replace_from f 0 r ≡ r) (sym parts) whole)
