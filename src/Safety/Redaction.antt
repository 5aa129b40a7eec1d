-- ===== src/Safety/Redaction.antt =====
-- internal/safety/safety.go: what the pattern of a field replaces.
use dark_canary.Prelude.{
  ℕ, ◌+◌, ◌-◌, ◌≡◌, ◌≢◌, refl, sym, ap, ap₂, ◌∙◌, true, false, Option, none, some, [], ◌∷◌, ◌++◌,
  append_assoc, arith, Bytes, nat_eq, ◌==◌, length, length-append, take, All,
}
use dark_canary.Safety.Pattern.{
  is_space, drop_spaces, strip, string_end, colon_end, key_end, matched, matched_to, then_spaces,
  then_colon, match_at, mark, replace_from, replace_field,
}

-- White space, and text that neither closes a string nor escapes.
abbrev pub IsBlank : Bytes → Type 0
IsBlank s = All (λ c. is_space c ≡ true) s

abbrev pub IsPlain : Bytes → Type 0
IsPlain s = All (λ c. (c ≢ 34) × (c ≢ 92)) s

strip-append : (p s : Bytes) → strip p (p ++ s) ≡ some s
unfolding strip
strip-append [] s = refl
strip-append (c ∷ p) s = ground (arith, strip-append p s)

drop_spaces-append : (b s : Bytes) → IsBlank b → drop_spaces (b ++ s) ≡ drop_spaces s
unfolding drop_spaces
drop_spaces-append [] s h = refl
drop_spaces-append (c ∷ b) s h = rw (h.0) (drop_spaces-append b s h.1)

string_end-plain :
    (content post : Bytes) → IsPlain content → string_end false (content ++ 34 ∷ post) ≡ some post
unfolding string_end
string_end-plain [] post h = refl
string_end-plain (c ∷ content) post h = ground (arith, h.0, string_end-plain content post h.1)

string_end-cut : (content : Bytes) → IsPlain content → string_end false content ≡ none
unfolding string_end
string_end-cut [] h = refl
string_end-cut (c ∷ content) h = ground (arith, h.0, string_end-cut content h.1)

take-front : (g v : Bytes) → take (length g) (g ++ v) ≡ g
take-front [] v = refl
take-front (c ∷ g) v = ap (λ r. c ∷ r) (take-front g v)

replace_from-skip : (f x s : Bytes) → replace_from f (length x) (x ++ s) ≡ replace_from f 0 s
unfolding replace_from
replace_from-skip f [] s = refl
replace_from-skip f (c ∷ x) s = replace_from-skip f x s

abbrev replaced : Bytes → ℕ → Bytes → Option (Bytes × ℕ) → Bytes
replaced f c s none = c ∷ replace_from f 0 s
replaced f c s (some (group, n)) = group ++ mark ++ replace_from f (n - 1) s

-- No match starts but at a quote.
pub match_at-unquoted : (f : Bytes) (c : ℕ) (s : Bytes) → c ≢ 34 → match_at f (c ∷ s) ≡ none
unfolding match_at key_end strip
match_at-unquoted f c s h = let other : (34 == c) ≡ false = ground arith in rw other refl

pub replace_from-unquoted :
    (f pre s : Bytes)
    → All (λ c. c ≢ 34) pre
    → replace_from f 0 (pre ++ s) ≡ pre ++ replace_from f 0 s
unfolding replace_from
replace_from-unquoted f [] s h = refl
replace_from-unquoted f (c ∷ pre) s h =
    rw (match_at-unquoted f c (pre ++ s) h.0, replace_from)
      (ap (λ r. c ∷ r) (replace_from-unquoted f pre s h.1))

-- The name of the field, the colon, and white space around it.
abbrev pub label : Bytes → Bytes → Bytes → Bytes
label f before after = (34 ∷ f ++ 34 ∷ []) ++ (before ++ 58 ∷ after)

module _ (f before after : Bytes) (blank : IsBlank before) (blank' : IsBlank after) where
  colon_end-string : (t : Bytes) → colon_end (before ++ 58 ∷ (after ++ 34 ∷ t)) ≡ some (34 ∷ t)
  unfolding colon_end strip drop_spaces
  colon_end-string t =
      ap (λ r. then_spaces (strip (58 ∷ []) r))
        (drop_spaces-append before (58 ∷ (after ++ 34 ∷ t)) blank)
      ∙ ap (λ (r : Bytes). some r) (drop_spaces-append after (34 ∷ t) blank')

  key_end-label : (t : Bytes) → key_end f ((label f before after) ++ 34 ∷ t) ≡ some (34 ∷ t)
  unfolding key_end
  key_end-label t =
      let key : Bytes = 34 ∷ f ++ 34 ∷ [] in
      let rest : Bytes = before ++ 58 ∷ (after ++ 34 ∷ t) in
      ap (λ r. then_colon (strip key r))
        (append_assoc key (before ++ 58 ∷ after) (34 ∷ t)
          ∙ ap (λ r. key ++ r) (append_assoc before (58 ∷ after) (34 ∷ t)))
      ∙ ap then_colon (strip-append key rest)
      ∙ colon_end-string t

  -- A string that ends is matched.
  match_at-string :
      (content post : Bytes)
      → IsPlain content
      → match_at f ((label f before after) ++ 34 ∷ (content ++ 34 ∷ post))
        ≡ some ((label f before after), length (label f before after) + 1 + length content + 1)
  unfolding match_at
  match_at-string content post plain =
      let v : Bytes = 34 ∷ (content ++ 34 ∷ post) in
      let front : length ((label f before after) ++ v) - length v ≡ length (label f before after) =
        omega (arith, length-append (label f before after) v) in
      let whole : length ((label f before after) ++ v) - length post
          ≡ length (label f before after) + 1 + length content + 1 =
        omega (arith, length-append (label f before after) v, length-append content (34 ∷ post)) in
      ap (matched ((label f before after) ++ v)) (key_end-label (content ++ 34 ∷ post))
      ∙ ap (matched_to ((label f before after) ++ v) v) (string_end-plain content post plain)
      ∙ ap₂ (λ (g : Bytes) (n : ℕ). some (g, n))
          (ap (λ n. take n ((label f before after) ++ v)) front
            ∙ take-front (label f before after) v)
          whole

  -- A string that is cut off is not.
  pub match_at-cut :
      (content : Bytes)
      → IsPlain content
      → match_at f ((label f before after) ++ 34 ∷ content) ≡ none
  unfolding match_at
  match_at-cut content plain =
      ap (matched ((label f before after) ++ 34 ∷ content)) (key_end-label content)
      ∙ ap (matched_to ((label f before after) ++ 34 ∷ content) (34 ∷ content))
          (string_end-cut content plain)

  -- A body whose first quote opens the name of the field, with a string behind it that holds neither
  -- quotes nor backslashes: the string is replaced by the mark, all in front of it stays, and what
  -- follows it is treated in turn.
  pub replace_field-string :
      (pre content post : Bytes)
      → All (λ c. c ≢ 34) pre
      → IsPlain content
      → replace_field f (pre ++ ((label f before after) ++ 34 ∷ (content ++ 34 ∷ post)))
        ≡ pre ++ ((label f before after) ++ mark ++ replace_field f post)
  unfolding replace_field replace_from
  replace_field-string pre content post quiet plain =
      let tail : Bytes = (f ++ 34 ∷ []) ++ (before ++ 58 ∷ after) in
      let v : Bytes = 34 ∷ (content ++ 34 ∷ post) in
      let x : Bytes = tail ++ (34 ∷ (content ++ 34 ∷ [])) in
      let cut : tail ++ v ≡ x ++ post =
        ap (λ r. tail ++ 34 ∷ r) (sym (append_assoc content (34 ∷ []) post))
        ∙ sym (append_assoc tail (34 ∷ (content ++ 34 ∷ [])) post) in
      let size : length (label f before after) + 1 + length content + 1 - 1 ≡ length x =
        omega (
          arith,
          length-append tail (34 ∷ (content ++ 34 ∷ [])),
          length-append content (34 ∷ []),
        ) in
      replace_from-unquoted f pre ((label f before after) ++ v) quiet
      ∙ ap (λ r. pre ++ r)
          (ap (replaced f 34 (tail ++ v)) (match_at-string content post plain)
            ∙ ap₂ (λ (n : ℕ) (r : Bytes). (label f before after) ++ mark ++ replace_from f n r) size
                cut
            ∙ ap (λ r. (label f before after) ++ mark ++ r) (replace_from-skip f x post))
