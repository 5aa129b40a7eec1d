-- ===== src/Safety/Pattern.antt =====
-- internal/safety/safety.go: the pattern that `NewScrubber` compiles for a field, and `ReplaceAll` of
-- it. The pattern is greedy, and at no place has it two ways to go on.
use dark_canary.Prelude.{
  ℕ, zero, suc, ◌-◌, Bool, true, false, ◌&&◌, ◌||◌, Option, none, some, [], ◌∷◌, ◌++◌, Bytes, codes,
  nat_eq, ◌==◌, if◌then◌else◌, leb, length, take,
}
use dark_canary.Safety.Scrubber.{redacted}

-- `\s`
abbrev pub is_space : ℕ → Bool
is_space c = c == 9 || c == 10 || c == 12 || c == 13 || c == 32

-- `\s*`
unfoldable pub drop_spaces : Bytes → Bytes
drop_spaces [] = []
drop_spaces (c ∷ s) = let rest = drop_spaces s in if is_space c then rest else c ∷ s

-- A text that stands at the start; the result is what follows it.
unfoldable pub strip : Bytes → Bytes → Option Bytes
strip [] s = some s
strip (c ∷ p) [] = none
strip (c ∷ p) (d ∷ s) = let rest = strip p s in if c == d then rest else none

-- `"(?:[^"\\]|\\.)*"` behind its first quote, and behind a backslash or not.
unfoldable pub string_end : Bool → Bytes → Option Bytes
string_end escaped [] = none
string_end true (c ∷ s) = let rest = string_end false s in if c == 10 then none else rest
string_end false (c ∷ s) = let rest = string_end (c == 92) s in if c == 34 then some s else rest

-- `[0-9.eE+]`
abbrev pub is_number_byte : ℕ → Bool
is_number_byte c = (leb 48 c && leb c 57) || c == 46 || c == 101 || c == 69 || c == 43

unfoldable pub drop_number : Bytes → Bytes
drop_number [] = []
drop_number (c ∷ s) = let rest = drop_number s in if is_number_byte c then rest else c ∷ s

-- `[0-9.eE+]+`
unfoldable pub digits_end : Bytes → Option Bytes
unfolding drop_number
digits_end [] = none
digits_end (c ∷ s) = if is_number_byte c then some (drop_number s) else none

abbrev pub or_else : Option Bytes → Option Bytes → Option Bytes
or_else none o = o
or_else (some r) o = some r

-- The second group of the pattern.
unfoldable pub value_end : Bytes → Option Bytes
unfolding string_end digits_end strip
value_end [] = none
value_end (c ∷ s) =
    if c == 34
    then string_end false s
    else or_else (if c == 45 then digits_end s else digits_end (c ∷ s)) (
        or_else (strip (codes "true") (c ∷ s))
          (or_else (strip (codes "false") (c ∷ s)) (strip (codes "null") (c ∷ s))))

abbrev pub then_spaces : Option Bytes → Option Bytes
then_spaces none = none
then_spaces (some s) = some (drop_spaces s)

-- The colon, with white space around it.
unfoldable pub colon_end : Bytes → Option Bytes
unfolding drop_spaces strip
colon_end s = then_spaces (strip (58 ∷ []) (drop_spaces s))

abbrev pub then_colon : Option Bytes → Option Bytes
then_colon none = none
then_colon (some s) = colon_end s

-- The first group of the pattern of a field.
unfoldable pub key_end : Bytes → Bytes → Option Bytes
unfolding strip colon_end
key_end f s = then_colon (strip (34 ∷ f ++ 34 ∷ []) s)

-- The texts behind the first group and behind the second.
abbrev pub matched_to : Bytes → Bytes → Option Bytes → Option (Bytes × ℕ)
matched_to s v none = none
matched_to s v (some rest) = some (take (length s - length v) s, length s - length rest)

abbrev pub matched : Bytes → Option Bytes → Option (Bytes × ℕ)
matched s none = none
matched s (some v) = matched_to s v (value_end v)

-- A match at the start: what the first group takes, and the length of the whole.
unfoldable pub match_at : Bytes → Bytes → Option (Bytes × ℕ)
unfolding key_end value_end
match_at f s = matched s (key_end f s)

abbrev pub mark : Bytes
mark = 34 ∷ redacted ++ 34 ∷ []

-- `ReplaceAll`, where some bytes still belong to the last match.
unfoldable pub replace_from : Bytes → ℕ → Bytes → Bytes
unfolding match_at
replace_from f k [] = []
replace_from f (suc k) (c ∷ s) = replace_from f k s
replace_from f zero (c ∷ s) = elim (match_at f (c ∷ s)) [
  | none ↦ c ∷ replace_from f 0 s
  | some (group, n) ↦ group ++ mark ++ replace_from f (n - 1) s
]

-- `re.ReplaceAll`, for the pattern of a field.
unfoldable pub replace_field : Bytes → Bytes → Bytes
unfolding replace_from
replace_field f s = replace_from f 0 s
