-- ===== src/Noise/Normalise.antt =====
-- internal/noise/noise.go: the normalisations: how they are spelled, and when two values agree.
use dark_canary.Prelude.{
  ℕ, ◌+◌, ◌-◌, ◌*◌, Bool, true, false, ◌&&◌, ◌||◌, Option, none, some, List, [], ◌∷◌, Bytes, codes,
  nat_eq, bytes_eq, ◌==◌, if◌then◌else◌, leb, ltb, length, map, bytes_lt, sort, trim_space,
  equal_fold,
}
use dark_canary.Diff.Value.{Value, number, int, string, array, length_items, list_items}
use dark_canary.Diff.Runtime.{Runtime}

pub record Normaliser : Type 0 where
  pub kind : Bytes
  pub precision : ℕ

unfoldable pub is_digit : ℕ → Bool
is_digit c = leb b'0' c && leb c b'9'

-- The value of a run of digits behind what `acc` has read, or nothing at another byte.
unfoldable pub digits_value : ℕ → Bytes → Option ℕ
unfolding is_digit
digits_value acc [] = some acc
digits_value acc (c ∷ s) =
    let rest = digits_value (10 * acc + (c - b'0')) s in if is_digit c then rest else none

-- The digits behind a sign: there is at least one.
unfoldable pub signed_digits : Bool → Bytes → Option (Bool × ℕ)
unfolding digits_value
signed_digits minus [] = none
signed_digits minus (d ∷ ds) = elim (digits_value 0 (d ∷ ds)) [
  | none ↦ none
  | some n ↦ some (minus, n)
]

-- `strconv.Atoi`: whether a minus sign leads, and the size. A number that is out of Go's range is
-- read here; its only caller refuses it all the same.
unfoldable pub atoi : Bytes → Option (Bool × ℕ)
unfolding signed_digits
atoi [] = none
atoi (c ∷ s) =
    if c == b'-'
    then signed_digits true s
    else if c == b'+'
    then signed_digits false s
    else signed_digits false (c ∷ s)

-- `strings.TrimPrefix` with the test of `strings.HasPrefix`.
unfoldable pub strip_prefix : Bytes → Bytes → Option Bytes
strip_prefix [] s = some s
strip_prefix (p ∷ ps) [] = none
strip_prefix (p ∷ ps) (c ∷ s) = if p == c then strip_prefix ps s else none

-- The number behind `round:`, from 0 to 15.
unfoldable pub parse_precision : Bytes → Option ℕ
unfolding atoi
parse_precision s = elim (atoi s) [
  | none ↦ none
  | some (minus, n) ↦ if (minus && ltb 0 n) || ltb 15 n then none else some n
]

abbrev pub plain : Bytes → Normaliser
plain kind = record { kind = kind; precision = 0 }

-- `parseNormalise`; `none` is an error.
unfoldable pub parse_normalise : Bytes → Option Normaliser
unfolding parse_precision strip_prefix
parse_normalise spec =
    if spec == codes "sort" || spec == codes "trim" || spec == codes "lower" || spec == codes "len"
    then some (plain spec)
    else elim (strip_prefix (codes "round:") spec) [
      | none ↦ none
      | some rest ↦ elim (parse_precision rest) [
        | none ↦ none
        | some n ↦ some (record { kind = codes "round"; precision = n })
      ]
    ]

unfoldable pub as_string : Value → Option Bytes
as_string (string s) = some s
as_string v = none

unfoldable pub length_of : Value → Option ℕ
length_of (string s) = some (length s)
length_of (array xs) = some (length_items xs)
length_of v = none

-- The loop of `equalSorted` behind the test of the lengths.
unfoldable pub same_texts : List Bytes → List Bytes → Bool
same_texts [] ys = true
same_texts (x ∷ xs) [] = true
same_texts (x ∷ xs) (y ∷ ys) = if x == y then same_texts xs ys else false

-- Two values that are there and pass a test.
abbrev pub both_are {ℓ} : {A : Type ℓ} → (A → A → Bool) → Option A → Option A → Bool
both_are test none b = false
both_are test (some x) none = false
both_are test (some x) (some y) = test x y

module _ (rt : Runtime) where
  unfoldable pub canonical : Value → Bytes
  canonical v = elim (rt.marshal v) [ some b ↦ b | none ↦ rt.sprint v ]

  unfoldable pub to_float : Value → Option rt.Float
  to_float (number n) = rt.parse_float n
  to_float (int n) = some (rt.float_of n)
  to_float (string s) = rt.parse_float s
  to_float v = none

  unfoldable pub to_sorted_strings : Value → Option (List Bytes)
  unfolding canonical
  to_sorted_strings (array xs) = some (sort bytes_lt (map canonical (list_items xs)))
  to_sorted_strings v = none

  unfoldable pub equal_sorted : Value → Value → Bool
  unfolding to_sorted_strings same_texts
  equal_sorted a b =
      both_are (λ xs ys. length xs == length ys && same_texts xs ys) (to_sorted_strings a)
        (to_sorted_strings b)

  unfoldable pub equal_rounded : ℕ → Value → Value → Bool
  unfolding to_float
  equal_rounded n a b =
      both_are (λ x y. rt.float_eq (rt.round_at n x) (rt.round_at n y)) (to_float a) (to_float b)

  -- `normaliser.equal`
  unfoldable pub equal : Normaliser → Value → Value → Bool
  unfolding equal_sorted equal_rounded as_string length_of
  equal n a b =
      if n.kind == codes "round"
      then equal_rounded n.precision a b
      else if n.kind == codes "sort"
      then equal_sorted a b
      else if n.kind == codes "trim"
      then both_are (λ s t. trim_space s == trim_space t) (as_string a) (as_string b)
      else if n.kind == codes "lower"
      then both_are equal_fold (as_string a) (as_string b)
      else if n.kind == codes "len"
      then both_are (λ k l. k == l) (length_of a) (length_of b)
      else false

  -- `compare`: equal already, and equal once normalised.
  unfoldable pub compare : Bytes → Value → Value → Bool × Bool
  unfolding parse_normalise equal
  compare spec a b = elim (parse_normalise spec) [
    | none ↦ (false, false)
    | some n ↦ if canonical a == canonical b then (true, true) else (false, equal n a b)
  ]
