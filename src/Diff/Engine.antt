-- ===== src/Diff/Engine.antt =====
-- internal/diff/diff.go: kinds, differences, results, the engine's options, and the sink that
-- collects differences and asks the noise rules.
use dark_canary.Prelude.{
  ℕ, ◌+◌, Bool, true, false, Option, none, some, List, [], ◌∷◌, ◌++◌, Bytes, codes, nat_eq,
  bytes_eq, ◌==◌, if◌then◌else◌, ltb, length, take,
}
use dark_canary.Diff.Value.{Value, null, number, string}
use dark_canary.Diff.Text.{decimal}
use dark_canary.Diff.Runtime.{Runtime}

pub data Kind : Type 0 where
  status header body_val body_key shape : Kind

pub record Difference : Type 0 where
  pub kind : Kind
  pub path : Bytes
  pub primary : Bytes
  pub shadow : Bytes

pub record Result : Type 0 where
  pub correl_id : Bytes
  pub method : Bytes
  pub url : Bytes
  pub differences : List Difference
  pub suppressed : ℕ

unfoldable pub is_identical : Result → Bool
is_identical r = length r.differences == 0

-- The hook of the noise rules: the path and the two values.
abbrev pub Suppressor : Type 0
Suppressor = Bytes → Value → Value → Bool

abbrev pub path_status : Bytes
path_status = codes "/status"

abbrev pub path_headers : Bytes
path_headers = codes "/headers"

abbrev pub path_body : Bytes
path_body = codes "/body"

-- The source's `structural`; `none` is a nil suppressor.
pub record Engine : Type 0 where
  pub suppressor : Option Suppressor
  pub max_value : ℕ

abbrev pub default_max_value_len : ℕ
default_max_value_len = 200

-- `NewEngine`; the length 0 stands for every one that is not positive.
unfoldable pub new_engine : Option Suppressor → ℕ → Engine
new_engine s max = record {
  suppressor = s;
  max_value = if max == 0 then default_max_value_len else max;
}

module _ (rt : Runtime) where
  -- What `render` writes before it cuts.
  unfoldable pub rendered : Value → Bytes
  rendered null = codes "(absent)"
  rendered (string s) = s
  rendered (number n) = n
  rendered v = elim (rt.marshal v) [ some b ↦ b | none ↦ rt.sprint v ]

  -- `render`: at most `max_value` bytes, with the ellipsis (three bytes of UTF-8) and the length.
  unfoldable pub render : Engine → Value → Bytes
  unfolding rendered
  render e v =
      let s = rendered v in
      if ltb e.max_value (length s)
      then take e.max_value s
        ++ 226 ∷ 128 ∷ 166 ∷ codes " ("
        ++ decimal (length s)
        ++ codes " bytes)"
      else s

  -- `sink.suppressed`
  unfoldable pub suppressed : Engine → Bytes → Value → Value → Result → Result × Bool
  suppressed e path primary shadow r = elim (e.suppressor) [
    | none ↦ (r, false)
    | some s ↦
        if s path primary shadow
        then (record r { suppressed = r.suppressed + 1 }, true)
        else (r, false)
  ]

  -- `sink.add`
  unfoldable pub add : Engine → Kind → Bytes → Value → Value → Result → Result
  unfolding suppressed
  add e kind path primary shadow r =
      let (r', hit) = suppressed e path primary shadow r in
      if hit then r' else record r' {
        differences =
            r'.differences
            ++ record {
              kind = kind;
              path = path;
              primary = render e primary;
              shadow = render e shadow;
            }
              ∷ [];
      }
