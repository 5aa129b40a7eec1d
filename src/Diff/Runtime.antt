-- ===== src/Diff/Runtime.antt =====
-- What Go's standard library gives the engine and the noise rules and the model does not define:
-- 64-bit floats, and the JSON decoder and encoder.
use dark_canary.Prelude.{Bytes, Bool, Option, ℕ}
use dark_canary.Diff.Value.{Value}

pub record Runtime : Type 1 where
  pub Float : Type 0
  -- `strconv.ParseFloat(s, 64)`; `none` where it reports an error.
  pub parse_float : Bytes → Option Float
  -- Go's `==` on floats.
  pub float_eq : Float → Float → Bool
  -- `math.Round(f * math.Pow(10, n))`
  pub round_at : ℕ → Float → Float
  -- `float64(n)`
  pub float_of : ℕ → Float
  -- The first value that `json.Decoder` with `UseNumber` reads; `none` where it reports an error.
  pub decode : Bytes → Option Value
  -- `json.Marshal`; `none` where it reports an error.
  pub marshal : Value → Option Bytes
  -- `fmt.Sprintf("%v", v)`
  pub sprint : Value → Bytes
