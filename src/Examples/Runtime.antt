-- ===== src/Examples/Runtime.antt =====
-- A runtime for the examples: whole numbers for floats, an encoder, and a decoder for a few texts.
use dark_canary.Prelude.{
  ℕ, ◌*◌, ◌^◌, true, false, Option, none, some, [], ◌++◌, Bytes, codes, nat_eq, bytes_eq, ◌==◌,
  if◌then◌else◌,
}
use dark_canary.Diff.Value.{
  Value, null, boolean, number, int, string, array, object, Items, nil, cons, Fields, end, field,
}
use dark_canary.Diff.Text.{decimal}
use dark_canary.Diff.Runtime.{Runtime}
use dark_canary.Noise.Normalise.{digits_value}

abbrev pub quoted : Bytes → Bytes
quoted s = codes "\"" ++ s ++ codes "\""

unfoldable mutual
  unfolding decimal

  pub encode : Value → Bytes
  encode null = codes "null"
  encode (boolean true) = codes "true"
  encode (boolean false) = codes "false"
  encode (number n) = n
  encode (int n) = decimal n
  encode (string s) = quoted s
  encode (array xs) = codes "[" ++ encode_items xs ++ codes "]"
  encode (object fs) = codes "{" ++ encode_fields fs ++ codes "}"

  pub encode_items : Items → Bytes
  encode_items nil = []
  encode_items (cons v nil) = encode v
  encode_items (cons v (cons w xs)) = encode v ++ codes "," ++ encode_items (cons w xs)

  pub encode_fields : Fields → Bytes
  encode_fields end = []
  encode_fields (field k v end) = quoted k ++ codes ":" ++ encode v
  encode_fields (field k v (field j w fs)) =
      quoted k ++ codes ":" ++ encode v ++ codes "," ++ encode_fields (field j w fs)

abbrev pub one_two : Value
one_two = array (cons (number (codes "1")) (cons (number (codes "2")) nil))

abbrev pub two_one : Value
two_one = array (cons (number (codes "2")) (cons (number (codes "1")) nil))

abbrev pub a_then_b : Value
a_then_b = object (field (codes "a") (number (codes "1")) (field (codes "b") one_two end))

abbrev pub b_then_a : Value
b_then_a = object (field (codes "b") one_two (field (codes "a") (number (codes "01")) end))

unfoldable pub decode_some : Bytes → Option Value
decode_some s =
    if s == codes "{a,b}"
    then some a_then_b
    else if s == codes "{b,a}"
    then some b_then_a
    else if s == codes "[1,2]"
    then some one_two
    else none

abbrev pub small_runtime : Runtime
small_runtime = record {
  Float = ℕ;
  parse_float = digits_value 0;
  float_eq = λ x y. x == y;
  round_at = λ n x. x * 10 ^ n;
  float_of = λ n. n;
  decode = decode_some;
  marshal = λ v. some (encode v);
  sprint = encode;
}
