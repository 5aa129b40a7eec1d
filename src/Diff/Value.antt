-- ===== src/Diff/Value.antt =====
-- internal/diff/diff.go: the values that the engine compares. Go's `any` is one data type with a
-- constructor for each dynamic type that reaches the engine; a map is a list of fields.
use dark_canary.Prelude.{ℕ, suc, Bool, List, [], ◌∷◌, Bytes, codes, bytes_eq}

mutual
  pub data Value : Type 0 where
    null : Value
    boolean : Bool → Value
    number : Bytes → Value
    int : ℕ → Value
    string : Bytes → Value
    array : Items → Value
    object : Fields → Value

  pub data Items : Type 0 where
    nil : Items
    cons : Value → Items → Items

  pub data Fields : Type 0 where
    end : Fields
    field : Bytes → Value → Fields → Fields

unfoldable pub length_items : Items → ℕ
length_items nil = 0
length_items (cons v xs) = suc (length_items xs)

unfoldable pub list_items : Items → List Value
list_items nil = []
list_items (cons v xs) = v ∷ list_items xs

unfoldable pub entries : Fields → List (Bytes × Value)
entries end = []
entries (field k v fs) = (k, v) ∷ entries fs

-- `typeName`. No `float64` reaches it, since the decoder keeps numbers as text.
unfoldable pub type_name : Value → Bytes
type_name null = codes "null"
type_name (boolean b) = codes "boolean"
type_name (number n) = codes "number"
type_name (int n) = codes "int"
type_name (string s) = codes "string"
type_name (array xs) = codes "array"
type_name (object fs) = codes "object"
