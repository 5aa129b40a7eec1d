-- ===== src/Examples/Safety.antt =====
-- Bodies with a field that is scrubbed.
use dark_canary.Prelude.{◌≡◌, refl, [], ◌++◌, ◌∷◌, Bytes, codes, All, arith, ◌≢◌}
use dark_canary.Safety.Pattern.{
  mark, replace_field, replace_from, match_at, key_end, value_end, colon_end, strip, drop_spaces,
  string_end, digits_end, drop_number,
}
use dark_canary.Safety.Redaction.{IsBlank, IsPlain, label, replace_field-string}
use dark_canary.Safety.Cut.{replace_field-cut}

-- The sign of an exponent stays.
exponent_test : replace_field (codes "f") (codes "{\"f\":1e-5}") ≡ codes "{\"f\":\"[redacted]\"-5}"
unfolding replace_field replace_from match_at key_end value_end colon_end strip drop_spaces
    string_end digits_end drop_number
exponent_test = refl

escape_test :
    replace_field (codes "f") (codes "{\"f\" : \"a\\\"b\", \"g\":1}")
    ≡ codes "{\"f\" : \"[redacted]\", \"g\":1}"
unfolding replace_field replace_from match_at key_end value_end colon_end strip drop_spaces
    string_end digits_end drop_number
escape_test = refl

abbrev brace : Bytes
brace = codes "{"

abbrev email : Bytes
email = codes "email"

abbrev space : Bytes
space = codes " "

bare : All (λ c. c ≢ 34) brace
bare = ground arith

blank : IsBlank space
blank = (refl, tt)

plain : IsPlain (codes "ann")
plain = ground arith

unquoted : All (λ c. c ≢ 34) email
unquoted = ground arith

replace_field-string_example :
    replace_field email (brace ++ (label email [] space ++ 34 ∷ (codes "ann" ++ 34 ∷ codes "}")))
    ≡ brace ++ (label email [] space ++ mark ++ replace_field email (codes "}"))
replace_field-string_example =
    replace_field-string email [] space tt blank brace (codes "ann") (codes "}") bare plain

replace_field-cut_example :
    replace_field email (brace ++ (label email [] space ++ 34 ∷ codes "ann"))
    ≡ brace ++ (label email [] space ++ 34 ∷ codes "ann")
replace_field-cut_example =
    replace_field-cut 101 (codes "mail") refl (λ e. absurd (omega arith)) unquoted [] space brace
      (codes "ann") tt blank bare plain
