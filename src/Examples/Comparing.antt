-- ===== src/Examples/Comparing.antt =====
-- A mirrored request whose two answers are the same.
use mathlib.Core.Path.{subst}
use dark_canary.Prelude.{refl, inl, inr, [], ◌∷◌, codes, arith, lookup, Bool-cases, ◌==◌, bytes_eq}
use dark_canary.Collector.Buffer.{new}
use dark_canary.Noise.Normalise.{digits_value}
use dark_canary.Diff.Quiet.{DecodesNumbers, NumbersHold}
use dark_canary.Diff.Walk.{scalar_equal, number_of, same_scalar}
use dark_canary.Proxy.Tee.{joined}
use dark_canary.Proxy.Mirror.{Answer}
use dark_canary.Proxy.Comparing.{
  MakesIdentical, shadow_first, primary_first, end_both-MakesIdentical,
}
use dark_canary.Examples.Command.{percent}
use dark_canary.Examples.Diff.{engine}
use dark_canary.Examples.Proxy.{orders, one_slot}
use dark_canary.Examples.Runtime.{small_runtime, decode_some, one_two, a_then_b, b_then_a}
use dark_canary.Examples.Server.{small_server, small_server-IsValid}

-- Two answers with one body, cut into reads in two ways.
abbrev in_two : Answer
in_two = record {
  sent_url = codes "/orders";
  sent_headers = [];
  status = 200;
  headers = [];
  reads = codes "[1," ∷ codes "2]" ∷ [];
}

abbrev in_one : Answer
in_one = record in_two { reads = codes "[1,2]" ∷ [] }

small_runtime-DecodesNumbers : DecodesNumbers small_runtime
unfolding decode_some NumbersHold scalar_equal number_of same_scalar digits_value
small_runtime-DecodesNumbers b v h = elim (Bool-cases (b == codes "{a,b}")) [
  | inl first ↦
      subst (NumbersHold small_runtime) {x = a_then_b} {y = v} (ground arith)
        (refl, ((refl, (refl, tt)), tt))
  | inr not_first ↦ elim (Bool-cases (b == codes "{b,a}")) [
    | inl second ↦
        subst (NumbersHold small_runtime) {x = b_then_a} {y = v} (ground arith)
          ((refl, (refl, tt)), (refl, tt))
    | inr not_second ↦ elim (Bool-cases (b == codes "[1,2]")) [
      | inl third ↦
          subst (NumbersHold small_runtime) {x = one_two} {y = v} (ground arith) (refl, (refl, tt))
      | inr none_of_them ↦ absurd (ground arith)
    ]
  ]
]

end_both-MakesIdentical_example :
    MakesIdentical percent small_runtime engine orders small_server.buffer.pairs
      (shadow_first percent 8 9 (λ f b. b) orders in_two in_one one_slot)
    × MakesIdentical percent small_runtime engine orders small_server.buffer.pairs
        (primary_first percent 8 9 (λ f b. b) orders in_two in_one one_slot)
unfolding lookup joined new
end_both-MakesIdentical_example =
    end_both-MakesIdentical percent small_runtime engine 8 9 (λ f b. b) orders in_two in_one
      one_slot small_server-IsValid refl (omega arith) (omega arith) (omega arith) refl refl refl
      small_runtime-DecodesNumbers
