-- ===== src/Examples/Properties.antt =====
-- Concrete properties (ovm/src), decided by an executor without databases.
use plasma_rust_framework.Prelude.{
  ℕ, ◌≡◌, refl, true, false, Option, none, some, [], ◌∷◌, arith, Any,
}
use plasma_rust_framework.Prelude.Bytes.{Bytes}
use plasma_rust_framework.Prelude.Result.{ok}
use plasma_rust_framework.PlasmaCore.Range
use plasma_rust_framework.PlasmaCore.Range.{Range}
use plasma_rust_framework.Ovm.Types.{
  constant_message, constant_integer, constant_range, PropertyInputs, none_left, and_input,
  Property, Message, Decision, QuantifierResultItem, integer_item, set_variable, QuantifierResult,
  Variables, Outcome, panics, returns, argument,
}
use plasma_rust_framework.Ovm.Manager.{
  property_of, has_lower_nonce_decider, for_all_such_that_decider_raw, there_exists_such_that,
  quantifier_inputs, q_range,
}
use plasma_rust_framework.Ovm.Deciders.{
  decision, element_of, has_lower_nonce_decide, for_all_such_that_decide,
  there_exists_such_that_decide,
}
use plasma_rust_framework.Ovm.Quantifiers.{integer_range_quantified}
use plasma_rust_framework.Ovm.Executor.{decide, get_all_quantified}
use plasma_rust_framework.Ovm.Executor.Formula.{
  Formula, lower, both, either, negated, property_for, meaning, decide-property_for,
}
use plasma_rust_framework.Ovm.Executor.Quantified.{Says?, for_all_never_false, there_exists_found}
use plasma_rust_framework.PlasmaCore.Transaction.{Transaction}

abbrev no_hash : Bytes → Bytes
no_hash bytes = bytes

abbrev no_witness : ℕ → PropertyInputs → Variables → Outcome Decision
no_witness i inputs variables = panics

abbrev no_store : ℕ → PropertyInputs → Variables → Option QuantifierResult
no_store i inputs variables = none

abbrev run : ℕ → Property → Variables → Outcome Decision
run fuel p v = decide no_hash no_witness no_store fuel p v

abbrev message : ℕ → Message
message nonce = record { channel_id = []; nonce = nonce; message = [] }

abbrev below : ℕ → ℕ → Property
below a b =
    has_lower_nonce_decider
      (and_input (constant_message (message a)) (and_input (constant_integer b) none_left))

abbrev yes_below : Decision
yes_below = decision true (element_of (below 1 2) none ∷ [])

abbrev no_below : Decision
no_below = decision false []

below_yes : run 1 (below 1 2) [] ≡ returns (ok yes_below) []
unfolding decide property_of has_lower_nonce_decide argument
below_yes = refl

below_no : run 1 (below 2 2) [] ≡ returns (ok no_below) []
unfolding decide property_of has_lower_nonce_decide argument
below_no = refl

abbrev formula : Formula
formula = both (lower (message 1) 2) (negated (either (lower (message 5) 5) (lower (message 7) 3)))

decide-property_for_example :
    (d : Decision) × (run 4 (property_for formula) [] ≡ returns (ok d) [])
    × (d.outcome ≡ meaning formula)
decide-property_for_example =
    decide-property_for no_hash no_witness no_store formula 4 [] (omega arith)

abbrev five_to_seven : Property
five_to_seven = q_range (and_input (constant_range (Range.new 5 7)) none_left)

-- No message has a nonce below itself.
abbrev all_inputs : PropertyInputs
all_inputs = quantifier_inputs five_to_seven (110 ∷ []) (below 2 2)

abbrev all_decision : Decision
all_decision = decision true (element_of (for_all_such_that_decider_raw all_inputs) none ∷ [])

all_decided :
    run 2 (for_all_such_that_decider_raw all_inputs) []
    ≡ returns (ok all_decision) (set_variable (110 ∷ []) (integer_item 5) [])
unfolding decide property_of has_lower_nonce_decide argument for_all_such_that_decide
    integer_range_quantified
all_decided = refl

for_all_never_false_example : all_decision.outcome ≡ true
for_all_never_false_example =
    for_all_never_false no_hash no_witness no_store 2 all_inputs []
      (set_variable (110 ∷ []) (integer_item 5) []) all_decision all_decided

abbrev some_inputs : PropertyInputs
some_inputs = quantifier_inputs five_to_seven (110 ∷ []) (below 1 2)

abbrev some_decision : Decision
some_decision =
    decision true
      (element_of (there_exists_such_that some_inputs) none ∷ element_of (below 1 2) none ∷ [])

some_decided :
    run 2 (there_exists_such_that some_inputs) []
    ≡ returns (ok some_decision) (set_variable (110 ∷ []) (integer_item 5) [])
unfolding decide property_of has_lower_nonce_decide argument there_exists_such_that_decide
    integer_range_quantified
some_decided = refl

there_exists_found_example :
    (qr : QuantifierResult) × (get_all_quantified no_hash no_witness no_store five_to_seven []
      ≡ some qr)
    × (qr.all_results_quantified ≡ true)
    × Any
        (λ (res : QuantifierResultItem).
          (u : Variables) × Says? true (run 1 (below 1 2) (set_variable (110 ∷ []) res u)))
        qr.results
there_exists_found_example =
    there_exists_found no_hash no_witness no_store 1 five_to_seven (below 1 2) (110 ∷ []) []
      (set_variable (110 ∷ []) (integer_item 5) []) some_decision some_decided refl

abbrev payment : Transaction
payment = record {
  deposit_contract_address = 1;
  range = Range.new 3 4;
  parameters = [];
  signature = [];
  metadata = record { from = 8; to = 9 };
}
