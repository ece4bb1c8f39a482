-- ===== src/Ovm/Deciders.antt =====
-- ovm/src/deciders: the deciders that combine properties, `HasLowerNonceDecider` and
-- `IsDeprecatedDecider`. A decider takes the executor's own `decide` and `get_all_quantified` as
-- arguments, where the code calls them on the executor.
use plasma_rust_framework.Prelude.{
  Bool, true, false, not, ◌&&◌, ◌||◌, Option, none, List, [], ◌∷◌, ◌++◌, ltb, if◌then◌else◌,
}
use plasma_rust_framework.Prelude.Bytes.{Bytes}
use plasma_rust_framework.Prelude.Result.{Result, ok, err}
use plasma_rust_framework.Ovm.Manager.{
  property_of, not_decider, for_all_such_that_decider_raw, has_lower_nonce_decider,
  there_exists_such_that,
}
use plasma_rust_framework.Ovm.Types.{
  PropertyInputs, Property, QuantifierResultItem, to_bytes, to_integer, to_property, to_message,
  to_state_update, get_property, ErrorKind, undecided, cannot_decide, ImplicationProofElement,
  Decision, QuantifierResult, Variables, set_variable, Outcome, panics, returns, or_panic,
  then_result, then_ok, argument,
}

abbrev pub element_of : Property → Option Bytes → ImplicationProofElement
element_of implication witness = record { implication = implication; implication_witness = witness }

abbrev pub decision : Bool → List ImplicationProofElement → Decision
decision outcome proof = record { outcome = outcome; implication_proof = proof }

-- A decision with yes, with no, or an error.
abbrev pub by_outcome :
    {C : Type 0} → Result Decision ErrorKind → (Decision → C) → (Decision → C) → C → C
by_outcome (ok d) on_yes on_no on_err = if d.outcome then on_yes d else on_no d
by_outcome (err e) on_yes on_no on_err = on_err

unfoldable pub has_lower_nonce_decide : PropertyInputs → Variables → Outcome Decision
unfolding property_of
has_lower_nonce_decide inputs variables =
    or_panic (argument to_message inputs 0 variables) (λ message.
      or_panic (argument to_integer inputs 1 variables) (λ nonce.
        if ltb message.nonce nonce
        then returns (ok (decision true (element_of (has_lower_nonce_decider inputs) none ∷ [])))
            variables
        else returns (ok (decision false [])) variables))

-- The tests of `OrDecider` once both sides have been decided.
abbrev pub or_result :
    Result Decision ErrorKind → Result Decision ErrorKind → Result Decision ErrorKind
or_result (ok l) (ok r) =
    if l.outcome
    then ok l
    else if r.outcome
    then ok r
    else ok (decision false (l.implication_proof ++ r.implication_proof))
or_result (ok l) (err e) = if l.outcome then ok l else err cannot_decide
or_result (err e) (ok r) = if r.outcome then ok r else err cannot_decide
or_result (err e) (err e') = err cannot_decide

-- `any_undecided`, `false_decision` and `true_decisions` of the loop.
pub record ForAllState : Type 0 where
  pub any_undecided : Bool
  pub false_decision : Decision
  pub true_decisions : List Decision

-- `justification.extend` for each decision.
abbrev pub proofs_of : List Decision → List ImplicationProofElement
proofs_of [] = []
proofs_of (d ∷ decisions) = d.implication_proof ++ proofs_of decisions

-- `get_decision` of `ForAllSuchThatDecider`
unfoldable pub for_all_get_decision :
    PropertyInputs → Decision → List Decision → Bool → Result Decision ErrorKind
unfolding property_of
for_all_get_decision inputs false_decision true_decisions is_undecided =
    if not false_decision.outcome && is_undecided
    then err undecided
    else ok (
        decision (not false_decision.outcome) (
          element_of (for_all_such_that_decider_raw inputs) none
          ∷ (if false_decision.outcome
              then false_decision.implication_proof
              else proofs_of true_decisions)))

abbrev pub for_all_start : ForAllState
for_all_start = record {
  any_undecided = false;
  false_decision = decision false [];
  true_decisions = [];
}

-- `get_decision` of `ThereExistsSuchThatDecider`
unfoldable pub there_exists_get_decision :
    PropertyInputs → Decision → Bool → Result Decision ErrorKind
unfolding property_of
there_exists_get_decision inputs true_decision is_undecided =
    if is_undecided
    then err undecided
    else ok (
        decision true_decision.outcome (
          element_of (there_exists_such_that inputs) none
          ∷ (if true_decision.outcome then true_decision.implication_proof else [])))

module _ (decide : Property → Variables → Outcome Decision) where
  unfoldable pub and_decide : PropertyInputs → Variables → Outcome Decision
  and_decide inputs variables = or_panic (argument to_property inputs 0 variables) (λ left.
      or_panic (argument to_property inputs 1 variables) (λ right.
        then_ok (decide left variables) (λ left_decision variables'.
          then_ok (decide right variables') (λ right_decision variables''.
            if not left_decision.outcome
            then returns (ok left_decision) variables''
            else if not right_decision.outcome
            then returns (ok right_decision) variables''
            else returns
                (ok (
                  decision true
                    (left_decision.implication_proof ++ right_decision.implication_proof)))
                variables''))))

  unfoldable pub or_decide : PropertyInputs → Variables → Outcome Decision
  or_decide inputs variables = or_panic (argument to_property inputs 0 variables) (λ left.
      or_panic (argument to_property inputs 1 variables) (λ right.
        then_result (decide left variables) (λ left_decision variables'.
          then_result (decide right variables') (λ right_decision variables''.
            returns (or_result left_decision right_decision) variables''))))

  unfoldable pub not_decide : PropertyInputs → Variables → Outcome Decision
  unfolding property_of
  not_decide inputs variables = or_panic (argument to_property inputs 0 variables) (λ p.
      then_ok (decide p variables) (λ d variables'.
        returns
          (ok (decision (not d.outcome) (element_of (not_decider p) none ∷ d.implication_proof)))
          variables'))

  -- `assert!` panics.
  unfoldable pub is_deprecated_decide : PropertyInputs → Variables → Outcome Decision
  is_deprecated_decide inputs variables =
      or_panic (argument to_state_update inputs 0 variables) (λ update.
        then_result (decide (get_property update) variables) (λ decided variables'. elim decided [
          | ok _ ↦ returns (ok (decision true [])) variables'
          | err _ ↦ panics
        ]))

  unfoldable pub for_all_loop :
      Bytes
      → Property
      → List QuantifierResultItem
      → ForAllState
      → Variables
      → (ForAllState → Variables → Outcome Decision)
      → Outcome Decision
  for_all_loop name p [] st variables after = after st variables
  for_all_loop name p (res ∷ results) st variables after =
      then_result (decide p (set_variable name res variables)) (λ decision_result variables'.
        by_outcome decision_result
          (λ d.
            for_all_loop name p results
              (record {
                any_undecided = st.any_undecided;
                false_decision = st.false_decision;
                true_decisions = st.true_decisions ++ d ∷ [];
              })
              variables' after)
          (λ d.
            after
              (record {
                any_undecided = st.any_undecided;
                false_decision = d;
                true_decisions = st.true_decisions;
              })
              variables')
          (for_all_loop name p results
            (record {
              any_undecided = true;
              false_decision = st.false_decision;
              true_decisions = st.true_decisions;
            })
            variables' after))

  unfoldable pub for_all_such_that_decide :
      (Property → Variables → Option QuantifierResult)
      → PropertyInputs
      → Variables
      → Outcome Decision
  unfolding for_all_loop for_all_get_decision
  for_all_such_that_decide get_all_quantified inputs variables =
      or_panic (argument to_property inputs 0 variables) (λ quantifier.
        or_panic (argument to_bytes inputs 1 variables) (λ name.
          or_panic (argument to_property inputs 2 variables) (λ p.
            or_panic (get_all_quantified quantifier variables) (λ quantifier_result.
              for_all_loop name p quantifier_result.results for_all_start variables
                (λ st variables'.
                  returns
                    (for_all_get_decision inputs st.false_decision st.true_decisions
                      (st.any_undecided || not quantifier_result.all_results_quantified))
                    variables')))))

  unfoldable pub there_exists_loop :
      Bytes
      → Property
      → List QuantifierResultItem
      → Variables
      → (Decision → Variables → Outcome Decision)
      → Outcome Decision
  there_exists_loop name p [] variables after = after (decision false []) variables
  there_exists_loop name p (res ∷ results) variables after =
      then_result (decide p (set_variable name res variables)) (λ decision_result variables'.
        by_outcome decision_result (λ d. after d variables')
          (λ d. there_exists_loop name p results variables' after)
          (there_exists_loop name p results variables' after))

  unfoldable pub there_exists_such_that_decide :
      (Property → Variables → Option QuantifierResult)
      → PropertyInputs
      → Variables
      → Outcome Decision
  unfolding there_exists_loop there_exists_get_decision
  there_exists_such_that_decide get_all_quantified inputs variables =
      or_panic (argument to_property inputs 0 variables) (λ quantifier.
        or_panic (argument to_bytes inputs 1 variables) (λ name.
          or_panic (argument to_property inputs 2 variables) (λ p.
            or_panic (get_all_quantified quantifier variables) (λ quantifier_result.
              there_exists_loop name p quantifier_result.results variables
                (λ true_decision variables'.
                  returns
                    (there_exists_get_decision inputs true_decision
                      (not quantifier_result.all_results_quantified))
                    variables')))))
