-- ===== src/Ovm/Executor.antt =====
-- ovm/src/property_executor.rs: the executor, which dispatches on the address of a property. The
-- deciders and quantifiers that read the witness databases (those at 2, 5, 7, 9 and 22, 23, 25,
-- 26 of the list) enter as the parameters `witnessed` and `stored`, of any behaviour.
pub mod Laws
pub mod Formula
pub mod Quantified
use plasma_rust_framework.Prelude.{
  ℕ, zero, suc, ◌+◌, ◌&&◌, Option, none, some, List, [], ◌∷◌, leb, ◌==◌, if◌then◌else◌,
}
use plasma_rust_framework.Prelude.Bytes.{Bytes}
use plasma_rust_framework.Ovm.Types.{
  PropertyInputs, Property, property, Decision, QuantifierResult, Variables, Outcome, out_of_fuel,
  panics, or_panic,
}
use plasma_rust_framework.Ovm.Manager.{decider_list}
use plasma_rust_framework.Ovm.Deciders.{
  and_decide, not_decide, or_decide, for_all_such_that_decide, there_exists_such_that_decide,
  has_lower_nonce_decide, is_deprecated_decide,
}
use plasma_rust_framework.Ovm.Quantifiers.{
  integer_range_quantified, less_than_quantified, hash_quantified, state_update_quantified,
}

-- The first place of an address in the list, counted from `i`.
unfoldable pub index_of : ℕ → List ℕ → ℕ → Option ℕ
index_of id [] i = none
index_of id (address ∷ list) i =
    let next = index_of id list (i + 1) in if id == address then some i else next

module _ (static_hash : Bytes → Bytes)
    (witnessed : ℕ → PropertyInputs → Variables → Outcome Decision)
    (stored : ℕ → PropertyInputs → Variables → Option QuantifierResult) where
  abbrev pub quantify : ℕ → PropertyInputs → Variables → Option QuantifierResult
  quantify i inputs variables =
      if i == 20
      then integer_range_quantified inputs variables
      else if i == 21
      then less_than_quantified inputs variables
      else if i == 24
      then hash_quantified static_hash inputs variables
      else if i == 27
      then state_update_quantified inputs variables
      else if leb 22 i && leb i 26
      then stored i inputs variables
      else none

  unfoldable pub get_all_quantified : Property → Variables → Option QuantifierResult
  unfolding index_of
  get_all_quantified (property id inputs) variables = elim (index_of id decider_list 0) [
    | none ↦ none
    | some i ↦ quantify i inputs variables
  ]

  -- The calls of the deciders, with the executor's `decide` for the properties inside.
  abbrev pub dispatch :
      (Property → Variables → Outcome Decision) → ℕ → PropertyInputs → Variables → Outcome Decision
  dispatch decide i inputs variables =
      if i == 0
      then and_decide decide inputs variables
      else if i == 1
      then not_decide decide inputs variables
      else if i == 3
      then for_all_such_that_decide decide get_all_quantified inputs variables
      else if i == 4
      then or_decide decide inputs variables
      else if i == 6
      then has_lower_nonce_decide inputs variables
      else if i == 8
      then is_deprecated_decide decide inputs variables
      else if i == 10
      then there_exists_such_that_decide decide get_all_quantified inputs variables
      else if leb i 9
      then witnessed i inputs variables
      else panics

  -- The fuel bounds the depth of properties inside properties. A property may name a variable that holds
  -- the property itself, so no bound is enough for all.
  unfoldable pub decide : ℕ → Property → Variables → Outcome Decision
  unfolding index_of get_all_quantified
  decide zero p variables = out_of_fuel
  decide (suc fuel) (property id inputs) variables =
      or_panic (index_of id decider_list 0) (λ i. dispatch (decide fuel) i inputs variables)
