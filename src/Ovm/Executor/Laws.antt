-- ===== src/Ovm/Executor/Laws.antt =====
-- What the executor answers for the connectives, from its answers for their parts.
use plasma_rust_framework.Prelude.{
  ℕ, suc, ◌≡◌, refl, ◌↔◌, ◌⊎◌, inl, inr, Bool, true, false, not, ◌&&◌, Option, none, ◌∷◌, ◌++◌,
  arith, if◌then◌else◌, Bool-cases,
}
use plasma_rust_framework.Prelude.Bytes.{Bytes}
use plasma_rust_framework.Prelude.Result.{Result, ok, err}
use plasma_rust_framework.Ovm.Types.{
  PropertyInputs, Property, Decision, ErrorKind, QuantifierResult, Variables, Outcome, returns,
  argument,
}
use plasma_rust_framework.Ovm.Manager.{property_of, and_decider, or_decider, not_decider}
use plasma_rust_framework.Ovm.Deciders.{
  decision, element_of, and_decide, or_decide, not_decide, or_result,
}
use plasma_rust_framework.Ovm.Executor.{decide}

-- The result is a decision with this outcome.
abbrev pub Says : Bool → Result Decision ErrorKind → Type 0
Says b (ok d) = d.outcome ≡ b
Says b (err e) = ⊥

or_result_lem :
    (l r : Result Decision ErrorKind)
    → (Says true (or_result l r) ↔ (Says true l ⊎ Says true r))
      × (Says false (or_result l r) ↔ (Says false l × Says false r))
or_result_lem (ok l) (ok r) = ground arith
or_result_lem (ok l) (err e) = ground arith
or_result_lem (err e) (ok r) = ground arith
or_result_lem (err e) (err e') = ground arith

and_cases :
    (a b : Decision) (v : Variables)
    → (d : Decision) × ((if not a.outcome
          then returns (ok a) v
          else if not b.outcome
          then returns (ok b) v
          else returns (ok (decision true (a.implication_proof ++ b.implication_proof))) v)
        ≡ returns (ok d) v)
      × (d.outcome ≡ (a.outcome && b.outcome))
and_cases a b v = elim (Bool-cases a.outcome) [
  | inr f ↦ (a, ground (arith, f), ground (arith, f))
  | inl t ↦ elim (Bool-cases b.outcome) [
    | inr g ↦ (b, ground (arith, t, g), ground (arith, t, g))
    | inl u ↦ (
      decision true (a.implication_proof ++ b.implication_proof),
      ground (arith, t, u),
      ground (arith, t, u),
    )
  ]
]

module _ (static_hash : Bytes → Bytes)
    (witnessed : ℕ → PropertyInputs → Variables → Outcome Decision)
    (stored : ℕ → PropertyInputs → Variables → Option QuantifierResult) where
  -- Where the left and then the right property are decided, their conjunction is decided with one
  -- more unit of fuel, with the conjunction of the outcomes.
  pub and_decider_lem :
      (fuel : ℕ) (l r : Property) (v v1 v2 : Variables) (a b : Decision)
      → decide static_hash witnessed stored fuel l v ≡ returns (ok a) v1
      → decide static_hash witnessed stored fuel r v1 ≡ returns (ok b) v2
      → (d : Decision) × (decide static_hash witnessed stored (suc fuel) (and_decider l r) v
          ≡ returns (ok d) v2)
        × (d.outcome ≡ (a.outcome && b.outcome))
  unfolding decide property_of and_decide argument
  and_decider_lem fuel l r v v1 v2 a b h k = let (d, e, o) = and_cases a b v2 in (d, rw (h, k) e, o)

  -- Where the calls for the left and then for the right property return, errors included, so does
  -- the one for their disjunction, with one more unit of fuel. It says yes exactly if one of them
  -- says yes, and no exactly if both say no.
  pub or_decider_lem :
      (fuel : ℕ) (l r : Property) (v v1 v2 : Variables) (a b : Result Decision ErrorKind)
      → decide static_hash witnessed stored fuel l v ≡ returns a v1
      → decide static_hash witnessed stored fuel r v1 ≡ returns b v2
      → (d : Result Decision ErrorKind) × (decide static_hash witnessed stored
            (suc fuel)
            (or_decider l r)
            v
          ≡ returns d v2)
        × (Says true d ↔ (Says true a ⊎ Says true b))
        × (Says false d ↔ (Says false a × Says false b))
  unfolding decide property_of or_decide argument
  or_decider_lem fuel l r v v1 v2 a b h k =
      let (said, denied) = or_result_lem a b in (or_result a b, rw (h, k) refl, said, denied)

  -- Where a property is decided, so is its negation, with one more unit of fuel and the other
  -- outcome.
  pub not_decider_lem :
      (fuel : ℕ) (p : Property) (v v1 : Variables) (a : Decision)
      → decide static_hash witnessed stored fuel p v ≡ returns (ok a) v1
      → (d : Decision) × (decide static_hash witnessed stored (suc fuel) (not_decider p) v
          ≡ returns (ok d) v1)
        × (d.outcome ≡ not a.outcome)
  unfolding decide property_of not_decide argument
  not_decider_lem fuel p v v1 a h = (
    decision (not a.outcome) (element_of (not_decider p) none ∷ a.implication_proof),
    rw h refl,
    refl,
  )
