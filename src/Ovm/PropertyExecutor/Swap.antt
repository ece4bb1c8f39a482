-- ===== src/Ovm/PropertyExecutor/Swap.antt =====
-- The second side of the disjunction in ovm/src/statements/plasma/atomic_state.rs.
use plasma_rust_framework.Prelude.{
  ℕ, zero, suc, ◌≡◌, refl, sym, ap, ◌∙◌, true, false, not, none, ◌∷◌, ◌++◌, arith, if◌then◌else◌,
}
use plasma_rust_framework.Prelude.Result.{ok, err}
use plasma_rust_framework.Db.Kvs.{KeyValueStore}
use plasma_rust_framework.Ovm.Types.{
  Property, Decision, Variables, Outcome, out_of_fuel, panics, returns, then_ok, argument,
}
use plasma_rust_framework.Ovm.Manager.{property_of, not_decider, and_decider}
use plasma_rust_framework.Ovm.Deciders.{decision, element_of, and_decide, not_decide}
use plasma_rust_framework.Ovm.Executor
use plasma_rust_framework.Ovm.External.{External}
use plasma_rust_framework.Ovm.Statements.{included}
use plasma_rust_framework.Ovm.PropertyExecutor.{decide}
use plasma_rust_framework.Ovm.PropertyExecutor.Sound.{included_yes, out_of_fuel_returns}

-- Each decision of an outcome says no.
abbrev Denies : Outcome Decision → Type 0
Denies o = (d : Decision) (v : Variables) → o ≡ returns (ok d) v → d.outcome ≡ false

abbrev Affirms : Outcome Decision → Type 0
Affirms o = (d : Decision) (v : Variables) → o ≡ returns (ok d) v → d.outcome ≡ true

ok_inj : {v v' : Variables} (a b : Decision) → returns (ok a) v ≡ returns (ok b) v' → a ≡ b
ok_inj a b h = cc

not-Denies :
    (o : Outcome Decision) (proof : Decision → Decision)
    → ((d : Decision) → (proof d).outcome ≡ not d.outcome)
    → Affirms o
    → Denies (then_ok o (λ d v. returns (ok (proof d)) v))
not-Denies out_of_fuel proof same a d v h = absurd (out_of_fuel_returns (ok d) v h)
not-Denies panics proof same a d v h = ground arith
not-Denies (returns (err e) w) proof same a d v h = ground arith
not-Denies (returns (ok c) w) proof same a d v h =
    ap (λ (x : Decision). x.outcome) (sym (ok_inj (proof c) d h)) ∙ same c ∙ ap not (a c w refl)

-- The tests of the conjunction.
abbrev both : Decision → Decision → Variables → Outcome Decision
both l r v =
    if not l.outcome
    then returns (ok l) v
    else if not r.outcome
    then returns (ok r) v
    else returns (ok (decision true (l.implication_proof ++ r.implication_proof))) v

both-Denies : (l r : Decision) (v : Variables) → l.outcome ≡ false → Denies (both l r v)
both-Denies l r v no_left d w h = ground (arith, no_left)

right-Denies :
    (o : Outcome Decision) (l : Decision)
    → l.outcome ≡ false
    → Denies (then_ok o (λ r v. both l r v))
right-Denies out_of_fuel l n d v h = absurd (out_of_fuel_returns (ok d) v h)
right-Denies panics l n d v h = ground arith
right-Denies (returns (err e) w) l n d v h = ground arith
right-Denies (returns (ok r) w) l n d v h = both-Denies l r w n d v h

and-Denies :
    (o : Outcome Decision) (right : Variables → Outcome Decision)
    → Denies o
    → Denies (then_ok o (λ l v. then_ok (right v) (λ r v'. both l r v')))
and-Denies out_of_fuel right n d v h = absurd (out_of_fuel_returns (ok d) v h)
and-Denies panics right n d v h = ground arith
and-Denies (returns (err e) w) right n d v h = ground arith
and-Denies (returns (ok l) w) right n d v h = right-Denies (right w) l (n l w refl) d v h

module _ {S : Type 0} (ext : External) (db range_db : KeyValueStore S) (s r : S) where
  not_included-Denies :
      (fuel : ℕ) (block_number : ℕ) (v : Variables)
      → Denies (decide ext db range_db s r fuel (not_decider (included block_number)) v)
  unfolding Executor.decide property_of not_decide argument
  not_included-Denies zero block_number v d w h = absurd (out_of_fuel_returns (ok d) w h)
  not_included-Denies (suc fuel) block_number v d w h =
      not-Denies (decide ext db range_db s r fuel (included block_number) v)
        (λ d.
          decision (not d.outcome)
            (element_of (not_decider (included block_number)) none ∷ d.implication_proof))
        (λ d. refl) (λ d w. included_yes ext db range_db s r fuel _ v w d) d w h

  -- No decision of "not included at the block, and p" says yes, whatever p is and whatever the stores hold.
  pub not_included_never_true :
      (fuel : ℕ) (block_number : ℕ) (p : Property) (v v' : Variables) (d : Decision)
      → decide ext db range_db s r fuel (and_decider (not_decider (included block_number)) p) v
        ≡ returns (ok d) v'
      → d.outcome ≡ false
  unfolding Executor.decide property_of and_decide argument
  not_included_never_true zero block_number p v v' d h = absurd (out_of_fuel_returns (ok d) v' h)
  not_included_never_true (suc fuel) block_number p v v' d h =
      and-Denies (decide ext db range_db s r fuel (not_decider (included block_number)) v)
        (λ w. decide ext db range_db s r fuel p w) (not_included-Denies fuel block_number v) d v' h
