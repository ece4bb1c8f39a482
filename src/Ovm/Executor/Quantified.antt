-- ===== src/Ovm/Executor/Quantified.antt =====
-- The quantified properties (ovm/src/deciders/for_all_such_that_decider.rs and
-- there_exists_such_that_decider.rs).
use plasma_rust_framework.Prelude.{
  ℕ, zero, suc, ◌≡◌, refl, inl, inr, Bool, true, false, not, ◌||◌, Option, none, some, List, [],
  ◌∷◌, if◌then◌else◌, Bool-cases, Any,
}
use plasma_rust_framework.Prelude.Bytes.{Bytes}
use plasma_rust_framework.Prelude.Result.{Result, ok, err}
use plasma_rust_framework.Ovm.Types.{
  PropertyInputs, Property, QuantifierResultItem, QuantifierResult, Decision, ErrorKind, Variables,
  set_variable, Outcome, out_of_fuel, panics, returns, or_panic, then_result, argument, to_property,
  to_bytes,
}
use plasma_rust_framework.Ovm.Manager.{
  property_of, for_all_such_that_decider_raw, there_exists_such_that, quantifier_inputs,
}
use plasma_rust_framework.Ovm.Deciders.{
  ForAllState, by_outcome, decision, for_all_start, for_all_loop, for_all_get_decision,
  for_all_such_that_decide, there_exists_loop, there_exists_get_decision,
  there_exists_such_that_decide,
}
use plasma_rust_framework.Ovm.Executor.{decide, get_all_quantified}
use plasma_rust_framework.Ovm.Executor.Laws.{Says}

abbrev pub Says? : Bool → Outcome Decision → Type 0
Says? b (returns r v) = Says b r
Says? b out_of_fuel = ⊥
Says? b panics = ⊥

-- No call with this outcome answers no.
abbrev NeverNo : Outcome Decision → Type 0
NeverNo (returns (ok d) v) = d.outcome ≡ true
NeverNo (returns (err e) v) = Unit
NeverNo out_of_fuel = Unit
NeverNo panics = Unit

then_result_all :
    {A B : Type 0} (P : Outcome B → Type 0) (o : Outcome A)
    (f : Result A ErrorKind → Variables → Outcome B)
    → P out_of_fuel
    → P panics
    → ((r : Result A ErrorKind) (v : Variables) → o ≡ returns r v → P (f r v))
    → P (then_result o f)
then_result_all P out_of_fuel f a b c = a
then_result_all P panics f a b c = b
then_result_all P (returns r v) f a b c = c r v refl

if_all :
    {C : Type 0} (P : C → Type 0) (b : Bool) (x y : C)
    → (b ≡ true → P x)
    → (b ≡ false → P y)
    → P (if b then x else y)
if_all P true x y f g = f refl
if_all P false x y f g = g refl

by_outcome_all :
    {C : Type 0} (P : C → Type 0) (r : Result Decision ErrorKind) (f g : Decision → C) (c : C)
    → ((d : Decision) → r ≡ ok d → d.outcome ≡ true → P (f d))
    → ((d : Decision) → r ≡ ok d → d.outcome ≡ false → P (g d))
    → P c
    → P (by_outcome r f g c)
by_outcome_all P (ok d) f g c on_yes on_no on_err =
    if_all P d.outcome (f d) (g d) (on_yes d refl) (on_no d refl)
by_outcome_all P (err e) f g c on_yes on_no on_err = on_err

module _ (decide : Property → Variables → Outcome Decision) where
  loop-NeverNo :
      (name : Bytes) (p : Property) (results : List QuantifierResultItem) (st : ForAllState)
      (v : Variables) (after : ForAllState → Variables → Outcome Decision)
      → st.false_decision.outcome ≡ false
      → ((st : ForAllState) (v : Variables)
          → st.false_decision.outcome ≡ false
          → NeverNo (after st v))
      → NeverNo (for_all_loop decide name p results st v after)
  unfolding for_all_loop
  loop-NeverNo name p [] st v after h k = k st v h
  loop-NeverNo name p (res ∷ results) st v after h k =
      then_result_all NeverNo (decide p (set_variable name res v)) _ tt tt (λ r v' _.
        by_outcome_all NeverNo r _ _ _ (λ d _ _. loop-NeverNo name p results _ v' after h k)
          (λ d _ o. k _ v' o) (loop-NeverNo name p results _ v' after h k))

  exists_loop-after :
      (name : Bytes) (p : Property) (results : List QuantifierResultItem) (v : Variables)
      (after : Decision → Variables → Outcome Decision)
      → Says? true (there_exists_loop decide name p results v after)
      → (d : Decision) × (u : Variables) × Says? true (after d u)
  unfolding there_exists_loop
  exists_loop-after name p [] v after s = (decision false [], v, s)
  exists_loop-after name p (res ∷ results) v after s =
      let P : Outcome Decision → Type 0 =
        λ o. Says? true o → (d : Decision) × (u : Variables) × Says? true (after d u) in
      then_result_all P (decide p (set_variable name res v)) _ (λ t. absurd t) (λ t. absurd t)
        (λ r v' e.
          by_outcome_all P r _ _ _ (λ d _ _ t. (d, v', t))
            (λ d _ _ t. exists_loop-after name p results v' after t)
            (λ t. exists_loop-after name p results v' after t))
        s

  -- Where a loop over results calls `after` with yes, a result was found.
  exists_loop-found :
      (name : Bytes) (p : Property) (results : List QuantifierResultItem) (v : Variables)
      (after : Decision → Variables → Outcome Decision)
      → ((v : Variables) → ¬ Says? true (after (decision false []) v))
      → ((d : Decision) (v : Variables) → Says? true (after d v) → d.outcome ≡ true)
      → Says? true (there_exists_loop decide name p results v after)
      → Any
          (λ (res : QuantifierResultItem).
            (u : Variables) × Says? true (decide p (set_variable name res u)))
          results
  unfolding there_exists_loop
  exists_loop-found name p [] v after h k s = absurd (h v s)
  exists_loop-found name p (res ∷ results) v after h k s =
      let P : Outcome Decision → Type 0 = λ o.
        Says? true o
        → Any
            (λ (res : QuantifierResultItem).
              (u : Variables) × Says? true (decide p (set_variable name res u)))
            (res ∷ results) in
      then_result_all P (decide p (set_variable name res v)) _ (λ t. absurd t) (λ t. absurd t)
        (λ r v' e.
          by_outcome_all P r _ _ _ (λ d q o t. inl (v, rw (e, q) o))
            (λ d _ _ t. inr (exists_loop-found name p results v' after h k t))
            (λ t. inr (exists_loop-found name p results v' after h k t)))
        s

not-false : (b : Bool) → not b ≡ false → b ≡ true
not-false true h = refl
not-false false h = cc

false_not_true : ¬ (false ≡ true)
false_not_true h = cc

get_decision-NeverNo :
    (inputs : PropertyInputs) (d : Decision) (ds : List Decision) (b : Bool) (v : Variables)
    → d.outcome ≡ false
    → NeverNo (returns (for_all_get_decision inputs d ds b) v)
unfolding for_all_get_decision
get_decision-NeverNo inputs d ds b v h = elim (Bool-cases b) [
  | inl t ↦ rw (h, t) tt
  | inr f ↦ rw (h, f) refl
]

or_panic_all :
    {A B : Type 0} (P : Outcome B → Type 0) (o : Option A) (f : A → Outcome B)
    → P panics
    → ((a : A) → o ≡ some a → P (f a))
    → P (or_panic o f)
or_panic_all P none f a b = a
or_panic_all P (some x) f a b = b x refl

for_all-NeverNo :
    (decide : Property → Variables → Outcome Decision)
    (quantify : Property → Variables → Option QuantifierResult) (inputs : PropertyInputs)
    (v : Variables)
    → NeverNo (for_all_such_that_decide decide quantify inputs v)
unfolding for_all_such_that_decide
for_all-NeverNo decide quantify inputs v =
    or_panic_all NeverNo (argument to_property inputs 0 v) _ tt (λ q _.
      or_panic_all NeverNo (argument to_bytes inputs 1 v) _ tt (λ name _.
        or_panic_all NeverNo (argument to_property inputs 2 v) _ tt (λ p _.
          or_panic_all NeverNo (quantify q v) _ tt (λ qr _.
            loop-NeverNo decide name p qr.results for_all_start v _ refl (λ st v' h.
              get_decision-NeverNo inputs st.false_decision st.true_decisions
                (st.any_undecided || not qr.all_results_quantified) v' h)))))

get_decision-exists :
    (inputs : PropertyInputs) (d : Decision) (b : Bool)
    → Says true (there_exists_get_decision inputs d b)
    → (d.outcome ≡ true) × (b ≡ false)
unfolding there_exists_get_decision
get_decision-exists inputs d true s = absurd s
get_decision-exists inputs d false s = (s, refl)

exists-found :
    (decide : Property → Variables → Outcome Decision)
    (quantify : Property → Variables → Option QuantifierResult) (q p : Property) (name : Bytes)
    (v : Variables)
    → Says? true (there_exists_such_that_decide decide quantify (quantifier_inputs q name p) v)
    → (qr : QuantifierResult) × (quantify q v ≡ some qr)
      × (qr.all_results_quantified ≡ true)
      × Any
          (λ (res : QuantifierResultItem).
            (u : Variables) × Says? true (decide p (set_variable name res u)))
          qr.results
unfolding there_exists_such_that_decide argument
exists-found decide quantify q p name v s =
    let P : Outcome Decision → Type 0 = λ o.
      Says? true o
      → (qr : QuantifierResult) × (quantify q v ≡ some qr)
        × (qr.all_results_quantified ≡ true)
        × Any
            (λ (res : QuantifierResultItem).
              (u : Variables) × Says? true (decide p (set_variable name res u)))
            qr.results in
    or_panic_all P (quantify q v) _ (λ t. absurd t)
      (λ qr e t.
        let after : Decision → Variables → Outcome Decision = λ d u.
          returns
            (there_exists_get_decision (quantifier_inputs q name p) d
              (not qr.all_results_quantified))
            u in
        let (d, u, yes_after) = exists_loop-after decide name p qr.results v after t in
        let all : not qr.all_results_quantified ≡ false =
          (get_decision-exists (quantifier_inputs q name p) d (not qr.all_results_quantified)
            yes_after).1 in
        (
          qr,
          e,
          not-false qr.all_results_quantified all,
          exists_loop-found decide name p qr.results v after
              (λ u t. false_not_true (
                (get_decision-exists (quantifier_inputs q name p) (decision false [])
                  (not qr.all_results_quantified) t).0))
              (λ d u t.
                (get_decision-exists (quantifier_inputs q name p) d (not qr.all_results_quantified)
                  t).0)
              t,
        ))
      s

module _ (static_hash : Bytes → Bytes)
    (witnessed : ℕ → PropertyInputs → Variables → Outcome Decision)
    (stored : ℕ → PropertyInputs → Variables → Option QuantifierResult) where
  -- Where a property "for all" is decided, with any inputs, variables and fuel, the outcome is
  -- yes.
  pub for_all_never_false :
      (fuel : ℕ) (inputs : PropertyInputs) (v v' : Variables) (d : Decision)
      → decide static_hash witnessed stored fuel (for_all_such_that_decider_raw inputs) v
        ≡ returns (ok d) v'
      → d.outcome ≡ true
  unfolding decide property_of
  for_all_never_false zero inputs v v' d h = cc
  for_all_never_false (suc fuel) inputs v v' d h = rw h at (
      for_all-NeverNo (decide static_hash witnessed stored fuel)
        (get_all_quantified static_hash witnessed stored) inputs v)

  -- Where a property "there exists" is decided with yes, its quantifier gave all its results, and
  -- for one of them the property inside is decided with yes, with one unit of fuel less and under
  -- variables in which the placeholder is bound to the result.
  pub there_exists_found :
      (fuel : ℕ) (q p : Property) (name : Bytes) (v v' : Variables) (d : Decision)
      → decide static_hash witnessed stored
          (suc fuel)
          (there_exists_such_that (quantifier_inputs q name p))
          v
        ≡ returns (ok d) v'
      → d.outcome ≡ true
      → (qr : QuantifierResult) × (get_all_quantified static_hash witnessed stored q v ≡ some qr)
        × (qr.all_results_quantified ≡ true)
        × Any
            (λ (res : QuantifierResultItem).
              (u : Variables) × Says? true
                (decide static_hash witnessed stored fuel p (set_variable name res u)))
            qr.results
  unfolding decide property_of
  there_exists_found fuel q p name v v' d h o =
      exists-found (decide static_hash witnessed stored fuel)
        (get_all_quantified static_hash witnessed stored) q p name v (rw h o)
