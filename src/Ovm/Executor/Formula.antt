-- ===== src/Ovm/Executor/Formula.antt =====
-- The executor on properties that are built from comparisons of nonces by the connectives: it
-- decides them, and right, with fuel for their depth.
use plasma_rust_framework.Prelude.{
  ℕ, zero, suc, ◌≤◌, max, ◌≡◌, refl, sym, ap, ap₂, ◌∙◌, ◌↔◌, ◌⊎◌, inl, inr, Bool, true, false, not,
  ◌&&◌, ◌||◌, Option, none, [], ◌∷◌, arith, ltb, Bool-cases,
}
use plasma_rust_framework.Prelude.Bytes.{Bytes}
use plasma_rust_framework.Prelude.Result.{Result, ok, err}
use plasma_rust_framework.Ovm.Types.{
  PropertyInputs, Property, ErrorKind, Decision, QuantifierResult, Variables, Outcome, returns,
  argument, constant_message, constant_integer, and_input, none_left, Message,
}
use plasma_rust_framework.Ovm.Manager.{
  property_of, and_decider, or_decider, not_decider, has_lower_nonce_decider,
}
use plasma_rust_framework.Ovm.Deciders.{has_lower_nonce_decide, decision, element_of}
use plasma_rust_framework.Ovm.Executor.{decide}
use plasma_rust_framework.Ovm.Executor.Laws.{Says, and_decider_lem, or_decider_lem, not_decider_lem}

pub data Formula : Type 0 where
  lower : Message → ℕ → Formula
  both : Formula → Formula → Formula
  either : Formula → Formula → Formula
  negated : Formula → Formula

-- The property that states a formula, by the constructors of `DeciderManager`.
unfoldable pub property_for : Formula → Property
unfolding property_of
property_for (lower message nonce) =
    has_lower_nonce_decider
      (and_input (constant_message message) (and_input (constant_integer nonce) none_left))
property_for (both f g) = and_decider (property_for f) (property_for g)
property_for (either f g) = or_decider (property_for f) (property_for g)
property_for (negated f) = not_decider (property_for f)

-- What a formula means.
abbrev pub meaning : Formula → Bool
meaning (lower message nonce) = ltb message.nonce nonce
meaning (both f g) = meaning f && meaning g
meaning (either f g) = meaning f || meaning g
meaning (negated f) = not (meaning f)

abbrev pub depth : Formula → ℕ
depth (lower message nonce) = 1
depth (both f g) = suc (max (depth f) (depth g))
depth (either f g) = suc (max (depth f) (depth g))
depth (negated f) = suc (depth f)

depth_pos : (f : Formula) → ¬ (depth f ≤ 0)
depth_pos (lower message nonce) h = absurd (omega arith)
depth_pos (both f g) h = absurd (omega arith)
depth_pos (either f g) h = absurd (omega arith)
depth_pos (negated f) h = absurd (omega arith)

decided :
    (r : Result Decision ErrorKind) (x y : Bool)
    → (Says true r ↔ ((x ≡ true) ⊎ (y ≡ true)))
    → (Says false r ↔ ((x ≡ false) × (y ≡ false)))
    → (d : Decision) × (r ≡ ok d) × (d.outcome ≡ (x || y))
decided (ok d) true y p q = (d, refl, p.1 (inl refl))
decided (ok d) false true p q = (d, refl, p.1 (inr refl))
decided (ok d) false false p q = (d, refl, q.1 (refl, refl))
decided (err e) true y p q = absurd (p.1 (inl refl))
decided (err e) false true p q = absurd (p.1 (inr refl))
decided (err e) false false p q = absurd (q.1 (refl, refl))

module _ (static_hash : Bytes → Bytes)
    (witnessed : ℕ → PropertyInputs → Variables → Outcome Decision)
    (stored : ℕ → PropertyInputs → Variables → Option QuantifierResult) where
  lower_lem :
      (message : Message) (nonce fuel : ℕ) (v : Variables)
      → (d : Decision) × (decide static_hash witnessed stored
            (suc fuel)
            (property_for (lower message nonce))
            v
          ≡ returns (ok d) v)
        × (d.outcome ≡ ltb message.nonce nonce)
  unfolding decide property_for has_lower_nonce_decide argument
  lower_lem message nonce fuel v = elim (Bool-cases (ltb message.nonce nonce)) [
    | inl t ↦ (
      decision true (element_of (property_for (lower message nonce)) none ∷ []),
      rw t refl,
      sym t,
    )
    | inr f ↦ (decision false [], rw f refl, sym f)
  ]

  -- With fuel for the depth of a formula, the executor decides the property for it, leaves the variables as
  -- they were, and the outcome is what the formula means.
  pub decide-property_for :
      (f : Formula) (fuel : ℕ) (v : Variables)
      → depth f ≤ fuel
      → (d : Decision) × (decide static_hash witnessed stored fuel (property_for f) v
          ≡ returns (ok d) v)
        × (d.outcome ≡ meaning f)
  unfolding property_for
  decide-property_for f zero v h = absurd (depth_pos f h)
  decide-property_for (lower message nonce) (suc fuel) v h = lower_lem message nonce fuel v
  decide-property_for (both f g) (suc fuel) v h =
      let (a, e, o) = decide-property_for f fuel v (omega arith) in
      let (b, e', o') = decide-property_for g fuel v (omega arith) in
      let (d, k, m) =
        and_decider_lem static_hash witnessed stored fuel (property_for f) (property_for g) v v v a
          b e e' in
      (d, k, m ∙ ap₂ (λ (x y : Bool). x && y) o o')
  decide-property_for (either f g) (suc fuel) v h =
      let (a, e, o) = decide-property_for f fuel v (omega arith) in
      let (b, e', o') = decide-property_for g fuel v (omega arith) in
      let (r, k, m, n) =
        or_decider_lem static_hash witnessed stored fuel (property_for f) (property_for g) v v v
          (ok a) (ok b) e e' in
      let (d, same, out) = decided r a.outcome b.outcome m n in
      (
        d,
        k ∙ ap (λ (t : Result Decision ErrorKind). returns t v) same,
        out ∙ ap₂ (λ (x y : Bool). x || y) o o',
      )
  decide-property_for (negated f) (suc fuel) v h =
      let (a, e, o) = decide-property_for f fuel v (omega arith) in
      let (d, k, m) = not_decider_lem static_hash witnessed stored fuel (property_for f) v v a e in
      (d, k, m ∙ ap not o)
