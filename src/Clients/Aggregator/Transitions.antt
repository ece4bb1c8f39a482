-- ===== src/Clients/Aggregator/Transitions.antt =====
-- The loop over the previous states in `ingest_transaction` (clients/src/plasma/plasma_aggregator.rs).
use plasma_rust_framework.Prelude.{
  ℕ, ◌≡◌, refl, sym, subst, Option, none, some, List, [], ◌∷◌, arith, All,
}
use plasma_rust_framework.Prelude.Result.{Result, ok, err}
use plasma_rust_framework.PlasmaCore.Transaction.{Transaction}
use plasma_rust_framework.Db.Kvs.{KeyValueStore}
use plasma_rust_framework.Ovm.Types.{
  StateUpdate, Property, state_update_item, get_property, Decision, Variables, set_variable,
  Outcome,
}
use plasma_rust_framework.Ovm.Statements.{state_update_name}
use plasma_rust_framework.Ovm.PropertyExecutor.{decide}
use plasma_rust_framework.Clients.StateTransition.{
  execute_state_transition, verify_state_transition, verified, next_state, is_ok,
}
use plasma_rust_framework.Ovm.External.{External}
use plasma_rust_framework.Clients.Types
use plasma_rust_framework.Clients.Types.{
  answered, ErrorKind, invalid_transaction, NewTransactionEvent, Codecs, Call, returns, panics,
  out_of_fuel, or_panic, then_ok,
}
use plasma_rust_framework.Clients.StateDb.{put_verified_state_update}
use plasma_rust_framework.Clients.BlockManager
use plasma_rust_framework.Clients.BlockManager.{BlockManager}
use plasma_rust_framework.Clients.Aggregator.{
  PlasmaAggregator, converted, transitions, transitioned, at_manager, at_range_db, store_next_state,
}

pub then_ok_inv :
    {A B E S : Type 0} (c : Call (Result A E × S)) (f : A → S → Call (Result B E × S)) (b : B)
    (s' : S)
    → then_ok c f ≡ returns (ok b, s')
    → (a : A) × (s : S) × (c ≡ returns (ok a, s)) × (f a s ≡ returns (ok b, s'))
then_ok_inv out_of_fuel f b s' h = cc
then_ok_inv panics f b s' h = cc
then_ok_inv (returns (err e, s)) f b s' h = cc
then_ok_inv (returns (ok a, s)) f b s' h = (a, s, refl, h)

pub or_panic_inv :
    {A B : Type 0} (o : Option A) (f : A → Call B) (b : B)
    → or_panic o f ≡ returns b
    → (a : A) × (o ≡ some a) × (f a ≡ returns b)
or_panic_inv none f b h = cc
or_panic_inv (some a) f b h = (a, refl, h)

pub event_inj :
    {S : Type 0} (x y : NewTransactionEvent) (s s' : S)
    → ◌≡◌ {A = Call (Result NewTransactionEvent ErrorKind × S)}
        (returns (ok x, s))
        (returns (ok y, s'))
    → (x ≡ y) × (s ≡ s')
event_inj x y s s' h = (cc, cc)

All-in_state :
    {S : Type 0} (s s' : S) (P : S → StateUpdate → Type 0) (us : List StateUpdate)
    → s ≡ s'
    → All (P s) us
    → All (P s') us
All-in_state s s' P us e a = subst (λ t. All (P t) us) e a

module _ {S : Type 0} (ext : External) (codecs : Codecs) (kvs : KeyValueStore S) where
  -- The executor over the store `s` decides the state object of a state update in some state of the range database.
  pub record Decided (fuel : ℕ) (s : S) (prev_state : StateUpdate) : Type 0 where
    pub range_db : S
    pub before : Variables
    pub after : Variables
    pub decision : Decision
    pub decided :
        decide ext kvs kvs s range_db fuel
          (get_property prev_state)
          (set_variable state_update_name (state_update_item prev_state) before)
        ≡ Outcome.returns (ok decision) after

  -- A call that returns leaves the executor's store in the state `s`.
  abbrev KeepsDb : {R : Type 0} → S → Call (R × PlasmaAggregator S) → Type 0
  KeepsDb s out_of_fuel = Unit
  KeepsDb s panics = Unit
  KeepsDb s (returns (r, self)) = self.db ≡ s

  at_manager-KeepsDb :
      {A : Type 0} (self : PlasmaAggregator S) (o : Option (Result A ErrorKind × BlockManager S))
      → KeepsDb self.db (at_manager ext codecs kvs self o)
  at_manager-KeepsDb self none = tt
  at_manager-KeepsDb self (some (r, manager)) = refl

  at_range_db-KeepsDb :
      {A : Type 0} (self : PlasmaAggregator S) (o : Option (Result A ErrorKind × S))
      → KeepsDb self.db (at_range_db ext codecs kvs self o)
  at_range_db-KeepsDb self none = tt
  at_range_db-KeepsDb self (some (r, range_db)) = refl

  then_ok-KeepsDb :
      {A B E : Type 0} (s : S) (c : Call (Result A E × PlasmaAggregator S))
      (f : A → PlasmaAggregator S → Call (Result B E × PlasmaAggregator S))
      → KeepsDb s c
      → ((a : A) (self : PlasmaAggregator S) → self.db ≡ s → KeepsDb s (f a self))
      → KeepsDb s (then_ok c f)
  then_ok-KeepsDb s out_of_fuel f k g = tt
  then_ok-KeepsDb s panics f k g = tt
  then_ok-KeepsDb s (returns (err e, self)) f k g = k
  then_ok-KeepsDb s (returns (ok a, self)) f k g = g a self k

  store_next_state-KeepsDb :
      (next : StateUpdate) (self : PlasmaAggregator S)
      → KeepsDb self.db (store_next_state ext codecs kvs next self)
  unfolding store_next_state
  store_next_state-KeepsDb next self =
      then_ok-KeepsDb self.db
        (at_manager ext codecs kvs self
          (BlockManager.enqueue_state_update ext codecs kvs next self.block_manager))
        (λ _ self'.
          at_range_db ext codecs kvs self'
            (converted (put_verified_state_update ext kvs next self'.range_db)))
        (at_manager-KeepsDb self
          (BlockManager.enqueue_state_update ext codecs kvs next self.block_manager))
        (λ _ self' e.
          subst
            (λ s. KeepsDb s (
              at_range_db ext codecs kvs self'
                (converted (put_verified_state_update ext kvs next self'.range_db))))
            e
            (at_range_db-KeepsDb self'
              (converted (put_verified_state_update ext kvs next self'.range_db))))

  -- A transition that succeeds has decided the state object, and keeps the executor's store.
  transitioned_inv :
      (fuel n : ℕ) (transaction : Transaction) (prev_state : StateUpdate)
      (self self' : PlasmaAggregator S) (o : Option Property) (c : Outcome Decision)
      → c
        ≡ decide ext kvs kvs self.db self.range_db fuel
            (get_property prev_state)
            (set_variable state_update_name (state_update_item prev_state) self.variables)
      → transitioned ext codecs kvs self (
          Types.or_panic o (λ p.
            verified ext codecs.property_from_abi kvs kvs self.db self.range_db
              (next_state transaction n p)
              (answered c (λ decided variables'. returns (is_ok decided, variables')))))
        ≡ returns (ok tt, self')
      → Decided fuel self.db prev_state × (self'.db ≡ self.db)
  transitioned_inv fuel n transaction prev_state self self' none c e h = cc
  transitioned_inv fuel n transaction prev_state self self' (some p) Outcome.out_of_fuel e h = cc
  transitioned_inv fuel n transaction prev_state self self' (some p) Outcome.panics e h = cc
  transitioned_inv fuel n transaction prev_state self self' (some p)
        (Outcome.returns (err x) variables) e h =
      ground arith
  transitioned_inv fuel n transaction prev_state self self' (some p)
        (Outcome.returns (ok d) variables) e h =
      (
        record {
          range_db = self.range_db;
          before = self.variables;
          after = variables;
          decision = d;
          decided = sym e;
        },
        subst (KeepsDb self.db) h (
            store_next_state-KeepsDb (next_state transaction n p)
              (record self { variables = variables })),
      )

  pub transitions_inv :
      (fuel n : ℕ) (transaction : Transaction) (us : List StateUpdate)
      (self self' : PlasmaAggregator S)
      → transitions ext codecs kvs fuel n transaction us self ≡ returns (ok tt, self')
      → All (Decided fuel self.db) us
  unfolding transitions execute_state_transition verify_state_transition
  transitions_inv fuel n transaction [] self self' h = tt
  transitions_inv fuel n transaction (u ∷ us) self self' h =
      let (a, s, e, k) =
        then_ok_inv
          (transitioned ext codecs kvs self (
            execute_state_transition ext codecs.property_from_abi kvs kvs self.db self.range_db fuel
              u transaction n self.variables))
          (λ _ t. transitions ext codecs kvs fuel n transaction us t) tt self' h in
      let (decided, same) =
        transitioned_inv fuel n transaction u self s
          (codecs.property_from_abi transaction.parameters)
          (decide ext kvs kvs self.db self.range_db fuel (get_property u)
            (set_variable state_update_name (state_update_item u) self.variables))
          refl e in
      (
        decided,
        All-in_state s.db self.db (Decided fuel) us same
            (transitions_inv fuel n transaction us s self' k),
      )
