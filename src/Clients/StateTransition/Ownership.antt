-- ===== src/Clients/StateTransition/Ownership.antt =====
-- Transitions of a state update whose state object is the ownership decider's (ovm/src/types/state_update.rs and
-- ovm/src/deciders/ownership_decider.rs).
use plasma_rust_framework.Prelude.{
  ℕ, suc, ◌≡◌, refl, ap, ◌∙◌, ◌≢◌, false, Option, some, List, [], ◌∷◌, arith, ◌==◌, All,
}
use plasma_rust_framework.Prelude.Bytes.{Bytes, cmp}
use plasma_rust_framework.Prelude.Result.{Result, ok, err}
use plasma_rust_framework.PlasmaCore.Transaction.{Transaction}
use plasma_rust_framework.Db.Kvs.{KeyValueStore}
use plasma_rust_framework.Ovm.Types.{
  Property, StateUpdate, state_update_item, get_property, get_range, get_block_number, Decision,
  Variables, set_variable, Outcome, placeholder, constant_address, argument, get_variable,
  get_input, lookup, ErrorKind, cannot_decide,
}
use plasma_rust_framework.Ovm.Manager.{ownership, property_of}
use plasma_rust_framework.Ovm.Deciders.{decision}
use plasma_rust_framework.Ovm.Executor
use plasma_rust_framework.Ovm.External.{External}
use plasma_rust_framework.Ovm.Statements.{two, state_update_name}
use plasma_rust_framework.Ovm.TransactionDb
use plasma_rust_framework.Ovm.Witnessed.{recover, any_signed, ownership_decision, ownership_decide}
use plasma_rust_framework.Ovm.PropertyExecutor.{decide}
use plasma_rust_framework.Clients.Types.{returns}
use plasma_rust_framework.Clients.StateTransition.{
  CoreErrorKind, invalid_transaction, next_state, verify_state_transition, execute_state_transition,
}

-- The state object that an address owns the state update at hand.
abbrev pub owned_by : ℕ → Property
owned_by owner = ownership (two (placeholder state_update_name) (constant_address owner))

-- Every signature recovers to an address, and to another than the owner's.
abbrev pub SignedByOthers : External → ℕ → List Transaction → Type 0
SignedByOthers ext owner = All (λ tx.
    (signer : ℕ) × (recover ext tx.signature (ext.to_body_abi tx) ≡ some signer) × (signer ≢ owner))

-- What the executor answers, and what becomes of the transition, by the transactions of the coins.
abbrev pub answer_of : List Transaction → Result Decision ErrorKind
answer_of [] = err cannot_decide
answer_of (tx ∷ txs) = ok (decision false [])

abbrev pub transition_of : StateUpdate → List Transaction → Result StateUpdate CoreErrorKind
transition_of next [] = err invalid_transaction
transition_of next (tx ∷ txs) = ok next

any_signed-others :
    (ext : External) (owner : ℕ) (txs : List Transaction)
    → SignedByOthers ext owner txs
    → any_signed ext owner txs ≡ some false
unfolding any_signed
any_signed-others ext owner [] a = refl
any_signed-others ext owner (tx ∷ txs) ((signer, e, n), a) =
    let other : (signer == owner) ≡ false = ground (arith, n) in
    rw (any_signed, e, other) (any_signed-others ext owner txs a)

module _ {S : Type 0} (ext : External) (property_from_abi : Bytes → Option Property)
    (db range_db : KeyValueStore S) (s r : S) where
  decide_owned :
      (fuel owner : ℕ) (self : StateUpdate) (variables : Variables)
      → decide ext db range_db s r
          (suc fuel)
          (owned_by owner)
          (set_variable state_update_name (state_update_item self) variables)
        ≡ ownership_decision ext owner
            (TransactionDb.get_transactions ext.transaction_abi ext.rlp range_db
              (get_block_number self)
              (get_range self)
              r)
            (set_variable state_update_name (state_update_item self) variables)
  unfolding Executor.decide property_of ownership_decide argument get_variable get_input lookup cmp
  decide_owned fuel owner self variables = refl

  decision_others :
      (owner : ℕ) (txs : List Transaction) (variables : Variables)
      → SignedByOthers ext owner txs
      → ownership_decision ext owner (some (some txs)) variables
        ≡ Outcome.returns (answer_of txs) variables
  unfolding ownership_decision
  decision_others owner [] variables a = refl
  decision_others owner (tx ∷ txs) variables a =
      rw (ownership_decision, any_signed-others ext owner (tx ∷ txs) a) refl

  after_answer :
      (fuel : ℕ) (self : StateUpdate) (transaction : Transaction) (number : ℕ)
      (variables : Variables) (p : Property) (txs : List Transaction)
      → property_from_abi transaction.parameters ≡ some p
      → decide ext db range_db s r fuel
          (get_property self)
          (set_variable state_update_name (state_update_item self) variables)
        ≡ Outcome.returns
            (answer_of txs)
            (set_variable state_update_name (state_update_item self) variables)
      → execute_state_transition ext property_from_abi db range_db s r fuel self transaction number
          variables
        ≡ returns (
          transition_of (next_state transaction number p) txs,
          set_variable state_update_name (state_update_item self) variables,
        )
  unfolding execute_state_transition verify_state_transition
  after_answer fuel self transaction number variables p [] h k =
      rw (h, k, verify_state_transition, execute_state_transition) refl
  after_answer fuel self transaction number variables p (tx ∷ txs) h k =
      rw (h, k, verify_state_transition, execute_state_transition) refl

  -- For parameters that are a property and a state update whose state object names an owner: where all transactions that
  -- are read for its coins and block are signed by others than the owner, the executor fails if there is none, and else
  -- decides with no. The transition is refused as an invalid transaction if there is none; else it is accepted, and the
  -- next state has the transaction's contract and range and the property.
  pub execute_state_transition_others :
      (fuel owner : ℕ) (self : StateUpdate) (transaction : Transaction) (next_block_number : ℕ)
      (variables : Variables) (p : Property) (txs : List Transaction)
      → property_from_abi transaction.parameters ≡ some p
      → get_property self ≡ owned_by owner
      → TransactionDb.get_transactions ext.transaction_abi ext.rlp range_db
          (get_block_number self)
          (get_range self)
          r
        ≡ some (some txs)
      → SignedByOthers ext owner txs
      → (decide ext db range_db s r
            (suc fuel)
            (get_property self)
            (set_variable state_update_name (state_update_item self) variables)
          ≡ Outcome.returns
              (answer_of txs)
              (set_variable state_update_name (state_update_item self) variables))
        × (execute_state_transition ext property_from_abi db range_db s r
              (suc fuel)
              self
              transaction
              next_block_number
              variables
            ≡ returns (
              transition_of (next_state transaction next_block_number p) txs,
              set_variable state_update_name (state_update_item self) variables,
            ))
  execute_state_transition_others fuel owner self transaction next_block_number variables p txs h o
        t a =
      let vs = set_variable state_update_name (state_update_item self) variables in
      let decided : decide ext db range_db s r (suc fuel) (get_property self) vs
          ≡ Outcome.returns (answer_of txs) vs =
        ap (λ (q : Property). decide ext db range_db s r (suc fuel) q vs) o
        ∙ decide_owned fuel owner self variables
        ∙ ap (λ read. ownership_decision ext owner read vs) t
        ∙ decision_others owner txs vs a in
      (
        decided,
        after_answer (suc fuel) self transaction next_block_number variables p txs h decided,
      )
