-- ===== src/Db/BTreeMap.antt =====
-- `BTreeMap<BaseDbKey, Vec<u8>>` of the standard library, as the list of its entries in the order
-- of its keys.
pub mod Laws
use plasma_rust_framework.Prelude.{Ordering, Option, none, some, List, [], ◌∷◌, All, ◌≡◌}
use plasma_rust_framework.Prelude.Bytes.{Bytes, cmp}

abbrev pub BTreeMap : Type 0
BTreeMap = List (Bytes × Bytes)

unfoldable pub get : Bytes → BTreeMap → Option Bytes
get k [] = none
get k ((j, w) ∷ m) = elim (cmp k j) [ Ordering.eq ↦ some w | _ ↦ get k m ]

unfoldable pub insert : Bytes → Bytes → BTreeMap → BTreeMap
insert k v [] = (k, v) ∷ []
insert k v ((j, w) ∷ m) = elim (cmp k j) [
  | Ordering.lt ↦ (k, v) ∷ (j, w) ∷ m
  | Ordering.eq ↦ (j, v) ∷ m
  | Ordering.gt ↦ (j, w) ∷ insert k v m
]

unfoldable pub remove : Bytes → BTreeMap → BTreeMap
remove k [] = []
remove k ((j, w) ∷ m) = elim (cmp k j) [ Ordering.eq ↦ m | _ ↦ (j, w) ∷ remove k m ]

-- The keys rise.
abbrev pub Above : Bytes → BTreeMap → Type 0
Above k m = All (λ e. cmp k e.0 ≡ Ordering.lt) m

abbrev pub IsSorted : BTreeMap → Type 0
IsSorted [] = Unit
IsSorted ((k, v) ∷ m) = Above k m × IsSorted m
