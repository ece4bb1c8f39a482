-- ===== src/Db/BTreeMap/Laws.antt =====
-- The laws of the sorted map: order is kept, and reads see the writes.
use plasma_rust_framework.Prelude.{Ordering, ◌≡◌, refl, ◌≢◌, none, some, [], ◌∷◌, arith, All-imp}
use plasma_rust_framework.Prelude.Bytes.{Bytes, cmp, cmp_refl, eq_of_cmp, lt_of_gt, lt_trans}
use plasma_rust_framework.Db.BTreeMap.{BTreeMap, get, insert, remove, Above, IsSorted}

pub Above-trans : (i k : Bytes) (m : BTreeMap) → cmp i k ≡ Ordering.lt → Above k m → Above i m
Above-trans i k m h a = All-imp (λ e p. lt_trans i k e.0 h p) m a

insert-Above :
    (i k v : Bytes) (m : BTreeMap) → cmp i k ≡ Ordering.lt → Above i m → Above i (insert k v m)
unfolding insert
insert-Above i k v [] h a = (h, tt)
insert-Above i k v ((j, w) ∷ m) h a = ground (arith, insert-Above i k v m h a.1)

remove-Above : (i k : Bytes) (m : BTreeMap) → Above i m → Above i (remove k m)
unfolding remove
remove-Above i k [] a = tt
remove-Above i k ((j, w) ∷ m) a = ground (arith, remove-Above i k m a.1)

pub insert-IsSorted : (k v : Bytes) (m : BTreeMap) → IsSorted m → IsSorted (insert k v m)
unfolding insert
insert-IsSorted k v [] s = (tt, tt)
insert-IsSorted k v ((j, w) ∷ m) s =
    ground (arith, insert-IsSorted k v m s.1, insert-Above j k v m, lt_of_gt k j, Above-trans k j m)

pub remove-IsSorted : (k : Bytes) (m : BTreeMap) → IsSorted m → IsSorted (remove k m)
unfolding remove
remove-IsSorted k [] s = tt
remove-IsSorted k ((j, w) ∷ m) s = ground (arith, remove-IsSorted k m s.1, remove-Above j k m s.0)

-- An entry below all others goes to the front.
pub insert-Above_all : (k v : Bytes) (m : BTreeMap) → Above k m → insert k v m ≡ (k, v) ∷ m
unfolding insert
insert-Above_all k v [] a = refl
insert-Above_all k v ((j, w) ∷ m) a = ground arith

pub get-Above : (k : Bytes) (m : BTreeMap) → Above k m → get k m ≡ none
unfolding get
get-Above k [] a = refl
get-Above k ((j, w) ∷ m) a = ground (arith, get-Above k m a.1)

abbrev pub at {ℓ} : {A : Type ℓ} → Ordering → A → A → A
at Ordering.eq x y = x
at _ x y = y

pub at_other : {A : Type 0} (o : Ordering) (x y : A) → o ≢ Ordering.eq → at o x y ≡ y
at_other Ordering.lt x y h = refl
at_other Ordering.eq x y h = absurd (h refl)
at_other Ordering.gt x y h = refl

pub get-insert :
    (k v i : Bytes) (m : BTreeMap) → get i (insert k v m) ≡ at (cmp i k) (some v) (get i m)
unfolding get insert
get-insert k v i [] = ground arith
get-insert k v i ((j, w) ∷ m) =
    ground (
      arith,
      get-insert k v i m,
      eq_of_cmp k j,
      eq_of_cmp i k,
      eq_of_cmp i j,
      cmp_refl i,
      cmp_refl k,
    )

pub get-remove :
    (k i : Bytes) (m : BTreeMap) → IsSorted m → get i (remove k m) ≡ at (cmp i k) none (get i m)
unfolding get remove
get-remove k i [] s = ground arith
get-remove k i ((j, w) ∷ m) s = ground (
  arith,
  get-remove k i m s.1,
  eq_of_cmp k j,
  eq_of_cmp i k,
  eq_of_cmp i j,
  cmp_refl i,
  cmp_refl k,
  get-Above j m s.0,
)
