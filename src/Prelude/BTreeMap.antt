-- ===== src/Prelude/BTreeMap.antt =====
-- `std::collections::BTreeMap` over numeric keys: an association list in the order of its keys.
-- It also stands for the hash maps of the program, whose order nothing depends on.
use Prim.Native.Nat.{ℕ, suc, ◌+◌, ◌≤◌, ◌<◌}
use mathlib.Core.Path.{◌≡◌, refl, subst}
use mathlib.Core.Logic.{◌≢◌}
use mathlib.Core.Bool.{Bool, true, false}
use mathlib.Core.Option.{Option, none, some}
use mathlib.Core.List.{List, [], ◌∷◌}
use native.Mathlib.Omega.{arith}
use native.Mathlib.Decide.{ℕ_discrete}
use sn_node.Prelude.Tests.{ltb, ◌==◌, if◌then◌else◌}
use sn_node.Prelude.Lists.{All, length, sum_by}

abbrev pub BTreeMap {ℓ} : Type ℓ → Type ℓ
BTreeMap V = List (ℕ × V)

module _ {ℓ} {V : Type ℓ} where
  abbrev pub lookup : ℕ → BTreeMap V → Option V
  lookup k [] = none
  lookup k ((j, v) ∷ m) = if j == k then some v else lookup k m

  abbrev is_some : Option V → Bool
  is_some none = false
  is_some (some v) = true

  abbrev pub contains_key : ℕ → BTreeMap V → Bool
  contains_key k m = is_some (lookup k m)

  abbrev pub insert : ℕ → V → BTreeMap V → BTreeMap V
  insert k v [] = (k, v) ∷ []
  insert k v ((j, w) ∷ m) =
      if ltb k j then (k, v) ∷ (j, w) ∷ m else if j == k then (k, v) ∷ m else (j, w) ∷ insert k v m

  abbrev pub remove : ℕ → BTreeMap V → BTreeMap V
  remove k [] = []
  remove k ((j, w) ∷ m) = if j == k then remove k m else (j, w) ∷ remove k m

  abbrev pub values : BTreeMap V → List V
  values [] = []
  values ((k, v) ∷ m) = v ∷ values m

  pub lookup-insert :
      (k j : ℕ) (v : V) (m : BTreeMap V)
      → lookup j (insert k v m) ≡ (if k == j then some v else lookup j m)
  lookup-insert k j v [] = refl
  lookup-insert k j v ((i, w) ∷ m) = ground (arith, lookup-insert k j v m)

  pub lookup-insert_self : (k : ℕ) (v : V) (m : BTreeMap V) → lookup k (insert k v m) ≡ some v
  lookup-insert_self k v m = ground (arith, lookup-insert k k v m)

  pub lookup-insert_ne :
      (k j : ℕ) (v : V) (m : BTreeMap V) → k ≢ j → lookup j (insert k v m) ≡ lookup j m
  lookup-insert_ne k j v m h = ground (arith, lookup-insert k j v m)

  pub lookup-remove :
      (k j : ℕ) (m : BTreeMap V) → lookup j (remove k m) ≡ (if k == j then none else lookup j m)
  lookup-remove k j [] = ground arith
  lookup-remove k j ((i, w) ∷ m) = ground (arith, lookup-remove k j m)

  -- Every key of the map is above the bound.
  abbrev pub Above : ℕ → BTreeMap V → Type 0
  Above k [] = Unit {0}
  Above k ((j, v) ∷ m) = (k < j) × Above k m

  -- The keys rise along the list, so none is there twice.
  abbrev pub IsSorted : BTreeMap V → Type 0
  IsSorted [] = Unit {0}
  IsSorted ((k, v) ∷ m) = Above k m × IsSorted m

  Above-mono : (i k : ℕ) (m : BTreeMap V) → i < k → Above k m → Above i m
  Above-mono i k [] h a = tt
  Above-mono i k ((j, v) ∷ m) h a = (omega arith, Above-mono i k m h a.1)

  insert-Above : (i k : ℕ) (v : V) (m : BTreeMap V) → i < k → Above i m → Above i (insert k v m)
  insert-Above i k v [] h a = (h, tt)
  insert-Above i k v ((j, w) ∷ m) h a = ground (arith, insert-Above i k v m h a.1)

  pub insert-IsSorted : (k : ℕ) (v : V) (m : BTreeMap V) → IsSorted m → IsSorted (insert k v m)
  insert-IsSorted k v [] s = (tt, tt)
  insert-IsSorted k v ((j, w) ∷ m) s =
      ground (arith, insert-IsSorted k v m s.1, insert-Above j k v m, Above-mono k j m)

  remove-Above : (i k : ℕ) (m : BTreeMap V) → Above i m → Above i (remove k m)
  remove-Above i k [] a = tt
  remove-Above i k ((j, w) ∷ m) a = ground (arith, remove-Above i k m a.1)

  pub remove-IsSorted : (k : ℕ) (m : BTreeMap V) → IsSorted m → IsSorted (remove k m)
  remove-IsSorted k [] s = tt
  remove-IsSorted k ((j, w) ∷ m) s = ground (arith, remove-IsSorted k m s.1, remove-Above j k m s.0)

  pub lookup_past : (i k : ℕ) (m : BTreeMap V) → Above i m → k < suc i → lookup k m ≡ none
  lookup_past i k [] a h = refl
  lookup_past i k ((j, w) ∷ m) a h = ground (arith, lookup_past i k m a.1 h)

  remove_past : (i k : ℕ) (m : BTreeMap V) → Above i m → k < suc i → remove k m ≡ m
  remove_past i k [] a h = refl
  remove_past i k ((j, w) ∷ m) a h = ground (arith, remove_past i k m a.1 h)

  -- What an insertion does to a sum over the values, by what stood at the key.
  pub sum_by-insert :
      (f : ℕ × V → ℕ) (k : ℕ) (v old : V) (m : BTreeMap V)
      → IsSorted m
      → lookup k m ≡ some old
      → sum_by f (insert k v m) + f (k, old) ≡ sum_by f m + f (k, v)
  sum_by-insert f k v old [] s e = ground arith
  sum_by-insert f k v old ((j, w) ∷ m) s e =
      ground (arith, sum_by-insert f k v old m s.1, lookup_past j k m s.0)

  pub sum_by-insert_new :
      (f : ℕ × V → ℕ) (k : ℕ) (v : V) (m : BTreeMap V)
      → lookup k m ≡ none
      → sum_by f (insert k v m) ≡ sum_by f m + f (k, v)
  sum_by-insert_new f k v [] e = omega arith
  sum_by-insert_new f k v ((j, w) ∷ m) e = ground (arith, sum_by-insert_new f k v m)

  pub sum_by-remove :
      (f : ℕ × V → ℕ) (k : ℕ) (old : V) (m : BTreeMap V)
      → IsSorted m
      → lookup k m ≡ some old
      → sum_by f (remove k m) + f (k, old) ≡ sum_by f m
  sum_by-remove f k old [] s e = ground arith
  sum_by-remove f k old ((j, w) ∷ m) s e =
      ground (arith, sum_by-remove f k old m s.1, remove_past j k m s.0)

  pub insert-All {κ} :
      (P : ℕ × V → Type κ) (k : ℕ) (v : V) (m : BTreeMap V)
      → P (k, v)
      → All P m
      → All P (insert k v m)
  insert-All P k v [] h a = (h, tt)
  insert-All P k v ((j, w) ∷ m) h a = ground (arith, insert-All P k v m h a.1, h, a)

  -- What is stored satisfies a predicate that all entries satisfy.
  pub lookup-All {κ} :
      (P : ℕ × V → Type κ) (k : ℕ) (v : V) (m : BTreeMap V)
      → All P m
      → lookup k m ≡ some v
      → P (k, v)
  lookup-All P k v [] a e = cc
  lookup-All P k v ((j, w) ∷ m) a e = elim (ℕ_discrete j k) [
    | yes hit ↦ subst P (ground arith) a.0
    | no miss ↦ lookup-All P k v m a.1 (ground arith)
  ]

  pub length-insert-ge : (k : ℕ) (v : V) (m : BTreeMap V) → length m ≤ length (insert k v m)
  length-insert-ge k v [] = omega arith
  length-insert-ge k v ((j, w) ∷ m) = ground (arith, length-insert-ge k v m)

-- In a sorted map every entry is the one that its key finds.
found_under {ℓ} :
    {V : Type ℓ} (k : ℕ) (v : V) (m n : BTreeMap V)
    → Above k m
    → All (λ e. lookup e.0 n ≡ some e.1) m
    → All (λ e. lookup e.0 ((k, v) ∷ n) ≡ some e.1) m
found_under k v [] n a f = tt
found_under k v ((j, w) ∷ m) n a f = (ground (arith, f.0, a.0), found_under k v m n a.1 f.1)

pub entries_found {ℓ} :
    {V : Type ℓ} (m : BTreeMap V) → IsSorted m → All (λ e. lookup e.0 m ≡ some e.1) m
entries_found [] s = tt
entries_found ((k, v) ∷ m) s = (ground arith, found_under k v m m s.0 (entries_found m s.1))

-- `BTreeSet` over numeric names.
abbrev pub BTreeSet : Type 0
BTreeSet = BTreeMap (Unit {0})

-- The elements in their order.
abbrev pub names : BTreeSet → List ℕ
names [] = []
names ((k, _) ∷ s) = k ∷ names s

-- `collect`.
abbrev pub collect_set : List ℕ → BTreeSet
collect_set [] = []
collect_set (k ∷ ks) = insert k tt (collect_set ks)

abbrev pub is_empty : BTreeSet → Bool
is_empty [] = true
is_empty (e ∷ s) = false

pub contains_key-insert :
    (k j : ℕ) (s : BTreeSet)
    → contains_key j (insert k tt s) ≡ (if k == j then true else contains_key j s)
contains_key-insert k j s = ground (arith, lookup-insert k j tt s)

pub contains_key-remove :
    (k j : ℕ) (s : BTreeSet)
    → contains_key j (remove k s) ≡ (if k == j then false else contains_key j s)
contains_key-remove k j s = ground (arith, lookup-remove k j s)
