-- ===== src/Metadata/BlobRegister/Places.antt =====
-- Tables of sets, as those of src/metadata/blob_register.rs: what an insertion or a removal does to
-- one place of a table, and the Boolean tests for it.
use sn_node.Prelude.{
  ℕ, ◌≡◌, refl, inl, inr, Bool, true, false, ◌&&◌, Option, none, some, List, [], ◌∷◌, ◌==◌,
  if◌then◌else◌, arith, Bool-cases,
}
use sn_node.Prelude.BTreeMap.{
  BTreeMap, BTreeSet, lookup, contains_key, insert, remove, names, is_empty, lookup-insert,
  lookup-remove,
}

module _ {V : Type 0} (f : V → BTreeSet) where
  abbrev pub set_at : Option V → BTreeSet
  set_at none = []
  set_at (some v) = f v

  pub set_at-insert :
      (a b g : ℕ) (v : V) (t : BTreeMap V)
      → contains_key g (set_at (lookup b (insert a v t)))
        ≡ (if a == b then contains_key g (f v) else contains_key g (set_at (lookup b t)))
  set_at-insert a b g v t = elim (Bool-cases (a == b)) [
    | inl e ↦ rw (lookup-insert a b v t, e) refl
    | inr e ↦ rw (lookup-insert a b v t, e) refl
  ]

  pub set_at-remove :
      (a b g : ℕ) (t : BTreeMap V)
      → contains_key g (set_at (lookup b (remove a t)))
        ≡ (if a == b then false else contains_key g (set_at (lookup b t)))
  set_at-remove a b g t = elim (Bool-cases (a == b)) [
    | inl e ↦ rw (lookup-remove a b t, e) refl
    | inr e ↦ rw (lookup-remove a b t, e) refl
  ]

unfoldable pub mem : ℕ → List ℕ → Bool
mem b [] = false
mem b (x ∷ xs) = if x == b then true else mem b xs

pub mem-names : (b : ℕ) (s : BTreeSet) → mem b (names s) ≡ contains_key b s
unfolding mem
mem-names b [] = refl
mem-names b ((k, u) ∷ s) = ground (arith, mem-names b s)

pub empty_set : (s : BTreeSet) (g : ℕ) → is_empty s ≡ true → contains_key g s ≡ false
empty_set [] g e = refl
empty_set (x ∷ s) g e = cc

-- One place of a table of sets: the row is given by `x` and the column by `y`.
module _ (c : Bool) where
  pub row_first :
      (x y p q : Bool)
      → (x ≡ true → p ≡ q)
      → (if x then (if y then c else p) else q) ≡ (if x && y then c else q)
  row_first true true p q e = refl
  row_first true false p q e = e refl
  row_first false y p q e = refl

  pub column_first :
      (x y p q : Bool)
      → (y ≡ true → p ≡ q)
      → (if y then (if x then c else p) else q) ≡ (if x && y then c else q)
  column_first true true p q e = refl
  column_first false true p q e = e refl
  column_first true false p q e = refl
  column_first false false p q e = refl

pub missed : (x y q : Bool) → (x ≡ true → q ≡ false) → q ≡ (if x && y then false else q)
missed true true q e = e refl
missed true false q e = refl
missed false y q e = refl

pub both_missed :
    (x y q : Bool) → (x ≡ true → y ≡ true → q ≡ false) → q ≡ (if x && y then false else q)
both_missed true true q e = e refl refl
both_missed true false q e = refl
both_missed false y q e = refl

pub missed_column : (x y q : Bool) → (y ≡ true → q ≡ false) → q ≡ (if x && y then false else q)
missed_column true true q e = e refl
missed_column true false q e = refl
missed_column false y q e = refl
