-- ===== src/Transfers/Store/Sorting.antt =====
-- `get_all` of src/transfers/store.rs and the order in which the database lists its keys.
use mathlib.Core.List.{Permᴰ}
use sn_node.Prelude.{
  ℕ, ◌<◌, dec_lt, ◌≡◌, refl, sym, ◌∙◌, ap, Option, none, some, List, [], ◌∷◌, arith, All,
  ℕ_discrete,
}
use sn_node.Prelude.BTreeMap.{BTreeMap, lookup, IsSorted, Above}
use sn_node.Transfers.Store.{add_entry, entries, place, sort_by_key}

module _ {E : Type 0} where
  unfoldable pub keys_of : BTreeMap E → List ℕ
  keys_of [] = []
  keys_of ((k, e) ∷ db) = k ∷ keys_of db

  place_comm :
      (k j : ℕ) (e d : E) (l : List (ℕ × E))
      → k < j
      → place k e (place j d l) ≡ place j d (place k e l)
  unfolding place
  place_comm k j e d [] h = ground arith
  place_comm k j e d ((i, c) ∷ l) h = ground (arith, place_comm k j e d l h)

  -- The sorted entries, key by key.
  put : ℕ → Option E → List (ℕ × E) → List (ℕ × E)
  put k none l = l
  put k (some e) l = place k e l

  pub sorted_entries : BTreeMap E → List ℕ → List (ℕ × E)
  sorted_entries db [] = []
  sorted_entries db (k ∷ ks) = put k (lookup k db) (sorted_entries db ks)

  pub sort_by_key-entries :
      (db : BTreeMap E) (ks : List ℕ) → sort_by_key (entries db ks) ≡ sorted_entries db ks
  unfolding entries sort_by_key sorted_entries put
  sort_by_key-entries db [] = refl
  sort_by_key-entries db (k ∷ ks) = one (lookup k db) (sort_by_key-entries db ks)
    where
      one :
          (o : Option E)
          → sort_by_key (entries db ks) ≡ sorted_entries db ks
          → sort_by_key (add_entry k o (entries db ks)) ≡ put k o (sorted_entries db ks)
      one none rest = rest
      one (some e) rest = ap (place k e) rest

  put_comm :
      (k j : ℕ) (o p : Option E) (l : List (ℕ × E))
      → k < j
      → put k o (put j p l) ≡ put j p (put k o l)
  unfolding put
  put_comm k j none p l h = refl
  put_comm k j (some e) none l h = refl
  put_comm k j (some e) (some d) l h = place_comm k j e d l h

  lookup_comm :
      (db : BTreeMap E) (k j : ℕ) (l : List (ℕ × E))
      → put k (lookup k db) (put j (lookup j db) l) ≡ put j (lookup j db) (put k (lookup k db) l)
  lookup_comm db k j l = elim (ℕ_discrete k j) [
    | yes e ↦ rw e refl
    | no ne ↦ elim (dec_lt k j) [
      | yes h ↦ put_comm k j (lookup k db) (lookup j db) l h
      | no h ↦ sym (put_comm j k (lookup j db) (lookup k db) l (omega (arith, ne, h)))
    ]
  ]

  -- The order in which the keys are listed does not matter.
  pub sorted_entries-perm :
      (db : BTreeMap E) (ks js : List ℕ) → Permᴰ ks js → sorted_entries db ks ≡ sorted_entries db js
  unfolding sorted_entries
  sorted_entries-perm db _ _ Permᴰ.nil = refl
  sorted_entries-perm db (k ∷ ks) (j ∷ js) (Permᴰ.cons e p) =
      ap (λ i. put i (lookup i db) (sorted_entries db ks)) e
      ∙ ap (put j (lookup j db)) (sorted_entries-perm db ks js p)
  sorted_entries-perm db (k ∷ j ∷ l) (j' ∷ k' ∷ _) (Permᴰ.swap e f) =
      lookup_comm db k j (sorted_entries db l)
      ∙ ap (λ i. put i (lookup i db) (put k (lookup k db) (sorted_entries db l))) f
      ∙ ap (λ i. put j' (lookup j' db) (put i (lookup i db) (sorted_entries db l))) e
  sorted_entries-perm db ks js (Permᴰ.trans p q) =
      sorted_entries-perm db ks _ p ∙ sorted_entries-perm db _ js q

  -- Listed in their own order, sorted entries stay as they are.
  place-least : (k : ℕ) (e : E) (l : BTreeMap E) → Above k l → place k e l ≡ (k, e) ∷ l
  unfolding place
  place-least k e [] a = refl
  place-least k e ((j, d) ∷ l) a = ground arith

  pub sorted_entries-keys_of :
      (db s : BTreeMap E)
      → IsSorted s
      → All (λ e. lookup e.0 db ≡ some e.1) s
      → sorted_entries db (keys_of s) ≡ s
  unfolding sorted_entries keys_of put
  sorted_entries-keys_of db [] sorted found = refl
  sorted_entries-keys_of db ((k, e) ∷ s) (above, sorted) (here, found) =
      rw (here, put)
        (ap (place k e) (sorted_entries-keys_of db s sorted found) ∙ place-least k e s above)
