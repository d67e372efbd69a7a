-- ===== src/Transfers/Store/History.antt =====
-- Histories of writes to a store and what is read back of them (src/transfers/store.rs).
use mathlib.Core.List.{Permᴰ}
use sn_node.Prelude.{
  ℕ, suc, ◌+◌, ◌<◌, ◌≡◌, refl, sym, ◌∙◌, ap, Bool, true, false, List, [], ◌∷◌, ◌++◌, length,
  if◌then◌else◌, arith, XorName,
}
use sn_node.Prelude.BTreeMap.{BTreeMap, insert, contains_key, IsSorted, Above, entries_found}
use sn_node.Errors.{ok, err, pickle_db}
use sn_node.Transfers.Store.{TransferStore, events_of, get_all, set, try_insert}
use sn_node.Transfers.Store.Sorting.{
  keys_of, sort_by_key-entries, sorted_entries-perm, sorted_entries-keys_of,
}

module _ {E : Type 0} where
  -- The database after a history: the events by their numbers.
  unfoldable pub number : ℕ → List E → BTreeMap E
  number n [] = []
  number n (e ∷ es) = (n, e) ∷ number (suc n) es

  number-Above : (i n : ℕ) (es : List E) → i < n → Above i (number n es)
  unfolding number
  number-Above i n [] h = tt
  number-Above i n (e ∷ es) h = (h, number-Above i (suc n) es (omega arith))

  pub number-IsSorted : (n : ℕ) (es : List E) → IsSorted (number n es)
  unfolding number
  number-IsSorted n [] = tt
  number-IsSorted n (e ∷ es) = (number-Above n (suc n) es (omega arith), number-IsSorted (suc n) es)

  length-number : (n : ℕ) (es : List E) → length (number n es) ≡ length es
  unfolding number
  length-number n [] = refl
  length-number n (e ∷ es) = ap suc (length-number (suc n) es)

  pub events_of-number : (n : ℕ) (es : List E) → events_of (number n es) ≡ es
  unfolding number events_of
  events_of-number n [] = refl
  events_of-number n (e ∷ es) = ap (λ l. e ∷ l) (events_of-number (suc n) es)

  contains-number : (n : ℕ) (es : List E) → contains_key (n + length es) (number n es) ≡ false
  unfolding number
  contains-number n [] = refl
  contains-number n (e ∷ es) = ground (arith, contains-number (suc n) es)

  insert-number :
      (n : ℕ) (es : List E) (e : E)
      → insert (n + length es) e (number n es) ≡ number n (es ++ e ∷ [])
  unfolding number
  insert-number n [] e = ground arith
  insert-number n (d ∷ es) e = ground (arith, insert-number (suc n) es e)

  -- Events are inserted one by one; the writes of some may fail.
  unfoldable pub insert_all : TransferStore E → List (Bool × E) → TransferStore E
  insert_all s [] = s
  insert_all s ((written, e) ∷ es) = insert_all (try_insert written e s).1 es

  -- Those whose writes did not fail.
  unfoldable pub written_of : List (Bool × E) → List E
  written_of [] = []
  written_of ((true, e) ∷ es) = e ∷ written_of es
  written_of ((false, e) ∷ es) = written_of es

  pub try_insert-number :
      (written : Bool) (e : E) (id : XorName) (es : List E)
      → try_insert written e (record { id = id; db = number 0 es }) ≡ (
          if written
          then (ok tt, record { id = id; db = number 0 (es ++ e ∷ []) })
          else (err pickle_db, record { id = id; db = number 0 es }))
  unfolding try_insert set
  try_insert-number written e id es =
      let z : 0 + length es ≡ length es = omega arith in
      let free : contains_key (length es) (number 0 es) ≡ false = rw z at (contains-number 0 es) in
      rw (length-number 0 es, free) (split written)
    where
      split :
          (written : Bool)
          → set written (length es) e (record { id = id; db = number 0 es }) ≡ (
              if written
              then (ok tt, record { id = id; db = number 0 (es ++ e ∷ []) })
              else (err pickle_db, record { id = id; db = number 0 es }))
      split true =
          let z : 0 + length es ≡ length es = omega arith in
          ap (λ db. (ok tt, record { id = id; db = db })) (rw z at (insert-number 0 es e))
      split false = refl

  pub append_assoc : (xs : List E) (y : E) (zs : List E) → (xs ++ y ∷ []) ++ zs ≡ xs ++ y ∷ zs
  append_assoc [] y zs = refl
  append_assoc (x ∷ xs) y zs = ap (λ l. x ∷ l) (append_assoc xs y zs)

  insert_all-number :
      (id : XorName) (es : List E) (xs : List (Bool × E))
      → insert_all (record { id = id; db = number 0 es }) xs
        ≡ record { id = id; db = number 0 (es ++ written_of xs) }
  unfolding insert_all written_of
  insert_all-number id es [] = ap (λ l. record { id = id; db = number 0 l }) (sym (append_nil es))
    where
      append_nil : (es : List E) → es ++ [] ≡ es
      append_nil [] = refl
      append_nil (e ∷ es) = ap (λ l. e ∷ l) (append_nil es)
  insert_all-number id es ((true, e) ∷ xs) = rw (try_insert-number true e id es) (
      insert_all-number id (es ++ e ∷ []) xs
      ∙ ap (λ l. record { id = id; db = number 0 l }) (append_assoc es e (written_of xs)))
  insert_all-number id es ((false, e) ∷ xs) =
      rw (try_insert-number false e id es) (insert_all-number id es xs)

  pub get_all-number :
      (id : XorName) (es : List E) (keys : List ℕ)
      → Permᴰ keys (keys_of (number 0 es))
      → get_all keys (record { id = id; db = number 0 es }) ≡ es
  unfolding get_all number
  get_all-number id es keys listed =
      let db = number 0 es in
      ap events_of (
        sort_by_key-entries db keys
        ∙ sorted_entries-perm db keys (keys_of db) listed
        ∙ sorted_entries-keys_of db db (number-IsSorted 0 es)
            (entries_found db (number-IsSorted 0 es)))
      ∙ events_of-number 0 es

  -- Whatever writes failed in between, and in whatever order the database lists its keys: a store
  -- that was empty gives back the events that were written, in the order of their writing.
  pub get_all-insert_all :
      (id : XorName) (xs : List (Bool × E)) (keys : List ℕ)
      → Permᴰ keys (keys_of (insert_all (record { id = id; db = [] }) xs).db)
      → get_all keys (insert_all (record { id = id; db = [] }) xs) ≡ written_of xs
  unfolding number
  get_all-insert_all id xs keys p =
      let stored : insert_all (record { id = id; db = [] }) xs
          ≡ record { id = id; db = number 0 (written_of xs) } =
        insert_all-number id [] xs in
      rw stored (get_all-number id (written_of xs) keys (rw stored at p))
