-- ===== src/Transfers/Store.antt =====
-- src/transfers/store.rs: the events of one wallet, in a database keyed by their numbers.
-- A key is the decimal text of a number in the code and the number here. The database lists its keys
-- in an order of its own, which is an argument; a write succeeds or changes nothing.
pub mod Sorting
pub mod History
mod Tests
use sn_node.Prelude.{
  ℕ, Bool, true, false, Option, none, some, List, [], ◌∷◌, ◌++◌, length, ltb, if◌then◌else◌,
  XorName,
}
use sn_node.Prelude.BTreeMap.{BTreeMap, lookup, insert, contains_key}
use sn_node.Errors.{Error, Result, ok, err, ok_or, ◌>>=◌, ◌>>◌, logic, pickle_db}

pub record TransferStore (E : Type 0) : Type 0 where
  pub id : XorName
  pub db : BTreeMap E

module _ {E : Type 0} where
  -- `utils::new_auto_dump_db`: whatever the reason that the file is not loaded, an empty database is
  -- written in its place and loaded again.
  unfoldable pub new_auto_dump_db :
      Option (BTreeMap E) → Result (Unit {0}) → Bool → Option (BTreeMap E) → Result (BTreeMap E)
  new_auto_dump_db (some db) dir_created dumped reloaded = ok db
  new_auto_dump_db none dir_created dumped reloaded =
      dir_created >> (if dumped then ok_or reloaded pickle_db else err pickle_db)

  -- With what `new_auto_dump_db` returned.
  unfoldable pub new : XorName → Result (BTreeMap E) → Result (TransferStore E)
  new id opened = opened >>= λ db. ok (record { id = id; db = db })

  -- `filter_map`: a key without a value is passed over.
  add_entry : ℕ → Option E → List (ℕ × E) → List (ℕ × E)
  add_entry key none rest = rest
  add_entry key (some event) rest = (key, event) ∷ rest

  pub entries : BTreeMap E → List ℕ → List (ℕ × E)
  unfolding add_entry
  entries db [] = []
  entries db (key ∷ keys) = add_entry key (lookup key db) (entries db keys)

  -- `sort_by` on the keys, which is stable.
  unfoldable pub place : ℕ → E → List (ℕ × E) → List (ℕ × E)
  place k e [] = (k, e) ∷ []
  place k e ((j, d) ∷ events) =
      if ltb j k then (j, d) ∷ place k e events else (k, e) ∷ (j, d) ∷ events

  unfoldable pub sort_by_key : List (ℕ × E) → List (ℕ × E)
  unfolding place
  sort_by_key [] = []
  sort_by_key ((k, e) ∷ events) = place k e (sort_by_key events)

  unfoldable pub events_of : List (ℕ × E) → List E
  events_of [] = []
  events_of ((_, e) ∷ events) = e ∷ events_of events

  unfoldable pub get_all : List ℕ → TransferStore E → List E
  unfolding entries sort_by_key events_of
  get_all keys s = events_of (sort_by_key (entries s.db keys))

  set : Bool → ℕ → E → TransferStore E → Result (Unit {0}) × TransferStore E
  set true key event s = (ok tt, record s { db = insert key event s.db })
  set false key event s = (err pickle_db, s)

  unfoldable pub try_insert : Bool → E → TransferStore E → Result (Unit {0}) × TransferStore E
  unfolding set
  try_insert written event s =
      let key = length s.db in
      if contains_key key s.db then (err logic, s) else set written key event s
