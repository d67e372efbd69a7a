-- ===== src/UsedSpace.antt =====
-- src/chunk_store/used_space.rs: the space that the chunk stores of a node use, in memory and in one
-- file for each store. The lock makes each method atomic, so a method is a function on the state.
-- What the disk does is an argument: an `IoEvent` for each write of a record, a `FoundFile` for the
-- file of a store that is opened.
pub mod Bounds
pub mod Exact
pub mod Outcomes
pub mod Effects
mod Tests
use sn_node.Prelude.{
  ℕ, ◌+◌, ◌-◌, ◌%◌, Bool, true, false, Option, none, some, List, [], ◌∷◌, ltb, if◌then◌else◌,
  u64_mod, checked_add,
}
use sn_node.Prelude.BTreeMap.{BTreeMap, lookup, insert}
use sn_node.Errors.{Error, Result, ok, err, ok_or, not_enough_space, no_store_id, io, bincode}
use sn_node.Action.{Action, pure, fail, lift, gets, ◌>>=◌, ◌>>◌, fail_if, modify}

abbrev pub StoreId : Type 0
StoreId = ℕ

-- What the file `used_space` of a store holds: nothing, a serialised u64, or bytes that are none.
pub data FileRecord : Type 0 where
  blank torn : FileRecord
  value : ℕ → FileRecord

pub record LocalUsedSpace : Type 0 where
  pub local_value : ℕ
  pub local_record : FileRecord

pub record UsedSpace : Type 0 where
  pub max_capacity : ℕ
  pub total_value : ℕ
  pub local_stores : BTreeMap LocalUsedSpace
  pub next_id : ℕ

-- The call at which `write_local_to_file` fails, if one does.
pub data IoEvent : Type 0 where
  success set_len_fails seek_fails write_fails sync_fails : IoEvent

unfoldable pub new : ℕ → UsedSpace
new max_capacity = record {
  max_capacity = max_capacity;
  total_value = 0;
  local_stores = [];
  next_id = 0;
}

-- The file is emptied first, so a failure past that point loses the old value.
unfoldable pub write_local_to_file : IoEvent → FileRecord → ℕ → Result (Unit {0}) × FileRecord
write_local_to_file success r n = (ok tt, value n)
write_local_to_file set_len_fails r n = (err io, r)
write_local_to_file seek_fails r n = (err io, blank)
write_local_to_file write_fails r n = (err io, torn)
write_local_to_file sync_fails r n = (err io, value n)

abbrev pub total : UsedSpace → ℕ
total us = us.total_value

abbrev pub local_of : Option LocalUsedSpace → ℕ
local_of none = 0
local_of (some l) = l.local_value

unfoldable pub local : UsedSpace → StoreId → ℕ
local us id = local_of (lookup id us.local_stores)

-- Each store is set to zero, and a file that cannot be written is only warned of.
reset_store : IoEvent → LocalUsedSpace → LocalUsedSpace
unfolding write_local_to_file
reset_store ev l = record {
  local_value = 0;
  local_record = (write_local_to_file ev l.local_record 0).1;
}

reset_stores : (StoreId → IoEvent) → BTreeMap LocalUsedSpace → BTreeMap LocalUsedSpace
unfolding reset_store
reset_stores ev [] = []
reset_stores ev ((id, l) ∷ m) = (id, reset_store (ev id) l) ∷ reset_stores ev m

pub reset : (StoreId → IoEvent) → UsedSpace → UsedSpace
unfolding reset_stores
reset ev us = record us { total_value = 0; local_stores = reset_stores ev us.local_stores }

-- The file of a store at its opening: it cannot be opened, opened but not read, or it is read.
pub data FoundFile : Type 0 where
  unopened unreadable : FoundFile
  contents : FileRecord → FoundFile

-- The first use of a file writes a zero. After a failed read the position in it is not known.
unfoldable pub init_record : Bool → FileRecord → Result LocalUsedSpace
init_record true r = ok (record { local_value = 0; local_record = r })
init_record false r = err io

unfoldable pub open_local_store : Bool → FoundFile → Result LocalUsedSpace
unfolding init_record
open_local_store written unopened = err io
open_local_store written unreadable = init_record written torn
open_local_store written (contents blank) = init_record written (value 0)
open_local_store written (contents (value n)) =
    ok (record { local_value = n; local_record = value n })
open_local_store written (contents torn) = err bincode

unfoldable pub add_local_store : Bool → FoundFile → Action UsedSpace StoreId
add_local_store written found = do
  local_store ← lift (open_local_store written found)
  id ← gets (λ us. us.next_id)
  modify λ us. record us {
    local_stores = insert id local_store us.local_stores;
    next_id = (us.next_id + 1) % u64_mod;
  }
  pure id

-- The shared end of `increase` and `decrease`: the file first, then the two numbers in memory. The
-- lock is held, so the store is still there when it is looked up again.
unfoldable pub commit : IoEvent → StoreId → LocalUsedSpace → ℕ → ℕ → Action UsedSpace (Unit {0})
unfolding write_local_to_file
commit ev id l new_total new_local us =
    let (written, r) = write_local_to_file ev l.local_record new_local in
    elim written [
      | err e ↦ (
        err e,
        record us { local_stores = insert id (record l { local_record = r }) us.local_stores },
      )
      | ok _ ↦ (
        ok tt,
        record us {
          total_value = new_total;
          local_stores =
              insert id (record { local_value = new_local; local_record = r }) us.local_stores;
        },
      )
    ]

unfoldable pub increase : IoEvent → StoreId → ℕ → Action UsedSpace (Unit {0})
increase ev id consumed = do
  total ← gets (λ us. us.total_value)
  new_total ← lift (ok_or (checked_add total consumed) not_enough_space)
  max_capacity ← gets (λ us. us.max_capacity)
  fail_if (ltb max_capacity new_total) not_enough_space
  stores ← gets (λ us. us.local_stores)
  l ← lift (ok_or (lookup id stores) no_store_id)
  new_local ← lift (ok_or (checked_add l.local_value consumed) not_enough_space)
  commit ev id l new_total new_local

-- `saturating_sub` is the subtraction of natural numbers.
unfoldable pub decrease : IoEvent → StoreId → ℕ → Action UsedSpace (Unit {0})
decrease ev id released = do
  stores ← gets (λ us. us.local_stores)
  l ← lift (ok_or (lookup id stores) no_store_id)
  total ← gets (λ us. us.total_value)
  commit ev id l (total - released) (l.local_value - released)

-- A call of a method, with what the disk does.
pub data Call : Type 0 where
  resets : (StoreId → IoEvent) → Call
  adds : Bool → FoundFile → Call
  increases decreases : IoEvent → StoreId → ℕ → Call

pub step : UsedSpace → Call → UsedSpace
step us (resets ev) = reset ev us
step us (adds written found) = (add_local_store written found us).1
step us (increases ev id n) = (increase ev id n us).1
step us (decreases ev id n) = (decrease ev id n us).1

pub run : UsedSpace → List Call → UsedSpace
unfolding step
run us [] = us
run us (c ∷ cs) = run (step us c) cs
