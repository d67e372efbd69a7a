-- ===== src/UsedSpace/Tests.antt =====
-- Runs of src/chunk_store/used_space.rs, and the theorems about it at concrete states.
use sn_node.Prelude.{◌+◌, ◌≤◌, ◌≡◌, refl, true, List, [], ◌∷◌, arith}
use sn_node.Prelude.BTreeMap.{IsSorted}
use sn_node.Errors.{ok}
use sn_node.UsedSpace.{
  UsedSpace, StoreId, IoEvent, FileRecord, FoundFile, new, write_local_to_file, commit, reset,
  open_local_store, add_local_store, increase, decrease, Call, step, run, total, local,
}
use sn_node.UsedSpace.Bounds.{Below, IsValid, run_bounded}
use sn_node.UsedSpace.Outcomes.{Reserves, increase-Reserves}
use sn_node.UsedSpace.Exact.{used, increase-ok, decrease-increase, add_local_store_undercounts}

-- Two stores on new files, of which one finds a value that another run has left.
abbrev calls : List Call
calls =
    Call.adds true (FoundFile.contents FileRecord.blank)
    ∷ Call.adds true (FoundFile.contents (FileRecord.value 20))
    ∷ Call.increases IoEvent.success 0 60
    ∷ Call.increases IoEvent.success 1 50
    ∷ Call.decreases IoEvent.success 0 15
    ∷ Call.increases IoEvent.write_fails 1 10
    ∷ Call.increases IoEvent.success 7 1
    ∷ []

-- The second `increase` is beyond the capacity, the third fails on the disk, the last has no store.
run-calls : run (new 100) calls ≡ record {
  max_capacity = 100;
  total_value = 45;
  local_stores =
      (0, record { local_value = 45; local_record = FileRecord.value 45 })
      ∷ (1, record { local_value = 20; local_record = FileRecord.torn })
      ∷ [];
  next_id = 2;
}
unfolding run new step add_local_store open_local_store increase decrease write_local_to_file commit
run-calls = refl

-- The record is still right after the reset, although the file of store 1 could not be emptied.
run-resets :
    run (new 100) (
      Call.adds true (FoundFile.contents (FileRecord.value 9))
      ∷ Call.resets (λ _. IoEvent.set_len_fails)
      ∷ [])
    ≡ record {
      max_capacity = 100;
      total_value = 0;
      local_stores = (0, record { local_value = 0; local_record = FileRecord.value 9 }) ∷ [];
      next_id = 1;
    }
unfolding run new step add_local_store open_local_store reset write_local_to_file commit
run-resets = refl

abbrev two_stores : UsedSpace
two_stores = record {
  max_capacity = 100;
  total_value = 70;
  local_stores =
      (0, record { local_value = 30; local_record = FileRecord.value 30 })
      ∷ (4, record { local_value = 40; local_record = FileRecord.blank })
      ∷ [];
  next_id = 5;
}

two_stores-IsValid : IsValid two_stores
two_stores-IsValid = record { within = omega arith; sorted = ground arith; fresh = ground arith }

run_bounded_example :
    let us = run (new 100) calls in
    (total us ≤ 100) × IsSorted us.local_stores × Below us.next_id us.local_stores
run_bounded_example = run_bounded 100 calls (omega arith)

increase-Reserves_example :
    Reserves IoEvent.success 4 25 two_stores (increase IoEvent.success 4 25 two_stores)
increase-Reserves_example = increase-Reserves IoEvent.success 4 25 two_stores

local-two_stores : 15 ≤ local two_stores 0
unfolding local
local-two_stores = omega arith

increase-ok_example : (increase IoEvent.success 4 30 two_stores).0 ≡ ok tt
increase-ok_example =
    increase-ok 4 30 two_stores (record { local_value = 40; local_record = FileRecord.blank }) refl
      refl (omega arith) (omega arith)

reserved : (increase IoEvent.success 4 30 two_stores).0 ≡ ok tt
unfolding increase write_local_to_file commit
reserved = refl

released : (decrease IoEvent.success 4 30 (increase IoEvent.success 4 30 two_stores).1).0 ≡ ok tt
unfolding increase decrease write_local_to_file commit
released = refl

decrease-increase_example :
    let us'' = (decrease IoEvent.success 4 30 (increase IoEvent.success 4 30 two_stores).1).1 in
    (total us'' ≡ total two_stores) × ((j : StoreId) → local us'' j ≡ local two_stores j)
decrease-increase_example =
    decrease-increase IoEvent.success IoEvent.success 4 30 two_stores reserved released

add_local_store_undercounts_example :
    let us' = (add_local_store true (FoundFile.contents (FileRecord.value 12)) two_stores).1 in
    used us' ≡ total us' + 12
add_local_store_undercounts_example =
    add_local_store_undercounts true 12 two_stores two_stores-IsValid refl (omega arith)
