-- ===== src/Transfers/Store/Tests.antt =====
-- Runs of src/transfers/store.rs, and the theorem about it at a concrete history.
use mathlib.Core.List.{Permᴰ}
use sn_node.Prelude.{ℕ, ◌≡◌, refl, Bool, true, false, List, [], ◌∷◌}
use sn_node.Errors.{err, logic}
use sn_node.Transfers.Store.{get_all, try_insert}
use sn_node.Transfers.Store.History.{insert_all, written_of, get_all-insert_all}
use sn_node.Transfers.Store.Sorting.{keys_of}

-- The second write fails.
abbrev history : List (Bool × ℕ)
history = (true, 50) ∷ (false, 60) ∷ (true, 40) ∷ (true, 70) ∷ []

get_all-history :
    get_all (2 ∷ 0 ∷ 1 ∷ []) (insert_all (record { id = 9; db = [] }) history) ≡ 50 ∷ 40 ∷ 70 ∷ []
unfolding get_all insert_all try_insert
get_all-history = refl

-- A store whose numbers have a gap refuses the next event.
try_insert-gap :
    try_insert {E = ℕ} true 60 (record { id = 9; db = (0, 50) ∷ (2, 40) ∷ [] })
    ≡ (err logic, record { id = 9; db = (0, 50) ∷ (2, 40) ∷ [] })
unfolding try_insert
try_insert-gap = refl

listed : Permᴰ (1 ∷ 0 ∷ 2 ∷ []) (keys_of (insert_all (record { id = 9; db = [] }) history).db)
unfolding insert_all try_insert keys_of
listed = Permᴰ.swap refl refl

get_all-insert_all_example :
    get_all (1 ∷ 0 ∷ 2 ∷ []) (insert_all (record { id = 9; db = [] }) history) ≡ written_of history
get_all-insert_all_example = get_all-insert_all 9 history (1 ∷ 0 ∷ 2 ∷ []) listed
