-- ===== src/UsedSpace/Outcomes.antt =====
-- How a reservation of space ends (src/chunk_store/used_space.rs).
use sn_node.Prelude.{
  ℕ, ◌+◌, ◌≤◌, ◌<◌, ◌≡◌, ◌≢◌, ◌⊎◌, refl, inl, inr, none, some, arith, ltb, u64_mod, Bool-cases,
  Option-cases,
}
use sn_node.Prelude.BTreeMap.{lookup, insert}
use sn_node.Errors.{Result, ok, err, io, no_store_id, not_enough_space}
use sn_node.UsedSpace.{
  UsedSpace, LocalUsedSpace, StoreId, IoEvent, value, total, local, commit, increase,
}
use sn_node.UsedSpace.Exact.{insert_same_value}

-- Whether an amount can be added to the total without passing the capacity or the largest u64.
abbrev pub HasRoom : UsedSpace → ℕ → Type 0
HasRoom us n = (total us + n ≤ us.max_capacity) × (total us + n < u64_mod)

abbrev pub IsFull : UsedSpace → ℕ → Type 0
IsFull us n = (us.max_capacity < total us + n) ⊎ (u64_mod ≤ total us + n)

-- The end of a reservation of `n` bytes for a store, by what is returned.
abbrev pub Reserves : IoEvent → StoreId → ℕ → UsedSpace → Result (Unit {0}) × UsedSpace → Type 0
Reserves ev id n us (ok _, us') =
    (ev ≡ IoEvent.success)
    × HasRoom us n
    × (local us id + n < u64_mod)
    × (lookup id us.local_stores ≢ none)
    × (us' ≡ record us {
      total_value = total us + n;
      local_stores =
          insert id
            (record { local_value = local us id + n; local_record = value (local us id + n) })
            us.local_stores;
    })
Reserves ev id n us (err e, us') =
    ((e ≡ not_enough_space) × (us' ≡ us) × (IsFull us n ⊎ (u64_mod ≤ local us id + n)))
    ⊎ (((e ≡ no_store_id) × (us' ≡ us) × HasRoom us n × (lookup id us.local_stores ≡ none))
        ⊎ ((e ≡ io)
            × (ev ≢ IoEvent.success)
            × HasRoom us n
            × (lookup id us.local_stores ≢ none)
            × (total us' ≡ total us)
            × ((j : StoreId) → local us' j ≡ local us j)))

module _ (id : StoreId) (n : ℕ) (l : LocalUsedSpace) (us : UsedSpace) where
  local_found : lookup id us.local_stores ≡ some l → local us id ≡ l.local_value
  unfolding local
  local_found found = rw found refl

  fails-Reserves :
      (ev : IoEvent) (us' : UsedSpace)
      → ev ≢ IoEvent.success
      → HasRoom us n
      → lookup id us.local_stores ≡ some l
      → total us' ≡ total us
      → ((j : StoreId) → local us' j ≡ local us j)
      → Reserves ev id n us (err io, us')
  fails-Reserves ev us' fault room found t same =
      inr (inr (refl, fault, room, (λ missing. cc), t, same))

  commit-Reserves :
      (ev : IoEvent)
      → HasRoom us n
      → l.local_value + n < u64_mod
      → lookup id us.local_stores ≡ some l
      → Reserves ev id n us (commit ev id l (total us + n) (l.local_value + n) us)
  unfolding commit local
  commit-Reserves IoEvent.success room fits found =
      rw (local_found found) (refl, room, fits, (λ missing. cc), refl)
  commit-Reserves IoEvent.set_len_fails room fits found =
      fails-Reserves IoEvent.set_len_fails _ (λ e. cc) room found refl
        (λ j. insert_same_value id l us _ j found)
  commit-Reserves ev room fits found =
      fails-Reserves ev _ (λ e. cc) room found refl (λ j. insert_same_value id l us _ j found)

-- `increase` succeeds just if the total with the amount is neither above the capacity nor above the
-- largest u64, the store is there, its own number stays in a u64, and no disk access fails: then it
-- adds the amount to the total and to the one store, on disk too. Otherwise it fails: for want of
-- space, or for want of the store where there is space, with nothing changed; or for a disk fault
-- where there are both, with no number in memory changed.
pub increase-Reserves :
    (ev : IoEvent) (id : StoreId) (n : ℕ) (us : UsedSpace)
    → Reserves ev id n us (increase ev id n us)
unfolding increase
increase-Reserves ev id n us = elim (Bool-cases (ltb (us.total_value + n) u64_mod)) [
  | inr over ↦ rw over (inl (refl, refl, inl (inr (ground arith))))
  | inl fits ↦ rw fits (elim (Bool-cases (ltb us.max_capacity (us.total_value + n))) [
    | inl full ↦ rw full (inl (refl, refl, inl (inl (ground arith))))
    | inr room ↦
        let has_room : HasRoom us n = (ground arith, ground arith) in
        rw room (elim (Option-cases (lookup id us.local_stores)) [
          | inl missing ↦ rw missing (inr (inl (refl, refl, has_room, missing)))
          | inr (l, found) ↦ elim (Bool-cases (ltb (l.local_value + n) u64_mod)) [
            | inr over ↦
                let above : u64_mod ≤ local us id + n =
                  rw (local_found id n l us found) (ground arith) in
                rw (found, over) (inl (refl, refl, inr above))
            | inl small ↦
                rw (found, small) (commit-Reserves id n l us ev has_room (ground arith) found)
          ]
        ])
  ])
]
