-- ===== src/UsedSpace/Effects.antt =====
-- What a call of src/chunk_store/used_space.rs does to the number of the one store it names.
use sn_node.Prelude.{ℕ, ◌+◌, ◌-◌, ◌≡◌, refl, inl, inr, some, arith, Option-cases}
use sn_node.Prelude.BTreeMap.{lookup, insert, lookup-insert_self}
use sn_node.Errors.{Result, ok, err}
use sn_node.UsedSpace.{
  UsedSpace, LocalUsedSpace, StoreId, IoEvent, value, local, commit, increase, decrease,
}
use sn_node.UsedSpace.Exact.{Moved, Moved-Done, increase-Moved, decrease-Moved}

-- A call set the number of the store, or failed and left it as it was.
abbrev pub Effect : UsedSpace → StoreId → ℕ → Result (Unit {0}) × UsedSpace → Type 0
Effect us id n (ok _, us') = local us' id ≡ n
Effect us id n (err e, us') = local us' id ≡ local us id

Moved-Effect :
    (us : UsedSpace) (id : StoreId) (t n : ℕ) (p : Result (Unit {0}) × UsedSpace)
    → Moved us id t n p
    → Effect us id n p
Moved-Effect us id t n (ok u, us') m = (Moved-Done us id t n (ok u, us') m refl).1
Moved-Effect us id t n (err e, us') m = m.1 id

pub increase-Effect :
    (ev : IoEvent) (id : StoreId) (n : ℕ) (us : UsedSpace)
    → Effect us id (local us id + n) (increase ev id n us)
increase-Effect ev id n us = Moved-Effect us id _ _ _ (increase-Moved ev id n us)

pub decrease-Effect :
    (ev : IoEvent) (id : StoreId) (n : ℕ) (us : UsedSpace)
    → Effect us id (local us id - n) (decrease ev id n us)
decrease-Effect ev id n us = Moved-Effect us id _ _ _ (decrease-Moved ev id n us)

-- On a disk that works `decrease` always takes effect.
pub decrease-success :
    (id : StoreId) (n : ℕ) (us : UsedSpace)
    → local (decrease IoEvent.success id n us).1 id ≡ local us id - n
unfolding decrease commit local
decrease-success id n us = elim (Option-cases (lookup id us.local_stores)) [
  | inl missing ↦ ground arith
  | inr (l, found) ↦ ground (
    arith,
    lookup-insert_self id
        (record { local_value = l.local_value - n; local_record = value (l.local_value - n) })
        us.local_stores,
  )
]

-- What it leaves, where the store is registered.
pub decrease_done :
    (id : StoreId) (n : ℕ) (us : UsedSpace) (l : LocalUsedSpace)
    → lookup id us.local_stores ≡ some l
    → decrease IoEvent.success id n us ≡ (
      ok tt,
      record us {
        total_value = us.total_value - n;
        local_stores =
            insert id
              (record { local_value = l.local_value - n; local_record = value (l.local_value - n) })
              us.local_stores;
      },
    )
unfolding decrease commit
decrease_done id n us l found = rw found
