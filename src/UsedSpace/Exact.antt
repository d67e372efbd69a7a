-- ===== src/UsedSpace/Exact.antt =====
-- How exactly the totals of src/chunk_store/used_space.rs are kept.
use sn_node.Prelude.{
  ℕ, ◌+◌, ◌-◌, ◌≤◌, ◌<◌, ◌≡◌, ◌≢◌, refl, sym, ◌∙◌, ap, inl, inr, Bool, some, [], ◌∷◌, arith,
  u64_mod, sum_by, ℕ_discrete, Option-cases,
}
use sn_node.Prelude.BTreeMap.{
  BTreeMap, lookup, insert, IsSorted, lookup-insert, lookup-insert_self, lookup-insert_ne,
  sum_by-insert, sum_by-insert_new,
}
use sn_node.Errors.{Error, Result, ok, err}
use sn_node.UsedSpace.{
  UsedSpace, LocalUsedSpace, StoreId, IoEvent, FileRecord, contents, value, total, local, local_of,
  commit, add_local_store, open_local_store, increase, decrease,
}
use sn_node.UsedSpace.Bounds.{IsValid, lookup-fresh}

-- The sum of what the stores use.
abbrev pub used : UsedSpace → ℕ
used us = sum_by (λ e. (e.1).local_value) us.local_stores

abbrev pub IsExact : UsedSpace → Type 0
IsExact us = us.total_value ≡ used us

-- A call set the total and one store, on disk too; or it failed and left every number in memory as
-- it was.
abbrev pub Moved : UsedSpace → StoreId → ℕ → ℕ → Result (Unit {0}) × UsedSpace → Type 0
Moved us id t n (ok _, us') = us' ≡ record us {
  total_value = t;
  local_stores = insert id (record { local_value = n; local_record = value n }) us.local_stores;
}
Moved us id t n (err e, us') = (total us' ≡ total us) × ((j : StoreId) → local us' j ≡ local us j)

module _ (id : StoreId) (l : LocalUsedSpace) (us : UsedSpace) where
  pub insert_same_value :
      (r : FileRecord) (j : StoreId)
      → lookup id us.local_stores ≡ some l
      → local_of (lookup j (insert id (record l { local_record = r }) us.local_stores))
        ≡ local_of (lookup j us.local_stores)
  insert_same_value r j found =
      ground (arith, lookup-insert id j (record l { local_record = r }) us.local_stores)

  commit-Moved :
      (ev : IoEvent) (t n : ℕ)
      → lookup id us.local_stores ≡ some l
      → Moved us id t n (commit ev id l t n us)
  unfolding commit local
  commit-Moved IoEvent.success t n found = refl
  commit-Moved IoEvent.set_len_fails t n found = (refl, λ j. insert_same_value _ j found)
  commit-Moved _ t n found = (refl, λ j. insert_same_value _ j found)

pub increase-Moved :
    (ev : IoEvent) (id : StoreId) (n : ℕ) (us : UsedSpace)
    → Moved us id (total us + n) (local us id + n) (increase ev id n us)
unfolding increase local
increase-Moved ev id n us = elim (Option-cases (lookup id us.local_stores)) [
  | inl missing ↦ ground arith
  | inr (l, found) ↦
      ground (arith, commit-Moved id l us ev (us.total_value + n) (l.local_value + n) found)
]

pub decrease-Moved :
    (ev : IoEvent) (id : StoreId) (n : ℕ) (us : UsedSpace)
    → Moved us id (total us - n) (local us id - n) (decrease ev id n us)
unfolding decrease local
decrease-Moved ev id n us = elim (Option-cases (lookup id us.local_stores)) [
  | inl missing ↦ ground arith
  | inr (l, found) ↦
      ground (arith, commit-Moved id l us ev (us.total_value - n) (l.local_value - n) found)
]

-- The numbers of one store after an insertion into an exact state.
module _ (id : StoreId) (l x : LocalUsedSpace) (us : UsedSpace) where
  used-insert :
      IsSorted us.local_stores
      → lookup id us.local_stores ≡ some l
      → used (record us { local_stores = insert id x us.local_stores }) + l.local_value
        ≡ used us + x.local_value
  used-insert s found = sum_by-insert (λ e. (e.1).local_value) id x l us.local_stores s found

local-le-used :
    (id : StoreId) (l : LocalUsedSpace) (m : BTreeMap LocalUsedSpace)
    → lookup id m ≡ some l
    → l.local_value ≤ sum_by (λ (e : ℕ × LocalUsedSpace). (e.1).local_value) m
local-le-used id l [] found = cc
local-le-used id l (e ∷ m) found = ground (arith, local-le-used id l m)

module _ (id : StoreId) (l : LocalUsedSpace) (us : UsedSpace) where
  commit-IsExact :
      (ev : IoEvent) (t n : ℕ)
      → IsSorted us.local_stores
      → lookup id us.local_stores ≡ some l
      → t + l.local_value ≡ us.total_value + n
      → IsExact us
      → IsExact (commit ev id l t n us).1
  unfolding commit
  commit-IsExact IoEvent.success t n s found e x = omega (arith, used-insert id l _ us s found)
  commit-IsExact IoEvent.set_len_fails t n s found e x =
      omega (arith, used-insert id l (record l { local_record = _ }) us s found)
  commit-IsExact _ t n s found e x =
      omega (arith, used-insert id l (record l { local_record = _ }) us s found)

-- In a valid state `increase` keeps the total equal to the sum over the stores, whether or not it
-- succeeds.
pub increase-IsExact :
    (ev : IoEvent) (id : StoreId) (n : ℕ) (us : UsedSpace)
    → IsValid us
    → IsExact us
    → IsExact (increase ev id n us).1
unfolding increase
increase-IsExact ev id n us v x = elim (Option-cases (lookup id us.local_stores)) [
  | inl missing ↦ ground arith
  | inr (l, found) ↦ ground (
    arith,
    commit-IsExact id l us ev (us.total_value + n) (l.local_value + n) v.sorted found (omega arith)
        x,
  )
]

-- In a valid state `decrease` by at most what the store uses keeps the total equal to the sum over
-- the stores, whether or not it succeeds.
pub decrease-IsExact :
    (ev : IoEvent) (id : StoreId) (n : ℕ) (us : UsedSpace)
    → IsValid us
    → n ≤ local us id
    → IsExact us
    → IsExact (decrease ev id n us).1
unfolding decrease local
decrease-IsExact ev id n us v h x = elim (Option-cases (lookup id us.local_stores)) [
  | inl missing ↦ ground arith
  | inr (l, found) ↦
      let le = local-le-used id l us.local_stores found in
      ground (
        arith,
        commit-IsExact id l us ev (us.total_value - n) (l.local_value - n) v.sorted found
            (let h' : n ≤ l.local_value = ground arith in omega arith) x,
      )
]

-- Of two stores, the numbers together are within the sum over all.
pub local_two-le-used :
    (us : UsedSpace) (i j : StoreId)
    → IsSorted us.local_stores
    → i ≢ j
    → local us i + local us j ≤ used us
unfolding local
local_two-le-used us i j sorted ne = two us.local_stores sorted
  where
    one :
        (k : StoreId) (m : BTreeMap LocalUsedSpace)
        → local_of (lookup k m) ≤ sum_by (λ (e : ℕ × LocalUsedSpace). (e.1).local_value) m
    one k [] = omega arith
    one k (e ∷ m) = ground (arith, one k m)

    two :
        (m : BTreeMap LocalUsedSpace)
        → IsSorted m
        → local_of (lookup i m) + local_of (lookup j m)
          ≤ sum_by (λ (e : ℕ × LocalUsedSpace). (e.1).local_value) m
    two [] sorted = omega arith
    two (e ∷ m) sorted = ground (arith, two m sorted.1, one i m, one j m, ne)

-- With room, with the store open, with a total that is the sum over the stores, with a capacity
-- that is a u64 and with a disk that works, `increase` succeeds.
pub increase-ok :
    (id : StoreId) (n : ℕ) (us : UsedSpace) (l : LocalUsedSpace)
    → lookup id us.local_stores ≡ some l
    → IsExact us
    → us.max_capacity < u64_mod
    → us.total_value + n ≤ us.max_capacity
    → (increase IoEvent.success id n us).0 ≡ ok tt
unfolding increase commit
increase-ok id n us l found x small room = ground (arith, local-le-used id l us.local_stores found)

-- What is beyond the capacity is refused, and nothing changes.
pub increase_full :
    (ev : IoEvent) (id : StoreId) (n : ℕ) (us : UsedSpace)
    → us.max_capacity < us.total_value + n
    → increase ev id n us ≡ (err Error.not_enough_space, us)
unfolding increase
increase_full ev id n us h = ground arith

abbrev pub Done : UsedSpace → StoreId → ℕ → ℕ → UsedSpace → Type 0
Done us id t n us' =
    (total us' ≡ t) × (local us' id ≡ n) × ((j : StoreId) → j ≢ id → local us' j ≡ local us j)

pub Moved-Done :
    (us : UsedSpace) (id : StoreId) (t n : ℕ) (p : Result (Unit {0}) × UsedSpace)
    → Moved us id t n p
    → p.0 ≡ ok tt
    → Done us id t n p.1
unfolding local
Moved-Done us id t n (ok _, us') m h = (
  ap total m,
  ap (λ u. local u id) m ∙ ap local_of (lookup-insert_self id _ us.local_stores),
  λ j ne.
      ap (λ u. local u j) m
      ∙ ap local_of (lookup-insert_ne id j _ us.local_stores (λ e. ne (sym e))),
)
Moved-Done us id t n (err e, us') m h = cc

-- If a reservation and the release of the same amount both succeed, the total and the number of
-- every store are as before.
pub decrease-increase :
    (ev ev' : IoEvent) (id : StoreId) (n : ℕ) (us : UsedSpace)
    → (increase ev id n us).0 ≡ ok tt
    → (decrease ev' id n (increase ev id n us).1).0 ≡ ok tt
    → let us'' = (decrease ev' id n (increase ev id n us).1).1 in
      (total us'' ≡ total us) × ((j : StoreId) → local us'' j ≡ local us j)
decrease-increase ev ev' id n us h k =
    let us' = (increase ev id n us).1 in
    let a = Moved-Done us id _ _ (increase ev id n us) (increase-Moved ev id n us) h in
    let b = Moved-Done us' id _ _ (decrease ev' id n us') (decrease-Moved ev' id n us') k in
    (
      omega (arith, a.0, b.0),
      λ j. elim (ℕ_discrete j id) [
        | yes e ↦ rw e (omega (arith, a.1, b.1))
        | no ne ↦ b.2 j ne ∙ a.2 j ne
      ],
    )

-- From a valid state with an exact total, a store that is opened on a file with a positive value
-- adds that value to its own number only: the total is short of what the node had stored before it
-- restarted.
pub add_local_store_undercounts :
    (written : Bool) (n : ℕ) (us : UsedSpace)
    → IsValid us
    → IsExact us
    → 0 < n
    → let us' = (add_local_store written (contents (value n)) us).1 in used us' ≡ total us' + n
unfolding add_local_store open_local_store
add_local_store_undercounts written n us v x pos = omega (
  arith,
  sum_by-insert_new (λ (e : ℕ × LocalUsedSpace). (e.1).local_value) us.next_id
      (record { local_value = n; local_record = value n }) us.local_stores
      (lookup-fresh us.next_id us.next_id us.local_stores v.fresh (omega arith)),
)
