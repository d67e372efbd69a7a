-- ===== src/UsedSpace/Bounds.antt =====
-- The bounds on the numbers of src/chunk_store/used_space.rs.
use sn_node.Prelude.{
  Bool, ℕ, ◌+◌, ◌-◌, inl, inr, ◌≤◌, ◌<◌, ◌≡◌, refl, none, some, List, [], ◌∷◌, arith, u64_mod, All,
  length, ◌∙◌, Option-cases,
}
use sn_node.Prelude.BTreeMap.{BTreeMap, lookup, insert, IsSorted, Above, insert-IsSorted}
use sn_node.Errors.{Result-cases}
use sn_node.UsedSpace.{
  UsedSpace, LocalUsedSpace, StoreId, IoEvent, FoundFile, Call, resets, adds, increases, decreases,
  new, total, reset_stores, reset, open_local_store, commit, add_local_store, increase, decrease,
  step, run,
}

-- The ids in use are below the next one.
abbrev pub Below : ℕ → BTreeMap LocalUsedSpace → Type 0
Below n = All (λ e. e.0 < n)

-- The total stays within the capacity, and ids name one store each.
pub record IsValid (us : UsedSpace) : Type 0 where
  pub within : us.total_value ≤ us.max_capacity
  pub sorted : IsSorted us.local_stores
  pub fresh : Below us.next_id us.local_stores

-- Opening the next store does not wrap the ids.
abbrev pub HasRoom : UsedSpace → Type 0
HasRoom us = us.next_id + 1 < u64_mod

insert-Below :
    (n k : ℕ) (l : LocalUsedSpace) (m : BTreeMap LocalUsedSpace)
    → k < n
    → Below n m
    → Below n (insert k l m)
insert-Below n k l [] h b = (h, tt)
insert-Below n k l (e ∷ m) h b = ground (arith, insert-Below n k l m h b.1)

Below-mono : (n k : ℕ) (m : BTreeMap LocalUsedSpace) → n ≤ k → Below n m → Below k m
Below-mono n k [] h b = tt
Below-mono n k (e ∷ m) h b = (omega arith, Below-mono n k m h b.1)

lookup-Below :
    (n k : ℕ) (l : LocalUsedSpace) (m : BTreeMap LocalUsedSpace)
    → Below n m
    → lookup k m ≡ some l
    → k < n
lookup-Below n k l [] b e = cc
lookup-Below n k l (x ∷ m) b e = ground (arith, lookup-Below n k l m b.1)

-- An id that was not given out yet names no store.
pub lookup-fresh : (n k : ℕ) (m : BTreeMap LocalUsedSpace) → Below n m → n ≤ k → lookup k m ≡ none
lookup-fresh n k [] b h = refl
lookup-fresh n k (e ∷ m) b h = ground (arith, lookup-fresh n k m b.1)

reset_stores-Above :
    (ev : StoreId → IoEvent) (i : ℕ) (m : BTreeMap LocalUsedSpace)
    → Above i m
    → Above i (reset_stores ev m)
unfolding reset_stores
reset_stores-Above ev i [] a = tt
reset_stores-Above ev i (e ∷ m) a = (a.0, reset_stores-Above ev i m a.1)

reset_stores-IsSorted :
    (ev : StoreId → IoEvent) (m : BTreeMap LocalUsedSpace)
    → IsSorted m
    → IsSorted (reset_stores ev m)
unfolding reset_stores
reset_stores-IsSorted ev [] s = tt
reset_stores-IsSorted ev (e ∷ m) s =
    (reset_stores-Above ev e.0 m s.0, reset_stores-IsSorted ev m s.1)

reset_stores-Below :
    (ev : StoreId → IoEvent) (n : ℕ) (m : BTreeMap LocalUsedSpace)
    → Below n m
    → Below n (reset_stores ev m)
unfolding reset_stores
reset_stores-Below ev n [] b = tt
reset_stores-Below ev n (e ∷ m) b = (b.0, reset_stores-Below ev n m b.1)

reset-IsValid : (ev : StoreId → IoEvent) (us : UsedSpace) → IsValid us → IsValid (reset ev us)
unfolding reset
reset-IsValid ev us v = record {
  within = omega arith;
  sorted = reset_stores-IsSorted ev us.local_stores v.sorted;
  fresh = reset_stores-Below ev us.next_id us.local_stores v.fresh;
}

add_local_store-IsValid :
    (written : Bool) (found : FoundFile) (us : UsedSpace)
    → HasRoom us
    → IsValid us
    → IsValid (add_local_store written found us).1
unfolding add_local_store
add_local_store-IsValid written found us room v =
    elim (Result-cases (open_local_store written found)) [
      | inl (l, e) ↦ rw e (record {
        within = v.within;
        sorted = insert-IsSorted us.next_id l us.local_stores v.sorted;
        fresh =
            insert-Below _ us.next_id l us.local_stores (omega arith)
              (Below-mono us.next_id _ us.local_stores (omega arith) v.fresh);
      })
      | inr (f, e) ↦ rw e v
    ]

module _ (id : StoreId) (l : LocalUsedSpace) (us : UsedSpace) where
  stored-IsValid :
      (x : LocalUsedSpace) (new_total : ℕ)
      → IsValid us
      → lookup id us.local_stores ≡ some l
      → new_total ≤ us.max_capacity
      → IsValid (record us { total_value = new_total; local_stores = insert id x us.local_stores })
  stored-IsValid x new_total v found fits = record {
    within = fits;
    sorted = insert-IsSorted id x us.local_stores v.sorted;
    fresh =
        insert-Below us.next_id id x us.local_stores
          (lookup-Below us.next_id id l us.local_stores v.fresh found) v.fresh;
  }

  commit-IsValid :
      (ev : IoEvent) (new_total new_local : ℕ)
      → IsValid us
      → lookup id us.local_stores ≡ some l
      → new_total ≤ us.max_capacity
      → IsValid (commit ev id l new_total new_local us).1
  unfolding commit
  commit-IsValid IoEvent.success t n v found fits = stored-IsValid _ t v found fits
  commit-IsValid IoEvent.set_len_fails t n v found fits =
      stored-IsValid _ us.total_value v found v.within
  commit-IsValid _ t n v found fits = stored-IsValid _ us.total_value v found v.within

pub increase-IsValid :
    (ev : IoEvent) (id : StoreId) (n : ℕ) (us : UsedSpace)
    → IsValid us
    → IsValid (increase ev id n us).1
unfolding increase
increase-IsValid ev id n us v = elim (Option-cases (lookup id us.local_stores)) [
  | inl missing ↦ ground arith
  | inr (l, found) ↦
      ground (arith, commit-IsValid id l us ev (us.total_value + n) (l.local_value + n) v found)
]

pub decrease-IsValid :
    (ev : IoEvent) (id : StoreId) (n : ℕ) (us : UsedSpace)
    → IsValid us
    → IsValid (decrease ev id n us).1
unfolding decrease
decrease-IsValid ev id n us v = elim (Option-cases (lookup id us.local_stores)) [
  | inl missing ↦ ground arith
  | inr (l, found) ↦ ground (
    arith,
    commit-IsValid id l us ev (us.total_value - n) (l.local_value - n) v found
        (let w = v.within in omega arith),
  )
]

-- Within the ids, every method keeps the invariant, whether it succeeds or fails.
step-IsValid : (us : UsedSpace) (c : Call) → HasRoom us → IsValid us → IsValid (step us c)
unfolding step
step-IsValid us (resets ev) room v = reset-IsValid ev us v
step-IsValid us (adds written found) room v = add_local_store-IsValid written found us room v
step-IsValid us (increases ev id n) room v = increase-IsValid ev id n us v
step-IsValid us (decreases ev id n) room v = decrease-IsValid ev id n us v

-- The capacity is fixed, and a call takes at most one id.
step_frame :
    (us : UsedSpace) (c : Call)
    → HasRoom us
    → ((step us c).max_capacity ≡ us.max_capacity) × ((step us c).next_id ≤ us.next_id + 1)
unfolding step reset add_local_store increase decrease commit
step_frame us (resets ev) room = (refl, omega arith)
step_frame us (adds written found) room = ground arith
step_frame us (increases ev id n) room = ground arith
step_frame us (decreases ev id n) room = ground arith

run-IsValid :
    (us : UsedSpace) (cs : List Call)
    → us.next_id + length cs < u64_mod
    → IsValid us
    → IsValid (run us cs) × ((run us cs).max_capacity ≡ us.max_capacity)
unfolding run
run-IsValid us [] room v = (v, refl)
run-IsValid us (c ∷ cs) room v =
    let here : HasRoom us = omega arith in
    let frame = step_frame us c here in
    let rest = run-IsValid (step us c) cs (omega arith) (step-IsValid us c here v) in
    (rest.0, rest.1 ∙ frame.0)

-- After any history of calls on a new object, with any disk faults and up to 2^64 - 1 calls, the
-- total is within the capacity that the object was made with, and no id names two stores.
pub run_bounded :
    (max_capacity : ℕ) (cs : List Call)
    → length cs < u64_mod
    → let us = run (new max_capacity) cs in
      (total us ≤ max_capacity) × IsSorted us.local_stores × Below us.next_id us.local_stores
unfolding new
run_bounded max_capacity cs room =
    let (v, e) =
      run-IsValid (new max_capacity) cs (omega arith)
        (record { within = omega arith; sorted = tt; fresh = tt }) in
    (let w = v.within in omega arith, v.sorted, v.fresh)
