-- ===== src/ChunkStore/Sharing.antt =====
-- Chunk stores that share one counter of used space (src/chunk_store/mod.rs and used_space.rs): what
-- a call on one of them leaves of the numbers of the others.
use sn_node.Prelude.{
  ℕ, ◌+◌, ◌≤◌, ◌≡◌, ◌≢◌, refl, ◌∙◌, inl, inr, true, some, arith, length, Option-cases, Bool-cases,
  subst,
}
use sn_node.Prelude.BTreeMap.{BTreeMap, lookup, sum_by-remove}
use sn_node.Errors.{Result, ok, err, io}
use sn_node.Action.{Action, fail, >>=-cases}
use sn_node.UsedSpace
use sn_node.UsedSpace.{UsedSpace, StoreId, IoEvent, local, increase, decrease, commit}
use sn_node.UsedSpace.Bounds.{IsValid, increase-IsValid, decrease-IsValid}
use sn_node.UsedSpace.Exact.{
  IsExact, Moved, Moved-Done, increase-Moved, decrease-Moved, increase-IsExact, decrease-IsExact,
}
use sn_node.UsedSpace.Effects.{increase-Effect}
use sn_node.ChunkStore.{
  Bytes, Disk, FileWrite, ChunkStore, Codec, on_used_space, remove_found, do_delete, write_or_undo,
  put_bytes, reserve_and_write, put, delete, drop_file, undo, write_file,
}
use sn_node.ChunkStore.Accounts.{Counted, Effect-Counted, Accounts}

-- A counter within the capacity, whose total is the sum over the stores, and whose other stores have
-- these numbers.
pub record Fits (capacity : ℕ) (others : StoreId → ℕ) (id : StoreId) (us : UsedSpace) : Type 0 where
  pub valid : IsValid us
  pub exact : IsExact us
  pub fixed : us.max_capacity ≡ capacity
  pub apart : (j : StoreId) → j ≢ id → local us j ≡ others j

Moved-others :
    (us : UsedSpace) (id : StoreId) (t n : ℕ) (p : Result (Unit {0}) × UsedSpace) (j : StoreId)
    → Moved us id t n p
    → j ≢ id
    → local p.1 j ≡ local us j
Moved-others us id t n (ok u, us') j m ne = (Moved-Done us id t n (ok u, us') m refl).2 j ne
Moved-others us id t n (err e, us') j m ne = m.1 j

increase-max_capacity :
    (ev : IoEvent) (id : StoreId) (n : ℕ) (us : UsedSpace)
    → (increase ev id n us).1.max_capacity ≡ us.max_capacity
unfolding increase commit
increase-max_capacity ev id n us = ground arith

decrease-max_capacity :
    (ev : IoEvent) (id : StoreId) (n : ℕ) (us : UsedSpace)
    → (decrease ev id n us).1.max_capacity ≡ us.max_capacity
unfolding decrease commit
decrease-max_capacity ev id n us = ground arith

write_file-cases :
    (w : FileWrite) (path : ℕ) (bytes : Bytes) (s : ChunkStore)
    → (r : Result (Unit {0})) × (files : BTreeMap Bytes) × (write_file w path bytes s
        ≡ (r, record s { files = files }))
unfolding write_file
write_file-cases FileWrite.written path bytes s = (ok tt, _, refl)
write_file-cases FileWrite.create_fails path bytes s = (err io, s.files, refl)
write_file-cases FileWrite.sync_fails path bytes s = (err io, _, refl)
write_file-cases (FileWrite.write_fails n) path bytes s = (err io, _, refl)

module _ (capacity : ℕ) (others : StoreId → ℕ) (id : StoreId) where
  increase-Fits :
      (ev : IoEvent) (n : ℕ) (us : UsedSpace)
      → Fits capacity others id us
      → Fits capacity others id (increase ev id n us).1
  increase-Fits ev n us f = record {
    valid = increase-IsValid ev id n us f.valid;
    exact = increase-IsExact ev id n us f.valid f.exact;
    fixed = increase-max_capacity ev id n us ∙ f.fixed;
    apart = λ j ne. Moved-others us id _ _ _ j (increase-Moved ev id n us) ne ∙ f.apart j ne;
  }

  decrease-Fits :
      (ev : IoEvent) (n : ℕ) (us : UsedSpace)
      → n ≤ local us id
      → Fits capacity others id us
      → Fits capacity others id (decrease ev id n us).1
  decrease-Fits ev n us h f = record {
    valid = decrease-IsValid ev id n us f.valid;
    exact = decrease-IsExact ev id n us f.valid h f.exact;
    fixed = decrease-max_capacity ev id n us ∙ f.fixed;
    apart = λ j ne. Moved-others us id _ _ _ j (decrease-Moved ev id n us) ne ∙ f.apart j ne;
  }

  -- A store with this id, over such a counter.
  abbrev pub Shares : ChunkStore → Type 0
  Shares s = (s.id ≡ id) × Fits capacity others id s.used_space

  increase-Shares :
      (ev : IoEvent) (n : ℕ) (s : ChunkStore)
      → Shares s
      → Shares (on_used_space (UsedSpace.increase ev s.id n) s).1
  increase-Shares ev n s (i, f) = rw i (refl, increase-Fits ev n s.used_space f)

  decrease-Shares :
      (ev : IoEvent) (n : ℕ) (s : ChunkStore)
      → n ≤ local s.used_space s.id
      → Shares s
      → Shares (on_used_space (UsedSpace.decrease ev s.id n) s).1
  decrease-Shares ev n s h (i, f) = rw i (refl, decrease-Fits ev n s.used_space (rw i at h) f)

  after : {p q : Result (Unit {0}) × ChunkStore} → p ≡ q → Shares p.1 → Shares q.1
  after e h = subst (λ (p : Result (Unit {0}) × ChunkStore). Shares p.1) e h

  drop_file-Shares :
      (d : Disk) (path : ℕ) (s : ChunkStore) → Shares s → Shares (drop_file d path s).1
  unfolding drop_file
  drop_file-Shares d path s h = elim (Bool-cases d.removed) [ inl e ↦ rw e h | inr e ↦ rw e h ]

  removal-Shares :
      (d : Disk) (path : ℕ) (bytes : Bytes) (s : ChunkStore)
      → Accounts s
      → lookup path s.files ≡ some bytes
      → Shares s
      → Shares (remove_found d path (some bytes) s).1
  unfolding remove_found
  removal-Shares d path bytes s a found h =
      let held : length bytes ≤ local s.used_space s.id = omega (
        arith,
        a.exact,
        sum_by-remove (λ (e : ℕ × Bytes). length e.1) path bytes s.files a.sorted found,
      ) in
      let released = decrease-Shares d.release (length bytes) s held h in
      >>=-cases (λ p. Shares p.1) (on_used_space (UsedSpace.decrease d.release s.id (length bytes)))
        (λ _. drop_file d path) s (λ _ s' e. drop_file-Shares d path s' (after e released))
        (λ x s' e. after e released)

  do_delete-Shares :
      (d : Disk) (path : ℕ) (s : ChunkStore)
      → d.metadata_ok ≡ true
      → Accounts s
      → Shares s
      → Shares (do_delete d path s).1
  unfolding do_delete remove_found
  do_delete-Shares d path s m a h = elim (Option-cases (lookup path s.files)) [
    | inl e ↦ rw (m, e) h
    | inr (bytes, e) ↦ rw (m, e) (removal-Shares d path bytes s a e h)
  ]

  undo-Shares :
      (d : Disk) (n : ℕ) (s : ChunkStore) (r : Result (Unit {0}))
      → n ≤ local s.used_space s.id
      → Shares s
      → Shares (undo d n r s).1
  unfolding undo
  undo-Shares d n s (ok u) held h = h
  undo-Shares d n s (err x) held h =
      let back = decrease-Shares d.rollback n s held h in
      >>=-cases (λ p. Shares p.1) (on_used_space (UsedSpace.decrease d.rollback s.id n))
        (λ _. fail {A = Unit {0}} x) s (λ _ s' e. after e back) (λ y s' e. after e back)

  write_or_undo-Shares :
      (d : Disk) (path : ℕ) (bytes : Bytes) (s : ChunkStore)
      → length bytes ≤ local s.used_space s.id
      → Shares s
      → Shares (write_or_undo d path bytes s).1
  unfolding write_or_undo write_file
  write_or_undo-Shares d path bytes s held h =
      let (r, files, e) = write_file-cases d.write path bytes s in
      rw e (undo-Shares d (length bytes) (record s { files = files }) r held h)

  reserve_and_write-Shares :
      (d : Disk) (path : ℕ) (bytes : Bytes) (s : ChunkStore)
      → Shares s
      → Shares (reserve_and_write d path bytes s).1
  unfolding reserve_and_write
  reserve_and_write-Shares d path bytes s h =
      let m : Action ChunkStore (Unit {0}) =
        on_used_space (UsedSpace.increase d.reserve s.id (length bytes)) in
      let counted : Counted s (local s.used_space s.id + length bytes) (m s) =
        Effect-Counted s _ _ (increase-Effect d.reserve s.id (length bytes) s.used_space) in
      let taken = increase-Shares d.reserve (length bytes) s h in
      >>=-cases (λ p. Shares p.1) m (λ _. write_or_undo d path bytes) s
        (λ a s' e.
          let (i, f, l) =
            subst (λ p. Counted s (local s.used_space s.id + length bytes) p) e counted in
          write_or_undo-Shares d path bytes s' (rw i (omega (arith, l))) (after e taken))
        (λ x s' e. after e taken)

  put_bytes-Shares :
      (d : Disk) (path : ℕ) (bytes : Bytes) (s : ChunkStore)
      → d.metadata_ok ≡ true
      → Accounts s
      → Shares s
      → Shares (put_bytes d path bytes s).1
  unfolding put_bytes
  put_bytes-Shares d path bytes s m a h =
      let freed = do_delete-Shares d path s m a h in
      >>=-cases (λ p. Shares p.1) (do_delete d path) (λ _. reserve_and_write d path bytes) s
        (λ _ s' e. reserve_and_write-Shares d path bytes s' (after e freed))
        (λ x s' e. after e freed)

  module _ (c : Codec) where
    pub put-Shares :
        (d : Disk) (chunk : c.Chunk) (s : ChunkStore)
        → d.metadata_ok ≡ true
        → Accounts s
        → Shares s
        → Shares (put c d chunk s).1
    unfolding put
    put-Shares d chunk s m a h = elim (Option-cases (c.serialise chunk)) [
      | inl e ↦ rw e h
      | inr (bytes, e) ↦ rw e (elim (Option-cases (c.file_name (c.id_of chunk))) [
        | inl no_path ↦ rw no_path h
        | inr (path, p) ↦ rw p (put_bytes-Shares d path bytes s m a h)
      ])
    ]

    pub delete-Shares :
        (d : Disk) (i : c.ChunkId) (s : ChunkStore)
        → d.metadata_ok ≡ true
        → Accounts s
        → Shares s
        → Shares (delete c d i s).1
    unfolding delete
    delete-Shares d i s m a h = elim (Option-cases (c.file_name i)) [
      | inl e ↦ rw e h
      | inr (path, e) ↦ rw e (do_delete-Shares d path s m a h)
    ]
