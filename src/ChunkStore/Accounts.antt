-- ===== src/ChunkStore/Accounts.antt =====
-- The used space that a chunk store counts and the sizes of its files
-- (src/chunk_store/mod.rs).
use sn_node.Prelude.{
  ℕ, ◌+◌, ◌≡◌, ◌⊎◌, refl, ◌∙◌, ap, inl, inr, true, none, some, List, [], ◌∷◌, arith, length, sum_by,
  All, Option-cases,
}
use sn_node.Prelude.BTreeMap.{
  BTreeMap, lookup, IsSorted, insert-IsSorted, remove-IsSorted, sum_by-insert_new, sum_by-remove,
  lookup-remove,
}
use sn_node.Errors.{Error, Result, ok, err}
use sn_node.Action.{Action, >>=-cases}
use sn_node.UsedSpace
use sn_node.UsedSpace.{UsedSpace, StoreId, IoEvent, local}
use sn_node.UsedSpace.Effects.{Effect, increase-Effect, decrease-Effect, decrease-success}
use sn_node.ChunkStore.{
  Bytes, Disk, FileWrite, ChunkStore, Codec, on_used_space, remove_found, do_delete, write_or_undo,
  put_bytes, reserve_and_write, put, delete,
}

-- The bytes in the directory.
abbrev pub stored : BTreeMap Bytes → ℕ
stored = sum_by (λ e. length e.1)

pub record Accounts (s : ChunkStore) : Type 0 where
  pub sorted : IsSorted s.files
  pub exact : local s.used_space s.id ≡ stored s.files

-- Files can be looked up and removed, and a write succeeds or does not even make the file, in which
-- case its reservation is given back.
abbrev pub IsClean : Disk → Type 0
IsClean d =
    (d.metadata_ok ≡ true)
    × (d.removed ≡ true)
    × ((d.write ≡ FileWrite.written)
        ⊎ ((d.write ≡ FileWrite.create_fails) × (d.rollback ≡ IoEvent.success)))

-- After a removal that succeeds the path is free.
abbrev Freed : ℕ → Result (Unit {0}) × ChunkStore → Type 0
Freed path (ok _, s') = Accounts s' × (lookup path s'.files ≡ none)
Freed path (err e, s') = Accounts s'

removal-Freed :
    (d : Disk) (path : ℕ) (bytes : Bytes) (s : ChunkStore)
    → d.removed ≡ true
    → Accounts s
    → lookup path s.files ≡ some bytes
    → Freed path (remove_found d path (some bytes) s)
unfolding remove_found
removal-Freed d path bytes s clean a f = ground (
  arith,
  decrease-Effect d.release s.id (length bytes) s.used_space,
  sum_by-remove (λ (e : ℕ × Bytes). length e.1) path bytes s.files a.sorted,
  remove-IsSorted path s.files a.sorted,
  lookup-remove path path s.files,
)

do_delete-Freed :
    (d : Disk) (path : ℕ) (s : ChunkStore)
    → IsClean d
    → Accounts s
    → Freed path (do_delete d path s)
unfolding do_delete
do_delete-Freed d path s (meta, removed, _) a = elim (Option-cases (lookup path s.files)) [
  | inl e ↦ rw (meta, e) (a, e)
  | inr (bytes, e) ↦ rw (meta, e) (removal-Freed d path bytes s removed a e)
]

-- What a reservation leaves for the write: the number is ahead of the files by the size.
record Reserved (path : ℕ) (bytes : Bytes) (s : ChunkStore) : Type 0 where
  sorted : IsSorted s.files
  free : lookup path s.files ≡ none
  ahead : local s.used_space s.id ≡ stored s.files + length bytes

write_or_undo-Accounts :
    (d : Disk) (path : ℕ) (bytes : Bytes) (s : ChunkStore)
    → IsClean d
    → Reserved path bytes s
    → Accounts (write_or_undo d path bytes s).1
unfolding write_or_undo
write_or_undo-Accounts d path bytes s (_, _, inl w) r =
    rw (w, write_or_undo)
      (record {
        sorted = insert-IsSorted path bytes s.files r.sorted;
        exact = omega (
          arith,
          r.ahead,
          sum_by-insert_new (λ (e : ℕ × Bytes). length e.1) path bytes s.files r.free,
        );
      })
write_or_undo-Accounts d path bytes s (_, _, inr (w, back)) r =
    rw (w, write_or_undo, back)
      (ground (arith, r, decrease-success s.id (length bytes) s.used_space))

-- A call on the counter, seen from the store.
abbrev pub Counted : ChunkStore → ℕ → Result (Unit {0}) × ChunkStore → Type 0
Counted s n (ok _, s') = (s'.id ≡ s.id) × (s'.files ≡ s.files) × (local s'.used_space s.id ≡ n)
Counted s n (err e, s') =
    (s'.id ≡ s.id) × (s'.files ≡ s.files) × (local s'.used_space s.id ≡ local s.used_space s.id)

pub Effect-Counted :
    (s : ChunkStore) (n : ℕ) (p : Result (Unit {0}) × UsedSpace)
    → Effect s.used_space s.id n p
    → Counted s n (p.0, record s { used_space = p.1 })
Effect-Counted s n (ok _, us) f = (refl, refl, f)
Effect-Counted s n (err e, us) f = (refl, refl, f)

reserve_and_write-Accounts :
    (d : Disk) (path : ℕ) (bytes : Bytes) (s : ChunkStore)
    → IsClean d
    → Accounts s
    → lookup path s.files ≡ none
    → Accounts (reserve_and_write d path bytes s).1
unfolding reserve_and_write
reserve_and_write-Accounts d path bytes s clean a free =
    let n = length bytes in
    let m : Action ChunkStore (Unit {0}) = on_used_space (UsedSpace.increase d.reserve s.id n) in
    let counted : Counted s (local s.used_space s.id + n) (m s) =
      Effect-Counted s _ _ (increase-Effect d.reserve s.id n s.used_space) in
    >>=-cases (λ p. Accounts p.1) m (λ _. write_or_undo d path bytes) s
      (λ _ s' e. write_or_undo-Accounts d path bytes s' clean (reserved s' (rw e at counted)))
      (λ x s' e. refused x s' (rw e at counted))
  where
    reserved :
        (s' : ChunkStore)
        → Counted s (local s.used_space s.id + length bytes) (ok tt, s')
        → Reserved path bytes s'
    reserved s' (i, f, l) = record {
      sorted = rw f a.sorted;
      free = rw f free;
      ahead = rw (f, i) (l ∙ ap (λ n. n + length bytes) a.exact);
    }

    refused :
        (x : Error) (s' : ChunkStore)
        → Counted s (local s.used_space s.id + length bytes) (err x, s')
        → Accounts s'
    refused x s' (i, f, l) = record { sorted = rw f a.sorted; exact = rw (f, i) (l ∙ a.exact) }

put_bytes-Accounts :
    (d : Disk) (path : ℕ) (bytes : Bytes) (s : ChunkStore)
    → IsClean d
    → Accounts s
    → Accounts (put_bytes d path bytes s).1
unfolding put_bytes
put_bytes-Accounts d path bytes s clean a =
    let freed = do_delete-Freed d path s clean a in
    >>=-cases (λ p. Accounts p.1) (do_delete d path) (λ _. reserve_and_write d path bytes) s
      (λ _ s' e.
        let f : Freed path (ok tt, s') = rw e at freed in
        reserve_and_write-Accounts d path bytes s' clean f.0 f.1)
      (λ x s' e. rw e at freed)

Freed-Accounts : (path : ℕ) (p : Result (Unit {0}) × ChunkStore) → Freed path p → Accounts p.1
Freed-Accounts path (ok _, s) f = f.0
Freed-Accounts path (err e, s) f = f

module _ (c : Codec) where
  pub put-Accounts :
      (d : Disk) (chunk : c.Chunk) (s : ChunkStore)
      → IsClean d
      → Accounts s
      → Accounts (put c d chunk s).1
  unfolding put
  put-Accounts d chunk s clean a = elim (Option-cases (c.serialise chunk)) [
    | inl e ↦ rw e a
    | inr (bytes, e) ↦ rw e (elim (Option-cases (c.file_name (c.id_of chunk))) [
      | inl no_path ↦ rw no_path a
      | inr (path, p) ↦ rw p (put_bytes-Accounts d path bytes s clean a)
    ])
  ]

  pub delete-Accounts :
      (d : Disk) (i : c.ChunkId) (s : ChunkStore)
      → IsClean d
      → Accounts s
      → Accounts (delete c d i s).1
  unfolding delete
  delete-Accounts d i s clean a = elim (Option-cases (c.file_name i)) [
    | inl e ↦ rw e a
    | inr (path, e) ↦
        rw e (Freed-Accounts path (do_delete d path s) (do_delete-Freed d path s clean a))
  ]

-- A call that changes the store, with what the disk does in it.
pub data StoreCall (c : Codec) : Type 0 where
  puts : Disk → c.Chunk → StoreCall c
  deletes : Disk → c.ChunkId → StoreCall c

module _ (c : Codec) where
  pub step : ChunkStore → StoreCall c → ChunkStore
  step s (puts d chunk) = (put c d chunk s).1
  step s (deletes d i) = (delete c d i s).1

  pub run : ChunkStore → List (StoreCall c) → ChunkStore
  run s [] = s
  run s (x ∷ xs) = run (step s x) xs

  abbrev disk_of : StoreCall c → Disk
  disk_of (puts d chunk) = d
  disk_of (deletes d i) = d

  -- As long as files can be looked up, no removal fails, and each write either succeeds or does not
  -- even create its file and has its reservation released without a fault, and if it was so at
  -- first, the number that a store keeps is the size of its files after any calls, those that fail
  -- for want of space included.
  pub run-Accounts :
      (s : ChunkStore) (xs : List (StoreCall c))
      → All (λ x. IsClean (disk_of x)) xs
      → Accounts s
      → Accounts (run s xs)
  unfolding run step
  run-Accounts s [] clean a = a
  run-Accounts s (puts d chunk ∷ xs) clean a =
      run-Accounts (put c d chunk s).1 xs clean.1 (put-Accounts c d chunk s clean.0 a)
  run-Accounts s (deletes d i ∷ xs) clean a =
      run-Accounts (delete c d i s).1 xs clean.1 (delete-Accounts c d i s clean.0 a)
