-- ===== src/Metadata/ElderStores/Capacity.antt =====
-- The space that the maps and the sequences of an elder take together, in the one counter that their
-- stores share (src/metadata/mod.rs and src/chunk_store/used_space.rs).
use sn_node.Prelude.{
  ℕ, ◌+◌, ◌≤◌, ◌≡◌, ◌≢◌, refl, sym, ◌∙◌, ap, true, List, [], ◌∷◌, arith, All, MessageId,
}
use sn_node.Errors.{ok}
use sn_node.UsedSpace
use sn_node.UsedSpace.{UsedSpace, FoundFile, FileRecord, StoreId, local}
use sn_node.UsedSpace.Bounds.{IsValid}
use sn_node.UsedSpace.Exact.{IsExact, local_two-le-used}
use sn_node.ChunkStore
use sn_node.ChunkStore.{Codec, Disk, ChunkStore}
use sn_node.ChunkStore.Accounts.{Accounts, IsClean, stored, put-Accounts, delete-Accounts}
use sn_node.ChunkStore.Sharing.{Shares, put-Shares, delete-Shares}
use sn_node.NodeOps.{EndUser, DataCmd}
use sn_node.Metadata.BlobRegister.{BlobRegister, Env}
use sn_node.Metadata.MapStorage
use sn_node.Metadata.MapStorage.{MapFormat, maps, MapStorage}
use sn_node.Metadata.MapStorage.Calls as MapCalls
use sn_node.Metadata.SequenceStorage
use sn_node.Metadata.SequenceStorage.{SequenceFormat, sequences, SequenceStorage}
use sn_node.Metadata.SequenceStorage.Calls as SequenceCalls
use sn_node.Metadata.ElderStores.{
  ElderStores, Faults, Directory, new, with_maps, with_sequences, counting, blob_written,
  map_written, sequence_written, write,
}

-- Two stores over one counter, each with its own number, which is the size of its files.
pub record Paired (capacity : ℕ) (a b : ChunkStore) : Type 0 where
  pub same : a.used_space ≡ b.used_space
  pub two : a.id ≢ b.id
  pub first : Accounts a
  pub second : Accounts b
  pub valid : IsValid a.used_space
  pub exact : IsExact a.used_space
  pub fixed : a.used_space.max_capacity ≡ capacity

Paired-swap : (capacity : ℕ) (a b : ChunkStore) → Paired capacity a b → Paired capacity b a
Paired-swap capacity a b p = record {
  same = sym p.same;
  two = λ e. p.two (sym e);
  first = p.second;
  second = p.first;
  valid = rw p.same at p.valid;
  exact = rw p.same at p.exact;
  fixed = rw p.same at p.fixed;
}

-- What one call of the first store is to keep.
abbrev Kept : ℕ → ChunkStore → ChunkStore → Type 0
Kept capacity a s = Accounts s × Shares capacity (local a.used_space) a.id s

Paired-Kept :
    (capacity : ℕ) (a b s : ChunkStore)
    → Paired capacity a b
    → Kept capacity a s
    → Paired capacity s (counting s.used_space b)
Paired-Kept capacity a b s p (accounts, (i, f)) = record {
  same = refl;
  two = λ e. p.two (sym i ∙ e);
  first = accounts;
  second = record {
    sorted = p.second.sorted;
    exact = f.apart b.id (λ e. p.two (sym e)) ∙ ap (λ u. local u b.id) p.same ∙ p.second.exact;
  };
  valid = f.valid;
  exact = f.exact;
  fixed = f.fixed;
}

Paired-within :
    (capacity : ℕ) (a b : ChunkStore)
    → Paired capacity a b
    → stored a.files + stored b.files ≤ capacity
Paired-within capacity a b p =
    let second : local a.used_space b.id ≡ stored b.files = rw p.same p.second.exact in
    omega (
      arith,
      local_two-le-used a.used_space a.id b.id p.valid.sorted p.two,
      p.first.exact,
      second,
      p.exact,
      p.valid.within,
      p.fixed,
    )

module _ (capacity : ℕ) (a b : ChunkStore) (p : Paired capacity a b) (c : Codec) where
  kept : Kept capacity a a
  kept = (
    p.first,
    (refl, record { valid = p.valid; exact = p.exact; fixed = p.fixed; apart = λ j ne. refl }),
  )

  put-Kept :
      (d : Disk) (chunk : c.Chunk) → IsClean d → Kept capacity a (ChunkStore.put c d chunk a).1
  put-Kept d chunk clean = (
    put-Accounts c d chunk a clean p.first,
    put-Shares capacity (local a.used_space) a.id c d chunk a clean.0 p.first kept.1,
  )

  delete-Kept :
      (d : Disk) (i : c.ChunkId) → IsClean d → Kept capacity a (ChunkStore.delete c d i a).1
  delete-Kept d i clean = (
    delete-Accounts c d i a clean p.first,
    delete-Shares capacity (local a.used_space) a.id c d i a clean.0 p.first kept.1,
  )

-- A command of a client, with what happens in it.
pub record Request : Type 0 where
  pub faults : Faults
  pub cmd : DataCmd
  pub id : MessageId
  pub origin : EndUser

-- A directory that is there, with nothing in it.
abbrev pub IsFresh : Directory → Type 0
IsFresh d =
    (d.dir_read ≡ true)
    × (d.record_written ≡ true)
    × (d.found ≡ FoundFile.contents FileRecord.blank)
    × (d.files ≡ [])

abbrev pub Balanced : ℕ → ElderStores → Type 0
Balanced capacity st = Paired capacity st.map_storage.chunks st.sequence_storage.chunks

module _ (env : Env) (f : MapFormat) (g : SequenceFormat) where
  step : Request → ElderStores → ElderStores
  step q st = (write env f g q.faults q.cmd q.id q.origin st).1

  unfoldable pub run : List Request → ElderStores → ElderStores
  unfolding step
  run [] st = st
  run (q ∷ qs) st = run qs (step q st)

  step-Balanced :
      (capacity : ℕ) (e : Faults) (cmd : DataCmd) (id : MessageId) (origin : EndUser)
      (st : ElderStores)
      → IsClean e.d
      → Balanced capacity st
      → Balanced capacity (write env f g e cmd id origin st).1
  unfolding write blob_written map_written sequence_written with_maps with_sequences
  step-Balanced capacity e (DataCmd.blob w) id origin st clean p = p
  step-Balanced capacity e (DataCmd.map w) id origin st clean p =
      let a = st.map_storage.chunks in
      let b = st.sequence_storage.chunks in
      Paired-Kept capacity a b _ p (
        MapCalls.write-once f (Kept capacity a) e.seen e.d w id origin st.map_storage
          (kept capacity a b p (maps f)) (λ map. put-Kept capacity a b p (maps f) e.d map clean)
          (λ i. delete-Kept capacity a b p (maps f) e.d i clean))
  step-Balanced capacity e (DataCmd.sequence w) id origin st clean p =
      let a = st.sequence_storage.chunks in
      let b = st.map_storage.chunks in
      let p' = Paired-swap capacity b a p in
      Paired-swap capacity _ _ (
        Paired-Kept capacity a b _ p' (
          SequenceCalls.write-once g (Kept capacity a) e.seen e.d w id origin st.sequence_storage
            (kept capacity a b p' (sequences g))
            (λ sequence. put-Kept capacity a b p' (sequences g) e.d sequence clean)
            (λ i. delete-Kept capacity a b p' (sequences g) e.d i clean)))

  run-Balanced :
      (capacity : ℕ) (qs : List Request) (st : ElderStores)
      → All (λ q. IsClean q.faults.d) qs
      → Balanced capacity st
      → Balanced capacity (run qs st)
  unfolding run step
  run-Balanced capacity [] st clean p = p
  run-Balanced capacity (q ∷ qs) st clean p =
      run-Balanced capacity qs (step q st) clean.1
        (step-Balanced capacity q.faults q.cmd q.id q.origin st clean.0 p)

  fresh-Balanced :
      (capacity : ℕ) (register : BlobRegister) (m q : Directory)
      → IsFresh m
      → IsFresh q
      → (st : ElderStores) × ((new register m q (UsedSpace.new capacity)).0 ≡ ok st)
        × Balanced capacity st
  unfolding new MapStorage.new SequenceStorage.new ChunkStore.new UsedSpace.new
      UsedSpace.add_local_store UsedSpace.open_local_store UsedSpace.init_record with_sequences
      local
  fresh-Balanced capacity register m q (a, b, c, e) (a', b', c', e') =
      rw (a, b, c, e, a', b', c', e')
        (
          _,
          refl,
          record {
            same = refl;
            two = λ z. omega arith;
            first = record { sorted = tt; exact = refl };
            second = record { sorted = tt; exact = refl };
            valid = record {
              within = omega arith;
              sorted = ((omega arith, tt), (tt, tt));
              fresh = (omega arith, (omega arith, tt));
            };
            exact = refl;
            fixed = refl;
          },
        )

  -- An elder that starts with two empty directories and a counter of some capacity: both stores are
  -- opened. And as long as files can be looked up, no removal of a file fails, and each write either
  -- succeeds or does not even create its file and has its reservation released without a fault,
  -- whatever commands clients then send, its maps and its sequences together take no more bytes on
  -- disk than that capacity.
  pub run_within :
      (capacity : ℕ) (register : BlobRegister) (m q : Directory) (qs : List Request)
      → IsFresh m
      → IsFresh q
      → All (λ q. IsClean q.faults.d) qs
      → (st : ElderStores) × ((new register m q (UsedSpace.new capacity)).0 ≡ ok st)
        × (stored (run qs st).map_storage.chunks.files
              + stored (run qs st).sequence_storage.chunks.files
            ≤ capacity)
  run_within capacity register m q qs fresh fresh' clean =
      let (st, opened, p) = fresh-Balanced capacity register m q fresh fresh' in
      (st, opened, Paired-within capacity _ _ (run-Balanced capacity qs st clean p))
