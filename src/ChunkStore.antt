-- ===== src/ChunkStore.antt =====
-- src/chunk_store/mod.rs: chunks as files of one directory, within the space that is allowed.
-- Serialisation, hex names and the file system are not of this repository. A `Codec` stands for
-- the first two; `Disk` says what the file system does in one call. A path is a number.
pub mod Accounts
pub mod Contents
pub mod Refinement
pub mod Sharing
mod Tests
use sn_node.Prelude.{
  ℕ, zero, suc, Bool, true, false, Option, none, some, List, [], ◌∷◌, length, if◌then◌else◌,
}
use sn_node.Prelude.BTreeMap.{BTreeMap, lookup, insert, remove, contains_key}
use sn_node.Errors.{Error, Result, ok, err, ok_or, no_such_chunk, io, bincode}
use sn_node.Errors
use sn_node.Action.{Action, pure, fail, lift, gets, ◌>>=◌, ◌>>◌, modify}
use sn_node.UsedSpace
use sn_node.UsedSpace.{UsedSpace, StoreId, IoEvent, FoundFile}

abbrev pub Bytes : Type 0
Bytes = List ℕ

pub record Codec : Type 1 where
  pub Chunk : Type 0
  pub ChunkId : Type 0
  pub id_of : Chunk → ChunkId
  pub id_eq : ChunkId → ChunkId → Bool
  pub serialise : Chunk → Option Bytes
  pub deserialise : Bytes → Option Chunk
  pub file_name : ChunkId → Option ℕ
  pub to_chunk_id : ℕ → Option ChunkId

-- How the write of a chunk's file ends; `write_fails n` leaves the first `n` bytes in it.
pub data FileWrite : Type 0 where
  written create_fails sync_fails : FileWrite
  write_fails : ℕ → FileWrite

pub data FileRead : Type 0 where
  reads open_fails read_fails : FileRead

pub record Disk : Type 0 where
  pub metadata_ok : Bool
  pub release : IoEvent
  pub removed : Bool
  pub reserve : IoEvent
  pub write : FileWrite
  pub rollback : IoEvent
  pub read : FileRead

-- The store, with the counter of used space that it shares with the other stores of the node.
pub record ChunkStore : Type 0 where
  pub id : StoreId
  pub files : BTreeMap Bytes
  pub used_space : UsedSpace

abbrev take : ℕ → Bytes → Bytes
take zero bs = []
take (suc n) [] = []
take (suc n) (b ∷ bs) = b ∷ take n bs

-- A call on the shared counter.
abbrev pub on_used_space : {A : Type 0} → Action UsedSpace A → Action ChunkStore A
on_used_space m s = let (r, us) = m s.used_space in (r, record s { used_space = us })

abbrev check_io : Bool → Result (Unit {0})
check_io true = ok tt
check_io false = err io

-- `new`: the directory is made unless it can be read, and the store is registered. The files are
-- those that the directory holds.
unfoldable pub new :
    Bool → Result (Unit {0}) → Bool → FoundFile → BTreeMap Bytes → Action UsedSpace ChunkStore
new dir_read created record_written found files = do
  lift (if dir_read then ok tt else created)
  id ← UsedSpace.add_local_store record_written found
  us ← gets (λ us. us)
  pure (record { id = id; files = files; used_space = us })

drop_file : Disk → ℕ → Action ChunkStore (Unit {0})
drop_file d path = do
  lift (check_io d.removed)
  modify λ s. record s { files = remove path s.files }

-- Removal of the file that `metadata` found; what it cannot see counts as absent.
remove_found : Disk → ℕ → Option Bytes → Action ChunkStore (Unit {0})
unfolding drop_file
remove_found d path none = pure tt
remove_found d path (some bytes) = do
  id ← gets (λ s. s.id)
  on_used_space (UsedSpace.decrease d.release id (length bytes))
  drop_file d path

unfoldable pub do_delete : Disk → ℕ → Action ChunkStore (Unit {0})
unfolding remove_found
do_delete d path s = remove_found d path (if d.metadata_ok then lookup path s.files else none) s

write_file : FileWrite → ℕ → Bytes → Action ChunkStore (Unit {0})
write_file written path bytes s = (ok tt, record s { files = insert path bytes s.files })
write_file create_fails path bytes s = (err io, s)
write_file sync_fails path bytes s = (err io, record s { files = insert path bytes s.files })
write_file (write_fails n) path bytes s =
    (err io, record s { files = insert path (take n bytes) s.files })

-- A failed write gives its reservation back.
undo : Disk → ℕ → Result (Unit {0}) → Action ChunkStore (Unit {0})
undo d n (ok _) = pure tt
undo d n (err e) = do
  id ← gets (λ s. s.id)
  on_used_space (UsedSpace.decrease d.rollback id n)
  fail e

unfoldable pub write_or_undo : Disk → ℕ → Bytes → Action ChunkStore (Unit {0})
unfolding write_file undo
write_or_undo d path bytes s =
    let (r, s') = write_file d.write path bytes s in undo d (length bytes) r s'

-- `put` from where the old file is gone, and from where the chunk is serialised.
unfoldable pub reserve_and_write : Disk → ℕ → Bytes → Action ChunkStore (Unit {0})
reserve_and_write d path bytes = do
  id ← gets (λ s. s.id)
  on_used_space (UsedSpace.increase d.reserve id (length bytes))
  write_or_undo d path bytes

unfoldable pub put_bytes : Disk → ℕ → Bytes → Action ChunkStore (Unit {0})
put_bytes d path bytes = do do_delete d path; reserve_and_write d path bytes

pub total_used_space : ChunkStore → ℕ
total_used_space s = UsedSpace.total s.used_space

module _ (c : Codec) where
  open c use {Chunk, ChunkId, id_of, id_eq, serialise, deserialise, file_name, to_chunk_id}

  unfoldable pub file_path : ChunkId → Result ℕ
  file_path i = ok_or (file_name i) bincode

  unfoldable pub put : Disk → Chunk → Action ChunkStore (Unit {0})
  unfolding file_path
  put d chunk = do
    bytes ← lift (ok_or (serialise chunk) bincode)
    path ← lift (file_path (id_of chunk))
    put_bytes d path bytes

  unfoldable pub delete : Disk → ChunkId → Action ChunkStore (Unit {0})
  unfolding file_path
  delete d i = do path ← lift (file_path i); do_delete d path

  read_file : FileRead → Option Bytes → Result Bytes
  read_file open_fails b = err no_such_chunk
  read_file r none = err no_such_chunk
  read_file read_fails (some b) = err io
  read_file reads (some b) = ok b

  decode : ChunkId → Bytes → Result Chunk
  decode i bytes =
      Errors.◌>>=◌ (ok_or (deserialise bytes) bincode)
        λ chunk. if id_eq (id_of chunk) i then ok chunk else err no_such_chunk

  unfoldable pub get : Disk → ChunkStore → ChunkId → Result Chunk
  unfolding file_path read_file decode
  get d s i =
      Errors.◌>>=◌ (file_path i)
        λ path. Errors.◌>>=◌ (read_file d.read (lookup path s.files)) λ bytes. decode i bytes

  unfoldable pub has : Disk → ChunkStore → ChunkId → Bool
  has d s i = elim (file_name i) [
    | none ↦ false
    | some path ↦ if d.metadata_ok then contains_key path s.files else false
  ]

  ids_of : BTreeMap Bytes → List ChunkId
  ids_of [] = []
  ids_of ((path, _) ∷ files) = elim (to_chunk_id path) [
    | none ↦ ids_of files
    | some i ↦ i ∷ ids_of files
  ]

  -- `keys`: what the directory lists, as far as its names are those of chunks.
  pub keys : Bool → ChunkStore → List ChunkId
  unfolding ids_of
  keys listed s = if listed then ids_of s.files else []
