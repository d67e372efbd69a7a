-- ===== src/Chunks.antt =====
-- src/chunks/mod.rs with reading.rs and writing.rs: the chunks that an adult holds, and what is done
-- with the commands and queries that elders send it.
pub mod ChunkStorage
pub mod Keeping
mod Tests
use sn_node.Prelude.{ℕ, Bool, List, [], if◌then◌else◌, XorName, MessageId}
use sn_node.Prelude.BTreeMap.{BTreeMap, BTreeSet}
use sn_node.Errors.{Result, ok, err, ◌>>=◌}
use sn_node.UsedSpace.{UsedSpace, FoundFile}
use sn_node.ChunkStore
use sn_node.ChunkStore.{Bytes, Disk}
use sn_node.NodeOps.{
  BlobAddress, Blob, EndUser, BlobWrite, BlobRead, NodeDuty, reaching_max_capacity, NodeDuties,
  from_duty,
}
use sn_node.Chunks.ChunkStorage.{BlobFormat}

pub record Chunks : Type 0 where
  pub chunk_storage : ChunkStorage.ChunkStorage

pub new :
    XorName
    → Bool
    → Result (Unit {0})
    → Bool
    → FoundFile
    → BTreeMap Bytes
    → UsedSpace
    → Result Chunks × UsedSpace
new node_name dir_read created record_written found files us =
    let (r, us') = ChunkStorage.new node_name dir_read created record_written found files us in
    (r >>= λ storage. ok (record { chunk_storage = storage }), us')

-- A duty and the storage as it was left.
handled : Result NodeDuty × ChunkStorage.ChunkStorage → Result NodeDuty × Chunks
handled (r, storage) = (r, record { chunk_storage = storage })

-- Whether the ratio of used to total space is above `MAX_STORAGE_USAGE_RATIO`, on floats, is a
-- parameter of both numbers.
pub check_storage : (ℕ → ℕ → Bool) → Chunks → Result NodeDuties
check_storage above_ratio chunks =
    let s = chunks.chunk_storage.chunks in
    if above_ratio (ChunkStore.total_used_space s) s.used_space.max_capacity
    then ok (from_duty reaching_max_capacity)
    else ok []

module _ (f : BlobFormat) where
  -- `reading::get_result`.
  pub read : Disk → BlobRead → MessageId → EndUser → Chunks → Result NodeDuty
  read d (BlobRead.get address) msg_id origin chunks =
      ChunkStorage.get f d address msg_id origin chunks.chunk_storage

  -- `writing::get_result`.
  pub write : Disk → Disk → BlobWrite → MessageId → EndUser → Chunks → Result NodeDuty × Chunks
  unfolding handled
  write seen d (BlobWrite.new blob) msg_id origin chunks =
      handled (ChunkStorage.store f seen d blob msg_id origin chunks.chunk_storage)
  write seen d (BlobWrite.delete_private address) msg_id origin chunks =
      handled (ChunkStorage.delete f seen d address msg_id origin chunks.chunk_storage)

  pub replicate_chunk : BlobAddress → BTreeSet → MessageId → Chunks → Result NodeDuty
  replicate_chunk address current_holders msg_id chunks =
      ChunkStorage.replicate_chunk f address current_holders msg_id chunks.chunk_storage

  pub get_chunk_for_replication :
      Disk → BlobAddress → MessageId → XorName → Chunks → Result NodeDuty
  get_chunk_for_replication d address msg_id new_holder chunks =
      ChunkStorage.get_for_replication f d address msg_id new_holder chunks.chunk_storage

  pub store_replicated_chunk : Disk → Disk → Blob → Chunks → Result NodeDuty × Chunks
  unfolding handled
  store_replicated_chunk seen d blob chunks =
      handled (ChunkStorage.store_for_replication f seen d blob chunks.chunk_storage)
