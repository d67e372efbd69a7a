-- ===== src/Metadata/ElderStores.antt =====
-- src/metadata/mod.rs with elder_stores.rs, reading.rs and writing.rs: the three storages of an
-- elder, and which of them a command or a query of a client goes to.
-- The storages of maps and of sequences count their space in one `UsedSpace`: each of them holds it,
-- and a call on one hands what it has made of it to the other.
pub mod Capacity
mod Tests
use sn_node.Prelude.{Bool, XorName, MessageId}
use sn_node.Prelude.BTreeMap.{BTreeMap}
use sn_node.Errors.{Result}
use sn_node.Action.{Action, pure, gets, ◌>>=◌}
use sn_node.UsedSpace.{UsedSpace, FoundFile}
use sn_node.ChunkStore.{Bytes, Disk, ChunkStore}
use sn_node.NodeOps.{EndUser, DataCmd, DataQuery, NodeDuty, NodeDuties, MapWrite, SequenceWrite}
use sn_node.Metadata.BlobRegister.{BlobRegister, Env, Writes}
use sn_node.Metadata.BlobRegister.Handlers
use sn_node.Metadata.MapStorage
use sn_node.Metadata.MapStorage.{MapFormat, MapStorage}
use sn_node.Metadata.MapStorage.Queries as MapQueries
use sn_node.Metadata.SequenceStorage
use sn_node.Metadata.SequenceStorage.{SequenceFormat, SequenceStorage}
use sn_node.Metadata.SequenceStorage.Queries as SequenceQueries

pub record ElderStores : Type 0 where
  pub blob_register : BlobRegister
  pub map_storage : MapStorage
  pub sequence_storage : SequenceStorage

-- What the opening of a chunk store meets on disk.
pub record Directory : Type 0 where
  pub dir_read : Bool
  pub created : Result (Unit {0})
  pub record_written : Bool
  pub found : FoundFile
  pub files : BTreeMap Bytes

-- What happens in one command: the writes of the databases, and the disk at the test whether a
-- chunk is there and at the other calls.
pub record Faults : Type 0 where
  pub writes : Writes
  pub seen : Disk
  pub d : Disk

-- The counter as the other storage has left it.
abbrev pub counting : UsedSpace → ChunkStore → ChunkStore
counting us s = record s { used_space = us }

unfoldable pub with_maps : MapStorage → ElderStores → ElderStores
with_maps m stores = record stores {
  map_storage = m;
  sequence_storage = record {
    chunks = counting m.chunks.used_space stores.sequence_storage.chunks;
  };
}

unfoldable pub with_sequences : SequenceStorage → ElderStores → ElderStores
with_sequences q stores = record stores {
  sequence_storage = q;
  map_storage = record { chunks = counting q.chunks.used_space stores.map_storage.chunks };
}

-- `Metadata::new`.
pub new : BlobRegister → Directory → Directory → Action UsedSpace ElderStores
new blob_register m q = do
  map_storage ← MapStorage.new m.dir_read m.created m.record_written m.found m.files
  sequence_storage ← SequenceStorage.new q.dir_read q.created q.record_written q.found q.files
  pure (
      with_sequences sequence_storage (record {
        blob_register = blob_register;
        map_storage = map_storage;
        sequence_storage = sequence_storage;
      }))

module _ (env : Env) (f : MapFormat) (g : SequenceFormat) where
  -- `reading::get_result`.
  pub read : Disk → DataQuery → MessageId → EndUser → ElderStores → Result NodeDuty
  read d (DataQuery.blob r) id origin stores = Handlers.read env r id origin stores.blob_register
  read d (DataQuery.map r) id origin stores = MapQueries.read f d r id origin stores.map_storage
  read d (DataQuery.sequence r) id origin stores =
      SequenceQueries.read g d r id origin stores.sequence_storage

  blob_written : Result NodeDuty × BlobRegister → ElderStores → Result NodeDuty × ElderStores
  blob_written (r, register) stores = (r, record stores { blob_register = register })

  map_written : Result NodeDuty × MapStorage → ElderStores → Result NodeDuty × ElderStores
  unfolding with_maps
  map_written (r, m) stores = (r, with_maps m stores)

  sequence_written : Result NodeDuty × SequenceStorage → ElderStores → Result NodeDuty × ElderStores
  unfolding with_sequences
  sequence_written (r, q) stores = (r, with_sequences q stores)

  -- `writing::get_result`.
  pub write : Faults → DataCmd → MessageId → EndUser → ElderStores → Result NodeDuty × ElderStores
  unfolding blob_written map_written sequence_written
  write e (DataCmd.blob w) id origin stores =
      blob_written (Handlers.write env e.writes w id origin stores.blob_register) stores
  write e (DataCmd.map w) id origin stores =
      map_written (MapStorage.write f e.seen e.d w id origin stores.map_storage) stores
  write e (DataCmd.sequence w) id origin stores =
      sequence_written (SequenceStorage.write g e.seen e.d w id origin stores.sequence_storage)
        stores

  replicated : Result NodeDuties × BlobRegister → ElderStores → Result NodeDuties × ElderStores
  replicated (r, register) stores = (r, record stores { blob_register = register })

  pub trigger_chunk_replication : Writes → XorName → ElderStores → Result NodeDuties × ElderStores
  unfolding replicated
  trigger_chunk_replication w node stores =
      replicated (Handlers.replicate_chunks env w node stores.blob_register) stores
