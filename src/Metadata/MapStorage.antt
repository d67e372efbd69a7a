-- ===== src/Metadata/MapStorage.antt =====
-- src/metadata/map_storage.rs: the handlers of an elder for maps, over a chunk store.
-- What `sn_data_types::Map` does is a parameter. What the disk does is an argument: `seen` for the
-- test whether a map is there, `d` for the other calls.
pub mod Queries
pub mod Refinement
pub mod Runs
pub mod Access
pub mod Calls
pub mod Samples
mod Tests
use sn_node.Prelude.{ℕ, Bool, Option, none, some, ◌==◌, if◌then◌else◌, PublicKey, MessageId}
use sn_node.Prelude.BTreeMap.{BTreeMap}
use sn_node.Errors.{DtError, Error, Result, ok, err, ok_or, ◌>>=◌, network_data, data_exists}
use sn_node.Action.{Action}
use sn_node.UsedSpace.{UsedSpace, FoundFile}
use sn_node.ChunkStore
use sn_node.ChunkStore.{Bytes, Codec, Disk, ChunkStore}
use sn_node.DataTypes.{
  NdResult, from_nd, Map, MapAddress, MapKey, MapKeys, MapValue, MapValues, MapEntries,
  MapPermissions, MapPermissionSet, MapEntryActions, MapAction,
}
use sn_node.NodeOps.{
  EndUser, MapRead, MapWrite, get_map, get_map_shell, get_map_version, get_map_value,
  list_map_entries, list_map_keys, list_map_values, list_map_permissions, list_map_user_permissions,
  DstLocation, NodeDuty,
}
use sn_node.Metadata.Replies

-- How maps are serialised and named, and what they do.
pub record MapFormat : Type 0 where
  pub serialise : Map → Option Bytes
  pub deserialise : Bytes → Option Map
  pub file_name : MapAddress → Option ℕ
  pub to_chunk_id : ℕ → Option MapAddress
  pub seq_address : ℕ → MapAddress
  pub unseq_address : ℕ → MapAddress
  pub check_permissions : Map → MapAction → PublicKey → NdResult (Unit {0})
  pub check_is_owner : Map → PublicKey → NdResult (Unit {0})
  pub set_user_permissions : Map → PublicKey → MapPermissionSet → ℕ → NdResult Map
  pub del_user_permissions : Map → PublicKey → ℕ → NdResult Map
  pub mutate_entries : Map → MapEntryActions → PublicKey → NdResult Map
  pub shell : Map → Map
  pub version : Map → ℕ
  pub keys : Map → MapKeys
  pub permissions : Map → MapPermissions
  pub user_permissions : Map → PublicKey → NdResult MapPermissionSet
  pub seq_get : ℕ → MapKey → Option MapValue
  pub unseq_get : ℕ → MapKey → Option MapValue
  pub seq_values : ℕ → MapValues
  pub unseq_values : ℕ → MapValues
  pub seq_entries : ℕ → MapEntries
  pub unseq_entries : ℕ → MapEntries
  pub in_response_to : MessageId → MessageId

-- `Chunk::id`.
abbrev pub map_id : MapFormat → Map → MapAddress
map_id f (Map.seq chunk) = f.seq_address chunk
map_id f (Map.unseq chunk) = f.unseq_address chunk

-- `MapChunkStore`.
abbrev pub maps : MapFormat → Codec
maps f = record {
  Chunk = Map;
  ChunkId = MapAddress;
  id_of = map_id f;
  id_eq = λ a b. a == b;
  serialise = f.serialise;
  deserialise = f.deserialise;
  file_name = f.file_name;
  to_chunk_id = f.to_chunk_id;
}

pub record MapStorage : Type 0 where
  pub chunks : ChunkStore

unfoldable pub new :
    Bool
    → Result (Unit {0})
    → Bool
    → FoundFile
    → BTreeMap Bytes
    → UsedSpace
    → Result MapStorage × UsedSpace
new dir_read created record_written found files us =
    let (r, us') = ChunkStore.new dir_read created record_written found files us in
    (r >>= λ chunks. ok (record { chunks = chunks }), us')

module _ (f : MapFormat) where
  pub get_chunk : Disk → MapStorage → MapAddress → EndUser → MapAction → Result Map
  get_chunk d st address origin action = ChunkStore.get (maps f) d st.chunks address >>= λ map.
      from_nd (f.check_permissions map action origin.id) >>= λ _. ok map

  pub ok_or_error : Result (Unit {0}) → MessageId → EndUser → Result NodeDuty
  ok_or_error result msg_id origin =
      Replies.ok_or_error f.in_response_to (DstLocation.end_user origin) result msg_id

  -- A handler's reply by the result of its action on the chunks, and the storage it leaves.
  replied :
      MessageId → EndUser → Action ChunkStore (Unit {0}) → MapStorage → Result NodeDuty × MapStorage
  unfolding ok_or_error
  replied msg_id origin act st =
      let (result, s) = act st.chunks in (ok_or_error result msg_id origin, record { chunks = s })

  -- The edited map is put in the place of the one that was read.
  put_edited : Disk → NdResult Map → Action ChunkStore (Unit {0})
  put_edited d (NdResult.ok map) s = ChunkStore.put (maps f) d map s
  put_edited d (NdResult.err error) s = (err (network_data error), s)

  edit_read : Disk → (Map → NdResult Map) → Result Map → Action ChunkStore (Unit {0})
  unfolding put_edited
  edit_read d mutation_fn (ok map) s = put_edited d (mutation_fn map) s
  edit_read d mutation_fn (err error) s = (err error, s)

  edit_chunk : Disk → MapAddress → (Map → NdResult Map) → Action ChunkStore (Unit {0})
  unfolding edit_read
  edit_chunk d address mutation_fn s =
      edit_read d mutation_fn (ChunkStore.get (maps f) d s address) s

  checked : NdResult (Unit {0}) → NdResult Map → NdResult Map
  checked (NdResult.ok _) edit = edit
  checked (NdResult.err error) edit = NdResult.err error

  -- The closures that the handlers below call `edit_chunk` with.
  set_permissions_in : PublicKey → MapPermissionSet → ℕ → EndUser → Map → NdResult Map
  unfolding checked
  set_permissions_in user permissions version origin map =
      checked (f.check_permissions map MapAction.manage_permissions origin.id)
        (f.set_user_permissions map user permissions version)

  del_permissions_in : PublicKey → ℕ → EndUser → Map → NdResult Map
  unfolding checked
  del_permissions_in user version origin map =
      checked (f.check_permissions map MapAction.manage_permissions origin.id)
        (f.del_user_permissions map user version)

  mutate_in : MapEntryActions → EndUser → Map → NdResult Map
  mutate_in actions origin map = f.mutate_entries map actions origin.id

  set_user_permissions :
      Disk → MapAddress → PublicKey → MapPermissionSet → ℕ → EndUser → Action ChunkStore (Unit {0})
  unfolding edit_chunk set_permissions_in
  set_user_permissions d address user permissions version origin =
      edit_chunk d address (set_permissions_in user permissions version origin)

  delete_user_permissions :
      Disk → MapAddress → PublicKey → ℕ → EndUser → Action ChunkStore (Unit {0})
  unfolding edit_chunk del_permissions_in
  delete_user_permissions d address user version origin =
      edit_chunk d address (del_permissions_in user version origin)

  edit_entries : Disk → MapAddress → MapEntryActions → EndUser → Action ChunkStore (Unit {0})
  unfolding edit_chunk mutate_in
  edit_entries d address actions origin = edit_chunk d address (mutate_in actions origin)

  create : Disk → Disk → Map → Action ChunkStore (Unit {0})
  create seen d map s =
      if ChunkStore.has (maps f) seen s (map_id f map)
      then (err Error.data_exists, s)
      else ChunkStore.put (maps f) d map s

  delete_owned : Disk → MapAddress → EndUser → NdResult (Unit {0}) → Action ChunkStore (Unit {0})
  delete_owned d address origin (NdResult.ok _) s = ChunkStore.delete (maps f) d address s
  delete_owned d address origin (NdResult.err _) s =
      (err (network_data (DtError.access_denied origin.id)), s)

  delete_read : Disk → MapAddress → EndUser → Result Map → Action ChunkStore (Unit {0})
  unfolding delete_owned
  delete_read d address origin (ok map) s =
      delete_owned d address origin (f.check_is_owner map origin.id) s
  delete_read d address origin (err error) s = (err error, s)

  delete : Disk → MapAddress → EndUser → Action ChunkStore (Unit {0})
  unfolding delete_read
  delete d address origin s = delete_read d address origin (ChunkStore.get (maps f) d s address) s

  -- What a write does to the chunks, and its result before it is turned into a reply.
  execute : Disk → Disk → MapWrite → EndUser → Action ChunkStore (Unit {0})
  unfolding create delete set_user_permissions delete_user_permissions edit_entries
  execute seen d (MapWrite.new map) origin = create seen d map
  execute seen d (MapWrite.delete address) origin = delete d address origin
  execute seen d (MapWrite.set_user_permissions address user permissions version) origin =
      set_user_permissions d address user permissions version origin
  execute seen d (MapWrite.del_user_permissions address user version) origin =
      delete_user_permissions d address user version origin
  execute seen d (MapWrite.edit address changes) origin = edit_entries d address changes origin

  pub write :
      Disk → Disk → MapWrite → MessageId → EndUser → MapStorage → Result NodeDuty × MapStorage
  unfolding execute replied
  write seen d w msg_id origin = replied msg_id origin (execute seen d w origin)
