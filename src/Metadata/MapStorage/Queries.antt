-- ===== src/Metadata/MapStorage/Queries.antt =====
-- The queries of src/metadata/map_storage.rs.
use sn_node.Prelude.{PublicKey, MessageId}
use sn_node.Errors.{DtError, Result, ok, ok_or, ◌>>=◌, network_data}
use sn_node.ChunkStore.{Disk}
use sn_node.DataTypes.{from_nd, Map, MapAddress, MapKey, MapValue, MapValues, MapEntries, MapAction}
use sn_node.NodeOps.{
  EndUser, MapRead, get_map, get_map_shell, get_map_version, get_map_value, list_map_entries,
  list_map_keys, list_map_values, list_map_permissions, list_map_user_permissions, NodeDuty,
}
use sn_node.Metadata.Replies
use sn_node.Metadata.MapStorage.{MapFormat, MapStorage, get_chunk}

module _ (f : MapFormat) where
  get_value_of : MapKey → Map → Result MapValue
  get_value_of key (Map.seq map) = ok_or (f.seq_get map key) (network_data DtError.no_such_entry)
  get_value_of key (Map.unseq map) =
      ok_or (f.unseq_get map key) (network_data DtError.no_such_entry)

  values_of : Map → MapValues
  values_of (Map.seq map) = f.seq_values map
  values_of (Map.unseq map) = f.unseq_values map

  entries_of : Map → MapEntries
  entries_of (Map.seq map) = f.seq_entries map
  entries_of (Map.unseq map) = f.unseq_entries map

  get : Disk → MapAddress → MessageId → EndUser → MapStorage → Result NodeDuty
  get d address msg_id origin st =
      Replies.respond f.in_response_to get_map (get_chunk f d st address origin MapAction.read)
        msg_id origin

  get_shell : Disk → MapAddress → MessageId → EndUser → MapStorage → Result NodeDuty
  get_shell d address msg_id origin st =
      Replies.respond f.in_response_to get_map_shell
        (get_chunk f d st address origin MapAction.read >>= λ map. ok (f.shell map)) msg_id origin

  get_version : Disk → MapAddress → MessageId → EndUser → MapStorage → Result NodeDuty
  get_version d address msg_id origin st =
      Replies.respond f.in_response_to get_map_version
        (get_chunk f d st address origin MapAction.read >>= λ map. ok (f.version map)) msg_id origin

  get_value : Disk → MapAddress → MapKey → MessageId → EndUser → MapStorage → Result NodeDuty
  unfolding get_value_of
  get_value d address key msg_id origin st =
      Replies.respond f.in_response_to get_map_value
        (get_chunk f d st address origin MapAction.read >>= get_value_of key) msg_id origin

  list_keys : Disk → MapAddress → MessageId → EndUser → MapStorage → Result NodeDuty
  list_keys d address msg_id origin st =
      Replies.respond f.in_response_to list_map_keys
        (get_chunk f d st address origin MapAction.read >>= λ map. ok (f.keys map)) msg_id origin

  list_values : Disk → MapAddress → MessageId → EndUser → MapStorage → Result NodeDuty
  unfolding values_of
  list_values d address msg_id origin st =
      Replies.respond f.in_response_to list_map_values
        (get_chunk f d st address origin MapAction.read >>= λ map. ok (values_of map)) msg_id origin

  list_entries : Disk → MapAddress → MessageId → EndUser → MapStorage → Result NodeDuty
  unfolding entries_of
  list_entries d address msg_id origin st =
      Replies.respond f.in_response_to list_map_entries
        (get_chunk f d st address origin MapAction.read >>= λ map. ok (entries_of map)) msg_id
        origin

  list_permissions : Disk → MapAddress → MessageId → EndUser → MapStorage → Result NodeDuty
  list_permissions d address msg_id origin st =
      Replies.respond f.in_response_to list_map_permissions
        (get_chunk f d st address origin MapAction.read >>= λ map. ok (f.permissions map)) msg_id
        origin

  list_user_permissions :
      Disk → MapAddress → PublicKey → MessageId → EndUser → MapStorage → Result NodeDuty
  list_user_permissions d address user msg_id origin st =
      Replies.respond f.in_response_to list_map_user_permissions
        (get_chunk f d st address origin MapAction.read >>= λ map.
          from_nd (f.user_permissions map user))
        msg_id origin

  unfoldable pub read : Disk → MapRead → MessageId → EndUser → MapStorage → Result NodeDuty
  unfolding get get_shell get_version get_value list_keys list_values list_entries list_permissions
      list_user_permissions
  read d (MapRead.get address) msg_id origin st = get d address msg_id origin st
  read d (MapRead.get_value address key) msg_id origin st = get_value d address key msg_id origin st
  read d (MapRead.get_shell address) msg_id origin st = get_shell d address msg_id origin st
  read d (MapRead.get_version address) msg_id origin st = get_version d address msg_id origin st
  read d (MapRead.list_entries address) msg_id origin st = list_entries d address msg_id origin st
  read d (MapRead.list_keys address) msg_id origin st = list_keys d address msg_id origin st
  read d (MapRead.list_values address) msg_id origin st = list_values d address msg_id origin st
  read d (MapRead.list_permissions address) msg_id origin st =
      list_permissions d address msg_id origin st
  read d (MapRead.list_user_permissions address user) msg_id origin st =
      list_user_permissions d address user msg_id origin st
