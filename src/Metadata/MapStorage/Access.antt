-- ===== src/Metadata/MapStorage/Access.antt =====
-- Clients that may not read a map, and the queries of src/metadata/map_storage.rs.
use sn_node.Prelude.{◌≡◌, refl, MessageId}
use sn_node.Errors.{DtError, ErrorMessage, ok, network_data, convert_to_error_message}
use sn_node.ChunkStore
use sn_node.ChunkStore.{Disk}
use sn_node.DataTypes.{NdResult, Map, MapAddress, MapAction}
use sn_node.NodeOps.{
  EndUser, MapRead, failure, QueryResponse, query_response, DstLocation, get_map, get_map_shell,
  get_map_version, get_map_value, list_map_entries, list_map_keys, list_map_values,
  list_map_permissions, list_map_user_permissions,
}
use sn_node.Metadata.Replies
use sn_node.Metadata.MapStorage.{MapFormat, maps, MapStorage, get_chunk}
use sn_node.Metadata.MapStorage.Queries.{read}

-- The map that a query is about.
unfoldable pub queried : MapRead → MapAddress
queried (MapRead.get address) = address
queried (MapRead.get_value address key) = address
queried (MapRead.get_shell address) = address
queried (MapRead.get_version address) = address
queried (MapRead.list_entries address) = address
queried (MapRead.list_keys address) = address
queried (MapRead.list_values address) = address
queried (MapRead.list_permissions address) = address
queried (MapRead.list_user_permissions address user) = address

-- The answer to a query that only says that it failed.
unfoldable pub failed : MapRead → ErrorMessage → QueryResponse
failed (MapRead.get address) e = get_map (failure e)
failed (MapRead.get_value address key) e = get_map_value (failure e)
failed (MapRead.get_shell address) e = get_map_shell (failure e)
failed (MapRead.get_version address) e = get_map_version (failure e)
failed (MapRead.list_entries address) e = list_map_entries (failure e)
failed (MapRead.list_keys address) e = list_map_keys (failure e)
failed (MapRead.list_values address) e = list_map_values (failure e)
failed (MapRead.list_permissions address) e = list_map_permissions (failure e)
failed (MapRead.list_user_permissions address user) e = list_map_user_permissions (failure e)

module _ (f : MapFormat) (d : Disk) (map : Map) (st : MapStorage) (origin : EndUser) (e : DtError)
    (message : ErrorMessage)
    (denied : f.check_permissions map MapAction.read origin.id ≡ NdResult.err e)
    (mapped : convert_to_error_message (network_data e) ≡ ok message) where
  -- A client that the map does not let read: each kind of query about the map is answered with the
  -- error of the refusal and with nothing else.
  pub map_reader_denied :
      (r : MapRead) (msg_id : MessageId)
      → ChunkStore.get (maps f) d st.chunks (queried r) ≡ ok map
      → read f d r msg_id origin st
        ≡ ok (
            Replies.send_to
              (DstLocation.end_user origin)
              (query_response (failed r message) (f.in_response_to msg_id) msg_id))
  unfolding read get_chunk queried failed Replies.respond
  map_reader_denied (MapRead.get i) msg_id there = rw (there, denied, mapped) refl
  map_reader_denied (MapRead.get_value i key) msg_id there = rw (there, denied, mapped) refl
  map_reader_denied (MapRead.get_shell i) msg_id there = rw (there, denied, mapped) refl
  map_reader_denied (MapRead.get_version i) msg_id there = rw (there, denied, mapped) refl
  map_reader_denied (MapRead.list_entries i) msg_id there = rw (there, denied, mapped) refl
  map_reader_denied (MapRead.list_keys i) msg_id there = rw (there, denied, mapped) refl
  map_reader_denied (MapRead.list_values i) msg_id there = rw (there, denied, mapped) refl
  map_reader_denied (MapRead.list_permissions i) msg_id there = rw (there, denied, mapped) refl
  map_reader_denied (MapRead.list_user_permissions i user) msg_id there =
      rw (there, denied, mapped) refl
