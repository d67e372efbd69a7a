-- ===== src/Metadata/MapStorage/Samples.antt =====
-- A concrete form of maps, for runs of src/metadata/map_storage.rs.
use sn_node.Prelude.{
  ℕ, ◌+◌, ◌*◌, ◌/◌, ◌%◌, true, Option, none, some, [], ◌∷◌, ◌==◌, if◌then◌else◌, PublicKey,
}
use sn_node.Errors.{DtError}
use sn_node.UsedSpace.{IoEvent}
use sn_node.ChunkStore.{Bytes, Disk, FileWrite, FileRead}
use sn_node.DataTypes.{NdResult, Map, MapEntryActions}
use sn_node.NodeOps.{EndUser}
use sn_node.Metadata.MapStorage.{MapFormat}

-- Of the number of a map the last two digits are its entries and the one before is its owner.
abbrev pub code : Map → ℕ
code (Map.seq n) = n
code (Map.unseq n) = n

abbrev pub owner : Map → PublicKey
owner map = code map / 100 % 10

abbrev pub for_owner : Map → PublicKey → NdResult (Unit {0})
for_owner map key =
    if owner map == key then NdResult.ok tt else NdResult.err (DtError.access_denied key)

abbrev pub with_entries : Map → ℕ → Map
with_entries (Map.seq n) entries = Map.seq (n / 100 * 100 + entries % 100)
with_entries (Map.unseq n) entries = Map.unseq (n / 100 * 100 + entries % 100)

abbrev pub mutate : Map → MapEntryActions → PublicKey → NdResult Map
mutate map changes key =
    if owner map == key
    then NdResult.ok (with_entries map changes)
    else NdResult.err (DtError.access_denied key)

abbrev pub write_map : Map → Option Bytes
write_map (Map.seq n) = some (0 ∷ n ∷ [])
write_map (Map.unseq n) = some (1 ∷ n ∷ [])

abbrev pub read_map : Bytes → Option Map
read_map (k ∷ n ∷ []) = if k == 0 then some (Map.seq n) else some (Map.unseq n)
read_map _ = none

abbrev pub format : MapFormat
format = record {
  serialise = write_map;
  deserialise = read_map;
  file_name = some;
  to_chunk_id = some;
  seq_address = λ n. n / 1000;
  unseq_address = λ n. n / 1000;
  check_permissions = λ map action key. for_owner map key;
  check_is_owner = for_owner;
  set_user_permissions = λ map user ps v. NdResult.ok map;
  del_user_permissions = λ map user v. NdResult.ok map;
  mutate_entries = mutate;
  shell = λ map. map;
  version = λ map. 0;
  keys = λ map. 0;
  permissions = λ map. 0;
  user_permissions = λ map user. NdResult.ok 0;
  seq_get = λ n key. some (n % 100);
  unseq_get = λ n key. some (n % 100);
  seq_values = λ n. 0;
  unseq_values = λ n. 0;
  seq_entries = λ n. 0;
  unseq_entries = λ n. 0;
  in_response_to = λ id. id;
}

abbrev pub works : Disk
works = record {
  metadata_ok = true;
  release = IoEvent.success;
  removed = true;
  reserve = IoEvent.success;
  write = FileWrite.written;
  rollback = IoEvent.success;
  read = FileRead.reads;
}

abbrev pub client : EndUser
client = record { id = 7; connection = 1 }

abbrev pub stranger : EndUser
stranger = record { id = 8; connection = 1 }
