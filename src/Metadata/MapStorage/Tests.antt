-- ===== src/Metadata/MapStorage/Tests.antt =====
-- Runs of src/metadata/map_storage.rs, and the theorems about it at concrete states.
use sn_node.Prelude.{◌≡◌, ◌≢◌, refl, inl, inr, some, List, [], ◌∷◌, arith, ==_refl, PublicKey}
use sn_node.Errors.{
  DtError, Error, ErrorMessage, Result, ok, err, network_data, convert_to_error_message,
}
use sn_node.UsedSpace.{FileRecord, increase, decrease, write_local_to_file, commit}
use sn_node.ChunkStore
use sn_node.ChunkStore.{Bytes, Disk, FileWrite, FileRead, ChunkStore}
use sn_node.ChunkStore.Refinement.{Sees, contents}
use sn_node.DataTypes.{NdResult, Map, MapAddress, MapEntryActions}
use sn_node.NodeOps.{
  EndUser, MapRead, MapWrite, no_op, query_response, DstLocation, failure, get_map_value,
}
use sn_node.Metadata.MapStorage.Samples.{
  mutate, write_map, read_map, format, works, client, stranger,
}
use sn_node.Metadata.Replies
use sn_node.Metadata.MapStorage.{map_id, maps, MapStorage, ok_or_error, write}
use sn_node.Metadata.MapStorage.Queries.{read}
use sn_node.Metadata.MapStorage.Refinement.{IsMapFormat, target, wanted, map_write_refines}
use sn_node.Metadata.MapStorage.Runs.{MapRequest, run, replay, Answered, run_map_refines}
use sn_node.Metadata.MapStorage.Access.{queried, failed, map_reader_denied}

format-decodes :
    (map : Map) (bytes : Bytes) → write_map map ≡ some bytes → read_map bytes ≡ some map
format-decodes map [] e = ground arith
format-decodes map (a ∷ []) e = ground arith
format-decodes (Map.seq n) (a ∷ c ∷ []) e = ground arith
format-decodes (Map.unseq n) (a ∷ c ∷ []) e = ground arith
format-decodes map (a ∷ c ∷ b ∷ bs) e = ground arith

mutate-keeps :
    (map new : Map) (changes : MapEntryActions) (key : PublicKey)
    → mutate map changes key ≡ NdResult.ok new
    → map_id format new ≡ map_id format map
mutate-keeps (Map.seq n) (Map.seq m) changes key e = ground arith
mutate-keeps (Map.seq n) (Map.unseq m) changes key e = ground arith
mutate-keeps (Map.unseq n) (Map.seq m) changes key e = ground arith
mutate-keeps (Map.unseq n) (Map.unseq m) changes key e = ground arith

same_id :
    (map new : Map) → NdResult.ok map ≡ NdResult.ok new → map_id format new ≡ map_id format map
same_id (Map.seq n) (Map.seq m) e = ground arith
same_id (Map.seq n) (Map.unseq m) e = ground arith
same_id (Map.unseq n) (Map.seq m) e = ground arith
same_id (Map.unseq n) (Map.unseq m) e = ground arith

format-IsMapFormat : IsMapFormat format
format-IsMapFormat = record {
  codec = record { decodes = format-decodes; id_refl = ==_refl };
  named = λ i j ne e. ne (ground arith);
  set_keeps = λ map new user ps v e. same_id map new e;
  del_keeps = λ map new user v e. same_id map new e;
  mutate_keeps = mutate-keeps;
}

-- The map 5 of the client with key 7.
abbrev storage : MapStorage
storage = record {
  chunks = record {
    id = 0;
    files = (5, 0 ∷ 5711 ∷ []) ∷ [];
    used_space = record {
      max_capacity = 10;
      total_value = 2;
      local_stores = (0, record { local_value = 2; local_record = FileRecord.value 2 }) ∷ [];
      next_id = 1;
    };
  };
}

works-Sees : Sees works works
works-Sees = record { there = refl; found = refl; reads = refl }

abbrev request : MapWrite → EndUser → MapRequest
request w origin = record { seen = works; d = works; w = w; msg_id = 4; origin = origin }

-- The owner edits the map, a stranger fails to delete it, a second map is made, and the owner
-- deletes the first.
abbrev requests : List MapRequest
requests =
    request (MapWrite.edit 5 22) client
    ∷ request (MapWrite.delete 5) stranger
    ∷ request (MapWrite.new (Map.unseq 6833)) stranger
    ∷ request (MapWrite.delete 5) client
    ∷ []

requests-Answered : Answered format requests storage
unfolding write ok_or_error Replies.ok_or_error ChunkStore.delete ChunkStore.has ChunkStore.get
    ChunkStore.put ChunkStore.file_path ChunkStore.put_bytes ChunkStore.do_delete
    ChunkStore.reserve_and_write ChunkStore.write_or_undo increase decrease commit
    write_local_to_file target wanted contents
requests-Answered = (
  works-Sees,
  inl refl,
  (
    works-Sees,
    inr (network_data (DtError.access_denied 8), refl),
    (works-Sees, inl refl, (works-Sees, inl refl, tt)),
  ),
)

run_map_refines_example :
    contents (maps format) (run format requests storage).chunks 6
    ≡ replay format requests (contents (maps format) storage.chunks) 6
run_map_refines_example =
    run_map_refines format requests storage 6 format-IsMapFormat requests-Answered

replay_made : replay format requests (contents (maps format) storage.chunks) 6 ≡ ok (Map.unseq 6833)
unfolding replay target wanted contents
replay_made = refl

map_write_refines_example :
    let w = MapWrite.edit 5 22 in
    let want = wanted format w 7 (contents (maps format) storage.chunks (target format w)) in
    let p = write format works works w 4 client storage in
    (p.0 ≡ ok no_op
      → (r : Result Map) × (want ≡ ok r)
        × (contents (maps format) p.1.chunks (target format w) ≡ r))
    × ((e : Error) → want ≡ err e → p ≡ (ok_or_error format (err e) 4 client, storage))
    × ((j : MapAddress)
        → target format w ≢ j
        → contents (maps format) p.1.chunks j ≡ contents (maps format) storage.chunks j)
map_write_refines_example =
    map_write_refines format works works (MapWrite.edit 5 22) 4 client storage format-IsMapFormat
      works-Sees

storage_read : ChunkStore.get (maps format) works storage.chunks 5 ≡ ok (Map.seq 5711)
unfolding ChunkStore.get ChunkStore.file_path
storage_read = refl

refusal_mapped :
    convert_to_error_message (network_data (DtError.access_denied 8))
    ≡ ok (ErrorMessage.access_denied 8)
unfolding convert_to_error_message
refusal_mapped = refl

map_reader_denied_example :
    read format works (MapRead.get_value 5 1) 4 stranger storage
    ≡ ok (
        Replies.send_to
          (DstLocation.end_user stranger)
          (query_response (get_map_value (failure (ErrorMessage.access_denied 8))) 4 4))
unfolding failed queried
map_reader_denied_example =
    map_reader_denied format works (Map.seq 5711) storage stranger (DtError.access_denied 8)
      (ErrorMessage.access_denied 8) refl refusal_mapped (MapRead.get_value 5 1) 4 storage_read
