-- ===== src/Metadata/MapStorage/Calls.antt =====
-- The calls of the chunk store that a write of src/metadata/map_storage.rs makes: at most one.
use sn_node.Prelude.{inl, inr, Bool-cases}
use sn_node.Errors.{Result, ok, err}
use sn_node.ChunkStore
use sn_node.ChunkStore.{Disk, ChunkStore}
use sn_node.DataTypes.{NdResult, Map, MapAddress}
use sn_node.NodeOps.{EndUser, MapWrite}
use sn_node.Prelude.{MessageId}
use sn_node.Metadata.MapStorage.{
  MapFormat, map_id, maps, MapStorage, replied, put_edited, edit_read, edit_chunk,
  set_permissions_in, del_permissions_in, mutate_in, set_user_permissions, delete_user_permissions,
  edit_entries, create, delete_owned, delete_read, delete, execute, write,
}

module _ (f : MapFormat) (P : ChunkStore → Type 0) (d : Disk) (s : ChunkStore) where
  module _ (same : P s) (puts : (map : Map) → P (ChunkStore.put (maps f) d map s).1)
      (deletes : (i : MapAddress) → P (ChunkStore.delete (maps f) d i s).1) where
    put_edited-once : (r : NdResult Map) → P (put_edited f d r s).1
    unfolding put_edited
    put_edited-once (NdResult.ok map) = puts map
    put_edited-once (NdResult.err e) = same

    edit_read-once : (change : Map → NdResult Map) (r : Result Map) → P (edit_read f d change r s).1
    unfolding edit_read
    edit_read-once change (ok map) = put_edited-once (change map)
    edit_read-once change (err e) = same

    edit_chunk-once :
        (i : MapAddress) (change : Map → NdResult Map) → P (edit_chunk f d i change s).1
    unfolding edit_chunk
    edit_chunk-once i change = edit_read-once change (ChunkStore.get (maps f) d s i)

    create-once : (seen : Disk) (map : Map) → P (create f seen d map s).1
    unfolding create
    create-once seen map = elim (Bool-cases (ChunkStore.has (maps f) seen s (map_id f map))) [
      | inl there ↦ rw there same
      | inr free ↦ rw free (puts map)
    ]

    delete_owned-once :
        (i : MapAddress) (origin : EndUser) (r : NdResult (Unit {0}))
        → P (delete_owned f d i origin r s).1
    unfolding delete_owned
    delete_owned-once i origin (NdResult.ok u) = deletes i
    delete_owned-once i origin (NdResult.err e) = same

    delete_read-once :
        (i : MapAddress) (origin : EndUser) (r : Result Map) → P (delete_read f d i origin r s).1
    unfolding delete_read
    delete_read-once i origin (ok map) = delete_owned-once i origin (f.check_is_owner map origin.id)
    delete_read-once i origin (err e) = same

    execute-once :
        (seen : Disk) (w : MapWrite) (origin : EndUser) → P (execute f seen d w origin s).1
    unfolding execute set_user_permissions delete_user_permissions edit_entries delete
    execute-once seen (MapWrite.new map) origin = create-once seen map
    execute-once seen (MapWrite.delete i) origin = delete_read-once i origin _
    execute-once seen (MapWrite.set_user_permissions i user ps v) origin =
        edit_chunk-once i (set_permissions_in f user ps v origin)
    execute-once seen (MapWrite.del_user_permissions i user v) origin =
        edit_chunk-once i (del_permissions_in f user v origin)
    execute-once seen (MapWrite.edit i changes) origin =
        edit_chunk-once i (mutate_in f changes origin)

-- What holds of the chunks, and after any one put or deletion, holds after any write.
pub write-once :
    (f : MapFormat) (P : ChunkStore → Type 0) (seen d : Disk) (w : MapWrite) (msg_id : MessageId)
    (origin : EndUser) (st : MapStorage)
    → P st.chunks
    → ((map : Map) → P (ChunkStore.put (maps f) d map st.chunks).1)
    → ((i : MapAddress) → P (ChunkStore.delete (maps f) d i st.chunks).1)
    → P (write f seen d w msg_id origin st).1.chunks
unfolding write replied
write-once f P seen d w msg_id origin st same puts deletes =
    execute-once f P d st.chunks same puts deletes seen w origin
