-- ===== src/Chunks/ChunkStorage.antt =====
-- src/chunks/chunk_storage.rs: the handlers of an adult for the blobs in its chunk store. What the
-- disk does is an argument: `seen` for the test whether a chunk is there, `d` for the calls after it.
pub mod Owners
pub mod Keeping
pub mod Samples
mod Tests
use sn_node.Prelude.{
  ℕ, Bool, true, false, Option, none, some, ◌==◌, if◌then◌else◌, XorName, PublicKey, MessageId,
}
use sn_node.Prelude.BTreeMap.{BTreeMap, BTreeSet}
use sn_node.Errors.{
  Error, ErrorMessage, Result, ok, err, ◌>>=◌, no_such_data, failed_to_delete, no_such_key,
  convert_to_error_message,
}
use sn_node.Action.{Action}
use sn_node.UsedSpace.{UsedSpace, FoundFile}
use sn_node.ChunkStore
use sn_node.ChunkStore.{Bytes, Codec, Disk, ChunkStore}
use sn_node.NodeOps.{
  BlobAddress, Blob, EndUser, Message, cmd_error, get_blob, get_blob_error, get_chunk,
  chunk_response, DstLocation, Aggregation, NodeDuty, no_op, send, send_to_nodes,
}

-- How blobs are serialised and named, and what they say of themselves.
pub record BlobFormat : Type 0 where
  pub serialise : Blob → Option Bytes
  pub deserialise : Bytes → Option Blob
  pub file_name : BlobAddress → Option ℕ
  pub to_chunk_id : ℕ → Option BlobAddress
  pub is_private : Blob → Bool
  pub owner : Blob → Option PublicKey
  pub in_response_to : MessageId → MessageId

-- `BlobChunkStore`.
abbrev pub blobs : BlobFormat → Codec
blobs f = record {
  Chunk = Blob;
  ChunkId = BlobAddress;
  id_of = λ blob. blob.address;
  id_eq = λ a b. a == b;
  serialise = f.serialise;
  deserialise = f.deserialise;
  file_name = f.file_name;
  to_chunk_id = f.to_chunk_id;
}

pub record ChunkStorage : Type 0 where
  pub node_name : XorName
  pub chunks : ChunkStore

pub new :
    XorName
    → Bool
    → Result (Unit {0})
    → Bool
    → FoundFile
    → BTreeMap Bytes
    → UsedSpace
    → Result ChunkStorage × UsedSpace
new node_name dir_read created record_written found files us =
    let (r, us') = ChunkStore.new dir_read created record_written found files us in
    (r >>= λ chunks. ok (record { node_name = node_name; chunks = chunks }), us')

module _ (f : BlobFormat) where
  pub to_user : Message → EndUser → NodeDuty
  to_user msg origin = send (record {
    msg = msg;
    section_source = false;
    dst = DstLocation.end_user origin;
    aggregation = Aggregation.unaggregated;
  })

  unfoldable pub owned_by : EndUser → Option PublicKey → Bool
  owned_by origin none = false
  owned_by origin (some data_owner) = data_owner == origin.id

  check_owner : Blob → EndUser → Result (Unit {0})
  unfolding owned_by
  check_owner blob origin =
      if f.is_private blob
      then (if owned_by origin (f.owner blob) then ok tt else err (Error.invalid_owners origin.id))
      else ok tt

  put_new : Disk → Disk → Blob → Action ChunkStore (Unit {0})
  put_new seen d blob s =
      if ChunkStore.has (blobs f) seen s blob.address
      then (err Error.data_exists, s)
      else ChunkStore.put (blobs f) d blob s

  store_checked : Disk → Disk → Blob → Result (Unit {0}) → Action ChunkStore (Unit {0})
  unfolding put_new
  store_checked seen d blob (err e) s = (err e, s)
  store_checked seen d blob (ok _) s = put_new seen d blob s

  pub try_store : Disk → Disk → Blob → EndUser → Action ChunkStore (Unit {0})
  unfolding store_checked check_owner
  try_store seen d blob origin s = store_checked seen d blob (check_owner blob origin) s

  -- The duty for the result of a store.
  stored_reply : MessageId → EndUser → Result (Unit {0}) → Result NodeDuty
  unfolding to_user
  stored_reply msg_id origin (ok _) = ok no_op
  stored_reply msg_id origin (err e) = convert_to_error_message e >>= λ message.
      ok (to_user (cmd_error message (f.in_response_to msg_id) msg_id) origin)

  pub store :
      Disk → Disk → Blob → MessageId → EndUser → ChunkStorage → Result NodeDuty × ChunkStorage
  unfolding stored_reply
  store seen d blob msg_id origin st =
      let (r, s) = try_store seen d blob origin st.chunks in
      (stored_reply msg_id origin r, record st { chunks = s })

  read_reply : MessageId → EndUser → Result Blob → NodeDuty
  unfolding to_user
  read_reply msg_id origin (ok blob) =
      to_user (get_blob blob (f.in_response_to msg_id) msg_id) origin
  read_reply msg_id origin (err e) =
      to_user (get_blob_error no_such_data (f.in_response_to msg_id) msg_id) origin

  pub get : Disk → BlobAddress → MessageId → EndUser → ChunkStorage → Result NodeDuty
  get d address msg_id origin st =
      ok (read_reply msg_id origin (ChunkStore.get (blobs f) d st.chunks address))

  pub replicate_chunk : BlobAddress → BTreeSet → MessageId → ChunkStorage → Result NodeDuty
  replicate_chunk address current_holders msg_id st =
      ok (send_to_nodes current_holders (get_chunk address st.node_name msg_id))

  -- An error without a mapping is returned; any other is only warned of.
  replication_reply : MessageId → XorName → Result Blob → Result NodeDuty
  replication_reply msg_id new_holder (ok blob) = ok (
      send (record {
        msg = chunk_response blob (f.in_response_to msg_id) msg_id;
        section_source = false;
        dst = DstLocation.node new_holder;
        aggregation = Aggregation.unaggregated;
      }))
  replication_reply msg_id new_holder (err e) = convert_to_error_message e >>= λ message. ok no_op

  pub get_for_replication :
      Disk → BlobAddress → MessageId → XorName → ChunkStorage → Result NodeDuty
  unfolding replication_reply
  get_for_replication d address msg_id new_holder st =
      replication_reply msg_id new_holder (ChunkStore.get (blobs f) d st.chunks address)

  done : Result (Unit {0}) × ChunkStore → Result NodeDuty × ChunkStore
  done (ok _, s) = (ok no_op, s)
  done (err e, s) = (err e, s)

  pub store_for_replication : Disk → Disk → Blob → ChunkStorage → Result NodeDuty × ChunkStorage
  unfolding done
  store_for_replication seen d blob st =
      if ChunkStore.has (blobs f) seen st.chunks blob.address
      then (ok no_op, st)
      else let (r, s) = done (ChunkStore.put (blobs f) d blob st.chunks) in
        (r, record st { chunks = s })

  deleted : Result (Unit {0}) × ChunkStore → Option ErrorMessage × ChunkStore
  deleted (ok _, s) = (none, s)
  deleted (err e, s) = (some failed_to_delete, s)

  -- The error for the client, if there is one, by what is read under the address.
  delete_read :
      Disk → BlobAddress → EndUser → Result Blob → ChunkStore → Option ErrorMessage × ChunkStore
  unfolding deleted
  delete_read d address origin (err e) s = (some no_such_key, s)
  delete_read d address origin (ok blob) s =
      if f.is_private blob
      then (if owned_by origin (f.owner blob)
          then deleted (ChunkStore.delete (blobs f) d address s)
          else (some (ErrorMessage.invalid_owners origin.id), s))
      else (some ErrorMessage.invalid_operation, s)

  deleted_reply : MessageId → EndUser → Option ErrorMessage → NodeDuty
  unfolding to_user
  deleted_reply msg_id origin none = no_op
  deleted_reply msg_id origin (some error) =
      to_user (cmd_error error (f.in_response_to msg_id) msg_id) origin

  pub delete :
      Disk
      → Disk
      → BlobAddress
      → MessageId
      → EndUser
      → ChunkStorage
      → Result NodeDuty × ChunkStorage
  unfolding delete_read deleted_reply
  delete seen d address msg_id origin st =
      let read = ChunkStore.get (blobs f) d st.chunks address in
      let (e, s) = delete_read d address origin read st.chunks in
      if ChunkStore.has (blobs f) seen st.chunks address
      then (ok (deleted_reply msg_id origin e), record st { chunks = s })
      else (ok no_op, st)
