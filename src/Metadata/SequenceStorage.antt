-- ===== src/Metadata/SequenceStorage.antt =====
-- src/metadata/sequence_storage.rs: the handlers of an elder for sequences, over a chunk store.
-- What `sn_data_types::Sequence` does is a parameter. What the disk does is an argument: `seen` for
-- the test whether a sequence is there, `d` for the other calls.
pub mod Queries
pub mod Refinement
pub mod Access
pub mod Calls
pub mod Samples
mod Tests
use sn_node.Prelude.{
  ℕ, ◌-◌, Bool, not, Option, none, some, ◌==◌, if◌then◌else◌, XorName, PublicKey, MessageId,
}
use sn_node.Prelude.BTreeMap.{BTreeMap}
use sn_node.Errors.{
  DtError, Error, Result, ok, err, ok_or, ◌>>=◌, ◌>>◌, network_data, data_exists, invalid_message,
}
use sn_node.Action.{Action}
use sn_node.UsedSpace.{UsedSpace, FoundFile}
use sn_node.ChunkStore
use sn_node.ChunkStore.{Bytes, Codec, Disk, ChunkStore}
use sn_node.DataTypes.{
  NdResult, from_nd, Sequence, SequenceAddress, SequenceEntry, SequenceEntries, SequenceIndex,
  SequenceUser, SequencePermissions, SequenceOp, SequencePolicy, SequenceAction,
}
use sn_node.NodeOps.{
  EndUser, SequenceRead, SequenceWrite, get_sequence, get_sequence_range, get_sequence_last_entry,
  get_sequence_owner, get_sequence_user_permissions, get_sequence_public_policy,
  get_sequence_private_policy, DstLocation, NodeDuty,
}
use sn_node.Metadata.Replies

-- How sequences are serialised and named, and what they do.
pub record SequenceFormat : Type 0 where
  pub serialise : Sequence → Option Bytes
  pub deserialise : Bytes → Option Sequence
  pub file_name : SequenceAddress → Option ℕ
  pub to_chunk_id : ℕ → Option SequenceAddress
  pub address : Sequence → SequenceAddress
  -- `SequenceAddress::is_public` and `Sequence::is_public`.
  pub is_public_address : SequenceAddress → Bool
  pub is_public : Sequence → Bool
  pub check_permission : Sequence → SequenceAction → Option PublicKey → NdResult (Unit {0})
  pub private_policy : Sequence → Option PublicKey → NdResult SequencePolicy
  pub public_policy : Sequence → NdResult SequencePolicy
  pub in_range :
      Sequence
      → SequenceIndex
      → SequenceIndex
      → Option PublicKey
      → NdResult (Option SequenceEntries)
  pub last_entry : Sequence → Option PublicKey → NdResult (Option SequenceEntry)
  pub len : Sequence → Option PublicKey → NdResult ℕ
  pub permissions : Sequence → SequenceUser → Option PublicKey → NdResult SequencePermissions
  pub apply_op : Sequence → SequenceOp → NdResult Sequence
  pub in_response_to : MessageId → MessageId
  -- `EndUser::name`.
  pub name : EndUser → XorName

-- `SequenceChunkStore`.
abbrev pub sequences : SequenceFormat → Codec
sequences f = record {
  Chunk = Sequence;
  ChunkId = SequenceAddress;
  id_of = f.address;
  id_eq = λ a b. a == b;
  serialise = f.serialise;
  deserialise = f.deserialise;
  file_name = f.file_name;
  to_chunk_id = f.to_chunk_id;
}

pub record SequenceStorage : Type 0 where
  pub chunks : ChunkStore

unfoldable pub new :
    Bool
    → Result (Unit {0})
    → Bool
    → FoundFile
    → BTreeMap Bytes
    → UsedSpace
    → Result SequenceStorage × UsedSpace
new dir_read created record_written found files us =
    let (r, us') = ChunkStore.new dir_read created record_written found files us in
    (r >>= λ chunks. ok (record { chunks = chunks }), us')

module _ (f : SequenceFormat) where
  permitted : SequenceAction → EndUser → Sequence → Result Sequence
  permitted action origin sequence =
      from_nd (f.check_permission sequence action (some origin.id)) >> ok sequence

  pub get_chunk : Disk → ChunkStore → SequenceAddress → SequenceAction → EndUser → Result Sequence
  unfolding permitted
  get_chunk d s address action origin =
      ChunkStore.get (sequences f) d s address >>= permitted action origin

  pub ok_or_error : Result (Unit {0}) → MessageId → EndUser → Result NodeDuty
  ok_or_error result msg_id origin =
      Replies.ok_or_error f.in_response_to (DstLocation.section (f.name origin)) result msg_id

  -- A handler's reply by the result of its action on the chunks, and the storage it leaves.
  replied :
      MessageId
      → EndUser
      → Action ChunkStore (Unit {0})
      → SequenceStorage
      → Result NodeDuty × SequenceStorage
  unfolding ok_or_error
  replied msg_id origin act st =
      let (result, s) = act st.chunks in (ok_or_error result msg_id origin, record { chunks = s })

  store : Disk → Disk → Sequence → Action ChunkStore (Unit {0})
  store seen d sequence s =
      if ChunkStore.has (sequences f) seen s (f.address sequence)
      then (err Error.data_exists, s)
      else ChunkStore.put (sequences f) d sequence s

  -- `edit_chunk` from where the sequence is read and `write_fn` has been called.
  put_written : Disk → Result Sequence → Action ChunkStore (Unit {0})
  put_written d (ok sequence) s = ChunkStore.put (sequences f) d sequence s
  put_written d (err error) s = (err error, s)

  edit_chunk :
      Disk
      → SequenceAddress
      → SequenceAction
      → EndUser
      → (Sequence → Result Sequence)
      → Action ChunkStore (Unit {0})
  unfolding get_chunk put_written
  edit_chunk d address action origin write_fn s =
      put_written d (get_chunk d s address action origin >>= write_fn) s

  edit : Disk → SequenceOp → EndUser → Action ChunkStore (Unit {0})
  unfolding edit_chunk
  edit d write_op origin =
      edit_chunk d write_op.address SequenceAction.append origin
        (λ sequence. from_nd (f.apply_op sequence write_op))

  check_owner : PublicKey → SequencePolicy → Result (Unit {0})
  check_owner public_key policy =
      if public_key == policy.owner then ok tt else err (Error.invalid_owners public_key)

  may_delete : MessageId → EndUser → Sequence → Result (Unit {0})
  unfolding check_owner
  may_delete msg_id origin sequence =
      if f.is_public_address (f.address sequence)
      then err (invalid_message msg_id)
      else from_nd (f.private_policy sequence (some origin.id)) >>= check_owner origin.id

  delete_allowed : Disk → SequenceAddress → Result (Unit {0}) → Action ChunkStore (Unit {0})
  delete_allowed d address (ok _) s = ChunkStore.delete (sequences f) d address s
  delete_allowed d address (err error) s = (err error, s)

  delete : Disk → SequenceAddress → MessageId → EndUser → Action ChunkStore (Unit {0})
  unfolding may_delete delete_allowed
  delete d address msg_id origin s =
      delete_allowed d address
        (ChunkStore.get (sequences f) d s address >>= may_delete msg_id origin) s

  -- What a write does to the chunks, and its result before it is turned into a reply.
  execute : Disk → Disk → SequenceWrite → MessageId → EndUser → Action ChunkStore (Unit {0})
  unfolding store edit delete
  execute seen d (SequenceWrite.new sequence) msg_id origin = store seen d sequence
  execute seen d (SequenceWrite.edit operation) msg_id origin = edit d operation origin
  execute seen d (SequenceWrite.delete address) msg_id origin = delete d address msg_id origin

  pub write :
      Disk
      → Disk
      → SequenceWrite
      → MessageId
      → EndUser
      → SequenceStorage
      → Result NodeDuty × SequenceStorage
  unfolding execute replied
  write seen d w msg_id origin = replied msg_id origin (execute seen d w msg_id origin)
