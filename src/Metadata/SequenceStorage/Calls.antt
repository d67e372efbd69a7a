-- ===== src/Metadata/SequenceStorage/Calls.antt =====
-- The calls of the chunk store that a write of src/metadata/sequence_storage.rs makes: at most one.
use sn_node.Prelude.{inl, inr, Bool-cases, MessageId}
use sn_node.Errors.{Result, ok, err}
use sn_node.ChunkStore
use sn_node.ChunkStore.{Disk, ChunkStore}
use sn_node.DataTypes.{Sequence, SequenceAddress}
use sn_node.NodeOps.{EndUser, SequenceWrite}
use sn_node.Metadata.SequenceStorage.{
  SequenceFormat, sequences, SequenceStorage, replied, store, put_written, edit_chunk, edit,
  delete_allowed, delete, execute, write,
}

module _ (f : SequenceFormat) (P : ChunkStore → Type 0) (d : Disk) (s : ChunkStore) where
  module _ (same : P s)
      (puts : (sequence : Sequence) → P (ChunkStore.put (sequences f) d sequence s).1)
      (deletes : (i : SequenceAddress) → P (ChunkStore.delete (sequences f) d i s).1) where
    put_written-once : (r : Result Sequence) → P (put_written f d r s).1
    unfolding put_written
    put_written-once (ok sequence) = puts sequence
    put_written-once (err e) = same

    store-once : (seen : Disk) (sequence : Sequence) → P (store f seen d sequence s).1
    unfolding store
    store-once seen sequence =
        elim (Bool-cases (ChunkStore.has (sequences f) seen s (f.address sequence))) [
          | inl there ↦ rw there same
          | inr free ↦ rw free (puts sequence)
        ]

    delete_allowed-once :
        (i : SequenceAddress) (r : Result (Unit {0})) → P (delete_allowed f d i r s).1
    unfolding delete_allowed
    delete_allowed-once i (ok u) = deletes i
    delete_allowed-once i (err e) = same

    execute-once :
        (seen : Disk) (w : SequenceWrite) (msg_id : MessageId) (origin : EndUser)
        → P (execute f seen d w msg_id origin s).1
    unfolding execute edit delete edit_chunk
    execute-once seen (SequenceWrite.new sequence) msg_id origin = store-once seen sequence
    execute-once seen (SequenceWrite.edit op) msg_id origin = put_written-once _
    execute-once seen (SequenceWrite.delete i) msg_id origin = delete_allowed-once i _

-- What holds of the chunks, and after any one put or deletion, holds after any write.
pub write-once :
    (f : SequenceFormat) (P : ChunkStore → Type 0) (seen d : Disk) (w : SequenceWrite)
    (msg_id : MessageId) (origin : EndUser) (st : SequenceStorage)
    → P st.chunks
    → ((sequence : Sequence) → P (ChunkStore.put (sequences f) d sequence st.chunks).1)
    → ((i : SequenceAddress) → P (ChunkStore.delete (sequences f) d i st.chunks).1)
    → P (write f seen d w msg_id origin st).1.chunks
unfolding write replied
write-once f P seen d w msg_id origin st same puts deletes =
    execute-once f P d st.chunks same puts deletes seen w msg_id origin
