-- ===== src/Metadata/SequenceStorage/Access.antt =====
-- Clients that may not read a sequence, and public sequences, at the handlers of
-- src/metadata/sequence_storage.rs.
use sn_node.Prelude.{◌≡◌, refl, some, MessageId}
use sn_node.Errors.{DtError, ErrorMessage, ok, network_data, convert_to_error_message}
use sn_node.ChunkStore
use sn_node.ChunkStore.{Disk}
use sn_node.DataTypes.{NdResult, Sequence, SequenceAddress, SequenceAction}
use sn_node.NodeOps.{
  EndUser, SequenceRead, failure, QueryResponse, query_response, DstLocation, get_sequence,
  get_sequence_range, get_sequence_last_entry, get_sequence_owner, get_sequence_user_permissions,
  get_sequence_public_policy, get_sequence_private_policy,
}
use sn_node.Metadata.Replies
use sn_node.Metadata.SequenceStorage.{SequenceFormat, sequences, SequenceStorage, get_chunk}
use sn_node.Metadata.SequenceStorage.Queries.{read}

-- The sequence that a query is about.
unfoldable pub queried : SequenceRead → SequenceAddress
queried (SequenceRead.get address) = address
queried (SequenceRead.get_range address start end) = address
queried (SequenceRead.get_last_entry address) = address
queried (SequenceRead.get_owner address) = address
queried (SequenceRead.get_user_permissions address user) = address
queried (SequenceRead.get_public_policy address) = address
queried (SequenceRead.get_private_policy address) = address

-- The answer to a query that only says that it failed.
unfoldable pub failed : SequenceRead → ErrorMessage → QueryResponse
failed (SequenceRead.get address) e = get_sequence (failure e)
failed (SequenceRead.get_range address start end) e = get_sequence_range (failure e)
failed (SequenceRead.get_last_entry address) e = get_sequence_last_entry (failure e)
failed (SequenceRead.get_owner address) e = get_sequence_owner (failure e)
failed (SequenceRead.get_user_permissions address user) e =
    get_sequence_user_permissions (failure e)
failed (SequenceRead.get_public_policy address) e = get_sequence_public_policy (failure e)
failed (SequenceRead.get_private_policy address) e = get_sequence_private_policy (failure e)

module _ (f : SequenceFormat) (d : Disk) (sequence : Sequence) (st : SequenceStorage)
    (origin : EndUser) (e : DtError) (message : ErrorMessage)
    (denied : f.check_permission sequence SequenceAction.read (some origin.id) ≡ NdResult.err e)
    (mapped : convert_to_error_message (network_data e) ≡ ok message) where
  -- A client that the sequence does not let read: each kind of query about the sequence is answered
  -- with the error of the refusal and with nothing else.
  pub sequence_reader_denied :
      (r : SequenceRead) (msg_id : MessageId)
      → ChunkStore.get (sequences f) d st.chunks (queried r) ≡ ok sequence
      → read f d r msg_id origin st
        ≡ ok (
            Replies.send_to
              (DstLocation.end_user origin)
              (query_response (failed r message) (f.in_response_to msg_id) msg_id))
  unfolding read get_chunk queried failed Replies.respond
  sequence_reader_denied (SequenceRead.get i) msg_id there = rw (there, denied, mapped) refl
  sequence_reader_denied (SequenceRead.get_range i a b) msg_id there =
      rw (there, denied, mapped) refl
  sequence_reader_denied (SequenceRead.get_last_entry i) msg_id there =
      rw (there, denied, mapped) refl
  sequence_reader_denied (SequenceRead.get_owner i) msg_id there = rw (there, denied, mapped) refl
  sequence_reader_denied (SequenceRead.get_user_permissions i user) msg_id there =
      rw (there, denied, mapped) refl
  sequence_reader_denied (SequenceRead.get_public_policy i) msg_id there =
      rw (there, denied, mapped) refl
  sequence_reader_denied (SequenceRead.get_private_policy i) msg_id there =
      rw (there, denied, mapped) refl
