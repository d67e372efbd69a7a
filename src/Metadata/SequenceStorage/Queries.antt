-- ===== src/Metadata/SequenceStorage/Queries.antt =====
-- The queries of src/metadata/sequence_storage.rs.
use sn_node.Prelude.{ℕ, ◌-◌, not, Option, some, if◌then◌else◌, PublicKey, MessageId}
use sn_node.Errors.{DtError, Result, ok, err, ok_or, ◌>>=◌, network_data}
use sn_node.ChunkStore.{Disk}
use sn_node.DataTypes.{
  from_nd, Sequence, SequenceAddress, SequenceEntry, SequenceEntries, SequenceIndex, SequenceUser,
  SequencePolicy, SequenceAction,
}
use sn_node.NodeOps.{
  EndUser, SequenceRead, get_sequence, get_sequence_range, get_sequence_last_entry,
  get_sequence_owner, get_sequence_user_permissions, get_sequence_public_policy,
  get_sequence_private_policy, NodeDuty,
}
use sn_node.Metadata.Replies
use sn_node.Metadata.SequenceStorage.{SequenceFormat, SequenceStorage, get_chunk}

module _ (f : SequenceFormat) where
  no_such_entry : {A : Type 0} → Option A → Result A
  no_such_entry found = ok_or found (network_data DtError.no_such_entry)

  get : Disk → SequenceAddress → MessageId → EndUser → SequenceStorage → Result NodeDuty
  get d address msg_id origin st =
      Replies.respond f.in_response_to get_sequence
        (get_chunk f d st.chunks address SequenceAction.read origin) msg_id origin

  range_of : SequenceIndex → SequenceIndex → EndUser → Sequence → Result SequenceEntries
  unfolding no_such_entry
  range_of start end origin sequence =
      from_nd (f.in_range sequence start end (some origin.id)) >>= no_such_entry

  get_range :
      Disk
      → SequenceAddress
      → SequenceIndex
      → SequenceIndex
      → MessageId
      → EndUser
      → SequenceStorage
      → Result NodeDuty
  unfolding range_of
  get_range d address start end msg_id origin st =
      Replies.respond f.in_response_to get_sequence_range
        (get_chunk f d st.chunks address SequenceAction.read origin >>= range_of start end origin)
        msg_id origin

  -- The index of the last entry with it, by a subtraction on a usize.
  indexed : EndUser → Sequence → SequenceEntry → Result (ℕ × SequenceEntry)
  indexed origin sequence entry =
      from_nd (f.len sequence (some origin.id)) >>= λ n. ok (n - 1, entry)

  last_of : EndUser → Sequence → Result (ℕ × SequenceEntry)
  unfolding indexed no_such_entry
  last_of origin sequence = from_nd (f.last_entry sequence (some origin.id)) >>= λ last.
      no_such_entry last >>= indexed origin sequence

  get_last_entry : Disk → SequenceAddress → MessageId → EndUser → SequenceStorage → Result NodeDuty
  unfolding last_of
  get_last_entry d address msg_id origin st =
      Replies.respond f.in_response_to get_sequence_last_entry
        (get_chunk f d st.chunks address SequenceAction.read origin >>= last_of origin) msg_id
        origin

  owner_of : EndUser → Sequence → Result PublicKey
  owner_of origin sequence =
      from_nd (
        if f.is_public sequence
        then f.public_policy sequence
        else f.private_policy sequence (some origin.id))
      >>= λ policy. ok policy.owner

  get_owner : Disk → SequenceAddress → MessageId → EndUser → SequenceStorage → Result NodeDuty
  unfolding owner_of
  get_owner d address msg_id origin st =
      Replies.respond f.in_response_to get_sequence_owner
        (get_chunk f d st.chunks address SequenceAction.read origin >>= owner_of origin) msg_id
        origin

  get_user_permissions :
      Disk
      → SequenceAddress
      → SequenceUser
      → MessageId
      → EndUser
      → SequenceStorage
      → Result NodeDuty
  get_user_permissions d address user msg_id origin st =
      Replies.respond f.in_response_to get_sequence_user_permissions
        (get_chunk f d st.chunks address SequenceAction.read origin >>= λ sequence.
          from_nd (f.permissions sequence user (some origin.id)))
        msg_id origin

  public_policy_of : Sequence → Result SequencePolicy
  public_policy_of sequence =
      if f.is_public sequence
      then from_nd (f.public_policy sequence)
      else err (network_data DtError.crdt_unexpected_state)

  get_public_policy :
      Disk → SequenceAddress → MessageId → EndUser → SequenceStorage → Result NodeDuty
  unfolding public_policy_of
  get_public_policy d address msg_id origin st =
      Replies.respond f.in_response_to get_sequence_public_policy
        (get_chunk f d st.chunks address SequenceAction.read origin >>= public_policy_of) msg_id
        origin

  private_policy_of : EndUser → Sequence → Result SequencePolicy
  private_policy_of origin sequence =
      if not (f.is_public sequence)
      then from_nd (f.private_policy sequence (some origin.id))
      else err (network_data DtError.crdt_unexpected_state)

  get_private_policy :
      Disk → SequenceAddress → MessageId → EndUser → SequenceStorage → Result NodeDuty
  unfolding private_policy_of
  get_private_policy d address msg_id origin st =
      Replies.respond f.in_response_to get_sequence_private_policy
        (get_chunk f d st.chunks address SequenceAction.read origin >>= private_policy_of origin)
        msg_id origin

  unfoldable pub read :
      Disk → SequenceRead → MessageId → EndUser → SequenceStorage → Result NodeDuty
  unfolding get get_range get_last_entry get_owner get_user_permissions get_public_policy
      get_private_policy
  read d (SequenceRead.get address) msg_id origin st = get d address msg_id origin st
  read d (SequenceRead.get_range address start end) msg_id origin st =
      get_range d address start end msg_id origin st
  read d (SequenceRead.get_last_entry address) msg_id origin st =
      get_last_entry d address msg_id origin st
  read d (SequenceRead.get_owner address) msg_id origin st = get_owner d address msg_id origin st
  read d (SequenceRead.get_user_permissions address user) msg_id origin st =
      get_user_permissions d address user msg_id origin st
  read d (SequenceRead.get_public_policy address) msg_id origin st =
      get_public_policy d address msg_id origin st
  read d (SequenceRead.get_private_policy address) msg_id origin st =
      get_private_policy d address msg_id origin st
