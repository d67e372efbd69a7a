-- ===== src/NodeOps.antt =====
-- src/node_ops.rs: what a component asks the node to do next, with the messages that the modelled
-- components send (of sn_messaging and sn_data_types, as far as they are built here).
use sn_node.Prelude.{ℕ, Bool, List, [], ◌∷◌, XorName, PublicKey, MessageId, Token}
use sn_node.Prelude.BTreeMap.{BTreeSet}
use sn_node.DataTypes.{
  Map, MapAddress, MapKey, MapKeys, MapValue, MapValues, MapEntries, MapPermissions,
  MapPermissionSet, MapEntryActions, Sequence, SequenceAddress, SequenceEntry, SequenceEntries,
  SequenceIndex, SequenceUser, SequencePermissions, SequenceOp, SequencePolicy,
}
use sn_node.Errors.{ErrorMessage}
use sn_node.SectionFunds.RewardStage.{RewardProposal, RewardAccumulation, CreditAgreementProof}
use sn_node.Transfers.Events.{TransferValidated, ReplicaEvent, ActorHistory}

abbrev pub BlobAddress : Type 0
BlobAddress = ℕ

pub record Blob : Type 0 where
  pub address : BlobAddress
  pub content : ℕ

-- A client, by the key that it signs with and the connection that it comes from.
pub record EndUser : Type 0 where
  pub id : PublicKey
  pub connection : ℕ

pub data BlobWrite : Type 0 where
  new : Blob → BlobWrite
  delete_private : BlobAddress → BlobWrite

pub data BlobRead : Type 0 where
  get : BlobAddress → BlobRead

pub data MapRead : Type 0 where
  get get_shell get_version list_entries list_keys list_values : MapAddress → MapRead
  list_permissions : MapAddress → MapRead
  get_value : MapAddress → MapKey → MapRead
  list_user_permissions : MapAddress → PublicKey → MapRead

pub data MapWrite : Type 0 where
  new : Map → MapWrite
  delete : MapAddress → MapWrite
  -- Each with the user and, last, the version that the permissions get.
  set_user_permissions : MapAddress → PublicKey → MapPermissionSet → ℕ → MapWrite
  del_user_permissions : MapAddress → PublicKey → ℕ → MapWrite
  edit : MapAddress → MapEntryActions → MapWrite

pub data SequenceRead : Type 0 where
  get get_last_entry get_owner : SequenceAddress → SequenceRead
  get_public_policy get_private_policy : SequenceAddress → SequenceRead
  get_range : SequenceAddress → SequenceIndex → SequenceIndex → SequenceRead
  get_user_permissions : SequenceAddress → SequenceUser → SequenceRead

pub data SequenceWrite : Type 0 where
  new : Sequence → SequenceWrite
  edit : SequenceOp → SequenceWrite
  delete : SequenceAddress → SequenceWrite

-- `DataCmd`.
pub data DataCmd : Type 0 where
  blob : BlobWrite → DataCmd
  map : MapWrite → DataCmd
  sequence : SequenceWrite → DataCmd

-- `DataQuery`.
pub data DataQuery : Type 0 where
  blob : BlobRead → DataQuery
  map : MapRead → DataQuery
  sequence : SequenceRead → DataQuery

-- `sn_messaging::client::Result`, the answer to a query.
pub data Answer (A : Type 0) : Type 0 where
  answer : A → Answer A
  failure : ErrorMessage → Answer A

pub data QueryResponse : Type 0 where
  get_map get_map_shell : Answer Map → QueryResponse
  get_map_version : Answer ℕ → QueryResponse
  get_map_value : Answer MapValue → QueryResponse
  list_map_entries : Answer MapEntries → QueryResponse
  list_map_keys : Answer MapKeys → QueryResponse
  list_map_values : Answer MapValues → QueryResponse
  list_map_permissions : Answer MapPermissions → QueryResponse
  list_map_user_permissions : Answer MapPermissionSet → QueryResponse
  get_sequence : Answer Sequence → QueryResponse
  get_sequence_range : Answer SequenceEntries → QueryResponse
  get_sequence_last_entry : Answer (ℕ × SequenceEntry) → QueryResponse
  get_sequence_owner : Answer PublicKey → QueryResponse
  get_sequence_user_permissions : Answer SequencePermissions → QueryResponse
  get_sequence_public_policy get_sequence_private_policy : Answer SequencePolicy → QueryResponse
  get_store_cost get_balance : Answer Token → QueryResponse
  get_history : Answer ActorHistory → QueryResponse

pub data Message : Type 0 where
  -- `NodeCmd::System` with `ProposeRewardPayout` or `AccumulateRewardPayout`.
  propose_reward_payout : RewardProposal → MessageId → Message
  accumulate_reward_payout : RewardAccumulation → MessageId → Message
  -- `NodeCmd::System` with `ReplicateChunk`: new holder, address, current holders.
  replicate_chunk : XorName → BlobAddress → BTreeSet → MessageId → Message
  -- `NodeCmd::Chunks` and `NodeQuery::Chunks`.
  chunk_cmd : BlobWrite → EndUser → MessageId → Message
  chunk_query : BlobRead → EndUser → MessageId → Message
  -- Responses: the error, the id of the response and the id of the request.
  cmd_error : ErrorMessage → MessageId → MessageId → Message
  get_blob_error : ErrorMessage → MessageId → MessageId → Message
  get_blob : Blob → MessageId → MessageId → Message
  -- `CmdError::Transfer`.
  transfer_validation_error transfer_registration_error :
      ErrorMessage → MessageId → MessageId → Message
  -- `NodeCmdError::Transfers`.
  transfer_propagation_error : ErrorMessage → MessageId → MessageId → Message
  -- `Event::TransferValidated`: its own id, and the id of the request.
  validated_event : TransferValidated → MessageId → MessageId → Message
  -- `NodeCmd::Transfers` and `NodeCmd::Metadata`.
  propagate_transfer : CreditAgreementProof → MessageId → Message
  metadata_cmd : DataCmd → EndUser → MessageId → Message
  -- `NodeQueryResponse::Transfers`.
  replica_events : Answer (List ReplicaEvent) → MessageId → MessageId → Message
  -- `Message::QueryResponse` for the other kinds of data.
  query_response : QueryResponse → MessageId → MessageId → Message
  -- `NodeQuery::System` with `GetChunk` (address, new holder), and the chunk in response.
  get_chunk : BlobAddress → XorName → MessageId → Message
  chunk_response : Blob → MessageId → MessageId → Message

pub data DstLocation : Type 0 where
  section node : XorName → DstLocation
  end_user : EndUser → DstLocation

pub data Aggregation : Type 0 where
  unaggregated at_destination : Aggregation

pub record OutgoingMsg : Type 0 where
  pub msg : Message
  pub dst : DstLocation
  pub section_source : Bool
  pub aggregation : Aggregation

pub data NodeDuty : Type 0 where
  no_op : NodeDuty
  send : OutgoingMsg → NodeDuty
  send_to_nodes : BTreeSet → Message → NodeDuty
  add_payment : CreditAgreementProof → NodeDuty
  set_node_joins_allowed : Bool → NodeDuty
  reaching_max_capacity : NodeDuty

abbrev pub NodeDuties : Type 0
NodeDuties = List NodeDuty

-- `impl From<NodeDuty> for NodeDuties`.
unfoldable pub from_duty : NodeDuty → NodeDuties
from_duty no_op = []
from_duty duty = duty ∷ []
