-- ===== src/Transfers/Handlers/Requests.antt =====
-- The handlers of src/transfers/mod.rs for transfers and for queries about wallets.
use sn_node.Prelude.{Bool, true, false, PublicKey, MessageId}
use sn_node.Errors.{
  Error, ErrorMessage, TransfersError, Result, ok, err, ok_or, bincode, network_data,
  unknown_section_key, transfer, convert_to_error_message, convert_dt_error_to_error_message,
}
use sn_node.Errors
use sn_node.Action.{Action}
use sn_node.SectionFunds.RewardStage.{CreditAgreementProof}
use sn_node.Transfers.Events.{
  SignedTransfer, TransferValidated, TransferAgreementProof, ActorHistory,
}
use sn_node.Transfers.Replicas
use sn_node.Transfers.Replicas.{Io, Replicas, Wallets}
use sn_node.Transfers.Replicas.Queries
use sn_node.Metadata.Replies.{to_answer}
use sn_node.Transfers.Handlers.{SrcLocation, Env, outgoing, reply}
use sn_node.NodeOps.{
  Answer, answer, failure, get_balance, get_history, Message, query_response,
  transfer_validation_error, transfer_registration_error, transfer_propagation_error,
  validated_event, propagate_transfer, replica_events, DstLocation, Aggregation, NodeDuty, no_op,
}

module _ (env : Env) (w : Wallets) where
  -- The answer to a query, or an error without a mapping.
  respond :
      {A : Type 0}
      → (Answer A → Message)
      → Aggregation
      → SrcLocation
      → Result A × Replicas
      → Result NodeDuty × Replicas
  unfolding to_answer outgoing
  respond response aggregation origin (result, r) = (
    Errors.◌>>=◌ (to_answer result)
        λ a. ok (outgoing env w false aggregation (response a) (env.to_dst origin)),
    r,
  )

  pub all_events : (PublicKey → Io) → MessageId → SrcLocation → Action Replicas NodeDuty
  unfolding respond
  all_events io msg_id origin r =
      respond (λ a. replica_events a (env.in_response_to msg_id) msg_id) Aggregation.at_destination
        origin (Queries.all_events w io r)

  pub balance : Io → PublicKey → MessageId → SrcLocation → Action Replicas NodeDuty
  unfolding respond
  balance io wallet_id msg_id origin r =
      respond (λ a. query_response (get_balance a) (env.in_response_to msg_id) msg_id)
        Aggregation.unaggregated origin (Queries.balance w io wallet_id r)

  -- Any error becomes the same error for the client.
  history_answer : PublicKey → Result ActorHistory → Answer ActorHistory
  history_answer wallet_id (ok h) = answer h
  history_answer wallet_id (err _) = failure (ErrorMessage.no_history_for_public_key wallet_id)

  pub history : Io → Bool → PublicKey → MessageId → SrcLocation → Action Replicas NodeDuty
  unfolding history_answer reply
  history io no_such_file wallet_id msg_id origin r =
      let (h, r') = Queries.history w io no_such_file wallet_id r in
      (
        ok (
            reply env w
              (query_response (get_history (history_answer wallet_id h)) (env.in_response_to msg_id)
                msg_id)
              (env.to_dst origin)),
        r',
      )

  validation_reply : MessageId → SrcLocation → Result TransferValidated → Result NodeDuty
  unfolding reply
  validation_reply msg_id origin (ok event) =
      ok (reply env w (validated_event event env.new_id msg_id) (env.to_dst origin))
  validation_reply msg_id origin (err e) =
      Errors.◌>>=◌ (convert_to_error_message e) λ message_error. ok (
        reply env w (transfer_validation_error message_error (env.in_response_to msg_id) msg_id)
          (env.to_dst origin))

  pub validate : Io → SignedTransfer → MessageId → SrcLocation → Action Replicas NodeDuty
  unfolding validation_reply
  validate io signed_transfer msg_id origin r =
      let (result, r') = Replicas.validate w io signed_transfer r in
      (validation_reply msg_id origin result, r')

  registration_reply :
      TransferAgreementProof → MessageId → Result TransferAgreementProof → Result NodeDuty
  unfolding outgoing
  registration_reply proof msg_id (ok event) = ok (
      outgoing env w true Aggregation.at_destination
        (propagate_transfer event.credit_proof (env.in_response_to msg_id))
        (DstLocation.section (env.section_of event.recipient)))
  registration_reply proof msg_id (err e) =
      Errors.◌>>=◌ (convert_to_error_message e) λ message_error. ok (
        outgoing env w false Aggregation.at_destination
          (transfer_registration_error message_error (env.in_response_to msg_id) msg_id)
          (env.all_clients proof.sender))

  pub register : Io → TransferAgreementProof → MessageId → Action Replicas NodeDuty
  unfolding registration_reply
  register io proof msg_id r =
      let (result, r') = Replicas.register w io proof r in
      (registration_reply proof msg_id result, r')

  propagation_error : MessageId → SrcLocation → ErrorMessage → NodeDuty
  unfolding outgoing
  propagation_error msg_id origin e =
      outgoing env w false Aggregation.at_destination
        (transfer_propagation_error e (env.in_response_to msg_id) msg_id) (env.to_dst origin)

  -- Any other error is returned.
  propagation_reply : MessageId → SrcLocation → Result CreditAgreementProof → Result NodeDuty
  unfolding propagation_error
  propagation_reply msg_id origin (ok _) = ok no_op
  propagation_reply msg_id origin (err (network_data e)) =
      Errors.◌>>=◌ (convert_dt_error_to_error_message e)
        λ message_error. ok (propagation_error msg_id origin message_error)
  propagation_reply msg_id origin (err (unknown_section_key _)) =
      ok (propagation_error msg_id origin ErrorMessage.no_such_key)
  propagation_reply msg_id origin (err (transfer TransfersError.section_key_never_existed)) =
      ok (propagation_error msg_id origin ErrorMessage.no_such_key)
  propagation_reply msg_id origin (err e) = err e

  pub receive_propagated :
      Io → CreditAgreementProof → MessageId → SrcLocation → Action Replicas NodeDuty
  unfolding propagation_reply
  receive_propagated io credit_proof msg_id origin r =
      let (result, r') = Replicas.receive_propagated w io credit_proof r in
      (propagation_reply msg_id origin result, r')
