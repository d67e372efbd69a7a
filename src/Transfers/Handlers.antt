-- ===== src/Transfers/Handlers.antt =====
-- src/transfers/mod.rs: the handlers of an elder for transfers, over the replicas of the section's
-- wallets. The store cost of some bytes and the routing of replies are parameters.
pub mod Requests
pub mod Payment
mod Tests
use sn_node.Prelude.{
  ℕ, Bool, true, false, Option, none, some, List, [], ◌∷◌, ltb, ◌==◌, if◌then◌else◌, XorName,
  PublicKey, MessageId, Token,
}
use sn_node.Prelude.BTreeMap.{BTreeMap}
use sn_node.Errors.{
  Error, ErrorMessage, TransfersError, Result, ok, err, ok_or, bincode, network_data,
  unknown_section_key, transfer, convert_to_error_message, convert_dt_error_to_error_message,
}
use sn_node.Errors
use sn_node.Action.{Action, pure, fail, lift, gets, ◌>>=◌, ◌>>◌}
use sn_node.SectionFunds.RewardStage.{PublicKeySet, CreditAgreementProof}
use sn_node.Transfers.Events.{
  SignedTransfer, TransferValidated, TransferAgreementProof, ReplicaEvent, ActorHistory,
}
use sn_node.Transfers.Replicas
use sn_node.Transfers.Replicas.{Io, Replicas, Wallets}
use sn_node.Transfers.Replicas.Queries
use sn_node.NodeOps.{
  EndUser, DataCmd, Answer, answer, failure, get_store_cost, get_balance, get_history, Message,
  query_response, transfer_validation_error, transfer_registration_error,
  transfer_propagation_error, validated_event, propagate_transfer, metadata_cmd, replica_events,
  DstLocation, Aggregation, NodeDuty, no_op, send, add_payment, set_node_joins_allowed, NodeDuties,
}

-- `SrcLocation`.
abbrev pub SrcLocation : Type 0
SrcLocation = ℕ

-- What the handlers ask of messages, of the rate limit and of the section's keys.
pub record Env : Type 0 where
  pub to_dst : SrcLocation → DstLocation
  -- `SrcLocation::EndUser(EndUser::AllClients(key))`, and the key as the name of a section.
  pub all_clients : PublicKey → DstLocation
  pub section_of : PublicKey → XorName
  pub in_response_to : MessageId → MessageId
  pub new_id : MessageId
  pub dst_address : DataCmd → XorName
  pub serialised_len : DataCmd → Option ℕ
  -- `RateLimit::from` and `RateLimit::more_nodes_required`.
  pub store_cost : ℕ → Token
  pub more_nodes_required : Bool
  pub public_key : PublicKeySet → PublicKey
  -- Whether the log takes messages of the level `info`.
  pub logs_info : Bool

-- What the disk does in the three calls on the replicas that a payment takes.
pub record PaymentIo : Type 0 where
  pub registering : Io
  pub propagating : Io
  pub logging : Io

-- A message of a client: `Cmd::Data` with its payment, or any other.
pub data PaidMsg : Type 0 where
  data_cmd : TransferAgreementProof → DataCmd → PaidMsg
  other : PaidMsg

module _ (env : Env) (w : Wallets) where
  pub outgoing : Bool → Aggregation → Message → DstLocation → NodeDuty
  outgoing section_source aggregation msg dst =
      send (record {
        msg = msg;
        dst = dst;
        section_source = section_source;
        aggregation = aggregation;
      })

  pub reply : Message → DstLocation → NodeDuty
  unfolding outgoing
  reply = outgoing false Aggregation.unaggregated

  pub get_store_cost_duties : ℕ → MessageId → SrcLocation → NodeDuties
  unfolding reply
  get_store_cost_duties bytes msg_id origin =
      reply
        (query_response (get_store_cost (answer (env.store_cost bytes))) (env.in_response_to msg_id)
          msg_id)
        (env.to_dst origin)
      ∷ set_node_joins_allowed env.more_nodes_required
      ∷ []

  pub initiate_replica : List (Io × ReplicaEvent) → Action Replicas NodeDuty
  initiate_replica events = do Replicas.initiate w events; pure no_op

  pub section_wallet_id : Replicas → PublicKey
  section_wallet_id r = env.public_key (Queries.replicas_pk_set r)

  registration_error : ErrorMessage → MessageId → PublicKey → NodeDuty
  unfolding reply
  registration_error e id sender =
      reply (transfer_registration_error e (env.in_response_to id) id) (env.all_clients sender)

  -- The balance that is written to the log, where the log takes it.
  log_balance : Io → PublicKey → Action Replicas Token
  log_balance io id = if env.logs_info then Queries.balance w io id else pure 0

  forward : DataCmd → EndUser → MessageId → NodeDuty
  unfolding outgoing
  forward cmd origin id =
      outgoing true Aggregation.at_destination (metadata_cmd cmd origin (env.in_response_to id))
        (DstLocation.section (env.dst_address cmd))

  -- The duties for a payment that was taken.
  taken :
      TransferAgreementProof → DataCmd → ℕ → MessageId → EndUser → CreditAgreementProof → NodeDuties
  unfolding registration_error forward
  taken payment cmd num_bytes id origin credit =
      if ltb payment.amount (env.store_cost num_bytes)
      then add_payment credit
        ∷ registration_error ErrorMessage.insufficient_balance id payment.sender
        ∷ []
      else add_payment credit ∷ forward cmd origin id ∷ []

  settled :
      Io
      → TransferAgreementProof
      → DataCmd
      → ℕ
      → MessageId
      → EndUser
      → Result CreditAgreementProof
      → Action Replicas NodeDuties
  unfolding log_balance taken registration_error
  settled io payment cmd num_bytes id origin (ok credit) = do
    log_balance io payment.recipient
    pure (taken payment cmd num_bytes id origin credit)
  settled io payment cmd num_bytes id origin (err _) =
      pure (registration_error ErrorMessage.payment_failed id payment.sender ∷ [])

  -- Registration of the payment, then its propagation to the wallet of the section.
  pub register_payment : PaymentIo → TransferAgreementProof → Action Replicas CreditAgreementProof
  register_payment io payment = do
    Replicas.register w io.registering payment
    Replicas.receive_propagated w io.propagating payment.credit_proof

  pay :
      PaymentIo
      → TransferAgreementProof
      → DataCmd
      → ℕ
      → MessageId
      → EndUser
      → Action Replicas NodeDuties
  unfolding register_payment settled
  pay io payment cmd num_bytes id origin r =
      let (result, r') = register_payment io payment r in
      settled io.logging payment cmd num_bytes id origin result r'

  pub process_payment : PaymentIo → PaidMsg → MessageId → EndUser → Action Replicas NodeDuties
  unfolding pay section_wallet_id registration_error
  process_payment io other id origin = pure []
  process_payment io (data_cmd payment cmd) id origin = do
    num_bytes ← lift (ok_or (env.serialised_len cmd) bincode)
    wallet ← gets section_wallet_id
    if payment.recipient == wallet
        then pay io payment cmd num_bytes id origin
        else pure (registration_error ErrorMessage.no_such_recipient id payment.sender ∷ [])
