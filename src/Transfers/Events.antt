-- ===== src/Transfers/Events.antt =====
-- The values of `sn_data_types` that src/transfers works on: debits and credits, their proofs, and
-- the events of a replica. A record holds what the getters of the crate return, and a number for
-- the rest.
use sn_node.Prelude.{◌≡◌, refl, ◌⊎◌, inl, inr, ℕ, List, PublicKey, Token}
use sn_node.Errors.{TransfersError, Result, transfer}
use sn_node.SectionFunds.RewardStage.{
  PublicKeySet, SignatureShare, SignedCredit, CreditAgreementProof,
}

-- `sn_transfers::Result`, and `impl From<sn_transfers::Error> for Error`.
pub data TrResult (A : Type 0) : Type 0 where
  ok : A → TrResult A
  err : TransfersError → TrResult A

abbrev pub from_tr : {A : Type 0} → TrResult A → Result A
from_tr (TrResult.ok a) = Result.ok a
from_tr (TrResult.err e) = Result.err (transfer e)

pub tr-cases :
    {A : Type 0} (r : TrResult A)
    → ((a : A) × (r ≡ TrResult.ok a)) ⊎ ((e : TransfersError) × (r ≡ TrResult.err e))
tr-cases (TrResult.ok a) = inl (a, refl)
tr-cases (TrResult.err e) = inr (e, refl)

-- `DebitId`: the payer, and the number of the debit among the payer's.
pub record DebitId : Type 0 where
  pub actor : PublicKey
  pub counter : ℕ

pub record SignedDebit : Type 0 where
  pub sender : PublicKey
  pub content : ℕ

pub record SignedTransfer : Type 0 where
  pub debit : SignedDebit
  pub credit : SignedCredit

pub record TransferValidated : Type 0 where
  pub signed_credit : SignedCredit
  pub signed_debit : SignedDebit
  pub replica_debit_sig : SignatureShare
  pub replica_credit_sig : SignatureShare
  pub replicas : PublicKeySet

pub record TransferAgreementProof : Type 0 where
  pub id : DebitId
  pub sender : PublicKey
  pub recipient : PublicKey
  pub amount : Token
  -- `replica_keys().public_key()`.
  pub replicas_key : PublicKey
  pub credit_proof : CreditAgreementProof
  pub content : ℕ

abbrev pub recipient_of : CreditAgreementProof → PublicKey
recipient_of proof = proof.signed_credit.credit.recipient

pub data ReplicaEvent : Type 0 where
  transfer_validation_proposed : SignedTransfer → ReplicaEvent
  transfer_validated : TransferValidated → ReplicaEvent
  transfer_registered : TransferAgreementProof → ReplicaEvent
  transfer_propagated : CreditAgreementProof → ReplicaEvent

pub record ActorHistory : Type 0 where
  pub credits : List CreditAgreementProof
  pub debits : List TransferAgreementProof
