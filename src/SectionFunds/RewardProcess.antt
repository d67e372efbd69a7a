-- ===== src/SectionFunds/RewardProcess.antt =====
-- src/section_funds/reward_process.rs and elder_signing.rs: how the elders of a section agree on a
-- payout. A handler works on a copy of the stage and stores it when all has gone well, so it is a
-- function to a result with the new stage. What the network gives is an argument of each call.
pub mod Stages
pub mod Given
pub mod Signing
pub mod Backing
mod Tests
use sn_node.Prelude.{
  ℕ, ◌/◌, ◌%◌, ◌^◌, Bool, true, false, not, Option, none, some, List, [], ◌∷◌, map, ◌==◌,
  if◌then◌else◌, u64_mod, XorName, PublicKey, NodeAge, Token, CreditId, MessageId,
}
use sn_node.Prelude.BTreeMap.{BTreeMap, insert, values}
use sn_node.Errors.{
  Error, Result, ok, err, ◌>>=◌, ◌>>◌, ok_or, DtError, TransfersError, network_data, transfer,
  invalid_reward_stage, no_section_public_key_set,
}
use sn_node.NodeOps.{
  NodeDuty, no_op, send, propose_reward_payout, accumulate_reward_payout, DstLocation, Aggregation,
}
use sn_node.SectionFunds.RewardCalc.{Nodes, Rewards, get_reward_and_mint_amount, distribute_rewards}
use sn_node.SectionFunds.RewardStage.{
  PublicKeySet, SignatureShare, Signature, bls_share, Bls, Credit, SignedCredit,
  CreditAgreementProof, signed_credit_id, proof_id, CreditProposal, CreditAccumulation, Collected,
  Details, RewardProposalDetails, RewardAccumulationDetails, RewardStage, no_stage,
  awaiting_threshold, proposing_credits, accumulating_credits, completed, uncollected, add_sig_to,
  pending, RewardProposal, RewardAccumulation, Shares, get_shares, agree_proposal,
  agree_accumulation,
}

-- u32::MAX as u64 * 1_000_000_000
abbrev pub max_supply : Token
max_supply = 4294967295000000000

-- The prefix of the section is given by its name and its number of bits.
pub record OurSection : Type 0 where
  pub prefix_name : XorName
  pub bit_count : ℕ
  pub our_key : PublicKey

-- The network as an elder sees it in one call, and ids and texts made by other crates.
pub record Network : Type 0 where
  pub network_index : Option ℕ
  pub our_public_key_set : Option PublicKeySet
  pub sign_credit : Credit → Option SignatureShare
  pub sign_signed_credit : SignedCredit → Option SignatureShare
  pub combine : XorName → PublicKey → CreditId
  pub reward_msg : NodeAge → PublicKey → ℕ
  pub new_message_id : MessageId

-- `ElderSigning`.
pub our_index : Network → Result ℕ
our_index net = ok_or net.network_index no_section_public_key_set

pub public_key_set : Network → Result PublicKeySet
public_key_set net = ok_or net.our_public_key_set no_section_public_key_set

pub sign : {A : Type 0} → (A → Option SignatureShare) → A → Result Signature
sign as_elder a = elim (as_elder a) [
  | none ↦ err (network_data DtError.invalid_operation)
  | some share ↦ ok (bls_share share)
]

pub record RewardProcess : Type 0 where
  pub our_section : OurSection
  pub stage : RewardStage

pub new : OurSection → RewardProcess
new s = record { our_section = s; stage = awaiting_threshold }

as_share : Signature → Result SignatureShare
as_share (bls_share share) = ok share
as_share _ = err Error.invalid_operation

stepped : {S : Type 0} → Result (Unit {0}) × S → Result S
stepped (ok _, s) = ok s
stepped (err e, s) = err e

-- The two payouts in the making differ in what is signed, and so share the code below.
module _ {A P : Type 0} (scheme : Bls) (agree : PublicKeySet → A → ℕ → P)
    (id_of : A → CreditId) where
  pub add_sig : Details A P → A → SignatureShare → Result (Details A P)
  unfolding stepped
  add_sig d a share = stepped (add_sig_to scheme agree (id_of a) share d)

  -- `for p in proposal.rewards { add_sig(..)? }`
  pub add_sigs : Details A P → List (A × SignatureShare) → Result (Details A P)
  add_sigs d [] = ok d
  add_sigs d ((a, share) ∷ rest) = add_sig d a share >>= λ d'. add_sigs d' rest

  by_id : List A → BTreeMap (Collected A P) → BTreeMap (Collected A P)
  by_id [] m = m
  by_id (a ∷ as') m = by_id as' (insert (id_of a) (uncollected a) m)

  add_ours : (A → Result Signature) → List (Collected A P) → Details A P → Result (Details A P)
  unfolding as_share
  add_ours sign_one [] d = ok d
  add_ours sign_one (c ∷ cs) d = do
    signature ← sign_one c.subject
    share ← as_share signature
    d' ← add_sig d c.subject share
    add_ours sign_one cs d'

  -- `sign_proposed_rewards` and `sign_accumulating_rewards`: credits by id, each with our share.
  pub sign_rewards : Network → (A → Option SignatureShare) → List A → Result (Details A P)
  unfolding by_id add_ours
  sign_rewards net as_elder credits = do
    pk_set ← public_key_set net
    let rewards = by_id credits []
    add_ours (sign as_elder) (values rewards) (record { pk_set = pk_set; rewards = rewards })

send_prop_msg : Network → OurSection → RewardProposal → NodeDuty
send_prop_msg net s proposal = send (record {
  msg = propose_reward_payout proposal net.new_message_id;
  dst = DstLocation.section s.prefix_name;
  section_source = false;
  aggregation = Aggregation.unaggregated;
})

send_acc_msg : Network → OurSection → RewardAccumulation → NodeDuty
send_acc_msg net s accumulation = send (record {
  msg = accumulate_reward_payout accumulation net.new_message_id;
  dst = DstLocation.section s.prefix_name;
  section_source = false;
  aggregation = Aggregation.unaggregated;
})

get_reward_credits : Network → PublicKey → Rewards → List Credit
get_reward_credits net section_key [] = []
get_reward_credits net section_key ((node, (age, wallet, amount)) ∷ rest) =
    record {
      id = net.combine node section_key;
      amount = amount;
      recipient = wallet;
      msg = net.reward_msg age section_key;
    }
    ∷ get_reward_credits net section_key rest

module _ (scheme : Bls) where
  abbrev sign_proposed_rewards : Network → List Credit → Result RewardProposalDetails
  sign_proposed_rewards net = sign_rewards scheme agree_proposal (λ c. c.id) net net.sign_credit

  abbrev sign_accumulating_rewards : Network → List SignedCredit → Result RewardAccumulationDetails
  sign_accumulating_rewards net =
      sign_rewards scheme agree_accumulation signed_credit_id net net.sign_signed_credit

  abbrev add_proposal_sigs :
      RewardProposalDetails → List (Credit × SignatureShare) → Result RewardProposalDetails
  add_proposal_sigs = add_sigs scheme agree_proposal (λ c. c.id)

  abbrev add_accumulation_sigs :
      RewardAccumulationDetails
      → List (SignedCredit × SignatureShare)
      → Result RewardAccumulationDetails
  add_accumulation_sigs = add_sigs scheme agree_accumulation signed_credit_id

  -- What a handler has worked out: the stage to store and the duty to return.
  abbrev Outcome : Type 0
  Outcome = Result (RewardStage × NodeDuty)

  propose : Network → OurSection → RewardProposalDetails → Outcome
  unfolding send_prop_msg
  propose net s details = do
    index ← our_index net
    ok (proposing_credits details, send_prop_msg net s (get_shares details s.our_key index))

  accumulate : Network → OurSection → RewardAccumulationDetails → Outcome
  unfolding send_acc_msg
  accumulate net s acc = do
    index ← our_index net
    ok (accumulating_credits acc, send_acc_msg net s (get_shares acc s.our_key index))

  start_proposal : Network → OurSection → RewardProposal → Outcome
  start_proposal net s proposal = do
    ours ← sign_proposed_rewards net (map (λ r. r.0) proposal.rewards)
    details ← add_proposal_sigs ours proposal.rewards
    propose net s details

  -- All credits agreed: on to the accumulation of the agreed ones. Otherwise wait for more.
  after_proposal :
      Network → OurSection → RewardProposalDetails → Option (BTreeMap SignedCredit) → Outcome
  after_proposal net s details none = ok (proposing_credits details, no_op)
  after_proposal net s details (some agreed) = do
    acc ← sign_accumulating_rewards net (values agreed)
    accumulate net s acc

  receive_proposal_at : Network → OurSection → RewardProposal → RewardStage → Outcome
  receive_proposal_at net s proposal no_stage = start_proposal net s proposal
  receive_proposal_at net s proposal awaiting_threshold = start_proposal net s proposal
  receive_proposal_at net s proposal (proposing_credits details) = do
    details' ← add_proposal_sigs details proposal.rewards
    after_proposal net s details' (pending signed_credit_id details')
  receive_proposal_at net s proposal (accumulating_credits acc) =
      ok (accumulating_credits acc, no_op)
  receive_proposal_at net s proposal (completed proofs) = ok (completed proofs, no_op)

  start_accumulation : Network → OurSection → RewardAccumulation → Outcome
  start_accumulation net s new_acc = do
    ours ← sign_accumulating_rewards net (map (λ r. r.0) new_acc.rewards)
    acc ← add_accumulation_sigs ours new_acc.rewards
    accumulate net s acc

  after_accumulation : RewardAccumulationDetails → Option (BTreeMap CreditAgreementProof) → Outcome
  after_accumulation acc none = ok (accumulating_credits acc, no_op)
  after_accumulation acc (some credit_proofs) = ok (completed credit_proofs, no_op)

  receive_accumulation_at : Network → OurSection → RewardAccumulation → RewardStage → Outcome
  receive_accumulation_at net s new_acc no_stage = err invalid_reward_stage
  receive_accumulation_at net s new_acc awaiting_threshold = start_accumulation net s new_acc
  receive_accumulation_at net s new_acc (proposing_credits d) = start_accumulation net s new_acc
  receive_accumulation_at net s new_acc (accumulating_credits acc) = do
    acc' ← add_accumulation_sigs acc new_acc.rewards
    after_accumulation acc' (pending proof_id acc')
  receive_accumulation_at net s new_acc (completed proofs) = ok (completed proofs, no_op)

  store : RewardProcess → Outcome → Result NodeDuty × RewardProcess
  store p (ok (stage, duty)) = (ok duty, record p { stage = stage })
  store p (err e) = (err e, p)

  mint_outcome : Network → OurSection → Rewards → Outcome
  unfolding get_reward_credits
  mint_outcome net s paid = do
    details ← sign_proposed_rewards net (get_reward_credits net s.our_key paid)
    propose net s details

  store_paid : Network → RewardProcess → Option Rewards → Option (Result NodeDuty × RewardProcess)
  unfolding store
  store_paid net p none = none
  store_paid net p (some paid) = some (store p (mint_outcome net p.our_section paid))

  -- The fuel is that of the calculation of the shares; `none` means that it ran out.
  pub reward_and_mint :
      ℕ → Network → Token → Token → Nodes → RewardProcess → Option (Result NodeDuty × RewardProcess)
  unfolding store_paid mint_outcome
  reward_and_mint fuel net payments section_managed our_nodes p =
      let supply = max_supply / (2 ^ p.our_section.bit_count % u64_mod) in
      let rewards = get_reward_and_mint_amount payments section_managed supply in
      store_paid net p (distribute_rewards fuel rewards our_nodes)

  pub receive_churn_proposal :
      Network → RewardProposal → RewardProcess → Result NodeDuty × RewardProcess
  unfolding store
  receive_churn_proposal net proposal p =
      if proposal.section_key == p.our_section.our_key
      then store p (receive_proposal_at net p.our_section proposal p.stage)
      else (err (transfer TransfersError.invalid_owner), p)

  pub receive_wallet_accumulation :
      Network → RewardAccumulation → RewardProcess → Result NodeDuty × RewardProcess
  unfolding store
  receive_wallet_accumulation net new_acc p =
      if new_acc.section_key == p.our_section.our_key
      then store p (receive_accumulation_at net p.our_section new_acc p.stage)
      else (err (transfer TransfersError.invalid_owner), p)
