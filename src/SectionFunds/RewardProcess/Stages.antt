-- ===== src/SectionFunds/RewardProcess/Stages.antt =====
-- The stages of a payout as messages arrive (src/section_funds/reward_process.rs).
use sn_node.Prelude.{
  ℕ, ◌≤◌, inl, inr, Option, none, some, List, [], ◌∷◌, arith, Bool-cases, ◌==◌, map,
}
use sn_node.Prelude.BTreeMap.{BTreeMap, values}
use sn_node.Errors.{Result, ok, err, ◌>>=◌, Result-cases}
use sn_node.NodeOps.{NodeDuty}
use sn_node.SectionFunds.RewardStage.{
  Bls, RewardStage, no_stage, awaiting_threshold, proposing_credits, accumulating_credits,
  completed, RewardProposal, RewardAccumulation, RewardProposalDetails, RewardAccumulationDetails,
  pending, signed_credit_id, proof_id, CreditAgreementProof, SignedCredit,
}
use sn_node.SectionFunds.RewardProcess.{
  Network, OurSection, RewardProcess, sign_proposed_rewards, sign_accumulating_rewards,
  add_proposal_sigs, add_accumulation_sigs, propose, accumulate, start_proposal, after_proposal,
  our_index, receive_proposal_at, start_accumulation, after_accumulation, receive_accumulation_at,
  store, receive_churn_proposal, receive_wallet_accumulation,
}

-- How far a payout has come.
abbrev pub rank : RewardStage → ℕ
rank no_stage = 0
rank awaiting_threshold = 0
rank (proposing_credits d) = 1
rank (accumulating_credits d) = 2
rank (completed proofs) = 3

-- A handler's outcome has come at least so far.
abbrev Reaches : ℕ → Result (RewardStage × NodeDuty) → Type 0
Reaches n (ok (stage, duty)) = n ≤ rank stage
Reaches n (err e) = Unit {0}

module _ {A : Type 0} (n : ℕ) (m : Result A) (f : A → Result (RewardStage × NodeDuty)) where
  >>=-Reaches : ((a : A) → Reaches n (f a)) → Reaches n (m >>= f)
  >>=-Reaches h = elim (Result-cases m) [ inl (a, e) ↦ rw e (h a) | inr (x, e) ↦ rw e tt ]

module _ (scheme : Bls) (net : Network) (s : OurSection) where
  propose-Reaches : (d : RewardProposalDetails) → Reaches 1 (propose scheme net s d)
  unfolding propose
  propose-Reaches d = >>=-Reaches 1 (our_index net) _ (λ index. omega arith)

  accumulate-Reaches : (acc : RewardAccumulationDetails) → Reaches 2 (accumulate scheme net s acc)
  unfolding accumulate
  accumulate-Reaches acc = >>=-Reaches 2 (our_index net) _ (λ index. omega arith)

  Reaches-mono : (n k : ℕ) (o : Result (RewardStage × NodeDuty)) → n ≤ k → Reaches k o → Reaches n o
  Reaches-mono n k (ok (stage, duty)) h r = omega arith
  Reaches-mono n k (err e) h r = tt

  after_proposal-Reaches :
      (d : RewardProposalDetails) (o : Option (BTreeMap SignedCredit))
      → Reaches 1 (after_proposal scheme net s d o)
  unfolding after_proposal
  after_proposal-Reaches d none = omega arith
  after_proposal-Reaches d (some agreed) = Reaches-mono 1 2 _ (omega arith) (
      >>=-Reaches 2 (sign_accumulating_rewards scheme net (values agreed)) (accumulate scheme net s)
        accumulate-Reaches)

  start_proposal-Reaches :
      (proposal : RewardProposal) → Reaches 0 (start_proposal scheme net s proposal)
  unfolding start_proposal
  start_proposal-Reaches proposal =
      let sigs : RewardProposalDetails → Result RewardProposalDetails =
        λ ours. add_proposal_sigs scheme ours proposal.rewards in
      >>=-Reaches 0 (sign_proposed_rewards scheme net (map (λ r. r.0) proposal.rewards))
        (λ ours. sigs ours >>= propose scheme net s)
        λ ours.
          >>=-Reaches 0 (sigs ours) (propose scheme net s)
            λ d. Reaches-mono 0 1 (propose scheme net s d) (omega arith) (propose-Reaches d)

  proposal-Reaches :
      (proposal : RewardProposal) (stage : RewardStage)
      → Reaches (rank stage) (receive_proposal_at scheme net s proposal stage)
  unfolding receive_proposal_at
  proposal-Reaches proposal no_stage = start_proposal-Reaches proposal
  proposal-Reaches proposal awaiting_threshold = start_proposal-Reaches proposal
  proposal-Reaches proposal (proposing_credits d) =
      >>=-Reaches 1 (add_proposal_sigs scheme d proposal.rewards)
        (λ d'. after_proposal scheme net s d' (pending signed_credit_id d'))
        λ d'. after_proposal-Reaches d' (pending signed_credit_id d')
  proposal-Reaches proposal (accumulating_credits acc) = omega arith
  proposal-Reaches proposal (completed proofs) = omega arith

  after_accumulation-Reaches :
      (acc : RewardAccumulationDetails) (o : Option (BTreeMap CreditAgreementProof))
      → Reaches 2 (after_accumulation scheme acc o)
  unfolding after_accumulation
  after_accumulation-Reaches acc none = omega arith
  after_accumulation-Reaches acc (some proofs) = omega arith

  start_accumulation-Reaches :
      (n : ℕ) (new_acc : RewardAccumulation)
      → n ≤ 2
      → Reaches n (start_accumulation scheme net s new_acc)
  unfolding start_accumulation
  start_accumulation-Reaches n new_acc h =
      let sigs : RewardAccumulationDetails → Result RewardAccumulationDetails =
        λ ours. add_accumulation_sigs scheme ours new_acc.rewards in
      >>=-Reaches n (sign_accumulating_rewards scheme net (map (λ r. r.0) new_acc.rewards))
        (λ ours. sigs ours >>= accumulate scheme net s)
        λ ours.
          >>=-Reaches n (sigs ours) (accumulate scheme net s)
            λ acc. Reaches-mono n 2 (accumulate scheme net s acc) h (accumulate-Reaches acc)

  accumulation-Reaches :
      (new_acc : RewardAccumulation) (stage : RewardStage)
      → Reaches (rank stage) (receive_accumulation_at scheme net s new_acc stage)
  unfolding receive_accumulation_at
  accumulation-Reaches new_acc no_stage = tt
  accumulation-Reaches new_acc awaiting_threshold =
      start_accumulation-Reaches 0 new_acc (omega arith)
  accumulation-Reaches new_acc (proposing_credits d) =
      start_accumulation-Reaches 1 new_acc (omega arith)
  accumulation-Reaches new_acc (accumulating_credits acc) =
      >>=-Reaches 2 (add_accumulation_sigs scheme acc new_acc.rewards)
        (λ acc'. after_accumulation scheme acc' (pending proof_id acc'))
        λ acc'. after_accumulation-Reaches acc' (pending proof_id acc')
  accumulation-Reaches new_acc (completed proofs) = omega arith

-- A message of another elder, with the network at its arrival.
pub data Received : Type 0 where
  proposed : Network → RewardProposal → Received
  accumulated : Network → RewardAccumulation → Received

module _ (scheme : Bls) where
  unfoldable pub receive : Received → RewardProcess → Result NodeDuty × RewardProcess
  receive (proposed net proposal) p = receive_churn_proposal scheme net proposal p
  receive (accumulated net acc) p = receive_wallet_accumulation scheme net acc p

  unfoldable pub receive_all : RewardProcess → List Received → RewardProcess
  receive_all p [] = p
  receive_all p (r ∷ rs) = receive_all (receive r p).1 rs

  store-rank :
      (p : RewardProcess) (o : Result (RewardStage × NodeDuty))
      → Reaches (rank p.stage) o
      → rank p.stage ≤ rank (store scheme p o).1.stage
  unfolding store
  store-rank p (ok (stage, duty)) r = r
  store-rank p (err e) r = omega arith

  receive-rank : (r : Received) (p : RewardProcess) → rank p.stage ≤ rank (receive r p).1.stage
  unfolding receive receive_churn_proposal receive_wallet_accumulation
  receive-rank (proposed net proposal) p =
      let h = store-rank p _ (proposal-Reaches scheme net p.our_section proposal p.stage) in
      elim (Bool-cases (proposal.section_key == p.our_section.our_key)) [
        | inl e ↦ rw e h
        | inr e ↦ rw e (omega arith)
      ]
  receive-rank (accumulated net acc) p =
      let h = store-rank p _ (accumulation-Reaches scheme net p.our_section acc p.stage) in
      elim (Bool-cases (acc.section_key == p.our_section.our_key)) [
        | inl e ↦ rw e h
        | inr e ↦ rw e (omega arith)
      ]

  -- No messages, in whatever order and from whomever, set a payout back to an earlier stage.
  pub receive_all-rank :
      (p : RewardProcess) (rs : List Received) → rank p.stage ≤ rank (receive_all p rs).stage
  unfolding receive_all
  receive_all-rank p [] = omega arith
  receive_all-rank p (r ∷ rs) = omega (arith, receive-rank r p, receive_all-rank (receive r p).1 rs)
