-- ===== src/SectionFunds/RewardProcess/Backing.antt =====
-- What stands behind the credits of a payout at each stage (src/section_funds/reward_process.rs).
use sn_node.Prelude.{
  ◌≡◌, refl, inl, inr, Option, none, some, List, [], ◌∷◌, Bool-cases, ◌==◌, ==_iff, map, All, ap,
  ◌∙◌, CreditId, PublicKey,
}
use sn_node.Prelude.BTreeMap.{BTreeMap, values}
use sn_node.Errors.{Result, ok, err, ◌>>=◌, Holds, >>=-Holds}
use sn_node.NodeOps.{NodeDuty}
use sn_node.SectionFunds.RewardStage.{
  Bls, PublicKeySet, RewardStage, no_stage, awaiting_threshold, proposing_credits,
  accumulating_credits, completed, RewardProposal, RewardAccumulation, RewardProposalDetails,
  RewardAccumulationDetails, pending, signed_credit_id, proof_id, CreditAgreementProof,
  SignatureShare, SignedCredit, agree_proposal, agree_accumulation,
}
use sn_node.SectionFunds.RewardStage.Backed.{Backed, Agreed, pending-Backed}
use sn_node.SectionFunds.RewardProcess.{
  Network, OurSection, RewardProcess, sign_proposed_rewards, sign_accumulating_rewards,
  add_proposal_sigs, add_accumulation_sigs, propose, accumulate, start_proposal, after_proposal,
  our_index, receive_proposal_at, start_accumulation, after_accumulation, receive_accumulation_at,
  store, receive_churn_proposal, receive_wallet_accumulation, new,
}
use sn_node.SectionFunds.RewardProcess.Signing.{anything, add_sigs-Agreed, sign_rewards-Agreed}
use sn_node.SectionFunds.RewardProcess.Stages.{
  Received, proposed, accumulated, receive, receive_all,
}
use sn_node.SectionFunds.RewardProcess.Given.{
  Proposed, Accumulated, SignsThen, Brings, key_of, messages_known,
}

module _ (scheme : Bls) (GivenFirst GivenThen : CreditId → SignatureShare → Type 0) where
  abbrev Proposals : RewardProposalDetails → Type 0
  Proposals = Agreed scheme agree_proposal (λ c. c.id) GivenFirst

  abbrev Accumulations : RewardAccumulationDetails → Type 0
  Accumulations = Agreed scheme agree_accumulation signed_credit_id GivenThen

  -- A proof of agreement that a completed payout holds.
  abbrev pub Proven : CreditAgreementProof → Type 0
  Proven p =
      (pk_set : PublicKeySet) × Backed scheme agree_accumulation signed_credit_id GivenThen pk_set p

  -- What stands behind each credit of a stage.
  abbrev pub IsBacked : RewardStage → Type 0
  IsBacked no_stage = Unit {0}
  IsBacked awaiting_threshold = Unit {0}
  IsBacked (proposing_credits d) = Proposals d
  IsBacked (accumulating_credits d) = Accumulations d
  IsBacked (completed proofs) = All (λ e. Proven e.1) proofs

  abbrev Given : Received → Type 0
  Given = Brings GivenFirst GivenThen

  abbrev BackedOutcome : RewardStage × NodeDuty → Type 0
  BackedOutcome o = IsBacked o.0

  module _ (net : Network) (s : OurSection) where
    propose-IsBacked :
        (d : RewardProposalDetails) → Proposals d → Holds BackedOutcome (propose scheme net s d)
    unfolding propose
    propose-IsBacked d g =
        >>=-Holds (λ _. Unit {0}) BackedOutcome (our_index net) _ (anything (our_index net))
          (λ index _. g)

    accumulate-IsBacked :
        (d : RewardAccumulationDetails)
        → Accumulations d
        → Holds BackedOutcome (accumulate scheme net s d)
    unfolding accumulate
    accumulate-IsBacked d g =
        >>=-Holds (λ _. Unit {0}) BackedOutcome (our_index net) _ (anything (our_index net))
          (λ index _. g)

    start_proposal-IsBacked :
        (proposal : RewardProposal)
        → Given (proposed net proposal)
        → Holds BackedOutcome (start_proposal scheme net s proposal)
    unfolding start_proposal
    start_proposal-IsBacked proposal (signs, _, brought) =
        let sigs : RewardProposalDetails → Result RewardProposalDetails =
          λ ours. add_proposal_sigs scheme ours proposal.rewards in
        let credits = map (λ r. r.0) proposal.rewards in
        >>=-Holds Proposals BackedOutcome (sign_proposed_rewards scheme net credits)
          (λ ours. sigs ours >>= propose scheme net s)
          (sign_rewards-Agreed scheme agree_proposal (λ c. c.id) GivenFirst net net.sign_credit
            credits signs)
          λ ours g.
            >>=-Holds Proposals BackedOutcome (sigs ours) (propose scheme net s)
              (add_sigs-Agreed scheme agree_proposal (λ c. c.id) GivenFirst proposal.rewards ours
                brought g)
              propose-IsBacked

    start_accumulation-IsBacked :
        (new_acc : RewardAccumulation)
        → Given (accumulated net new_acc)
        → Holds BackedOutcome (start_accumulation scheme net s new_acc)
    unfolding start_accumulation
    start_accumulation-IsBacked new_acc (signs, brought) =
        let sigs : RewardAccumulationDetails → Result RewardAccumulationDetails =
          λ ours. add_accumulation_sigs scheme ours new_acc.rewards in
        let credits = map (λ r. r.0) new_acc.rewards in
        >>=-Holds Accumulations BackedOutcome (sign_accumulating_rewards scheme net credits)
          (λ ours. sigs ours >>= accumulate scheme net s)
          (sign_rewards-Agreed scheme agree_accumulation signed_credit_id GivenThen net
            net.sign_signed_credit credits signs)
          λ ours g.
            >>=-Holds Accumulations BackedOutcome (sigs ours) (accumulate scheme net s)
              (add_sigs-Agreed scheme agree_accumulation signed_credit_id GivenThen new_acc.rewards
                ours brought g)
              accumulate-IsBacked

    after_proposal-IsBacked :
        (d : RewardProposalDetails) (o : Option (BTreeMap SignedCredit))
        → SignsThen GivenFirst GivenThen net
        → Proposals d
        → Holds BackedOutcome (after_proposal scheme net s d o)
    unfolding after_proposal
    after_proposal-IsBacked d none signs g = g
    after_proposal-IsBacked d (some agreed) signs g =
        >>=-Holds Accumulations BackedOutcome (sign_accumulating_rewards scheme net (values agreed))
          (accumulate scheme net s)
          (sign_rewards-Agreed scheme agree_accumulation signed_credit_id GivenThen net
            net.sign_signed_credit (values agreed) signs)
          accumulate-IsBacked

    proposal-IsBacked :
        (proposal : RewardProposal) (stage : RewardStage)
        → Given (proposed net proposal)
        → IsBacked stage
        → Holds BackedOutcome (receive_proposal_at scheme net s proposal stage)
    unfolding receive_proposal_at
    proposal-IsBacked proposal no_stage b g = start_proposal-IsBacked proposal b
    proposal-IsBacked proposal awaiting_threshold b g = start_proposal-IsBacked proposal b
    proposal-IsBacked proposal (proposing_credits d) (_, signs, brought) g =
        >>=-Holds Proposals BackedOutcome (add_proposal_sigs scheme d proposal.rewards)
          (λ d'. after_proposal scheme net s d' (pending signed_credit_id d'))
          (add_sigs-Agreed scheme agree_proposal (λ c. c.id) GivenFirst proposal.rewards d brought
            g)
          λ d' g'. after_proposal-IsBacked d' (pending signed_credit_id d') signs g'
    proposal-IsBacked proposal (accumulating_credits acc) b g = g
    proposal-IsBacked proposal (completed proofs) b g = g

    from_pending :
        (pk_set : PublicKeySet) (proofs : BTreeMap CreditAgreementProof)
        → All (λ e. Backed scheme agree_accumulation signed_credit_id GivenThen pk_set e.1) proofs
        → All (λ e. Proven e.1) proofs
    from_pending pk_set [] g = tt
    from_pending pk_set (p ∷ proofs) (b, g) = ((pk_set, b), from_pending pk_set proofs g)

    after_accumulation-IsBacked :
        (d : RewardAccumulationDetails) (o : Option (BTreeMap CreditAgreementProof))
        → pending proof_id d ≡ o
        → Accumulations d
        → Holds BackedOutcome (after_accumulation scheme d o)
    unfolding after_accumulation
    after_accumulation-IsBacked d none e g = g
    after_accumulation-IsBacked d (some proofs) e g =
        from_pending d.pk_set proofs (
          pending-Backed scheme agree_accumulation signed_credit_id GivenThen proof_id d proofs g e)

    accumulation-IsBacked :
        (new_acc : RewardAccumulation) (stage : RewardStage)
        → Given (accumulated net new_acc)
        → IsBacked stage
        → Holds BackedOutcome (receive_accumulation_at scheme net s new_acc stage)
    unfolding receive_accumulation_at
    accumulation-IsBacked new_acc no_stage b g = tt
    accumulation-IsBacked new_acc awaiting_threshold b g = start_accumulation-IsBacked new_acc b
    accumulation-IsBacked new_acc (proposing_credits d) b g = start_accumulation-IsBacked new_acc b
    accumulation-IsBacked new_acc (accumulating_credits acc) (_, brought) g =
        >>=-Holds Accumulations BackedOutcome (add_accumulation_sigs scheme acc new_acc.rewards)
          (λ acc'. after_accumulation scheme acc' (pending proof_id acc'))
          (add_sigs-Agreed scheme agree_accumulation signed_credit_id GivenThen new_acc.rewards acc
            brought g)
          λ acc' g'. after_accumulation-IsBacked acc' (pending proof_id acc') refl g'
    accumulation-IsBacked new_acc (completed proofs) b g = g

  store-IsBacked :
      (p : RewardProcess) (o : Result (RewardStage × NodeDuty))
      → IsBacked p.stage
      → Holds (λ x. IsBacked x.0) o
      → IsBacked (store scheme p o).1.stage
  unfolding store
  store-IsBacked p (ok (stage, duty)) g h = h
  store-IsBacked p (err e) g h = g

  receive-IsBacked :
      (r : Received) (p : RewardProcess)
      → (key_of GivenFirst GivenThen r ≡ p.our_section.our_key → Given r)
      → IsBacked p.stage
      → IsBacked (receive scheme r p).1.stage
  unfolding receive receive_churn_proposal receive_wallet_accumulation
  receive-IsBacked (proposed net proposal) p given g =
      elim (Bool-cases (proposal.section_key == p.our_section.our_key)) [
        | inl e ↦
            let b = given ((==_iff proposal.section_key p.our_section.our_key).0 e) in
            rw e (store-IsBacked p _ g (proposal-IsBacked net p.our_section proposal p.stage b g))
        | inr e ↦ rw e g
      ]
  receive-IsBacked (accumulated net acc) p given g =
      elim (Bool-cases (acc.section_key == p.our_section.our_key)) [
        | inl e ↦
            let b = given ((==_iff acc.section_key p.our_section.our_key).0 e) in
            rw e (store-IsBacked p _ g (accumulation-IsBacked net p.our_section acc p.stage b g))
        | inr e ↦ rw e g
      ]

  store-our_section :
      (p : RewardProcess) (o : Result (RewardStage × NodeDuty))
      → (store scheme p o).1.our_section ≡ p.our_section
  unfolding store
  store-our_section p (ok (stage, duty)) = refl
  store-our_section p (err e) = refl

  receive-our_section :
      (r : Received) (p : RewardProcess) → (receive scheme r p).1.our_section ≡ p.our_section
  unfolding receive receive_churn_proposal receive_wallet_accumulation
  receive-our_section (proposed net proposal) p =
      elim (Bool-cases (proposal.section_key == p.our_section.our_key)) [
        | inl e ↦ rw e (store-our_section p _)
        | inr e ↦ rw e refl
      ]
  receive-our_section (accumulated net acc) p =
      elim (Bool-cases (acc.section_key == p.our_section.our_key)) [
        | inl e ↦ rw e (store-our_section p _)
        | inr e ↦ rw e refl
      ]

  received-IsBacked :
      (p : RewardProcess) (rs : List Received) (our_key : PublicKey)
      → p.our_section.our_key ≡ our_key
      → All (λ r. key_of GivenFirst GivenThen r ≡ our_key → Given r) rs
      → IsBacked p.stage
      → IsBacked (receive_all scheme p rs).stage
  unfolding receive_all
  received-IsBacked p [] our_key own b g = g
  received-IsBacked p (r ∷ rs) our_key own (b, bs) g =
      received-IsBacked (receive scheme r p).1 rs our_key
        (ap (λ s. s.our_key) (receive-our_section r p) ∙ own) bs
        (receive-IsBacked r p (λ e. b (e ∙ own)) g)

-- Whatever messages a new process receives, in whatever order and from whomever: each agreement on
-- a credit, pending or in a completed payout, is about that credit and made with a signature that
-- more shares than the threshold of its key set combine to. Each of these shares has an index of its
-- own, and came in a message of our section under the id of the credit, or is what we sign a credit
-- with that id by: a share for the proposed credit where the credit is proposed, and one for the
-- agreed credit where the credit is accumulated.
pub receive_all-IsBacked :
    (scheme : Bls) (s : OurSection) (rs : List Received)
    → IsBacked scheme
        (Proposed s.our_key rs)
        (Accumulated s.our_key rs)
        (receive_all scheme (new s) rs).stage
unfolding new
receive_all-IsBacked scheme s rs =
    let first = Proposed s.our_key rs in
    let then_given = Accumulated s.our_key rs in
    received-IsBacked scheme first then_given (new s) rs s.our_key refl
      (messages_known first then_given s.our_key rs (λ id sig h. h) (λ id sig h. h)) tt
