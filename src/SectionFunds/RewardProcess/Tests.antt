-- ===== src/SectionFunds/RewardProcess/Tests.antt =====
-- A payout from its first message to its end (src/section_funds/reward_process.rs).
use sn_node.Prelude.{ℕ, ◌+◌, ◌≤◌, ◌≡◌, refl, Option, none, some, List, [], ◌∷◌}
use sn_node.Prelude.BTreeMap.{BTreeMap}
use sn_node.Errors.{err, transfer, TransfersError}
use sn_node.SectionFunds.RewardStage.{
  Bls, Share, Credit, SignedCredit, RewardProposal, RewardAccumulation, Signature, add_sig_to,
  collect, check, add_share, pending, get_shares,
}
use sn_node.SectionFunds.RewardProcess.{
  OurSection, Network, new, receive_churn_proposal, receive_wallet_accumulation,
  receive_proposal_at, receive_accumulation_at, start_proposal, after_proposal, start_accumulation,
  after_accumulation, store, propose, accumulate, sign_rewards, add_ours, add_sigs, add_sig, sign,
  our_index, public_key_set,
}
use sn_node.SectionFunds.RewardProcess.Stages.{
  rank, Received, receive, receive_all, receive_all-rank,
}
use sn_node.SectionFunds.RewardProcess.Backing.{IsBacked, receive_all-IsBacked}
use sn_node.SectionFunds.RewardProcess.Given.{Proposed, Accumulated}

abbrev combine_two : BTreeMap Share → Option ℕ
combine_two ((_, a) ∷ (_, b) ∷ rest) = some (a + b)
combine_two _ = none

abbrev two_of : Bls
two_of = record { threshold = λ _. 1; combine_signatures = λ _. combine_two }

abbrev our_section : OurSection
our_section = record { prefix_name = 1; bit_count = 2; our_key = 50 }

-- We are elder 0.
abbrev net : Network
net = record {
  network_index = some 0;
  our_public_key_set = some 9;
  sign_credit = λ c. some (record { index = 0; share = c.amount });
  sign_signed_credit = λ c. some (record { index = 0; share = c.credit.amount });
  combine = λ name key. name + key;
  reward_msg = λ age key. age;
  new_message_id = 77;
}

abbrev credit : Credit
credit = record { id = 8; amount = 100; recipient = 30; msg = 6 }

-- Elder 3 has given its share.
abbrev proposal : RewardProposal
proposal = record { section_key = 50; rewards = (credit, record { index = 3; share = 11 }) ∷ [] }

abbrev signed : SignedCredit
signed = record { credit = credit; actor_signature = Signature.bls 111 }

abbrev accumulation : RewardAccumulation
accumulation = record {
  section_key = 50;
  rewards = (signed, record { index = 3; share = 12 }) ∷ [];
}

abbrev messages : List Received
messages =
    Received.proposed net proposal
    ∷ Received.proposed net proposal
    ∷ Received.accumulated net accumulation
    ∷ []

-- To the end of the payout, and one message more.
messages-rank : rank (receive_all two_of (new our_section) messages).stage ≡ 3
unfolding receive_all receive receive_churn_proposal receive_wallet_accumulation new
    receive_proposal_at receive_accumulation_at start_proposal after_proposal start_accumulation
    after_accumulation store propose accumulate sign_rewards add_ours add_sigs add_sig sign
    our_index public_key_set add_sig_to collect check add_share pending get_shares
messages-rank = refl

abbrev foreign : RewardProposal
foreign = record proposal { section_key = 51 }

receive-foreign :
    (receive two_of (Received.proposed net foreign) (new our_section)).0
    ≡ err (transfer TransfersError.invalid_owner)
unfolding receive receive_churn_proposal new
receive-foreign = refl

receive_all-rank_example :
    rank (new our_section).stage ≤ rank (receive_all two_of (new our_section) messages).stage
receive_all-rank_example = receive_all-rank two_of (new our_section) messages

receive_all-IsBacked_example :
    IsBacked two_of
      (Proposed 50 messages)
      (Accumulated 50 messages)
      (receive_all two_of (new our_section) messages).stage
receive_all-IsBacked_example = receive_all-IsBacked two_of our_section messages
