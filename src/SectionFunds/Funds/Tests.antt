-- ===== src/SectionFunds/Funds/Tests.antt =====
-- Runs of src/section_funds/mod.rs and reward_wallets.rs, and the theorems about them at concrete
-- funds.
use sn_node.Prelude.{ℕ, ◌+◌, ◌%◌, ◌≡◌, refl, none, [], ◌∷◌, u64_mod}
use sn_node.SectionFunds.RewardStage.{CreditAgreementProof, Signature}
use sn_node.SectionFunds.RewardWallets
use sn_node.SectionFunds.Funds.{SectionFunds, payments_of, add_payment, node_wallets, sum}
use sn_node.SectionFunds.Funds.Payments.{add_payment_once}

-- A payment of `amount` under the id `id`.
abbrev payment : ℕ → ℕ → CreditAgreementProof
payment id amount = record {
  signed_credit = record {
    credit = record { id = id; amount = amount; recipient = 30; msg = 0 };
    actor_signature = Signature.bls 1;
  };
  debiting_replicas_sig = Signature.bls 2;
  debiting_replicas_keys = 3;
}

abbrev funds : SectionFunds
funds =
    SectionFunds.keeping_node_wallets (record { node_rewards = (1, (6, 11)) ∷ (2, (7, 12)) ∷ [] })
      ((5, payment 5 100) ∷ [])

-- A payment that arrives twice counts once.
sum-funds : sum (payments_of (add_payment (payment 9 20) (add_payment (payment 9 20) funds))) ≡ 120
unfolding sum add_payment
sum-funds = refl

wallets-remove :
    RewardWallets.get 2 (
      RewardWallets.remove_wallets
        ((2, tt) ∷ (3, tt) ∷ [])
        (RewardWallets.new ((1, (6, 11)) ∷ (2, (7, 12)) ∷ [])))
    ≡ none
unfolding RewardWallets.get RewardWallets.remove_wallets RewardWallets.new
wallets-remove = refl

add_payment_once_example :
    let funds' = add_payment (payment 9 20) funds in
    (sum (payments_of funds') ≡ (sum (payments_of funds) + 20) % u64_mod)
    × (add_payment (payment 9 20) funds' ≡ funds')
add_payment_once_example = add_payment_once (payment 9 20) funds refl

nodes-funds : node_wallets funds ≡ (1, (6, 11)) ∷ (2, (7, 12)) ∷ []
unfolding node_wallets RewardWallets.node_wallets
nodes-funds = refl
