-- ===== src/SectionFunds/Funds.antt =====
-- src/section_funds/mod.rs: the funds of the section between two churns and during one. Both keep
-- the wallets of the nodes and the payments that were made to the section.
pub mod Payments
mod Tests
use sn_node.Prelude.{
  ℕ, ◌+◌, ◌%◌, Option, none, some, u64_mod, sum_by, XorName, PublicKey, NodeAge, Token,
}
use sn_node.Prelude.BTreeMap.{BTreeMap, insert}
use sn_node.SectionFunds.RewardCalc.{Nodes}
use sn_node.SectionFunds.RewardStage.{CreditAgreementProof, proof_id}
use sn_node.SectionFunds.RewardProcess.{RewardProcess}
use sn_node.SectionFunds.RewardWallets
use sn_node.SectionFunds.RewardWallets.{RewardWallets}

abbrev pub Payments : Type 0
Payments = BTreeMap CreditAgreementProof

pub data SectionFunds : Type 0 where
  keeping_node_wallets : RewardWallets → Payments → SectionFunds
  churning : RewardProcess → RewardWallets → Payments → SectionFunds

abbrev pub wallets_of : SectionFunds → RewardWallets
wallets_of (keeping_node_wallets wallets payments) = wallets
wallets_of (churning process wallets payments) = wallets

abbrev pub payments_of : SectionFunds → Payments
payments_of (keeping_node_wallets wallets payments) = payments
payments_of (churning process wallets payments) = payments

-- What a method through the shared references leaves of the funds.
with_wallets : (RewardWallets → RewardWallets) → SectionFunds → SectionFunds
with_wallets f (keeping_node_wallets wallets payments) = keeping_node_wallets (f wallets) payments
with_wallets f (churning process wallets payments) = churning process (f wallets) payments

unfoldable pub add_payment : CreditAgreementProof → SectionFunds → SectionFunds
add_payment credit (keeping_node_wallets wallets payments) =
    keeping_node_wallets wallets (insert (proof_id credit) credit payments)
add_payment credit (churning process wallets payments) =
    churning process wallets (insert (proof_id credit) credit payments)

abbrev wallet_key : Option (NodeAge × PublicKey) → Option PublicKey
wallet_key none = none
wallet_key (some (_, key)) = some key

unfoldable pub get_node_wallet : XorName → SectionFunds → Option PublicKey
get_node_wallet node_name funds = wallet_key (RewardWallets.get node_name (wallets_of funds))

unfoldable pub node_wallets : SectionFunds → Nodes
node_wallets funds = RewardWallets.node_wallets (wallets_of funds)

unfoldable pub set_node_wallet : XorName → PublicKey → NodeAge → SectionFunds → SectionFunds
unfolding with_wallets
set_node_wallet node_id wallet age = with_wallets (RewardWallets.set_node_wallet node_id age wallet)

unfoldable pub remove_node_wallet : XorName → SectionFunds → SectionFunds
unfolding with_wallets
remove_node_wallet node_name = with_wallets (RewardWallets.remove_wallet node_name)

-- `Credits::sum`, of payments and of rewards.
abbrev pub amount_of : ℕ × CreditAgreementProof → Token
amount_of e = e.1.signed_credit.credit.amount

unfoldable pub sum : Payments → Token
sum payments = sum_by amount_of payments % u64_mod
