-- ===== src/SectionFunds.antt =====
-- src/section_funds/: payments, the wallets of nodes, and the payout of rewards at churn.
pub mod RewardCalc
pub mod RewardStage
pub mod RewardProcess
pub mod RewardWallets
pub mod Funds
