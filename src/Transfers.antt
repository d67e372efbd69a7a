-- ===== src/Transfers.antt =====
-- src/transfers: the wallets of a section, and the requests for transfers.
pub mod Events
pub mod Store
pub mod Replicas
pub mod Handlers
