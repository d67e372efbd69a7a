-- ===== src/Metadata.antt =====
-- src/metadata: what elders know about the data of clients.
pub mod Replies
pub mod MapStorage
pub mod SequenceStorage
pub mod BlobRegister
pub mod ElderStores
