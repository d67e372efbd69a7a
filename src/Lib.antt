-- ===== src/Lib.antt =====
-- Verification of sn_node, the node of the Safe Network.
--
-- A node stores chunks of data within the disk space it was given, and the elders of a section
-- agree on the payout of rewards when the section churns. What is modelled:
--
--   Prelude        tests on numbers, lists, `BTreeMap` as a list sorted by key, identifiers
--   Errors         src/error.rs: the error type, `?`, and the conversion to client messages
--   Action         state passing with errors: a failing call keeps the state it has reached
--   UsedSpace      src/chunk_store/used_space.rs: the space used by all stores and by each of them,
--                  in memory and in the file of each store
--   ChunkStore     src/chunk_store/mod.rs: chunks as files of a directory, which reserve their space
--                  in a UsedSpace that they share with other stores
--   Capacity       src/capacity: the nodes that are full, and what the store cost is computed of
--   DataTypes      the maps and sequences of sn_data_types, as far as the handlers look at them
--   NodeOps        src/node_ops.rs: the duties that the components below return
--   SectionFunds   src/section_funds: RewardCalc is reward_calc.rs (what is minted, who gets what),
--                  RewardStage is reward_stage.rs (shares of signatures and agreements on credits),
--                  RewardProcess is reward_process.rs with elder_signing.rs (the handlers),
--                  RewardWallets is reward_wallets.rs, Funds is mod.rs (payments and wallets)
--   Metadata       src/metadata: BlobRegister is blob_register.rs, the tables of which adult holds
--                  which chunk and who owns it, with Handlers for the messages of clients;
--                  MapStorage is map_storage.rs and SequenceStorage is sequence_storage.rs, the
--                  writes over a chunk store, each with its Queries, and with a Refinement that says
--                  what a write is to make of what is read under its address; ElderStores is mod.rs
--                  with elder_stores.rs, reading.rs and writing.rs, the three of them together, where
--                  maps and sequences count their space in one UsedSpace
--   Chunks         src/chunks: mod.rs with reading.rs and writing.rs; ChunkStorage is
--                  chunk_storage.rs, the handlers of an adult over the chunk store, where
--                  `BlobFormat` says how blobs are serialised and owned
--   Transfers      src/transfers: Store is store.rs, the events of a wallet, Events its kinds of
--                  event, Replicas is replicas.rs (the wallets of a section, with their stores in
--                  memory and their files), Handlers is mod.rs (payments and requests of clients)
--
-- Each function has the name it has in the code. An async method under a lock is one step. What the
-- disk, the network and the threshold signatures do is an argument of the calls: `IoEvent`,
-- `FoundFile` and `Disk` say which system call fails, `Network` what the routing library answers,
-- `Bls` how shares combine, `Codec` how chunks are serialised and named, `Env` which adults are close
-- to a name, and `Writes` which writes of a database succeed. `MapFormat` and `SequenceFormat` stand
-- for the maps and sequences of sn_data_types, and `Wallets` for the wallets of sn_transfers; what the
-- theorems rely on in them are the records `IsMapFormat`, `IsSequenceFormat` and `IsWallets`. `Io` and
-- `Opening` say what happens to the file of a wallet, and the `Env` of the transfer handlers says what
-- the rate limit charges and where a reply goes. `Rates` is the float arithmetic of that charge.
--
-- A u64 is a natural number; sums, products and powers wrap (`% u64_mod`) where the code does not
-- check, as in a release build, where a build with overflow checks would panic. The section's
-- number of prefix bits is below 64, as the code divides by its power of two.
--
-- The one loop whose end is not evident is the `while` of `distribute`. It takes fuel, `none` means
-- that it ran out, and one round for each nano of the amount is enough as long as no weight wraps.
--
-- Not modelled: the formula of the store cost, the dispatch of messages to duties, what is built
-- only with the feature simulated-payouts, and everything that only talks to the network, the
-- command line or the log.
-- Texts that errors carry are left out. What is decided on floats, the store cost and whether the
-- used space is above a ratio, is a parameter.
pub mod Prelude
pub mod Errors
pub mod Action
pub mod UsedSpace
pub mod ChunkStore
pub mod Capacity
pub mod DataTypes
pub mod NodeOps
pub mod SectionFunds
pub mod Metadata
pub mod Chunks
pub mod Transfers
