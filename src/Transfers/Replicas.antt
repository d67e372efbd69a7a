-- ===== src/Transfers/Replicas.antt =====
-- src/transfers/replicas.rs: the wallets of a section, each with the store of its events, and the
-- commands of transfers. What `sn_transfers::WalletReplica` decides is a parameter.
-- `locks` holds the stores that are in memory, and `files` the databases on disk, under the names of
-- the wallets. A command holds the lock of its wallet, so it is one step.
pub mod Queries
pub mod Log
pub mod Stores
pub mod Filing
pub mod Histories
pub mod Owners
pub mod Handover
pub mod Soundness
pub mod Faults
pub mod Commands
pub mod Samples
mod Tests
use sn_node.Prelude.{
  ℕ, Bool, true, false, Option, none, some, List, [], ◌∷◌, ◌==◌, if◌then◌else◌, XorName, PublicKey,
  Token,
}
use sn_node.Prelude.BTreeMap.{BTreeMap, lookup, insert, remove}
use sn_node.Errors.{
  Error, TransfersError, Result, ok, err, ok_or, logic, transfer_already_registered, transfer,
  invalid_propagated_transfer,
}
use sn_node.Errors
use sn_node.Action.{Action, pure, fail, lift, gets, ◌>>=◌, ◌>>◌}
use sn_node.SectionFunds.RewardStage.{
  PublicKeySet, SignatureShare, SignedCredit, CreditAgreementProof, proof_id,
}
use sn_node.Transfers.Events.{
  TrResult, from_tr, SignedDebit, SignedTransfer, TransferValidated, TransferAgreementProof,
  recipient_of, ReplicaEvent, transfer_validation_proposed, transfer_validated, transfer_registered,
  transfer_propagated, ActorHistory,
}
use sn_node.Transfers.Store
use sn_node.Transfers.Store.{TransferStore}

abbrev pub Db : Type 0
Db = BTreeMap ReplicaEvent

pub record ReplicaInfo : Type 0 where
  pub id : ℕ
  pub key_index : ℕ
  pub peer_replicas : PublicKeySet
  pub section_chain : List PublicKey

pub record Replicas : Type 0 where
  pub info : ReplicaInfo
  pub locks : BTreeMap (TransferStore ReplicaEvent)
  pub files : BTreeMap Db

-- What a call of `TransferStore::new` meets on disk.
pub record Opening : Type 0 where
  pub loads : Bool
  pub dir_created : Result (Unit {0})
  pub dumped : Bool
  pub reloads : Bool

-- What a command meets: the first opening of a store and a second one, the write of an event, and
-- the order in which a database lists its keys.
pub record Io : Type 0 where
  pub first : Opening
  pub second : Opening
  pub written : Bool
  pub listed : Db → List ℕ

-- `WalletReplica`, the names of keys, and the signatures of this elder.
pub record Wallets : Type 1 where
  pub Wallet : Type 0
  pub from_history : PublicKey → ReplicaInfo → List ReplicaEvent → TrResult Wallet
  pub validate : Wallet → SignedDebit → SignedCredit → TrResult (Unit {0})
  pub register : Wallet → TransferAgreementProof → TrResult (Option TransferAgreementProof)
  pub receive_propagated : Wallet → CreditAgreementProof → TrResult (Option (Unit {0}))
  pub apply : Wallet → ReplicaEvent → TrResult Wallet
  pub balance : Wallet → Token
  pub name_of : PublicKey → XorName
  pub sign_debit : SignedDebit → Result SignatureShare
  pub sign_credit : SignedCredit → Result SignatureShare

-- The wallet that an event is stored with.
unfoldable pub owner_of : ReplicaEvent → PublicKey
owner_of (transfer_validation_proposed e) = e.debit.sender
owner_of (transfer_validated e) = e.signed_debit.sender
owner_of (transfer_registered e) = e.sender
owner_of (transfer_propagated e) = recipient_of e

-- `exists_in_chain`.
pub in_chain : PublicKey → List PublicKey → Bool
in_chain key [] = false
in_chain key (k ∷ keys) = if k == key then true else in_chain key keys

load_key_lock : PublicKey → Action Replicas (TransferStore ReplicaEvent)
load_key_lock id r = (ok_or (lookup id r.locks) logic, r)

-- The database that is written where none could be loaded.
fresh_file : Opening → XorName → Option Db → Result (Unit {0}) → BTreeMap Db → BTreeMap Db
fresh_file o name none (ok _) files = if o.dumped then insert name [] files else files
fresh_file o name loaded created files = files

-- The write of an event to the store of a wallet: memory and disk change, or neither.
saved :
    XorName
    → PublicKey
    → Result (Unit {0}) × TransferStore ReplicaEvent
    → Action Replicas (Unit {0})
saved name id (ok _, store) r =
    (ok tt, record r { locks = insert id store r.locks; files = insert name store.db r.files })
saved name id (err e, store) r = (err e, r)

save :
    Bool
    → XorName
    → PublicKey
    → ReplicaEvent
    → Option (TransferStore ReplicaEvent)
    → Action Replicas (Unit {0})
unfolding saved
save written name id e none r = (err logic, r)
save written name id e (some store) r = saved name id (Store.try_insert written e store) r

module _ (w : Wallets) where
  open w use {name_of}

  pub open_store : Opening → PublicKey → Action Replicas (TransferStore ReplicaEvent)
  unfolding fresh_file
  open_store o id r =
      let name = name_of id in
      let loaded = if o.loads then lookup name r.files else none in
      let reloaded : Option Db = if o.reloads then some [] else none in
      (
        Store.new name (Store.new_auto_dump_db loaded o.dir_created o.dumped reloaded),
        record r { files = fresh_file o name loaded o.dir_created r.files },
      )

  lock_store : PublicKey → TransferStore ReplicaEvent → Action Replicas (TransferStore ReplicaEvent)
  lock_store id store r = (ok store, record r { locks = insert id store r.locks })

  -- The store that is in memory, or else the one that is opened.
  or_create :
      Action Replicas (TransferStore ReplicaEvent)
      → PublicKey
      → Result (TransferStore ReplicaEvent)
      → Action Replicas (TransferStore ReplicaEvent)
  unfolding lock_store
  or_create opened id (ok store) = pure store
  or_create opened id (err _) = do store ← opened; lock_store id store

  or_reopen :
      Opening
      → PublicKey
      → Result (TransferStore ReplicaEvent)
      → Action Replicas (TransferStore ReplicaEvent)
  unfolding open_store
  or_reopen o id (ok store) = pure store
  or_reopen o id (err _) = open_store o id

  open_twice : Io → PublicKey → Action Replicas (TransferStore ReplicaEvent)
  unfolding open_store or_reopen
  open_twice io id r =
      let (opened, r') = open_store io.first id r in or_reopen io.second id opened r'

  pub get_load_or_create_store : Io → PublicKey → Action Replicas (TransferStore ReplicaEvent)
  unfolding or_create open_twice load_key_lock
  get_load_or_create_store io id r = or_create (open_twice io id) id (load_key_lock id r).0 r

  pub load_wallet : Io → PublicKey → TransferStore ReplicaEvent → ReplicaInfo → Result w.Wallet
  load_wallet io id store info =
      from_tr (w.from_history id info (Store.get_all (io.listed store.db) store))

  -- `store.try_insert(event)` under the lock of the wallet.
  pub insert_event : Io → PublicKey → ReplicaEvent → Action Replicas (Unit {0})
  unfolding save
  insert_event io id e r = save io.written (name_of id) id e (lookup id r.locks) r

  pub file_event : Io → ReplicaEvent → Action Replicas (Unit {0})
  unfolding get_load_or_create_store insert_event owner_of
  file_event io e = do get_load_or_create_store io (owner_of e); insert_event io (owner_of e) e

  unfoldable pub initiate : List (Io × ReplicaEvent) → Action Replicas (Unit {0})
  unfolding file_event
  initiate [] = pure tt
  initiate ((io, e) ∷ events) = do file_event io e; initiate events

  -- An event is stored first and then applied to the wallet in memory, which is dropped.
  pub store_and_apply : Io → PublicKey → w.Wallet → ReplicaEvent → Action Replicas (Unit {0})
  unfolding insert_event
  store_and_apply io id wallet event = do
    insert_event io id event
    lift (from_tr (w.apply wallet event))
    pure tt

  -- `ReplicaSigningImpl::sign_transfer`.
  pub sign_transfer : SignedTransfer → Result (SignatureShare × SignatureShare)
  sign_transfer signed_transfer = Errors.◌>>=◌ (w.sign_debit signed_transfer.debit) λ debit_sig.
      Errors.◌>>=◌ (w.sign_credit signed_transfer.credit) λ credit_sig. ok (debit_sig, credit_sig)

  pub validated : SignedTransfer → SignatureShare × SignatureShare → ReplicaInfo → TransferValidated
  validated signed_transfer (debit_sig, credit_sig) info = record {
    signed_credit = signed_transfer.credit;
    signed_debit = signed_transfer.debit;
    replica_debit_sig = debit_sig;
    replica_credit_sig = credit_sig;
    replicas = info.peer_replicas;
  }

  unfoldable pub validate : Io → SignedTransfer → Action Replicas TransferValidated
  unfolding load_key_lock load_wallet sign_transfer validated store_and_apply
  validate io signed_transfer = do
    store ← load_key_lock signed_transfer.debit.sender
    info ← gets (λ r. r.info)
    wallet ← lift (load_wallet io signed_transfer.debit.sender store info)
    lift (from_tr (w.validate wallet signed_transfer.debit signed_transfer.credit))
    sigs ← lift (sign_transfer signed_transfer)
    store_and_apply io signed_transfer.debit.sender wallet
        (transfer_validated (validated signed_transfer sigs info))
    pure (validated signed_transfer sigs info)

  pub registered :
      Io
      → PublicKey
      → w.Wallet
      → Option TransferAgreementProof
      → Action Replicas TransferAgreementProof
  unfolding store_and_apply
  registered io id wallet none = fail transfer_already_registered
  registered io id wallet (some event) = do
    store_and_apply io id wallet (transfer_registered event)
    pure event

  pub known_key : TransferAgreementProof → Action Replicas (Unit {0})
  unfolding in_chain
  known_key proof r = (
    if in_chain proof.replicas_key r.info.section_chain
        then ok tt
        else err (transfer TransfersError.section_key_never_existed),
    r,
  )

  unfoldable pub register : Io → TransferAgreementProof → Action Replicas TransferAgreementProof
  unfolding known_key load_key_lock load_wallet registered
  register io proof = do
    known_key proof
    store ← load_key_lock proof.sender
    info ← gets (λ r. r.info)
    wallet ← lift (load_wallet io proof.sender store info)
    event ← lift (from_tr (w.register wallet proof))
    registered io proof.sender wallet event

  -- By what the wallet made of the credit. It is stored only if the wallet did not know of it.
  pub propagated :
      Io
      → CreditAgreementProof
      → w.Wallet
      → TrResult (Option (Unit {0}))
      → Action Replicas CreditAgreementProof
  unfolding store_and_apply
  propagated io proof wallet (TrResult.err _) = fail (invalid_propagated_transfer (proof_id proof))
  propagated io proof wallet (TrResult.ok none) = pure proof
  propagated io proof wallet (TrResult.ok (some _)) = do
    store_and_apply io (recipient_of proof) wallet (transfer_propagated proof)
    pure proof

  pub lock_of : Io → PublicKey → Action Replicas (TransferStore ReplicaEvent)
  unfolding or_create open_store load_key_lock
  lock_of io id r = or_create (open_store io.first id) id (load_key_lock id r).0 r

  -- What follows under the lock.
  unfoldable pub receive_locked :
      Io → CreditAgreementProof → TransferStore ReplicaEvent → Action Replicas CreditAgreementProof
  unfolding load_wallet propagated
  receive_locked io proof store = do
    info ← gets (λ r. r.info)
    wallet ← lift (load_wallet io (recipient_of proof) store info)
    propagated io proof wallet (w.receive_propagated wallet proof)

  unfoldable pub receive_propagated :
      Io → CreditAgreementProof → Action Replicas CreditAgreementProof
  unfolding lock_of receive_locked
  receive_propagated io proof = do
    store ← lock_of io (recipient_of proof)
    receive_locked io proof store
