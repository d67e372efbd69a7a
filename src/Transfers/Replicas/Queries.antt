-- ===== src/Transfers/Replicas/Queries.antt =====
-- The queries of src/transfers/replicas.rs, and the state that is handed over when sections change.
-- Each query opens the stores anew, which may write an empty database.
use sn_node.Prelude.{
  ◌+◌, ◌%◌, Bool, true, false, ◌&&◌, not, List, [], ◌∷◌, ◌++◌, ◌==◌, if◌then◌else◌, u64_mod,
  PublicKey, Token, map,
}
use sn_node.Prelude.BTreeMap.{BTreeMap, insert, remove}
use sn_node.Errors
use sn_node.Errors.{Error, Result, ok, err, invalid_operation}
use sn_node.Action.{Action, pure, fail, ◌>>=◌, ◌>>◌}
use sn_node.SectionFunds.RewardStage.{PublicKeySet, CreditAgreementProof, proof_id}
use sn_node.Transfers.Events.{
  TransferAgreementProof, recipient_of, ReplicaEvent, transfer_validation_proposed,
  transfer_validated, transfer_registered, transfer_propagated, ActorHistory,
}
use sn_node.Transfers.Store
use sn_node.Transfers.Store.{TransferStore}
use sn_node.Transfers.Replicas.{
  Db, ReplicaInfo, Replicas, Io, Wallets, load_key_lock, open_store, load_wallet, file_event,
}

abbrev pub empty_history : ActorHistory
empty_history = record { credits = []; debits = [] }

-- `filter_map` on the events that credit the wallet, and on those that debit it.
unfoldable pub credits_in : List ReplicaEvent → List CreditAgreementProof
credits_in [] = []
credits_in (transfer_propagated proof ∷ events) = proof ∷ credits_in events
credits_in (transfer_validation_proposed e ∷ events) = credits_in events
credits_in (transfer_validated e ∷ events) = credits_in events
credits_in (transfer_registered e ∷ events) = credits_in events

unfoldable pub debits_in : List ReplicaEvent → List TransferAgreementProof
debits_in [] = []
debits_in (transfer_registered proof ∷ events) = proof ∷ debits_in events
debits_in (transfer_validation_proposed e ∷ events) = debits_in events
debits_in (transfer_validated e ∷ events) = debits_in events
debits_in (transfer_propagated e ∷ events) = debits_in events

unfoldable pub is_seen : {A : Type 0} → (A → A → Bool) → A → List A → Bool
is_seen same a [] = false
is_seen same a (b ∷ seen) = if same b a then true else is_seen same a seen

-- `unique_by`: of the items with one key, the first.
unfoldable pub unique_by : {A : Type 0} → (A → A → Bool) → List A → List A → List A
unfolding is_seen
unique_by same seen [] = []
unique_by same seen (a ∷ items) = elim (is_seen same a seen) [
  | true ↦ unique_by same seen items
  | false ↦ a ∷ unique_by same (a ∷ seen) items
]

abbrev pub same_credit : CreditAgreementProof → CreditAgreementProof → Bool
same_credit a b = proof_id a == proof_id b

abbrev pub same_debit : TransferAgreementProof → TransferAgreementProof → Bool
same_debit a b = (a.id.actor == b.id.actor) && (a.id.counter == b.id.counter)

unfoldable pub get_credits : List ReplicaEvent → List CreditAgreementProof
unfolding credits_in unique_by
get_credits events = unique_by same_credit [] (credits_in events)

-- `sort_by_key`, which is stable, on the counters.
unfoldable pub sort_debits : List TransferAgreementProof → List TransferAgreementProof
sort_debits debits = Store.events_of (Store.sort_by_key (map (λ t. (t.id.counter, t)) debits))

unfoldable pub get_debits : List ReplicaEvent → List TransferAgreementProof
unfolding debits_in unique_by sort_debits
get_debits events = sort_debits (unique_by same_debit [] (debits_in events))

unfoldable pub history_of : List ReplicaEvent → ActorHistory
unfolding get_credits get_debits
history_of [] = empty_history
history_of (e ∷ events) = record {
  credits = get_credits (e ∷ events);
  debits = get_debits (e ∷ events);
}

pub replicas_pk_set : Replicas → PublicKeySet
replicas_pk_set r = r.info.peer_replicas

pub update_replica_info : ReplicaInfo → Replicas → Replicas
update_replica_info info r = record r { info = info }

-- `merge` makes the future of `setup` and drops it, so that nothing of it runs.
pub merge : BTreeMap ActorHistory → Replicas → Replicas
merge user_wallets r = r

unfoldable pub all_owned : {A : Type 0} → PublicKey → (A → PublicKey) → List A → Bool
all_owned node key [] = true
all_owned node key (a ∷ items) = (node == key a) && all_owned node key items

unfoldable pub valid_owners : PublicKey → ActorHistory → Bool
unfolding all_owned
valid_owners node wallet =
    all_owned node recipient_of wallet.credits && all_owned node (λ t. t.sender) wallet.debits

-- The events that a history is filed as, credits first.
unfoldable pub events_of_history : ActorHistory → List ReplicaEvent
events_of_history wallet =
    map transfer_propagated wallet.credits ++ map transfer_registered wallet.debits

module _ (w : Wallets) where
  -- An error that says that there is no such file is an empty history.
  unfoldable pub history_read :
      Io → Bool → Result (TransferStore ReplicaEvent) → Result ActorHistory
  unfolding history_of
  history_read io no_such_file (ok store) =
      ok (history_of (Store.get_all (io.listed store.db) store))
  history_read io no_such_file (err e) = if no_such_file then ok empty_history else err e

  unfoldable pub history : Io → Bool → PublicKey → Action Replicas ActorHistory
  history io no_such_file id r =
      let (opened, r') = open_store w io.first id r in (history_read io no_such_file opened, r')

  balance_read : Io → PublicKey → Result (TransferStore ReplicaEvent) → ReplicaInfo → Result Token
  balance_read io id (err _) info = ok 0
  balance_read io id (ok store) info =
      Errors.◌>>=◌ (load_wallet w io id store info) λ wallet. ok (w.balance wallet)

  unfoldable pub balance : Io → PublicKey → Action Replicas Token
  unfolding open_store balance_read load_wallet
  balance io id r =
      let (opened, r') = open_store w io.first id r in (balance_read io id opened r'.info, r')

  -- The sum over the wallets, on a u64.
  sum_balances :
      (PublicKey → Io)
      → List (PublicKey × TransferStore ReplicaEvent)
      → Token
      → Action Replicas Token
  unfolding balance
  sum_balances io [] amount = pure amount
  sum_balances io ((id, _) ∷ locks) amount = do
    b ← balance (io id) id
    sum_balances io locks ((amount + b) % u64_mod)

  pub managed_amount : (PublicKey → Io) → Action Replicas Token
  unfolding sum_balances
  managed_amount io r = sum_balances io r.locks 0 r

  add_history : PublicKey → Result ActorHistory → BTreeMap ActorHistory → BTreeMap ActorHistory
  add_history id (ok history) wallets = insert id history wallets
  add_history id (err _) wallets = wallets

  histories :
      (PublicKey → Io × Bool)
      → List (PublicKey × TransferStore ReplicaEvent)
      → BTreeMap ActorHistory
      → Replicas
      → BTreeMap ActorHistory × Replicas
  unfolding history add_history
  histories io [] wallets r = (wallets, r)
  histories io ((id, _) ∷ locks) wallets r =
      let (h, r') = history (io id).0 (io id).1 id r in
      histories io locks (add_history id h wallets) r'

  pub user_wallets : (PublicKey → Io × Bool) → Replicas → BTreeMap ActorHistory × Replicas
  unfolding histories
  user_wallets io r = histories io r.locks [] r

  -- A store that cannot be opened is passed over.
  opened_events : Io → Result (TransferStore ReplicaEvent) → List ReplicaEvent
  opened_events io (ok store) = Store.get_all (io.listed store.db) store
  opened_events io (err _) = []

  events_from :
      (PublicKey → Io)
      → List (PublicKey × TransferStore ReplicaEvent)
      → List ReplicaEvent
      → Replicas
      → List ReplicaEvent × Replicas
  unfolding open_store opened_events
  events_from io [] events r = (events, r)
  events_from io ((id, _) ∷ locks) events r =
      let (opened, r') = open_store w (io id).first id r in
      events_from io locks (events ++ opened_events (io id) opened) r'

  pub all_events : (PublicKey → Io) → Replicas → Result (List ReplicaEvent) × Replicas
  unfolding events_from
  all_events io r = let (events, r') = events_from io r.locks [] r in (ok events, r')

  unfoldable pub file_all : (ReplicaEvent → Io) → List ReplicaEvent → Action Replicas (Unit {0})
  unfolding file_event
  file_all io [] = pure tt
  file_all io (e ∷ events) = do file_event w (io e) e; file_all io events

  unfoldable pub setup :
      (ReplicaEvent → Io) → List (PublicKey × ActorHistory) → Action Replicas (Unit {0})
  unfolding valid_owners file_all events_of_history
  setup io [] = pure tt
  setup io ((node, wallet) ∷ user_wallets) =
      if valid_owners node wallet
      then (do file_all io (events_of_history wallet); setup io user_wallets)
      else fail invalid_operation

  unfoldable pub new :
      (ReplicaEvent → Io)
      → ReplicaInfo
      → BTreeMap Db
      → List (PublicKey × ActorHistory)
      → Result (Unit {0}) × Replicas
  unfolding setup
  new io info files user_wallets =
      setup io user_wallets (record { info = info; locks = []; files = files })

  drop_lock : PublicKey → Action Replicas (Unit {0})
  drop_lock key r = (ok tt, record r { locks = remove key r.locks })

  keep_keys :
      (PublicKey → Bool)
      → List (PublicKey × TransferStore ReplicaEvent)
      → Action Replicas (Unit {0})
  unfolding load_key_lock drop_lock
  keep_keys matches [] = pure tt
  keep_keys matches ((key, _) ∷ locks) =
      if not (matches key)
      then (do load_key_lock key; drop_lock key; keep_keys matches locks)
      else keep_keys matches locks

  -- The databases of the wallets that are let go stay on disk.
  pub keep_keys_of : (PublicKey → Bool) → Action Replicas (Unit {0})
  unfolding keep_keys
  keep_keys_of matches r = keep_keys matches r.locks r
