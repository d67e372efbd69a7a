-- ===== src/Transfers/Replicas/Samples.antt =====
-- Concrete wallets, proofs and states of src/transfers/replicas.rs, and what its commands make of them.

use sn_node.Prelude.{◌≡◌, refl, true, Option, none, some, List, [], ◌∷◌, if◌then◌else◌}
use sn_node.Errors.{ok}
use sn_node.SectionFunds.RewardStage.{CreditAgreementProof, Signature}
use sn_node.Transfers.Events.{TrResult, TransferAgreementProof}
use sn_node.Transfers.Store
use sn_node.Transfers.Store.Sorting.{keys_of}
use sn_node.Transfers.Replicas.{
  receive_propagated, register, receive_locked, known_key, in_chain, load_key_lock, load_wallet,
  registered, store_and_apply, insert_event, save, saved, lock_of, or_create, fresh_file,
  lock_store, propagated, Opening, Io, ReplicaInfo, Replicas, Wallets, open_store,
}
use sn_node.Transfers.Replicas.Queries.{credits_in, is_seen, same_credit}

abbrev pub receive : List CreditAgreementProof → CreditAgreementProof → TrResult (Option (Unit {0}))
receive known proof =
    if is_seen same_credit proof known then TrResult.ok none else TrResult.ok (some tt)

-- A wallet that knows its credits and lets every debit pass.
abbrev pub wallets : Wallets
wallets = record {
  Wallet = List CreditAgreementProof;
  from_history = λ id info es. TrResult.ok (credits_in es);
  validate = λ wallet debit credit. TrResult.ok tt;
  register = λ wallet proof. TrResult.ok (some proof);
  receive_propagated = receive;
  apply = λ wallet e. TrResult.ok wallet;
  balance = λ wallet. 0;
  name_of = λ id. id;
  sign_debit = λ debit. ok (record { index = 0; share = 0 });
  sign_credit = λ credit. ok (record { index = 0; share = 0 });
}

abbrev pub opens : Opening
opens = record { loads = true; dir_created = ok tt; dumped = true; reloads = true }

abbrev pub io : Io
io = record { first = opens; second = opens; written = true; listed = keys_of }

abbrev pub credit : CreditAgreementProof
credit = record {
  signed_credit = record {
    credit = record { id = 31; amount = 5; recipient = 7; msg = 0 };
    actor_signature = Signature.bls 0;
  };
  debiting_replicas_sig = Signature.bls 0;
  debiting_replicas_keys = 2;
}

abbrev pub debit : TransferAgreementProof
debit = record {
  id = record { actor = 7; counter = 0 };
  sender = 7;
  recipient = 9;
  amount = 2;
  replicas_key = 2;
  credit_proof = credit;
  content = 0;
}

abbrev pub info : ReplicaInfo
info = record { id = 0; key_index = 0; peer_replicas = 2; section_chain = 1 ∷ 2 ∷ [] }

abbrev pub nothing : Replicas
nothing = record { info = info; locks = []; files = [] }

abbrev pub payment : TransferAgreementProof
payment = record debit {
  credit_proof = record credit {
    signed_credit = record credit.signed_credit {
      credit = record { id = 32; amount = 2; recipient = 9; msg = 0 };
    };
  };
}

-- After the credit of the payer, the registration of its payment, and the propagation of that.
abbrev pub funded : Replicas
funded = (receive_propagated wallets io credit nothing).1

abbrev pub charged : Replicas
charged = (register wallets io payment funded).1

abbrev pub credited : Replicas
credited = (receive_propagated wallets io payment.credit_proof charged).1

pub charge : (register wallets io payment funded).0 ≡ ok payment
unfolding register receive_propagated receive_locked known_key in_chain load_key_lock load_wallet
    registered store_and_apply insert_event save saved lock_of or_create open_store fresh_file
    lock_store propagated Store.new Store.new_auto_dump_db is_seen credits_in Store.get_all keys_of
    Store.try_insert
charge = refl

pub credits :
    (receive_propagated wallets io payment.credit_proof charged).0 ≡ ok payment.credit_proof
unfolding register receive_propagated receive_locked known_key in_chain load_key_lock load_wallet
    registered store_and_apply insert_event save saved lock_of or_create open_store fresh_file
    lock_store propagated Store.new Store.new_auto_dump_db is_seen credits_in Store.get_all keys_of
    Store.try_insert
credits = refl
