-- ===== src/Transfers/Handlers/Tests.antt =====
-- Runs of src/transfers/mod.rs, and the theorems about it at concrete payments.
use sn_node.Prelude.{◌≡◌, refl, false, some, ◌+◌, XorName}
use sn_node.Action.{◌>>=◌, ◌>>◌}
use sn_node.Errors.{ok}
use sn_node.Transfers.Replicas.Samples.{wallets, io, payment, funded, credited, charge, credits}
use sn_node.NodeOps.{EndUser, DataCmd, BlobWrite, DstLocation, NodeDuties}
use sn_node.Transfers.Handlers.{
  taken, pay, settled, log_balance, Env, PaymentIo, data_cmd, process_payment, register_payment,
  section_wallet_id,
}
use sn_node.Transfers.Handlers.Payment.{Settles, forwards_only_paid}

abbrev address : DataCmd → XorName
address cmd = 40

abbrev env : Env
env = record {
  to_dst = λ origin. DstLocation.section origin;
  all_clients = λ key. DstLocation.section key;
  section_of = λ key. key;
  in_response_to = λ id. 100 + id;
  new_id = 50;
  dst_address = address;
  serialised_len = λ cmd. some 3;
  store_cost = λ bytes. 2;
  more_nodes_required = false;
  public_key = λ set. 9;
  logs_info = false;
}

abbrev payment_io : PaymentIo
payment_io = record { registering = io; propagating = io; logging = io }

abbrev client : EndUser
client = record { id = 7; connection = 1 }

abbrev cmd : DataCmd
cmd = DataCmd.blob (BlobWrite.new (record { address = 40; content = 1 }))

abbrev duties : NodeDuties
duties = taken env wallets payment cmd 3 60 client payment.credit_proof

paid :
    (register_payment env wallets payment_io payment funded) ≡ (ok payment.credit_proof, credited)
unfolding register_payment
paid = rw (◌>>=◌, ◌>>◌, charge, credits) refl

processed :
    process_payment env wallets payment_io (data_cmd payment cmd) 60 client funded
    ≡ (ok duties, credited)
unfolding process_payment pay settled log_balance section_wallet_id
processed = rw (◌>>=◌, paid) refl

forwards_only_paid_example : Settles env wallets payment_io payment cmd 60 client funded duties
forwards_only_paid_example =
    forwards_only_paid env wallets payment_io payment cmd 60 client funded duties credited processed
