-- ===== src/Errors.antt =====
-- src/error.rs: the node's errors, and how they become the errors that clients see.
-- Texts that an error carries are left out, since no decision reads them. The errors of other
-- crates appear as far as the node tells them apart; `other` is any further variant of theirs.
pub mod Mapping
use sn_node.Prelude.{ℕ, XorName, PublicKey, MessageId, ◌≡◌, refl, ◌⊎◌, inl, inr, Option, none, some}

-- `sn_data_types::Error`.
pub data DtError : Type 0 where
  invalid_operation policy_not_set no_such_entry crdt_unexpected_state : DtError
  op_not_causally_ready : DtError
  access_denied : PublicKey → DtError
  other : ℕ → DtError

-- `sn_transfers::Error`.
pub data TransfersError : Type 0 where
  section_key_never_existed invalid_owner : TransfersError
  other : ℕ → TransfersError

-- `sn_messaging::client::Error`.
pub data ErrorMessage : Type 0 where
  invalid_operation policy_not_set no_such_entry crdt_unexpected_state : ErrorMessage
  op_not_causally_ready invalid_signature transaction_id_exists no_such_data : ErrorMessage
  not_enough_space balance_exists failed_to_write_file data_exists : ErrorMessage
  failed_to_delete no_such_key no_such_recipient insufficient_balance payment_failed : ErrorMessage
  access_denied invalid_owners no_history_for_public_key : PublicKey → ErrorMessage

pub data Error : Type 0 where
  balance_exists not_enough_space no_section_public_key : Error
  unknown_section_key : PublicKey → Error
  provided_pk_is_not_bls_share provided_pk_is_not_bls no_section_public_key_set : Error
  no_section_public_key_known : XorName → Error
  invalid_reward_stage node_not_found_for_reward no_such_chunk no_chunks no_metadata : Error
  no_transfers no_section_funds not_churning_funds temp_dir_creation_failed no_store_id : Error
  could_not_combine_signatures data_exists io json_serialisation bincode : Error
  client_message : ErrorMessage → Error
  message pickle_db : Error
  network_data : DtError → Error
  transfer : TransfersError → Error
  routing onboarding transfer_already_registered : Error
  invalid_signed_transfer : PublicKey → Error
  -- Carries the id of the credit whose proof was refused.
  invalid_propagated_transfer : ℕ → Error
  invalid_message : MessageId → Error
  invalid_owners : PublicKey → Error
  invalid_operation no_error_mapping logic configuration : Error

pub data Result {ℓ} (A : Type ℓ) : Type ℓ where
  ok : A → Result A
  err : Error → Result A

-- Rust's `?`.
infixl 5 ◌>>=◌ ◌>>◌
abbrev pub ◌>>=◌ {ℓ κ} : {A : Type ℓ} {B : Type κ} → Result A → (A → Result B) → Result B
ok a >>= f = f a
err e >>= f = err e

abbrev pub ◌>>◌ {ℓ κ} : {A : Type ℓ} {B : Type κ} → Result A → Result B → Result B
m >> k = m >>= λ _. k

pub Result-cases {ℓ} :
    {A : Type ℓ} (r : Result A) → ((a : A) × (r ≡ ok a)) ⊎ ((e : Error) × (r ≡ err e))
Result-cases (ok a) = inl (a, refl)
Result-cases (err e) = inr (e, refl)

-- What holds of a value, if there is one.
abbrev pub Holds {ℓ κ} : {A : Type ℓ} → (A → Type κ) → Result A → Type κ
Holds P (ok a) = P a
Holds P (err e) = Unit

module _ {ℓ κ ι} {A : Type ℓ} {B : Type κ} (P : A → Type ι) (Q : B → Type ι) where
  pub >>=-Holds :
      (m : Result A) (f : A → Result B)
      → Holds P m
      → ((a : A) → P a → Holds Q (f a))
      → Holds Q (m >>= f)
  >>=-Holds (ok a) f h k = k a h
  >>=-Holds (err e) f h k = tt

-- `Option::ok_or`.
abbrev pub ok_or {ℓ} : {A : Type ℓ} → Option A → Error → Result A
ok_or none e = err e
ok_or (some a) e = ok a

unfoldable pub convert_dt_error_to_error_message : DtError → Result ErrorMessage
convert_dt_error_to_error_message DtError.invalid_operation = ok ErrorMessage.invalid_operation
convert_dt_error_to_error_message DtError.policy_not_set = ok ErrorMessage.policy_not_set
convert_dt_error_to_error_message DtError.no_such_entry = ok ErrorMessage.no_such_entry
convert_dt_error_to_error_message DtError.crdt_unexpected_state =
    ok ErrorMessage.crdt_unexpected_state
convert_dt_error_to_error_message DtError.op_not_causally_ready =
    ok ErrorMessage.op_not_causally_ready
convert_dt_error_to_error_message (DtError.access_denied pk) = ok (ErrorMessage.access_denied pk)
convert_dt_error_to_error_message _ = err no_error_mapping

unfoldable pub convert_to_error_message : Error → Result ErrorMessage
unfolding convert_dt_error_to_error_message
convert_to_error_message Error.invalid_operation = ok ErrorMessage.invalid_operation
convert_to_error_message (Error.invalid_owners key) = ok (ErrorMessage.invalid_owners key)
convert_to_error_message (invalid_signed_transfer _) = ok invalid_signature
convert_to_error_message transfer_already_registered = ok transaction_id_exists
convert_to_error_message no_such_chunk = ok no_such_data
convert_to_error_message Error.not_enough_space = ok ErrorMessage.not_enough_space
convert_to_error_message Error.balance_exists = ok ErrorMessage.balance_exists
convert_to_error_message temp_dir_creation_failed = ok failed_to_write_file
convert_to_error_message Error.data_exists = ok ErrorMessage.data_exists
convert_to_error_message (network_data e) = convert_dt_error_to_error_message e
convert_to_error_message _ = err no_error_mapping
