-- ===== src/Errors/Mapping.antt =====
-- What clients learn from the errors of src/error.rs.
mod Tests
use sn_node.Prelude.{◌≡◌, ◌⊎◌, PublicKey, arith}
use sn_node.Errors.{
  DtError, Error, ErrorMessage, ok, err, no_error_mapping, network_data, convert_to_error_message,
}

-- The key that a message to a client holds is that of the error, under the same kind: a message is
-- the refusal of an access by a key if and only if the error is that refusal, and it names a key as
-- an invalid owner if and only if the error does.
pub convert_keeps_keys :
    (e : Error) (k : PublicKey)
    → ((convert_to_error_message e ≡ ok (ErrorMessage.access_denied k)
          → e ≡ network_data (DtError.access_denied k))
        × (e ≡ network_data (DtError.access_denied k)
            → convert_to_error_message e ≡ ok (ErrorMessage.access_denied k)))
      × ((convert_to_error_message e ≡ ok (ErrorMessage.invalid_owners k)
            → e ≡ Error.invalid_owners k)
          × (e ≡ Error.invalid_owners k
              → convert_to_error_message e ≡ ok (ErrorMessage.invalid_owners k)))
unfolding convert_to_error_message
convert_keeps_keys e k = (
  ((λ h. ground arith), (λ h. ground (arith, h))),
  ((λ h. ground arith), (λ h. ground (arith, h))),
)
