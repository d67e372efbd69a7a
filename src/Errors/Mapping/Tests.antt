-- ===== src/Errors/Mapping/Tests.antt =====
-- The conversion of errors (src/error.rs) at concrete errors.
use sn_node.Prelude.{◌≡◌, refl}
use sn_node.Errors.{DtError, Error, ErrorMessage, ok, network_data, convert_to_error_message}
use sn_node.Errors.Mapping.{convert_keeps_keys}

abbrev denied : Error
denied = network_data (DtError.access_denied 4)

convert-denied : convert_to_error_message denied ≡ ok (ErrorMessage.access_denied 4)
unfolding convert_to_error_message
convert-denied = refl

convert_keeps_keys_example :
    ((convert_to_error_message denied ≡ ok (ErrorMessage.access_denied 4)
        → denied ≡ network_data (DtError.access_denied 4))
      × (denied ≡ network_data (DtError.access_denied 4)
          → convert_to_error_message denied ≡ ok (ErrorMessage.access_denied 4)))
    × ((convert_to_error_message denied ≡ ok (ErrorMessage.invalid_owners 4)
          → denied ≡ Error.invalid_owners 4)
        × (denied ≡ Error.invalid_owners 4
            → convert_to_error_message denied ≡ ok (ErrorMessage.invalid_owners 4)))
convert_keeps_keys_example = convert_keeps_keys denied 4
