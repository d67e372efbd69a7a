-- ===== src/Metadata/SequenceStorage/Samples.antt =====
-- A concrete form of sequences, for runs of src/metadata/sequence_storage.rs.
use sn_node.Prelude.{
  ◌+◌, ◌*◌, ◌/◌, ◌%◌, true, Option, none, some, [], ◌∷◌, ltb, ◌==◌, if◌then◌else◌, PublicKey,
}
use sn_node.Errors.{DtError}
use sn_node.UsedSpace.{IoEvent}
use sn_node.ChunkStore.{Bytes, Disk, FileWrite, FileRead}
use sn_node.DataTypes.{NdResult, Sequence, SequencePolicy}
use sn_node.NodeOps.{EndUser}
use sn_node.Metadata.SequenceStorage.{SequenceFormat}

-- Of the number of a sequence the last two digits are its entries and the one before is its owner.
-- Addresses from 5 are private.
abbrev pub for_owner : Sequence → Option PublicKey → NdResult (Unit {0})
for_owner n none = NdResult.err DtError.policy_not_set
for_owner n (some key) =
    if n / 100 % 10 == key then NdResult.ok tt else NdResult.err (DtError.access_denied key)

abbrev pub policy : Sequence → NdResult SequencePolicy
policy n = NdResult.ok (record { owner = n / 100 % 10; permissions = 0 })

abbrev pub read_one : Bytes → Option Sequence
read_one (n ∷ []) = some n
read_one _ = none

abbrev pub format : SequenceFormat
format = record {
  serialise = λ n. some (n ∷ []);
  deserialise = read_one;
  file_name = some;
  to_chunk_id = some;
  address = λ n. n / 1000;
  is_public_address = λ i. ltb i 5;
  is_public = λ n. ltb (n / 1000) 5;
  check_permission = λ n action key. for_owner n key;
  private_policy = λ n key. policy n;
  public_policy = policy;
  in_range = λ n start end key. NdResult.ok none;
  last_entry = λ n key. NdResult.ok none;
  len = λ n key. NdResult.ok 0;
  permissions = λ n user key. NdResult.ok 0;
  apply_op = λ n op. NdResult.ok (n / 100 * 100 + op.operation % 100);
  in_response_to = λ id. id;
  name = λ origin. origin.id;
}

abbrev pub works : Disk
works = record {
  metadata_ok = true;
  release = IoEvent.success;
  removed = true;
  reserve = IoEvent.success;
  write = FileWrite.written;
  rollback = IoEvent.success;
  read = FileRead.reads;
}

abbrev pub client : EndUser
client = record { id = 7; connection = 1 }

abbrev pub stranger : EndUser
stranger = record { id = 8; connection = 1 }
