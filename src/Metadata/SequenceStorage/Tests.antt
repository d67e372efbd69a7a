-- ===== src/Metadata/SequenceStorage/Tests.antt =====
-- Runs of src/metadata/sequence_storage.rs, and the theorems about it at concrete states.
use sn_node.Prelude.{◌≡◌, ◌≢◌, refl, some, [], ◌∷◌, arith, ==_refl}
use sn_node.Errors.{
  DtError, Error, ErrorMessage, Result, ok, err, network_data, convert_to_error_message,
}
use sn_node.UsedSpace.{FileRecord}
use sn_node.ChunkStore
use sn_node.ChunkStore.{Bytes, Disk, FileWrite, FileRead}
use sn_node.ChunkStore.Refinement.{Sees, contents}
use sn_node.DataTypes.{Sequence, SequenceAddress}
use sn_node.NodeOps.{
  SequenceRead, SequenceWrite, no_op, query_response, DstLocation, failure, get_sequence_owner,
}
use sn_node.Metadata.SequenceStorage.Samples.{read_one, format, works, client, stranger}
use sn_node.Metadata.Replies
use sn_node.Metadata.SequenceStorage.{sequences, SequenceStorage, ok_or_error, write}
use sn_node.Metadata.SequenceStorage.Queries.{read}
use sn_node.Metadata.SequenceStorage.Refinement.{
  IsSequenceFormat, target, wanted, sequence_write_refines,
}
use sn_node.Metadata.SequenceStorage.Access.{queried, failed, sequence_reader_denied}

format-decodes :
    (n : Sequence) (bytes : Bytes) → some (n ∷ []) ≡ some bytes → read_one bytes ≡ some n
format-decodes n [] e = ground arith
format-decodes n (m ∷ []) e = ground arith
format-decodes n (m ∷ k ∷ bytes) e = ground arith

format-IsSequenceFormat : IsSequenceFormat format
format-IsSequenceFormat = record {
  codec = record { decodes = format-decodes; id_refl = ==_refl };
  named = λ i j ne e. ne (ground arith);
  op_keeps = λ n new op e. ground arith;
}

-- The public sequence 4 and the private sequence 6 of the client with key 7.
abbrev storage : SequenceStorage
storage = record {
  chunks = record {
    id = 0;
    files = (4, 4711 ∷ []) ∷ (6, 6711 ∷ []) ∷ [];
    used_space = record {
      max_capacity = 10;
      total_value = 2;
      local_stores = (0, record { local_value = 2; local_record = FileRecord.value 2 }) ∷ [];
      next_id = 1;
    };
  };
}

works-Sees : Sees works works
works-Sees = record { there = refl; found = refl; reads = refl }

abbrev append : SequenceWrite
append = SequenceWrite.edit (record { address = 6; operation = 22 })

sequence_write_refines_example :
    let want =
      wanted format append 7 4
        (contents (sequences format) storage.chunks (target format append)) in
    let p = write format works works append 4 client storage in
    (p.0 ≡ ok no_op
      → (r : Result Sequence) × (want ≡ ok r)
        × (contents (sequences format) p.1.chunks (target format append) ≡ r))
    × ((e : Error) → want ≡ err e → p ≡ (ok_or_error format (err e) 4 client, storage))
    × ((j : SequenceAddress)
        → target format append ≢ j
        → contents (sequences format) p.1.chunks j ≡ contents (sequences format) storage.chunks j)
sequence_write_refines_example =
    sequence_write_refines format works works append 4 client storage format-IsSequenceFormat
      works-Sees

append-wanted :
    wanted format append 7 4 (contents (sequences format) storage.chunks (target format append))
    ≡ ok (ok 6722)
unfolding wanted contents target
append-wanted = refl

private_read : ChunkStore.get (sequences format) works storage.chunks 6 ≡ ok 6711
unfolding ChunkStore.get ChunkStore.file_path
private_read = refl

public_read : ChunkStore.get (sequences format) works storage.chunks 4 ≡ ok 4711
unfolding ChunkStore.get ChunkStore.file_path
public_read = refl

refusal_mapped :
    convert_to_error_message (network_data (DtError.access_denied 8))
    ≡ ok (ErrorMessage.access_denied 8)
unfolding convert_to_error_message
refusal_mapped = refl

sequence_reader_denied_example :
    read format works (SequenceRead.get_owner 6) 4 stranger storage
    ≡ ok (
        Replies.send_to
          (DstLocation.end_user stranger)
          (query_response (get_sequence_owner (failure (ErrorMessage.access_denied 8))) 4 4))
unfolding failed queried
sequence_reader_denied_example =
    sequence_reader_denied format works 6711 storage stranger (DtError.access_denied 8)
      (ErrorMessage.access_denied 8) refl refusal_mapped (SequenceRead.get_owner 6) 4 private_read
