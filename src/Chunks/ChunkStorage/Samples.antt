-- ===== src/Chunks/ChunkStorage/Samples.antt =====
-- A concrete form of blobs and a store with one of them, for runs of src/chunks.
use sn_node.Prelude.{◌≡◌, true, Option, some, none, [], ◌∷◌, arith, ltb, ==_refl}
use sn_node.UsedSpace.{IoEvent, FileRecord}
use sn_node.ChunkStore.{Bytes, Disk, FileWrite, FileRead}
use sn_node.ChunkStore.Contents.{IsCodec}
use sn_node.NodeOps.{Blob, EndUser}
use sn_node.Chunks.ChunkStorage.{BlobFormat, blobs, ChunkStorage}

abbrev pub write_blob : Blob → Option Bytes
write_blob blob = some (blob.address ∷ blob.content ∷ [])

abbrev pub read_blob : Bytes → Option Blob
read_blob (a ∷ c ∷ []) = some (record { address = a; content = c })
read_blob _ = none

-- Addresses above 99 are private, and the content is the key of the owner.
abbrev pub format : BlobFormat
format = record {
  serialise = write_blob;
  deserialise = read_blob;
  file_name = some;
  to_chunk_id = some;
  is_private = λ blob. ltb 99 blob.address;
  owner = λ blob. some blob.content;
  in_response_to = λ id. id;
}

format-decodes :
    (blob : Blob) (bytes : Bytes) → write_blob blob ≡ some bytes → read_blob bytes ≡ some blob
format-decodes blob [] e = cc
format-decodes blob (a ∷ []) e = cc
format-decodes blob (a ∷ c ∷ []) e = ground arith
format-decodes blob (a ∷ c ∷ b ∷ bs) e = cc

pub format-IsCodec : IsCodec (blobs format)
format-IsCodec = record { decodes = format-decodes; id_refl = ==_refl }

abbrev pub works : Disk
works = record {
  metadata_ok = true;
  release = IoEvent.success;
  removed = true;
  reserve = IoEvent.success;
  write = FileWrite.written;
  rollback = IoEvent.success;
  read = FileRead.reads;
}

-- The blob 100 of the client with key 7.
abbrev pub storage : ChunkStorage
storage = record {
  node_name = 1;
  chunks = record {
    id = 0;
    files = (100, 100 ∷ 7 ∷ []) ∷ [];
    used_space = record {
      max_capacity = 10;
      total_value = 2;
      local_stores = (0, record { local_value = 2; local_record = FileRecord.value 2 }) ∷ [];
      next_id = 1;
    };
  };
}

abbrev pub secret : Blob
secret = record { address = 100; content = 7 }

abbrev pub stranger : EndUser
stranger = record { id = 8; connection = 1 }
