-- ===== src/Chunks/Tests.antt =====
-- Runs of src/chunks/mod.rs, and the theorem about it at concrete commands.
use sn_node.Prelude.{◌≡◌, refl, List, [], ◌∷◌, arith, false, some}
use sn_node.Errors.{ok}
use sn_node.ChunkStore.Refinement.{Sees, contents}
use sn_node.NodeOps.{BlobWrite}
use sn_node.Chunks.{Chunks}
use sn_node.Chunks.ChunkStorage.{blobs, owned_by}
use sn_node.Chunks.ChunkStorage.Samples.{format, format-IsCodec, works, storage, secret, stranger}
use sn_node.Chunks.ChunkStorage.Keeping.{IsBlobFormat}
use sn_node.Chunks.Keeping.{Command, run, private_blob_kept}

abbrev chunks : Chunks
chunks = record { chunk_storage = storage }

-- A stranger deletes the blob and stores another in its place, and a blob is replicated there.
abbrev commands : List Command
commands =
    Command.writes works works (BlobWrite.delete_private 100) 4 stranger
    ∷ Command.writes works works (BlobWrite.new (record { address = 100; content = 8 })) 5 stranger
    ∷ Command.replicates works works (record { address = 100; content = 9 })
    ∷ []

format-IsBlobFormat : IsBlobFormat format
format-IsBlobFormat = record { codec = format-IsCodec; named = λ i j ne e. ne (ground arith) }

works-Sees : Sees works works
works-Sees = record { there = refl; found = refl; reads = refl }

secret_not_owned : owned_by format stranger (some 7) ≡ false
unfolding owned_by
secret_not_owned = refl

secret_held : contents (blobs format) chunks.chunk_storage.chunks 100 ≡ ok secret
unfolding contents
secret_held = refl

private_blob_kept_example :
    contents (blobs format) (run format commands chunks).chunk_storage.chunks 100 ≡ ok secret
private_blob_kept_example =
    private_blob_kept format secret commands chunks format-IsBlobFormat refl
      ((works-Sees, secret_not_owned), ((works-Sees, secret_not_owned), (works-Sees, tt)))
      secret_held
