-- ===== src/Chunks/Keeping.antt =====
-- Private blobs under the commands that an adult handles (src/chunks/mod.rs).
use sn_node.Prelude.{◌≡◌, true, false, List, [], ◌∷◌, All, MessageId}
use sn_node.Errors.{ok}
use sn_node.ChunkStore.{Disk}
use sn_node.ChunkStore.Refinement.{Sees, contents}
use sn_node.NodeOps.{Blob, EndUser, BlobWrite}
use sn_node.Chunks.{Chunks, handled, write, store_replicated_chunk}
use sn_node.Chunks.ChunkStorage.{BlobFormat, blobs, owned_by}
use sn_node.Chunks.ChunkStorage.Keeping.{
  IsBlobFormat, store-Holds, store_for_replication-Holds, delete-Holds,
}

-- A command that changes the chunks, with what the disk does.
pub data Command : Type 0 where
  writes : Disk → Disk → BlobWrite → MessageId → EndUser → Command
  replicates : Disk → Disk → Blob → Command

module _ (f : BlobFormat) where
  step : Command → Chunks → Chunks
  step (Command.writes seen d w msg_id origin) chunks = (write f seen d w msg_id origin chunks).1
  step (Command.replicates seen d other) chunks = (store_replicated_chunk f seen d other chunks).1

  unfoldable pub run : List Command → Chunks → Chunks
  unfolding step
  run [] chunks = chunks
  run (c ∷ cs) chunks = run cs (step c chunks)

  -- A command by someone that does not own the blob, on a disk where what is there can be seen.
  abbrev pub FromOthers : Blob → Command → Type 0
  FromOthers blob (Command.writes seen d w msg_id origin) =
      Sees seen d × (owned_by f origin (f.owner blob) ≡ false)
  FromOthers blob (Command.replicates seen d other) = Sees seen d

  step-Holds :
      (blob : Blob) (c : Command) (chunks : Chunks)
      → IsBlobFormat f
      → f.is_private blob ≡ true
      → FromOthers blob c
      → contents (blobs f) chunks.chunk_storage.chunks blob.address ≡ ok blob
      → contents (blobs f) (step c chunks).chunk_storage.chunks blob.address ≡ ok blob
  unfolding step write store_replicated_chunk handled
  step-Holds blob (Command.writes seen d (BlobWrite.new other) id origin) chunks laws p o h =
      store-Holds f laws blob seen d other id origin chunks.chunk_storage o.0 h
  step-Holds blob (Command.writes seen d (BlobWrite.delete_private i) id origin) chunks laws p o h =
      delete-Holds f laws blob seen d i id origin chunks.chunk_storage o.0 p o.1 h
  step-Holds blob (Command.replicates seen d other) chunks laws p o h =
      store_for_replication-Holds f laws blob seen d other chunks.chunk_storage o h

  -- A private blob that an adult holds stays under its address, unchanged, whatever clients that do
  -- not own it send and whatever is replicated to the adult, as long as the disk shows what is there.
  pub private_blob_kept :
      (blob : Blob) (cs : List Command) (chunks : Chunks)
      → IsBlobFormat f
      → f.is_private blob ≡ true
      → All (FromOthers blob) cs
      → contents (blobs f) chunks.chunk_storage.chunks blob.address ≡ ok blob
      → contents (blobs f) (run cs chunks).chunk_storage.chunks blob.address ≡ ok blob
  unfolding run
  private_blob_kept blob [] chunks laws p o h = h
  private_blob_kept blob (c ∷ cs) chunks laws p o h =
      private_blob_kept blob cs (step c chunks) laws p o.1 (step-Holds blob c chunks laws p o.0 h)
