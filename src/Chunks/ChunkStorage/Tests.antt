-- ===== src/Chunks/ChunkStorage/Tests.antt =====
-- Runs of src/chunks/chunk_storage.rs, and the theorems about it at a concrete store.
use sn_node.Prelude.{◌≡◌, refl, true, false, some}
use sn_node.Errors.{ErrorMessage, ok}
use sn_node.UsedSpace.{increase, commit, write_local_to_file}
use sn_node.ChunkStore
use sn_node.ChunkStore.{Bytes, Disk, FileWrite, FileRead, ChunkStore}
use sn_node.NodeOps.{Blob, cmd_error, get_blob}
use sn_node.Chunks.ChunkStorage.{blobs, owned_by, try_store, store, get, delete, to_user}
use sn_node.Chunks.ChunkStorage.Samples.{format, format-IsCodec, works, storage, secret, stranger}
use sn_node.Chunks.ChunkStorage.Owners.{stranger_refused, get-try_store}

secret_not_owned : owned_by format stranger (some 7) ≡ false
unfolding owned_by
secret_not_owned = refl

secret_there : ChunkStore.has (blobs format) works storage.chunks 100 ≡ true
unfolding ChunkStore.has
secret_there = refl

secret_read : ChunkStore.get (blobs format) works storage.chunks 100 ≡ ok secret
unfolding ChunkStore.get ChunkStore.file_path
secret_read = refl

stranger_refused_example :
    let refusal = to_user format (cmd_error (ErrorMessage.invalid_owners 8) 5 5) stranger in
    (store format works works secret 5 stranger storage ≡ (ok refusal, storage))
    × (delete format works works 100 5 stranger storage ≡ (ok refusal, storage))
stranger_refused_example =
    stranger_refused format works works secret 5 stranger storage refl secret_not_owned secret_there
      secret_read

-- A public blob may be stored by anyone.
abbrev public_blob : Blob
public_blob = record { address = 6; content = 3 }

public-ok : (try_store format works works public_blob stranger storage.chunks).0 ≡ ok tt
unfolding try_store ChunkStore.has ChunkStore.put ChunkStore.file_path ChunkStore.put_bytes
    ChunkStore.do_delete ChunkStore.reserve_and_write ChunkStore.write_or_undo increase commit
    write_local_to_file
public-ok = refl

get-try_store_example :
    get format works 6 9 stranger (store format works works public_blob 5 stranger storage).1
    ≡ ok (to_user format (get_blob public_blob 9 9) stranger)
get-try_store_example =
    get-try_store format works works works public_blob 5 9 stranger stranger storage format-IsCodec
      refl public-ok
