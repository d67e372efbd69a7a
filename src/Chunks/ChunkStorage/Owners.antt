-- ===== src/Chunks/ChunkStorage/Owners.antt =====
-- Owners of private chunks and the handlers of src/chunks/chunk_storage.rs.
use sn_node.Prelude.{◌≡◌, refl, inl, inr, true, false, Bool-cases, MessageId}
use sn_node.Errors.{ErrorMessage, Result, ok, err, convert_to_error_message}
use sn_node.ChunkStore
use sn_node.ChunkStore.{Disk, ChunkStore, FileRead}
use sn_node.ChunkStore.Contents.{IsCodec, get-put}
use sn_node.NodeOps.{Blob, EndUser, get_blob, cmd_error}
use sn_node.Chunks.ChunkStorage.{
  BlobFormat, blobs, ChunkStorage, owned_by, check_owner, store_checked, put_new, try_store,
  stored_reply, store, get, read_reply, store_for_replication, delete, delete_read, to_user,
}

module _ (f : BlobFormat) where
  -- A private blob of another owner: a client that stores it, and one that deletes what is stored
  -- under its address, is answered with its own key as an invalid owner, and nothing changes.
  pub stranger_refused :
      (seen d : Disk) (blob : Blob) (msg_id : MessageId) (origin : EndUser) (st : ChunkStorage)
      → f.is_private blob ≡ true
      → owned_by f origin (f.owner blob) ≡ false
      → ChunkStore.has (blobs f) seen st.chunks blob.address ≡ true
      → ChunkStore.get (blobs f) d st.chunks blob.address ≡ ok blob
      → let refusal =
          to_user f
            (cmd_error (ErrorMessage.invalid_owners origin.id) (f.in_response_to msg_id) msg_id)
            origin in
        (store f seen d blob msg_id origin st ≡ (ok refusal, st))
        × (delete f seen d blob.address msg_id origin st ≡ (ok refusal, st))
  unfolding store try_store stored_reply delete check_owner convert_to_error_message
  stranger_refused seen d blob msg_id origin st private other there read =
      (rw (private, other, store_checked) refl, rw (read, delete_read, private, other, there) refl)

  -- A chunk that is there is not overwritten, by a client or by replication.
  pub store_keeps :
      (seen d : Disk) (blob : Blob) (msg_id : MessageId) (origin : EndUser) (st : ChunkStorage)
      → ChunkStore.has (blobs f) seen st.chunks blob.address ≡ true
      → ((store f seen d blob msg_id origin st).1 ≡ st)
        × ((store_for_replication f seen d blob st).1 ≡ st)
  unfolding store try_store store_for_replication store_checked put_new
  store_keeps seen d blob msg_id origin st there = (kept (check_owner f blob origin), rw there refl)
    where
      kept :
          (r : Result (Unit {0}))
          → record st { chunks = (store_checked f seen d blob r st.chunks).1 } ≡ st
      kept (err e) = refl
      kept (ok u) = rw there refl

  stored_put :
      (seen d : Disk) (blob : Blob) (r : Result (Unit {0})) (s : ChunkStore)
      → (store_checked f seen d blob r s).0 ≡ ok tt
      → ((ChunkStore.put (blobs f) d blob s).0 ≡ ok tt)
        × ((store_checked f seen d blob r s).1 ≡ (ChunkStore.put (blobs f) d blob s).1)
  unfolding store_checked put_new
  stored_put seen d blob (err e) s h = cc
  stored_put seen d blob (ok u) s h =
      elim (Bool-cases (ChunkStore.has (blobs f) seen s blob.address)) [
        | inl e ↦ let h' = rw e at h in cc
        | inr e ↦ (rw e at h, rw e refl)
      ]

  -- What a client has stored with success is sent to whoever asks for it.
  pub get-try_store :
      (seen d d' : Disk) (blob : Blob) (msg_id query_id : MessageId) (origin reader : EndUser)
      (st : ChunkStorage)
      → IsCodec (blobs f)
      → d'.read ≡ FileRead.reads
      → (try_store f seen d blob origin st.chunks).0 ≡ ok tt
      → get f d' blob.address query_id reader (store f seen d blob msg_id origin st).1
        ≡ ok (to_user f (get_blob blob (f.in_response_to query_id) query_id) reader)
  unfolding store get try_store read_reply
  get-try_store seen d d' blob msg_id query_id origin reader st laws readable stored =
      let (done, same) = stored_put seen d blob (check_owner f blob origin) st.chunks stored in
      rw (same, get-put (blobs f) d d' blob st.chunks laws readable done, read_reply) refl
