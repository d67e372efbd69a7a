-- ===== src/Chunks/ChunkStorage/Keeping.antt =====
-- What the handlers of src/chunks/chunk_storage.rs leave of a private blob that the adult holds.
use sn_node.Prelude.{
  ◌≡◌, ◌≢◌, refl, ◌∙◌, inl, inr, true, false, arith, ◌==◌, ==_iff, Bool-cases, MessageId,
}
use sn_node.Errors.{Result, ok, err}
use sn_node.ChunkStore
use sn_node.ChunkStore.{Disk, ChunkStore}
use sn_node.ChunkStore.Contents.{IsCodec}
use sn_node.ChunkStore.Refinement.{
  Sees, contents, get-contents, has-contents, put-Follows, delete-Follows,
}
use sn_node.NodeOps.{BlobAddress, Blob, EndUser}
use sn_node.Chunks.ChunkStorage.{
  BlobFormat, blobs, ChunkStorage, owned_by, check_owner, put_new, store_checked, try_store, store,
  done, store_for_replication, deleted, delete_read, delete,
}

-- What the handlers rely on in blobs: decoding undoes encoding, and two addresses have two names.
pub record IsBlobFormat (f : BlobFormat) : Type 0 where
  pub codec : IsCodec (blobs f)
  pub named : (i j : BlobAddress) → i ≢ j → f.file_name i ≢ f.file_name j

module _ (f : BlobFormat) (laws : IsBlobFormat f) (blob : Blob) where
  -- The blob is what is read under its address.
  abbrev pub Holds : ChunkStore → Type 0
  Holds s = contents (blobs f) s blob.address ≡ ok blob

  put_new-Holds :
      (seen d : Disk) (other : Blob) (s : ChunkStore)
      → Sees seen d
      → Holds s
      → Holds (put_new f seen d other s).1
  unfolding put_new
  put_new-Holds seen d other s sees h =
      elim (Bool-cases (ChunkStore.has (blobs f) seen s other.address)) [
        | inl there ↦ rw there h
        | inr free ↦ elim (Bool-cases (other.address == blob.address)) [
          | inl same ↦
              let there = has-contents (blobs f) seen s blob.address blob sees.there h in
              let free' = rw ((==_iff other.address blob.address).0 same) at free in absurd (cc)
          | inr ne ↦ rw free (
              (put-Follows (blobs f) d other s laws.codec).others blob.address
                (laws.named other.address blob.address (λ e. ground (arith, e)))
              ∙ h)
        ]
      ]

  store_checked-Holds :
      (seen d : Disk) (other : Blob) (r : Result (Unit {0})) (s : ChunkStore)
      → Sees seen d
      → Holds s
      → Holds (store_checked f seen d other r s).1
  unfolding store_checked
  store_checked-Holds seen d other (ok u) s sees h = put_new-Holds seen d other s sees h
  store_checked-Holds seen d other (err e) s sees h = h

  pub store-Holds :
      (seen d : Disk) (other : Blob) (msg_id : MessageId) (origin : EndUser) (st : ChunkStorage)
      → Sees seen d
      → Holds st.chunks
      → Holds (store f seen d other msg_id origin st).1.chunks
  unfolding store try_store
  store-Holds seen d other msg_id origin st sees h =
      store_checked-Holds seen d other (check_owner f other origin) st.chunks sees h

  done-same : (p : Result (Unit {0}) × ChunkStore) → (done f p).1 ≡ p.1
  unfolding done
  done-same (ok u, s) = refl
  done-same (err e, s) = refl

  pub store_for_replication-Holds :
      (seen d : Disk) (other : Blob) (st : ChunkStorage)
      → Sees seen d
      → Holds st.chunks
      → Holds (store_for_replication f seen d other st).1.chunks
  unfolding store_for_replication put_new
  store_for_replication-Holds seen d other st sees h =
      let kept = put_new-Holds seen d other st.chunks sees h in
      elim (Bool-cases (ChunkStore.has (blobs f) seen st.chunks other.address)) [
        | inl there ↦ rw there h
        | inr free ↦
            rw (free, done-same (ChunkStore.put (blobs f) d other st.chunks)) (rw free at kept)
      ]

  deleted-same : (p : Result (Unit {0}) × ChunkStore) → (deleted f p).1 ≡ p.1
  unfolding deleted
  deleted-same (ok u, s) = refl
  deleted-same (err e, s) = refl

  -- A deletion under another address.
  delete_other-Holds :
      (d : Disk) (i : BlobAddress) (origin : EndUser) (r : Result Blob) (s : ChunkStore)
      → d.metadata_ok ≡ true
      → i ≢ blob.address
      → Holds s
      → Holds (delete_read f d i origin r s).1
  unfolding delete_read
  delete_other-Holds d i origin (err e) s m ne h = h
  delete_other-Holds d i origin (ok found) s m ne h =
      let gone =
        (delete-Follows (blobs f) d i s m).others blob.address (laws.named i blob.address ne) ∙ h in
      elim (Bool-cases (f.is_private found)) [
        | inl private ↦ elim (Bool-cases (owned_by f origin (f.owner found))) [
          | inl ours ↦ rw (private, ours, deleted-same (ChunkStore.delete (blobs f) d i s)) gone
          | inr other ↦ rw (private, other) h
        ]
        | inr public ↦ rw public h
      ]

  -- A deletion by a client that does not own the blob.
  pub delete-Holds :
      (seen d : Disk) (i : BlobAddress) (msg_id : MessageId) (origin : EndUser) (st : ChunkStorage)
      → Sees seen d
      → f.is_private blob ≡ true
      → owned_by f origin (f.owner blob) ≡ false
      → Holds st.chunks
      → Holds (delete f seen d i msg_id origin st).1.chunks
  unfolding delete
  delete-Holds seen d i msg_id origin st sees private other h =
      elim (Bool-cases (ChunkStore.has (blobs f) seen st.chunks i)) [
        | inr free ↦ rw free h
        | inl there ↦ rw there (elim (Bool-cases (i == blob.address)) [
          | inr ne ↦ delete_other-Holds d i origin _ st.chunks sees.found (λ e. ground (arith, e)) h
          | inl same ↦
              rw
                (
                  (==_iff i blob.address).0 same,
                  get-contents (blobs f) d st.chunks blob.address sees.reads,
                  h,
                )
                (unfold delete_read in rw (private, other) h)
        ])
      ]
