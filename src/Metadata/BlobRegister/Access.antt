-- ===== src/Metadata/BlobRegister/Access.antt =====
-- Who reads, deletes and comes to own a chunk (src/metadata/blob_register.rs).
use sn_node.Prelude.{
  ◌≡◌, ◌≢◌, refl, sym, ◌∙◌, ap, Bool, true, false, ◌&&◌, some, List, [], ◌∷◌, ◌==◌, ==_iff,
  if◌then◌else◌, arith, XorName, PublicKey, MessageId,
}
use sn_node.Prelude.BTreeMap.{names}
use sn_node.Errors.{ErrorMessage, ok, convert_to_error_message}
use sn_node.NodeOps.{BlobAddress, EndUser, cmd_error, get_blob_error}
use sn_node.Metadata.BlobRegister.{
  ChunkMetadata, BlobRegister, Env, Writes, get_metadata_for, remove_chunk_holder,
}
use sn_node.Metadata.BlobRegister.Places.{mem, mem-names}
use sn_node.Metadata.BlobRegister.Tables.{Written, is_held, default_metadata}
use sn_node.Metadata.BlobRegister.Removal.{remove_chunk_holder-is_held}
use sn_node.Metadata.BlobRegister.Handlers.{
  remove_holders, to_client, is_refused, send_blob_cmd_error, query_error, delete, delete_at, get,
  get_at,
}

-- A client that does not own a chunk that has an owner can neither read nor delete it: each attempt
-- is answered with `AccessDenied` for its key, reaches no holder and leaves the register as it was.
pub stranger_denied :
    (env : Env) (w : Writes) (a : BlobAddress) (msg_id : MessageId) (origin : EndUser)
    (reg : BlobRegister) (metadata : ChunkMetadata) (owner : PublicKey)
    → get_metadata_for reg a ≡ ok metadata
    → metadata.owner ≡ some owner
    → owner ≢ origin.id
    → (delete env w a msg_id origin reg ≡ (
      ok (
          to_client env
            (cmd_error (ErrorMessage.access_denied origin.id) (env.in_response_to msg_id) msg_id)
            origin),
      reg,
    ))
      × (get env a msg_id origin reg
          ≡ ok (
              to_client env
                (get_blob_error
                  (ErrorMessage.access_denied origin.id)
                  (env.in_response_to msg_id)
                  msg_id)
                origin))
unfolding delete delete_at get get_at is_refused send_blob_cmd_error query_error
    convert_to_error_message
stranger_denied env w a msg_id origin reg metadata owner e o ne =
    let other : (owner == origin.id) ≡ false = ground (arith, ne) in
    (rw (e, delete_at, o, is_refused, other) refl, rw (e, get_at, o, is_refused, other) refl)

module _ (env : Env) (w : Writes) (written : Written w) (a : BlobAddress) where
  merge_removed :
      (x m n q : Bool)
      → (if x && m then false else if x && n then false else q)
        ≡ (if x && (if n then true else m) then false else q)
  merge_removed true true true q = refl
  merge_removed true true false q = refl
  merge_removed true false n q = ground arith
  merge_removed false m n q = refl

  remove_holders-is_held :
      (hs : List XorName) (reg : BlobRegister) (b : BlobAddress) (g : XorName)
      → is_held (remove_holders env w a hs reg) b g
        ≡ (if (a == b) && mem g hs then false else is_held reg b g)
  unfolding remove_holders mem
  remove_holders-is_held [] reg b g = ground arith
  remove_holders-is_held (h ∷ hs) reg b g =
      remove_holders-is_held hs (remove_chunk_holder w a h reg) b g
      ∙ ap (λ x. if (a == b) && mem g hs then false else x)
          (remove_chunk_holder-is_held w written a h reg b g)
      ∙ merge_removed (a == b) (mem g hs) (h == g) (is_held reg b g)

  all_gone :
      (x m q : Bool) → (x ≡ true → m ≡ q) → (if x && m then false else q) ≡ (if x then false else q)
  all_gone true true q e = refl
  all_gone true false q e = sym (e refl)
  all_gone false m q e = refl

  -- If the databases can be written, a deletion that is not refused leaves the chunk without any
  -- holder, and every other chunk with those that it had.
  pub delete-is_held :
      (msg_id : MessageId) (origin : EndUser) (reg : BlobRegister) (metadata : ChunkMetadata)
      → get_metadata_for reg a ≡ ok metadata
      → is_refused env origin metadata.owner ≡ false
      → (b : BlobAddress) (g : XorName)
      → is_held (delete env w a msg_id origin reg).1 b g
        ≡ (if a == b then false else is_held reg b g)
  unfolding delete
  delete-is_held msg_id origin reg metadata e allowed b g =
      let same = default_metadata reg a g in
      rw (e, delete_at, allowed)
        (remove_holders-is_held (names metadata.holders) reg b g
          ∙ all_gone (a == b) (mem g (names metadata.holders)) (is_held reg b g) (λ ab.
            mem-names g metadata.holders
            ∙ (rw e at same)
            ∙ ap (λ x. is_held reg x g) ((==_iff a b).0 ab)))
