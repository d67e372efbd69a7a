-- ===== src/Metadata/MapStorage/Refinement.antt =====
-- The writes of src/metadata/map_storage.rs against a store that is a function from addresses to
-- what is read there: who may change what, and to what, with no disk in between.
use sn_node.Prelude.{ℕ, ◌≡◌, ◌≢◌, refl, ◌∙◌, ap, true, ==_iff, PublicKey, MessageId, subst}
use sn_node.Errors.{DtError, Error, Result, ok, err, network_data, no_such_chunk}
use sn_node.ChunkStore
use sn_node.ChunkStore.{Disk, FileRead, ChunkStore}
use sn_node.ChunkStore.Contents.{IsCodec}
use sn_node.ChunkStore.Refinement.{
  Sees, contents, get-contents, Follows, err-Follows, put-Follows, delete-Follows, create-Follows,
  new_wanted, contents-id,
}
use sn_node.DataTypes.{NdResult, Map, MapAddress, MapPermissionSet, MapEntryActions, MapAction}
use sn_node.NodeOps.{EndUser, MapWrite, no_op}
use sn_node.Metadata.Replies
use sn_node.Metadata.MapStorage.{
  MapFormat, map_id, maps, MapStorage, ok_or_error, replied, put_edited, edit_read, edit_chunk,
  checked, set_permissions_in, del_permissions_in, mutate_in, set_user_permissions,
  delete_user_permissions, edit_entries, create, delete_owned, delete_read, delete, execute, write,
}

-- What the storage relies on in maps: decoding undoes encoding, two addresses have two file names,
-- and an edit keeps the address.
pub record IsMapFormat (f : MapFormat) : Type 0 where
  pub codec : IsCodec (maps f)
  pub named : (i j : MapAddress) → i ≢ j → f.file_name i ≢ f.file_name j
  pub set_keeps :
      (map new : Map) (user : PublicKey) (permissions : MapPermissionSet) (version : ℕ)
      → f.set_user_permissions map user permissions version ≡ NdResult.ok new
      → map_id f new ≡ map_id f map
  pub del_keeps :
      (map new : Map) (user : PublicKey) (version : ℕ)
      → f.del_user_permissions map user version ≡ NdResult.ok new
      → map_id f new ≡ map_id f map
  pub mutate_keeps :
      (map new : Map) (changes : MapEntryActions) (key : PublicKey)
      → f.mutate_entries map changes key ≡ NdResult.ok new
      → map_id f new ≡ map_id f map

module _ (f : MapFormat) where
  unfoldable pub target : MapWrite → MapAddress
  target (MapWrite.new map) = map_id f map
  target (MapWrite.delete address) = address
  target (MapWrite.set_user_permissions address user permissions version) = address
  target (MapWrite.del_user_permissions address user version) = address
  target (MapWrite.edit address changes) = address

  abbrev settled : NdResult Map → Result (Result Map)
  settled (NdResult.ok map) = ok (ok map)
  settled (NdResult.err e) = err (network_data e)

  abbrev edit_wanted : (Map → NdResult Map) → Result Map → Result (Result Map)
  edit_wanted change (ok map) = settled (change map)
  edit_wanted change (err e) = err e

  abbrev owner_wanted : PublicKey → NdResult (Unit {0}) → Result (Result Map)
  owner_wanted key (NdResult.ok _) = ok (err no_such_chunk)
  owner_wanted key (NdResult.err _) = err (network_data (DtError.access_denied key))

  abbrev delete_wanted : PublicKey → Result Map → Result (Result Map)
  delete_wanted key (ok map) = owner_wanted key (f.check_is_owner map key)
  delete_wanted key (err e) = err e

  -- What a write by the owner of `key` is to make of what is read at its address, or its refusal.
  unfoldable pub wanted : MapWrite → PublicKey → Result Map → Result (Result Map)
  unfolding checked
  wanted (MapWrite.new map) key r = new_wanted (maps f) map r
  wanted (MapWrite.delete address) key r = delete_wanted key r
  wanted (MapWrite.set_user_permissions address user permissions version) key r =
      edit_wanted
        (λ map.
          checked f (f.check_permissions map MapAction.manage_permissions key)
            (f.set_user_permissions map user permissions version))
        r
  wanted (MapWrite.del_user_permissions address user version) key r =
      edit_wanted
        (λ map.
          checked f (f.check_permissions map MapAction.manage_permissions key)
            (f.del_user_permissions map user version))
        r
  wanted (MapWrite.edit address changes) key r =
      edit_wanted (λ map. f.mutate_entries map changes key) r

  put_edited-Follows :
      (d : Disk) (i : MapAddress) (s : ChunkStore) (r : NdResult Map)
      → IsCodec (maps f)
      → ((new : Map) → r ≡ NdResult.ok new → map_id f new ≡ i)
      → Follows (maps f) i s (settled r) (put_edited f d r s)
  unfolding put_edited
  put_edited-Follows d i s (NdResult.ok map) laws at =
      subst (λ j. Follows (maps f) j s (ok (ok map)) (ChunkStore.put (maps f) d map s))
        (at map refl) (put-Follows (maps f) d map s laws)
  put_edited-Follows d i s (NdResult.err e) laws at = err-Follows (maps f) i s (network_data e)

  edit_read-Follows :
      (d : Disk) (i : MapAddress) (s : ChunkStore) (change : Map → NdResult Map) (r : Result Map)
      → IsCodec (maps f)
      → ((map new : Map) → r ≡ ok map → change map ≡ NdResult.ok new → map_id f new ≡ i)
      → Follows (maps f) i s (edit_wanted change r) (edit_read f d change r s)
  unfolding edit_read
  edit_read-Follows d i s change (ok map) laws at =
      put_edited-Follows d i s (change map) laws (λ new e. at map new refl e)
  edit_read-Follows d i s change (err e) laws at = err-Follows (maps f) i s e

  edit_chunk-Follows :
      (d : Disk) (i : MapAddress) (s : ChunkStore) (change : Map → NdResult Map)
      → IsCodec (maps f)
      → d.read ≡ FileRead.reads
      → ((map new : Map) → change map ≡ NdResult.ok new → map_id f new ≡ map_id f map)
      → Follows
          (maps f)
          i
          s
          (edit_wanted change (contents (maps f) s i))
          (edit_chunk f d i change s)
  unfolding edit_chunk
  edit_chunk-Follows d i s change laws reads keeps = rw (get-contents (maps f) d s i reads) (
      edit_read-Follows d i s change (contents (maps f) s i) laws
        (λ map new e q. keeps map new q ∙ (==_iff _ _).0 (contents-id (maps f) s i map e)))

  delete_owned-Follows :
      (d : Disk) (i : MapAddress) (s : ChunkStore) (origin : EndUser) (r : NdResult (Unit {0}))
      → d.metadata_ok ≡ true
      → Follows (maps f) i s (owner_wanted origin.id r) (delete_owned f d i origin r s)
  unfolding delete_owned
  delete_owned-Follows d i s origin (NdResult.ok u) m = delete-Follows (maps f) d i s m
  delete_owned-Follows d i s origin (NdResult.err x) m =
      err-Follows (maps f) i s (network_data (DtError.access_denied origin.id))

  delete_read-Follows :
      (d : Disk) (i : MapAddress) (s : ChunkStore) (origin : EndUser) (r : Result Map)
      → d.metadata_ok ≡ true
      → Follows (maps f) i s (delete_wanted origin.id r) (delete_read f d i origin r s)
  unfolding delete_read
  delete_read-Follows d i s origin (ok map) m =
      delete_owned-Follows d i s origin (f.check_is_owner map origin.id) m
  delete_read-Follows d i s origin (err e) m = err-Follows (maps f) i s e

  checked-keeps :
      (check : NdResult (Unit {0})) (r : NdResult Map) (new : Map)
      → checked f check r ≡ NdResult.ok new
      → r ≡ NdResult.ok new
  unfolding checked
  checked-keeps (NdResult.ok u) r new e = e
  checked-keeps (NdResult.err x) r new e = cc

  execute-Follows :
      (seen d : Disk) (w : MapWrite) (origin : EndUser) (s : ChunkStore)
      → IsMapFormat f
      → Sees seen d
      → Follows
          (maps f)
          (target w)
          s
          (wanted w origin.id (contents (maps f) s (target w)))
          (execute f seen d w origin s)
  unfolding execute create delete set_user_permissions delete_user_permissions edit_entries target
      wanted set_permissions_in del_permissions_in mutate_in
  execute-Follows seen d (MapWrite.new map) origin s laws sees =
      create-Follows (maps f) seen d map s laws.codec sees.there
  execute-Follows seen d (MapWrite.delete i) origin s laws sees =
      rw (get-contents (maps f) d s i sees.reads)
        (delete_read-Follows d i s origin (contents (maps f) s i) sees.found)
  execute-Follows seen d (MapWrite.set_user_permissions i user ps v) origin s laws sees =
      edit_chunk-Follows d i s _ laws.codec sees.reads
        (λ map new e. laws.set_keeps map new user ps v (checked-keeps _ _ new e))
  execute-Follows seen d (MapWrite.del_user_permissions i user v) origin s laws sees =
      edit_chunk-Follows d i s _ laws.codec sees.reads
        (λ map new e. laws.del_keeps map new user v (checked-keeps _ _ new e))
  execute-Follows seen d (MapWrite.edit i changes) origin s laws sees =
      edit_chunk-Follows d i s _ laws.codec sees.reads
        (λ map new e. laws.mutate_keeps map new changes origin.id e)

  no_op-result :
      (r : Result (Unit {0})) (msg_id : MessageId) (origin : EndUser)
      → ok_or_error f r msg_id origin ≡ ok no_op
      → r ≡ ok tt
  unfolding ok_or_error
  no_op-result r msg_id origin h = Replies.ok_or_error-no_op f.in_response_to _ r msg_id h

  -- If what is there can be seen and read, and whatever happens to the writing: a write that is
  -- answered with no error made the map under its address into what the specification says; one
  -- that the specification refuses is answered with that error and changes nothing; and no write
  -- changes what is read under another address.
  pub map_write_refines :
      (seen d : Disk) (w : MapWrite) (msg_id : MessageId) (origin : EndUser) (st : MapStorage)
      → IsMapFormat f
      → Sees seen d
      → let want = wanted w origin.id (contents (maps f) st.chunks (target w)) in
        let p = write f seen d w msg_id origin st in
        (p.0 ≡ ok no_op
          → (r : Result Map) × (want ≡ ok r) × (contents (maps f) p.1.chunks (target w) ≡ r))
        × ((e : Error) → want ≡ err e → p ≡ (ok_or_error f (err e) msg_id origin, st))
        × ((j : MapAddress)
            → target w ≢ j
            → contents (maps f) p.1.chunks j ≡ contents (maps f) st.chunks j)
  unfolding write replied
  map_write_refines seen d w msg_id origin st laws sees =
      let h = execute-Follows seen d w origin st.chunks laws sees in
      (
        λ q. h.done (no_op-result _ msg_id origin q),
        λ e q. ap (λ p. (ok_or_error f p.0 msg_id origin, record { chunks = p.1 })) (h.refused e q),
        λ j ne. h.others j (laws.named (target w) j ne),
      )
