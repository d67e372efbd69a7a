-- ===== src/Metadata/BlobRegister/Storing.antt =====
-- What `store` of src/metadata/blob_register.rs does to the register.
use sn_node.Prelude.{
  ℕ, suc, ◌≤◌, ◌≡◌, ◌≢◌, refl, sym, ◌∙◌, ap, Bool, true, false, ◌&&◌, Option, none, some, List, [],
  ◌∷◌, ◌==◌, ==_refl, if◌then◌else◌, arith, XorName, PublicKey, MessageId, length, max,
}
use sn_node.Prelude.BTreeMap.{
  BTreeSet, contains_key, insert, names, collect_set, is_empty, lookup-insert_self,
}
use sn_node.Errors.{Error, ok, err}
use sn_node.NodeOps.{
  BlobAddress, Blob, EndUser, BlobRead, BlobWrite, send_to_nodes, chunk_cmd, chunk_query,
}
use sn_node.Metadata.BlobRegister.{
  chunk_copy_count, ChunkMetadata, BlobRegister, Env, Writes, get_metadata_for, found_metadata,
  metadata_or_default, set_metadata, set_holder, list_chunk, set_chunk_holder,
}
use sn_node.Metadata.BlobRegister.Handlers.{
  is_refused, get, get_at, add_missing, set_holders, store, store_at, spread, get_holders_for_chunk,
}
use sn_node.Metadata.BlobRegister.Places.{mem, mem-names}
use sn_node.Metadata.BlobRegister.Tables.{
  Written, is_held, default_metadata, set_chunk_holder-is_held,
}

length-insert-le : (h : ℕ) (s : BTreeSet) → length (insert h tt s) ≤ suc (length s)
length-insert-le h [] = omega arith
length-insert-le h ((k, u) ∷ s) = ground (arith, length-insert-le h s)

insert_nonempty : (h : ℕ) (s : BTreeSet) → is_empty (insert h tt s) ≡ false
insert_nonempty h [] = refl
insert_nonempty h ((k, u) ∷ s) = ground arith

module _ (env : Env) where
  -- The closest adults fill up the holders of a chunk to the wanted number of copies and no further.
  pub add_missing_bounded :
      (hs : List XorName) (holders : BTreeSet)
      → length (add_missing env hs holders) ≤ max (length holders) chunk_copy_count
  unfolding add_missing
  add_missing_bounded [] holders = omega arith
  add_missing_bounded (h ∷ hs) holders = ground (
    arith,
    add_missing_bounded hs holders,
    add_missing_bounded hs (insert h tt holders),
    length-insert-le h holders,
  )

  add_missing_nonempty :
      (hs : List XorName) (holders : BTreeSet)
      → is_empty holders ≡ false
      → is_empty (add_missing env hs holders) ≡ false
  unfolding add_missing
  add_missing_nonempty [] holders e = e
  add_missing_nonempty (h ∷ hs) holders e = ground (
    arith,
    e,
    add_missing_nonempty hs holders e,
    add_missing_nonempty hs (insert h tt holders) (insert_nonempty h holders),
  )

  module _ (w : Writes) (written : Written w) (a : BlobAddress) (origin : EndUser) where
    set_chunk_holder-metadata :
        (h : XorName) (reg : BlobRegister)
        → let old = metadata_or_default (get_metadata_for reg a) in
          get_metadata_for (set_chunk_holder env w a h origin reg).1 a
          ≡ ok (record {
            holders = insert h tt old.holders;
            owner = if env.is_private a then some origin.id else old.owner;
          })
    unfolding set_chunk_holder get_metadata_for found_metadata
    set_chunk_holder-metadata h reg =
        let old = metadata_or_default (get_metadata_for reg a) in
        let new : ChunkMetadata = record {
          holders = insert h tt old.holders;
          owner = if env.is_private a then some origin.id else old.owner;
        } in
        rw
          (
            written.0 a h,
            written.1 a h,
            set_metadata,
            set_holder,
            list_chunk,
            lookup-insert_self a new reg.metadata,
            insert_nonempty h old.holders,
          )
          refl

    -- After a store the register has the chunk, with a property of the owner that each step keeps.
    module _ (P : Option PublicKey → Type 0) where
      set_holders-owner :
          (h : XorName) (hs : List XorName) (reg : BlobRegister)
          → P (
              if env.is_private a
              then some origin.id
              else (metadata_or_default (get_metadata_for reg a)).owner)
          → (m : ChunkMetadata) × (get_metadata_for (set_holders env w a (h ∷ hs) origin reg) a
              ≡ ok m)
            × P m.owner
      unfolding set_holders
      set_holders-owner h [] reg p = (_, set_chunk_holder-metadata h reg, p)
      set_holders-owner h (h' ∷ hs) reg p =
          let e = set_chunk_holder-metadata h reg in
          set_holders-owner h' hs (set_chunk_holder env w a h origin reg).1
            (rw e (again (env.is_private a) (metadata_or_default (get_metadata_for reg a)).owner p))
        where
          again :
              (private : Bool) (o : Option PublicKey)
              → P (if private then some origin.id else o)
              → P (if private then some origin.id else if private then some origin.id else o)
          again true o p = p
          again false o p = p

    merge_member :
        (x m n q : Bool)
        → (if x && m then true else if x && n then true else q)
          ≡ (if x && (if n then true else m) then true else q)
    merge_member true true true q = refl
    merge_member true true false q = refl
    merge_member true false n q = ground arith
    merge_member false m n q = refl

    set_holders-is_held :
        (hs : List XorName) (reg : BlobRegister) (b : BlobAddress) (g : XorName)
        → is_held (set_holders env w a hs origin reg) b g
          ≡ (if (a == b) && mem g hs then true else is_held reg b g)
    unfolding set_holders mem
    set_holders-is_held [] reg b g = ground arith
    set_holders-is_held (h ∷ hs) reg b g =
        set_holders-is_held hs (set_chunk_holder env w a h origin reg).1 b g
        ∙ ap (λ x. if (a == b) && mem g hs then true else x)
            (set_chunk_holder-is_held w written a h env origin reg b g)
        ∙ merge_member (a == b) (mem g hs) (h == g) (is_held reg b g)

non_empty : (s : BTreeSet) → is_empty s ≡ false → (h : ℕ) × (hs : List ℕ) × (names s ≡ h ∷ hs)
non_empty [] e = cc
non_empty ((h, u) ∷ s) e = (h, names s, refl)

found_non_empty :
    (reg : BlobRegister) (a : BlobAddress) (m : ChunkMetadata)
    → get_metadata_for reg a ≡ ok m
    → is_empty m.holders ≡ false
unfolding get_metadata_for found_metadata
found_non_empty reg a m e = ground arith

-- If the databases can be written, whoever stores a private chunk of which too few or too many
-- copies are known is registered as its owner, whoever owned it before.
pub store_takes_over :
    (env : Env) (w : Writes) (blob : Blob) (msg_id : MessageId) (origin : EndUser)
    (reg : BlobRegister) (metadata : ChunkMetadata)
    → Written w
    → get_metadata_for reg blob.address ≡ ok metadata
    → length metadata.holders ≢ chunk_copy_count
    → env.is_private blob.address ≡ true
    → (m : ChunkMetadata) × (get_metadata_for (store env w blob msg_id origin reg).1 blob.address
        ≡ ok m)
      × (m.owner ≡ some origin.id)
unfolding store spread
store_takes_over env w blob msg_id origin reg metadata written e few private =
    let closest = names (collect_set (get_holders_for_chunk env (env.name blob.address))) in
    let targets = add_missing env closest metadata.holders in
    let (h, hs, ne) = non_empty targets (
      add_missing_nonempty env closest metadata.holders
        (found_non_empty reg blob.address metadata e)) in
    let short : (length metadata.holders == chunk_copy_count) ≡ false = ground (arith, few) in
    rw (e, store_at, short, ne)
      (set_holders-owner env w written blob.address origin (λ o. o ≡ some origin.id) h hs reg
        (rw private refl))

-- If the databases can be written and some adult is close, a store of a new chunk sends it to the
-- adults closest to it, and the chunk can be read right after that by the one who stored it: the
-- query goes to those adults and to no others.
pub get-store :
    (env : Env) (w : Writes) (blob : Blob) (msg_id query_id : MessageId) (origin : EndUser)
    (reg : BlobRegister) (missing : Error)
    → Written w
    → get_metadata_for reg blob.address ≡ err missing
    → collect_set (env.our_adults_sorted_by_distance_to (env.name blob.address) chunk_copy_count)
      ≢ []
    → ((store env w blob msg_id origin reg).0
        ≡ ok (
            send_to_nodes
              (collect_set
                (env.our_adults_sorted_by_distance_to (env.name blob.address) chunk_copy_count))
              (chunk_cmd (BlobWrite.new blob) origin msg_id)))
      × (holders : BTreeSet) × (get env blob.address query_id origin
            (store env w blob msg_id origin reg).1
          ≡ ok (send_to_nodes holders (chunk_query (BlobRead.get blob.address) origin query_id)))
      × ((g : XorName)
          → contains_key g holders
            ≡ contains_key g (
                collect_set
                  (env.our_adults_sorted_by_distance_to (env.name blob.address) chunk_copy_count)))
unfolding store spread get get_holders_for_chunk
get-store env w blob msg_id query_id origin reg missing written e ne =
    let a = blob.address in
    let targets =
      collect_set (env.our_adults_sorted_by_distance_to (env.name a) chunk_copy_count) in
    let (h, hs, n) = non_empty targets (some_there targets ne) in
    let (m, found, allowed) =
      set_holders-owner env w written a origin (λ o. is_refused env origin o ≡ false) h hs reg
        (rw e (stored (env.is_private a))) in
    let reg' = set_holders env w a (names targets) origin reg in
    let reg-store : (store env w blob msg_id origin reg).1 ≡ reg' = rw (e, store_at) refl in
    let found' : get_metadata_for reg' a ≡ ok m = rw n found in
    (
      rw (e, store_at) refl,
      m.holders,
      rw (reg-store, found', get_at, allowed) refl,
      λ g. members reg' targets m found' refl g,
    )
  where
    some_there : (s : BTreeSet) → s ≢ [] → is_empty s ≡ false
    some_there [] ne = absurd (ne refl)
    some_there (x ∷ s) ne = refl

    stored :
        (private : Bool) → is_refused env origin (if private then some origin.id else none) ≡ false
    stored true = ground arith
    stored false = refl

    among : (x m q : Bool) → x ≡ true → q ≡ false → (if x && m then true else q) ≡ m
    among true true q e z = refl
    among true false q e z = z
    among false m q e z = cc

    members :
        (reg' : BlobRegister) (targets : BTreeSet) (m : ChunkMetadata)
        → get_metadata_for reg' blob.address ≡ ok m
        → reg' ≡ set_holders env w blob.address (names targets) origin reg
        → (g : XorName) → contains_key g m.holders ≡ contains_key g targets
    members reg' targets m found same g =
        let a = blob.address in
        let none_before = default_metadata reg a g in
        let now = default_metadata reg' a g in
        (rw found at now)
        ∙ ap (λ r. is_held r a g) same
        ∙ set_holders-is_held env w written a origin (names targets) reg a g
        ∙ among (a == a) (mem g (names targets)) (is_held reg a g) (==_refl a)
            (sym (rw e at none_before))
        ∙ mem-names g targets
