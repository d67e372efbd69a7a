-- ===== src/Metadata/BlobRegister/Agreement.antt =====
-- The calls of src/metadata/blob_register.rs and the two tables.
use sn_node.Prelude.{
  sym, ◌∙◌, ap, inl, inr, true, false, ◌&&◌, List, [], ◌∷◌, ◌==◌, ==_iff, if◌then◌else◌, XorName,
  MessageId, All, Bool-cases, length,
}
use sn_node.Prelude.BTreeMap.{BTreeSet, contains_key, insert, names, contains_key-insert}
use sn_node.Errors.{Result, ok, err, Result-cases}
use sn_node.NodeOps.{BlobAddress, Blob, EndUser, BlobWrite}
use sn_node.Metadata.BlobRegister.{
  ChunkMetadata, BlobRegister, Env, Writes, get_holder, get_metadata_for, metadata_or_default,
  chunks_or_default, set_metadata, set_holder, chunk_copy_count, set_chunk_holder,
  remove_chunk_holder, update_holders, remove_holder,
}
use sn_node.Metadata.BlobRegister.Handlers.{
  set_holders, remove_holders, store, store_at, delete, delete_at, is_refused, write,
  replicate_chunks,
}
use sn_node.Metadata.BlobRegister.Places.{set_at-insert, row_first, column_first}
use sn_node.Metadata.BlobRegister.Tables.{
  is_held, is_listed, Agree, Written, default_metadata, default_chunks, set_chunk_holder-is_held,
  set_chunk_holder-is_listed,
}
use sn_node.Metadata.BlobRegister.Removal.{
  remove_chunk_holder-is_held, remove_chunk_holder-is_listed, remove_holder-is_held,
  remove_holder-is_listed,
}

-- A call, with what the disk does.
pub data Call : Type 0 where
  writes : Env → Writes → BlobWrite → MessageId → EndUser → Call
  replicates : Env → Writes → XorName → Call
  updates : Writes → BlobAddress → XorName → Call

abbrev pub writes_of : Call → Writes
writes_of (writes env w cmd msg_id origin) = w
writes_of (replicates env w node) = w
writes_of (updates w address holder) = w

unfoldable pub step : BlobRegister → Call → BlobRegister
step reg (writes env w cmd msg_id origin) = (write env w cmd msg_id origin reg).1
step reg (replicates env w node) = (replicate_chunks env w node reg).1
step reg (updates w address holder) = (update_holders w address holder reg).1

unfoldable pub run : BlobRegister → List Call → BlobRegister
run reg [] = reg
run reg (c ∷ cs) = run (step reg c) cs

module _ (w : Writes) (written : Written w) where
  set_chunk_holder-Agree :
      (env : Env) (a : BlobAddress) (h : XorName) (origin : EndUser) (reg : BlobRegister)
      → Agree reg
      → Agree (set_chunk_holder env w a h origin reg).1
  set_chunk_holder-Agree env a h origin reg agree b g =
      set_chunk_holder-is_held w written a h env origin reg b g
      ∙ ap (λ x. if (a == b) && (h == g) then true else x) (agree b g)
      ∙ sym (set_chunk_holder-is_listed w written a h env origin reg b g)

  remove_chunk_holder-Agree :
      (a : BlobAddress) (h : XorName) (reg : BlobRegister)
      → Agree reg
      → Agree (remove_chunk_holder w a h reg)
  remove_chunk_holder-Agree a h reg agree b g =
      remove_chunk_holder-is_held w written a h reg b g
      ∙ ap (λ x. if (a == b) && (h == g) then false else x) (agree b g)
      ∙ sym (remove_chunk_holder-is_listed w written a h reg b g (agree a h))

  remove_holder-Agree :
      (node : XorName) (reg : BlobRegister) → Agree reg → Agree (remove_holder w node reg).1
  remove_holder-Agree node reg agree b g =
      remove_holder-is_held w written node reg b g (agree b node)
      ∙ ap (λ x. if node == g then false else x) (agree b g)
      ∙ sym (remove_holder-is_listed w written node reg b g)

  set_holders-Agree :
      (env : Env) (a : BlobAddress) (hs : List XorName) (origin : EndUser) (reg : BlobRegister)
      → Agree reg
      → Agree (set_holders env w a hs origin reg)
  unfolding set_holders
  set_holders-Agree env a [] origin reg agree = agree
  set_holders-Agree env a (h ∷ hs) origin reg agree =
      set_holders-Agree env a hs origin (set_chunk_holder env w a h origin reg).1
        (set_chunk_holder-Agree env a h origin reg agree)

  remove_holders-Agree :
      (env : Env) (a : BlobAddress) (hs : List XorName) (reg : BlobRegister)
      → Agree reg
      → Agree (remove_holders env w a hs reg)
  unfolding remove_holders
  remove_holders-Agree env a [] reg agree = agree
  remove_holders-Agree env a (h ∷ hs) reg agree =
      remove_holders-Agree env a hs (remove_chunk_holder w a h reg)
        (remove_chunk_holder-Agree a h reg agree)

  store-Agree :
      (env : Env) (blob : Blob) (msg_id : MessageId) (origin : EndUser) (reg : BlobRegister)
      → Agree reg
      → Agree (store env w blob msg_id origin reg).1
  unfolding store store_at
  store-Agree env blob msg_id origin reg agree =
      elim (Result-cases (get_metadata_for reg blob.address)) [
        | inl (metadata, e) ↦
            rw (e, store_at)
              (elim (Bool-cases (length metadata.holders == chunk_copy_count)) [
                | inl full ↦ rw full agree
                | inr short ↦ rw short (set_holders-Agree env blob.address _ origin reg agree)
              ])
        | inr (x, e) ↦ rw (e, store_at) (set_holders-Agree env blob.address _ origin reg agree)
      ]

  delete_at-Agree :
      (env : Env) (a : BlobAddress) (msg_id : MessageId) (origin : EndUser)
      (r : Result ChunkMetadata) (reg : BlobRegister)
      → Agree reg
      → Agree (delete_at env w a msg_id origin r reg).1
  unfolding delete_at
  delete_at-Agree env a msg_id origin (err e) reg agree = agree
  delete_at-Agree env a msg_id origin (ok metadata) reg agree =
      elim (Bool-cases (is_refused env origin metadata.owner)) [
        | inl refused ↦ rw refused agree
        | inr allowed ↦ rw allowed (remove_holders-Agree env a (names metadata.holders) reg agree)
      ]

  update_holders-Agree :
      (a : BlobAddress) (h : XorName) (reg : BlobRegister)
      → Agree reg
      → Agree (update_holders w a h reg).1
  unfolding update_holders set_metadata set_holder is_held is_listed get_holder
  update_holders-Agree a h reg agree b g =
      let old = metadata_or_default (get_metadata_for reg a) in
      let chunks = chunks_or_default (get_holder reg h) in
      let held =
        set_at-insert (λ (m : ChunkMetadata). m.holders) a b g
          (record old { holders = insert h tt old.holders }) reg.metadata
        ∙ ap (λ x. if a == b then x else is_held reg b g) (contains_key-insert h g old.holders)
        ∙ row_first true (a == b) (h == g) (contains_key g old.holders) (is_held reg b g)
            (λ e. default_metadata reg a g ∙ ap (λ x. is_held reg x g) ((==_iff a b).0 e)) in
      let listed =
        set_at-insert (λ (s : BTreeSet). s) h g b (insert a tt chunks) reg.holders
        ∙ ap (λ x. if h == g then x else is_listed reg b g) (contains_key-insert a b chunks)
        ∙ column_first true (a == b) (h == g) (contains_key b chunks) (is_listed reg b g)
            (λ e. default_chunks reg h b ∙ ap (λ x. is_listed reg b x) ((==_iff h g).0 e)) in
      rw (written.0 a h, written.1 a h)
        (held ∙ ap (λ x. if (a == b) && (h == g) then true else x) (agree b g) ∙ sym listed)

step-Agree :
    (c : Call) (reg : BlobRegister) → Written (writes_of c) → Agree reg → Agree (step reg c)
unfolding step write delete replicate_chunks
step-Agree (writes env w (BlobWrite.new blob) msg_id origin) reg ok_all agree =
    store-Agree w ok_all env blob msg_id origin reg agree
step-Agree (writes env w (BlobWrite.delete_private a) msg_id origin) reg ok_all agree =
    delete_at-Agree w ok_all env a msg_id origin (get_metadata_for reg a) reg agree
step-Agree (replicates env w node) reg ok_all agree = remove_holder-Agree w ok_all node reg agree
step-Agree (updates w a h) reg ok_all agree = update_holders-Agree w ok_all a h reg agree

-- As long as the databases can be written, and if they agree at first, they agree after any calls
-- on who holds what: a node is among the holders of a chunk if and only if the chunk is among those
-- of the node.
pub run-Agree :
    (reg : BlobRegister) (cs : List Call)
    → All (λ c. Written (writes_of c)) cs
    → Agree reg
    → Agree (run reg cs)
unfolding run
run-Agree reg [] ok_all agree = agree
run-Agree reg (c ∷ cs) ok_all agree =
    run-Agree (step reg c) cs ok_all.1 (step-Agree c reg ok_all.0 agree)
