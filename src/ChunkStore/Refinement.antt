-- ===== src/ChunkStore/Refinement.antt =====
-- What the chunk store of src/chunk_store/mod.rs holds, as a function from ids to what is read under
-- them, and the calls on the store as changes of that function at one id.
use sn_node.Prelude.{
  ℕ, [], ◌≡◌, ◌≢◌, refl, sym, ◌∙◌, ap, inl, inr, true, some, none, arith, Bool-cases, Option-cases,
  if◌then◌else◌,
}
use sn_node.Prelude.BTreeMap.{BTreeMap, lookup, lookup-remove}
use sn_node.Errors.{Error, Result, ok, err, Result-cases, no_such_chunk, data_exists}
use sn_node.Errors
use sn_node.UsedSpace.{IoEvent}
use sn_node.ChunkStore.{
  Bytes, Disk, FileWrite, FileRead, ChunkStore, Codec, do_delete, put, get, has, delete, file_path,
  read_file, decode,
}
use sn_node.ChunkStore.Contents.{IsCodec, get-put, get-put_ne, do_delete-Same}

-- Some disk whose files can be read.
abbrev reading : Disk
reading = record {
  metadata_ok = true;
  release = IoEvent.success;
  removed = true;
  reserve = IoEvent.success;
  write = FileWrite.written;
  rollback = IoEvent.success;
  read = FileRead.reads;
}

-- The faults that a write may meet here are those of writing: what is there can be seen and read.
pub record Sees (seen d : Disk) : Type 0 where
  pub there : seen.metadata_ok ≡ true
  pub found : d.metadata_ok ≡ true
  pub reads : d.read ≡ FileRead.reads

module _ (c : Codec) where
  -- What is under a name, where files can be read.
  abbrev read_path : BTreeMap Bytes → c.ChunkId → ℕ → Result c.Chunk
  read_path files i path =
      Errors.◌>>=◌ (read_file c FileRead.reads (lookup path files)) (decode c i)

  unfoldable pub contents : ChunkStore → c.ChunkId → Result c.Chunk
  unfolding file_path read_file decode
  contents s i = Errors.◌>>=◌ (file_path c i) (read_path s.files i)

  pub get-contents :
      (d : Disk) (s : ChunkStore) (i : c.ChunkId)
      → d.read ≡ FileRead.reads
      → get c d s i ≡ contents s i
  unfolding get contents
  get-contents d s i e = rw e refl

  -- A call `p` on the store `s` that is to make the chunk under `i` into what `want` says: where it
  -- succeeds it did; where the specification refuses, it failed with that error and changed
  -- nothing; and chunks under other names are as they were.
  pub record Follows (i : c.ChunkId) (s : ChunkStore) (want : Result (Result c.Chunk))
      (p : Result (Unit {0}) × ChunkStore) : Type 0 where
    pub done : p.0 ≡ ok tt → (r : Result c.Chunk) × (want ≡ ok r) × (contents p.1 i ≡ r)
    pub refused : (e : Error) → want ≡ err e → p ≡ (err e, s)
    pub others : (j : c.ChunkId) → c.file_name i ≢ c.file_name j → contents p.1 j ≡ contents s j

  pub err-Follows : (i : c.ChunkId) (s : ChunkStore) (e : Error) → Follows i s (err e) (err e, s)
  err-Follows i s e = record { done = λ h. cc; refused = λ x h. cc; others = λ j ne. refl }

  -- A call may fail where the specification would let it succeed.
  pub fail-Follows :
      (i : c.ChunkId) (s : ChunkStore) (e : Error) (r : Result c.Chunk)
      → Follows i s (ok r) (err e, s)
  fail-Follows i s e r = record { done = λ h. cc; refused = λ x h. cc; others = λ j ne. refl }

  pub put-Follows :
      (d : Disk) (chunk : c.Chunk) (s : ChunkStore)
      → IsCodec c
      → Follows (c.id_of chunk) s (ok (ok chunk)) (put c d chunk s)
  put-Follows d chunk s laws = record {
    done = λ h. (
      ok chunk,
      refl,
      sym (get-contents reading _ _ refl) ∙ get-put c d reading chunk s laws refl h,
    );
    refused = λ e h. cc;
    others = λ j ne.
        sym (get-contents reading _ _ refl)
        ∙ get-put_ne c d reading chunk j s ne
        ∙ get-contents reading s j refl;
  }

  do_delete-gone :
      (d : Disk) (path : ℕ) (s : ChunkStore)
      → d.metadata_ok ≡ true
      → (do_delete d path s).0 ≡ ok tt
      → lookup path (do_delete d path s).1.files ≡ none
  unfolding do_delete
  do_delete-gone d path s m h = ground (arith, lookup-remove path path s.files)

  delete_done :
      (d : Disk) (i : c.ChunkId) (s : ChunkStore)
      → d.metadata_ok ≡ true
      → (delete c d i s).0 ≡ ok tt
      → contents (delete c d i s).1 i ≡ err no_such_chunk
  unfolding contents delete read_file
  delete_done d i s m h = elim (Option-cases (c.file_name i)) [
    | inl e ↦ let h' = rw e at h in cc
    | inr (path, e) ↦ rw (e, do_delete-gone d path s m (rw e at h)) refl
  ]

  delete_others :
      (d : Disk) (i j : c.ChunkId) (s : ChunkStore)
      → c.file_name i ≢ c.file_name j
      → contents (delete c d i s).1 j ≡ contents s j
  unfolding contents delete
  delete_others d i j s ne = elim (Option-cases (c.file_name i)) [
    | inl e ↦ rw e refl
    | inr (path, e) ↦ elim (Option-cases (c.file_name j)) [
      | inl q ↦ rw (e, q) refl
      | inr (k, q) ↦
          let other : path ≢ k = λ same. ne (e ∙ ap some same ∙ sym q) in
          rw (e, q, do_delete-Same d path k [] other s) refl
    ]
  ]

  pub delete-Follows :
      (d : Disk) (i : c.ChunkId) (s : ChunkStore)
      → d.metadata_ok ≡ true
      → Follows i s (ok (err no_such_chunk)) (delete c d i s)
  delete-Follows d i s m = record {
    done = λ h. (err no_such_chunk, refl, delete_done d i s m h);
    refused = λ e h. cc;
    others = λ j ne. delete_others d i j s ne;
  }

  -- What a new chunk is to do: it is refused where a chunk is.
  abbrev pub new_wanted : c.Chunk → Result c.Chunk → Result (Result c.Chunk)
  new_wanted chunk (ok old) = err data_exists
  new_wanted chunk (err e) = ok (ok chunk)

  pub has-contents :
      (seen : Disk) (s : ChunkStore) (i : c.ChunkId) (old : c.Chunk)
      → seen.metadata_ok ≡ true
      → contents s i ≡ ok old
      → has c seen s i ≡ true
  unfolding contents has read_file file_path
  has-contents seen s i old m e = elim (Option-cases (c.file_name i)) [
    | inl q ↦ absurd (ground (arith, q))
    | inr (path, q) ↦ ground (arith, q, m)
  ]

  pub create-Follows :
      (seen d : Disk) (chunk : c.Chunk) (s : ChunkStore)
      → IsCodec c
      → seen.metadata_ok ≡ true
      → Follows
          (c.id_of chunk)
          s
          (new_wanted chunk (contents s (c.id_of chunk)))
          (if has c seen s (c.id_of chunk) then (err data_exists, s) else put c d chunk s)
  create-Follows seen d chunk s laws m = elim (Result-cases (contents s (c.id_of chunk))) [
    | inl (old, e) ↦
        rw (e, has-contents seen s (c.id_of chunk) old m e)
          (err-Follows (c.id_of chunk) s data_exists)
    | inr (x, e) ↦ elim (Bool-cases (has c seen s (c.id_of chunk))) [
      | inl there ↦ rw (e, there) (fail-Follows (c.id_of chunk) s data_exists (ok chunk))
      | inr free ↦ rw (e, free) (put-Follows d chunk s laws)
    ]
  ]

  -- What is read under an id says that it has that id.
  pub contents-id :
      (s : ChunkStore) (i : c.ChunkId) (chunk : c.Chunk)
      → contents s i ≡ ok chunk
      → c.id_eq (c.id_of chunk) i ≡ true
  unfolding contents file_path read_file decode
  contents-id s i chunk e = ground arith
