-- ===== src/ChunkStore/Contents.antt =====
-- What is read back from a chunk store (src/chunk_store/mod.rs).
use sn_node.Prelude.{
  ℕ, ◌+◌, ◌-◌, ◌<◌, ◌≡◌, ◌≢◌, refl, sym, ◌∙◌, ap, inl, inr, true, some, arith, length, Option-cases,
}
use sn_node.Prelude.BTreeMap.{
  lookup, insert, remove, lookup-insert_self, lookup-insert_ne, lookup-remove,
}
use sn_node.Errors.{Error, Result, ok, err}
use sn_node.Action.{Action, >>=-cases, >>=-ok, >>=-err}
use sn_node.UsedSpace
use sn_node.UsedSpace.{UsedSpace, LocalUsedSpace, StoreId, IoEvent, local}
use sn_node.UsedSpace.Exact.{increase_full}
use sn_node.UsedSpace.Effects.{decrease_done}
use sn_node.ChunkStore.{
  Bytes, Disk, FileWrite, FileRead, ChunkStore, Codec, on_used_space, drop_file, do_delete,
  write_file, undo, write_or_undo, put_bytes, reserve_and_write, put, get,
}

-- What the store relies on in serialisation, names and comparison.
pub record IsCodec (c : Codec) : Type 0 where
  pub decodes :
      (x : c.Chunk) (bytes : Bytes) → c.serialise x ≡ some bytes → c.deserialise bytes ≡ some x
  pub id_refl : (i : c.ChunkId) → c.id_eq i i ≡ true

write_or_undo-ok :
    (d : Disk) (path : ℕ) (bytes : Bytes) (s : ChunkStore)
    → (write_or_undo d path bytes s).0 ≡ ok tt
    → lookup path (write_or_undo d path bytes s).1.files ≡ some bytes
unfolding write_or_undo
write_or_undo-ok d path bytes s h = ground (arith, lookup-insert_self path bytes s.files)

-- What a call leaves of the files under other paths.
abbrev pub Same : ℕ → ChunkStore → ChunkStore → Type 0
Same j s s' = lookup j s'.files ≡ lookup j s.files

module _ (d : Disk) (path j : ℕ) (bytes : Bytes) (ne : path ≢ j) where
  write_file-Same : (w : FileWrite) (s : ChunkStore) → Same j s (write_file w path bytes s).1
  unfolding write_file
  write_file-Same FileWrite.written s = lookup-insert_ne path j _ s.files ne
  write_file-Same FileWrite.create_fails s = refl
  write_file-Same FileWrite.sync_fails s = lookup-insert_ne path j _ s.files ne
  write_file-Same (FileWrite.write_fails n) s = lookup-insert_ne path j _ s.files ne

  undo-Same : (n : ℕ) (r : Result (Unit {0})) (s : ChunkStore) → Same j s (undo d n r s).1
  unfolding undo
  undo-Same n (ok _) s = refl
  undo-Same n (err e) s = ground arith

  write_or_undo-Same : (s : ChunkStore) → Same j s (write_or_undo d path bytes s).1
  unfolding write_or_undo
  write_or_undo-Same s =
      let (r, s') = write_file d.write path bytes s in
      undo-Same (length bytes) r s' ∙ write_file-Same d.write s

  pub do_delete-Same : (s : ChunkStore) → Same j s (do_delete d path s).1
  unfolding do_delete
  do_delete-Same s = ground (arith, lookup-remove path j s.files)

  reserve_and_write-Same : (s : ChunkStore) → Same j s (reserve_and_write d path bytes s).1
  unfolding reserve_and_write
  reserve_and_write-Same s =
      let m : Action ChunkStore (Unit {0}) =
        on_used_space (UsedSpace.increase d.reserve s.id (length bytes)) in
      >>=-cases (λ p. Same j s p.1) m (λ _. write_or_undo d path bytes) s
        (λ _ s' e.
          write_or_undo-Same s'
          ∙ ap (λ (p : Result (Unit {0}) × ChunkStore). lookup j p.1.files) (sym e))
        (λ x s' e. ap (λ (p : Result (Unit {0}) × ChunkStore). lookup j p.1.files) (sym e))

  put_bytes-Same : (s : ChunkStore) → Same j s (put_bytes d path bytes s).1
  unfolding put_bytes
  put_bytes-Same s =
      >>=-cases (λ p. Same j s p.1) (do_delete d path) (λ _. reserve_and_write d path bytes) s
        (λ _ s' e. reserve_and_write-Same s' ∙ (rw e at (do_delete-Same s)))
        (λ x s' e. rw e at (do_delete-Same s))

put_bytes-ok :
    (d : Disk) (path : ℕ) (bytes : Bytes) (s : ChunkStore)
    → (put_bytes d path bytes s).0 ≡ ok tt
    → lookup path (put_bytes d path bytes s).1.files ≡ some bytes
unfolding put_bytes reserve_and_write
put_bytes-ok d path bytes s =
    >>=-cases (λ p. p.0 ≡ ok tt → lookup path p.1.files ≡ some bytes) (do_delete d path)
      (λ _. reserve_and_write d path bytes) s
      (λ _ s' e.
        >>=-cases (λ p. p.0 ≡ ok tt → lookup path p.1.files ≡ some bytes)
          (on_used_space (UsedSpace.increase d.reserve s'.id (length bytes)))
          (λ _. write_or_undo d path bytes) s' (λ _ s'' e'. write_or_undo-ok d path bytes s'')
          (λ x s'' e' h. cc))
      (λ x s' e h. cc)

-- The counter after a release.
abbrev released : UsedSpace → StoreId → LocalUsedSpace → ℕ → UsedSpace
released us id l n = record us {
  total_value = us.total_value - n;
  local_stores =
      insert id
        (record {
          local_value = l.local_value - n;
          local_record = UsedSpace.value (l.local_value - n);
        })
        us.local_stores;
}

do_delete_found :
    (d : Disk) (path : ℕ) (old : Bytes) (s : ChunkStore) (l : LocalUsedSpace)
    → lookup path s.files ≡ some old
    → lookup s.id s.used_space.local_stores ≡ some l
    → (d.metadata_ok ≡ true) × (d.release ≡ IoEvent.success) × (d.removed ≡ true)
    → do_delete d path s ≡ (
      ok tt,
      record s {
        files = remove path s.files;
        used_space = released s.used_space s.id l (length old);
      },
    )
unfolding do_delete
do_delete_found d path old s l there found (m, r, k) =
    let done : UsedSpace.decrease d.release s.id (length old) s.used_space
        ≡ (ok tt, released s.used_space s.id l (length old)) =
      rw r (decrease_done s.id (length old) s.used_space l found) in
    rw (m, there)
      (>>=-ok (on_used_space (UsedSpace.decrease d.release s.id (length old)))
          (λ _. drop_file d path) s (ap (λ p. (p.0, record s { used_space = p.1 })) done)
        ∙ dropped _)
  where
    dropped :
        (s' : ChunkStore)
        → drop_file d path s' ≡ (ok tt, record s' { files = remove path s'.files })
    dropped s' = rw k

reserve_and_write_full :
    (d : Disk) (path : ℕ) (bytes : Bytes) (s : ChunkStore)
    → s.used_space.max_capacity < s.used_space.total_value + length bytes
    → reserve_and_write d path bytes s ≡ (err Error.not_enough_space, s)
unfolding reserve_and_write
reserve_and_write_full d path bytes s full =
    >>=-err (on_used_space (UsedSpace.increase d.reserve s.id (length bytes)))
      (λ _. write_or_undo d path bytes) s
      (ap (λ p. (p.0, record s { used_space = p.1 }))
        (increase_full d.reserve s.id (length bytes) s.used_space full))

put_bytes_full :
    (d : Disk) (path : ℕ) (bytes old : Bytes) (s : ChunkStore) (l : LocalUsedSpace)
    → lookup path s.files ≡ some old
    → lookup s.id s.used_space.local_stores ≡ some l
    → (d.metadata_ok ≡ true) × (d.release ≡ IoEvent.success) × (d.removed ≡ true)
    → s.used_space.max_capacity < s.used_space.total_value - length old + length bytes
    → (us' : UsedSpace) × (put_bytes d path bytes s
        ≡ (err Error.not_enough_space, record s { files = remove path s.files; used_space = us' }))
unfolding put_bytes
put_bytes_full d path bytes old s l there found works full = (
  released s.used_space s.id l (length old),
  >>=-ok (do_delete d path) (λ _. reserve_and_write d path bytes) s
        (do_delete_found d path old s l there found works)
      ∙ reserve_and_write_full d path bytes _ full,
)

module _ (c : Codec) where
  -- If decoding undoes encoding and the file can be read, a chunk that was stored with success is
  -- read under its id, whether or not another one stood there before.
  pub get-put :
      (d d' : Disk) (chunk : c.Chunk) (s : ChunkStore)
      → IsCodec c
      → d'.read ≡ FileRead.reads
      → (put c d chunk s).0 ≡ ok tt
      → get c d' (put c d chunk s).1 (c.id_of chunk) ≡ ok chunk
  unfolding put get
  get-put d d' chunk s laws readable h = elim (Option-cases (c.serialise chunk)) [
    | inl e ↦ absurd (ground (arith, e))
    | inr (bytes, e) ↦ elim (Option-cases (c.file_name (c.id_of chunk))) [
      | inl none_named ↦ absurd (ground (arith, e, none_named))
      | inr (path, p) ↦
          let there = put_bytes-ok d path bytes s (rw (e, p) at h) in
          rw (e, p, there, readable, laws.decodes chunk bytes e, laws.id_refl (c.id_of chunk))
    ]
  ]

  -- Storing a chunk, also where it fails, changes nothing that is read under another file's name.
  pub get-put_ne :
      (d d' : Disk) (chunk : c.Chunk) (i : c.ChunkId) (s : ChunkStore)
      → c.file_name (c.id_of chunk) ≢ c.file_name i
      → get c d' (put c d chunk s).1 i ≡ get c d' s i
  unfolding put get
  get-put_ne d d' chunk i s ne = elim (Option-cases (c.serialise chunk)) [
    | inl e ↦ rw e
    | inr (bytes, e) ↦ elim (Option-cases (c.file_name (c.id_of chunk))) [
      | inl unnamed ↦ rw (e, unnamed)
      | inr (path, p) ↦ elim (Option-cases (c.file_name i)) [
        | inl q ↦ rw q
        | inr (j, q) ↦
            let other : path ≢ j = λ same. ne (p ∙ ap some same ∙ sym q) in
            rw (e, p, q, put_bytes-Same d path j bytes other s)
      ]
    ]
  ]

  -- `put` deletes the old chunk before it reserves space for the new one: if the old one is removed
  -- without a fault and the new one does not fit in its place, the error is that there is not
  -- enough space, and the old chunk is gone.
  pub put_full_loses :
      (d d' : Disk) (chunk : c.Chunk) (s : ChunkStore) (bytes old : Bytes) (path : ℕ)
      (l : LocalUsedSpace)
      → c.serialise chunk ≡ some bytes
      → c.file_name (c.id_of chunk) ≡ some path
      → lookup path s.files ≡ some old
      → lookup s.id s.used_space.local_stores ≡ some l
      → (d.metadata_ok ≡ true) × (d.release ≡ IoEvent.success) × (d.removed ≡ true)
      → s.used_space.max_capacity < s.used_space.total_value - length old + length bytes
      → ((put c d chunk s).0 ≡ err Error.not_enough_space)
        × (get c d' (put c d chunk s).1 (c.id_of chunk) ≡ err Error.no_such_chunk)
  unfolding put get
  put_full_loses d d' chunk s bytes old path l e p there found works full =
      let (us', eq) = put_bytes_full d path bytes old s l there found works full in
      let gone = lookup-remove path path s.files in
      (rw (e, p, eq), rw (e, p, eq) (ground (arith, p, gone)))
