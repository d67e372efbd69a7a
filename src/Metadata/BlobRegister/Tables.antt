-- ===== src/Metadata/BlobRegister/Tables.antt =====
-- What the two tables of src/metadata/blob_register.rs say of a chunk and a node.
use sn_node.Prelude.{
  ◌≡◌, refl, sym, ◌∙◌, ap, inl, inr, Bool, true, false, ◌&&◌, Option, none, some, [], ◌∷◌, ◌==◌,
  if◌then◌else◌, ==_iff, XorName, Bool-cases,
}
use sn_node.Prelude.BTreeMap.{
  BTreeSet, lookup, contains_key, insert, remove, is_empty, contains_key-insert,
  contains_key-remove,
}
use sn_node.Errors.{Error, ok, err}
use sn_node.NodeOps.{BlobAddress, EndUser}
use sn_node.Metadata.BlobRegister.Places.{
  set_at, set_at-insert, set_at-remove, row_first, column_first, missed, empty_set,
}
use sn_node.Metadata.BlobRegister.{
  ChunkMetadata, BlobRegister, Env, Writes, get_holder, get_metadata_for, metadata_or_default,
  chunks_or_default, set_metadata, set_holder, rem_metadata, found_holder, found_metadata,
  set_chunk_holder, drop_holder, list_chunk,
}

abbrev holders_at : Option ChunkMetadata → BTreeSet
holders_at = set_at (λ metadata. metadata.holders)

abbrev chunks_at : Option BTreeSet → BTreeSet
chunks_at = set_at (λ chunks. chunks)

-- Whether the node is among the holders of the chunk, by each of the tables.
unfoldable pub is_held : BlobRegister → BlobAddress → XorName → Bool
is_held reg address holder = contains_key holder (holders_at (lookup address reg.metadata))

unfoldable pub is_listed : BlobRegister → BlobAddress → XorName → Bool
is_listed reg address holder = contains_key address (chunks_at (lookup holder reg.holders))

-- Each test reads one table.
pub same-is_held :
    (reg reg' : BlobRegister) (a : BlobAddress) (h : XorName)
    → reg'.metadata ≡ reg.metadata
    → is_held reg' a h ≡ is_held reg a h
unfolding is_held
same-is_held reg reg' a h e = ap (λ t. contains_key h (holders_at (lookup a t))) e

pub same-is_listed :
    (reg reg' : BlobRegister) (a : BlobAddress) (h : XorName)
    → reg'.holders ≡ reg.holders
    → is_listed reg' a h ≡ is_listed reg a h
unfolding is_listed
same-is_listed reg reg' a h e = ap (λ t. contains_key a (chunks_at (lookup h t))) e

-- The tables agree.
abbrev pub Agree : BlobRegister → Type 0
Agree reg = (a : BlobAddress) (h : XorName) → is_held reg a h ≡ is_listed reg a h

-- All writes succeed.
abbrev pub Written : Writes → Type 0
Written w =
    ((a : BlobAddress) (h : XorName) → w.metadata_ok a h ≡ true)
    × ((a : BlobAddress) (h : XorName) → w.holders_ok a h ≡ true)
    × (w.holder_removed ≡ true)

pub default_metadata :
    (reg : BlobRegister) (a : BlobAddress) (g : XorName)
    → contains_key g (metadata_or_default (get_metadata_for reg a)).holders ≡ is_held reg a g
unfolding get_metadata_for found_metadata is_held
default_metadata reg a g = found (lookup a reg.metadata)
  where
    found :
        (o : Option ChunkMetadata)
        → contains_key g (metadata_or_default (found_metadata o)).holders
          ≡ contains_key g (holders_at o)
    found none = refl
    found (some metadata) = elim (Bool-cases (is_empty metadata.holders)) [
      | inl e ↦ rw e (sym (empty_set metadata.holders g e))
      | inr e ↦ rw e refl
    ]

pub default_chunks :
    (reg : BlobRegister) (h : XorName) (b : BlobAddress)
    → contains_key b (chunks_or_default (get_holder reg h)) ≡ is_listed reg b h
unfolding get_holder found_holder is_listed
default_chunks reg h b = found (lookup h reg.holders)
  where
    found :
        (o : Option BTreeSet)
        → contains_key b (chunks_or_default (found_holder o)) ≡ contains_key b (chunks_at o)
    found none = refl
    found (some []) = refl
    found (some (e ∷ chunks)) = refl

module _ (w : Writes) (written : Written w) (a : BlobAddress) (h : XorName) where
  pub set_chunk_holder-is_held :
      (env : Env) (origin : EndUser) (reg : BlobRegister) (b : BlobAddress) (g : XorName)
      → is_held (set_chunk_holder env w a h origin reg).1 b g
        ≡ (if (a == b) && (h == g) then true else is_held reg b g)
  unfolding set_chunk_holder is_held
  set_chunk_holder-is_held env origin reg b g =
      let old = metadata_or_default (get_metadata_for reg a) in
      let new : ChunkMetadata = record {
        holders = insert h tt old.holders;
        owner = if env.is_private a then some origin.id else old.owner;
      } in
      let same = default_metadata reg a g in
      rw
        (
          written.0 a h,
          written.1 a h,
          set_metadata,
          set_holder,
          list_chunk,
          set_at-insert (λ (m : ChunkMetadata). m.holders) a b g new reg.metadata,
          contains_key-insert h g old.holders,
        )
        (row_first true (a == b) (h == g) (contains_key g old.holders) (is_held reg b g)
          (λ e. same ∙ ap (λ x. is_held reg x g) ((==_iff a b).0 e)))

  pub set_chunk_holder-is_listed :
      (env : Env) (origin : EndUser) (reg : BlobRegister) (b : BlobAddress) (g : XorName)
      → is_listed (set_chunk_holder env w a h origin reg).1 b g
        ≡ (if (a == b) && (h == g) then true else is_listed reg b g)
  unfolding set_chunk_holder is_listed get_holder
  set_chunk_holder-is_listed env origin reg b g =
      let old = chunks_or_default (get_holder reg h) in
      let same = default_chunks reg h b in
      rw
        (
          written.0 a h,
          written.1 a h,
          set_metadata,
          set_holder,
          list_chunk,
          set_at-insert (λ (s : BTreeSet). s) h g b (insert a tt old) reg.holders,
          contains_key-insert a b old,
        )
        (column_first true (a == b) (h == g) (contains_key b old) (is_listed reg b g)
          (λ e. same ∙ ap (λ x. is_listed reg b x) ((==_iff h g).0 e)))

  pub set_metadata-is_held :
      (reg : BlobRegister) (new : ChunkMetadata) (b : BlobAddress) (g : XorName)
      → is_held (set_metadata (w.metadata_ok a h) a new reg).1 b g
        ≡ (if a == b then contains_key g new.holders else is_held reg b g)
  unfolding set_metadata is_held
  set_metadata-is_held reg new b g =
      rw (written.0 a h, set_at-insert (λ (m : ChunkMetadata). m.holders) a b g new reg.metadata)
        refl

  pub drop_holder-is_held :
      (reg : BlobRegister) (metadata : ChunkMetadata) (b : BlobAddress) (g : XorName)
      → is_held (drop_holder w a h metadata reg) b g
        ≡ (if a == b then contains_key g (remove h metadata.holders) else is_held reg b g)
  unfolding drop_holder rem_metadata is_held
  drop_holder-is_held reg metadata b g =
      let left = remove h metadata.holders in
      elim (Bool-cases (is_empty left)) [
        | inl e ↦ rw (e, empty_set left g e) removed
        | inr e ↦ rw e (set_metadata-is_held reg (record metadata { holders = left }) b g)
      ]
    where
      removed :
          is_held (rem_metadata (w.metadata_ok a h) a reg) b g
          ≡ (if a == b then false else is_held reg b g)
      removed =
          rw (written.0 a h, set_at-remove (λ (m : ChunkMetadata). m.holders) a b g reg.metadata)
            refl

  -- What a chunk loses when a holder is taken from it.
  pub dropped-is_held :
      (reg : BlobRegister) (metadata : ChunkMetadata) (b : BlobAddress) (g : XorName)
      → get_metadata_for reg a ≡ ok metadata
      → is_held (drop_holder w a h metadata reg) b g
        ≡ (if (a == b) && (h == g) then false else is_held reg b g)
  dropped-is_held reg metadata b g e =
      let same = default_metadata reg a g in
      rw (drop_holder-is_held reg metadata b g, contains_key-remove h g metadata.holders)
        (row_first false (a == b) (h == g) (contains_key g metadata.holders) (is_held reg b g)
          (λ ab. (rw e at same) ∙ ap (λ x. is_held reg x g) ((==_iff a b).0 ab)))

  -- A chunk without metadata has no holder to lose.
  pub missing-is_held :
      (reg : BlobRegister) (x : Error) (b : BlobAddress) (g : XorName)
      → get_metadata_for reg a ≡ err x
      → is_held reg b g ≡ (if (a == b) && (h == g) then false else is_held reg b g)
  missing-is_held reg x b g e =
      let none_left = default_metadata reg a g in
      missed (a == b) (h == g) (is_held reg b g)
        (λ ab. (sym (ap (λ x. is_held reg x g) ((==_iff a b).0 ab))) ∙ sym (rw e at none_left))
