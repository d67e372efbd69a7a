-- ===== src/Metadata/BlobRegister/Removal.antt =====
-- What the tables of src/metadata/blob_register.rs lose when a holder is removed from a chunk, and
-- when a node leaves.
use sn_node.Prelude.{
  ◌≡◌, refl, sym, ◌∙◌, ap, inl, inr, Bool, true, false, ◌&&◌, List, [], ◌∷◌, ◌==◌, ==_iff,
  if◌then◌else◌, arith, XorName, Bool-cases,
}
use sn_node.Prelude.BTreeMap.{
  BTreeMap, BTreeSet, lookup, contains_key, remove, names, is_empty, contains_key-remove,
}
use sn_node.Errors.{Error, Result, ok, err, Result-cases}
use sn_node.NodeOps.{BlobAddress}
use sn_node.Metadata.BlobRegister.{
  ChunkMetadata, BlobRegister, Writes, get_holder, get_metadata_for, chunks_or_default,
  set_metadata, set_holder, rem_holder, rem_metadata, remove_chunk_holder, remove_known_holder,
  unlist_chunk, drop_holder, drop_known, drop_node, found_metadata, remove_holder,
}
use sn_node.Metadata.BlobRegister.Places.{
  mem, mem-names, set_at-insert, set_at-remove, column_first, missed_column, both_missed, empty_set,
}
use sn_node.Metadata.BlobRegister.Tables.{
  is_held, is_listed, Written, same-is_held, same-is_listed, default_metadata, default_chunks,
  dropped-is_held, missing-is_held,
}

module _ (w : Writes) (written : Written w) (a : BlobAddress) (h : XorName) where
  drop_holder-holders :
      (metadata : ChunkMetadata) (reg : BlobRegister)
      → (drop_holder w a h metadata reg).holders ≡ reg.holders
  unfolding drop_holder set_metadata rem_metadata
  drop_holder-holders metadata reg = elim (Bool-cases (is_empty (remove h metadata.holders))) [
    | inl e ↦ rw (e, written.0 a h) refl
    | inr e ↦ rw (e, written.0 a h) refl
  ]

  unlist_chunk-metadata :
      (r : Result BTreeSet) (reg : BlobRegister)
      → (unlist_chunk w a h r reg).metadata ≡ reg.metadata
  unfolding unlist_chunk set_holder rem_holder
  unlist_chunk-metadata (err e) reg = refl
  unlist_chunk-metadata (ok chunks) reg = elim (Bool-cases (is_empty (remove a chunks))) [
    | inl e ↦ rw (e, written.1 a h) refl
    | inr e ↦ rw (e, written.1 a h) refl
  ]

  unlist_chunk-is_listed :
      (r : Result BTreeSet) (reg : BlobRegister) (b : BlobAddress) (g : XorName)
      → get_holder reg h ≡ r
      → is_listed (unlist_chunk w a h r reg) b g
        ≡ (if (a == b) && (h == g) then false else is_listed reg b g)
  unfolding unlist_chunk set_holder rem_holder is_listed
  unlist_chunk-is_listed (err x) reg b g e =
      let none_left = default_chunks reg h b in
      missed_column (a == b) (h == g) (is_listed reg b g)
        (λ hg. sym (ap (λ y. is_listed reg b y) ((==_iff h g).0 hg)) ∙ sym (rw e at none_left))
  unlist_chunk-is_listed (ok chunks) reg b g e =
      let left = remove a chunks in
      let same = default_chunks reg h b in
      let hit =
        column_first false (a == b) (h == g) (contains_key b chunks) (is_listed reg b g)
          (λ hg. (rw e at same) ∙ ap (λ y. is_listed reg b y) ((==_iff h g).0 hg)) in
      elim (Bool-cases (is_empty left)) [
        | inl empty ↦
            rw (empty, written.1 a h, set_at-remove (λ (s : BTreeSet). s) h g b reg.holders)
              (ap (λ x. if h == g then x else is_listed reg b g)
                  (sym (empty_set left b empty) ∙ contains_key-remove a b chunks)
                ∙ hit)
        | inr more ↦
            rw
              (
                more,
                written.1 a h,
                set_at-insert (λ (s : BTreeSet). s) h g b left reg.holders,
                contains_key-remove a b chunks,
              )
              hit
      ]

  pub remove_chunk_holder-is_held :
      (reg : BlobRegister) (b : BlobAddress) (g : XorName)
      → is_held (remove_chunk_holder w a h reg) b g
        ≡ (if (a == b) && (h == g) then false else is_held reg b g)
  unfolding remove_chunk_holder remove_known_holder get_metadata_for
  remove_chunk_holder-is_held reg b g = elim (Result-cases (get_metadata_for reg a)) [
    | inl (metadata, e) ↦
        let reg' = unlist_chunk w a h (get_holder reg h) reg in
        let same = unlist_chunk-metadata (get_holder reg h) reg in
        rw (e, remove_known_holder)
          (dropped-is_held w written a h reg' metadata b g
              (ap (λ t. found_metadata (lookup a t)) same ∙ e)
            ∙ ap (λ x. if (a == b) && (h == g) then false else x) (same-is_held reg reg' b g same))
    | inr (x, e) ↦ rw e (missing-is_held w written a h reg x b g e)
  ]

  pub remove_chunk_holder-is_listed :
      (reg : BlobRegister) (b : BlobAddress) (g : XorName)
      → is_held reg a h ≡ is_listed reg a h
      → is_listed (remove_chunk_holder w a h reg) b g
        ≡ (if (a == b) && (h == g) then false else is_listed reg b g)
  unfolding remove_chunk_holder remove_known_holder
  remove_chunk_holder-is_listed reg b g agree = elim (Result-cases (get_metadata_for reg a)) [
    | inl (metadata, e) ↦
        let reg' = unlist_chunk w a h (get_holder reg h) reg in
        rw (e, remove_known_holder)
          (same-is_listed reg' (drop_holder w a h metadata reg') b g
              (drop_holder-holders metadata reg')
            ∙ unlist_chunk-is_listed (get_holder reg h) reg b g refl)
    | inr (x, e) ↦ rw e (unlisted x e)
  ]
    where
      unlisted :
          (x : Error)
          → get_metadata_for reg a ≡ err x
          → is_listed reg b g ≡ (if (a == b) && (h == g) then false else is_listed reg b g)
      unlisted x e = both_missed (a == b) (h == g) (is_listed reg b g) (λ ab hg.
          sym (ap (λ y. is_listed reg y g) ((==_iff a b).0 ab))
          ∙ sym (ap (λ y. is_listed reg a y) ((==_iff h g).0 hg))
          ∙ sym agree
          ∙ sym (rw e at (default_metadata reg a h)))

module _ (w : Writes) (written : Written w) (node : XorName) where
  drop_node-holders :
      (addresses : List BlobAddress) (p : BTreeMap BTreeSet × BlobRegister)
      → (drop_node w node addresses p).1.holders ≡ p.1.holders
  unfolding drop_node
  drop_node-holders [] p = refl
  drop_node-holders (a ∷ as') p =
      drop_node-holders as' (drop_known w node a (get_metadata_for p.1 a) p)
      ∙ one a p (get_metadata_for p.1 a)
    where
      one :
          (a : BlobAddress) (p : BTreeMap BTreeSet × BlobRegister) (r : Result ChunkMetadata)
          → (drop_known w node a r p).1.holders ≡ p.1.holders
      one a (left, reg) (ok metadata) = drop_holder-holders w written a node metadata reg
      one a (left, reg) (err e) = refl

  merge :
      (x m n q : Bool)
      → (if m && n then false else if x && n then false else q)
        ≡ (if (if x then true else m) && n then false else q)
  merge true true n q = ground arith
  merge true false n q = refl
  merge false m n q = refl

  drop_known-is_held :
      (a : BlobAddress) (p : BTreeMap BTreeSet × BlobRegister) (b : BlobAddress) (g : XorName)
      → is_held (drop_known w node a (get_metadata_for p.1 a) p).1 b g
        ≡ (if (a == b) && (node == g) then false else is_held p.1 b g)
  unfolding drop_known
  drop_known-is_held a (left, reg) b g = elim (Result-cases (get_metadata_for reg a)) [
    | inl (metadata, e) ↦ rw e (dropped-is_held w written a node reg metadata b g e)
    | inr (x, e) ↦ rw e (missing-is_held w written a node reg x b g e)
  ]

  drop_node-is_held :
      (addresses : List BlobAddress) (p : BTreeMap BTreeSet × BlobRegister) (b : BlobAddress)
      (g : XorName)
      → is_held (drop_node w node addresses p).1 b g
        ≡ (if mem b addresses && (node == g) then false else is_held p.1 b g)
  unfolding drop_node mem
  drop_node-is_held [] p b g = refl
  drop_node-is_held (a ∷ as') p b g =
      drop_node-is_held as' (drop_known w node a (get_metadata_for p.1 a) p) b g
      ∙ ap (λ x. if mem b as' && (node == g) then false else x) (drop_known-is_held a p b g)
      ∙ merge (a == b) (mem b as') (node == g) (is_held p.1 b g)

  gone :
      (m n q : Bool) → (n ≡ true → q ≡ m) → (if m && n then false else q) ≡ (if n then false else q)
  gone true true q e = refl
  gone true false q e = refl
  gone false true q e = e refl
  gone false false q e = refl

  pub remove_holder-is_held :
      (reg : BlobRegister) (b : BlobAddress) (g : XorName)
      → is_held reg b node ≡ is_listed reg b node
      → is_held (remove_holder w node reg).1 b g ≡ (if node == g then false else is_held reg b g)
  unfolding remove_holder rem_holder
  remove_holder-is_held reg b g agree =
      let chunks = chunks_or_default (get_holder reg node) in
      let m = mem-names b chunks ∙ default_chunks reg node b ∙ sym agree in
      rw written.2 (
        same-is_held (drop_node w node (names chunks) ([], reg)).1 _ b g refl
        ∙ drop_node-is_held (names chunks) ([], reg) b g
        ∙ gone (mem b (names chunks)) (node == g) (is_held reg b g)
            (λ ng. sym (ap (λ y. is_held reg b y) ((==_iff node g).0 ng)) ∙ sym m))

  pub remove_holder-is_listed :
      (reg : BlobRegister) (b : BlobAddress) (g : XorName)
      → is_listed (remove_holder w node reg).1 b g
        ≡ (if node == g then false else is_listed reg b g)
  unfolding remove_holder rem_holder is_listed
  remove_holder-is_listed reg b g =
      let reg' = (drop_node w node (names (chunks_or_default (get_holder reg node))) ([], reg)).1 in
      rw (written.2, set_at-remove (λ (s : BTreeSet). s) node g b reg'.holders)
        (ap (λ x. if node == g then false else x)
          (same-is_listed reg reg' b g
            (drop_node-holders (names (chunks_or_default (get_holder reg node))) ([], reg))))
