-- ===== src/Metadata/BlobRegister/Leaving.antt =====
-- What src/metadata/blob_register.rs keeps of a chunk when a node leaves.
use sn_node.Prelude.{
  ◌≡◌, refl, sym, ◌∙◌, ap, inl, inr, Bool, true, false, Option, none, some, List, [], ◌∷◌, ◌==◌,
  ==_iff, if◌then◌else◌, arith, XorName, Bool-cases,
}
use sn_node.Prelude.BTreeMap.{
  BTreeMap, BTreeSet, lookup, remove, names, is_empty, lookup-insert, lookup-remove,
}
use sn_node.Errors.{ok, Result-cases}
use sn_node.NodeOps.{BlobAddress}
use sn_node.Metadata.BlobRegister.{
  ChunkMetadata, BlobRegister, Writes, get_holder, get_metadata_for, chunks_or_default,
  set_metadata, rem_holder, rem_metadata, drop_holder, drop_known, drop_node, found_metadata,
  remove_holder,
}
use sn_node.Metadata.BlobRegister.Tables.{is_held, is_listed, Written}
use sn_node.Metadata.BlobRegister.Removal.{remove_holder-is_held, remove_holder-is_listed}

-- What is found of a chunk was found of it before, with the same owner.
Keeps : BlobRegister → BlobRegister → Type 0
Keeps reg reg' =
    (b : BlobAddress) (m' : ChunkMetadata)
    → get_metadata_for reg' b ≡ ok m'
    → (m : ChunkMetadata) × (get_metadata_for reg b ≡ ok m) × (m'.owner ≡ m.owner)

module _ (w : Writes) (written : Written w) (node : XorName) where
  found_before :
      (o : Option ChunkMetadata) (hit : Bool) (metadata m' : ChunkMetadata) (left : BTreeSet)
      → found_metadata (if hit then some (record metadata { holders = left }) else o) ≡ ok m'
      → (hit ≡ true → found_metadata o ≡ ok metadata)
      → (m : ChunkMetadata) × (found_metadata o ≡ ok m) × (m'.owner ≡ m.owner)
  unfolding found_metadata
  found_before o true metadata m' left e known = (metadata, known refl, ground arith)
  found_before o false metadata m' left e known = (m', e, refl)

  found_removed :
      (o : Option ChunkMetadata) (hit : Bool) (m' : ChunkMetadata)
      → found_metadata (if hit then none else o) ≡ ok m'
      → (m : ChunkMetadata) × (found_metadata o ≡ ok m) × (m'.owner ≡ m.owner)
  unfolding found_metadata
  found_removed o true m' e = cc
  found_removed o false m' e = (m', e, refl)

  drop_holder-Keeps :
      (a : BlobAddress) (metadata : ChunkMetadata) (reg : BlobRegister)
      → get_metadata_for reg a ≡ ok metadata
      → Keeps reg (drop_holder w a node metadata reg)
  unfolding Keeps drop_holder set_metadata rem_metadata get_metadata_for
  drop_holder-Keeps a metadata reg found b m' =
      let left = remove node metadata.holders in
      elim (Bool-cases (is_empty left)) [
        | inl e ↦
            rw (e, written.0 a node, lookup-remove a b reg.metadata)
              (λ h. found_removed (lookup b reg.metadata) (a == b) m' h)
        | inr e ↦
            rw
              (
                e,
                written.0 a node,
                lookup-insert a b (record metadata { holders = left }) reg.metadata,
              )
              (λ h. found_before (lookup b reg.metadata) (a == b) metadata m' left h (λ ab.
                ap (λ y. found_metadata (lookup y reg.metadata)) (sym ((==_iff a b).0 ab)) ∙ found))
      ]

  drop_known-Keeps :
      (a : BlobAddress) (p : BTreeMap BTreeSet × BlobRegister)
      → Keeps p.1 (drop_known w node a (get_metadata_for p.1 a) p).1
  unfolding drop_known
  drop_known-Keeps a (left, reg) = elim (Result-cases (get_metadata_for reg a)) [
    | inl (metadata, e) ↦ rw e (drop_holder-Keeps a metadata reg e)
    | inr (x, e) ↦ rw e (unfold Keeps in λ b m' h. (m', h, refl))
  ]

  drop_node-Keeps :
      (addresses : List BlobAddress) (p : BTreeMap BTreeSet × BlobRegister)
      → Keeps p.1 (drop_node w node addresses p).1
  unfolding drop_node Keeps
  drop_node-Keeps [] p b m' h = (m', h, refl)
  drop_node-Keeps (a ∷ as') p b m' h =
      let (m, found, same) =
        drop_node-Keeps as' (drop_known w node a (get_metadata_for p.1 a) p) b m' h in
      let (m₀, found₀, same₀) = drop_known-Keeps a p b m found in (m₀, found₀, same ∙ same₀)

  remove_holder-Keeps : (reg : BlobRegister) → Keeps reg (remove_holder w node reg).1
  unfolding remove_holder rem_holder get_metadata_for Keeps
  remove_holder-Keeps reg b m' =
      rw written.2
        (drop_node-Keeps (names (chunks_or_default (get_holder reg node))) ([], reg) b m')

  -- If the databases can be written and agree on whether the leaving node holds the chunk, it is no
  -- holder of the chunk afterwards in either of them, and the chunk's other holders stay. And where
  -- the chunk is still found, it was found before and has the owner that it had.
  pub remove_holder_takes_node :
      (reg : BlobRegister) (b : BlobAddress) (g : XorName)
      → is_held reg b node ≡ is_listed reg b node
      → let reg' = (remove_holder w node reg).1 in
        (is_held reg' b g ≡ (if node == g then false else is_held reg b g))
        × (is_listed reg' b g ≡ (if node == g then false else is_listed reg b g))
        × ((m' : ChunkMetadata)
            → get_metadata_for reg' b ≡ ok m'
            → (m : ChunkMetadata) × (get_metadata_for reg b ≡ ok m) × (m'.owner ≡ m.owner))
  unfolding Keeps
  remove_holder_takes_node reg b g agree = (
    remove_holder-is_held w written node reg b g agree,
    remove_holder-is_listed w written node reg b g,
    remove_holder-Keeps reg b,
  )
