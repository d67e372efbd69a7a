-- ===== src/SectionFunds/RewardStage/Completion.antt =====
-- When the shares for a credit make an agreement (src/section_funds/reward_stage.rs).
use sn_node.Prelude.{
  ℕ, ◌+◌, ◌≤◌, ◌<◌, ◌≡◌, ◌≢◌, refl, sym, ap, ◌∙◌, inl, inr, Bool, true, false, Option, none, some,
  List, [], ◌∷◌, length, leb, arith, Bool-cases, Option-cases,
}
use sn_node.Prelude.BTreeMap.{
  BTreeMap, BTreeSet, insert, lookup, Above, IsSorted, insert-IsSorted, length-insert-ge,
}
use sn_node.SectionFunds.RewardStage.{
  PublicKeySet, Share, SignatureShare, Bls, Collected, uncollected, combined, check, check_found,
  add_share, collect,
}
use sn_node.SectionFunds.RewardStage.Threshold.{add_share-signatures}

-- The indices under which the shares were given, each once, after those of a set.
abbrev pub add_indices : List SignatureShare → BTreeSet → BTreeSet
add_indices [] indices = indices
add_indices (sig ∷ sigs) indices = add_indices sigs (insert sig.index tt indices)

abbrev indices_of : BTreeMap Share → BTreeSet
indices_of [] = []
indices_of ((index, share) ∷ signatures) = (index, tt) ∷ indices_of signatures

length-indices_of : (m : BTreeMap Share) → length (indices_of m) ≡ length m
length-indices_of [] = refl
length-indices_of (x ∷ m) = ground (arith, length-indices_of m)

indices_of-insert :
    (i : ℕ) (share : Share) (m : BTreeMap Share)
    → indices_of (insert i share m) ≡ insert i tt (indices_of m)
indices_of-insert i share [] = refl
indices_of-insert i share ((j, x) ∷ m) = ground (arith, indices_of-insert i share m)

lookup-Above :
    (i j : ℕ) (share : Share) (m : BTreeMap Share) → Above j m → lookup i m ≡ some share → j < i
lookup-Above i j share [] a e = cc
lookup-Above i j share ((k, x) ∷ m) a e = ground (arith, lookup-Above i j share m a.1)

-- An index that is there already is not counted again.
insert_known :
    (i : ℕ) (share : Share) (m : BTreeMap Share)
    → IsSorted m
    → lookup i m ≡ some share
    → insert i tt (indices_of m) ≡ indices_of m
insert_known i share [] s e = cc
insert_known i share ((j, x) ∷ m) s e =
    ground (arith, insert_known i share m s.1, lookup-Above i j share m s.0)

abbrev pub is_agreed : {P : Type 0} → Option P → Bool
is_agreed none = false
is_agreed (some p) = true

module _ {A P : Type 0} (scheme : Bls) (pk_set : PublicKeySet) (agree : A → ℕ → P) where
  -- The shares of several elders, one after the other.
  unfoldable pub collect_all : List SignatureShare → Collected A P → Collected A P
  collect_all [] c = c
  collect_all (sig ∷ sigs) c = collect_all sigs (collect scheme pk_set (agree c.subject) sig c).1

  abbrev Settled : Collected A P → Type 0
  Settled c =
      is_agreed c.pending_agreement ≡ leb (1 + scheme.threshold pk_set) (length c.signatures)

  module _
      (combines : (sigs : BTreeMap Share)
        → 1 + scheme.threshold pk_set ≤ length sigs
        → scheme.combine_signatures pk_set sigs ≢ none) where
    combined-Settled :
        (o : Option ℕ) (c : Collected A P)
        → o ≢ none
        → is_agreed (combined (agree c.subject) o c).1.pending_agreement ≡ true
    unfolding combined
    combined-Settled none c ne = absurd (ne refl)
    combined-Settled (some sig) c ne = refl

    combined-signatures :
        (o : Option ℕ) (c : Collected A P)
        → (combined (agree c.subject) o c).1.signatures ≡ c.signatures
    unfolding combined
    combined-signatures none c = refl
    combined-signatures (some sig) c = refl

    add_share-Settled :
        (sig : SignatureShare) (c : Collected A P)
        → Settled c
        → Settled (add_share scheme pk_set (agree c.subject) sig c).1
    unfolding add_share
    add_share-Settled sig c s =
        let sigs = insert sig.index sig.share c.signatures in
        let c' : Collected A P = record c { signatures = sigs } in
        let o = scheme.combine_signatures pk_set sigs in
        let grows = length-insert-ge sig.index sig.share c.signatures in
        elim (Bool-cases (leb (1 + scheme.threshold pk_set) (length sigs))) [
          | inl e ↦
              rw (e, combined-signatures o c', e)
                (combined-Settled o c' (combines sigs (ground (arith, e))))
          | inr e ↦ rw e (ground (arith, s, grows, e))
        ]

    collect-Settled :
        (sig : SignatureShare) (c : Collected A P)
        → Settled c
        → Settled (collect scheme pk_set (agree c.subject) sig c).1
    unfolding collect
    collect-Settled sig c s = elim (Option-cases (check sig c.signatures)) [
      | inl e ↦ rw e (add_share-Settled sig c s)
      | inr (true, e) ↦ rw e s
      | inr (false, e) ↦ rw e (add_share-Settled sig c s)
    ]

    collected-Settled :
        (sigs : List SignatureShare) (c : Collected A P) → Settled c → Settled (collect_all sigs c)
    unfolding collect_all
    collected-Settled [] c s = s
    collected-Settled (sig ∷ sigs) c s =
        collected-Settled sigs (collect scheme pk_set (agree c.subject) sig c).1
          (collect-Settled sig c s)

  check_known :
      (sig : SignatureShare) (m : BTreeMap Share)
      → check sig m ≡ some true
      → lookup sig.index m ≡ some sig.share
  unfolding check check_found
  check_known sig m e = elim (Option-cases (lookup sig.index m)) [
    | inl missing ↦ ground arith
    | inr (share, found) ↦ ground (arith, found)
  ]

  abbrev Counts : BTreeSet → Collected A P → Type 0
  Counts indices c = IsSorted c.signatures × (indices_of c.signatures ≡ indices)

  add_share-Counts :
      (sig : SignatureShare) (indices : BTreeSet) (c : Collected A P)
      → Counts indices c
      → Counts (insert sig.index tt indices) (add_share scheme pk_set (agree c.subject) sig c).1
  add_share-Counts sig indices c (sorted, same) =
      rw (add_share-signatures scheme pk_set agree sig c) (
        insert-IsSorted sig.index sig.share c.signatures sorted,
        indices_of-insert sig.index sig.share c.signatures ∙ ap (insert sig.index tt) same,
      )

  collect-Counts :
      (sig : SignatureShare) (indices : BTreeSet) (c : Collected A P)
      → Counts indices c
      → Counts (insert sig.index tt indices) (collect scheme pk_set (agree c.subject) sig c).1
  unfolding collect
  collect-Counts sig indices c (sorted, same) = elim (Option-cases (check sig c.signatures)) [
    | inl e ↦ rw e (add_share-Counts sig indices c (sorted, same))
    | inr (false, e) ↦ rw e (add_share-Counts sig indices c (sorted, same))
    | inr (true, e) ↦ rw e (
      sorted,
      sym (insert_known sig.index sig.share c.signatures sorted (check_known sig c.signatures e))
          ∙ ap (insert sig.index tt) same,
    )
  ]

  collected-Counts :
      (sigs : List SignatureShare) (indices : BTreeSet) (c : Collected A P)
      → Counts indices c
      → Counts (add_indices sigs indices) (collect_all sigs c)
  unfolding collect_all
  collected-Counts [] indices c s = s
  collected-Counts (sig ∷ sigs) indices c s =
      collected-Counts sigs (insert sig.index tt indices)
        (collect scheme pk_set (agree c.subject) sig c).1 (collect-Counts sig indices c s)

  -- Where more shares than the threshold always combine: a credit gets an agreement if and only if
  -- the shares that were taken in for it, in whatever order and however often, were given under more
  -- different indices than the threshold.
  pub collect_all-is_agreed :
      (combines : (sigs : BTreeMap Share)
        → 1 + scheme.threshold pk_set ≤ length sigs
        → scheme.combine_signatures pk_set sigs ≢ none)
      (a : A) (sigs : List SignatureShare)
      → is_agreed (collect_all sigs (uncollected a)).pending_agreement
        ≡ leb (1 + scheme.threshold pk_set) (length (add_indices sigs []))
  collect_all-is_agreed combines a sigs =
      let c = collect_all sigs (uncollected a) in
      let (sorted, same) = collected-Counts sigs [] (uncollected a) (tt, refl) in
      collected-Settled combines sigs (uncollected a) (ground arith)
      ∙ ap (leb (1 + scheme.threshold pk_set))
          (sym (length-indices_of c.signatures) ∙ ap length same)
