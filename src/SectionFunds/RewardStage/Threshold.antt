-- ===== src/SectionFunds/RewardStage/Threshold.antt =====
-- The shares behind an agreement on a credit (src/section_funds/reward_stage.rs).
use sn_node.Prelude.{
  ℕ, ◌+◌, ◌≤◌, ◌≡◌, All, sym, refl, inl, inr, true, false, Option, none, some, length, arith, leb,
  Bool-cases, Option-cases,
}
use sn_node.Prelude.BTreeMap.{
  BTreeMap, insert, IsSorted, insert-IsSorted, lookup-insert_self, insert-All,
}
use sn_node.Errors.{ok}
use sn_node.SectionFunds.RewardStage.{
  PublicKeySet, Share, SignatureShare, Bls, Collected, uncollected, combined, check, add_share,
  collect,
}

-- What stands behind an agreement `p`: more shares than the threshold, each given and under an index
-- of its own, that combine to the signature that `p` is made with.
pub record Behind {P : Type 0} (scheme : Bls) (pk_set : PublicKeySet)
    (given : SignatureShare → Type 0) (make : ℕ → P) (p : P) : Type 0 where
  pub shares : BTreeMap Share
  pub distinct : IsSorted shares
  pub all_given : All (λ e. given (record { index = e.0; share = e.1 })) shares
  pub enough : 1 + scheme.threshold pk_set ≤ length shares
  pub signature : ℕ
  pub combined : scheme.combine_signatures pk_set shares ≡ some signature
  pub made : p ≡ make signature

module _ {A P : Type 0} (scheme : Bls) (pk_set : PublicKeySet) (agree : A → ℕ → P)
    (given : SignatureShare → Type 0) where
  -- Each index counts once, each share was given, and an agreement has its shares behind it.
  pub record IsSound (c : Collected A P) : Type 0 where
    pub sorted : IsSorted c.signatures
    pub all_given : All (λ e. given (record { index = e.0; share = e.1 })) c.signatures
    pub backed :
        (p : P) → c.pending_agreement ≡ some p → Behind scheme pk_set given (agree c.subject) p

  pub uncollected-IsSound : (a : A) → IsSound (uncollected a)
  uncollected-IsSound a = record { sorted = tt; all_given = tt; backed = λ p e. cc }

  combined-Sound :
      (o : Option ℕ) (c : Collected A P)
      → o ≡ scheme.combine_signatures pk_set c.signatures
      → 1 + scheme.threshold pk_set ≤ length c.signatures
      → IsSound c
      → IsSound (combined (agree c.subject) o c).1
  unfolding combined
  combined-Sound none c e h s = s
  combined-Sound (some x) c e h s = record {
    sorted = s.sorted;
    all_given = s.all_given;
    backed = λ p made. record {
      shares = c.signatures;
      distinct = s.sorted;
      all_given = s.all_given;
      enough = h;
      signature = x;
      combined = sym e;
      made = cc;
    };
  }

  add_share-Sound :
      (sig : SignatureShare) (c : Collected A P)
      → given sig
      → IsSound c
      → IsSound (add_share scheme pk_set (agree c.subject) sig c).1
  unfolding add_share
  add_share-Sound sig c was_given s =
      let sigs = insert sig.index sig.share c.signatures in
      let more : IsSound (record c { signatures = sigs }) = record {
        sorted = insert-IsSorted sig.index sig.share c.signatures s.sorted;
        all_given =
            insert-All (λ e. given (record { index = e.0; share = e.1 })) sig.index sig.share
              c.signatures was_given s.all_given;
        backed = s.backed;
      } in
      elim (Bool-cases (leb (1 + scheme.threshold pk_set) (length sigs))) [
        | inl e ↦ rw e (
            combined-Sound (scheme.combine_signatures pk_set sigs) (record c { signatures = sigs })
              refl (ground (arith, e)) more)
        | inr e ↦ rw e more
      ]

  -- A share that arrives, new or old, alone or completing an agreement, leaves it so.
  pub collect-Sound :
      (sig : SignatureShare) (c : Collected A P)
      → given sig
      → IsSound c
      → IsSound (collect scheme pk_set (agree c.subject) sig c).1
  unfolding collect
  collect-Sound sig c was_given s = elim (Option-cases (check sig c.signatures)) [
    | inl e ↦ rw e (add_share-Sound sig c was_given s)
    | inr (true, e) ↦ rw e s
    | inr (false, e) ↦ rw e (add_share-Sound sig c was_given s)
  ]

module _ {A P : Type 0} (scheme : Bls) (pk_set : PublicKeySet) (agree : A → ℕ → P) where
  combined-subject :
      (o : Option ℕ) (c : Collected A P) → (combined (agree c.subject) o c).1.subject ≡ c.subject
  unfolding combined
  combined-subject none c = refl
  combined-subject (some sig) c = refl

  add_share-subject :
      (sig : SignatureShare) (c : Collected A P)
      → (add_share scheme pk_set (agree c.subject) sig c).1.subject ≡ c.subject
  unfolding add_share
  add_share-subject sig c =
      let sigs = insert sig.index sig.share c.signatures in
      elim (Bool-cases (leb (1 + scheme.threshold pk_set) (length sigs))) [
        | inl e ↦ rw e (
            combined-subject (scheme.combine_signatures pk_set sigs)
              (record c { signatures = sigs }))
        | inr e ↦ rw e refl
      ]

  pub collect-subject :
      (sig : SignatureShare) (c : Collected A P)
      → (collect scheme pk_set (agree c.subject) sig c).1.subject ≡ c.subject
  unfolding collect
  collect-subject sig c = elim (Option-cases (check sig c.signatures)) [
    | inl e ↦ rw e (add_share-subject sig c)
    | inr (true, e) ↦ rw e refl
    | inr (false, e) ↦ rw e (add_share-subject sig c)
  ]

  pub add_share-signatures :
      (sig : SignatureShare) (c : Collected A P)
      → (add_share scheme pk_set (agree c.subject) sig c).1.signatures
        ≡ insert sig.index sig.share c.signatures
  unfolding add_share
  add_share-signatures sig c = ground arith

  -- Whichever way a share is taken in, it stays under its index.
  kept :
      (sig : SignatureShare) (c : Collected A P)
      → check sig (add_share scheme pk_set (agree c.subject) sig c).1.signatures ≡ some true
  unfolding check
  kept sig c =
      rw (add_share-signatures sig c, lookup-insert_self sig.index sig.share c.signatures)
        (ground arith)

  -- The same share a second time succeeds and changes nothing.
  pub collect_again :
      (sig : SignatureShare) (c : Collected A P)
      → let c' = (collect scheme pk_set (agree c.subject) sig c).1 in
        collect scheme pk_set (agree c'.subject) sig c' ≡ (ok tt, c')
  unfolding collect
  collect_again sig c = elim (Option-cases (check sig c.signatures)) [
    | inl e ↦ rw (e, kept sig c)
    | inr (true, e) ↦ rw (e, e)
    | inr (false, e) ↦ rw (e, kept sig c)
  ]
