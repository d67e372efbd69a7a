-- ===== src/SectionFunds/RewardProcess/Signing.antt =====
-- The payouts put together from our own shares and those that messages bring
-- (src/section_funds/reward_process.rs).
use sn_node.Prelude.{
  ℕ, ◌≡◌, refl, inl, inr, Option, some, List, [], ◌∷◌, CreditId, All, Option-cases,
}
use sn_node.Prelude.BTreeMap.{BTreeMap, insert, values, insert-All}
use sn_node.Errors.{Result, ok, err, ◌>>=◌, Holds, >>=-Holds}
use sn_node.SectionFunds.RewardStage.{
  Bls, PublicKeySet, SignatureShare, Signature, bls, ed25519, bls_share, Collected, Details,
  add_sig_to, uncollected,
}
use sn_node.SectionFunds.RewardStage.Threshold.{uncollected-IsSound}
use sn_node.SectionFunds.RewardStage.Backed.{Agreed, AgreedAt, add_sig_to-Agreed}
use sn_node.SectionFunds.RewardProcess.{
  Network, public_key_set, sign, as_share, stepped, add_sig, add_sigs, by_id, add_ours,
  sign_rewards,
}

pub anything : {A : Type 0} (r : Result A) → Holds (λ _. Unit {0}) r
anything (ok a) = tt
anything (err e) = tt

module _ {A P : Type 0} (scheme : Bls) (agree : PublicKeySet → A → ℕ → P) (id_of : A → CreditId)
    (Given : CreditId → SignatureShare → Type 0) where
  abbrev pub Good : Details A P → Type 0
  Good = Agreed scheme agree id_of Given

  stepped-Agreed : (p : Result (Unit {0}) × Details A P) → Good p.1 → Holds Good (stepped p)
  unfolding stepped
  stepped-Agreed (ok u, d) g = g
  stepped-Agreed (err e, d) g = tt

  add_sig-Agreed :
      (d : Details A P) (a : A) (share : SignatureShare)
      → Given (id_of a) share
      → Good d
      → Holds Good (add_sig scheme agree id_of d a share)
  unfolding add_sig
  add_sig-Agreed d a share given g =
      stepped-Agreed (add_sig_to scheme agree (id_of a) share d)
        (add_sig_to-Agreed scheme agree id_of Given (id_of a) share d given g)

  pub add_sigs-Agreed :
      (shares : List (A × SignatureShare)) (d : Details A P)
      → All (λ r. Given (id_of r.0) r.1) shares
      → Good d
      → Holds Good (add_sigs scheme agree id_of d shares)
  unfolding add_sigs
  add_sigs-Agreed [] d given g = g
  add_sigs-Agreed ((a, share) ∷ rest) d (given, givens) g =
      >>=-Holds Good Good (add_sig scheme agree id_of d a share)
        (λ d'. add_sigs scheme agree id_of d' rest) (add_sig-Agreed d a share given g)
        (λ d' g'. add_sigs-Agreed rest d' givens g')

  by_id-Agreed :
      (pk_set : PublicKeySet) (credits : List A) (m : BTreeMap (Collected A P))
      → Good (record { pk_set = pk_set; rewards = m })
      → Good (record { pk_set = pk_set; rewards = by_id scheme agree id_of credits m })
  unfolding by_id
  by_id-Agreed pk_set [] m g = g
  by_id-Agreed pk_set (a ∷ as') m g = by_id-Agreed pk_set as' (insert (id_of a) (uncollected a) m) (
      insert-All (AgreedAt scheme agree id_of Given pk_set) (id_of a) (uncollected a) m
        (refl, uncollected-IsSound scheme pk_set (agree pk_set) (Given (id_of a)) a) g)

  -- A share that a signature is, is given.
  abbrev Signed : A → Signature → Type 0
  Signed a (bls_share share) = Given (id_of a) share
  Signed a signature = Unit {0}

  as_share-Given :
      (a : A) (signature : Signature)
      → Signed a signature
      → Holds (Given (id_of a)) (as_share signature)
  unfolding as_share
  as_share-Given a (bls_share share) given = given
  as_share-Given a (bls sig) given = tt
  as_share-Given a (ed25519 sig) given = tt

  sign-Signed :
      (as_elder : A → Option SignatureShare) (a : A)
      → ((share : SignatureShare) → as_elder a ≡ some share → Given (id_of a) share)
      → Holds (Signed a) (sign as_elder a)
  unfolding sign
  sign-Signed as_elder a given = elim (Option-cases (as_elder a)) [
    | inl e ↦ rw (Holds, e) tt
    | inr (share, e) ↦ rw (Holds, e) (given share e)
  ]

  add_ours-Agreed :
      (sign_one : A → Result Signature) (cs : List (Collected A P)) (d : Details A P)
      → ((a : A) → Holds (Signed a) (sign_one a))
      → Good d
      → Holds Good (add_ours scheme agree id_of sign_one cs d)
  unfolding add_ours
  add_ours-Agreed sign_one [] d signed g = g
  add_ours-Agreed sign_one (c ∷ cs) d signed g =
      let next : SignatureShare → Result (Details A P) = λ share.
        add_sig scheme agree id_of d c.subject share >>= λ d'.
        add_ours scheme agree id_of sign_one cs d' in
      >>=-Holds (Signed c.subject) Good (sign_one c.subject)
        (λ signature. as_share signature >>= next) (signed c.subject)
        λ signature ours.
          >>=-Holds (Given (id_of c.subject)) Good (as_share signature) next
            (as_share-Given c.subject signature ours)
            λ share given.
              >>=-Holds Good Good (add_sig scheme agree id_of d c.subject share)
                (λ d'. add_ours scheme agree id_of sign_one cs d')
                (add_sig-Agreed d c.subject share given g)
                λ d' g'. add_ours-Agreed sign_one cs d' signed g'

  pub sign_rewards-Agreed :
      (net : Network) (as_elder : A → Option SignatureShare) (credits : List A)
      → ((a : A) (share : SignatureShare) → as_elder a ≡ some share → Given (id_of a) share)
      → Holds Good (sign_rewards scheme agree id_of net as_elder credits)
  unfolding sign_rewards
  sign_rewards-Agreed net as_elder credits signs =
      let rewards = by_id scheme agree id_of credits [] in
      let start : PublicKeySet → Details A P =
        λ pk_set. record { pk_set = pk_set; rewards = rewards } in
      >>=-Holds (λ _. Unit {0}) Good (public_key_set net)
        (λ pk_set. add_ours scheme agree id_of (sign as_elder) (values rewards) (start pk_set))
        (anything (public_key_set net))
        λ pk_set _.
          add_ours-Agreed (sign as_elder) (values rewards) (start pk_set)
            (λ a. sign-Signed as_elder a (signs a)) (by_id-Agreed pk_set credits [] tt)
