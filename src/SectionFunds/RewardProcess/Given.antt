-- ===== src/SectionFunds/RewardProcess/Given.antt =====
-- The shares that messages bring into a payout (src/section_funds/reward_process.rs).
use sn_node.Prelude.{
  ◌≡◌, refl, inl, inr, ◌⊎◌, Option, some, List, [], ◌∷◌, All, CreditId, PublicKey,
}
use sn_node.SectionFunds.RewardStage.{SignatureShare, Credit, SignedCredit, signed_credit_id}
use sn_node.SectionFunds.RewardProcess.{Network}
use sn_node.SectionFunds.RewardProcess.Stages.{Received, proposed, accumulated}

-- Whether a message holds a share for a credit with this id.
abbrev pub Holding :
    {A : Type 0} → (A → CreditId) → List (A × SignatureShare) → CreditId → SignatureShare → Type 0
Holding id_of [] id sig = ⊥
Holding id_of ((a, share) ∷ rewards) id sig =
    ((id_of a ≡ id) × (share ≡ sig)) ⊎ Holding id_of rewards id sig

-- Whether we sign a credit with this id by this share.
abbrev pub Signing :
    {A : Type 0} → (A → CreditId) → (A → Option SignatureShare) → CreditId → SignatureShare → Type 0
Signing {A} id_of as_elder id sig = (a : A) × (id_of a ≡ id) × (as_elder a ≡ some sig)

module _ (our_key : PublicKey) where
  -- The shares for proposed credits that messages of our section bring, or that we sign when one
  -- arrives.
  abbrev pub Proposed : List Received → CreditId → SignatureShare → Type 0
  Proposed [] id sig = ⊥
  Proposed (proposed net proposal ∷ rs) id sig =
      ((proposal.section_key ≡ our_key)
        × (Holding (λ c. c.id) proposal.rewards id sig
            ⊎ Signing (λ c. c.id) net.sign_credit id sig))
      ⊎ Proposed rs id sig
  Proposed (accumulated net new_acc ∷ rs) id sig = Proposed rs id sig

  -- The same for the credits that are agreed on.
  abbrev pub Accumulated : List Received → CreditId → SignatureShare → Type 0
  Accumulated [] id sig = ⊥
  Accumulated (proposed net proposal ∷ rs) id sig =
      ((proposal.section_key ≡ our_key) × Signing signed_credit_id net.sign_signed_credit id sig)
      ⊎ Accumulated rs id sig
  Accumulated (accumulated net new_acc ∷ rs) id sig =
      ((new_acc.section_key ≡ our_key)
        × (Holding signed_credit_id new_acc.rewards id sig
            ⊎ Signing signed_credit_id net.sign_signed_credit id sig))
      ⊎ Accumulated rs id sig

module _ (GivenFirst GivenThen : CreditId → SignatureShare → Type 0) where
  abbrev pub SignsFirst : Network → Type 0
  SignsFirst net =
      (c : Credit) (sig : SignatureShare) → net.sign_credit c ≡ some sig → GivenFirst c.id sig

  abbrev pub SignsThen : Network → Type 0
  SignsThen net =
      (c : SignedCredit) (sig : SignatureShare)
      → net.sign_signed_credit c ≡ some sig
      → GivenThen (signed_credit_id c) sig

  -- The shares that a message brings, and those that we sign with it, are given.
  abbrev pub Brings : Received → Type 0
  Brings (proposed net proposal) =
      SignsFirst net × SignsThen net × All (λ r. GivenFirst r.0.id r.1) proposal.rewards
  Brings (accumulated net new_acc) =
      SignsThen net × All (λ r. GivenThen (signed_credit_id r.0) r.1) new_acc.rewards

  abbrev pub key_of : Received → PublicKey
  key_of (proposed net proposal) = proposal.section_key
  key_of (accumulated net new_acc) = new_acc.section_key

  rewards_known :
      {A : Type 0} (Given : CreditId → SignatureShare → Type 0) (id_of : A → CreditId)
      (rewards : List (A × SignatureShare))
      → ((id : CreditId) (sig : SignatureShare) → Holding id_of rewards id sig → Given id sig)
      → All (λ r. Given (id_of r.0) r.1) rewards
  rewards_known Given id_of [] given = tt
  rewards_known Given id_of ((a, share) ∷ rewards) given = (
    given (id_of a) share (inl (refl, refl)),
    rewards_known Given id_of rewards (λ id sig h. given id sig (inr h)),
  )

  pub messages_known :
      (our_key : PublicKey) (rs : List Received)
      → ((id : CreditId) (sig : SignatureShare) → Proposed our_key rs id sig → GivenFirst id sig)
      → ((id : CreditId) (sig : SignatureShare) → Accumulated our_key rs id sig → GivenThen id sig)
      → All (λ r. key_of r ≡ our_key → Brings r) rs
  messages_known our_key [] first then_given = tt
  messages_known our_key (proposed net proposal ∷ rs) first then_given = (
    (λ ours. (
      (λ c sig e. first c.id sig (inl (ours, inr (c, refl, e)))),
      (λ c sig e. then_given (signed_credit_id c) sig (inl (ours, (c, refl, e)))),
      rewards_known GivenFirst (λ c. c.id) proposal.rewards
          (λ id sig h. first id sig (inl (ours, inl h))),
    )),
    messages_known our_key rs (λ id sig h. first id sig (inr h))
        (λ id sig h. then_given id sig (inr h)),
  )
  messages_known our_key (accumulated net new_acc ∷ rs) first then_given = (
    (λ ours. (
      (λ c sig e. then_given (signed_credit_id c) sig (inl (ours, inr (c, refl, e)))),
      rewards_known GivenThen signed_credit_id new_acc.rewards
          (λ id sig h. then_given id sig (inl (ours, inl h))),
    )),
    messages_known our_key rs first (λ id sig h. then_given id sig (inr h)),
  )
