-- ===== src/SectionFunds/RewardStage.antt =====
-- src/section_funds/reward_stage.rs: the shares that elders give for the credits of a payout, first
-- on each proposed credit and then on each agreed one. The two halves of the file differ in what is
-- signed and what the signature makes of it, so `Collected` and `add_sig_to` are written once.
-- Keys, shares and signatures are opaque numbers; `Bls` is the threshold scheme of another crate.
pub mod Threshold
pub mod Backed
pub mod Completion
mod Tests
use sn_node.Prelude.{
  ℕ, ◌+◌, Bool, true, false, Option, none, some, List, [], ◌∷◌, length, leb, ◌==◌, if◌then◌else◌,
  PublicKey, Token, CreditId,
}
use sn_node.Prelude.BTreeMap.{BTreeMap, lookup, insert}
use sn_node.Errors.{Error, Result, ok, err, logic, could_not_combine_signatures}

abbrev pub PublicKeySet : Type 0
PublicKeySet = ℕ

abbrev pub Share : Type 0
Share = ℕ

pub record SignatureShare : Type 0 where
  pub index : ℕ
  pub share : Share

pub data Signature : Type 0 where
  bls ed25519 : ℕ → Signature
  bls_share : SignatureShare → Signature

pub record Bls : Type 0 where
  pub threshold : PublicKeySet → ℕ
  pub combine_signatures : PublicKeySet → BTreeMap Share → Option ℕ

pub record Credit : Type 0 where
  pub id : CreditId
  pub amount : Token
  pub recipient : PublicKey
  pub msg : ℕ

pub record SignedCredit : Type 0 where
  pub credit : Credit
  pub actor_signature : Signature

pub record CreditAgreementProof : Type 0 where
  pub signed_credit : SignedCredit
  pub debiting_replicas_sig : Signature
  pub debiting_replicas_keys : PublicKeySet

abbrev pub signed_credit_id : SignedCredit → CreditId
signed_credit_id c = c.credit.id

abbrev pub proof_id : CreditAgreementProof → CreditId
proof_id p = p.signed_credit.credit.id

-- A credit of type `A` that shares are collected for, and the agreement of type `P` that they make.
pub record Collected (A P : Type 0) : Type 0 where
  pub subject : A
  pub signatures : BTreeMap Share
  pub pending_agreement : Option P

abbrev pub CreditProposal : Type 0
CreditProposal = Collected Credit SignedCredit

abbrev pub CreditAccumulation : Type 0
CreditAccumulation = Collected SignedCredit CreditAgreementProof

pub record Details (A P : Type 0) : Type 0 where
  pub pk_set : PublicKeySet
  pub rewards : BTreeMap (Collected A P)

abbrev pub RewardProposalDetails : Type 0
RewardProposalDetails = Details Credit SignedCredit

abbrev pub RewardAccumulationDetails : Type 0
RewardAccumulationDetails = Details SignedCredit CreditAgreementProof

pub data RewardStage : Type 0 where
  no_stage awaiting_threshold : RewardStage
  proposing_credits : RewardProposalDetails → RewardStage
  accumulating_credits : RewardAccumulationDetails → RewardStage
  completed : BTreeMap CreditAgreementProof → RewardStage

check_found : Share → Option Share → Option Bool
check_found share none = none
check_found share (some known) = if known == share then some true else some false

-- Whether this share is there already, or another one under its index.
unfoldable pub check : SignatureShare → BTreeMap Share → Option Bool
unfolding check_found
check sig signatures = check_found sig.share (lookup sig.index signatures)

module _ {A P : Type 0} where
  -- The collected credit, before any share.
  abbrev pub uncollected : A → Collected A P
  uncollected a = record { subject = a; signatures = []; pending_agreement = none }

  combined : (ℕ → P) → Option ℕ → Collected A P → Result (Unit {0}) × Collected A P
  combined agree none c = (err could_not_combine_signatures, c)
  combined agree (some sig) c = (ok tt, record c { pending_agreement = some (agree sig) })

  -- A new share is kept; from threshold + 1 shares on they are combined.
  unfoldable pub add_share :
      Bls
      → PublicKeySet
      → (ℕ → P)
      → SignatureShare
      → Collected A P
      → Result (Unit {0}) × Collected A P
  unfolding combined
  add_share scheme pk_set agree sig c =
      let signatures = insert sig.index sig.share c.signatures in
      let c' : Collected A P = record c { signatures = signatures } in
      if leb (1 + scheme.threshold pk_set) (length signatures)
      then combined agree (scheme.combine_signatures pk_set signatures) c'
      else (ok tt, c')

  collect_checked :
      Bls
      → PublicKeySet
      → (ℕ → P)
      → SignatureShare
      → Collected A P
      → Option Bool
      → Result (Unit {0}) × Collected A P
  collect_checked scheme pk_set agree sig c (some true) = (ok tt, c)
  collect_checked scheme pk_set agree sig c (some false) = add_share scheme pk_set agree sig c
  collect_checked scheme pk_set agree sig c none = add_share scheme pk_set agree sig c

  -- A share that is there already changes nothing.
  unfoldable pub collect :
      Bls
      → PublicKeySet
      → (ℕ → P)
      → SignatureShare
      → Collected A P
      → Result (Unit {0}) × Collected A P
  unfolding collect_checked
  collect scheme pk_set agree sig c =
      collect_checked scheme pk_set agree sig c (check sig c.signatures)

  put_reward :
      Details A P → CreditId → Result (Unit {0}) × Collected A P → Result (Unit {0}) × Details A P
  put_reward d id (r, c) = (r, record d { rewards = insert id c d.rewards })

  add_sig_found :
      Bls
      → (PublicKeySet → A → ℕ → P)
      → CreditId
      → SignatureShare
      → Details A P
      → Option (Collected A P)
      → Result (Unit {0}) × Details A P
  unfolding put_reward
  add_sig_found scheme agree id sig d none = (err logic, d)
  add_sig_found scheme agree id sig d (some c) =
      put_reward d id (collect scheme d.pk_set (agree d.pk_set c.subject) sig c)

  unfoldable pub add_sig_to :
      Bls
      → (PublicKeySet → A → ℕ → P)
      → CreditId
      → SignatureShare
      → Details A P
      → Result (Unit {0}) × Details A P
  unfolding add_sig_found
  add_sig_to scheme agree id sig d = add_sig_found scheme agree id sig d (lookup id d.rewards)

  -- The agreements that are there, by their own ids.
  agreements : (P → CreditId) → BTreeMap (Collected A P) → BTreeMap P → BTreeMap P
  agreements id_of [] out = out
  agreements id_of ((_, c) ∷ rewards) out =
      let rest = agreements id_of rewards in
      elim c.pending_agreement [ none ↦ rest out | some p ↦ rest (insert (id_of p) p out) ]

  -- All of them, once every credit has one.
  unfoldable pub pending : (P → CreditId) → Details A P → Option (BTreeMap P)
  unfolding agreements
  pending id_of d =
      let rewards = agreements id_of d.rewards [] in
      if length rewards == length d.rewards then some rewards else none

  -- Our own share for each credit that has one.
  own_shares : ℕ → BTreeMap (Collected A P) → List (A × SignatureShare)
  own_shares index [] = []
  own_shares index ((_, c) ∷ rewards) =
      let rest = own_shares index rewards in
      elim (lookup index c.signatures) [
        | none ↦ rest
        | some share ↦ (c.subject, record { index = index; share = share }) ∷ rest
      ]

-- The payload of a message to the other elders.
pub record Shares (A : Type 0) : Type 0 where
  pub section_key : PublicKey
  pub rewards : List (A × SignatureShare)

abbrev pub RewardProposal : Type 0
RewardProposal = Shares Credit

abbrev pub RewardAccumulation : Type 0
RewardAccumulation = Shares SignedCredit

unfoldable pub get_shares : {A P : Type 0} → Details A P → PublicKey → ℕ → Shares A
unfolding own_shares
get_shares d section_key index = record {
  section_key = section_key;
  rewards = own_shares index d.rewards;
}

abbrev pub agree_proposal : PublicKeySet → Credit → ℕ → SignedCredit
agree_proposal pk_set credit sig = record { credit = credit; actor_signature = bls sig }

abbrev pub agree_accumulation : PublicKeySet → SignedCredit → ℕ → CreditAgreementProof
agree_accumulation pk_set signed sig = record {
  signed_credit = signed;
  debiting_replicas_sig = bls sig;
  debiting_replicas_keys = pk_set;
}
