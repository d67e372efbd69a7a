-- ===== src/SectionFunds/RewardStage/Backed.antt =====
-- What stands behind each credit of a payout in the making, and behind the agreements that are
-- taken out of it (src/section_funds/reward_stage.rs).
use sn_node.Prelude.{
  ℕ, ◌≡◌, ap, sym, ◌∙◌, inl, inr, Bool, true, false, none, some, [], ◌∷◌, length, All, CreditId,
  ◌==◌, if◌then◌else◌, subst, Option-cases,
}
use sn_node.Prelude.BTreeMap.{BTreeMap, lookup, insert, insert-All, lookup-All}
use sn_node.SectionFunds.RewardStage.{
  PublicKeySet, SignatureShare, Bls, Collected, Details, collect, add_sig_to, agreements, pending,
}
use sn_node.SectionFunds.RewardStage.Threshold.{Behind, IsSound, collect-Sound, collect-subject}

if-some : {A : Type 0} (b : Bool) (x y : A) → (if b then some x else none) ≡ some y → x ≡ y
if-some true x y e = cc
if-some false x y e = cc

module _ {A P : Type 0} (scheme : Bls) (agree : PublicKeySet → A → ℕ → P) (id_of : A → CreditId)
    (Given : CreditId → SignatureShare → Type 0) where
  -- `p` is the agreement on a credit that shares were given for, under the id of the credit.
  pub record Backed (pk_set : PublicKeySet) (p : P) : Type 0 where
    pub credit : A
    pub behind : Behind scheme pk_set (Given (id_of credit)) (agree pk_set credit) p

  -- Each credit of a payout is filed under its id and has what `IsSound` asks.
  abbrev pub AgreedAt : PublicKeySet → CreditId × Collected A P → Type 0
  AgreedAt pk_set (id, c) =
      (id_of c.subject ≡ id) × IsSound scheme pk_set (agree pk_set) (Given id) c

  abbrev pub Agreed : Details A P → Type 0
  Agreed d = All (AgreedAt d.pk_set) d.rewards

  pub add_sig_to-Agreed :
      (id : CreditId) (sig : SignatureShare) (d : Details A P)
      → Given id sig
      → Agreed d
      → Agreed (add_sig_to scheme agree id sig d).1
  unfolding add_sig_to
  add_sig_to-Agreed id sig d was_given g = elim (Option-cases (lookup id d.rewards)) [
    | inl e ↦ rw e g
    | inr (c, e) ↦
        let (named, sound) = lookup-All (AgreedAt d.pk_set) id c d.rewards g e in
        rw e (
          insert-All (AgreedAt d.pk_set) id
            (collect scheme d.pk_set (agree d.pk_set c.subject) sig c).1 d.rewards
            (
              ap id_of (collect-subject scheme d.pk_set (agree d.pk_set) sig c) ∙ named,
              collect-Sound scheme d.pk_set (agree d.pk_set) (Given id) sig c was_given sound,
            )
            g)
  ]

  sound-Backed :
      (pk_set : PublicKeySet) (id : CreditId) (c : Collected A P) (p : P)
      → AgreedAt pk_set (id, c)
      → c.pending_agreement ≡ some p
      → Backed pk_set p
  sound-Backed pk_set id c p (named, sound) e = record {
    credit = c.subject;
    behind =
        subst (λ i. Behind scheme pk_set (Given i) (agree pk_set c.subject) p) (sym named)
          (sound.backed p e);
  }

  agreements-Backed :
      (key_of : P → CreditId) (pk_set : PublicKeySet) (rewards : BTreeMap (Collected A P))
      (out : BTreeMap P)
      → All (AgreedAt pk_set) rewards
      → All (λ e. Backed pk_set e.1) out
      → All (λ e. Backed pk_set e.1) (agreements key_of rewards out)
  unfolding agreements
  agreements-Backed key_of pk_set [] out s g = g
  agreements-Backed key_of pk_set ((i, c) ∷ rewards) out (s, ss) g =
      elim (Option-cases c.pending_agreement) [
        | inl e ↦ rw e (agreements-Backed key_of pk_set rewards out ss g)
        | inr (p, e) ↦ rw e (
            agreements-Backed key_of pk_set rewards (insert (key_of p) p out) ss (
              insert-All (λ e. Backed pk_set e.1) (key_of p) p out (sound-Backed pk_set i c p s e)
                g))
      ]

  pub pending-Backed :
      (key_of : P → CreditId) (d : Details A P) (ps : BTreeMap P)
      → Agreed d
      → pending key_of d ≡ some ps
      → All (λ e. Backed d.pk_set e.1) ps
  unfolding pending
  pending-Backed key_of d ps g e =
      subst (All (λ e. Backed d.pk_set e.1))
        (if-some (length (agreements key_of d.rewards []) == length d.rewards)
          (agreements key_of d.rewards []) ps e)
        (agreements-Backed key_of d.pk_set d.rewards [] g tt)
