-- ===== src/SectionFunds/Funds/Payments.antt =====
-- Payments and wallets in the funds of a section (src/section_funds/mod.rs).
use sn_node.Prelude.{ℕ, ◌+◌, ◌%◌, ◌≡◌, refl, ap, none, [], ◌∷◌, arith, u64_mod}
use sn_node.Prelude.BTreeMap.{BTreeMap, lookup, insert, sum_by-insert_new}
use sn_node.SectionFunds.RewardStage.{CreditAgreementProof, proof_id}
use sn_node.SectionFunds.Funds.{
  SectionFunds, keeping_node_wallets, churning, payments_of, add_payment, sum, amount_of,
}

insert_twice :
    {V : Type 0} (k : ℕ) (v : V) (m : BTreeMap V) → insert k v (insert k v m) ≡ insert k v m
insert_twice k v [] = ground arith
insert_twice k v ((j, w) ∷ m) = ground (arith, insert_twice k v m)

add_payment-payments :
    (credit : CreditAgreementProof) (funds : SectionFunds)
    → payments_of (add_payment credit funds) ≡ insert (proof_id credit) credit (payments_of funds)
unfolding add_payment
add_payment-payments credit (keeping_node_wallets wallets payments) = refl
add_payment-payments credit (churning process wallets payments) = refl

add_payment_twice :
    (credit : CreditAgreementProof) (funds : SectionFunds)
    → add_payment credit (add_payment credit funds) ≡ add_payment credit funds
unfolding add_payment
add_payment_twice credit (keeping_node_wallets wallets payments) =
    ap (keeping_node_wallets wallets) (insert_twice (proof_id credit) credit payments)
add_payment_twice credit (churning process wallets payments) =
    ap (churning process wallets) (insert_twice (proof_id credit) credit payments)

-- A payment with a new id adds its amount to the sum, and arriving again it changes nothing.
pub add_payment_once :
    (credit : CreditAgreementProof) (funds : SectionFunds)
    → lookup (proof_id credit) (payments_of funds) ≡ none
    → let funds' = add_payment credit funds in
      (sum (payments_of funds')
        ≡ (sum (payments_of funds) + credit.signed_credit.credit.amount) % u64_mod)
      × (add_payment credit funds' ≡ funds')
unfolding sum
add_payment_once credit funds new = (
  rw
      (
        add_payment-payments credit funds,
        sum_by-insert_new amount_of (proof_id credit) credit (payments_of funds) new,
      )
      (omega arith),
  add_payment_twice credit funds,
)
