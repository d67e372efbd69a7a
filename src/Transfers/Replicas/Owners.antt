-- ===== src/Transfers/Replicas/Owners.antt =====
-- Histories of several wallets, and which of their events are whose (src/transfers/replicas.rs).
use mathlib.Core.List.{append-nil}
use sn_node.Prelude.{
  ℕ, ◌≡◌, refl, ◌∙◌, ap, inl, inr, Bool, true, false, some, List, [], ◌∷◌, ◌++◌, ◌==◌, ==_iff,
  arith, PublicKey, Bool-cases, All, map, subst,
}
use sn_node.Prelude.BTreeMap.{BTreeMap, lookup, IsSorted, Above}
use sn_node.SectionFunds.RewardStage.{CreditAgreementProof}
use sn_node.Transfers.Events.{
  TransferAgreementProof, recipient_of, ReplicaEvent, transfer_registered, transfer_propagated,
  ActorHistory,
}
use sn_node.Transfers.Replicas.Queries.{all_owned, valid_owners, events_of_history}
use sn_node.Transfers.Replicas.Filing.{events_for}
use sn_node.Transfers.Replicas.{owner_of}

unfoldable pub events_of_wallets : BTreeMap ActorHistory → List ReplicaEvent
events_of_wallets [] = []
events_of_wallets ((_, h) ∷ ws) = events_of_history h ++ events_of_wallets ws

abbrev pub Owned : BTreeMap ActorHistory → Type 0
Owned = All (λ e. valid_owners e.0 e.1 ≡ true)

module _ (j : PublicKey) where
  pub events_for-append :
      (es fs : List ReplicaEvent) → events_for j (es ++ fs) ≡ events_for j es ++ events_for j fs
  unfolding events_for
  events_for-append [] fs = refl
  events_for-append (e ∷ es) fs = elim (Bool-cases (owner_of e == j)) [
    | inl here ↦ rw here (ap (λ l. e ∷ l) (events_for-append es fs))
    | inr other ↦ rw other (events_for-append es fs)
  ]

  events_for-All :
      (es : List ReplicaEvent) → All (λ e. (owner_of e == j) ≡ true) es → events_for j es ≡ es
  unfolding events_for
  events_for-All [] h = refl
  events_for-All (e ∷ es) h = rw h.0 (ap (λ l. e ∷ l) (events_for-All es h.1))

  events_for-others :
      (es : List ReplicaEvent) → All (λ e. (owner_of e == j) ≡ false) es → events_for j es ≡ []
  unfolding events_for
  events_for-others [] h = refl
  events_for-others (e ∷ es) h = rw h.0 (events_for-others es h.1)

-- The events of a wallet's history are all of that wallet.
module _ (node j : PublicKey) (b : Bool)
    (tested : (k : PublicKey) → (node == k) ≡ true → (k == j) ≡ b) where
  abbrev Tested : List ReplicaEvent → Type 0
  Tested = All (λ e. (owner_of e == j) ≡ b)

  owned_debits :
      (ds : List TransferAgreementProof)
      → all_owned node (λ t. t.sender) ds ≡ true
      → Tested (map transfer_registered ds)
  unfolding all_owned owner_of
  owned_debits [] h = tt
  owned_debits (d ∷ ds) h = elim (Bool-cases (node == d.sender)) [
    | inl own ↦ (tested d.sender own, owned_debits ds (rw own at h))
    | inr other ↦ let h' = rw other at h in cc
  ]

  owned_credits :
      (cs : List CreditAgreementProof) (ds : List TransferAgreementProof)
      → all_owned node recipient_of cs ≡ true
      → all_owned node (λ t. t.sender) ds ≡ true
      → Tested (map transfer_propagated cs ++ map transfer_registered ds)
  unfolding all_owned owner_of
  owned_credits [] ds h k = owned_debits ds k
  owned_credits (c ∷ cs) ds h k = elim (Bool-cases (node == recipient_of c)) [
    | inl own ↦ (tested (recipient_of c) own, owned_credits cs ds (rw own at h) k)
    | inr other ↦ let h' = rw other at h in cc
  ]

  owned_events : (h : ActorHistory) → valid_owners node h ≡ true → Tested (events_of_history h)
  unfolding valid_owners events_of_history
  owned_events h v = elim (Bool-cases (all_owned node recipient_of h.credits)) [
    | inl c ↦ owned_credits h.credits h.debits c (rw c at v)
    | inr c ↦ let v' = rw c at v in cc
  ]

events_past :
    (j : PublicKey) (ws : BTreeMap ActorHistory)
    → Above j ws
    → Owned ws
    → events_for j (events_of_wallets ws) ≡ []
unfolding events_of_wallets events_for
events_past j [] a o = refl
events_past j ((n, h) ∷ ws) a o =
    events_for-append j (events_of_history h) (events_of_wallets ws)
    ∙ rw
        (events_for-others j (events_of_history h)
          (owned_events n j false (λ i e. ground (arith, a.0)) h o.0))
        (events_past j ws a.1 o.1)

pub events_found :
    (j : PublicKey) (ws : BTreeMap ActorHistory) (h : ActorHistory)
    → IsSorted ws
    → Owned ws
    → lookup j ws ≡ some h
    → events_for j (events_of_wallets ws) ≡ events_of_history h
unfolding events_of_wallets
events_found j [] h s o e = absurd (ground arith)
events_found j ((n, k) ∷ ws) h s o e = elim (Bool-cases (n == j)) [
  | inl here ↦
      let same : k ≡ h = ground (arith, here) in
      let n-is : n ≡ j = (==_iff n j).0 here in
      events_for-append j (events_of_history k) (events_of_wallets ws)
      ∙ rw
          (
            events_for-All j (events_of_history k)
                (owned_events n j true (λ i q. ground (arith, q, here)) k o.0),
            events_past j ws (subst (λ (x : ℕ). Above x ws) n-is s.0) o.1,
          )
          (append-nil (events_of_history k) ∙ ap events_of_history same)
  | inr other ↦
      events_for-append j (events_of_history k) (events_of_wallets ws)
      ∙ rw
          (events_for-others j (events_of_history k)
            (owned_events n j false (λ i q. ground (arith, q, other)) k o.0))
          (events_found j ws h s.1 o.1 (rw other at e))
]
