-- ===== src/Transfers/Replicas/Histories.antt =====
-- The history of a wallet that src/transfers/replicas.rs makes of its events, and the events that it
-- makes of a history.
use sn_node.Prelude.{ℕ, ◌<◌, ◌≡◌, refl, ◌∙◌, ap, Bool, false, List, [], ◌∷◌, ◌++◌, arith, All, map}
use sn_node.SectionFunds.RewardStage.{CreditAgreementProof}
use sn_node.Transfers.Events.{
  TransferAgreementProof, transfer_registered, transfer_propagated, ActorHistory,
}
use sn_node.Transfers.Store.{events_of, sort_by_key, place}
use sn_node.Transfers.Replicas.Queries.{
  credits_in, debits_in, is_seen, unique_by, same_credit, same_debit, get_credits, get_debits,
  sort_debits, history_of, events_of_history,
}

-- No two items of the list are the same.
abbrev pub Apart : {A : Type 0} → (A → A → Bool) → List A → Type 0
Apart same [] = Unit {0}
Apart same (a ∷ items) = All (λ b. same a b ≡ false) items × Apart same items

-- The counters rise along the list.
abbrev pub Rising : List TransferAgreementProof → Type 0
Rising [] = Unit {0}
Rising (t ∷ debits) = All (λ s. t.id.counter < s.id.counter) debits × Rising debits

-- A history as replicas report it.
pub record IsHistory (h : ActorHistory) : Type 0 where
  pub credits_once : Apart same_credit h.credits
  pub debits_in_order : Rising h.debits

module _ {A : Type 0} (same : A → A → Bool) where
  abbrev Unseen : List A → List A → Type 0
  Unseen seen items = All (λ a. is_seen same a seen ≡ false) items

  Unseen-cons :
      (a : A) (seen items : List A)
      → All (λ b. same a b ≡ false) items
      → Unseen seen items
      → Unseen (a ∷ seen) items
  unfolding is_seen
  Unseen-cons a seen [] h u = tt
  Unseen-cons a seen (b ∷ items) h u = (rw h.0 u.0, Unseen-cons a seen items h.1 u.1)

  unique_by-Apart :
      (seen items : List A)
      → Unseen seen items
      → Apart same items
      → unique_by same seen items ≡ items
  unfolding unique_by
  unique_by-Apart seen [] u h = refl
  unique_by-Apart seen (a ∷ items) u h =
      rw (unique_by, u.0)
        (ap (λ l. a ∷ l) (unique_by-Apart (a ∷ seen) items (Unseen-cons a seen items h.0 u.1) h.1))

  Unseen-all : (items : List A) → Unseen [] items
  unfolding is_seen
  Unseen-all [] = tt
  Unseen-all (a ∷ items) = (refl, Unseen-all items)

apart_debits :
    (t : TransferAgreementProof) (debits : List TransferAgreementProof)
    → All (λ s. t.id.counter < s.id.counter) debits
    → All (λ s. same_debit t s ≡ false) debits
apart_debits t [] h = tt
apart_debits t (s ∷ debits) h = (ground (arith, h.0), apart_debits t debits h.1)

Rising-Apart : (debits : List TransferAgreementProof) → Rising debits → Apart same_debit debits
Rising-Apart [] h = tt
Rising-Apart (t ∷ debits) h = (apart_debits t debits h.0, Rising-Apart debits h.1)

abbrev numbered : List TransferAgreementProof → List (ℕ × TransferAgreementProof)
numbered debits = map (λ t. (t.id.counter, t)) debits

place_first :
    (t : TransferAgreementProof) (debits : List TransferAgreementProof)
    → All (λ s. t.id.counter < s.id.counter) debits
    → place t.id.counter t (numbered debits) ≡ (t.id.counter, t) ∷ numbered debits
unfolding place
place_first t [] h = refl
place_first t (s ∷ debits) h = ground (arith, h.0)

sort-Rising :
    (debits : List TransferAgreementProof)
    → Rising debits
    → sort_by_key (numbered debits) ≡ numbered debits
unfolding sort_by_key
sort-Rising [] h = refl
sort-Rising (t ∷ debits) h = rw (sort-Rising debits h.1) (place_first t debits h.0)

events_of-numbered : (debits : List TransferAgreementProof) → events_of (numbered debits) ≡ debits
unfolding events_of
events_of-numbered [] = refl
events_of-numbered (t ∷ debits) = ap (λ l. t ∷ l) (events_of-numbered debits)

credits_in-history :
    (cs : List CreditAgreementProof) (ds : List TransferAgreementProof)
    → credits_in (map transfer_propagated cs ++ map transfer_registered ds) ≡ cs
unfolding credits_in
credits_in-history [] [] = refl
credits_in-history [] (d ∷ ds) = credits_in-history [] ds
credits_in-history (c ∷ cs) ds = ap (λ l. c ∷ l) (credits_in-history cs ds)

debits_in-history :
    (cs : List CreditAgreementProof) (ds : List TransferAgreementProof)
    → debits_in (map transfer_propagated cs ++ map transfer_registered ds) ≡ ds
unfolding debits_in
debits_in-history [] [] = refl
debits_in-history [] (d ∷ ds) = ap (λ l. d ∷ l) (debits_in-history [] ds)
debits_in-history (c ∷ cs) ds = debits_in-history cs ds

reported_lem :
    (cs : List CreditAgreementProof) (ds : List TransferAgreementProof)
    → Apart same_credit cs
    → Rising ds
    → (get_credits (map transfer_propagated cs ++ map transfer_registered ds) ≡ cs)
      × (get_debits (map transfer_propagated cs ++ map transfer_registered ds) ≡ ds)
unfolding get_credits get_debits sort_debits
reported_lem cs ds a r = (
  ap (unique_by same_credit []) (credits_in-history cs ds)
      ∙ unique_by-Apart same_credit [] cs (Unseen-all same_credit cs) a,
  ap (λ l. events_of (sort_by_key (numbered (unique_by same_debit [] l)))) (debits_in-history cs ds)
      ∙ ap (λ l. events_of (sort_by_key (numbered l)))
          (unique_by-Apart same_debit [] ds (Unseen-all same_debit ds) (Rising-Apart ds r))
      ∙ ap events_of (sort-Rising ds r)
      ∙ events_of-numbered ds,
)

-- The history of the events of a history is that history.
pub history_of-events : (h : ActorHistory) → IsHistory h → history_of (events_of_history h) ≡ h
unfolding events_of_history
history_of-events h is = by_events h.credits h.debits is.credits_once is.debits_in_order
  where
    by_events :
        (cs : List CreditAgreementProof) (ds : List TransferAgreementProof)
        → Apart same_credit cs
        → Rising ds
        → history_of (map transfer_propagated cs ++ map transfer_registered ds)
          ≡ record { credits = cs; debits = ds }
    by_events [] [] a r = unfold history_of in refl
    by_events [] (d ∷ ds) a r =
        let (c, e) = reported_lem [] (d ∷ ds) a r in
        unfold history_of in
        ap
          (λ (p : List CreditAgreementProof × List TransferAgreementProof). record {
            credits = p.0;
            debits = p.1;
          })
          (λ i. (c i, e i))
    by_events (k ∷ cs) ds a r =
        let (c, e) = reported_lem (k ∷ cs) ds a r in
        unfold history_of in
        ap
          (λ (p : List CreditAgreementProof × List TransferAgreementProof). record {
            credits = p.0;
            debits = p.1;
          })
          (λ i. (c i, e i))
