-- ===== src/Transfers/Replicas/Soundness.antt =====
-- What is sound in the events of a wallet, and the writing of one more event
-- (src/transfers/replicas.rs).
use sn_node.Prelude.{
  ◌≡◌, refl, sym, ◌∙◌, ap, inl, inr, Bool, true, false, some, List, [], ◌∷◌, ◌++◌, ◌==◌, ==_iff,
  PublicKey, Bool-cases, All, subst,
}
use sn_node.Prelude.BTreeMap.{lookup}
use sn_node.Errors.{Result, ok, err, pickle_db}
use sn_node.Action.{>>=-cases, lift, pure, ◌>>=◌}
use sn_node.SectionFunds.RewardStage.{CreditAgreementProof}
use sn_node.Transfers.Events.{
  from_tr, ReplicaEvent, transfer_validation_proposed, transfer_validated, transfer_registered,
  transfer_propagated,
}
use sn_node.Transfers.Store
use sn_node.Transfers.Store.{TransferStore, events_of}
use sn_node.Transfers.Store.History.{number, events_of-number, try_insert-number}
use sn_node.Transfers.Replicas.{
  Io, ReplicaInfo, Replicas, Wallets, owner_of, in_chain, saved, insert_event, store_and_apply,
}
use sn_node.Transfers.Replicas.Queries.{credits_in, is_seen, same_credit}
use sn_node.Transfers.Replicas.Log.{log, WellNumbered, kept, kept-WellNumbered, log-kept}
use sn_node.Transfers.Replicas.Stores.{insert_there}
use sn_node.Transfers.Replicas.Histories.{Apart}

-- A registered transfer was agreed on under a key of the section's chain.
abbrev pub KnownKey : ReplicaInfo → ReplicaEvent → Type 0
KnownKey info (transfer_registered t) = in_chain t.replicas_key info.section_chain ≡ true
KnownKey info (transfer_validation_proposed t) = Unit {0}
KnownKey info (transfer_validated t) = Unit {0}
KnownKey info (transfer_propagated c) = Unit {0}

-- The events of the wallet `j`: all its own, each credit once, and each debit under a known key.
pub record SoundLog (info : ReplicaInfo) (j : PublicKey) (es : List ReplicaEvent) : Type 0 where
  pub own : All (λ e. owner_of e ≡ j) es
  pub once : Apart same_credit (credits_in es)
  pub known : All (KnownKey info) es

-- An event that may follow such events.
abbrev pub MayFollow : ReplicaEvent → List ReplicaEvent → Type 0
MayFollow (transfer_propagated c) es = is_seen same_credit c (credits_in es) ≡ false
MayFollow (transfer_registered t) es = Unit {0}
MayFollow (transfer_validation_proposed t) es = Unit {0}
MayFollow (transfer_validated t) es = Unit {0}

All-snoc :
    {A : Type 0} (P : A → Type 0) (xs : List A) (y : A) → All P xs → P y → All P (xs ++ y ∷ [])
All-snoc P [] y a p = (p, tt)
All-snoc P (x ∷ xs) y a p = (a.0, All-snoc P xs y a.1 p)

Apart-snoc :
    {A : Type 0} (same : A → A → Bool) (xs : List A) (y : A)
    → Apart same xs
    → is_seen same y xs ≡ false
    → Apart same (xs ++ y ∷ [])
unfolding is_seen
Apart-snoc same [] y a u = (tt, tt)
Apart-snoc same (x ∷ xs) y a u = elim (Bool-cases (same x y)) [
  | inl same_one ↦ let u' = rw same_one at u in cc
  | inr other ↦
      (All-snoc (λ b. same x b ≡ false) xs y a.0 other, Apart-snoc same xs y a.1 (rw other at u))
]

credits_in-snoc :
    (es : List ReplicaEvent) (c : CreditAgreementProof)
    → credits_in (es ++ transfer_propagated c ∷ []) ≡ credits_in es ++ c ∷ []
unfolding credits_in
credits_in-snoc [] c = refl
credits_in-snoc (transfer_propagated d ∷ es) c = ap (λ l. d ∷ l) (credits_in-snoc es c)
credits_in-snoc (transfer_validation_proposed e ∷ es) c = credits_in-snoc es c
credits_in-snoc (transfer_validated e ∷ es) c = credits_in-snoc es c
credits_in-snoc (transfer_registered e ∷ es) c = credits_in-snoc es c

credits_in-same :
    (es : List ReplicaEvent) (e : ReplicaEvent)
    → credits_in (e ∷ []) ≡ []
    → credits_in (es ++ e ∷ []) ≡ credits_in es
unfolding credits_in
credits_in-same [] e h = h
credits_in-same (transfer_propagated d ∷ es) e h = ap (λ l. d ∷ l) (credits_in-same es e h)
credits_in-same (transfer_validation_proposed d ∷ es) e h = credits_in-same es e h
credits_in-same (transfer_validated d ∷ es) e h = credits_in-same es e h
credits_in-same (transfer_registered d ∷ es) e h = credits_in-same es e h

once-snoc :
    (es : List ReplicaEvent) (e : ReplicaEvent)
    → Apart same_credit (credits_in es)
    → MayFollow e es
    → Apart same_credit (credits_in (es ++ e ∷ []))
once-snoc es (transfer_propagated c) a m =
    rw (credits_in-snoc es c) (Apart-snoc same_credit (credits_in es) c a m)
once-snoc es (transfer_registered t) a m =
    rw (credits_in-same es (transfer_registered t) (unfold credits_in in refl)) a
once-snoc es (transfer_validated t) a m =
    rw (credits_in-same es (transfer_validated t) (unfold credits_in in refl)) a
once-snoc es (transfer_validation_proposed t) a m =
    rw (credits_in-same es (transfer_validation_proposed t) (unfold credits_in in refl)) a

SoundLog-snoc :
    (info : ReplicaInfo) (j : PublicKey) (es : List ReplicaEvent) (e : ReplicaEvent)
    → SoundLog info j es
    → owner_of e ≡ j
    → KnownKey info e
    → MayFollow e es
    → SoundLog info j (es ++ e ∷ [])
SoundLog-snoc info j es e s o k m = record {
  own = All-snoc (λ x. owner_of x ≡ j) es e s.own o;
  once = once-snoc es e s.once m;
  known = All-snoc (KnownKey info) es e s.known k;
}

module _ (w : Wallets) where
  pub record Sound (info : ReplicaInfo) (r : Replicas) : Type 0 where
    pub fixed : r.info ≡ info
    pub well : WellNumbered w r
    pub logs : (j : PublicKey) → SoundLog info j (log w r j)

  -- Whatever the wallet in memory makes of the event, the state is that of its writing.
  applied_after :
      (x : Result w.Wallet) (r : Replicas) → ((lift {S = Replicas} x >>= λ _. pure tt) r).1 ≡ r
  applied_after (ok wallet) r = refl
  applied_after (err e) r = refl

  left_by :
      (io : Io) (id : PublicKey) (wallet : w.Wallet) (e : ReplicaEvent) (r : Replicas)
      → (store_and_apply w io id wallet e r).1 ≡ (insert_event w io id e r).1
  unfolding store_and_apply
  left_by io id wallet e r =
      >>=-cases (λ p. p.1 ≡ (insert_event w io id e r).1) (insert_event w io id e)
        (λ _. lift (from_tr (w.apply wallet e)) >>= λ _. pure tt) r
        (λ _ s' q. applied_after (from_tr (w.apply wallet e)) s' ∙ ap (λ p. p.1) (sym q))
        (λ x s' q. ap (λ p. p.1) (sym q))

  module _ (injective : (i j : PublicKey) → w.name_of i ≡ w.name_of j → i ≡ j)
      (info : ReplicaInfo) where
    pub kept-Sound :
        (id : PublicKey) (s : TransferStore ReplicaEvent) (es : List ReplicaEvent) (r : Replicas)
        → s.db ≡ number 0 es
        → SoundLog info id es
        → Sound info r
        → Sound info (kept w id s r)
    kept-Sound id s es r q sound h = record {
      fixed = h.fixed;
      well = kept-WellNumbered w injective id s r (es, q) h.well;
      logs = λ j. rw (log-kept w injective id j s r) (elim (Bool-cases (id == j)) [
        | inl here ↦
            rw (here, q, events_of-number 0 es)
              (subst (λ k. SoundLog info k es) ((==_iff id j).0 here) sound)
        | inr other ↦ rw other (h.logs j)
      ]);
    }

    insert_event-Sound :
        (io : Io) (id : PublicKey) (e : ReplicaEvent) (r : Replicas)
        (s : TransferStore ReplicaEvent)
        → Sound info r
        → lookup id r.locks ≡ some s
        → s.db ≡ number 0 (log w r id)
        → owner_of e ≡ id
        → KnownKey info e
        → MayFollow e (log w r id)
        → Sound info (insert_event w io id e r).1
    insert_event-Sound io id e r s h there q o k m = elim (Bool-cases io.written) [
      | inl written ↦ rw (insert_there w injective io id e r s (log w r id) written there q) (
          kept-Sound id (record { id = s.id; db = number 0 (log w r id ++ e ∷ []) })
            (log w r id ++ e ∷ []) r refl (SoundLog-snoc info id (log w r id) e (h.logs id) o k m)
            h)
      | inr lost ↦
          let failed : Store.try_insert false e s
              ≡ (err pickle_db, record { id = s.id; db = number 0 (log w r id) }) =
            ap (λ db. Store.try_insert false e (record { id = s.id; db = db })) q
            ∙ try_insert-number false e s.id (log w r id) in
          rw (not_written io lost there failed) h
    ]
      where
        not_written :
            (io : Io)
            → io.written ≡ false
            → lookup id r.locks ≡ some s
            → Store.try_insert false e s
              ≡ (err pickle_db, record { id = s.id; db = number 0 (log w r id) })
            → insert_event w io id e r ≡ (err pickle_db, r)
        not_written io lost there failed =
            unfold insert_event in rw (there, lost) (ap (λ p. saved (w.name_of id) id p r) failed)

    pub store_and_apply-Sound :
        (io : Io) (id : PublicKey) (wallet : w.Wallet) (e : ReplicaEvent) (r : Replicas)
        (s : TransferStore ReplicaEvent)
        → Sound info r
        → lookup id r.locks ≡ some s
        → s.db ≡ number 0 (log w r id)
        → owner_of e ≡ id
        → KnownKey info e
        → MayFollow e (log w r id)
        → Sound info (store_and_apply w io id wallet e r).1
    store_and_apply-Sound io id wallet e r s h there q o k m =
        rw (left_by io id wallet e r) (insert_event-Sound io id e r s h there q o k m)
