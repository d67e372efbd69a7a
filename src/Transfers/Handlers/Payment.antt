-- ===== src/Transfers/Handlers/Payment.antt =====
-- Payments for data, and the duties that src/transfers/mod.rs makes of them.
use sn_node.Prelude.{
  ℕ, ◌≤◌, ◌<◌, ◌≢◌, ◌≡◌, refl, sym, ap, inl, inr, ◌⊎◌, true, false, some, [], ◌∷◌, ltb, arith, ◌==◌,
  ==_iff, MessageId, Bool-cases, Option-cases,
}
use sn_node.Errors.{TransfersError, ErrorMessage, Result, ok, err, Result-cases, transfer}
use sn_node.Action.{Action, pure, ◌>>=◌, ◌>>◌, >>=-cases, >>=-err}
use sn_node.SectionFunds.RewardStage.{CreditAgreementProof}
use sn_node.Transfers.Events.{TransferAgreementProof}
use sn_node.Transfers.Replicas
use sn_node.Transfers.Replicas.{Io, Replicas, Wallets, in_chain, known_key}
use sn_node.NodeOps.{
  EndUser, DataCmd, metadata_cmd, transfer_registration_error, NodeDuty, send, add_payment,
  DstLocation, Aggregation, NodeDuties,
}
use sn_node.Transfers.Handlers.{
  Env, PaymentIo, data_cmd, outgoing, reply, section_wallet_id, registration_error, log_balance,
  forward, taken, settled, register_payment, pay, process_payment,
}

ok-eq : {A S : Type 0} {a b : A} {s t : S} → ◌≡◌ {A = Result A × S} (ok a, s) (ok b, t) → a ≡ b
ok-eq e = cc

pure-ok :
    {S A B : Type 0} (m : Action S A) (b d : B) (s s' : S)
    → (m >>= λ _. pure b) s ≡ (ok d, s')
    → d ≡ b
pure-ok m b d s s' =
    >>=-cases (λ p. p ≡ (ok d, s') → d ≡ b) m (λ _. pure b) s (λ _ t e h. sym (ok-eq h))
      (λ x t e h. cc)

module _ (env : Env) (w : Wallets) where
  -- A payment that was agreed on under a key that is not in the chain of the section.
  unknown_fails :
      (io : PaymentIo) (payment : TransferAgreementProof) (r : Replicas)
      → in_chain payment.replicas_key r.info.section_chain ≡ false
      → register_payment env w io payment r
        ≡ (err (transfer TransfersError.section_key_never_existed), r)
  unfolding register_payment
  unknown_fails io payment r unknown =
      >>=-err (Replicas.register w io.registering payment)
        (λ _. Replicas.receive_propagated w io.propagating payment.credit_proof) r
        (unfold Replicas.register in rw (◌>>=◌, ◌>>◌, known_key, unknown) refl)

  module _ (io : PaymentIo) (payment : TransferAgreementProof) (cmd : DataCmd) (n : ℕ)
      (id : MessageId) (origin : EndUser) (duties : NodeDuties) (r r' : Replicas) where
    -- The payment was registered and propagated, under a known key.
    abbrev Settled : Type 0
    Settled =
        (credit : CreditAgreementProof) × ((register_payment env w io payment r).0 ≡ ok credit)
        × (in_chain payment.replicas_key r.info.section_chain ≡ true)
        × (duties ≡ taken env w payment cmd n id origin credit)

    pay_lem :
        pay env w io payment cmd n id origin r ≡ (ok duties, r')
        → (((credit : CreditAgreementProof) → (register_payment env w io payment r).0 ≢ ok credit)
            × (duties
                ≡ registration_error env w ErrorMessage.payment_failed id payment.sender ∷ []))
          ⊎ Settled
    unfolding pay settled
    pay_lem h = elim (Result-cases (register_payment env w io payment r).0) [
      | inr (x, e) ↦ inl ((λ credit ok_credit. cc), sym (ok-eq (rw e at h)))
      | inl (credit, e) ↦ elim (Bool-cases (in_chain payment.replicas_key r.info.section_chain)) [
        | inr unknown ↦
            let no : (register_payment env w io payment r).0
                ≡ err (transfer TransfersError.section_key_never_existed) =
              ap (λ p. p.0) (unknown_fails io payment r unknown) in
            absurd (cc)
        | inl known ↦ inr (
          credit,
          e,
          known,
          pure-ok (log_balance env w io.logging payment.recipient)
              (taken env w payment cmd n id origin credit) duties
              (register_payment env w io payment r).1 r' (rw e at h),
        )
      ]
    ]

  module _ (io : PaymentIo) (payment : TransferAgreementProof) (cmd : DataCmd) (id : MessageId)
      (origin : EndUser) (r : Replicas) where
    -- An error about the payment, to all clients of its sender.
    abbrev pub tells_payer : ErrorMessage → NodeDuty
    tells_payer e = send (record {
      msg = transfer_registration_error e (env.in_response_to id) id;
      section_source = false;
      dst = env.all_clients payment.sender;
      aggregation = Aggregation.unaggregated;
    })

    -- The data, to the section that its address belongs to.
    abbrev pub sends_on : NodeDuty
    sends_on = send (record {
      msg = metadata_cmd cmd origin (env.in_response_to id);
      section_source = true;
      dst = DstLocation.section (env.dst_address cmd);
      aggregation = Aggregation.at_destination;
    })

    -- The payment went to the wallet of the section, was agreed on under a key of the section's
    -- chain, and was registered and propagated as this credit.
    abbrev pub Taken : CreditAgreementProof → Type 0
    Taken credit =
        (payment.recipient ≡ section_wallet_id env w r)
        × (in_chain payment.replicas_key r.info.section_chain ≡ true)
        × ((register_payment env w io payment r).0 ≡ ok credit)

    -- The data was paid for, the payment was too small for it, or no payment was taken.
    abbrev pub Settles : NodeDuties → Type 0
    Settles duties =
        ((credit : CreditAgreementProof) × (n : ℕ) × Taken credit
          × (env.serialised_len cmd ≡ some n)
          × (env.store_cost n ≤ payment.amount)
          × (duties ≡ add_payment credit ∷ sends_on ∷ []))
        ⊎ (((credit : CreditAgreementProof) × (n : ℕ) × Taken credit
              × (env.serialised_len cmd ≡ some n)
              × (payment.amount < env.store_cost n)
              × (duties ≡ add_payment credit ∷ tells_payer ErrorMessage.insufficient_balance ∷ []))
            ⊎ (((payment.recipient ≢ section_wallet_id env w r)
                  × (duties ≡ tells_payer ErrorMessage.no_such_recipient ∷ []))
                ⊎ ((payment.recipient ≡ section_wallet_id env w r)
                    × ((credit : CreditAgreementProof)
                        → (register_payment env w io payment r).0 ≢ ok credit)
                    × (duties ≡ tells_payer ErrorMessage.payment_failed ∷ []))))

    taken-Settles :
        (n : ℕ) (credit : CreditAgreementProof) (duties : NodeDuties)
        → env.serialised_len cmd ≡ some n
        → Taken credit
        → duties ≡ taken env w payment cmd n id origin credit
        → Settles duties
    unfolding taken registration_error forward reply outgoing
    taken-Settles n credit duties len is_taken is =
        elim (Bool-cases (ltb payment.amount (env.store_cost n))) [
          | inl small ↦
              inr (inl (credit, n, is_taken, len, ground (arith, small), rw (is, small) refl))
          | inr enough ↦
              inl (credit, n, is_taken, len, ground (arith, enough), rw (is, enough) refl)
        ]

    -- Where the payment for a client's data is answered with duties, and not with an error: the
    -- data is sent on, as it is and to the section of its address, only if the payment went to the
    -- wallet of the section, covers the store cost of the data, was agreed on under a key of the
    -- section's chain, and was registered and propagated. A payment of that kind that does not
    -- cover the cost is counted and its sender is told that it is too small. One to another wallet,
    -- or one that was not registered and propagated, is not counted, and its sender is told so. The
    -- duties are these and no others.
    pub forwards_only_paid :
        (duties : NodeDuties) (r' : Replicas)
        → process_payment env w io (data_cmd payment cmd) id origin r ≡ (ok duties, r')
        → Settles duties
    unfolding process_payment registration_error reply outgoing
    forwards_only_paid duties r' h = elim (Option-cases (env.serialised_len cmd)) [
      | inl unserialised ↦ let h' = rw (◌>>=◌, unserialised) at h in absurd (cc)
      | inr (n, len) ↦ elim (Bool-cases (payment.recipient == section_wallet_id env w r)) [
        | inr other ↦
            let h' = rw (◌>>=◌, len, other) at h in
            inr (inr (inl ((λ same. ground (arith, same)), sym (ok-eq h'))))
        | inl ours ↦
            let wallet = (==_iff payment.recipient (section_wallet_id env w r)).0 ours in
            elim (pay_lem io payment cmd n id origin duties r r' (rw (◌>>=◌, len, ours) at h)) [
              | inl (failed, is) ↦ inr (inr (inr (wallet, failed, is)))
              | inr (credit, e, known, is) ↦ taken-Settles n credit duties len (wallet, known, e) is
            ]
      ]
    ]
