-- ===== src/Transfers/Replicas/Commands.antt =====
-- Histories of the commands of src/transfers/replicas.rs, and what the stores hold after them.
use sn_node.Prelude.{
  ◌≡◌, refl, sym, ◌∙◌, ap, inl, inr, false, none, some, List, [], ◌∷◌, arith, PublicKey, Bool-cases,
  Option-cases, All,
}
use sn_node.Prelude.BTreeMap.{lookup}
use sn_node.Errors.{ok, Result-cases}
use sn_node.Action.{Action, >>=-cases, >>=-ok, >>=-err, ◌>>=◌, ◌>>◌, pure}
use sn_node.SectionFunds.RewardStage.{CreditAgreementProof}
use sn_node.Transfers.Events.{
  TrResult, from_tr, tr-cases, SignedTransfer, TransferAgreementProof, recipient_of, ReplicaEvent,
  transfer_validated, transfer_registered, transfer_propagated,
}
use sn_node.Transfers.Store
use sn_node.Transfers.Store.{TransferStore, events_of}
use sn_node.Transfers.Store.History.{number, get_all-number}
use sn_node.Transfers.Replicas.{
  Io, ReplicaInfo, Replicas, Wallets, owner_of, in_chain, load_wallet, sign_transfer, validated,
  validate, register, lock_of, receive_locked, receive_propagated, load_key_lock, store_and_apply,
  known_key,
}
use sn_node.Transfers.Replicas.Queries.{credits_in, is_seen, same_credit}
use sn_node.Transfers.Replicas.Log.{log}
use sn_node.Transfers.Replicas.Stores.{Numbered-events}
use sn_node.Transfers.Replicas.Handover.{Lists}
use sn_node.Transfers.Replicas.Faults.{Locked, locks, fails, lock_of-Locked}
use sn_node.Transfers.Replicas.Soundness.{Sound, KnownKey, MayFollow, store_and_apply-Sound}

-- What the replicas rely on in the wallets of the crate: names tell wallets apart, the event of a
-- registration carries the proof, and a credit is new only to a wallet in whose history it is not.
pub record IsWallets (w : Wallets) : Type 0 where
  pub injective : (i j : PublicKey) → w.name_of i ≡ w.name_of j → i ≡ j
  pub register_same :
      (wallet : w.Wallet) (proof event : TransferAgreementProof)
      → w.register wallet proof ≡ TrResult.ok (some event)
      → event ≡ proof
  pub receive_fresh :
      (id : PublicKey) (info : ReplicaInfo) (es : List ReplicaEvent) (wallet : w.Wallet)
      (proof : CreditAgreementProof) (u : Unit {0})
      → w.from_history id info es ≡ TrResult.ok wallet
      → w.receive_propagated wallet proof ≡ TrResult.ok (some u)
      → is_seen same_credit proof (credits_in es) ≡ false

from_tr-ok : {A : Type 0} (r : TrResult A) (a : A) → from_tr r ≡ ok a → r ≡ TrResult.ok a
from_tr-ok (TrResult.ok b) a e = ground arith
from_tr-ok (TrResult.err x) a e = cc

module _ (w : Wallets) (laws : IsWallets w) (info : ReplicaInfo) where
  stored :
      (id : PublicKey) (r : Replicas) (s : TransferStore ReplicaEvent)
      → Sound w info r
      → lookup id r.locks ≡ some s
      → s.db ≡ number 0 (log w r id)
  stored id r s h there =
      Numbered-events w s.db (h.well.in_memory id s there)
      ∙ ap (number 0) (unfold log in rw there refl)

  -- The wallet was made of the events that are stored.
  loaded :
      (io : Io) (id : PublicKey) (r : Replicas) (s : TransferStore ReplicaEvent) (wallet : w.Wallet)
      → Lists io
      → s.db ≡ number 0 (log w r id)
      → load_wallet w io id s r.info ≡ ok wallet
      → w.from_history id r.info (log w r id) ≡ TrResult.ok wallet
  unfolding load_wallet
  loaded io id r s wallet lists q e =
      let all : Store.get_all (io.listed s.db) s ≡ log w r id =
        ap (λ db. Store.get_all (io.listed db) (record { id = s.id; db = db })) q
        ∙ get_all-number s.id (log w r id) (io.listed (number 0 (log w r id)))
            (lists (number 0 (log w r id))) in
      from_tr-ok _ wallet (rw all at e)

  after_pure :
      {A B : Type 0} (m : Action Replicas A) (b : B) (r : Replicas)
      → ((m >>= λ _. pure b) r).1 ≡ (m r).1
  after_pure m b r =
      >>=-cases (λ p. p.1 ≡ (m r).1) m (λ _. pure b) r (λ _ s' q. ap (λ p. p.1) (sym q))
        (λ x s' q. ap (λ p. p.1) (sym q))

  stored-Sound :
      {B : Type 0} (io : Io) (id : PublicKey) (wallet : w.Wallet) (e : ReplicaEvent) (b : B)
      (r : Replicas) (s : TransferStore ReplicaEvent)
      → Sound w info r
      → lookup id r.locks ≡ some s
      → owner_of e ≡ id
      → KnownKey info e
      → MayFollow e (log w r id)
      → Sound w info ((store_and_apply w io id wallet e >>= λ _. pure b) r).1
  stored-Sound io id wallet e b r s h there o k m =
      rw (after_pure (store_and_apply w io id wallet e) b r) (
        store_and_apply-Sound w laws.injective info io id wallet e r s h there
          (stored id r s h there) o k m)

  validate-Sound :
      (io : Io) (t : SignedTransfer) (r : Replicas)
      → Sound w info r
      → Sound w info (validate w io t r).1
  unfolding validate
  validate-Sound io t r h = elim (Option-cases (lookup t.debit.sender r.locks)) [
    | inl e ↦ rw (◌>>=◌, load_key_lock, e) h
    | inr (s, e) ↦ elim (Result-cases (load_wallet w io t.debit.sender s r.info)) [
      | inr (x, l) ↦ rw (◌>>=◌, load_key_lock, e, l) h
      | inl (wallet, l) ↦ elim (tr-cases (w.validate wallet t.debit t.credit)) [
        | inr (x, v) ↦ rw (◌>>=◌, ◌>>◌, load_key_lock, e, l, v) h
        | inl (u, v) ↦ elim (Result-cases (sign_transfer w t)) [
          | inr (x, g) ↦ rw (◌>>=◌, ◌>>◌, load_key_lock, e, l, v, g) h
          | inl (sigs, g) ↦
              rw (◌>>=◌, ◌>>◌, load_key_lock, e, l, v, g)
                (stored-Sound io t.debit.sender wallet
                  (transfer_validated (validated w t sigs r.info)) (validated w t sigs r.info) r s h
                  e (unfold owner_of validated in refl) tt tt)
        ]
      ]
    ]
  ]

  register-Sound :
      (io : Io) (proof : TransferAgreementProof) (r : Replicas)
      → Sound w info r
      → Sound w info (register w io proof r).1
  unfolding register
  register-Sound io proof r h =
      elim (Bool-cases (in_chain proof.replicas_key r.info.section_chain)) [
        | inr unknown ↦ rw (◌>>=◌, ◌>>◌, known_key, unknown) h
        | inl known ↦ elim (Option-cases (lookup proof.sender r.locks)) [
          | inl e ↦ rw (◌>>=◌, ◌>>◌, known_key, known, load_key_lock, e) h
          | inr (s, e) ↦ elim (Result-cases (load_wallet w io proof.sender s r.info)) [
            | inr (x, l) ↦ rw (◌>>=◌, ◌>>◌, known_key, known, load_key_lock, e, l) h
            | inl (wallet, l) ↦ elim (tr-cases (w.register wallet proof)) [
              | inr (x, v) ↦ rw (◌>>=◌, ◌>>◌, known_key, known, load_key_lock, e, l, v) h
              | inl (none, v) ↦ rw (◌>>=◌, ◌>>◌, known_key, known, load_key_lock, e, l, v) h
              | inl (some event, v) ↦
                  let same = laws.register_same wallet proof event v in
                  rw (◌>>=◌, ◌>>◌, known_key, known, load_key_lock, e, l, v)
                    (stored-Sound io proof.sender wallet (transfer_registered event) event r s h e
                      (unfold owner_of in ap (λ (x : TransferAgreementProof). x.sender) same)
                      (rw (same, ← h.fixed) known) tt)
            ]
          ]
        ]
      ]

  -- A credit that arrives, once the store of its wallet is locked.
  received :
      (io : Io) (proof : CreditAgreementProof) (r : Replicas) (s : TransferStore ReplicaEvent)
      → Lists io
      → Sound w info r
      → lookup (recipient_of proof) r.locks ≡ some s
      → Sound w info (receive_locked w io proof s r).1
  unfolding receive_locked
  received io proof r s lists h e =
      let id = recipient_of proof in
      elim (Result-cases (load_wallet w io id s r.info)) [
        | inr (x, l) ↦ rw (◌>>=◌, l) h
        | inl (wallet, l) ↦ elim (tr-cases (w.receive_propagated wallet proof)) [
          | inr (x, v) ↦ rw (◌>>=◌, l, v) h
          | inl (none, v) ↦ rw (◌>>=◌, l, v) h
          | inl (some u, v) ↦
              rw (◌>>=◌, l, v)
                (stored-Sound io id wallet (transfer_propagated proof) proof r s h e
                  (unfold owner_of in refl) tt
                  (laws.receive_fresh id r.info (log w r id) wallet proof u
                    (loaded io id r s wallet lists (stored id r s h e) l) v))
        ]
      ]

  receive-Sound :
      (io : Io) (proof : CreditAgreementProof) (r : Replicas)
      → Lists io
      → Sound w info r
      → Sound w info (receive_propagated w io proof r).1
  unfolding receive_propagated
  receive-Sound io proof r lists h =
      after_lock (lock_of-Locked w laws.injective info io (recipient_of proof) r h)
    where
      after_lock :
          Locked w laws.injective info (recipient_of proof) (lock_of w io (recipient_of proof) r)
          → Sound w info ((lock_of w io (recipient_of proof) >>= receive_locked w io proof) r).1
      after_lock (locks s r' q h' there) =
          rw (>>=-ok (lock_of w io (recipient_of proof)) (receive_locked w io proof) r q)
            (received io proof r' s lists h' there)
      after_lock (fails x r' q h') =
          rw (>>=-err (lock_of w io (recipient_of proof)) (receive_locked w io proof) r q) h'

-- The commands that clients and other sections send.
pub data Command : Type 0 where
  validates : SignedTransfer → Command
  registers : TransferAgreementProof → Command
  receives : CreditAgreementProof → Command

module _ (w : Wallets) where
  pub step : Io → Command → Replicas → Replicas
  step io (validates t) r = (validate w io t r).1
  step io (registers proof) r = (register w io proof r).1
  step io (receives proof) r = (receive_propagated w io proof r).1

  unfoldable pub run : List (Io × Command) → Replicas → Replicas
  unfolding step
  run [] r = r
  run ((io, c) ∷ cs) r = run cs (step io c r)

  step-Sound :
      (laws : IsWallets w) (info : ReplicaInfo) (io : Io) (c : Command) (r : Replicas)
      → Lists io
      → Sound w info r
      → Sound w info (step io c r)
  unfolding step
  step-Sound laws info io (validates t) r lists h = validate-Sound w laws info io t r h
  step-Sound laws info io (registers proof) r lists h = register-Sound w laws info io proof r h
  step-Sound laws info io (receives proof) r lists h = receive-Sound w laws info io proof r lists h

  -- After any commands, in any order and from anyone, on a disk with any faults: if memory and disk
  -- agree and the stores are sound at first, they agree after them, and the store of each wallet
  -- holds only events of that wallet, no credit twice, and no registered debit that was agreed on
  -- under a key that is not in the section's chain.
  pub run-Sound :
      (info : ReplicaInfo) (cs : List (Io × Command)) (r : Replicas)
      → IsWallets w
      → All (λ c. Lists c.0) cs
      → Sound w info r
      → Sound w info (run cs r)
  unfolding run
  run-Sound info [] r laws lists h = h
  run-Sound info ((io, c) ∷ cs) r laws lists h =
      run-Sound info cs (step io c r) laws lists.1 (step-Sound laws info io c r lists.0 h)
