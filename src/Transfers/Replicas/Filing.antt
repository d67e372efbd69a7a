-- ===== src/Transfers/Replicas/Filing.antt =====
-- Events that other elders send, and the wallets they are filed with (src/transfers/replicas.rs).
use mathlib.Core.List.{append_assoc, append-nil}
use sn_node.Prelude.{
  ◌≡◌, refl, sym, ◌∙◌, ap, inl, inr, List, [], ◌∷◌, ◌++◌, ◌==◌, ==_iff, if◌then◌else◌, PublicKey,
  Bool-cases, All,
}
use sn_node.Errors.{Result, ok}
use sn_node.Action.{Action, >>=-ok, ◌>>◌}
use sn_node.Transfers.Events.{ReplicaEvent}
use sn_node.Transfers.Store.{TransferStore}
use sn_node.Transfers.Store.History.{number, events_of-number}
use sn_node.Transfers.Replicas.{
  Io, Replicas, Wallets, owner_of, get_load_or_create_store, insert_event, file_event, initiate,
}
use sn_node.Transfers.Replicas.Log.{Works, log, WellNumbered, kept, kept-WellNumbered, log-kept}
use sn_node.Transfers.Replicas.Stores.{get_store_lem, insert_there}

-- Of some events, those of one wallet.
unfoldable pub events_for : PublicKey → List ReplicaEvent → List ReplicaEvent
events_for j [] = []
events_for j (e ∷ es) = if owner_of e == j then e ∷ events_for j es else events_for j es

abbrev pub AllWork : List (Io × ReplicaEvent) → Type 0
AllWork = All (λ q. Works q.0)

unfoldable pub events_in : List (Io × ReplicaEvent) → List ReplicaEvent
events_in [] = []
events_in ((io, e) ∷ qs) = e ∷ events_in qs

module _ (w : Wallets) (injective : (i j : PublicKey) → w.name_of i ≡ w.name_of j → i ≡ j) where
  -- A call that succeeded and left each wallet with its events, followed by some of `es`.
  pub record Filed (es : List ReplicaEvent) (r : Replicas) (p : Result (Unit {0}) × Replicas)
      : Type 0 where
    pub succeeds : p.0 ≡ ok tt
    pub well : WellNumbered w p.1
    pub logged : (j : PublicKey) → log w p.1 j ≡ log w r j ++ events_for j es

  pub file_event-Filed :
      (io : Io) (e : ReplicaEvent) (r : Replicas)
      → Works io
      → WellNumbered w r
      → Filed (e ∷ []) r (file_event w io e r)
  unfolding file_event events_for
  file_event-Filed io e r works v =
      let id = owner_of e in
      let (s, r', g) = get_store_lem w injective io id r works v in
      let s' : TransferStore ReplicaEvent = record {
        id = s.id;
        db = number 0 (log w r id ++ e ∷ []);
      } in
      let done : file_event w io e r ≡ (ok tt, kept w id s' r') =
        >>=-ok (get_load_or_create_store w io id) (λ _. insert_event w io id e) r g.is
        ∙ insert_there w injective io id e r' s (log w r id) works.written g.there g.events in
      rw done (record {
        succeeds = refl;
        well = kept-WellNumbered w injective id s' r' (log w r id ++ e ∷ [], refl) g.well;
        logged = λ j. log-kept w injective id j s' r' ∙ (elim (Bool-cases (id == j)) [
          | inl here ↦ rw (here, ← (==_iff id j).0 here) (events_of-number 0 (log w r id ++ e ∷ []))
          | inr other ↦ rw other (g.same j ∙ sym (append-nil _))
        ]);
      })

  pub Filed-trans :
      (e : ReplicaEvent) (es : List ReplicaEvent) (r : Replicas) (m n : Action Replicas (Unit {0}))
      → Filed (e ∷ []) r (m r)
      → Filed es (m r).1 (n (m r).1)
      → Filed (e ∷ es) r ((m >> n) r)
  unfolding events_for
  Filed-trans e es r m n f g =
      rw (>>=-ok m (λ _. n) r (ap (λ x. (x, (m r).1)) f.succeeds)) (record {
        succeeds = g.succeeds;
        well = g.well;
        logged = λ j.
            g.logged j
            ∙ rw (f.logged j) (elim (Bool-cases (owner_of e == j)) [
              | inl here ↦ rw here (append_assoc (log w r j) (e ∷ []) (events_for j es))
              | inr other ↦ rw (other, append-nil (log w r j)) refl
            ]);
      })

  pub Filed-nil : (r : Replicas) → WellNumbered w r → Filed [] r (ok tt, r)
  unfolding events_for
  Filed-nil r v = record { succeeds = refl; well = v; logged = λ j. sym (append-nil _) }

  pub initiate-Filed :
      (qs : List (Io × ReplicaEvent)) (r : Replicas)
      → AllWork qs
      → WellNumbered w r
      → Filed (events_in qs) r (initiate w qs r)
  unfolding initiate events_in
  initiate-Filed [] r works v = Filed-nil r v
  initiate-Filed ((io, e) ∷ qs) r works v =
      let f = file_event-Filed io e r works.0 v in
      Filed-trans e (events_in qs) r (file_event w io e) (initiate w qs) f
        (initiate-Filed qs (file_event w io e r).1 works.1 f.well)
