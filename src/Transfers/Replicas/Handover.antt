-- ===== src/Transfers/Replicas/Handover.antt =====
-- The wallets that a new elder is set up with, and what it reports of them
-- (src/transfers/replicas.rs).
use mathlib.Core.List.{Permᴰ, append_assoc}
use sn_node.Prelude.{
  ℕ, ◌≡◌, refl, sym, ◌∙◌, ap, inl, inr, Bool, none, some, List, [], ◌∷◌, ◌++◌, PublicKey,
  Option-cases, ◌⊎◌,
}
use sn_node.Prelude.BTreeMap.{BTreeMap, lookup, IsSorted}
use sn_node.Errors.{ok}
use sn_node.Action.{Action, >>=-ok, ◌>>◌}
use sn_node.Transfers.Events.{ReplicaEvent, ActorHistory}
use sn_node.Transfers.Store
use sn_node.Transfers.Store.{TransferStore, events_of}
use sn_node.Transfers.Store.History.{number, get_all-number, events_of-number}
use sn_node.Transfers.Store.Sorting.{keys_of}
use sn_node.Transfers.Replicas.{Db, Io, ReplicaInfo, Replicas, Wallets, file_event}
use sn_node.Transfers.Replicas.Queries.{
  history_of, history_read, history, events_of_history, file_all, setup, new,
}
use sn_node.Transfers.Replicas.Log.{Works, log, WellNumbered, Numbered}
use sn_node.Transfers.Replicas.Stores.{opened_loaded, opened_fresh}
use sn_node.Transfers.Replicas.Filing.{events_for, Filed, file_event-Filed, Filed-trans, Filed-nil}
use sn_node.Transfers.Replicas.Owners.{events_of_wallets, Owned, events_for-append, events_found}
use sn_node.Transfers.Replicas.Histories.{IsHistory, history_of-events}

-- A database lists each of its keys once.
abbrev pub Lists : Io → Type 0
Lists io = (db : Db) → Permᴰ (io.listed db) (keys_of db)

some-eq : {A : Type 0} {a b : A} → some a ≡ some b → a ≡ b
some-eq e = cc

module _ (w : Wallets) (injective : (i j : PublicKey) → w.name_of i ≡ w.name_of j → i ≡ j) where
  Filed-append :
      (es fs : List ReplicaEvent) (r : Replicas) (m n : Action Replicas (Unit {0}))
      → Filed w injective es r (m r)
      → Filed w injective fs (m r).1 (n (m r).1)
      → Filed w injective (es ++ fs) r ((m >> n) r)
  Filed-append es fs r m n f g =
      rw (>>=-ok m (λ _. n) r (ap (λ x. (x, (m r).1)) f.succeeds)) (record {
        succeeds = g.succeeds;
        well = g.well;
        logged = λ j.
            g.logged j
            ∙ rw (f.logged j, events_for-append j es fs)
                (append_assoc (log w r j) (events_for j es) (events_for j fs));
      })

  file_all-Filed :
      (io : ReplicaEvent → Io) (es : List ReplicaEvent) (r : Replicas)
      → ((e : ReplicaEvent) → Works (io e))
      → WellNumbered w r
      → Filed w injective es r (file_all w io es r)
  unfolding file_all
  file_all-Filed io [] r works v = Filed-nil w injective r v
  file_all-Filed io (e ∷ es) r works v =
      let f = file_event-Filed w injective (io e) e r (works e) v in
      Filed-trans w injective e es r (file_event w (io e) e) (file_all w io es) f
        (file_all-Filed io es (file_event w (io e) e r).1 works f.well)

  setup-Filed :
      (io : ReplicaEvent → Io) (ws : BTreeMap ActorHistory) (r : Replicas)
      → ((e : ReplicaEvent) → Works (io e))
      → Owned ws
      → WellNumbered w r
      → Filed w injective (events_of_wallets ws) r (setup w io ws r)
  unfolding setup events_of_wallets
  setup-Filed io [] r works o v = Filed-nil w injective r v
  setup-Filed io ((n, h) ∷ ws) r works o v =
      let f = file_all-Filed io (events_of_history h) r works v in
      rw o.0 (
        Filed-append (events_of_history h) (events_of_wallets ws) r
          (file_all w io (events_of_history h)) (setup w io ws) f
          (setup-Filed io ws (file_all w io (events_of_history h) r).1 works o.1 f.well))

  read-Numbered :
      (io : Io) (nothing : Bool) (id : ℕ) (db : Db)
      → Lists io
      → Numbered db
      → history_read w io nothing (ok (record { id = id; db = db }))
        ≡ ok (history_of (events_of db))
  unfolding history_read
  read-Numbered io nothing id db lists (es, q) =
      let all : Store.get_all (io.listed db) (record { id = id; db = db }) ≡ events_of db = rw q (
        get_all-number id es (io.listed (number 0 es)) (lists (number 0 es))
        ∙ sym (events_of-number 0 es)) in
      ap (λ l. ok (history_of l)) all

  -- Where the store of a wallet can be opened and memory and disk agree, the history of the wallet
  -- is the one of all its events, also if it has no store yet.
  history_lem :
      (io : Io) (nothing : Bool) (id : PublicKey) (r : Replicas)
      → Works io
      → Lists io
      → WellNumbered w r
      → (history w io nothing id r).0 ≡ ok (history_of (log w r id))
  unfolding history
  history_lem io nothing id r works lists v = elim (Option-cases (lookup (w.name_of id) r.files)) [
    | inr (db, f) ↦ rw (opened_loaded w io.first id r db works.loads f) (
        read-Numbered io nothing (w.name_of id) db lists (v.on_disk (w.name_of id) db f)
        ∙ ap (λ l. ok (history_of l)) (log_disk db f (Option-cases (lookup id r.locks))))
    | inl f ↦ rw (opened_fresh w io.first id r f works.created works.dumped works.reloads) (
        read-Numbered io nothing (w.name_of id) [] lists ([], unfold number in refl)
        ∙ ap (λ l. ok (history_of l)) (log_none f (Option-cases (lookup id r.locks))))
  ]
    where
      log_disk :
          (db : Db)
          → lookup (w.name_of id) r.files ≡ some db
          → (lookup id r.locks ≡ none)
            ⊎ ((s : TransferStore ReplicaEvent) × (lookup id r.locks ≡ some s))
          → events_of db ≡ log w r id
      log_disk db f (inl e) = unfold log in rw (e, f) refl
      log_disk db f (inr (s, e)) =
          let same : s.db ≡ db = some-eq (sym (v.agree id s e) ∙ f) in
          unfold log in rw e (ap events_of (sym same))

      log_none :
          lookup (w.name_of id) r.files ≡ none
          → (lookup id r.locks ≡ none)
            ⊎ ((s : TransferStore ReplicaEvent) × (lookup id r.locks ≡ some s))
          → events_of [] ≡ log w r id
      log_none f (inl e) = unfold log in rw (e, f) (unfold events_of in refl)
      log_none f (inr (s, e)) = let h = sym (v.agree id s e) ∙ f in absurd (cc)

  -- An elder that starts with no databases, on a disk that works, and is given the wallets of its
  -- section, each with a history of its own transfers: it takes them all, and the history that it
  -- then reports of each wallet is the one that it was given.
  pub new_hands_over :
      (io : ReplicaEvent → Io) (later : Io) (nothing : Bool) (info : ReplicaInfo)
      (ws : BTreeMap ActorHistory) (j : PublicKey) (h : ActorHistory)
      → ((e : ReplicaEvent) → Works (io e))
      → Works later
      → Lists later
      → IsSorted ws
      → Owned ws
      → IsHistory h
      → lookup j ws ≡ some h
      → ((new w io info [] ws).0 ≡ ok tt)
        × ((history w later nothing j (new w io info [] ws).1).0 ≡ ok h)
  unfolding new
  new_hands_over io later nothing info ws j h works works' lists sorted owned is there =
      let r : Replicas = record { info = info; locks = []; files = [] } in
      let empty : WellNumbered w r = record {
        in_memory = λ id s e. absurd (cc);
        agree = λ id s e. absurd (cc);
        on_disk = λ n db e. absurd (cc);
      } in
      let f = setup-Filed io ws r works owned empty in
      let logged : log w (setup w io ws r).1 j ≡ events_of_history h =
        f.logged j ∙ unfold log in events_found j ws h sorted owned there in
      (
        f.succeeds,
        history_lem later nothing j (setup w io ws r).1 works' lists f.well
            ∙ ap (λ l. ok (history_of l)) logged
            ∙ ap ok (history_of-events h is),
      )
