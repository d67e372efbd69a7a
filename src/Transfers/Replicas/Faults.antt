-- ===== src/Transfers/Replicas/Faults.antt =====
-- Stores of src/transfers/replicas.rs that are opened on a disk with faults: a database that cannot
-- be loaded is overwritten with an empty one.
use sn_node.Prelude.{
  ◌≡◌, ◌≢◌, refl, ◌∙◌, inl, inr, none, some, [], ◌==◌, ==_iff, if◌then◌else◌, arith, PublicKey,
  Bool-cases, Option-cases,
}
use sn_node.Prelude.BTreeMap.{lookup, insert, lookup-insert, lookup-insert_ne, lookup-insert_self}
use sn_node.Errors.{Error, Result, ok, err, Result-cases}
use sn_node.Action.{>>=-ok, >>=-err}
use sn_node.Transfers.Events.{ReplicaEvent}
use sn_node.Transfers.Store
use sn_node.Transfers.Store.{TransferStore, events_of}
use sn_node.Transfers.Store.History.{number}
use sn_node.Transfers.Replicas.{
  Db, Opening, Io, ReplicaInfo, Replicas, Wallets, open_store, lock_store, lock_of, or_create,
}
use sn_node.Transfers.Replicas.Queries.{credits_in}
use sn_node.Transfers.Replicas.Log.{log, kept, locked, locked-WellNumbered, log-locked}
use sn_node.Transfers.Replicas.Soundness.{SoundLog, Sound, kept-Sound}

SoundLog-nil : (info : ReplicaInfo) (j : PublicKey) → SoundLog info j []
unfolding credits_in
SoundLog-nil info j = record { own = tt; once = tt; known = tt }

module _ (w : Wallets) where
  open w use {name_of}

  abbrev emptied : PublicKey → Replicas → Replicas
  emptied id r = record r { files = insert (name_of id) [] r.files }

  -- How an opening ends.
  data Opened (id : PublicKey) (r : Replicas) (p : Result (TransferStore ReplicaEvent) × Replicas)
      : Type 0 where
    found :
        (db : Db)
        → lookup (name_of id) r.files ≡ some db
        → p ≡ (ok (record { id = name_of id; db = db }), r)
        → Opened id r p
    fresh : p ≡ (ok (record { id = name_of id; db = [] }), emptied id r) → Opened id r p
    failed : (e : Error) → p ≡ (err e, r) → Opened id r p
    lost : (e : Error) → p ≡ (err e, emptied id r) → Opened id r p

  open_store-Opened :
      (o : Opening) (id : PublicKey) (r : Replicas) → Opened id r (open_store w o id r)
  unfolding open_store Store.new Store.new_auto_dump_db
  open_store-Opened o id r =
      elim (Option-cases (if o.loads then lookup (name_of id) r.files else none)) [
        | inr (db, e) ↦ found db (ground (arith, e)) (rw e refl)
        | inl e ↦ elim (Result-cases o.dir_created) [
          | inr (x, c) ↦ failed x (rw (e, c) refl)
          | inl (u, c) ↦ elim (Bool-cases o.dumped) [
            | inr d ↦ failed Error.pickle_db (ground (arith, e, c, d))
            | inl d ↦ elim (Bool-cases o.reloads) [
              | inl l ↦ fresh (ground (arith, e, c, d, l))
              | inr l ↦ lost Error.pickle_db (ground (arith, e, c, d, l))
            ]
          ]
        ]
      ]

  module _ (injective : (i j : PublicKey) → name_of i ≡ name_of j → i ≡ j)
      (info : ReplicaInfo) where
    emptied-Sound :
        (id : PublicKey) (r : Replicas)
        → Sound w info r
        → lookup id r.locks ≡ none
        → Sound w info (emptied id r)
    emptied-Sound id r h free = record {
      fixed = h.fixed;
      well = record {
        in_memory = h.well.in_memory;
        agree = λ j s e.
            let ne : name_of id ≢ name_of j = λ x. free_ne j s e (injective id j x) in
            lookup-insert_ne (name_of id) (name_of j) [] r.files ne ∙ h.well.agree j s e;
        on_disk = λ n db e. elim (Bool-cases (name_of id == n)) [
          | inl same ↦
              let is : some [] ≡ some db =
                rw (lookup-insert (name_of id) n [] r.files, same) at e in
              ([], unfold number in cc)
          | inr other ↦
              h.well.on_disk n db (rw (lookup-insert (name_of id) n [] r.files, other) at e)
        ];
      };
      logs = λ j. elim (Bool-cases (id == j)) [
        | inl same ↦
            let id-is = (==_iff id j).0 same in
            rw (← id-is) (
              unfold log events_of in
              rw (free, lookup-insert_self (name_of id) [] r.files) (SoundLog-nil info id))
        | inr other ↦
            let ne : name_of id ≢ name_of j = λ x. ground (arith, injective id j x) in
            let same_log : log w (emptied id r) j ≡ log w r j =
              unfold log in rw (lookup-insert_ne (name_of id) (name_of j) [] r.files ne) refl in
            rw same_log (h.logs j)
      ];
    }
      where
        free_ne :
            (j : PublicKey) (s : TransferStore ReplicaEvent) → lookup j r.locks ≡ some s → id ≢ j
        free_ne j s e x = let e' = rw (← x) at e in absurd (ground (arith, free, e'))

    locked-Sound :
        (id : PublicKey) (db : Db) (r : Replicas)
        → Sound w info r
        → lookup id r.locks ≡ none
        → lookup (name_of id) r.files ≡ some db
        → Sound w info (locked w id (record { id = name_of id; db = db }) r)
    locked-Sound id db r h free f =
        let s : TransferStore ReplicaEvent = record { id = name_of id; db = db } in
        let log-is : log w r id ≡ events_of db = unfold log in rw (free, f) refl in
        record {
          fixed = h.fixed;
          well = locked-WellNumbered w id s r (h.well.on_disk (name_of id) db f) f h.well;
          logs = λ j. rw (log-locked w injective id j s r) (elim (Bool-cases (id == j)) [
            | inl same ↦ rw (same, ← log-is, ← (==_iff id j).0 same) (h.logs id)
            | inr other ↦ rw other (h.logs j)
          ]);
        }

    -- The store of a wallet, from memory or opened, on a disk with any faults.
    pub data Locked (id : PublicKey) (p : Result (TransferStore ReplicaEvent) × Replicas)
        : Type 0 where
      locks :
          (s : TransferStore ReplicaEvent) (r : Replicas)
          → p ≡ (ok s, r)
          → Sound w info r
          → lookup id r.locks ≡ some s
          → Locked id p
      fails : (e : Error) (r : Replicas) → p ≡ (err e, r) → Sound w info r → Locked id p

    pub lock_of-Locked :
        (io : Io) (id : PublicKey) (r : Replicas) → Sound w info r → Locked id (lock_of w io id r)
    unfolding lock_of
    lock_of-Locked io id r h = elim (Option-cases (lookup id r.locks)) [
      | inr (s, e) ↦ rw e (locks s r refl h e)
      | inl e ↦ rw e (by_opening (open_store-Opened io.first id r) e)
    ]
      where
        by_opening :
            Opened id r (open_store w io.first id r)
            → lookup id r.locks ≡ none
            → Locked id (or_create w (open_store w io.first id) id (err Error.logic) r)
        by_opening (found db f q) free =
            let s : TransferStore ReplicaEvent = record { id = name_of id; db = db } in
            locks s (locked w id s r) (>>=-ok (open_store w io.first id) (lock_store w id) r q)
              (locked-Sound id db r h free f) (lookup-insert_self id s r.locks)
        by_opening (fresh q) free =
            let s : TransferStore ReplicaEvent = record { id = name_of id; db = [] } in
            locks s (kept w id s r) (>>=-ok (open_store w io.first id) (lock_store w id) r q)
              (kept-Sound w injective info id s [] r (unfold number in refl) (SoundLog-nil info id)
                h)
              (lookup-insert_self id s r.locks)
        by_opening (failed x q) free =
            fails x r (>>=-err (open_store w io.first id) (lock_store w id) r q) h
        by_opening (lost x q) free =
            fails x (emptied id r) (>>=-err (open_store w io.first id) (lock_store w id) r q)
              (emptied-Sound id r h free)
