-- ===== src/Transfers/Replicas/Stores.antt =====
-- How a store of src/transfers/replicas.rs comes into memory, and an event into it.
use sn_node.Prelude.{
  ◌≡◌, refl, sym, ◌∙◌, ap, inl, inr, true, none, some, List, [], ◌∷◌, ◌++◌, ◌==◌, ==_iff,
  if◌then◌else◌, arith, PublicKey, Bool-cases, Option-cases,
}
use sn_node.Prelude.BTreeMap.{lookup, insert, lookup-insert_self}
use sn_node.Errors.{Result, ok}
use sn_node.Action.{>>=-ok}
use sn_node.Transfers.Events.{ReplicaEvent}
use sn_node.Transfers.Store
use sn_node.Transfers.Store.{TransferStore, events_of}
use sn_node.Transfers.Store.History.{number, events_of-number, try_insert-number}
use sn_node.Transfers.Replicas.{
  Db, Opening, Io, Replicas, Wallets, owner_of, saved, open_store, lock_store, or_reopen,
  open_twice, get_load_or_create_store, insert_event,
}
use sn_node.Transfers.Replicas.Log.{
  Numbered, Works, log, WellNumbered, locked, kept, locked-WellNumbered, kept-WellNumbered,
  log-locked, log-kept,
}

module _ (w : Wallets) where
  open w use {name_of}

  pub opened_loaded :
      (o : Opening) (id : PublicKey) (r : Replicas) (db : Db)
      → o.loads ≡ true
      → lookup (name_of id) r.files ≡ some db
      → open_store w o id r ≡ (ok (record { id = name_of id; db = db }), r)
  unfolding open_store Store.new Store.new_auto_dump_db
  opened_loaded o id r db l f = ground (arith, l, f)

  pub opened_fresh :
      (o : Opening) (id : PublicKey) (r : Replicas)
      → lookup (name_of id) r.files ≡ none
      → o.dir_created ≡ ok tt
      → o.dumped ≡ true
      → o.reloads ≡ true
      → open_store w o id r ≡ (
        ok (record { id = name_of id; db = [] }),
        record r { files = insert (name_of id) [] r.files },
      )
  unfolding open_store Store.new Store.new_auto_dump_db
  opened_fresh o id r f c d l = ground (arith, f, c, d, l)

  opened_first :
      (io : Io) (id : PublicKey) (r r' : Replicas) (s : TransferStore ReplicaEvent)
      → lookup id r.locks ≡ none
      → open_store w io.first id r ≡ (ok s, r')
      → get_load_or_create_store w io id r ≡ (ok s, locked w id s r')
  unfolding get_load_or_create_store
  opened_first io id r r' s e o = rw e (
      >>=-ok (open_twice w io id) (lock_store w id) r (
        ap
          (λ (p : Result (TransferStore ReplicaEvent) × Replicas). or_reopen w io.second id p.0 p.1)
          o))

  get_there :
      (io : Io) (id : PublicKey) (r : Replicas) (s : TransferStore ReplicaEvent)
      → lookup id r.locks ≡ some s
      → get_load_or_create_store w io id r ≡ (ok s, r)
  unfolding get_load_or_create_store
  get_there io id r s e = rw e refl

  -- A store in memory, with the events of the wallet, and nothing lost.
  pub record Got (r : Replicas) (id : PublicKey)
      (p : Result (TransferStore ReplicaEvent) × Replicas) (s : TransferStore ReplicaEvent)
      (r' : Replicas) : Type 0 where
    pub is : p ≡ (ok s, r')
    pub there : lookup id r'.locks ≡ some s
    pub events : s.db ≡ number 0 (log w r id)
    pub well : WellNumbered w r'
    pub same : (j : PublicKey) → log w r' j ≡ log w r j

  pub Numbered-events : (db : Db) → Numbered db → db ≡ number 0 (events_of db)
  Numbered-events db (es, q) = q ∙ ap (number 0) (sym (ap events_of q ∙ events_of-number 0 es))

  module _ (injective : (i j : PublicKey) → name_of i ≡ name_of j → i ≡ j) where
    Got-loaded :
        (io : Io) (id : PublicKey) (r : Replicas) (db : Db)
        → Works io
        → WellNumbered w r
        → lookup id r.locks ≡ none
        → lookup (name_of id) r.files ≡ some db
        → let s : TransferStore ReplicaEvent = record { id = name_of id; db = db } in
          Got r id (get_load_or_create_store w io id r) s (locked w id s r)
    Got-loaded io id r db works v e f =
        let s : TransferStore ReplicaEvent = record { id = name_of id; db = db } in
        let log-is : log w r id ≡ events_of db = unfold log in rw (e, f) refl in
        record {
          is = opened_first io id r r s e (opened_loaded io.first id r db works.loads f);
          there = lookup-insert_self id s r.locks;
          events = Numbered-events db (v.on_disk (name_of id) db f) ∙ ap (number 0) (sym log-is);
          well = locked-WellNumbered w id s r (v.on_disk (name_of id) db f) f v;
          same = λ j. log-locked w injective id j s r ∙ (elim (Bool-cases (id == j)) [
            | inl here ↦ rw (here, ← (==_iff id j).0 here) (sym log-is)
            | inr other ↦ rw other refl
          ]);
        }

    Got-fresh :
        (io : Io) (id : PublicKey) (r : Replicas)
        → Works io
        → WellNumbered w r
        → lookup id r.locks ≡ none
        → lookup (name_of id) r.files ≡ none
        → let s : TransferStore ReplicaEvent = record { id = name_of id; db = [] } in
          Got r id (get_load_or_create_store w io id r) s (kept w id s r)
    Got-fresh io id r works v e f =
        let s : TransferStore ReplicaEvent = record { id = name_of id; db = [] } in
        let log-is : log w r id ≡ [] = unfold log in rw (e, f) refl in
        record {
          is =
              opened_first io id r (record r { files = insert (name_of id) [] r.files }) s e
                (opened_fresh io.first id r f works.created works.dumped works.reloads);
          there = lookup-insert_self id s r.locks;
          events = unfold number in rw log-is refl;
          well = kept-WellNumbered w injective id s r ([], unfold number in refl) v;
          same = λ j. log-kept w injective id j s r ∙ (elim (Bool-cases (id == j)) [
            | inl here ↦ rw (here, ← (==_iff id j).0 here, log-is) (unfold events_of in refl)
            | inr other ↦ rw other refl
          ]);
        }

    Got-there :
        (io : Io) (id : PublicKey) (r : Replicas) (s : TransferStore ReplicaEvent)
        → WellNumbered w r
        → lookup id r.locks ≡ some s
        → Got r id (get_load_or_create_store w io id r) s r
    Got-there io id r s v e = record {
      is = get_there io id r s e;
      there = e;
      events = Numbered-events s.db (v.in_memory id s e) ∙ ap (number 0) (unfold log in rw e refl);
      well = v;
      same = λ j. refl;
    }

    pub get_store_lem :
        (io : Io) (id : PublicKey) (r : Replicas)
        → Works io
        → WellNumbered w r
        → (s : TransferStore ReplicaEvent) × (r' : Replicas) × Got r id
            (get_load_or_create_store w io id r)
            s
            r'
    get_store_lem io id r works v = elim (Option-cases (lookup id r.locks)) [
      | inr (s, e) ↦ (s, r, Got-there io id r s v e)
      | inl e ↦ elim (Option-cases (lookup (name_of id) r.files)) [
        | inl f ↦
            let s : TransferStore ReplicaEvent = record { id = name_of id; db = [] } in
            (s, kept w id s r, Got-fresh io id r works v e f)
        | inr (db, f) ↦
            let s : TransferStore ReplicaEvent = record { id = name_of id; db = db } in
            (s, locked w id s r, Got-loaded io id r db works v e f)
      ]
    ]

    -- The events of each wallet after one more was filed.
    abbrev pub with_event : ReplicaEvent → Replicas → PublicKey → List ReplicaEvent
    with_event e r j = if owner_of e == j then log w r j ++ e ∷ [] else log w r j

    pub insert_there :
        (io : Io) (id : PublicKey) (e : ReplicaEvent) (r : Replicas)
        (s : TransferStore ReplicaEvent) (es : List ReplicaEvent)
        → io.written ≡ true
        → lookup id r.locks ≡ some s
        → s.db ≡ number 0 es
        → insert_event w io id e r
          ≡ (ok tt, kept w id (record { id = s.id; db = number 0 (es ++ e ∷ []) }) r)
    unfolding insert_event
    insert_there io id e r s es written there q =
        rw (there, written)
          (ap (λ p. saved (name_of id) id p r)
            (ap (λ db. Store.try_insert true e (record { id = s.id; db = db })) q
              ∙ try_insert-number true e s.id es))
