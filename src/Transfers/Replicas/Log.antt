-- ===== src/Transfers/Replicas/Log.antt =====
-- The events of each wallet of src/transfers/replicas.rs, as one list for each key: those in the
-- store in memory, or else those in the database on disk.
use sn_node.Prelude.{
  ◌≡◌, ◌≢◌, refl, sym, ◌∙◌, ap, inl, inr, true, Option, none, some, List, [], ◌==◌, ==_iff,
  if◌then◌else◌, arith, XorName, PublicKey, Bool-cases,
}
use sn_node.Prelude.BTreeMap.{lookup, insert, lookup-insert, lookup-insert_self, lookup-insert_ne}
use sn_node.Errors.{ok}
use sn_node.Transfers.Events.{ReplicaEvent}
use sn_node.Transfers.Store.{TransferStore, events_of}
use sn_node.Transfers.Store.History.{number}
use sn_node.Transfers.Replicas.{Db, Io, Replicas, Wallets}

-- A database as `try_insert` leaves it: its events have the numbers from zero on.
abbrev pub Numbered : Db → Type 0
Numbered db = (es : List ReplicaEvent) × (db ≡ number 0 es)

-- A disk on which a store can be opened and written.
pub record Works (io : Io) : Type 0 where
  pub loads : io.first.loads ≡ true
  pub created : io.first.dir_created ≡ ok tt
  pub dumped : io.first.dumped ≡ true
  pub reloads : io.first.reloads ≡ true
  pub written : io.written ≡ true

abbrev log_in : Option (TransferStore ReplicaEvent) → Option Db → List ReplicaEvent
log_in (some s) db = events_of s.db
log_in none (some db) = events_of db
log_in none none = []

module _ (w : Wallets) where
  open w use {name_of}

  unfoldable pub log : Replicas → PublicKey → List ReplicaEvent
  unfolding events_of
  log r id = log_in (lookup id r.locks) (lookup (name_of id) r.files)

  pub record WellNumbered (r : Replicas) : Type 0 where
    pub in_memory :
        (id : PublicKey) (s : TransferStore ReplicaEvent)
        → lookup id r.locks ≡ some s
        → Numbered s.db
    -- Memory and disk agree.
    pub agree :
        (id : PublicKey) (s : TransferStore ReplicaEvent)
        → lookup id r.locks ≡ some s
        → lookup (name_of id) r.files ≡ some s.db
    pub on_disk : (n : XorName) (db : Db) → lookup n r.files ≡ some db → Numbered db

  -- A store comes into memory, as it is on disk already or with its file.
  abbrev pub locked : PublicKey → TransferStore ReplicaEvent → Replicas → Replicas
  locked id s r = record r { locks = insert id s r.locks }

  abbrev pub kept : PublicKey → TransferStore ReplicaEvent → Replicas → Replicas
  kept id s r = record r { locks = insert id s r.locks; files = insert (name_of id) s.db r.files }

  some-eq : {A : Type 0} {a b : A} → some a ≡ some b → a ≡ b
  some-eq e = cc

  pub locked-WellNumbered :
      (id : PublicKey) (s : TransferStore ReplicaEvent) (r : Replicas)
      → Numbered s.db
      → lookup (name_of id) r.files ≡ some s.db
      → WellNumbered r
      → WellNumbered (locked id s r)
  locked-WellNumbered id s r (es, q) f v = record {
    in_memory = λ j t e. elim (Bool-cases (id == j)) [
      | inl same ↦
          let t-is : s ≡ t = some-eq (rw (lookup-insert id j s r.locks, same) at e) in
          (es, ap (λ (x : TransferStore ReplicaEvent). x.db) (sym t-is) ∙ q)
      | inr other ↦ v.in_memory j t (rw (lookup-insert id j s r.locks, other) at e)
    ];
    agree = λ j t e. elim (Bool-cases (id == j)) [
      | inl same ↦
          let t-is : s ≡ t = some-eq (rw (lookup-insert id j s r.locks, same) at e) in
          ap (λ k. lookup (name_of k) r.files) (sym ((==_iff id j).0 same))
          ∙ f
          ∙ ap (λ (x : TransferStore ReplicaEvent). some x.db) t-is
      | inr other ↦ v.agree j t (rw (lookup-insert id j s r.locks, other) at e)
    ];
    on_disk = v.on_disk;
  }

  -- Where a database is replaced, the store in memory is too.
  filed-WellNumbered :
      (id : PublicKey) (s : TransferStore ReplicaEvent) (r : Replicas)
      → Numbered s.db
      → WellNumbered r
      → (n : XorName) (db : Db) → lookup n (insert (name_of id) s.db r.files) ≡ some db
      → Numbered db
  filed-WellNumbered id s r (es, q) v n db e = elim (Bool-cases (name_of id == n)) [
    | inl same ↦
        let db-is : s.db ≡ db =
          some-eq (rw (lookup-insert (name_of id) n s.db r.files, same) at e) in
        (es, sym db-is ∙ q)
    | inr other ↦ v.on_disk n db (rw (lookup-insert (name_of id) n s.db r.files, other) at e)
  ]

  module _ (injective : (i j : PublicKey) → name_of i ≡ name_of j → i ≡ j) where
    pub kept-WellNumbered :
        (id : PublicKey) (s : TransferStore ReplicaEvent) (r : Replicas)
        → Numbered s.db
        → WellNumbered r
        → WellNumbered (kept id s r)
    kept-WellNumbered id s r (es, q) v = record {
      in_memory = λ j t e. elim (Bool-cases (id == j)) [
        | inl same ↦
            let t-is : s ≡ t = some-eq (rw (lookup-insert id j s r.locks, same) at e) in
            (es, ap (λ (x : TransferStore ReplicaEvent). x.db) (sym t-is) ∙ q)
        | inr other ↦ v.in_memory j t (rw (lookup-insert id j s r.locks, other) at e)
      ];
      agree = λ j t e. elim (Bool-cases (id == j)) [
        | inl same ↦
            let t-is : s ≡ t = some-eq (rw (lookup-insert id j s r.locks, same) at e) in
            ap (λ k. lookup (name_of k) (insert (name_of id) s.db r.files))
              (sym ((==_iff id j).0 same))
            ∙ lookup-insert_self (name_of id) s.db r.files
            ∙ ap (λ (x : TransferStore ReplicaEvent). some x.db) t-is
        | inr other ↦
            let ne : name_of id ≢ name_of j = λ x. ground (arith, injective id j x) in
            lookup-insert_ne (name_of id) (name_of j) s.db r.files ne
            ∙ v.agree j t (rw (lookup-insert id j s r.locks, other) at e)
      ];
      on_disk = filed-WellNumbered id s r (es, q) v;
    }

    pub log-locked :
        (id j : PublicKey) (s : TransferStore ReplicaEvent) (r : Replicas)
        → log (locked id s r) j ≡ (if id == j then events_of s.db else log r j)
    unfolding log
    log-locked id j s r = elim (Bool-cases (id == j)) [
      | inl same ↦ rw (lookup-insert id j s r.locks, same) refl
      | inr other ↦ rw (lookup-insert id j s r.locks, other) refl
    ]

    pub log-kept :
        (id j : PublicKey) (s : TransferStore ReplicaEvent) (r : Replicas)
        → log (kept id s r) j ≡ (if id == j then events_of s.db else log r j)
    unfolding log
    log-kept id j s r = elim (Bool-cases (id == j)) [
      | inl same ↦ rw (lookup-insert id j s r.locks, same) refl
      | inr other ↦
          let ne : name_of id ≢ name_of j = λ e. ground (arith, injective id j e) in
          rw
            (
              lookup-insert id j s r.locks,
              lookup-insert_ne (name_of id) (name_of j) s.db r.files ne,
              other,
            )
            refl
    ]
