-- ===== src/SectionFunds/RewardCalc/Filing.antt =====
-- The buckets of `get_buckets` in src/section_funds/reward_calc.rs.
use sn_node.Prelude.{
  ℕ, ◌≤◌, ◌≡◌, ◌≢◌, some, true, [], ◌∷◌, arith, All, leb, XorName, PublicKey, NodeAge, Option-cases,
  Bool-cases, inl, inr, ℕ_discrete,
}
use sn_node.Prelude.BTreeMap.{
  entries_found, BTreeMap, lookup, insert, IsSorted, insert-IsSorted, insert-All, lookup-All,
}
use sn_node.SectionFunds.RewardCalc.{
  Buckets, Nodes, wallets_at, add_to_bucket, get_buckets_from, get_buckets, min_reward_age,
}
use sn_node.SectionFunds.RewardCalc.Payout.{Filed}

insert-ne-nil {ℓ} : {V : Type ℓ} (k : ℕ) (v : V) (m : BTreeMap V) → insert k v m ≢ []
insert-ne-nil k v [] e = cc
insert-ne-nil k v (x ∷ m) e = ground arith

module _ (nodes : Nodes) where
  abbrev pub IsFiled : Buckets → Type 0
  IsFiled buckets = IsSorted buckets × All (Filed nodes) buckets

  insert-Filed :
      (name : XorName) (age : NodeAge) (key : PublicKey) (buckets : Buckets)
      → min_reward_age ≤ age
      → lookup name nodes ≡ some (age, key)
      → IsFiled buckets
      → Filed nodes (age, insert name key (wallets_at (lookup age buckets)))
  insert-Filed name age key buckets old reg f = elim (Option-cases (lookup age buckets)) [
    | inl e ↦ rw e ((λ q. cc), (tt, tt), old, (reg, tt))
    | inr (ws, e) ↦
        let (ne, s, _, r) = lookup-All (Filed nodes) age ws buckets f.1 e in
        rw e (
          insert-ne-nil name key ws,
          insert-IsSorted name key ws s,
          old,
          insert-All _ name key ws reg r,
        )
  ]

  add_to_bucket-IsFiled :
      (name : XorName) (node : NodeAge × PublicKey) (buckets : Buckets)
      → lookup name nodes ≡ some node
      → IsFiled buckets
      → IsFiled (add_to_bucket buckets name node)
  unfolding add_to_bucket
  add_to_bucket-IsFiled name (age, key) buckets reg f = elim (Bool-cases (leb min_reward_age age)) [
    | inl old ↦ rw old (
      insert-IsSorted age _ buckets f.0,
      insert-All (Filed nodes) age _ buckets
          (insert-Filed name age key buckets (ground arith) reg f) f.1,
    )
    | inr young ↦ rw young f
  ]

  get_buckets_from-IsFiled :
      (ns : Nodes) (buckets : Buckets)
      → All (λ e. lookup e.0 nodes ≡ some e.1) ns
      → IsFiled buckets
      → IsFiled (get_buckets_from buckets ns)
  unfolding get_buckets_from
  get_buckets_from-IsFiled [] buckets reg f = f
  get_buckets_from-IsFiled ((name, node) ∷ ns) buckets reg f =
      get_buckets_from-IsFiled ns _ reg.1 (add_to_bucket-IsFiled name node buckets reg.0 f)

  pub get_buckets-IsFiled : IsSorted nodes → IsFiled (get_buckets nodes)
  unfolding get_buckets
  get_buckets-IsFiled s = get_buckets_from-IsFiled nodes [] (entries_found nodes s) (tt, tt)

add_to_bucket-ne-nil :
    (name : XorName) (node : NodeAge × PublicKey) (buckets : Buckets)
    → buckets ≢ []
    → add_to_bucket buckets name node ≢ []
unfolding add_to_bucket
add_to_bucket-ne-nil name (age, key) buckets ne = elim (Bool-cases (leb min_reward_age age)) [
  | inl old ↦ rw old (insert-ne-nil age _ buckets)
  | inr young ↦ rw young ne
]

get_buckets_from-ne-nil :
    (ns : Nodes) (buckets : Buckets) → buckets ≢ [] → get_buckets_from buckets ns ≢ []
unfolding get_buckets_from
get_buckets_from-ne-nil [] buckets ne = ne
get_buckets_from-ne-nil ((name, node) ∷ ns) buckets ne =
    get_buckets_from-ne-nil ns _ (add_to_bucket-ne-nil name node buckets ne)

eligible_from :
    (ns : Nodes) (buckets : Buckets) (name : XorName) (age : NodeAge) (key : PublicKey)
    → lookup name ns ≡ some (age, key)
    → min_reward_age ≤ age
    → get_buckets_from buckets ns ≢ []
unfolding get_buckets_from add_to_bucket
eligible_from [] buckets name age key e old = λ _. cc
eligible_from ((n, (a, k)) ∷ ns) buckets name age key e old = elim (ℕ_discrete n name) [
  | yes hit ↦
      let same : leb min_reward_age a ≡ true = ground (arith, e, hit) in
      get_buckets_from-ne-nil ns _ (rw same (insert-ne-nil a _ buckets))
  | no miss ↦ eligible_from ns _ name age key (ground arith) old
]

-- A node that is old enough leaves some bucket behind.
pub get_buckets-ne-nil :
    (nodes : Nodes) (name : XorName) (age : NodeAge) (key : PublicKey)
    → lookup name nodes ≡ some (age, key)
    → min_reward_age ≤ age
    → get_buckets nodes ≢ []
unfolding get_buckets
get_buckets-ne-nil nodes = eligible_from nodes []
