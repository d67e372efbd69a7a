-- ===== src/SectionFunds/RewardCalc/Payout.antt =====
-- The payout of `distribute` in src/section_funds/reward_calc.rs: from counters to single nodes.
use sn_node.Prelude.{
  ℕ, suc, ◌+◌, ◌*◌, ◌/◌, ◌%◌, ◌≤◌, ◌<◌, ◌≡◌, ◌≢◌, refl, ◌∙◌, none, some, [], ◌∷◌, arith, All,
  sum_by, length, XorName, PublicKey, NodeAge, Option-cases, inl, inr,
}
use sn_node.Prelude.BTreeMap.{
  BTreeMap, lookup, insert, Above, IsSorted, insert-All, lookup-All, lookup-insert_ne,
  sum_by-insert_new,
}
use sn_node.SectionFunds.RewardCalc.{
  Buckets, Wallets, Nodes, Rewards, wallets_at, pay_others, pay_bucket, pay_all, min_reward_age,
}
use sn_node.SectionFunds.RewardCalc.Loop.{paid}

-- The nanos in a payout.
abbrev pub tokens : Rewards → ℕ
tokens = sum_by (λ e. (e.1).2)

-- No wallet of the bucket is in the payout yet.
abbrev Absent : Wallets → Rewards → Type 0
Absent ws out = All (λ w. lookup w.0 out ≡ none) ws

Absent-insert :
    (name : XorName) (v : NodeAge × PublicKey × ℕ) (ws : Wallets) (out : Rewards)
    → Above name ws
    → Absent ws out
    → Absent ws (insert name v out)
Absent-insert name v [] out a h = tt
Absent-insert name v (w ∷ ws) out a h =
    (lookup-insert_ne name w.0 v out (omega arith) ∙ h.0, Absent-insert name v ws out a.1 h.1)

tokens-pay_others :
    (age n : ℕ) (ws : Wallets) (out : Rewards)
    → IsSorted ws
    → Absent ws out
    → tokens (pay_others age n ws out) ≡ tokens out + n * length ws
unfolding pay_others
tokens-pay_others age n [] out s a = omega arith
tokens-pay_others age n (w ∷ ws) out s a =
    let v : NodeAge × PublicKey × ℕ = (age, w.1, n) in
    omega (
      arith,
      sum_by-insert_new (λ (e : ℕ × (NodeAge × PublicKey × ℕ)). (e.1).2) w.0 v out a.0,
      tokens-pay_others age n ws (insert w.0 v out) s.1 (Absent-insert w.0 v ws out s.0 a.1),
    )

-- A bucket is paid its reward to the last nano.
tokens-pay_bucket :
    (age reward : ℕ) (ws : Wallets) (out : Rewards)
    → ws ≢ []
    → IsSorted ws
    → Absent ws out
    → tokens (pay_bucket age reward ws out) ≡ tokens out + reward
unfolding pay_bucket
tokens-pay_bucket age reward [] out ne s a = absurd (ne refl)
tokens-pay_bucket age reward (w ∷ ws) out ne s a =
    let c = suc (length ws) in
    let v : NodeAge × PublicKey × ℕ = (age, w.1, reward / c + reward % c) in
    omega (
      arith,
      sum_by-insert_new (λ (e : ℕ × (NodeAge × PublicKey × ℕ)). (e.1).2) w.0 v out a.0,
      tokens-pay_others age (reward / c) ws (insert w.0 v out) s.1
          (Absent-insert w.0 v ws out s.0 a.1),
    )

module _ (nodes : Nodes) where
  -- The wallets of one age are those that nodes of that age have registered.
  abbrev pub Filed : ℕ × Wallets → Type 0
  Filed b =
      (b.1 ≢ [])
      × IsSorted b.1
      × (min_reward_age ≤ b.0)
      × All (λ w. lookup w.0 nodes ≡ some (b.0, w.1)) b.1

  -- A payout goes to the registered wallet of a node that is old enough.
  abbrev pub Registered : ℕ × (NodeAge × PublicKey × ℕ) → Type 0
  Registered e = (min_reward_age ≤ (e.1).0) × (lookup e.0 nodes ≡ some ((e.1).0, (e.1).1))

  abbrev Paid : ℕ → Rewards → Type 0
  Paid bound = All (λ e. ((e.1).0 < bound) × Registered e)

  absent_one :
      (bound age : ℕ) (name : XorName) (key : PublicKey) (out : Rewards)
      → bound ≤ age
      → lookup name nodes ≡ some (age, key)
      → Paid bound out
      → lookup name out ≡ none
  absent_one bound age name key out le reg p = elim (Option-cases (lookup name out)) [
    | inl e ↦ e
    | inr (v, e) ↦
        let q = lookup-All (λ e. ((e.1).0 < bound) × Registered e) name v out p e in
        let same : v.0 ≡ age = ground (arith, q, reg) in absurd (omega (arith, q.0, same))
  ]

  Paid-Absent :
      (bound age : ℕ) (ws : Wallets) (out : Rewards)
      → bound ≤ age
      → All (λ w. lookup w.0 nodes ≡ some (age, w.1)) ws
      → Paid bound out
      → Absent ws out
  Paid-Absent bound age [] out le reg p = tt
  Paid-Absent bound age (w ∷ ws) out le reg p =
      (absent_one bound age w.0 w.1 out le reg.0 p, Paid-Absent bound age ws out le reg.1 p)

  pay_others-Paid :
      (age n : ℕ) (ws : Wallets) (out : Rewards)
      → min_reward_age ≤ age
      → All (λ w. lookup w.0 nodes ≡ some (age, w.1)) ws
      → Paid (suc age) out
      → Paid (suc age) (pay_others age n ws out)
  unfolding pay_others
  pay_others-Paid age n [] out old reg p = p
  pay_others-Paid age n (w ∷ ws) out old reg p =
      pay_others-Paid age n ws _ old reg.1
        (insert-All _ w.0 (age, w.1, n) out (omega arith, (old, reg.0)) p)

  pay_bucket-Paid :
      (age reward : ℕ) (ws : Wallets) (out : Rewards)
      → min_reward_age ≤ age
      → All (λ w. lookup w.0 nodes ≡ some (age, w.1)) ws
      → Paid (suc age) out
      → Paid (suc age) (pay_bucket age reward ws out)
  unfolding pay_bucket
  pay_bucket-Paid age reward [] out old reg p = p
  pay_bucket-Paid age reward (w ∷ ws) out old reg p =
      pay_others-Paid age _ ws _ old reg.1
        (insert-All _ w.0 (age, w.1, _) out (omega arith, (old, reg.0)) p)

  Paid-mono : (i k : ℕ) (out : Rewards) → i ≤ k → Paid i out → Paid k out
  Paid-mono i k [] le p = tt
  Paid-mono i k (e ∷ out) le p =
      ((let q = (p.0).0 in omega arith, (p.0).1), Paid-mono i k out le p.1)

  Paid-Registered : (i : ℕ) (out : Rewards) → Paid i out → All Registered out
  Paid-Registered i [] p = tt
  Paid-Registered i (e ∷ out) p = ((p.0).1, Paid-Registered i out p.1)

  rest_past : (age : ℕ) (cs : BTreeMap ℕ) → Above age cs → All (λ c. suc age ≤ c.0) cs
  rest_past age [] a = tt
  rest_past age (c ∷ cs) a = (a.0, rest_past age cs a.1)

  pub pay_all_lem :
      (buckets : Buckets) (bound : ℕ) (cs : BTreeMap ℕ) (out : Rewards)
      → All (λ c. Filed (c.0, wallets_at (lookup c.0 buckets))) cs
      → IsSorted cs
      → All (λ c. bound ≤ c.0) cs
      → Paid bound out
      → (tokens (pay_all buckets cs out) ≡ tokens out + paid cs)
        × All Registered (pay_all buckets cs out)
  unfolding pay_all
  pay_all_lem buckets bound [] out f s b p = (omega arith, Paid-Registered bound out p)
  pay_all_lem buckets bound ((age, reward) ∷ cs) out f s b p =
      let ws = wallets_at (lookup age buckets) in
      let (ne, sorted, old, reg) = f.0 in
      let here =
        tokens-pay_bucket age reward ws out ne sorted (Paid-Absent bound age ws out b.0 reg p) in
      let p' =
        pay_bucket-Paid age reward ws out old reg
          (Paid-mono bound (suc age) out (let q = b.0 in omega arith) p) in
      let (t, r) =
        pay_all_lem buckets (suc age) cs (pay_bucket age reward ws out) f.1 s.1
          (rest_past age cs s.0) p' in
      (omega (arith, t, here), r)
