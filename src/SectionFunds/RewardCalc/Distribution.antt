-- ===== src/SectionFunds/RewardCalc/Distribution.antt =====
-- `distribute_rewards` of src/section_funds/reward_calc.rs as a whole.
use native.Mathlib.Nat.{mod-eq_of_lt, one-le-pow, le-mul_of_pos_right, one-le-mul}
use sn_node.Prelude.{
  ℕ, ◌*◌, ◌^◌, ◌≤◌, ◌<◌, ◌≡◌, ◌≢◌, refl, some, [], ◌∷◌, arith, All, length, u64_mod, XorName,
  PublicKey, NodeAge, Token,
}
use sn_node.Prelude.BTreeMap.{entries_found, BTreeMap, lookup, IsSorted}
use sn_node.SectionFunds.RewardCalc.{
  Buckets, Wallets, Nodes, Rewards, wallets_at, min_reward_age, bucket_weight, bucket_multiplier,
  get_buckets, pay_all, distribute, distribute_rewards,
}
use sn_node.SectionFunds.RewardCalc.Loop.{Weighted, rounds_total}
use sn_node.SectionFunds.RewardCalc.Payout.{tokens, Filed, Registered, pay_all_lem}
use sn_node.SectionFunds.RewardCalc.Filing.{IsFiled, get_buckets-IsFiled, get_buckets-ne-nil}

-- What a round would give the bucket fits a u64.
abbrev pub Fits : ℕ → ℕ × Wallets → Type 0
Fits multiplier b = 2 ^ b.0 * length b.1 * multiplier < u64_mod

length-pos : (ws : Wallets) → ws ≢ [] → 0 < length ws
length-pos [] ne = absurd (ne refl)
length-pos (w ∷ ws) ne = omega arith

-- Then nothing wraps, and the weight is positive.
Fits-weight :
    (mult age : ℕ) (ws : Wallets)
    → 0 < mult
    → ws ≢ []
    → Fits mult (age, ws)
    → 0 < bucket_weight mult age ws
unfolding bucket_weight
Fits-weight mult age ws pos ne h =
    let power : 1 ≤ 2 ^ age = one-le-pow age 2 (omega arith) in
    let filled : 1 ≤ length ws = length-pos ws ne in
    let one : 2 ^ age ≤ 2 ^ age * length ws = le-mul_of_pos_right _ filled in
    let two : 2 ^ age * length ws ≤ 2 ^ age * length ws * mult = le-mul_of_pos_right _ pos in
    rw
      (
        mod-eq_of_lt (let q : 2 ^ age < u64_mod = omega arith in q),
        mod-eq_of_lt (let q : 2 ^ age * length ws < u64_mod = omega arith in q),
        mod-eq_of_lt h,
      )
      (one-le-mul (one-le-mul power filled) pos)

Fits-Weighted :
    (nodes : Nodes) (mult : ℕ) (bs : Buckets)
    → 0 < mult
    → All (Filed nodes) bs
    → All (Fits mult) bs
    → Weighted mult bs
Fits-Weighted nodes mult [] pos f h = tt
Fits-Weighted nodes mult ((age, ws) ∷ bs) pos f h =
    (Fits-weight mult age ws pos (f.0).0 h.0, Fits-Weighted nodes mult bs pos f.1 h.1)

multiplier_pos : (amount : Token) (bs : Buckets) → 0 < bucket_multiplier amount bs
unfolding bucket_multiplier
multiplier_pos amount bs = omega arith

-- Every bucket is what its own age finds.
buckets_found :
    (nodes : Nodes) (bs : Buckets)
    → IsFiled nodes bs
    → All (λ b. Filed nodes (b.0, wallets_at (lookup b.0 bs))) bs
buckets_found nodes bs f = refile bs bs f.1 (entries_found bs f.0)
  where
    refile :
        (cs ds : Buckets)
        → All (Filed nodes) cs
        → All (λ e. lookup e.0 ds ≡ some e.1) cs
        → All (λ b. Filed nodes (b.0, wallets_at (lookup b.0 ds))) cs
    refile [] ds f e = tt
    refile (c ∷ cs) ds f e = (rw e.0 f.0, refile cs ds f.1 e.1)

keys_nonneg : (cs : BTreeMap ℕ) → All (λ c. 0 ≤ c.0) cs
keys_nonneg [] = tt
keys_nonneg (c ∷ cs) = (omega arith, keys_nonneg cs)

distribute_pays :
    (nodes : Nodes) (amount : Token) (bs : Buckets)
    → bs ≢ []
    → IsFiled nodes bs
    → All (Fits (bucket_multiplier amount bs)) bs
    → (out : Rewards) × (distribute amount amount bs ≡ some out)
      × (tokens out ≡ amount)
      × All (Registered nodes) out
unfolding distribute
distribute_pays nodes amount [] ne f fits = absurd (ne refl)
distribute_pays nodes amount (b ∷ rest) ne f fits =
    let bs = b ∷ rest in
    let mult = bucket_multiplier amount bs in
    let (cs, eq, (sorted, filed), total) =
      rounds_total (λ age. Filed nodes (age, wallets_at (lookup age bs))) mult bs amount [] amount
        ne (Fits-Weighted nodes mult bs (multiplier_pos amount bs) f.1 fits)
        (buckets_found nodes bs f) (tt, tt) (omega arith) in
    let (t, r) = pay_all_lem nodes bs 0 cs [] filed sorted (keys_nonneg cs) tt in
    rw eq (pay_all bs cs [], refl, omega (arith, t, total), r)

-- If some node is old enough and no weight overflows, the loop ends after at most one round for
-- each nano: exactly the amount is paid, and each payment goes to the registered wallet of a node
-- of at least the minimal age.
pub distribute_rewards_pays :
    (amount : Token) (nodes : Nodes) (name : XorName) (age : NodeAge) (key : PublicKey)
    → IsSorted nodes
    → lookup name nodes ≡ some (age, key)
    → min_reward_age ≤ age
    → All (Fits (bucket_multiplier amount (get_buckets nodes))) (get_buckets nodes)
    → (out : Rewards) × (distribute_rewards amount amount nodes ≡ some out)
      × (tokens out ≡ amount)
      × All (Registered nodes) out
unfolding distribute_rewards
distribute_rewards_pays amount nodes name age key s e old fits =
    distribute_pays nodes amount (get_buckets nodes) (get_buckets-ne-nil nodes name age key e old)
      (get_buckets-IsFiled nodes s) fits
