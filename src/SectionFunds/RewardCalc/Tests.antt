-- ===== src/SectionFunds/RewardCalc/Tests.antt =====
-- Runs of src/section_funds/reward_calc.rs, and the theorems about it at concrete inputs.
use sn_node.Prelude.{◌≡◌, refl, some, none, [], ◌∷◌, arith, All}
use sn_node.SectionFunds.RewardCalc.{
  Nodes, Rewards, Buckets, get_buckets, get_buckets_from, add_to_bucket, bucket_multiplier,
  decimal_len, digits, max_age, max_key, node_count, bucket_weight, add_reward, round, rounds,
  pay_all, pay_bucket, pay_others, distribute, distribute_rewards,
}
use sn_node.SectionFunds.RewardCalc.Loop.{rounds_stuck}
use sn_node.SectionFunds.RewardCalc.Payout.{tokens, Registered}
use sn_node.SectionFunds.RewardCalc.Distribution.{Fits, distribute_rewards_pays}

-- Node 3 is too young.
abbrev nodes : Nodes
nodes = (1, (6, 11)) ∷ (2, (7, 12)) ∷ (3, (4, 13)) ∷ (5, (7, 15)) ∷ []

abbrev buckets : Buckets
buckets = (6, (1, 11) ∷ []) ∷ (7, (2, 12) ∷ (5, 15) ∷ []) ∷ []

get_buckets-nodes : get_buckets nodes ≡ buckets
unfolding get_buckets get_buckets_from add_to_bucket
get_buckets-nodes = refl

multiplier : bucket_multiplier 1000 buckets ≡ 1
unfolding bucket_multiplier decimal_len digits max_age max_key node_count
multiplier = refl

-- Three whole rounds of 64 and 256, and 40 in the fourth.
distribute_rewards-nodes :
    distribute_rewards 5 1000 nodes
    ≡ some ((1, (6, 11, 232)) ∷ (2, (7, 12, 384)) ∷ (5, (7, 15, 384)) ∷ [])
unfolding distribute_rewards distribute get_buckets get_buckets_from add_to_bucket bucket_multiplier
    decimal_len digits max_age max_key node_count bucket_weight add_reward round rounds pay_all
    pay_bucket pay_others
distribute_rewards-nodes = refl

nodes-Fits : All (Fits (bucket_multiplier 1000 (get_buckets nodes))) (get_buckets nodes)
unfolding bucket_multiplier decimal_len digits max_age max_key node_count get_buckets
    get_buckets_from add_to_bucket
nodes-Fits = (omega arith, (omega arith, tt))

distribute_rewards_pays_example :
    (out : Rewards) × (distribute_rewards 1000 1000 nodes ≡ some out)
    × (tokens out ≡ 1000)
    × All (Registered nodes) out
distribute_rewards_pays_example =
    distribute_rewards_pays 1000 nodes 2 7 12 (ground arith) refl (omega arith) nodes-Fits

weight-64 : bucket_weight 1 64 ((1, 11) ∷ []) ≡ 0
unfolding bucket_weight
weight-64 = refl

rounds_stuck_example : rounds 1000 1 ((64, (1, 11) ∷ []) ∷ []) ([], 500) ≡ none
rounds_stuck_example = rounds_stuck 1 64 ((1, 11) ∷ []) 1000 [] 500 weight-64 (omega arith)
