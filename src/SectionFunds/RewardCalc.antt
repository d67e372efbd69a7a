-- ===== src/SectionFunds/RewardCalc.antt =====
-- src/section_funds/reward_calc.rs: what is paid out and minted, and who gets how much.
-- Amounts are u64, and products, powers and sums wrap as in a build without overflow checks. The
-- `while` of `distribute` takes fuel; `none` means that it ran out.
pub mod Mint
pub mod Loop
pub mod Payout
pub mod Filing
pub mod Distribution
mod Tests
use sn_node.Prelude.{
  ℕ, zero, suc, ◌+◌, ◌-◌, ◌*◌, ◌/◌, ◌%◌, ◌^◌, min, max, Option, none, some, List, [], ◌∷◌, length,
  ltb, leb, ◌==◌, if◌then◌else◌, u64_mod, XorName, PublicKey, NodeAge, Token,
}
use sn_node.Prelude.BTreeMap.{BTreeMap, lookup, insert}

abbrev pub min_reward_age : NodeAge
min_reward_age = 6

pub get_reward_and_mint_amount : Token → Token → Token → Token
get_reward_and_mint_amount payments section_managed max_supply =
    if ltb section_managed max_supply
    then (payments + min payments (max_supply - section_managed)) % u64_mod
    else let excess_supply = section_managed - max_supply in
      if ltb excess_supply payments then payments - excess_supply else 0

abbrev pub Wallets : Type 0
Wallets = BTreeMap PublicKey

abbrev pub Buckets : Type 0
Buckets = BTreeMap Wallets

abbrev pub Nodes : Type 0
Nodes = BTreeMap (NodeAge × PublicKey)

abbrev pub Rewards : Type 0
Rewards = BTreeMap (NodeAge × PublicKey × Token)

abbrev wallets_at : Option Wallets → Wallets
wallets_at none = []
wallets_at (some ws) = ws

-- One node of the loop in `get_buckets`.
unfoldable pub add_to_bucket : Buckets → XorName → NodeAge × PublicKey → Buckets
add_to_bucket buckets node_name (age, wallet) =
    if leb min_reward_age age
    then insert age (insert node_name wallet (wallets_at (lookup age buckets))) buckets
    else buckets

pub get_buckets_from : Buckets → Nodes → Buckets
get_buckets_from buckets [] = buckets
get_buckets_from buckets ((node_name, node) ∷ nodes) =
    get_buckets_from (add_to_bucket buckets node_name node) nodes

unfoldable pub get_buckets : Nodes → Buckets
unfolding get_buckets_from
get_buckets = get_buckets_from []

-- `remaining_amount.to_string().len()`: a u64 has at most 20 digits.
digits : ℕ → ℕ → ℕ
digits zero n = 1
digits (suc f) n = let rest = digits f (n / 10) in if ltb n 10 then 1 else rest + 1

decimal_len : ℕ → ℕ
unfolding digits
decimal_len = digits 19

-- The greatest key, and 1 for no key.
max_key : ℕ → Buckets → ℕ
max_key m [] = m
max_key m ((age, _) ∷ bs) = max_key (max m age) bs

max_age : Buckets → ℕ
unfolding max_key
max_age [] = 1
max_age ((age, _) ∷ bs) = max_key age bs

node_count : Buckets → ℕ
node_count [] = 0
node_count ((_, ws) ∷ bs) = (length ws + node_count bs) % u64_mod

unfoldable pub bucket_multiplier : Token → Buckets → ℕ
unfolding decimal_len max_age node_count
bucket_multiplier amount buckets =
    let share = amount / (max_age buckets * node_count buckets % u64_mod) in
    let divisor = max_age buckets * decimal_len amount % u64_mod in max 1 (share / divisor)

-- What a bucket gets in one round, if so much is left.
pub bucket_weight : ℕ → NodeAge → Wallets → ℕ
bucket_weight multiplier age wallets =
    2 ^ age % u64_mod * length wallets % u64_mod * multiplier % u64_mod

-- `and_modify(+= reward).or_insert(reward)`.
abbrev added : Option ℕ → ℕ → ℕ
added none reward = reward
added (some existing) reward = existing + reward

pub add_reward : NodeAge → ℕ → BTreeMap ℕ → BTreeMap ℕ
add_reward age reward counters = insert age (added (lookup age counters) reward) counters

-- The `for` over the buckets, which stops when nothing is left.
pub round : ℕ → Buckets → BTreeMap ℕ → ℕ → BTreeMap ℕ × ℕ
unfolding bucket_weight add_reward
round multiplier [] counters remaining = (counters, remaining)
round multiplier ((age, wallets) ∷ bs) counters remaining =
    let reward = min (bucket_weight multiplier age wallets) remaining in
    let counters' = add_reward age reward counters in
    let rest = round multiplier bs counters' (remaining - reward) in
    if remaining - reward == 0 then (counters', remaining - reward) else rest

-- The `while remaining_amount > 0`.
pub rounds : ℕ → ℕ → Buckets → BTreeMap ℕ × ℕ → Option (BTreeMap ℕ)
rounds zero multiplier bs (counters, remaining) = if remaining == 0 then some counters else none
rounds (suc fuel) multiplier bs (counters, remaining) =
    let rest = rounds fuel multiplier bs (round multiplier bs counters remaining) in
    if remaining == 0 then some counters else rest

-- The wallets of one age: the first gets the remainder too.
pay_others : NodeAge → ℕ → Wallets → Rewards → Rewards
pay_others age reward_per_wallet [] out = out
pay_others age reward_per_wallet ((node_name, wallet) ∷ ws) out =
    pay_others age reward_per_wallet ws (insert node_name (age, wallet, reward_per_wallet) out)

pub pay_bucket : NodeAge → ℕ → Wallets → Rewards → Rewards
unfolding pay_others
pay_bucket age reward [] out = out
pay_bucket age reward ((node_name, wallet) ∷ ws) out =
    let wallet_count = suc (length ws) in
    let reward_per_wallet = reward / wallet_count in
    pay_others age reward_per_wallet ws
      (insert node_name (age, wallet, reward_per_wallet + reward % wallet_count) out)

pub pay_all : Buckets → BTreeMap ℕ → Rewards → Rewards
unfolding pay_bucket
pay_all buckets [] out = out
pay_all buckets ((age, reward) ∷ cs) out =
    pay_all buckets cs (pay_bucket age reward (wallets_at (lookup age buckets)) out)

-- The part of `distribute` after its loop.
abbrev pay_out : Buckets → Option (BTreeMap ℕ) → Option Rewards
pay_out buckets none = none
pay_out buckets (some counters) = some (pay_all buckets counters [])

pub distribute : ℕ → Token → Buckets → Option Rewards
distribute fuel amount [] = some []
distribute fuel amount (b ∷ bs) =
    let buckets = b ∷ bs in
    pay_out buckets (rounds fuel (bucket_multiplier amount buckets) buckets ([], amount))

pub distribute_rewards : ℕ → Token → Nodes → Option Rewards
distribute_rewards fuel amount nodes = distribute fuel amount (get_buckets nodes)
