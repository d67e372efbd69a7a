-- ===== src/SectionFunds/RewardWallets.antt =====
-- src/section_funds/reward_wallets.rs: the wallets that the nodes of the section have registered.
-- A method on the shared hash map is one step, and the map is kept in the order of its keys.
use sn_node.Prelude.{Option, List, [], ◌∷◌, XorName, PublicKey, NodeAge}
use sn_node.Prelude.BTreeMap.{BTreeSet, lookup, insert, remove, names}
use sn_node.SectionFunds.RewardCalc.{Nodes}

pub record RewardWallets : Type 0 where
  pub node_rewards : Nodes

unfoldable pub new : Nodes → RewardWallets
new node_rewards = record { node_rewards = node_rewards }

unfoldable pub get : XorName → RewardWallets → Option (NodeAge × PublicKey)
get node_name w = lookup node_name w.node_rewards

keys_of : Nodes → List XorName
keys_of [] = []
keys_of ((node, _) ∷ nodes) = node ∷ keys_of nodes

pub all_nodes : RewardWallets → List XorName
unfolding keys_of
all_nodes w = keys_of w.node_rewards

unfoldable pub node_wallets : RewardWallets → Nodes
node_wallets w = w.node_rewards

remove_all : List XorName → Nodes → Nodes
remove_all [] nodes = nodes
remove_all (node ∷ split) nodes = remove_all split (remove node nodes)

unfoldable pub remove_wallets : BTreeSet → RewardWallets → RewardWallets
unfolding remove_all
remove_wallets split_nodes w = record w {
  node_rewards = remove_all (names split_nodes) w.node_rewards;
}

unfoldable pub set_node_wallet : XorName → NodeAge → PublicKey → RewardWallets → RewardWallets
set_node_wallet node_name age wallet w = record w {
  node_rewards = insert node_name (age, wallet) w.node_rewards;
}

unfoldable pub remove_wallet : XorName → RewardWallets → RewardWallets
remove_wallet node_name w = record w { node_rewards = remove node_name w.node_rewards }
