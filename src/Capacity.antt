-- ===== src/Capacity.antt =====
-- src/capacity: which nodes of a section are full, and what a write costs by their number.
-- The cost itself is computed on floats, and is a parameter of the numbers that go into it.
use sn_node.Prelude.{
  ℕ, ◌+◌, ◌-◌, ◌%◌, Bool, List, [], ◌∷◌, length, if◌then◌else◌, XorName, PublicKey, Token,
}
use sn_node.Prelude.BTreeMap.{BTreeMap, insert}
use sn_node.Errors.{ok, err, pickle_db}
use sn_node.Action.{Action}

-- The database of full nodes; those of the metadata and the holders are in the blob register. The
-- list under a key has the one entry "Node Full".
pub record Capacity : Type 0 where
  pub full_adults : BTreeMap (List ℕ)

abbrev node_full : ℕ
node_full = 0

-- The numbers of a u8.
abbrev pub u8_mod : ℕ
u8_mod = 256

unfoldable pub full_nodes : Capacity → ℕ
full_nodes c = length c.full_adults % u8_mod

-- `lcreate` makes the list anew, and fails without a change if the database cannot be written.
unfoldable pub increase_full_node_count : Bool → PublicKey → Action Capacity (Unit {0})
increase_full_node_count written node_id c =
    if written
    then (ok tt, record { full_adults = insert node_id (node_full ∷ []) c.full_adults })
    else (err pickle_db, c)

-- `rate_limit` from where the nodes are counted: of the bytes, the available nodes, the full ones,
-- all of them, and the length of the prefix. And whether more than a ratio of the nodes is full.
pub record Rates : Type 0 where
  pub rate_limit : ℕ → ℕ → ℕ → ℕ → ℕ → Token
  pub above_ratio : ℕ → ℕ → Bool

-- The difference of two u8, which wraps.
unfoldable pub available_nodes : ℕ → ℕ → ℕ
available_nodes all_nodes full_nodes = (all_nodes + u8_mod - full_nodes) % u8_mod

-- `RateLimit::from`.
unfoldable pub from : Rates → ℕ → ℕ → List XorName → Capacity → Token
unfolding full_nodes available_nodes
from rates prefix_len bytes our_adults c =
    let full = full_nodes c in
    let all = length our_adults % u8_mod in
    rates.rate_limit bytes (available_nodes all full) full all prefix_len

pub more_nodes_required : Rates → List XorName → Capacity → Bool
unfolding full_nodes
more_nodes_required rates our_adults c = rates.above_ratio (full_nodes c) (length our_adults)
