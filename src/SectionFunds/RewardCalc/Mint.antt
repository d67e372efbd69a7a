-- ===== src/SectionFunds/RewardCalc/Mint.antt =====
-- The size of a payout (`get_reward_and_mint_amount` of src/section_funds/reward_calc.rs).
use sn_node.Prelude.{◌+◌, ◌-◌, ◌*◌, ◌≤◌, ◌<◌, ◌≡◌, ◌⊎◌, arith, u64_mod, Token}
use sn_node.SectionFunds.RewardCalc.{get_reward_and_mint_amount}

-- Below the section's share of the supply, and if twice the payments fit a u64, the payments are
-- paid out again and as much is minted, or what is left up to the share if that is less.
pub mint_below_supply :
    (payments section_managed max_supply : Token)
    → payments + payments < u64_mod
    → section_managed < max_supply
    → let reward = get_reward_and_mint_amount payments section_managed max_supply in
      (payments ≤ reward)
      × (reward ≤ 2 * payments)
      × (section_managed + reward ≤ max_supply + payments)
      × ((reward ≡ 2 * payments) ⊎ (section_managed + reward ≡ max_supply + payments))
unfolding get_reward_and_mint_amount
mint_below_supply p s m h b = (ground arith, ground arith, ground arith, ground arith)

-- At or above the share nothing is minted: the payments are burned until the excess is gone, and
-- the rest of them is paid out.
pub burn_above_supply :
    (payments section_managed max_supply : Token)
    → max_supply ≤ section_managed
    → let reward = get_reward_and_mint_amount payments section_managed max_supply in
      (reward ≤ payments)
      × ((reward + (section_managed - max_supply) ≡ payments)
          ⊎ ((reward ≡ 0) × (payments ≤ section_managed - max_supply)))
unfolding get_reward_and_mint_amount
burn_above_supply p s m b = (ground arith, ground arith)
