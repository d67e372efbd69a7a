-- ===== src/SectionFunds/RewardStage/Tests.antt =====
-- Shares collected one by one (src/section_funds/reward_stage.rs).
use sn_node.Prelude.{
  ◌≤◌, ◌≢◌, List, leb, length, ℕ, ◌+◌, ◌≡◌, refl, Option, none, some, [], ◌∷◌, arith,
}
use sn_node.Prelude.BTreeMap.{BTreeMap}
use sn_node.Errors.{ok}
use sn_node.SectionFunds.RewardStage.{
  uncollected, Share, SignatureShare, Bls, Collected, combined, check, check_found, add_share,
  collect_checked, collect,
}
use sn_node.SectionFunds.RewardStage.Completion.{
  add_indices, collect_all, is_agreed, collect_all-is_agreed,
}

-- Two shares make a signature, the sum of the first two, unless one is zero.
abbrev combine_two : BTreeMap Share → Option ℕ
combine_two ((_, a) ∷ (_, b) ∷ rest) = some (a + b)
combine_two _ = none

abbrev two_of : Bls
two_of = record { threshold = λ _. 1; combine_signatures = λ _. combine_two }

-- Two shares are not enough for three, although they can be combined.
abbrev three_of : Bls
three_of = record { threshold = λ _. 2; combine_signatures = λ _. combine_two }

abbrev agree : ℕ → ℕ → ℕ × ℕ
agree a sig = (a, sig)

abbrev one_share : Collected ℕ (ℕ × ℕ)
one_share = record { subject = 5; signatures = (0, 10) ∷ []; pending_agreement = none }

abbrev second : SignatureShare
second = record { index = 3; share = 7 }

collect-second : collect two_of 0 (agree 5) second one_share ≡ (
  ok tt,
  record { subject = 5; signatures = (0, 10) ∷ (3, 7) ∷ []; pending_agreement = some (5, 17) },
)
unfolding collect collect_checked check check_found add_share combined
collect-second = refl

collect-below :
    collect three_of 0 (agree 5) second one_share
    ≡ (ok tt, record one_share { signatures = (0, 10) ∷ (3, 7) ∷ [] })
unfolding collect collect_checked check check_found add_share combined
collect-below = refl

two_combine : (sigs : BTreeMap Share) → 2 ≤ length sigs → combine_two sigs ≢ none
two_combine [] h = absurd (omega (arith, h))
two_combine (a ∷ []) h = absurd (omega (arith, h))
two_combine ((i, a) ∷ (j, b) ∷ rest) h = λ e. cc

abbrev repeated : List SignatureShare
repeated = second ∷ second ∷ record { index = 1; share = 4 } ∷ []

collect_all-is_agreed_example :
    is_agreed (collect_all two_of 0 agree repeated (uncollected 5)).pending_agreement
    ≡ leb 2 (length (add_indices repeated []))
collect_all-is_agreed_example = collect_all-is_agreed two_of 0 agree two_combine 5 repeated
