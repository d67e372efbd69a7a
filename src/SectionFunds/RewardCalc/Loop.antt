-- ===== src/SectionFunds/RewardCalc/Loop.antt =====
-- The loop of `distribute` in src/section_funds/reward_calc.rs.
use sn_node.Prelude.{
  false, ℕ, zero, suc, ◌+◌, ◌-◌, ◌≤◌, ◌<◌, ◌≡◌, ◌≢◌, refl, none, some, [], ◌∷◌, arith, min, All,
  sum_by, Bool-cases, Option-cases, inl, inr, ◌==◌,
}
use sn_node.Prelude.BTreeMap.{
  BTreeMap, lookup, IsSorted, insert-IsSorted, insert-All, sum_by-insert, sum_by-insert_new,
}
use sn_node.SectionFunds.RewardCalc.{Buckets, Wallets, bucket_weight, add_reward, round, rounds}

-- The nanos on the counters.
abbrev pub paid : BTreeMap ℕ → ℕ
paid = sum_by (λ e. e.1)

-- Every bucket gets something in a round that can afford it.
abbrev pub Weighted : ℕ → Buckets → Type 0
Weighted multiplier = All (λ b. 0 < bucket_weight multiplier b.0 b.1)

paid-add_reward :
    (age n : ℕ) (cs : BTreeMap ℕ) → IsSorted cs → paid (add_reward age n cs) ≡ paid cs + n
unfolding add_reward
paid-add_reward age n cs s = elim (Option-cases (lookup age cs)) [
  | inl new ↦ rw new (sum_by-insert_new (λ e. e.1) age n cs new)
  | inr (old, e) ↦ rw e (omega (arith, sum_by-insert (λ e. e.1) age (old + n) old cs s e))
]

trivially : (cs : BTreeMap ℕ) → All (λ e. Unit {0}) cs
trivially [] = tt
trivially (c ∷ cs) = (tt, trivially cs)

-- The counters that a round or the loop may reach: sorted, and for ages of buckets only.
module _ (P : ℕ → Type 0) where
  abbrev pub Keyed : BTreeMap ℕ → Type 0
  Keyed cs = IsSorted cs × All (λ e. P e.0) cs

  add_reward-Keyed : (age n : ℕ) (cs : BTreeMap ℕ) → P age → Keyed cs → Keyed (add_reward age n cs)
  unfolding add_reward
  add_reward-Keyed age n cs p (s, k) =
      (insert-IsSorted age _ cs s, insert-All (λ e. P e.0) age _ cs p k)

  round-Keyed :
      (mult : ℕ) (bs : Buckets) (cs : BTreeMap ℕ) (r : ℕ)
      → All (λ b. P b.0) bs
      → Keyed cs
      → Keyed (round mult bs cs r).0
  unfolding round
  round-Keyed mult [] cs r ps k = k
  round-Keyed mult ((age, ws) ∷ bs) cs r ps k =
      let n = min (bucket_weight mult age ws) r in
      let here = add_reward-Keyed age n cs ps.0 k in
      let rest = round-Keyed mult bs (add_reward age n cs) (r - n) ps.1 here in
      elim (Bool-cases (r - n == 0)) [ inl e ↦ rw e here | inr e ↦ rw e rest ]

-- A round moves nanos from what is left to the counters.
round_conserves :
    (mult : ℕ) (bs : Buckets) (cs : BTreeMap ℕ) (r : ℕ)
    → IsSorted cs
    → let (cs', r') = round mult bs cs r in paid cs' + r' ≡ paid cs + r
unfolding round
round_conserves mult [] cs r s = refl
round_conserves mult ((age, ws) ∷ bs) cs r s =
    let n = min (bucket_weight mult age ws) r in
    let here = paid-add_reward age n cs s in
    let sorted = (add_reward-Keyed (λ _. Unit) age n cs tt (s, trivially cs)).0 in
    let rest = round_conserves mult bs (add_reward age n cs) (r - n) sorted in
    elim (Bool-cases (r - n == 0)) [
      | inl e ↦ rw e (omega (arith, here))
      | inr e ↦ rw e (omega (arith, here, rest))
    ]

round-le : (mult : ℕ) (bs : Buckets) (cs : BTreeMap ℕ) (r : ℕ) → (round mult bs cs r).1 ≤ r
unfolding round
round-le mult [] cs r = omega arith
round-le mult ((age, ws) ∷ bs) cs r =
    let n = min (bucket_weight mult age ws) r in
    let rest = round-le mult bs (add_reward age n cs) (r - n) in
    elim (Bool-cases (r - n == 0)) [
      | inl e ↦ rw e (omega arith)
      | inr e ↦ rw e (omega (arith, rest))
    ]

-- A round with something to give makes progress.
round-lt :
    (mult : ℕ) (bs : Buckets) (cs : BTreeMap ℕ) (r : ℕ)
    → bs ≢ []
    → Weighted mult bs
    → 0 < r
    → (round mult bs cs r).1 < r
unfolding round
round-lt mult [] cs r ne w h = absurd (ne refl)
round-lt mult ((age, ws) ∷ bs) cs r ne w h =
    let n = min (bucket_weight mult age ws) r in
    let pos = w.0 in
    let rest = round-le mult bs (add_reward age n cs) (r - n) in
    elim (Bool-cases (r - n == 0)) [
      | inl e ↦ rw e (omega arith)
      | inr e ↦ rw e (omega (arith, rest))
    ]

-- With as much fuel as there are nanos left the loop ends, and all of them are on the counters.
module _ (P : ℕ → Type 0) (mult : ℕ) (bs : Buckets) where
  pub rounds_total :
      (fuel : ℕ) (cs : BTreeMap ℕ) (r : ℕ)
      → bs ≢ []
      → Weighted mult bs
      → All (λ b. P b.0) bs
      → Keyed P cs
      → r ≤ fuel
      → (cs' : BTreeMap ℕ) × (rounds fuel mult bs (cs, r) ≡ some cs')
        × Keyed P cs'
        × (paid cs' ≡ paid cs + r)
  unfolding rounds
  rounds_total zero cs r ne w ps k h = (cs, ground arith, k, omega arith)
  rounds_total (suc f) cs r ne w ps k h = elim (Bool-cases (r == 0)) [
    | inl e ↦ rw e (cs, refl, k, ground arith)
    | inr e ↦
        let pos : 0 < r = ground arith in
        let lt = round-lt mult bs cs r ne w pos in
        let (cs', r') = round mult bs cs r in
        let (out, eq, k', p) =
          rounds_total f cs' r' ne w ps (round-Keyed P mult bs cs r ps k) (omega arith) in
        rw e (out, eq, k', omega (arith, p, round_conserves mult bs cs r k.0))
  ]

-- A bucket whose weight wraps to zero is never paid, so alone it keeps the loop running for ever.
pub rounds_stuck :
    (mult age : ℕ) (ws : Wallets) (fuel : ℕ) (cs : BTreeMap ℕ) (r : ℕ)
    → bucket_weight mult age ws ≡ 0
    → 0 < r
    → rounds fuel mult ((age, ws) ∷ []) (cs, r) ≡ none
unfolding rounds round
rounds_stuck mult age ws zero cs r z h = ground arith
rounds_stuck mult age ws (suc f) cs r z h =
    let m : min (bucket_weight mult age ws) r ≡ 0 = omega arith in
    let same : r - min (bucket_weight mult age ws) r ≡ r = omega arith in
    let more : (r == 0) ≡ false = ground arith in
    rw (more, same, more) (rounds_stuck mult age ws f _ r z h)
