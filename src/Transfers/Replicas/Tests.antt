-- ===== src/Transfers/Replicas/Tests.antt =====
-- Runs of src/transfers/replicas.rs, and the theorems about it at concrete states.
use mathlib.Core.List.Permᴰ
use sn_node.Prelude.{◌≡◌, refl, inl, inr, true, false, some, List, [], ◌∷◌, Bool-cases}
use sn_node.Errors.{ok}
use sn_node.SectionFunds.RewardStage.{CreditAgreementProof}
use sn_node.Transfers.Events.{TrResult, ActorHistory}
use sn_node.Transfers.Store.Sorting.{keys_of}
use sn_node.Transfers.Replicas.{Io}
use sn_node.Transfers.Replicas.Queries.{
  credits_in, is_seen, same_credit, history, new, valid_owners, all_owned,
}
use sn_node.Transfers.Replicas.Log.{log, Works, WellNumbered}
use sn_node.Transfers.Replicas.Histories.{IsHistory}
use sn_node.Transfers.Replicas.Handover.{Lists, new_hands_over}
use sn_node.Transfers.Replicas.Soundness.{Sound}
use sn_node.Transfers.Replicas.Samples.{receive, wallets, opens, io, credit, debit, info, nothing}
use sn_node.Transfers.Replicas.Commands.{IsWallets, Command, run, run-Sound}

receive-fresh :
    (known wallet : List CreditAgreementProof) (proof : CreditAgreementProof) (u : Unit {0})
    → TrResult.ok known ≡ TrResult.ok wallet
    → receive wallet proof ≡ TrResult.ok (some u)
    → is_seen same_credit proof known ≡ false
receive-fresh known wallet proof u e v = elim (Bool-cases (is_seen same_credit proof known)) [
  | inr new_one ↦ new_one
  | inl seen ↦ let same : wallet ≡ known = cc in let v' = rw (same, seen) at v in cc
]

wallets-IsWallets : IsWallets wallets
wallets-IsWallets = record {
  injective = λ i j e. e;
  register_same = λ wallet proof event e. cc;
  receive_fresh = λ id info es wallet proof u e v. receive-fresh (credits_in es) wallet proof u e v;
}

-- The database cannot be loaded, and events cannot be written.
abbrev broken : Io
broken = record io { first = record opens { loads = false }; written = false }

io-Works : Works io
io-Works = record { loads = refl; created = refl; dumped = refl; reloads = refl; written = refl }

io-Lists : Lists io
io-Lists db = Permᴰ.refl (keys_of db)

nothing-WellNumbered : WellNumbered wallets nothing
nothing-WellNumbered = record {
  in_memory = λ id s e. absurd (cc);
  agree = λ id s e. absurd (cc);
  on_disk = λ n db e. absurd (cc);
}

nothing-Sound : Sound wallets info nothing
unfolding log credits_in
nothing-Sound = record {
  fixed = refl;
  well = nothing-WellNumbered;
  logs = λ j. record { own = tt; once = tt; known = tt };
}

abbrev commands : List (Io × Command)
commands =
    (io, Command.receives credit)
    ∷ (broken, Command.receives credit)
    ∷ (io, Command.receives credit)
    ∷ (io, Command.registers debit)
    ∷ []

run-Sound_example : Sound wallets info (run wallets commands nothing)
run-Sound_example =
    run-Sound wallets info commands nothing wallets-IsWallets
      (io-Lists, (io-Lists, (io-Lists, (io-Lists, tt)))) nothing-Sound

abbrev seven : ActorHistory
seven = record { credits = credit ∷ []; debits = debit ∷ [] }

seven-IsHistory : IsHistory seven
seven-IsHistory = record { credits_once = (tt, tt); debits_in_order = (tt, tt) }

seven-owned : valid_owners 7 seven ≡ true
unfolding valid_owners all_owned
seven-owned = refl

new_hands_over_example :
    ((new wallets (λ e. io) info [] ((7, seven) ∷ [])).0 ≡ ok tt)
    × ((history wallets io true 7 (new wallets (λ e. io) info [] ((7, seven) ∷ [])).1).0 ≡ ok seven)
new_hands_over_example =
    new_hands_over wallets (λ i j e. e) (λ e. io) io true info ((7, seven) ∷ []) 7 seven
      (λ e. io-Works) io-Works io-Lists (tt, tt) (seven-owned, tt) seven-IsHistory refl
