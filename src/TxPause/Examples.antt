-- ===== src/TxPause/Examples.antt =====
-- Tests of pallets/tx-pause, and the properties at concrete inputs.
use hackathon_parity_eu.Prelude.{
  ◌≡◌, refl, Bool, true, false, Option, none, some, List, [], ◌∷◌, Bytes, err, beq, is_utf8,
  bytes_key, bytes_pair_key, bytes_discrete, bytes_pair_discrete, ℕ_discrete,
}
use hackathon_parity_eu.TxPause.{
  Config, Storage, cannot_pause, pause_transaction, ensure_can_pause, pause_pallets,
  unpause_pallets, filter_contains,
}
use hackathon_parity_eu.TxPause.Filter.{Blocks, Frees}
use hackathon_parity_eu.TxPause.Pallets.{pause_pallets-Blocks, unpause_pallets-Frees}
use hackathon_parity_eu.TxPause.Safety.{IsSafe, run, run-IsSafe, pause_whole, pause_one}

abbrev tx_pause : Bytes
tx_pause = b't' ∷ []

abbrev balances : Bytes
balances = b'b' ∷ []

abbrev transfer : Bytes
transfer = b'x' ∷ []

abbrev calls : Bytes → Option (List Bytes)
calls p = elim (beq p balances) [ true ↦ some (transfer ∷ []) | false ↦ none ]

abbrev runtime : Config
runtime = record {
  Origin = Bool;
  pause_origin = λ o. o;
  unpause_origin = λ o. o;
  non_pausable = λ p. false;
  max_call_names = 25;
  name = tx_pause;
  get_call_names = calls;
  pause_weight = 10;
}

abbrev fresh : Storage
fresh = record { paused_transactions = []; events = [] }

not_utf8 : is_utf8 (0xe2 ∷ 0x82 ∷ []) ≡ false
unfolding is_utf8
not_utf8 = refl

euro_utf8 : is_utf8 (0xe2 ∷ 0x82 ∷ 0xac ∷ []) ≡ true
unfolding is_utf8
euro_utf8 = refl

own_pallet : pause_transaction runtime true tx_pause transfer fresh ≡ err cannot_pause
unfolding pause_transaction ensure_can_pause bytes_discrete is_utf8 ℕ_discrete
own_pallet = refl

abbrev paused : Storage
paused = record fresh { paused_transactions = ((balances, transfer), tt) ∷ [] }

pause_pallets-Blocks_example :
    Blocks (balances, transfer) true true fresh (pause_pallets runtime true (balances ∷ []) fresh)
unfolding bytes_discrete bytes_pair_discrete is_utf8 ℕ_discrete
pause_pallets-Blocks_example =
    pause_pallets-Blocks runtime (balances, transfer) true (balances ∷ []) fresh

unpause_pallets-Frees_example :
    Frees
      (balances, transfer)
      true
      true
      paused
      (unpause_pallets runtime true (balances ∷ []) paused)
unfolding bytes_discrete bytes_pair_discrete is_utf8 ℕ_discrete
unpause_pallets-Frees_example =
    unpause_pallets-Frees runtime (balances, transfer) true (balances ∷ []) paused

fresh-IsSafe : IsSafe runtime fresh
unfolding filter_contains
fresh-IsSafe p f h = cc

run-IsSafe_example :
    IsSafe runtime
      (run runtime (pause_whole true (balances ∷ []) ∷ pause_one true tx_pause transfer ∷ []) fresh)
run-IsSafe_example =
    run-IsSafe runtime (pause_whole true (balances ∷ []) ∷ pause_one true tx_pause transfer ∷ [])
      fresh fresh-IsSafe
